-- ===== src/Vars.antt =====
-- sh.set.c: the tables of shell variables and of aliases, kept as height-balanced search trees.
pub mod Tree
pub mod Table
pub mod Inorder
pub mod Avl
pub mod Order
pub mod Lookup
pub mod Update
pub mod Set
