-- ===== src/Parse.antt =====
-- sh.parse.c: the syntax tree of a command line, built from its words by recursive descent.
-- `Command` has the tree, `Simple` has `syn3`'s two loops, `Syntax` has the levels of the grammar.
pub mod Command
pub mod Simple
pub mod Syntax
pub mod Grouped
pub mod Depth
pub mod Words
pub mod Saved
pub mod WellFormed
pub mod Ends
