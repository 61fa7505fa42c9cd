-- ===== src/Keys.antt =====
-- ed.xmap.c: the tree of extended keys, with `AddXkey`, `DeleteXkey` and `GetXkey`.
pub mod Lookup
pub mod Added
pub mod Deleted
pub mod Bound
use mcsh.Base.{ℕ, Bool, true, false, ◌&&◌, [], ◌∷◌, ◌==◌, if◌then◌else◌, Str}

-- The type of a node with its value: XK_NOD, XK_CMD, XK_STR and XK_EXE.
pub data Binding : Type 0 where
  nod : Binding
  cmd : ℕ → Binding
  str exe : Str → Binding

-- `XmapNode`, with a null pointer: the character, the type and value, `next` and `sibling`.
pub data Xmap : Type 0 where
  null : Xmap
  node : ℕ → Binding → Xmap → Xmap → Xmap

abbrev pub is_null : Xmap → Bool
is_null null = true
is_null (node ch b next sibling) = false

-- A new node by `GetFreeNode` for each character, the last one with the binding.
unfoldable pub new_nodes : ℕ → Str → Binding → Xmap
new_nodes c [] v = node c v null null
new_nodes c (d ∷ ds) v = node c nod (new_nodes d ds v) null

-- `TryNode` for the key `c ∷ cs`; a null pointer is where `GetFreeNode` is called for it.
unfoldable pub try_node : Xmap → ℕ → Str → Binding → Xmap
unfolding new_nodes
try_node null c cs v = new_nodes c cs v
try_node (node ch b next sibling) c [] v =
    if ch == c then node ch v null sibling else node ch b next (try_node sibling c [] v)
try_node (node ch b next sibling) c (d ∷ ds) v =
    if ch == c
    then node ch b (try_node next d ds v) sibling
    else node ch b next (try_node sibling c (d ∷ ds) v)

-- F_XKEY
abbrev pub f_xkey : ℕ
f_xkey = 53

abbrev pub is_lead_in : Binding → Bool
is_lead_in (cmd k) = k == f_xkey
is_lead_in b = false

-- The refusals print a message.
unfoldable pub add_xkey : Str → Binding → Xmap → Xmap
unfolding try_node
add_xkey [] v t = t
add_xkey (c ∷ cs) v t = if is_lead_in v then t else try_node t c cs v

-- What is left at a pointer, and whether the node there was freed.
abbrev pub Left : Type 0
Left = Xmap × Bool

-- A node whose next character was taken out, or not.
abbrev pub without_next : ℕ → Binding → Left → Xmap → Left
without_next ch b (next, freed) sibling =
    if freed && is_null next then (sibling, true) else (node ch b next sibling, false)

abbrev pub beside : ℕ → Binding → Xmap → Left → Left
beside ch b next (sibling, freed) = (node ch b next sibling, freed)

unfoldable pub try_delete_node : Xmap → ℕ → Str → Left
try_delete_node null c cs = (null, false)
try_delete_node (node ch b next sibling) c [] =
    if ch == c then (sibling, true) else beside ch b next (try_delete_node sibling c [])
try_delete_node (node ch b next sibling) c (d ∷ ds) =
    if ch == c
    then without_next ch b (try_delete_node next d ds) sibling
    else beside ch b next (try_delete_node sibling c (d ∷ ds))

unfoldable pub delete_xkey : Str → Xmap → Xmap
unfolding try_delete_node
delete_xkey [] t = t
delete_xkey (c ∷ cs) t = (try_delete_node t c cs).0

-- What `TraverseMap` gives: a type and value with the characters that are not read yet, the end of
-- the input, a mismatch. A null pointer is read only in an empty tree.
pub data Found : Type 0 where
  found : Binding → Str → Found
  send_eof mismatch null_pointer : Found

-- The first character is read already; `GetNextChar` gives the others.
unfoldable pub traverse : Xmap → ℕ → Str → Found
traverse null c rest = null_pointer
traverse (node ch b next sibling) c [] =
    if ch == c
    then (if is_null next then found b [] else send_eof)
    else if is_null sibling
    then mismatch
    else traverse sibling c []
traverse (node ch b next sibling) c (d ∷ rest) =
    if ch == c
    then (if is_null next then found b (d ∷ rest) else traverse next d rest)
    else if is_null sibling
    then mismatch
    else traverse sibling c (d ∷ rest)

unfoldable pub get_xkey : ℕ → Str → Xmap → Found
unfolding traverse
get_xkey c rest t = traverse t c rest
