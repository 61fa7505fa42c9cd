-- ===== src/Keys/Bound.antt =====
-- ed.xmap.c: the tree under `AddXkey` and `DeleteXkey`, and why `GetNextCommand` does not abort.
use mcsh.Base.{
  ℕ, Bool, false, ◌||◌, [], ◌∷◌, ◌==◌, Str, ◌≡◌, ◌≢◌, refl, ◌∙◌, arith, Bool-cases, inl, inr,
}
use mcsh.Keys.{
  Binding, nod, Xmap, null, node, try_delete_node, delete_xkey, new_nodes, try_node, add_xkey,
  found, get_xkey,
}
use mcsh.Keys.Added.{try_node-is_null, new_nodes-is_null}
use mcsh.Keys.Deleted.{is_nod, has, IsWell, left-is_null}

new_nodes-IsWell : (c : ℕ) (cs : Str) (v : Binding) → is_nod v ≡ false → IsWell (new_nodes c cs v)
unfolding new_nodes has
new_nodes-IsWell c [] v h = ground (arith, h)
new_nodes-IsWell c (d ∷ ds) v h =
    ground (arith, new_nodes-is_null d ds v, new_nodes-IsWell d ds v h)

has-try_node :
    (t : Xmap) (c x : ℕ) (cs : Str) (v : Binding) → has (try_node t c cs v) x ≡ (c == x || has t x)
unfolding has try_node new_nodes
has-try_node null c x [] v = ground arith
has-try_node null c x (d ∷ ds) v = ground arith
has-try_node (node ch b next sibling) c x [] v = ground (arith, has-try_node sibling c x [] v)
has-try_node (node ch b next sibling) c x (d ∷ ds) v =
    ground (arith, has-try_node sibling c x (d ∷ ds) v)

other_char : (c ch : ℕ) (b : Bool) → (ch == c) ≡ false → b ≡ false → (c == ch || b) ≡ false
other_char c ch b h k = ground arith

-- Adding a key that is bound keeps the tree well formed.
try_node-IsWell :
    (t : Xmap) (c : ℕ) (cs : Str) (v : Binding)
    → is_nod v ≡ false
    → IsWell t
    → IsWell (try_node t c cs v)
unfolding try_node
try_node-IsWell null c cs v h w = new_nodes-IsWell c cs v h
try_node-IsWell (node ch b next sibling) c [] v h w = elim (Bool-cases (ch == c)) [
  | inl e ↦ rw (e, try_node) (w.0, rw h refl, (tt, w.2.1))
  | inr e ↦
      let n : has (try_node sibling c [] v) ch ≡ false =
        has-try_node sibling c ch [] v ∙ other_char c ch (has sibling ch) e w.0 in
      rw (e, try_node) (n, w.1, (w.2.0, try_node-IsWell sibling c [] v h w.2.1))
]
try_node-IsWell (node ch b next sibling) c (d ∷ ds) v h w = elim (Bool-cases (ch == c)) [
  | inl e ↦
      let n = try_node-is_null next d ds v in
      rw (e, try_node) (w.0, rw n refl, (try_node-IsWell next d ds v h w.2.0, w.2.1))
  | inr e ↦
      let n : has (try_node sibling c (d ∷ ds) v) ch ≡ false =
        has-try_node sibling c ch (d ∷ ds) v ∙ other_char c ch (has sibling ch) e w.0 in
      rw (e, try_node) (n, w.1, (w.2.0, try_node-IsWell sibling c (d ∷ ds) v h w.2.1))
]

pub add_xkey-IsWell :
    (key : Str) (v : Binding) (t : Xmap) → is_nod v ≡ false → IsWell t → IsWell (add_xkey key v t)
unfolding add_xkey
add_xkey-IsWell [] v t h w = w
add_xkey-IsWell (c ∷ cs) v t h w = ground (arith, w, try_node-IsWell t c cs v h w)

has-try_delete_node :
    (t : Xmap) (c x : ℕ) (cs : Str) → has t x ≡ false → has (try_delete_node t c cs).0 x ≡ false
unfolding has try_delete_node
has-try_delete_node null c x cs h = refl
has-try_delete_node (node ch b next sibling) c x [] h =
    ground (arith, has-try_delete_node sibling c x [])
has-try_delete_node (node ch b next sibling) c x (d ∷ ds) h =
    ground (arith, has-try_delete_node sibling c x (d ∷ ds))

try_delete_node-IsWell :
    (t : Xmap) (c : ℕ) (cs : Str) → IsWell t → IsWell (try_delete_node t c cs).0
unfolding try_delete_node
try_delete_node-IsWell null c cs w = w
try_delete_node-IsWell (node ch b next sibling) c [] w =
    ground (arith, w, try_delete_node-IsWell sibling c [], has-try_delete_node sibling c ch [])
try_delete_node-IsWell (node ch b next sibling) c (d ∷ ds) w = ground (
  arith,
  w,
  try_delete_node-IsWell sibling c (d ∷ ds),
  has-try_delete_node sibling c ch (d ∷ ds),
  try_delete_node-IsWell next d ds,
  left-is_null next d ds,
)

pub delete_xkey-IsWell : (key : Str) (t : Xmap) → IsWell t → IsWell (delete_xkey key t)
unfolding delete_xkey
delete_xkey-IsWell [] t w = w
delete_xkey-IsWell (c ∷ cs) t w = try_delete_node-IsWell t c cs w

-- In a well formed tree what is found has a binding.
get_xkey-bound :
    (t : Xmap) (c : ℕ) (input rest : Str) (b : Binding)
    → IsWell t
    → get_xkey c input t ≡ found b rest
    → is_nod b ≡ false
unfolding get_xkey
get_xkey-bound null c input rest b w h = absurd (ground (arith, h))
get_xkey-bound (node ch b' next sibling) c [] rest b w h =
    ground (arith, w, h, get_xkey-bound sibling c [] rest b)
get_xkey-bound (node ch b' next sibling) c (d ∷ input) rest b w h =
    ground
      (arith, w, h, get_xkey-bound sibling c (d ∷ input) rest b, get_xkey-bound next d input rest b)

-- The trees that calls of `AddXkey` and `DeleteXkey` make of an empty one.
pub data Made : Xmap → Type 0 where
  empty : Made null
  added :
      {t : Xmap} → Made t → (key : Str) (v : Binding) → is_nod v ≡ false → Made (add_xkey key v t)
  deleted : {t : Xmap} → Made t → (key : Str) → Made (delete_xkey key t)

pub Made-IsWell : {t : Xmap} → Made t → IsWell t
Made-IsWell empty = tt
Made-IsWell (added m key v h) = add_xkey-IsWell key v _ h (Made-IsWell m)
Made-IsWell (deleted m key) = delete_xkey-IsWell key _ (Made-IsWell m)

-- In a tree that was made by adding and deleting keys, what is found always has a binding: the
-- `abort` of `GetNextCommand` for a node without one is not reached.
pub get_xkey-ne-nod :
    {t : Xmap} → Made t → (c : ℕ) (input rest : Str) → get_xkey c input t ≢ found nod rest
get_xkey-ne-nod m c input rest h =
    ground (arith, get_xkey-bound _ c input rest nod (Made-IsWell m) h)
