-- ===== src/Keys/Deleted.antt =====
-- ed.xmap.c: the bindings of all keys after `DeleteXkey`.
use mcsh.Base.{
  ℕ, Bool, true, false, ◌&&◌, ◌||◌, not, [], ◌∷◌, ◌==◌, if◌then◌else◌, Str, none, ◌≡◌, refl, arith,
  Bool-cases, inl, inr,
}
use mcsh.Keys.{
  Binding, nod, Xmap, null, node, is_null, without_next, beside, try_delete_node, delete_xkey,
}
use mcsh.Keys.Lookup.{lookup}
use mcsh.Keys.Added.{is_prefix}

abbrev pub is_nod : Binding → Bool
is_nod nod = true
is_nod b = false

-- A character among the siblings of a node.
unfoldable pub has : Xmap → ℕ → Bool
has null c = false
has (node ch b next sibling) c = ch == c || has sibling c

-- No two siblings have one character, and a node that no key goes on from has a binding.
abbrev pub IsWell : Xmap → Type 0
IsWell null = Unit
IsWell (node ch b next sibling) =
    (has sibling ch ≡ false) × ((is_null next && is_nod b) ≡ false) × (IsWell next × IsWell sibling)

has-lookup : (t : Xmap) (c : ℕ) (cs : Str) → has t c ≡ false → lookup t c cs ≡ none
unfolding has lookup
has-lookup null c cs h = refl
has-lookup (node ch b next sibling) c [] h = ground (arith, has-lookup sibling c [])
has-lookup (node ch b next sibling) c (d ∷ ds) h = ground (arith, has-lookup sibling c (d ∷ ds))

-- What is left is null only where a node was freed or nothing was there.
pub left-is_null :
    (t : Xmap) (c : ℕ) (cs : Str)
    → (let r = try_delete_node t c cs in (is_null t ≡ (not r.1 && is_null r.0)))
unfolding try_delete_node
left-is_null null c cs = refl
left-is_null (node ch b next sibling) c [] = ground (arith, left-is_null sibling c [])
left-is_null (node ch b next sibling) c (d ∷ ds) =
    ground (arith, left-is_null sibling c (d ∷ ds), left-is_null next d ds)

is_null-lookup : (t : Xmap) (c : ℕ) (cs : Str) → is_null t ≡ true → lookup t c cs ≡ none
unfolding lookup
is_null-lookup null c cs h = refl
is_null-lookup (node ch b next sibling) c cs h = absurd (ground (arith, h))

-- A longer key after a deletion below a node, and beside it.
below :
    (ch c d : ℕ) (b : Binding) (next sibling : Xmap) (ds : Str) (k l : ℕ) (ls : Str)
    → IsWell (node ch b next sibling)
    → (ch == c) ≡ true
    → lookup (try_delete_node next d ds).0 l ls
      ≡ (if d == l && is_prefix ds ls then none else lookup next l ls)
    → lookup (without_next ch b (try_delete_node next d ds) sibling).0 k (l ∷ ls) ≡ (
        if c == k && is_prefix (d ∷ ds) (l ∷ ls)
        then none
        else lookup (node ch b next sibling) k (l ∷ ls))
unfolding lookup
below ch c d b next sibling ds k l ls w e h = ground (
  arith,
  w,
  e,
  h,
  has-lookup sibling ch (l ∷ ls),
  is_null-lookup (try_delete_node next d ds).0 l ls,
)

aside :
    (ch c d : ℕ) (b : Binding) (next sibling : Xmap) (ds : Str) (k l : ℕ) (ls : Str)
    → (ch == c) ≡ false
    → lookup (try_delete_node sibling c (d ∷ ds)).0 k (l ∷ ls)
      ≡ (if c == k && is_prefix (d ∷ ds) (l ∷ ls) then none else lookup sibling k (l ∷ ls))
    → lookup (beside ch b next (try_delete_node sibling c (d ∷ ds))).0 k (l ∷ ls) ≡ (
        if c == k && is_prefix (d ∷ ds) (l ∷ ls)
        then none
        else lookup (node ch b next sibling) k (l ∷ ls))
unfolding lookup
aside ch c d b next sibling ds k l ls e h = ground (arith, e, h)

lookup-try_delete_node :
    (t : Xmap) (c : ℕ) (cs : Str) (k : ℕ) (ks : Str)
    → IsWell t
    → lookup (try_delete_node t c cs).0 k ks
      ≡ (if c == k && is_prefix cs ks then none else lookup t k ks)
unfolding lookup try_delete_node
lookup-try_delete_node null c cs k ks w = ground arith
lookup-try_delete_node (node ch b next sibling) c [] k [] w =
    ground (arith, w, lookup-try_delete_node sibling c [] k [], has-lookup sibling ch [])
lookup-try_delete_node (node ch b next sibling) c [] k (l ∷ ls) w =
    ground
      (arith, w, lookup-try_delete_node sibling c [] k (l ∷ ls), has-lookup sibling ch (l ∷ ls))
lookup-try_delete_node (node ch b next sibling) c (d ∷ ds) k [] w = ground (
  arith,
  w,
  lookup-try_delete_node sibling c (d ∷ ds) k [],
  has-lookup sibling ch [],
  left-is_null next d ds,
)
lookup-try_delete_node (node ch b next sibling) c (d ∷ ds) k (l ∷ ls) w =
    elim (Bool-cases (ch == c)) [
      | inl e ↦
          rw (e, try_delete_node)
            (below ch c d b next sibling ds k l ls w e
              (lookup-try_delete_node next d ds l ls w.2.0))
      | inr e ↦
          rw (e, try_delete_node)
            (aside ch c d b next sibling ds k l ls e
              (lookup-try_delete_node sibling c (d ∷ ds) k (l ∷ ls) w.2.1))
    ]

-- A deletion takes out the key and every longer one, and leaves the bindings of all others.
pub lookup-delete_xkey :
    (t : Xmap) (c : ℕ) (cs : Str) (k : ℕ) (ks : Str)
    → IsWell t
    → lookup (delete_xkey (c ∷ cs) t) k ks
      ≡ (if c == k && is_prefix cs ks then none else lookup t k ks)
unfolding delete_xkey
lookup-delete_xkey t c cs k ks w = lookup-try_delete_node t c cs k ks w
