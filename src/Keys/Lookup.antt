-- ===== src/Keys/Lookup.antt =====
-- ed.xmap.c: the binding of a key, and what `GetXkey` finds of it.
use mcsh.Base.{
  ℕ, true, false, [], ◌∷◌, ◌++◌, ◌==◌, if◌then◌else◌, Str, Option, none, some, ◌≡◌, arith,
  Bool-cases, inl, inr, ap,
}
use mcsh.Keys.{Binding, Xmap, null, node, is_null, found, get_xkey}

-- The binding at the end of a key, where no longer key goes on from there.
abbrev pub at_leaf : Binding → Xmap → Option Binding
at_leaf b next = if is_null next then some b else none

unfoldable pub lookup : Xmap → ℕ → Str → Option Binding
lookup null c cs = none
lookup (node ch b next sibling) c [] = if ch == c then at_leaf b next else lookup sibling c []
lookup (node ch b next sibling) c (d ∷ ds) =
    if ch == c then lookup next d ds else lookup sibling c (d ∷ ds)

-- A key that is bound is found in any input that starts with it, and the rest is not read.
pub get_xkey-lookup :
    (c : ℕ) (cs rest : Str) (t : Xmap) (b : Binding)
    → lookup t c cs ≡ some b
    → get_xkey c (cs ++ rest) t ≡ found b rest
unfolding lookup get_xkey
get_xkey-lookup c cs rest null b h = ground arith
get_xkey-lookup c [] [] (node ch b' next sibling) b h =
    ground (arith, get_xkey-lookup c [] [] sibling b)
get_xkey-lookup c [] (r ∷ rest) (node ch b' next sibling) b h =
    ground (arith, get_xkey-lookup c [] (r ∷ rest) sibling b)
get_xkey-lookup c (d ∷ ds) rest (node ch b' next sibling) b h =
    ground (arith, get_xkey-lookup d ds rest next b, get_xkey-lookup c (d ∷ ds) rest sibling b)

-- The characters that were read, and the binding of that key.
abbrev pub FoundBy : Xmap → ℕ → Str → Binding → Str → Type 0
FoundBy t c input b rest = (cs : Str) × (input ≡ cs ++ rest) × (lookup t c cs ≡ some b)

found_here :
    (ch c : ℕ) (b b' : Binding) (next sibling : Xmap) (input rest : Str)
    → (ch == c) ≡ true
    → is_null next ≡ true
    → found b' input ≡ found b rest
    → FoundBy (node ch b' next sibling) c input b rest
unfolding lookup
found_here ch c b b' next sibling input rest e n h =
    ([], ground (arith, h), ground (arith, h, e, n))

found_beside :
    (ch c : ℕ) (b b' : Binding) (next sibling : Xmap) (input rest : Str)
    → (ch == c) ≡ false
    → FoundBy sibling c input b rest
    → FoundBy (node ch b' next sibling) c input b rest
unfolding lookup
found_beside ch c b b' next sibling input rest e ([], q, l) = ([], q, ground (arith, e, l))
found_beside ch c b b' next sibling input rest e (d ∷ ds, q, l) = (d ∷ ds, q, ground (arith, e, l))

found_below :
    (ch c d : ℕ) (b b' : Binding) (next sibling : Xmap) (input rest : Str)
    → (ch == c) ≡ true
    → FoundBy next d input b rest
    → FoundBy (node ch b' next sibling) c (d ∷ input) b rest
unfolding lookup
found_below ch c d b b' next sibling input rest e (ds, q, l) =
    (d ∷ ds, ap (λ xs. d ∷ xs) q, ground (arith, e, l))

-- What is found is the binding of the characters that were read.
pub get_xkey-FoundBy :
    (t : Xmap) (c : ℕ) (input : Str) (b : Binding) (rest : Str)
    → get_xkey c input t ≡ found b rest
    → FoundBy t c input b rest
unfolding get_xkey
get_xkey-FoundBy null c input b rest h = absurd (ground (arith, h))
get_xkey-FoundBy (node ch b' next sibling) c [] b rest h = elim (Bool-cases (ch == c)) [
  | inl e ↦ elim (Bool-cases (is_null next)) [
    | inl n ↦ found_here ch c b b' next sibling [] rest e n (ground (arith, h, e, n))
    | inr n ↦ absurd (ground (arith, h, e, n))
  ]
  | inr e ↦ elim (Bool-cases (is_null sibling)) [
    | inl n ↦ absurd (ground (arith, h, e, n))
    | inr n ↦
        found_beside ch c b b' next sibling [] rest e
          (get_xkey-FoundBy sibling c [] b rest (ground (arith, h, e, n)))
  ]
]
get_xkey-FoundBy (node ch b' next sibling) c (d ∷ input) b rest h = elim (Bool-cases (ch == c)) [
  | inl e ↦ elim (Bool-cases (is_null next)) [
    | inl n ↦ found_here ch c b b' next sibling (d ∷ input) rest e n (ground (arith, h, e, n))
    | inr n ↦
        found_below ch c d b b' next sibling input rest e
          (get_xkey-FoundBy next d input b rest (ground (arith, h, e, n)))
  ]
  | inr e ↦ elim (Bool-cases (is_null sibling)) [
    | inl n ↦ absurd (ground (arith, h, e, n))
    | inr n ↦
        found_beside ch c b b' next sibling (d ∷ input) rest e
          (get_xkey-FoundBy sibling c (d ∷ input) b rest (ground (arith, h, e, n)))
  ]
]
