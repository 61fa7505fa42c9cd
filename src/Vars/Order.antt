-- ===== src/Vars/Order.antt =====
-- The order of names, and sorted lists of variables: what a table means, with no tree in it.
use Prim.Native.Nat.{Ordering}
use mcsh.Base.{
  false, Option, none, some, List, [], ◌∷◌, ◌++◌, Str, eq, eq_iff, All, ◌≡◌, inl, inr, refl, arith,
  if◌then◌else◌, Bool-cases,
}
use mcsh.Vars.Tree.{Var}
use mcsh.Vars.Table.{s_strcmp, name_cmp}

pub name_cmp-eq-strcmp : (a b : Str) → name_cmp a b ≡ s_strcmp a b
unfolding name_cmp s_strcmp
name_cmp-eq-strcmp [] [] = refl
name_cmp-eq-strcmp [] (y ∷ b) = ground arith
name_cmp-eq-strcmp (x ∷ a) [] = ground arith
name_cmp-eq-strcmp (x ∷ a) (y ∷ b) = ground arith

pub strcmp-eq : (a b : Str) → s_strcmp a b ≡ Ordering.eq → a ≡ b
unfolding s_strcmp
strcmp-eq [] [] h = refl
strcmp-eq [] (y ∷ b) h = cc
strcmp-eq (x ∷ a) [] h = cc
strcmp-eq (x ∷ a) (y ∷ b) h = ground (arith, strcmp-eq a b)

pub strcmp_refl : (a : Str) → s_strcmp a a ≡ Ordering.eq
unfolding s_strcmp
strcmp_refl [] = refl
strcmp_refl (x ∷ a) = ground (arith, strcmp_refl a)

pub strcmp_gt : (a b : Str) → s_strcmp a b ≡ Ordering.gt → s_strcmp b a ≡ Ordering.lt
unfolding s_strcmp
strcmp_gt [] [] h = cc
strcmp_gt [] (y ∷ b) h = cc
strcmp_gt (x ∷ a) [] h = refl
strcmp_gt (x ∷ a) (y ∷ b) h = ground (arith, strcmp_gt a b)

abbrev pub Precedes : Str → Str → Type 0
Precedes a b = s_strcmp a b ≡ Ordering.lt

pub Precedes-trans : (a b c : Str) → Precedes a b → Precedes b c → Precedes a c
unfolding s_strcmp
Precedes-trans [] [] c h k = cc
Precedes-trans [] (y ∷ b) [] h k = cc
Precedes-trans [] (y ∷ b) (z ∷ c) h k = refl
Precedes-trans (x ∷ a) [] c h k = cc
Precedes-trans (x ∷ a) (y ∷ b) [] h k = cc
Precedes-trans (x ∷ a) (y ∷ b) (z ∷ c) h k = ground (arith, Precedes-trans a b c)

pub Precedes-eq : (a b : Str) → Precedes a b → eq a b ≡ false
Precedes-eq a b h = elim (Bool-cases (eq a b)) [
  | inl e ↦ let same : a ≡ b = (eq_iff a b).0 e in cc (rw same at h, strcmp_refl b)
  | inr e ↦ e
]

pub eq_sym : (a b : Str) → eq a b ≡ false → eq b a ≡ false
eq_sym a b h = ground (arith, eq_iff a b, eq_iff b a)

-- Every name of the list comes before `n`, or behind it.
abbrev pub AllLess : Str → List Var → Type 0
AllLess n = All (λ x. Precedes x.name n)

abbrev pub AllMore : Str → List Var → Type 0
AllMore n = All (λ x. Precedes n x.name)

abbrev pub Sorted : List Var → Type 0
Sorted [] = Unit
Sorted (x ∷ xs) = AllMore x.name xs × Sorted xs

-- The variable of a name in a list.
unfoldable pub lookup : Str → List Var → Option Var
lookup n [] = none
lookup n (x ∷ xs) = if eq n x.name then some x else lookup n xs

module _ (P : Var → Type 0) where
  pub All-append : (xs ys : List Var) → All P xs → All P ys → All P (xs ++ ys)
  All-append [] ys p q = q
  All-append (x ∷ xs) ys (h, p) q = (h, All-append xs ys p q)

  pub All-left : (xs ys : List Var) → All P (xs ++ ys) → All P xs
  All-left [] ys p = tt
  All-left (x ∷ xs) ys (h, p) = (h, All-left xs ys p)

  pub All-right : (xs ys : List Var) → All P (xs ++ ys) → All P ys
  All-right [] ys p = p
  All-right (x ∷ xs) ys (h, p) = All-right xs ys p

pub AllMore-trans : (m n : Str) (xs : List Var) → Precedes m n → AllMore n xs → AllMore m xs
AllMore-trans m n [] h p = tt
AllMore-trans m n (x ∷ xs) h (k, p) = (Precedes-trans m n x.name h k, AllMore-trans m n xs h p)

pub AllLess-trans : (m n : Str) (xs : List Var) → Precedes m n → AllLess m xs → AllLess n xs
AllLess-trans m n [] h p = tt
AllLess-trans m n (x ∷ xs) h (k, p) = (Precedes-trans x.name m n k h, AllLess-trans m n xs h p)

-- A sorted list at one of its elements.
pub Sorted-less :
    (xs : List Var) (x : Var) (ys : List Var) → Sorted (xs ++ x ∷ ys) → AllLess x.name xs
Sorted-less [] x ys s = tt
Sorted-less (w ∷ xs) x ys (p, s) = ((All-right _ xs (x ∷ ys) p).0, Sorted-less xs x ys s)

pub Sorted-right : (xs ys : List Var) → Sorted (xs ++ ys) → Sorted ys
Sorted-right [] ys s = s
Sorted-right (w ∷ xs) ys (p, s) = Sorted-right xs ys s

pub Sorted-left : (xs ys : List Var) → Sorted (xs ++ ys) → Sorted xs
Sorted-left [] ys s = tt
Sorted-left (w ∷ xs) ys (p, s) = (All-left _ xs ys p, Sorted-left xs ys s)

pub Sorted-remove :
    (xs : List Var) (x : Var) (ys : List Var) → Sorted (xs ++ x ∷ ys) → Sorted (xs ++ ys)
Sorted-remove [] x ys (p, s) = s
Sorted-remove (w ∷ xs) x ys (p, s) = (
  All-append _ xs ys (All-left _ xs (x ∷ ys) p) (All-right _ xs (x ∷ ys) p).1,
  Sorted-remove xs x ys s,
)

pub Sorted-insert :
    (xs : List Var) (v : Var) (ys : List Var)
    → Sorted (xs ++ ys)
    → AllLess v.name xs
    → AllMore v.name ys
    → Sorted (xs ++ v ∷ ys)
Sorted-insert [] v ys s l m = (m, s)
Sorted-insert (w ∷ xs) v ys (p, s) (h, l) m = (
  All-append _ xs (v ∷ ys) (All-left _ xs ys p) (h, All-right _ xs ys p),
  Sorted-insert xs v ys s l m,
)

pub lookup-AllLess : (n : Str) (xs : List Var) → AllLess n xs → lookup n xs ≡ none
unfolding lookup
lookup-AllLess n [] p = refl
lookup-AllLess n (x ∷ xs) (h, p) =
    rw (eq_sym x.name n (Precedes-eq x.name n h)) (lookup-AllLess n xs p)

pub lookup-AllMore : (n : Str) (xs : List Var) → AllMore n xs → lookup n xs ≡ none
unfolding lookup
lookup-AllMore n [] p = refl
lookup-AllMore n (x ∷ xs) (h, p) = rw (Precedes-eq n x.name h) (lookup-AllMore n xs p)

-- In front of a list that has no such name there is nothing to find.
pub lookup-skip : (n : Str) (xs ys : List Var) → AllLess n xs → lookup n (xs ++ ys) ≡ lookup n ys
unfolding lookup
lookup-skip n [] ys p = refl
lookup-skip n (x ∷ xs) ys (h, p) =
    rw (eq_sym x.name n (Precedes-eq x.name n h)) (lookup-skip n xs ys p)

pub lookup-stop : (n : Str) (xs ys : List Var) → AllMore n ys → lookup n (xs ++ ys) ≡ lookup n xs
unfolding lookup
lookup-stop n [] ys p = lookup-AllMore n ys p
lookup-stop n (x ∷ xs) ys p = ground (arith, lookup-stop n xs ys p)

-- An element put in or taken out shows at its own name only.
pub lookup-middle :
    (n : Str) (xs : List Var) (v : Var) (ys : List Var)
    → eq n v.name ≡ false
    → lookup n (xs ++ v ∷ ys) ≡ lookup n (xs ++ ys)
unfolding lookup
lookup-middle n [] v ys h = rw h
lookup-middle n (x ∷ xs) v ys h = ground (arith, lookup-middle n xs v ys h)
