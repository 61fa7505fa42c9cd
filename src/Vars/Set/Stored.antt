-- ===== src/Vars/Set/Stored.antt =====
-- sh.set.c: the value that `set -f` and `set -l` store.
use mcsh.Base.{
  ℕ, Bool, true, false, ◌||◌, ◌&&◌, Option, some, List, [], ◌∷◌, map, Str, eq, eq_iff, All,
  if◌then◌else◌, ◌≡◌, refl, sym, ap, ◌∙◌, subst, Bool-cases, inl, inr, arith,
}
use mcsh.Vars.Tree.{Var, Tree}
use mcsh.Vars.Table.{adrof1, Result, ok, err, new_var, trim, trim_char}
use mcsh.Vars.Lookup.{IsSorted, eq_self}
use mcsh.Vars.Update.{SetqMeets, setq-SetqMeets}
use mcsh.Vars.Set.{
  bit, clear_bit, unique, Set1, was_set, refused, lift_setq, is_rwonly, expanded, set1,
}
use mcsh.Vars.Set.Unique.{mem, Distinct, unique-Distinct}

-- A word without quote bits.
abbrev pub IsUnquoted : Str → Type 0
IsUnquoted w = map trim_char w ≡ w

member-IsUnquoted : (z : Str) (ws : List Str) → All IsUnquoted ws → mem z ws ≡ true → IsUnquoted z
member-IsUnquoted z [] a m = cc
member-IsUnquoted z (w ∷ ws) a m = elim (Bool-cases (eq w z)) [
  | inl e ↦ subst IsUnquoted ((eq_iff w z).0 e) a.0
  | inr e ↦ member-IsUnquoted z ws a.1 (ground (arith, e, m))
]

mem-head : (x : Str) (xs : List Str) → mem x (x ∷ xs) ≡ true
mem-head x xs = ground (arith, (eq_iff x x).1 refl)

mem-tail : (z x : Str) (xs : List Str) → mem z xs ≡ true → mem z (x ∷ xs) ≡ true
mem-tail z x xs m = ground (arith, m)

trim-unquoted : (xs : List Str) → ((z : Str) → mem z xs ≡ true → IsUnquoted z) → trim xs ≡ xs
unfolding trim
trim-unquoted [] h = refl
trim-unquoted (x ∷ xs) h =
    ap (λ y. y ∷ map (map trim_char) xs) (h x (mem-head x xs))
    ∙ ap (λ ys. x ∷ ys) (trim-unquoted xs (λ z m. h z (mem-tail z x xs m)))

trim-unique :
    (flags : ℕ) (words : List Str)
    → (bit 32 flags || bit 64 flags) ≡ true
    → All IsUnquoted words
    → trim (unique flags words) ≡ unique flags words
trim-unique flags words b a =
    trim-unquoted (unique flags words)
      (λ z m. member-IsUnquoted z words a (sym ((unique-Distinct flags words b).1 z) ∙ m))

-- Where the variable is set it has the words, none of them twice.
abbrev pub Stored : Str → List Str → Set1 → Type 0
Stored var words (refused f) = Unit
Stored var words (was_set t) = (x : Var) × (adrof1 var t ≡ some x) × Distinct words x.vec

setq-Stored :
    (var : Str) (words vec : List Str) (head : Tree) (flags : ℕ) (r : Result Tree)
    → trim vec ≡ vec
    → Distinct words vec
    → SetqMeets var (new_var var vec flags) head r
    → Stored var words (lift_setq r)
setq-Stored var words vec head flags (err f) q d m = tt
setq-Stored var words vec head flags (ok t) q d m =
    (new_var var vec flags, m.1.1 var ∙ rw (eq_self var) refl, subst (Distinct words) (sym q) d)

if_Stored :
    (var : Str) (words : List Str) (b : Bool) (x y : Set1)
    → Stored var words x
    → Stored var words y
    → Stored var words (if b then x else y)
if_Stored var words true x y p q = p
if_Stored var words false x y p q = q

-- With VAR_FIRST or VAR_LAST in the flags, on a table in name order and for words without quote bits:
-- where set1 sets the variable, its value has the words of the expanded value, none of them twice.
pub set1-Stored :
    (expand : List Str → Option (List Str)) (shvhed : Tree) (var : Str) (vec : List Str)
    (head : Tree) (flags : ℕ) (words : List Str)
    → IsSorted head
    → (bit 32 flags || bit 64 flags) ≡ true
    → expanded expand flags vec ≡ some words
    → All IsUnquoted words
    → Stored var words (set1 expand shvhed var vec head flags)
unfolding set1
set1-Stored expand shvhed var vec head flags words s b e a =
    let f = clear_bit 64 (clear_bit 32 flags) in
    let d = unique-Distinct flags words b in
    let m = setq-SetqMeets var (unique flags words) head f s in
    if_Stored var words (bit 1 flags && is_rwonly var shvhed) _ _ tt (
      rw (e, b)
        (setq-Stored var words (unique flags words) head f _ (trim-unique flags words b a) d m))
