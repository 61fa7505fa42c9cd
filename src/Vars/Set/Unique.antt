-- ===== src/Vars/Set/Unique.antt =====
-- sh.set.c: the words that `set -f` and `set -l` leave.
use mcsh.Base.{
  ℕ, Bool, true, false, ◌||◌, none, some, List, [], ◌∷◌, ◌++◌, map, Str, eq, eq_iff, if◌then◌else◌,
  append-nil, ◌≡◌, refl, sym, ap, ◌∙◌, subst, Bool-cases, inl, inr, arith,
}
use mcsh.Vars.Order.{eq_sym}
use mcsh.Vars.Set.{Slots, found, delete_later, delete_earlier, compress, bit, unique}

abbrev pub mem : Str → List Str → Bool
mem x [] = false
mem x (y ∷ ys) = eq y x || mem x ys

abbrev pub Unique : List Str → Type 0
Unique [] = Unit
Unique (x ∷ xs) = (mem x xs ≡ false) × Unique xs

-- The words of the one list are those of the other.
abbrev pub SameWords : List Str → List Str → Type 0
SameWords xs ys = (z : Str) → mem z xs ≡ mem z ys

mem-append : (z : Str) (xs ys : List Str) → mem z (xs ++ ys) ≡ (mem z xs || mem z ys)
mem-append z [] ys = refl
mem-append z (x ∷ xs) ys = ground (arith, mem-append z xs ys)

found-mem : (x : Str) (ss : Slots) → found x ss ≡ mem x (compress ss)
unfolding compress
found-mem x [] = refl
found-mem x (none ∷ ss) = found-mem x ss
found-mem x (some y ∷ ss) = ap (λ b. eq y x || b) (found-mem x ss)

compress-some : (xs : List Str) → compress (map some xs) ≡ xs
unfolding compress
compress-some [] = refl
compress-some (x ∷ xs) = ap (λ ys. x ∷ ys) (compress-some xs)

compress-append : (ss us : Slots) → compress (ss ++ us) ≡ compress ss ++ compress us
unfolding compress
compress-append [] us = refl
compress-append (none ∷ ss) us = compress-append ss us
compress-append (some x ∷ ss) us = ap (λ ys. x ∷ ys) (compress-append ss us)

-- A word is the last of those that are kept when none of them is the same.
keep : List Str → Str → List Str
keep done x = if mem x done then done else done ++ (x ∷ [])

keep_case :
    (done : Slots) (x : Str) (b : Bool)
    → compress done ++ compress ((if b then none else some x) ∷ [])
      ≡ (if b then compress done else compress done ++ (x ∷ []))
unfolding compress
keep_case done x true = append-nil (compress done)
keep_case done x false = refl

compress-keep :
    (done : Slots) (x : Str)
    → compress (done ++ ((if found x done then none else some x) ∷ [])) ≡ keep (compress done) x
unfolding keep
compress-keep done x =
    compress-append done ((if found x done then none else some x) ∷ [])
    ∙ keep_case done x (found x done)
    ∙ ap (λ b. if b then compress done else compress done ++ (x ∷ [])) (found-mem x done)

Unique-snoc : (xs : List Str) (x : Str) → mem x xs ≡ false → Unique xs → Unique (xs ++ (x ∷ []))
Unique-snoc [] x h u = (refl, tt)
Unique-snoc (y ∷ xs) x h u = (
  ground (arith, mem-append y xs (x ∷ []), eq_sym y x, u.0),
  Unique-snoc xs x (or_right (eq y x) (mem x xs) h) u.1,
)
  where
    or_right : (a b : Bool) → (a || b) ≡ false → b ≡ false
    or_right true b e = cc
    or_right false b e = e

-- A word that is there is one of the list whatever is added.
mem-eq : (x z : Str) (xs : List Str) → mem x xs ≡ true → (eq x z || mem z xs) ≡ mem z xs
mem-eq x z xs h = elim (Bool-cases (eq x z)) [
  | inl e ↦ let same : x ≡ z = (eq_iff x z).0 e in rw e (sym (subst (λ w. mem w xs ≡ true) same h))
  | inr e ↦ rw e refl
]

keep-Unique : (done : List Str) (x : Str) → Unique done → Unique (keep done x)
unfolding keep
keep-Unique done x u = elim (Bool-cases (mem x done)) [
  | inl e ↦ rw e u
  | inr e ↦ rw e (Unique-snoc done x e u)
]

mem-keep : (z x : Str) (done : List Str) → mem z (keep done x) ≡ (eq x z || mem z done)
unfolding keep
mem-keep z x done = elim (Bool-cases (mem x done)) [
  | inl e ↦ rw e (sym (mem-eq x z done e))
  | inr e ↦ rw e (ground (arith, mem-append z done (x ∷ [])))
]

delete_later-Unique :
    (done : Slots) (xs : List Str)
    → Unique (compress done)
    → Unique (compress (delete_later done xs))
unfolding delete_later
delete_later-Unique done [] u = u
delete_later-Unique done (x ∷ xs) u =
    delete_later-Unique (done ++ ((if found x done then none else some x) ∷ [])) xs
      (subst Unique (sym (compress-keep done x)) (keep-Unique (compress done) x u))

mem-delete_later :
    (z : Str) (done : Slots) (xs : List Str)
    → mem z (compress (delete_later done xs)) ≡ (mem z (compress done) || mem z xs)
unfolding delete_later
mem-delete_later z done [] = ground arith
mem-delete_later z done (x ∷ xs) =
    mem-delete_later z (done ++ ((if found x done then none else some x) ∷ [])) xs
    ∙ ap (λ ys. mem z ys || mem z xs) (compress-keep done x)
    ∙ ground (arith, mem-keep z x (compress done))

earlier_case :
    (x : Str) (b : Bool) (ss : Slots)
    → compress ((if b then none else some x) ∷ ss) ≡ (if b then compress ss else x ∷ compress ss)
unfolding compress
earlier_case x true ss = refl
earlier_case x false ss = refl

found-some : (x : Str) (xs : List Str) → found x (map some xs) ≡ mem x xs
found-some x xs = found-mem x (map some xs) ∙ ap (mem x) (compress-some xs)

compress-earlier :
    (x : Str) (xs : List Str)
    → compress (delete_earlier (x ∷ xs))
      ≡ (if mem x xs then compress (delete_earlier xs) else x ∷ compress (delete_earlier xs))
unfolding delete_earlier
compress-earlier x xs =
    earlier_case x (found x (map some xs)) (delete_earlier xs)
    ∙ ap (λ b. if b then compress (delete_earlier xs) else x ∷ compress (delete_earlier xs))
        (found-some x xs)

mem-delete_earlier : (z : Str) (xs : List Str) → mem z (compress (delete_earlier xs)) ≡ mem z xs
mem-delete_earlier z [] = unfold delete_earlier compress in refl
mem-delete_earlier z (x ∷ xs) =
    let ih = mem-delete_earlier z xs in
    ap (mem z) (compress-earlier x xs) ∙ elim (Bool-cases (mem x xs)) [
      | inl e ↦ rw e (ih ∙ sym (mem-eq x z xs e))
      | inr e ↦ rw e (ap (λ b. eq x z || b) ih)
    ]

delete_earlier-Unique : (xs : List Str) → Unique (compress (delete_earlier xs))
delete_earlier-Unique [] = unfold delete_earlier compress in tt
delete_earlier-Unique (x ∷ xs) =
    let ih = delete_earlier-Unique xs in
    subst Unique (sym (compress-earlier x xs)) (elim (Bool-cases (mem x xs)) [
      | inl e ↦ rw e ih
      | inr e ↦ rw e (mem-delete_earlier x xs ∙ e, ih)
    ])

abbrev pub Distinct : List Str → List Str → Type 0
Distinct vec words = Unique words × SameWords words vec

if_Distinct :
    (vec : List Str) (b c : Bool) (xs ys : List Str)
    → Distinct vec xs
    → Distinct vec ys
    → (b || c) ≡ true
    → Distinct vec (if b then xs else if c then ys else vec)
if_Distinct vec true c xs ys p q h = p
if_Distinct vec false true xs ys p q h = q
if_Distinct vec false false xs ys p q h = cc

-- With VAR_FIRST or VAR_LAST in the flags, the words that are left have none twice, and they are
-- the words of the value.
pub unique-Distinct :
    (flags : ℕ) (vec : List Str)
    → (bit 32 flags || bit 64 flags) ≡ true
    → Distinct vec (unique flags vec)
unfolding unique
unique-Distinct flags [] h = (tt, λ z. refl)
unique-Distinct flags (x ∷ []) h = ((refl, tt), λ z. refl)
unique-Distinct flags (x ∷ y ∷ vec) h =
    let all = x ∷ y ∷ vec in
    if_Distinct all (bit 32 flags) (bit 64 flags) _ _
      (
        delete_later-Unique [] all (unfold compress in tt),
        λ z. mem-delete_later z [] all ∙ unfold compress in refl,
      )
      (delete_earlier-Unique all, λ z. mem-delete_earlier z all) h
