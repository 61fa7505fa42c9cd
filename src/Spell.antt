-- ===== src/Spell.antt =====
-- tw.spell.c: `spdist`, how far a word is from the name that may be meant. The characters are
-- those below TRIM.
use mcsh.Base.{
  ℕ, Bool, true, false, ◌&&◌, [], ◌∷◌, ◌==◌, if◌then◌else◌, Str, eq, eq_iff, ◌≡◌, refl, arith,
  subst, sym, ap, length, ◌<◌, ◌↔◌, Bool-cases, inl, inr, ==→≡,
}

-- `*s && *t && s[1] && t[1] && *s == t[1] && *t == s[1] && EQ(s + 2, t + 2)`
abbrev pub transposed : Str → Str → Bool
transposed (a ∷ b ∷ s) (c ∷ d ∷ t) = a == d && (c == b && eq s t)
transposed s t = false

-- What is behind the characters in common.
unfoldable pub distance : Str → Str → ℕ
distance [] [] = 0
distance [] (c ∷ t) = if eq [] t then 1 else 4
distance (a ∷ s) [] = if eq s [] then 2 else 4
distance (a ∷ s) (c ∷ t) =
    if transposed (a ∷ s) (c ∷ t)
    then 1
    else if eq s t
    then 3
    else if eq s (c ∷ t)
    then 2
    else if eq (a ∷ s) t
    then 1
    else 4

unfoldable pub spdist : Str → Str → ℕ
spdist [] t = distance [] t
spdist (a ∷ s) [] = distance (a ∷ s) []
spdist (a ∷ s) (c ∷ t) = let rest = spdist s t in if a == c then rest else distance (a ∷ s) (c ∷ t)

-- How the two words differ by one slip: equal, two different neighbours swapped or a character missing
-- from the first word, a character too many in it, or another character.
pub data Slip : ℕ → Str → Str → Type 0 where
  equal : Slip 0 [] []
  same : {k : ℕ} {s t : Str} (c : ℕ) → Slip k s t → Slip k (c ∷ s) (c ∷ t)
  swapped : (a b : ℕ) (s : Str) → (a == b) ≡ false → Slip 1 (a ∷ b ∷ s) (b ∷ a ∷ s)
  missing : (c : ℕ) (s : Str) → Slip 1 s (c ∷ s)
  extra : (c : ℕ) (s : Str) → Slip 2 (c ∷ s) s
  other : (a c : ℕ) (s : Str) → (a == c) ≡ false → Slip 3 (a ∷ s) (c ∷ s)

-- The slip for a distance below 4.
Told : ℕ → Str → Str → Type 0
Told k s t = k < 4 → Slip k s t

if_Told :
    (s t : Str) (b : Bool) (k l : ℕ)
    → (b ≡ true → Slip k s t)
    → Told l s t
    → Told (if b then k else l) s t
unfolding Told
if_Told s t true k l p q = λ h. p refl
if_Told s t false k l p q = q

far : (s t : Str) → Told 4 s t
unfolding Told
far s t h = absurd (omega (arith, h))

told : (s t : Str) (k : ℕ) → Slip k s t → Told k s t
unfolding Told
told s t k p h = p

swap_eq : (a b c d : ℕ) (s t : Str) → a == d && (c == b && eq s t) ≡ true → b ∷ a ∷ s ≡ c ∷ d ∷ t
swap_eq a b c d s t h = ground (arith, eq_iff s t)

swap_ne :
    (a b c d : ℕ) (s t : Str)
    → a == d && (c == b && eq s t) ≡ true
    → (a == c) ≡ false
    → (a == b) ≡ false
swap_ne a b c d s t h n = ground (arith, h, n)

transposed-Slip :
    (a c : ℕ) (s t : Str)
    → (a == c) ≡ false
    → transposed (a ∷ s) (c ∷ t) ≡ true
    → Slip 1 (a ∷ s) (c ∷ t)
transposed-Slip a c [] t n h = cc
transposed-Slip a c (b ∷ s) [] n h = cc
transposed-Slip a c (b ∷ s) (d ∷ t) n h =
    subst (Slip 1 (a ∷ b ∷ s)) (swap_eq a b c d s t h) (swapped a b s (swap_ne a b c d s t h n))

distance-Told :
    (a c : ℕ) (s t : Str) → (a == c) ≡ false → Told (distance (a ∷ s) (c ∷ t)) (a ∷ s) (c ∷ t)
unfolding distance
distance-Told a c s t n =
    if_Told (a ∷ s) (c ∷ t) (transposed (a ∷ s) (c ∷ t)) 1 _ (transposed-Slip a c s t n) (
      if_Told (a ∷ s) (c ∷ t) (eq s t) 3 _
        (λ h. subst (λ u. Slip 3 (a ∷ s) (c ∷ u)) ((eq_iff s t).0 h) (other a c s n))
        (if_Told (a ∷ s) (c ∷ t) (eq s (c ∷ t)) 2 _
          (λ h. subst (λ u. Slip 2 (a ∷ s) u) ((eq_iff s (c ∷ t)).0 h) (extra a s))
          (if_Told (a ∷ s) (c ∷ t) (eq (a ∷ s) t) 1 4
            (λ h. subst (λ u. Slip 1 (a ∷ s) (c ∷ u)) ((eq_iff (a ∷ s) t).0 h) (missing c (a ∷ s)))
            (far (a ∷ s) (c ∷ t)))))

same_Told : (a c : ℕ) (s t : Str) (k : ℕ) → (a == c) ≡ true → Told k s t → Told k (a ∷ s) (c ∷ t)
unfolding Told
same_Told a c s t k e p h = subst (λ x. Slip k (a ∷ s) (x ∷ t)) (==→≡ a c e) (same a (p h))

spdist-Told : (s t : Str) → Told (spdist s t) s t
unfolding spdist distance
spdist-Told [] [] = told [] [] 0 equal
spdist-Told [] (c ∷ t) =
    if_Told [] (c ∷ t) (eq [] t) 1 4
      (λ h. subst (λ u. Slip 1 [] (c ∷ u)) ((eq_iff [] t).0 h) (missing c [])) (far [] (c ∷ t))
spdist-Told (a ∷ s) [] =
    if_Told (a ∷ s) [] (eq s []) 2 4
      (λ h. subst (λ u. Slip 2 (a ∷ u) []) (sym ((eq_iff s []).0 h)) (extra a [])) (far (a ∷ s) [])
spdist-Told (a ∷ s) (c ∷ t) = elim (Bool-cases (a == c)) [
  | inl e ↦ rw (e, spdist) (same_Told a c s t (spdist s t) e (spdist-Told s t))
  | inr e ↦ rw (e, spdist) (distance-Told a c s t e)
]

eq_refl : (s : Str) → eq s s ≡ true
eq_refl s = (eq_iff s s).1 refl

-- Words of different lengths are different.
eq-length : (s t : Str) → (length s == length t) ≡ false → eq s t ≡ false
eq-length s t n = elim (Bool-cases (eq s t)) [
  | inl e ↦ absurd (ground (arith, n, ap length ((eq_iff s t).0 e)))
  | inr e ↦ e
]

missing_distance : (c : ℕ) (s : Str) → spdist s (c ∷ s) ≡ 1
unfolding spdist distance
missing_distance c [] = refl
missing_distance c (a ∷ s) = ground (
  arith,
  missing_distance a s,
  eq_refl (a ∷ s),
  eq-length s (a ∷ s) (ground arith),
  eq-length s (c ∷ a ∷ s) (ground arith),
)

extra_distance : (c : ℕ) (s : Str) → spdist (c ∷ s) s ≡ 2
unfolding spdist distance
extra_distance c [] = refl
extra_distance c (a ∷ []) = ground (arith, extra_distance a [])
extra_distance c (a ∷ b ∷ s) = ground (
  arith,
  extra_distance a (b ∷ s),
  eq_refl (a ∷ b ∷ s),
  eq-length (b ∷ s) s (ground arith),
  eq-length (a ∷ b ∷ s) (b ∷ s) (ground arith),
)

other_distance : (a c : ℕ) (s : Str) → (a == c) ≡ false → spdist (a ∷ s) (c ∷ s) ≡ 3
unfolding spdist distance
other_distance a c [] n = ground (arith, n)
other_distance a c (b ∷ s) n = ground (arith, n, eq_refl (b ∷ s))

Slip-spdist : (k : ℕ) (s t : Str) → Slip k s t → spdist s t ≡ k
unfolding spdist distance
Slip-spdist _ _ _ equal = refl
Slip-spdist k _ _ (same {s = s} {t = t} c p) = ground (arith, Slip-spdist k s t p)
Slip-spdist _ _ _ (swapped a b s n) = ground (arith, n, eq_refl s)
Slip-spdist _ _ _ (missing c s) = missing_distance c s
Slip-spdist _ _ _ (extra c s) = extra_distance c s
Slip-spdist _ _ _ (other a c s n) = other_distance a c s n

-- For a number below 4, `spdist` gives it exactly where the words differ by that slip: 0 for equal
-- words, 1 where two neighbours are swapped or one character is missing, 2 where the first word has
-- one character too many, 3 where one character is another.
pub spdist-Slip : (k : ℕ) (s t : Str) → k < 4 → (spdist s t ≡ k) ↔ Slip k s t
unfolding Told
spdist-Slip k s t l = (
  λ e. subst (λ j. Slip j s t) e (spdist-Told s t (subst (λ j. j < 4) (sym e) l)),
  Slip-spdist k s t,
)
