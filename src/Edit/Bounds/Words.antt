-- ===== src/Edit/Bounds/Words.antt =====
-- ed.chared.c: how far the scans over words and characters go.
use mcsh.Base.{
  ℕ, zero, suc, ◌+◌, ◌-◌, ◌≤◌, ◌<◌, max, Bool, true, false, not, Option, none, some, arith, ◌≡◌,
  refl, Bool-cases, inl, inr,
}
use mcsh.Edit.State.{Chars}
use mcsh.Edit.Word.{
  back, forth, up_to, words_back, classes_back, class_back, white_at, c_prev_word, words_forth,
  class_forth, class_of, like, classes_forth, c_next_word, c_nexword, ends_forth, c_eword,
}
use mcsh.Edit.Move.{char_back, step_back, chars_back}

back_le : (test : ℕ → Bool) (f : ℕ → ℕ) (p : ℕ) → back test f p ≤ p
unfolding back
back_le test f zero = omega arith
back_le test f (suc p) = ground (arith, back_le test f p)

pub forth_bounds :
    (test : ℕ → Bool) (f : ℕ → ℕ) (k p : ℕ) → (p ≤ forth test f k p) × (forth test f k p ≤ p + k)
unfolding forth
forth_bounds test f zero p = ground arith
forth_bounds test f (suc k) p = ground (arith, forth_bounds test f k (suc p))

-- A place between two bounds, the second at least the first.
abbrev pub Between : ℕ → ℕ → ℕ → Type 0
Between p high r = (p ≤ r) × (r ≤ max high p)

pub up_to_bounds : (test : ℕ → Bool) (f : ℕ → ℕ) (high p : ℕ) → Between p high (up_to test f high p)
up_to_bounds test f high p = omega (arith, forth_bounds test f (high - p) p)

module _ (ch : Chars) (f : ℕ → ℕ) where
  words_back_le : (n p : ℕ) → words_back ch f n p ≤ p
  unfolding words_back
  words_back_le zero p = omega arith
  words_back_le (suc n) p =
      let q = back (λ x. not (ch.is_word x)) f p in
      omega (
        arith,
        back_le (λ x. not (ch.is_word x)) f p,
        back_le ch.is_word f q,
        words_back_le n (back ch.is_word f q),
      )

  class_back_le : (p : ℕ) → class_back ch f p ≤ p
  class_back_le zero = omega arith
  class_back_le (suc p) = back_le (like ch f (class_of ch f p)) f (suc p)

  classes_back_le : (n p : ℕ) → classes_back ch f n p ≤ p
  unfolding classes_back
  classes_back_le zero p = omega arith
  classes_back_le (suc n) p =
      let q = class_back ch f p in
      elim (Bool-cases (white_at ch f p)) [
        | inl h ↦
            rw h (
              omega
                (arith, class_back_le p, class_back_le q, classes_back_le n (class_back ch f q)))
        | inr h ↦ rw h (omega (arith, class_back_le p, classes_back_le n q))
      ]

  pub c_prev_word_le : (vi : Bool) (p n : ℕ) → c_prev_word ch f vi p n ≤ p
  unfolding c_prev_word
  c_prev_word_le true p n = classes_back_le n p
  c_prev_word_le false p n = words_back_le n p

  words_forth_ge : (high n p : ℕ) → p ≤ words_forth ch f high n p
  unfolding words_forth
  words_forth_ge high zero p = omega arith
  words_forth_ge high (suc n) p =
      let q = up_to (λ x. not (ch.is_word x)) f high p in
      omega (
        arith,
        up_to_bounds (λ x. not (ch.is_word x)) f high p,
        up_to_bounds ch.is_word f high q,
        words_forth_ge high n (up_to ch.is_word f high q),
      )

  class_forth_bounds : (high p : ℕ) → Between p high (class_forth ch f high p)
  class_forth_bounds high p = up_to_bounds (like ch f (class_of ch f p)) f high p

  pub classes_forth_bounds : (high n p : ℕ) → Between p high (classes_forth ch f high n p)
  unfolding classes_forth
  classes_forth_bounds high zero p = omega arith
  classes_forth_bounds high (suc n) p =
      let q = class_forth ch f high p in
      let r = up_to ch.is_space f high q in
      ground (
        arith,
        class_forth_bounds high p,
        up_to_bounds ch.is_space f high q,
        classes_forth_bounds high n q,
        classes_forth_bounds high n r,
      )

  pub c_next_word_le :
      (vi : Bool) (p high n r : ℕ) → p ≤ high → c_next_word ch f vi p high n ≡ some r → r ≤ high
  unfolding c_next_word
  c_next_word_le true p high n r l h = ground (arith, classes_forth_bounds high n p)
  c_next_word_le false p high n r l h = ground arith

  pub c_next_word_ge :
      (p high n r : ℕ) → p ≤ high → c_next_word ch f false p high n ≡ some r → p ≤ r
  unfolding c_next_word
  c_next_word_ge p high n r l h = ground (arith, words_forth_ge high n p)

  pub c_nexword_le : (p high n : ℕ) → c_nexword ch f p high n ≤ high
  unfolding c_nexword
  c_nexword_le p high n = omega arith

  ends_forth_bounds : (high n p : ℕ) → Between p high (ends_forth ch f high n p)
  unfolding ends_forth
  ends_forth_bounds high zero p = omega arith
  ends_forth_bounds high (suc n) p =
      let q = class_forth ch f high p in
      let r = class_forth ch f high q in
      ground (
        arith,
        class_forth_bounds high p,
        class_forth_bounds high q,
        ends_forth_bounds high n q,
        ends_forth_bounds high n r,
      )

  pub c_eword_bounds :
      (p high n : ℕ) → p < high → (p ≤ c_eword ch f p high n) × (c_eword ch f p high n < high)
  unfolding c_eword
  c_eword_bounds p high n l = omega (arith, ends_forth_bounds high n (suc p))

pub char_back_le : (c : ℕ) (f : ℕ → ℕ) (p : ℕ) → char_back c f p ≤ p
unfolding char_back
char_back_le c f zero = omega arith
char_back_le c f (suc p) = ground (arith, char_back_le c f p)

step_back_le : (c : ℕ) (f : ℕ → ℕ) (p q : ℕ) → step_back c f p ≡ some q → q ≤ p
step_back_le c f zero q h = ground arith
step_back_le c f (suc p) q h = ground arith

pub from_step :
    (o : Option ℕ) (next : ℕ → Option ℕ) (q : ℕ)
    → elim o [ none ↦ none | some r ↦ next r ] ≡ some q
    → (r : ℕ) × (o ≡ some r) × (next r ≡ some q)
from_step none next q h = ground arith
from_step (some r) next q h = (r, refl, h)

pub chars_back_le : (c : ℕ) (f : ℕ → ℕ) (n p q : ℕ) → chars_back c f n p ≡ some q → q ≤ p
unfolding chars_back
chars_back_le c f zero p q h = ground arith
chars_back_le c f (suc n) p q h =
    let (r, e, k) = from_step (step_back c f p) (λ r. chars_back c f n (char_back c f r)) q h in
    omega
      (arith, step_back_le c f p r e, char_back_le c f r, chars_back_le c f n (char_back c f r) q k)
