-- ===== src/Edit/Word.antt =====
-- ed.chared.c: `c_to_class`, `c_prev_word`, `c_next_word`, `c_nexword` and `c_eword`.
use mcsh.Base.{
  ℕ, zero, suc, ◌-◌, min, Bool, true, false, not, leb, if◌then◌else◌, Option, none, some,
}
use mcsh.Edit.State.{Chars}

pub data Class : Type 0 where
  class_white class_word class_other : Class

abbrev pub same_class : Class → Class → Bool
same_class class_white class_white = true
same_class class_word class_word = true
same_class class_other class_other = true
same_class a b = false

module _ (ch : Chars) where
  unfoldable pub c_to_class : ℕ → Class
  c_to_class c =
      if ch.is_space c then class_white else if ch.is_word c then class_word else class_other

-- `while (p >= low && test(*p)) p--;` at the start of the buffer, where `p` is one less than the number.
unfoldable pub back : (ℕ → Bool) → (ℕ → ℕ) → ℕ → ℕ
back test f zero = zero
back test f (suc p) = let rest = back test f p in if test (f p) then rest else suc p

abbrev pub one_back : ℕ → Option ℕ
one_back zero = none
one_back (suc p) = some p

-- `while (p < high && test(*p)) p++;` for `k` more characters up to `high`.
unfoldable pub forth : (ℕ → Bool) → (ℕ → ℕ) → ℕ → ℕ → ℕ
forth test f zero p = p
forth test f (suc k) p = let rest = forth test f k (suc p) in if test (f p) then rest else p

abbrev pub up_to : (ℕ → Bool) → (ℕ → ℕ) → ℕ → ℕ → ℕ
up_to test f high p = forth test f (high - p) p

module _ (ch : Chars) (f : ℕ → ℕ) where
  abbrev pub class_of : ℕ → Class
  class_of p = c_to_class ch (f p)

  abbrev pub like : Class → ℕ → Bool
  like c x = same_class c (c_to_class ch x)

  -- Emacs mode: back over what is no word, and over the word.
  unfoldable pub words_back : ℕ → ℕ → ℕ
  unfolding back
  words_back zero p = p
  words_back (suc n) p = words_back n (back ch.is_word f (back (λ x. not (ch.is_word x)) f p))

  -- Vi mode: over a class, and over one more where that was white.
  abbrev pub class_back : ℕ → ℕ
  class_back zero = zero
  class_back (suc p) = back (like (class_of p)) f (suc p)

  abbrev pub white_at : ℕ → Bool
  white_at zero = false
  white_at (suc p) = same_class class_white (class_of p)

  unfoldable pub classes_back : ℕ → ℕ → ℕ
  unfolding back c_to_class
  classes_back zero p = p
  classes_back (suc n) p =
      classes_back n (if white_at p then class_back (class_back p) else class_back p)

  -- `c_prev_word(p, InputBuf, n)`
  unfoldable pub c_prev_word : Bool → ℕ → ℕ → ℕ
  unfolding words_back classes_back
  c_prev_word vi p n = if vi then classes_back n p else words_back n p

  unfoldable pub words_forth : ℕ → ℕ → ℕ → ℕ
  unfolding forth
  words_forth high zero p = p
  words_forth high (suc n) p =
      words_forth high n (up_to ch.is_word f high (up_to (λ x. not (ch.is_word x)) f high p))

  abbrev pub class_forth : ℕ → ℕ → ℕ
  class_forth high p = up_to (like (class_of p)) f high p

  unfoldable pub classes_forth : ℕ → ℕ → ℕ → ℕ
  unfolding forth c_to_class
  classes_forth high zero p = p
  classes_forth high (suc n) p =
      let next = classes_forth high n (
        if same_class class_white (class_of p)
        then class_forth high p
        else up_to ch.is_space f high (class_forth high p)) in
      if leb high p then p else next

  -- `c_next_word(p, high, n)`; in vi mode the last step back is a correction, which at the start of
  -- the buffer leads in front of it: none.
  unfoldable pub c_next_word : Bool → ℕ → ℕ → ℕ → Option ℕ
  unfolding words_forth classes_forth
  c_next_word vi p high n =
      if vi then one_back (classes_forth high n p) else some (min (words_forth high n p) high)

  unfoldable pub spaces_forth : ℕ → ℕ → ℕ → ℕ
  unfolding forth
  spaces_forth high zero p = p
  spaces_forth high (suc n) p =
      spaces_forth high n (up_to ch.is_space f high (up_to (λ x. not (ch.is_space x)) f high p))

  unfoldable pub c_nexword : ℕ → ℕ → ℕ → ℕ
  unfolding spaces_forth
  c_nexword p high n = min (spaces_forth high n p) high

  unfoldable pub ends_forth : ℕ → ℕ → ℕ → ℕ
  unfolding forth c_to_class
  ends_forth high zero p = p
  ends_forth high (suc n) p =
      let next = ends_forth high n (
        if same_class class_white (class_of p)
        then class_forth high (class_forth high p)
        else class_forth high p) in
      if leb high p then p else next

  unfoldable pub c_eword : ℕ → ℕ → ℕ → ℕ
  unfolding ends_forth
  c_eword p high n = ends_forth high n (suc p) - 1
