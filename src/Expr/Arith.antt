-- ===== src/Expr/Arith.antt =====
-- sh.exp.c: `egetn`, and what each operator of `exp2c` to `exp5` computes from its operands' text.
use mcsh.Base.{
  ℕ, Bool, false, not, ◌&&◌, ltb, ◌==◌, if◌then◌else◌, Str, eq, char0, is_digit, ℤ, pos, negsuc,
  ltb_ℤ, eq_ℤ, Option, none, some, ◌*◌, ◌^◌, ◌/◌, ◌%◌,
}
use mcsh.Number.{
  magnitude, u64, to_u64, of_u64, add64, sub64, mul64, quot64, rem64, not64, of_bool, to_bool, putn,
  getn,
}
use mcsh.Expr.Isa.{eqeq, gtr, noteq, eqmatch}
use mcsh.Expr.Shell.{
  bad_expression, bad_number, div_by_zero, mod_by_zero, Outcome, done, raised, Shell,
}

-- The shifts of `exp3a`: 0 for a count outside 0 to 63; `>>` keeps the sign.
abbrev pub count_ok : ℤ → Bool
count_ok (pos n) = ltb n 64
count_ok (negsuc n) = false

unfoldable pub shift_left : ℤ → ℤ → ℤ
shift_left a s = if count_ok s then of_u64 ((to_u64 a * 2 ^ magnitude s) % u64) else pos 0

abbrev halve : ℤ → ℕ → ℤ
halve (pos n) s = pos (n / 2 ^ s)
halve (negsuc n) s = negsuc (n / 2 ^ s)

unfoldable pub shift_right : ℤ → ℤ → ℤ
shift_right a s = if count_ok s then halve a (magnitude s) else pos 0

-- A chain of outcomes stops at the first error.
infixl 5 ◌>>=◌
abbrev pub ◌>>=◌ : {A B : Type 0} → Outcome A → (A → Outcome B) → Outcome B
done a >>= f = f a
raised e >>= f = raised e

-- `putn` of a number that is there.
abbrev pub text : Outcome ℤ → Outcome Str
text (done n) = done (putn n)
text (raised e) = raised e

abbrev or_bad : Option ℤ → Outcome ℤ
or_bad none = raised bad_number
or_bad (some n) = done n

module _ {W : Type 0} (sh : Shell W) where
  unfoldable pub egetn : Str → Outcome ℤ
  egetn cp =
      if not (char0 cp == 0) && (not (char0 cp == b'-') && not (is_digit (char0 cp)))
      then raised bad_expression
      else or_bad (getn sh.parse_octal cp)

  -- Both operands as numbers, under an operator that cannot fail.
  abbrev pub numbers : (ℤ → ℤ → ℤ) → Str → Str → Outcome ℤ
  numbers f p1 p2 = do a ← egetn p1; b ← egetn p2; done (f a b)

  -- `!` and `~` of `exp6`.
  unfoldable pub exp6_not : Str → Outcome Str
  exp6_not cp = do i ← egetn cp; done (putn (of_bool (not (to_bool i))))

  unfoldable pub exp6_compl : Str → Outcome Str
  exp6_compl cp = do i ← egetn cp; done (putn (not64 i))

  -- `/` and `%` read and test the divisor first; a divisor of -1 is a case of its own.
  abbrev divide : ℤ → ℤ → ℤ
  divide a b = if eq_ℤ b (negsuc 0) then sub64 (pos 0) a else quot64 a b

  exp5_divide : Str → Str → Outcome ℤ
  exp5_divide p1 p2 = egetn p2 >>= λ b.
      if eq_ℤ b (pos 0) then raised div_by_zero else (egetn p1 >>= λ a. done (divide a b))

  exp5_modulo : Str → Str → Outcome ℤ
  exp5_modulo p1 p2 = egetn p2 >>= λ b.
      if eq_ℤ b (pos 0)
      then raised mod_by_zero
      else if eq_ℤ b (negsuc 0)
      then done (pos 0)
      else (egetn p1 >>= λ a. done (rem64 a b))

  -- The `switch` of `exp5`.
  unfoldable pub exp5_apply : ℕ → Str → Str → Outcome ℤ
  unfolding exp5_divide exp5_modulo
  exp5_apply op p1 p2 =
      if op == b'*'
      then numbers mul64 p1 p2
      else if op == b'/'
      then exp5_divide p1 p2
      else exp5_modulo p1 p2

  -- The `switch` of `exp4`.
  unfoldable pub exp4_apply : ℕ → Str → Str → Outcome ℤ
  exp4_apply op p1 p2 = if op == b'+' then numbers add64 p1 p2 else numbers sub64 p1 p2

  -- The two shifts of `exp3a`. The count is read first.
  unfoldable pub exp3a_apply : ℕ → Str → Str → Outcome ℤ
  exp3a_apply op p1 p2 = egetn p2 >>= λ s.
      if not (count_ok s)
      then done (pos 0)
      else (egetn p1 >>= λ a. done (if op == b'<' then shift_left a s else shift_right a s))

  -- The `switch` of `exp3`: GTR or LSS, and whether an `=` followed.
  unfoldable pub exp3_apply : ℕ → Bool → Str → Str → Outcome ℤ
  exp3_apply i or_eq p1 p2 =
      if i == gtr
      then numbers (λ a b. of_bool (if or_eq then not (ltb_ℤ a b) else ltb_ℤ b a)) p1 p2
      else numbers (λ a b. of_bool (if or_eq then not (ltb_ℤ b a) else ltb_ℤ a b)) p1 p2

  -- The `switch` of `exp2c`.
  unfoldable pub exp2c_apply : ℕ → Str → Str → Outcome ℤ
  exp2c_apply i p1 p2 =
      if i == eqeq
      then done (of_bool (eq p1 p2))
      else if i == noteq
      then done (of_bool (not (eq p1 p2)))
      else if i == eqmatch
      then (sh.gmatch p1 p2 >>= λ b. done (of_bool b))
      else (sh.gmatch p1 p2 >>= λ b. done (of_bool (not b)))
