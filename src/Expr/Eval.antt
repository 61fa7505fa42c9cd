-- ===== src/Expr/Eval.antt =====
-- sh.exp.c: the levels `exp2b` to `exp0`, whose values are numbers, and `expr`.
use mcsh.Base.{ℕ, zero, suc, false, not, ◌&&◌, ◌||◌, [], ◌∷◌, if◌then◌else◌, length, codes, eq, ℤ}
use mcsh.Number.{and64, or64, xor64, of_bool, to_bool}
use mcsh.Expr.Shell.{out_of_fuel, Shell, Ignore, heed, Words, M, Level, and_then, ◌>>=◌, pure}
use mcsh.Expr.Loop.{Turn, stop, again, loop, operand}
use mcsh.Expr.Low.{exp2c}

module _ {W : Type 0} (sh : Shell W) where
  abbrev pub exp2b_turn : Level W ℤ → Level W ℤ → Ignore → ℤ → Words → Turn W ℤ
  exp2b_turn self sub ig p1 [] = stop
  exp2b_turn self sub ig p1 (t ∷ ts) =
      if eq t (codes "&")
      then again ts (
          operand sh self sub ig >>= λ p2.
          pure (if sh.compat || not ig.skip then and64 p1 p2 else p1))
      else stop

  unfoldable pub exp2b : Level W ℤ → ℕ → Level W ℤ
  exp2b exp0 zero ig ts w = out_of_fuel
  exp2b exp0 (suc n) ig ts w =
      and_then (exp2c sh exp0 (suc n) ig ts w)
        (loop sh.compat (suc n) (exp2b_turn (exp2b exp0 n) (exp2c sh exp0 (suc n)) ig))

  abbrev pub exp2a_turn : Level W ℤ → Level W ℤ → Ignore → ℤ → Words → Turn W ℤ
  exp2a_turn self sub ig p1 [] = stop
  exp2a_turn self sub ig p1 (t ∷ ts) =
      if eq t (codes "^")
      then again ts (
          operand sh self sub ig >>= λ p2.
          pure (if sh.compat || not ig.skip then xor64 p1 p2 else p1))
      else stop

  unfoldable pub exp2a : Level W ℤ → ℕ → Level W ℤ
  exp2a exp0 zero ig ts w = out_of_fuel
  exp2a exp0 (suc n) ig ts w =
      and_then (exp2b exp0 (suc n) ig ts w)
        (loop sh.compat (suc n) (exp2a_turn (exp2a exp0 n) (exp2b exp0 (suc n)) ig))

  abbrev pub exp2x_turn : Level W ℤ → Level W ℤ → Ignore → ℤ → Words → Turn W ℤ
  exp2x_turn self sub ig p1 [] = stop
  exp2x_turn self sub ig p1 (t ∷ ts) =
      if eq t (codes "|")
      then again ts (
          operand sh self sub ig >>= λ p2.
          pure (if sh.compat || not ig.skip then or64 p1 p2 else p1))
      else stop

  unfoldable pub exp2x : Level W ℤ → ℕ → Level W ℤ
  exp2x exp0 zero ig ts w = out_of_fuel
  exp2x exp0 (suc n) ig ts w =
      and_then (exp2a exp0 (suc n) ig ts w)
        (loop sh.compat (suc n) (exp2x_turn (exp2x exp0 n) (exp2a exp0 (suc n)) ig))

  -- The right side is only parsed once the left side has decided.
  abbrev pub exp1_ignore : Ignore → ℤ → Ignore
  exp1_ignore ig p1 = record { skip = ig.skip || not (to_bool p1); noglob = false }

  abbrev pub exp1_turn : Level W ℤ → Level W ℤ → Ignore → ℤ → Words → Turn W ℤ
  exp1_turn self sub ig p1 [] = stop
  exp1_turn self sub ig p1 (t ∷ ts) =
      if eq t (codes "&&")
      then again ts (
          operand sh self sub (exp1_ignore ig p1) >>= λ p2.
          pure (if sh.compat || not ig.skip then of_bool (to_bool p1 && to_bool p2) else p1))
      else stop

  unfoldable pub exp1 : Level W ℤ → ℕ → Level W ℤ
  exp1 exp0 zero ig ts w = out_of_fuel
  exp1 exp0 (suc n) ig ts w =
      and_then (exp2x exp0 (suc n) ig ts w)
        (loop sh.compat (suc n) (exp1_turn (exp1 exp0 n) (exp2x exp0 (suc n)) ig))

  abbrev pub exp0_ignore : Ignore → ℤ → Ignore
  exp0_ignore ig p1 = record { skip = ig.skip || to_bool p1; noglob = false }

  abbrev pub exp0_turn : Level W ℤ → Level W ℤ → Ignore → ℤ → Words → Turn W ℤ
  exp0_turn self sub ig p1 [] = stop
  exp0_turn self sub ig p1 (t ∷ ts) =
      if eq t (codes "||")
      then again ts (
          operand sh self sub (exp0_ignore ig p1) >>= λ p2.
          pure (if sh.compat || not ig.skip then of_bool (to_bool p1 || to_bool p2) else p1))
      else stop

  -- `exp0`; an operand in parentheses enters it again with less fuel.
  unfoldable pub exp0 : ℕ → Level W ℤ
  exp0 zero ig ts w = out_of_fuel
  exp0 (suc n) ig ts w =
      and_then (exp1 (exp0 n) (suc n) ig ts w)
        (loop sh.compat (suc n) (exp0_turn (exp0 n) (exp1 (exp0 n) (suc n)) ig))

  -- `expr`, with fuel for every nesting that the words can have.
  unfoldable pub expr : M W ℤ
  expr ts w = exp0 (suc (length ts)) heed ts w
