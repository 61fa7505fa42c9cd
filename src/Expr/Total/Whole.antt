-- ===== src/Expr/Total/Whole.antt =====
-- sh.exp.c: the end of the levels from `exp2b` up to `expr`.
use mcsh.Base.{
  ℕ, zero, suc, ◌≤◌, not, ◌&&◌, ◌||◌, [], ◌∷◌, if◌then◌else◌, length, codes, eq, ℤ, arith,
}
use mcsh.Number.{and64, or64, xor64, of_bool, to_bool}
use mcsh.Expr.Shell.{done, Shell, Ignore, heed, Words, Level}
use mcsh.Expr.Low.{exp2c}
use mcsh.Expr.Eval.{
  exp2b, exp2b_turn, exp2a, exp2a_turn, exp2x, exp2x_turn, exp1, exp1_turn, exp1_ignore,
  exp0_ignore, exp0, exp0_turn, expr,
}
use mcsh.Expr.Total.{Ends, Bounded, BoundedTurn, level-Ends}
use mcsh.Expr.Total.Levels.{turn-Ends, exp2c-Bounded, TurnEnds-if}

module _ {W : Type 0} (sh : Shell W) where
  exp2b_turn-Bounded :
      (n : ℕ) (self sub : Level W ℤ)
      → Bounded n self
      → Bounded (suc n) sub
      → (ig : Ignore) → BoundedTurn (suc n) (exp2b_turn sh self sub ig)
  exp2b_turn-Bounded n self sub bs bu ig p [] h = tt
  exp2b_turn-Bounded n self sub bs bu ig p (op ∷ ts) h =
      TurnEnds-if (op ∷ ts) (eq op (codes "&")) _ _
        (
          omega arith,
          turn-Ends sh n self sub (ig)
              (λ p2. done (if sh.compat || not ig.skip then and64 p p2 else p)) bs bu ts
              (omega arith),
        )
        tt

  exp2b-Bounded :
      (m : ℕ) (E : Level W ℤ) → Bounded m E → (n : ℕ) → n ≤ suc m → Bounded n (exp2b sh E n)
  unfolding exp2b
  exp2b-Bounded m E b zero h = λ ig ts w l. absurd (omega arith)
  exp2b-Bounded m E b (suc n) h =
      let self = exp2b-Bounded m E b n (omega arith) in
      let sub = exp2c-Bounded sh m E b (suc n) h in
      level-Ends sh.compat (suc n) (exp2c sh E (suc n))
        (exp2b_turn sh (exp2b sh E n) (exp2c sh E (suc n))) sub
        (λ ig. exp2b_turn-Bounded n (exp2b sh E n) (exp2c sh E (suc n)) self sub ig)

  exp2a_turn-Bounded :
      (n : ℕ) (self sub : Level W ℤ)
      → Bounded n self
      → Bounded (suc n) sub
      → (ig : Ignore) → BoundedTurn (suc n) (exp2a_turn sh self sub ig)
  exp2a_turn-Bounded n self sub bs bu ig p [] h = tt
  exp2a_turn-Bounded n self sub bs bu ig p (op ∷ ts) h =
      TurnEnds-if (op ∷ ts) (eq op (codes "^")) _ _
        (
          omega arith,
          turn-Ends sh n self sub (ig)
              (λ p2. done (if sh.compat || not ig.skip then xor64 p p2 else p)) bs bu ts
              (omega arith),
        )
        tt

  exp2a-Bounded :
      (m : ℕ) (E : Level W ℤ) → Bounded m E → (n : ℕ) → n ≤ suc m → Bounded n (exp2a sh E n)
  unfolding exp2a
  exp2a-Bounded m E b zero h = λ ig ts w l. absurd (omega arith)
  exp2a-Bounded m E b (suc n) h =
      let self = exp2a-Bounded m E b n (omega arith) in
      let sub = exp2b-Bounded m E b (suc n) h in
      level-Ends sh.compat (suc n) (exp2b sh E (suc n))
        (exp2a_turn sh (exp2a sh E n) (exp2b sh E (suc n))) sub
        (λ ig. exp2a_turn-Bounded n (exp2a sh E n) (exp2b sh E (suc n)) self sub ig)

  exp2x_turn-Bounded :
      (n : ℕ) (self sub : Level W ℤ)
      → Bounded n self
      → Bounded (suc n) sub
      → (ig : Ignore) → BoundedTurn (suc n) (exp2x_turn sh self sub ig)
  exp2x_turn-Bounded n self sub bs bu ig p [] h = tt
  exp2x_turn-Bounded n self sub bs bu ig p (op ∷ ts) h =
      TurnEnds-if (op ∷ ts) (eq op (codes "|")) _ _
        (
          omega arith,
          turn-Ends sh n self sub (ig)
              (λ p2. done (if sh.compat || not ig.skip then or64 p p2 else p)) bs bu ts
              (omega arith),
        )
        tt

  exp2x-Bounded :
      (m : ℕ) (E : Level W ℤ) → Bounded m E → (n : ℕ) → n ≤ suc m → Bounded n (exp2x sh E n)
  unfolding exp2x
  exp2x-Bounded m E b zero h = λ ig ts w l. absurd (omega arith)
  exp2x-Bounded m E b (suc n) h =
      let self = exp2x-Bounded m E b n (omega arith) in
      let sub = exp2a-Bounded m E b (suc n) h in
      level-Ends sh.compat (suc n) (exp2a sh E (suc n))
        (exp2x_turn sh (exp2x sh E n) (exp2a sh E (suc n))) sub
        (λ ig. exp2x_turn-Bounded n (exp2x sh E n) (exp2a sh E (suc n)) self sub ig)

  exp1_turn-Bounded :
      (n : ℕ) (self sub : Level W ℤ)
      → Bounded n self
      → Bounded (suc n) sub
      → (ig : Ignore) → BoundedTurn (suc n) (exp1_turn sh self sub ig)
  exp1_turn-Bounded n self sub bs bu ig p [] h = tt
  exp1_turn-Bounded n self sub bs bu ig p (op ∷ ts) h =
      TurnEnds-if (op ∷ ts) (eq op (codes "&&")) _ _
        (
          omega arith,
          turn-Ends sh n self sub (exp1_ignore sh ig p)
              (λ p2.
                done (if sh.compat || not ig.skip then of_bool (to_bool p && to_bool p2) else p))
              bs bu ts (omega arith),
        )
        tt

  exp1-Bounded :
      (m : ℕ) (E : Level W ℤ) → Bounded m E → (n : ℕ) → n ≤ suc m → Bounded n (exp1 sh E n)
  unfolding exp1
  exp1-Bounded m E b zero h = λ ig ts w l. absurd (omega arith)
  exp1-Bounded m E b (suc n) h =
      let self = exp1-Bounded m E b n (omega arith) in
      let sub = exp2x-Bounded m E b (suc n) h in
      level-Ends sh.compat (suc n) (exp2x sh E (suc n))
        (exp1_turn sh (exp1 sh E n) (exp2x sh E (suc n))) sub
        (λ ig. exp1_turn-Bounded n (exp1 sh E n) (exp2x sh E (suc n)) self sub ig)

  exp0_turn-Bounded :
      (n : ℕ) (self sub : Level W ℤ)
      → Bounded n self
      → Bounded (suc n) sub
      → (ig : Ignore) → BoundedTurn (suc n) (exp0_turn sh self sub ig)
  exp0_turn-Bounded n self sub bs bu ig p [] h = tt
  exp0_turn-Bounded n self sub bs bu ig p (op ∷ ts) h =
      TurnEnds-if (op ∷ ts) (eq op (codes "||")) _ _
        (
          omega arith,
          turn-Ends sh n self sub (exp0_ignore sh ig p)
              (λ p2.
                done (if sh.compat || not ig.skip then of_bool (to_bool p || to_bool p2) else p))
              bs bu ts (omega arith),
        )
        tt

  exp0-Bounded : (n : ℕ) → Bounded n (exp0 sh n)
  unfolding exp0
  exp0-Bounded zero = λ ig ts w l. absurd (omega arith)
  exp0-Bounded (suc n) =
      let self = exp0-Bounded n in
      let sub = exp1-Bounded n (exp0 sh n) self (suc n) (omega arith) in
      level-Ends sh.compat (suc n) (exp1 sh (exp0 sh n) (suc n))
        (exp0_turn sh (exp0 sh n) (exp1 sh (exp0 sh n) (suc n))) sub
        (λ ig. exp0_turn-Bounded n (exp0 sh n) (exp1 sh (exp0 sh n) (suc n)) self sub ig)

  -- An expression of any words ends with a value or an error, and leaves at most the words that it
  -- was given: the fuel that `expr` hands out is enough for every nesting.
  pub expr-Ends : (ts : Words) (w : W) → Ends (length ts) (expr sh ts w)
  unfolding expr
  expr-Ends ts w = exp0-Bounded (suc (length ts)) heed ts w (omega arith)
