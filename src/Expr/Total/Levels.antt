-- ===== src/Expr/Total/Levels.antt =====
-- sh.exp.c: the end of the levels from `exp5` to `exp2c`.
use mcsh.Base.{
  ℕ, zero, suc, ◌≤◌, ◌<◌, Bool, true, false, [], ◌∷◌, ◌==◌, if◌then◌else◌, length, Str, char0, ℤ,
  pos, arith,
}
use mcsh.Expr.Isa.{mulop, addop, relop, eqop, isa}
use mcsh.Expr.Shell.{Outcome, done, Shell, Ignore, Words, Level, ◌>>=◌, lift}
use mcsh.Expr.Arith.{text, egetn, exp5_apply, exp4_apply, exp3a_apply, exp3_apply, exp2c_apply}
use mcsh.Expr.Operand.{exp6}
use mcsh.Expr.Loop.{Turn, operand}
use mcsh.Expr.Low.{
  exp5, exp5_turn, exp4, exp4_turn, exp3a, exp3a_rest, exp3, exp3_turn, exp2c, exp2c_rest, is_shift,
  starts_equal, rest, exp3_code, exp2c_ignore,
}
use mcsh.Expr.Total.{
  Ends, Ends-le, Ends-and_then, Ends-lift, Ends-if, Bounded, TurnEnds, BoundedTurn, level-Ends,
  body-Ends, exp6-Bounded,
}

module _ {W A : Type 0} where
  pub Bounded-le : (m n : ℕ) (level : Level W A) → m ≤ n → Bounded n level → Bounded m level
  Bounded-le m n level h b ig ts w l = b ig ts w (omega arith)

  pub TurnEnds-if :
      (ts : Words) (b : Bool) (x y : Turn W A)
      → TurnEnds ts x
      → TurnEnds ts y
      → TurnEnds ts (if b then x else y)
  TurnEnds-if ts true x y p q = p
  TurnEnds-if ts false x y p q = q

module _ {W : Type 0} (sh : Shell W) where
  -- The body of a turn that computes a value from the operand.
  pub turn-Ends :
      {A B : Type 0} (n : ℕ) (self sub : Level W A) (ig : Ignore) (f : A → Outcome B)
      → Bounded n self
      → Bounded (suc n) sub
      → (ts : Words) → length ts < n
      → (w : W) → Ends (length ts) ((operand sh self sub ig >>= λ a. lift (f a)) ts w)
  turn-Ends n self sub ig f bs bu ts h w =
      body-Ends sh n self sub ig (λ a. lift (f a)) bs bu
        (λ a us v. Ends-lift _ (f a) us v (omega arith)) ts h w

  exp5_turn-Bounded :
      (n : ℕ) (self sub : Level W Str)
      → Bounded n self
      → Bounded (suc n) sub
      → (ig : Ignore) → BoundedTurn (suc n) (exp5_turn sh self sub ig)
  exp5_turn-Bounded n self sub bs bu ig p [] h = tt
  exp5_turn-Bounded n self sub bs bu ig p (op ∷ ts) h =
      TurnEnds-if (op ∷ ts) (isa op mulop == 0) _ _ tt (
        TurnEnds-if (op ∷ ts) ig.noglob _ _ (omega arith, λ w. omega arith)
          (
            omega arith,
            turn-Ends n self sub (ig)
                (λ p2. text (if ig.skip then done (pos 0) else exp5_apply sh (char0 op) p p2)) bs bu
                ts (omega arith),
          ))

  exp5-Bounded :
      (m : ℕ) (E : Level W ℤ) → Bounded m E → (n : ℕ) → n ≤ suc m → Bounded n (exp5 sh E n)
  unfolding exp5
  exp5-Bounded m E b zero h = λ ig ts w l. absurd (omega arith)
  exp5-Bounded m E b (suc n) h =
      let self = exp5-Bounded m E b n (omega arith) in
      let sub = Bounded-le (suc n) (suc m) (exp6 sh E) (omega arith) (exp6-Bounded sh m E b) in
      level-Ends sh.compat (suc n) (exp6 sh E) (exp5_turn sh (exp5 sh E n) (exp6 sh E)) sub
        (λ ig. exp5_turn-Bounded n (exp5 sh E n) (exp6 sh E) self sub ig)

  exp4_turn-Bounded :
      (n : ℕ) (self sub : Level W Str)
      → Bounded n self
      → Bounded (suc n) sub
      → (ig : Ignore) → BoundedTurn (suc n) (exp4_turn sh self sub ig)
  exp4_turn-Bounded n self sub bs bu ig p [] h = tt
  exp4_turn-Bounded n self sub bs bu ig p (op ∷ ts) h =
      TurnEnds-if (op ∷ ts) (isa op addop == 0) _ _ tt (
        omega arith,
        turn-Ends n self sub (ig)
            (λ p2. text (if ig.skip then done (pos 0) else exp4_apply sh (char0 op) p p2)) bs bu ts
            (omega arith),
      )

  exp4-Bounded :
      (m : ℕ) (E : Level W ℤ) → Bounded m E → (n : ℕ) → n ≤ suc m → Bounded n (exp4 sh E n)
  unfolding exp4
  exp4-Bounded m E b zero h = λ ig ts w l. absurd (omega arith)
  exp4-Bounded m E b (suc n) h =
      let self = exp4-Bounded m E b n (omega arith) in
      let sub = exp5-Bounded m E b (suc n) h in
      level-Ends sh.compat (suc n) (exp5 sh E (suc n))
        (exp4_turn sh (exp4 sh E n) (exp5 sh E (suc n))) sub
        (λ ig. exp4_turn-Bounded n (exp4 sh E n) (exp5 sh E (suc n)) self sub ig)

  exp3a_rest-Ends :
      (n : ℕ) (self sub : Level W Str)
      → Bounded n self
      → Bounded (suc n) sub
      → (ig : Ignore) (p : Str) (ts : Words) (w : W) → length ts < suc n
      → Ends (length ts) (exp3a_rest sh self sub ig p ts w)
  unfolding exp3a_rest
  exp3a_rest-Ends n self sub bs bu ig p [] w h = omega arith
  exp3a_rest-Ends n self sub bs bu ig p (op ∷ ts) w h =
      let body =
        turn-Ends n self sub ig (λ p2. text (exp3a_apply sh (char0 op) p p2)) bs bu ts (omega arith)
          w in
      Ends-if _ (is_shift sh op) _ _ (Ends-le (length ts) _ _ (omega arith) body) (omega arith)

  exp3a-Bounded :
      (m : ℕ) (E : Level W ℤ) → Bounded m E → (n : ℕ) → n ≤ suc m → Bounded n (exp3a sh E n)
  unfolding exp3a
  exp3a-Bounded m E b zero h ig ts w l = absurd (omega arith)
  exp3a-Bounded m E b (suc n) h ig ts w l =
      let self = exp3a-Bounded m E b n (omega arith) in
      let sub = exp4-Bounded m E b (suc n) h in
      Ends-and_then _ (exp4 sh E (suc n) ig ts w) _ (sub ig ts w l) (λ p us v k.
        Ends-le _ _ (exp3a_rest sh (exp3a sh E n) (exp4 sh E (suc n)) ig p us v) k
          (exp3a_rest-Ends n (exp3a sh E n) (exp4 sh E (suc n)) self sub ig p us v (omega arith)))

  after_equal-le : (ts : Words) → length (if starts_equal sh ts then rest sh ts else ts) ≤ length ts
  after_equal-le [] = omega arith
  after_equal-le (t ∷ ts) = ground arith

  exp3_turn-Bounded :
      (n : ℕ) (self sub : Level W Str)
      → Bounded n self
      → Bounded (suc n) sub
      → (ig : Ignore) → BoundedTurn (suc n) (exp3_turn sh self sub ig)
  exp3_turn-Bounded n self sub bs bu ig p [] h = tt
  exp3_turn-Bounded n self sub bs bu ig p (op ∷ ts) h =
      let us = if starts_equal sh ts then rest sh ts else ts in
      let l = after_equal-le ts in
      TurnEnds-if (op ∷ ts) (isa op relop == 0) _ _ tt (
        omega (arith, l),
        turn-Ends n self sub ig
            (λ p2. text (
              if ig.skip
              then done (exp3_code sh (isa op relop) (starts_equal sh ts))
              else exp3_apply sh (isa op relop) (starts_equal sh ts) p p2))
            bs bu us (omega (arith, l)),
      )

  exp3-Bounded :
      (m : ℕ) (E : Level W ℤ) → Bounded m E → (n : ℕ) → n ≤ suc m → Bounded n (exp3 sh E n)
  unfolding exp3
  exp3-Bounded m E b zero h = λ ig ts w l. absurd (omega arith)
  exp3-Bounded m E b (suc n) h =
      let self = exp3-Bounded m E b n (omega arith) in
      let sub = exp3a-Bounded m E b (suc n) h in
      level-Ends sh.compat (suc n) (exp3a sh E (suc n))
        (exp3_turn sh (exp3 sh E n) (exp3a sh E (suc n))) sub
        (λ ig. exp3_turn-Bounded n (exp3 sh E n) (exp3a sh E (suc n)) self sub ig)

  exp2c_rest-Ends :
      (n : ℕ) (sub : Level W Str)
      → Bounded n sub
      → (ig : Ignore) (p : Str) (ts : Words) (w : W) → length ts < n
      → Ends (length ts) (exp2c_rest sh sub ig p ts w)
  unfolding exp2c_rest
  exp2c_rest-Ends n sub b ig p [] w h = Ends-lift _ (egetn sh p) [] w (omega arith)
  exp2c_rest-Ends n sub b ig p (op ∷ ts) w h =
      let f = λ (p2 : Str).
        if ig.skip then done (pos (isa op eqop)) else exp2c_apply sh (isa op eqop) p p2 in
      Ends-if _ (isa op eqop == 0) _ _ (Ends-lift _ (egetn sh p) (op ∷ ts) w (omega arith)) (
        Ends-and_then _ (sub (exp2c_ignore sh (isa op eqop) ig) ts w) (λ p2. lift (f p2))
          (Ends-le (length ts) _ (sub (exp2c_ignore sh (isa op eqop) ig) ts w) (omega arith)
            (b (exp2c_ignore sh (isa op eqop) ig) ts w (omega arith)))
          (λ a us v l. Ends-lift _ (f a) us v l))

  pub exp2c-Bounded :
      (m : ℕ) (E : Level W ℤ) → Bounded m E → (n : ℕ) → n ≤ suc m → Bounded n (exp2c sh E n)
  unfolding exp2c
  exp2c-Bounded m E b n h ig ts w l =
      let sub = exp3-Bounded m E b n h in
      Ends-and_then _ (exp3 sh E n ig ts w) _ (sub ig ts w l) (λ p us v k.
        Ends-le _ _ (exp2c_rest sh (exp3 sh E n) ig p us v) k
          (exp2c_rest-Ends n (exp3 sh E n) sub ig p us v (omega arith)))
