-- ===== src/Expr/Total.antt =====
-- sh.exp.c: how the operands and the loops of the evaluator end. `Levels` and `Whole` go up the
-- grammar.
pub mod Levels
pub mod Whole
use mcsh.Base.{
  ℕ, zero, suc, ◌+◌, ◌≤◌, ◌<◌, Bool, true, false, not, ◌&&◌, ◌||◌, List, [], ◌∷◌, ◌==◌,
  if◌then◌else◌, length, Str, codes, eq, any, char0, char1, ℤ, pos, negsuc, eq_ℤ, Option, none,
  some, ◌≡◌, ◌≢◌, refl, ap, arith, inl, inr, Bool-cases,
}
use mcsh.Number.{sub64, quot64, rem64, not64, add64, mul64, of_bool, to_bool, putn, getn}
use mcsh.Expr.Isa.{isa, isa_next, anyop, eqeq, noteq, eqmatch, gtr}
use mcsh.Expr.FileTest.{filetest, file_tests, file_vals, test_letters}
use mcsh.Expr.Shell.{
  Error, bad_expression, Res, ok, raise, out_of_fuel, Outcome, done, raised, Shell, Ignore, heed,
  Words, M, Level, and_then, ◌>>=◌, pure, fail, lift, lift_state,
}
use mcsh.Expr.Arith.{
  exp6_not, exp6_compl, egetn, exp5_apply, exp4_apply, exp3a_apply, exp3_apply, exp2c_apply,
}
use mcsh.Expr.Operand.{
  exp6, exp6_brace, exp6_operand, split_brace, in_front, brace_from, exp6_close, run_status,
}
use mcsh.Expr.Loop.{Turn, stop, again, leave, run_turn, loop, operand}
use mcsh.Expr.Low.{
  exp5, exp5_turn, exp4, exp4_turn, exp3a, exp3a_rest, exp3, exp3_turn, exp2c, exp2c_rest,
}
use mcsh.Expr.Eval.{
  exp2b, exp2b_turn, exp2a, exp2a_turn, exp2x, exp2x_turn, exp1, exp1_turn, exp0, exp0_turn, expr,
}

-- The run ended, and left at most `k` words.
abbrev pub Ends : {W A : Type 0} → ℕ → Res (A × Words × W) → Type 0
Ends k (ok (a, ts, w)) = length ts ≤ k
Ends k (raise e) = Unit
Ends k out_of_fuel = ⊥

module _ {W A : Type 0} where
  Ends-le : (k l : ℕ) (r : Res (A × Words × W)) → k ≤ l → Ends k r → Ends l r
  Ends-le k l (ok (a, ts, w)) h e = omega arith
  Ends-le k l (raise e) h _ = tt
  Ends-le k l out_of_fuel h e = e

Ends-and_then :
    {W A B : Type 0} (k : ℕ) (r : Res (A × Words × W)) (f : A → M W B)
    → Ends k r
    → ((a : A) (ts : Words) (w : W) → length ts ≤ k → Ends k (f a ts w))
    → Ends k (and_then r f)
Ends-and_then k (ok (a, ts, w)) f h g = g a ts w h
Ends-and_then k (raise e) f h g = tt
Ends-and_then k out_of_fuel f h g = h

module _ {W A : Type 0} where
  Ends-lift : (k : ℕ) (o : Outcome A) (ts : Words) (w : W) → length ts ≤ k → Ends k (lift o ts w)
  Ends-lift k (done a) ts w h = h
  Ends-lift k (raised e) ts w h = tt

  Ends-lift_state :
      (k : ℕ) (o : Outcome (A × W)) (ts : Words) → length ts ≤ k → Ends k (lift_state o ts)
  Ends-lift_state k (done (a, w)) ts h = h
  Ends-lift_state k (raised e) ts h = tt

  -- A level that is given fewer than `m` words ends, and leaves no more than it was given.
  abbrev pub Bounded : ℕ → Level W A → Type 0
  Bounded m level =
      (ig : Ignore) (ts : Words) (w : W) → length ts < m → Ends (length ts) (level ig ts w)

  -- What is asked of a turn of a `while`: it takes a word off, and its body ends.
  abbrev TurnEnds : Words → Turn W A → Type 0
  TurnEnds ts stop = Unit
  TurnEnds ts (again rest m) = (length rest < length ts) × ((w : W) → Ends (length rest) (m rest w))
  TurnEnds ts (leave rest m) = (length rest < length ts) × ((w : W) → Ends (length rest) (m rest w))

  abbrev BoundedTurn : ℕ → (A → Words → Turn W A) → Type 0
  BoundedTurn m turn = (p : A) (ts : Words) → length ts < m → TurnEnds ts (turn p ts)

  run_turn-Ends :
      (compat : Bool) (next : A → M W A) (p : A) (ts : Words) (w : W) (t : Turn W A)
      → TurnEnds ts t
      → ((p' : A) (ts' : Words) (w' : W)
          → length ts' < length ts
          → Ends (length ts') (next p' ts' w'))
      → Ends (length ts) (run_turn compat next p ts w t)
  unfolding run_turn
  run_turn-Ends compat next p ts w stop e h = omega arith
  run_turn-Ends true next p ts w (again rest m) e h =
      Ends-and_then _ (m rest w) pure (Ends-le _ _ (m rest w) (omega arith) (e.1 w))
        (λ a ts' w' l. l)
  run_turn-Ends false next p ts w (again rest m) e h =
      Ends-le (length rest) _ (and_then (m rest w) next) (omega arith) (
        Ends-and_then _ (m rest w) next (e.1 w)
          (λ a ts' w' l. Ends-le _ _ (next a ts' w') l (h a ts' w' (omega arith))))
  run_turn-Ends compat next p ts w (leave rest m) e h = Ends-le _ _ (m rest w) (omega arith) (e.1 w)

  loop-Ends :
      (compat : Bool) (n : ℕ) (turn : A → Words → Turn W A)
      → BoundedTurn n turn
      → (p : A) (ts : Words) (w : W) → length ts < n
      → Ends (length ts) (loop compat n turn p ts w)
  unfolding loop
  loop-Ends compat zero turn b p ts w h = absurd (omega arith)
  loop-Ends compat (suc n) turn b p ts w h =
      run_turn-Ends compat (loop compat n turn) p ts w (turn p ts) (b p ts h) (λ p' ts' w' l.
        loop-Ends compat n turn (λ q us k. b q us (omega arith)) p' ts' w' (omega arith))

-- A level that is its operand and then a `while`.
level-Ends :
    {W A : Type 0} (compat : Bool) (n : ℕ) (sub : Level W A) (turn : Ignore → A → Words → Turn W A)
    → Bounded n sub
    → ((ig : Ignore) → BoundedTurn n (turn ig))
    → Bounded n (λ ig ts w. and_then (sub ig ts w) (loop compat n (turn ig)))
level-Ends compat n sub turn b t ig ts w h =
    Ends-and_then _ (sub ig ts w) _ (b ig ts w h) (λ p ts' w' l.
      Ends-le _ _ (loop compat n (turn ig) p ts' w') l
        (loop-Ends compat n (turn ig) (t ig) p ts' w' (omega arith)))

abbrev Shorter : ℕ → Option (Words × Words) → Type 0
Shorter n none = Unit
Shorter n (some (cs, rest)) = length rest < n

in_front-Shorter :
    (n : ℕ) (t : Str) (o : Option (Words × Words)) → Shorter n o → Shorter (suc n) (in_front t o)
in_front-Shorter n t none h = tt
in_front-Shorter n t (some (cs, rest)) h = omega arith

split_brace-Shorter : (ts : Words) → Shorter (length ts) (split_brace ts)
unfolding split_brace
split_brace-Shorter [] = tt
split_brace-Shorter (t ∷ ts) = elim (Bool-cases (eq t (codes "}"))) [
  | inl e ↦ rw e (omega arith)
  | inr e ↦ rw e (in_front-Shorter (length ts) t (split_brace ts) (split_brace-Shorter ts))
]

module _ {W A : Type 0} where
  Ends-if :
      (k : ℕ) (b : Bool) (x y : Res (A × Words × W))
      → Ends k x
      → Ends k y
      → Ends k (if b then x else y)
  Ends-if k true x y p q = p
  Ends-if k false x y p q = q

  -- What follows a run only looks at its value.
  Ends-and_lift :
      {B : Type 0} (k : ℕ) (r : Res (A × Words × W)) (f : A → Outcome B)
      → Ends k r
      → Ends k (and_then r (λ a. lift (f a)))
  Ends-and_lift k r f h = Ends-and_then k r _ h (λ a ts w l. Ends-lift k (f a) ts w l)

module _ {W : Type 0} (sh : Shell W) where
  -- The body of a turn: an operand, and a value or an error from it.
  body-Ends :
      {A B : Type 0} (n : ℕ) (self sub : Level W A) (ig : Ignore) (f : A → M W B)
      → Bounded n self
      → Bounded (suc n) sub
      → ((a : A) (ts : Words) (w : W) → Ends (length ts) (f a ts w))
      → (ts : Words) → length ts < n
      → (w : W) → Ends (length ts) ((operand sh self sub ig >>= f) ts w)
  body-Ends n self sub ig f bs bu k ts h w = elim (Bool-cases sh.compat) [
    | inl e ↦ rw e (
        Ends-and_then _ (self ig ts w) f (bs ig ts w h)
          (λ a ts' w' l. Ends-le _ _ (f a ts' w') l (k a ts' w')))
    | inr e ↦ rw e (
        Ends-and_then _ (sub ig ts w) f (bu ig ts w (omega arith))
          (λ a ts' w' l. Ends-le _ _ (f a ts' w') l (k a ts' w')))
  ]

  run_status-Ends :
      (rest : Words) (o : Outcome (Bool × W)) (k : ℕ)
      → length rest ≤ k
      → Ends k (run_status sh rest o)
  run_status-Ends rest (done (s, w)) k h = h
  run_status-Ends rest (raised e) k h = tt

  exp6_brace-Ends : (ig : Ignore) (ts : Words) (w : W) → Ends (length ts) (exp6_brace sh ig ts w)
  unfolding exp6_brace
  exp6_brace-Ends ig ts w = go (split_brace ts) (split_brace-Shorter ts)
    where
      go :
          (o : Option (Words × Words))
          → Shorter (length ts) o
          → Ends (length ts) (brace_from sh ig w o)
      go none h = tt
      go (some (cs, rest)) h =
          Ends-if _ ig.skip _ _ (omega arith) (run_status-Ends rest (sh.run cs w) _ (omega arith))

  filetest-Ends :
      (cp : Str) (ig : Ignore) (ts : Words) (w : W) → Ends (length ts) (filetest sh cp ig ts w)
  unfolding filetest
  filetest-Ends cp ig [] w = Ends-if _ (not (test_letters cp)) _ _ tt tt
  filetest-Ends cp ig (dp ∷ ts) w = Ends-if _ (not (test_letters cp)) _ _ tt (
      Ends-if _ (not (isa_next (dp ∷ ts) anyop == 0) && not (sh.stat w dp)) _ _ tt (
        Ends-if _ ig.skip _ _ (omega arith) (
          Ends-if _ ig.noglob _ _ (Ends-lift _ (sh.file_value w cp dp) ts w (omega arith)) (
            Ends-and_then _ (lift_state (sh.globone w dp) ts) _
              (Ends-lift_state _ (sh.globone w dp) ts (omega arith))
              (λ ep us v l. Ends-lift _ (sh.file_value v cp ep) us v (omega (arith, l)))))))

  exp6_operand-Ends :
      (ig : Ignore) (t : Str) (ts : Words) (w : W) → Ends (length ts) (exp6_operand sh ig t ts w)
  unfolding exp6_operand
  exp6_operand-Ends ig t ts w =
      Ends-if _ (char0 t == b'-' && (any file_tests (char1 t) || any file_vals (char1 t))) _ _
        (filetest-Ends t ig ts w)
        (Ends-if _ ig.noglob _ _ (omega arith)
          (Ends-lift_state _ (sh.globone w t) ts (omega arith)))

  exp6_close-Ends : (a : ℤ) (ts : Words) (w : W) → Ends (length ts) (exp6_close sh a ts w)
  exp6_close-Ends a [] w = tt
  exp6_close-Ends a (t ∷ ts) w = Ends-if _ (char0 t == b')') _ _ (omega arith) tt

  exp6-Bounded : (m : ℕ) (E : Level W ℤ) → Bounded m E → Bounded (suc m) (exp6 sh E)
  unfolding exp6
  exp6-Bounded m E b ig [] w h = tt
  exp6-Bounded m E b ig (t ∷ ts) w h =
      let inner = exp6-Bounded m E b ig ts w (omega arith) in
      let k = suc (length ts) in
      let up = Ends-le (length ts) k (exp6 sh E ig ts w) (omega arith) inner in
      Ends-if k (eq t (codes "!")) _ _ (Ends-and_lift k _ (exp6_not sh) up) (
        Ends-if k (eq t (codes "~")) _ _ (Ends-and_lift k _ (exp6_compl sh) up) (
          Ends-if k (eq t (codes "(")) _ _
            (Ends-and_then k (E ig ts w) (exp6_close sh)
              (Ends-le _ k (E ig ts w) (omega arith) (b ig ts w (omega arith)))
              (λ a us v l. Ends-le _ k (exp6_close sh a us v) l (exp6_close-Ends a us v)))
            (Ends-if k (eq t (codes "{")) _ _
              (Ends-le _ k (exp6_brace sh ig ts w) (omega arith) (exp6_brace-Ends ig ts w))
              (Ends-if k (not (isa t anyop == 0)) _ _ (omega arith) (
                Ends-le _ k (exp6_operand sh ig t ts w) (omega arith)
                  (exp6_operand-Ends ig t ts w))))))
