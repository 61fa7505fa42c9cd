-- ===== src/Expr/Skip/Levels.antt =====
-- sh.exp.c: the levels of the evaluator under TEXP_IGNORE.
use mcsh.Base.{
  ℕ, zero, suc, Bool, true, false, ◌||◌, [], ◌∷◌, ◌==◌, if◌then◌else◌, Str, codes, eq, ℤ, ◌≡◌, refl,
}
use mcsh.Expr.Isa.{mulop, addop, relop, eqop, isa, eqmatch, noteqmatch}
use mcsh.Expr.Shell.{Shell, Ignore, Words, Level}
use mcsh.Expr.Arith.{egetn}
use mcsh.Expr.Operand.{exp6}
use mcsh.Expr.Loop.{Turn}
use mcsh.Expr.Low.{
  exp5, exp5_turn, exp4, exp4_turn, exp3a, exp3a_rest, exp3, exp3_turn, exp2c, exp2c_rest, is_shift,
  exp2c_ignore,
}
use mcsh.Expr.Eval.{
  exp2b, exp2b_turn, exp2a, exp2a_turn, exp2x, exp2x_turn, exp1, exp1_turn, exp1_ignore,
  exp0_ignore, exp0, exp0_turn,
}
use mcsh.Expr.Skip.{
  Still, none_yet, Quiet, QuietRun, QuietTurn, Still-and_then, lift-QuietRun, Still-if,
  QuietTurn-if, level-Quiet, body-Still, exp6-Quiet,
}

-- What is asked of the turn of a level, for quiet levels `self` and `sub`.
QuietLevelTurn :
    {W A : Type 0} → Shell W → (Level W A → Level W A → Ignore → A → Words → Turn W A) → Type 0
QuietLevelTurn {W} {A} sh turn =
    (self sub : Level W A) (ig : Ignore) (p : A) (ts : Words)
    → Quiet sh self
    → Quiet sh sub
    → ig.skip ≡ true
    → QuietTurn sh (turn self sub ig p ts)

or_true : (a b : Bool) → a ≡ true → (a || b) ≡ true
or_true true b s = refl
or_true false b s = cc

module _ {W : Type 0} (sh : Shell W) where
  exp5_turn-Quiet : QuietLevelTurn sh (exp5_turn sh)
  unfolding QuietLevelTurn
  exp5_turn-Quiet self sub ig p [] a b s = tt
  exp5_turn-Quiet self sub ig p (op ∷ ts) a b s = QuietTurn-if sh (isa op mulop == 0) _ _ tt (
      QuietTurn-if sh ig.noglob _ _ (λ w. none_yet)
        λ w. body-Still sh self sub ig _ a b s (λ p2. lift-QuietRun sh _) ts w)

  exp4_turn-Quiet : QuietLevelTurn sh (exp4_turn sh)
  unfolding QuietLevelTurn
  exp4_turn-Quiet self sub ig p [] a b s = tt
  exp4_turn-Quiet self sub ig p (op ∷ ts) a b s =
      QuietTurn-if sh (isa op addop == 0) _ _ tt
        λ w. body-Still sh self sub ig _ a b s (λ p2. lift-QuietRun sh _) ts w

  exp3a_rest-Still :
      (self sub : Level W Str) (ig : Ignore) (p : Str)
      → Quiet sh self
      → Quiet sh sub
      → ig.skip ≡ true
      → QuietRun sh (exp3a_rest sh self sub ig p)
  unfolding exp3a_rest
  exp3a_rest-Still self sub ig p a b s [] w = none_yet
  exp3a_rest-Still self sub ig p a b s (op ∷ ts) w =
      Still-if sh w (is_shift sh op) _ _
        (body-Still sh self sub ig _ a b s (λ p2. lift-QuietRun sh _) ts w) none_yet

  exp3_turn-Quiet : QuietLevelTurn sh (exp3_turn sh)
  unfolding QuietLevelTurn
  exp3_turn-Quiet self sub ig p [] a b s = tt
  exp3_turn-Quiet self sub ig p (op ∷ ts) a b s =
      QuietTurn-if sh (isa op relop == 0) _ _ tt
        λ w. body-Still sh self sub ig _ a b s (λ p2. lift-QuietRun sh _) _ w

  exp2b_turn-Quiet : QuietLevelTurn sh (exp2b_turn sh)
  unfolding QuietLevelTurn
  exp2b_turn-Quiet self sub ig p [] a b s = tt
  exp2b_turn-Quiet self sub ig p (t ∷ ts) a b s =
      QuietTurn-if sh (eq t (codes "&")) _ _
        (λ w. body-Still sh self sub ig _ a b s (λ p2 us v. none_yet) ts w) tt

  exp2a_turn-Quiet : QuietLevelTurn sh (exp2a_turn sh)
  unfolding QuietLevelTurn
  exp2a_turn-Quiet self sub ig p [] a b s = tt
  exp2a_turn-Quiet self sub ig p (t ∷ ts) a b s =
      QuietTurn-if sh (eq t (codes "^")) _ _
        (λ w. body-Still sh self sub ig _ a b s (λ p2 us v. none_yet) ts w) tt

  exp2x_turn-Quiet : QuietLevelTurn sh (exp2x_turn sh)
  unfolding QuietLevelTurn
  exp2x_turn-Quiet self sub ig p [] a b s = tt
  exp2x_turn-Quiet self sub ig p (t ∷ ts) a b s =
      QuietTurn-if sh (eq t (codes "|")) _ _
        (λ w. body-Still sh self sub ig _ a b s (λ p2 us v. none_yet) ts w) tt

  exp1_turn-Quiet : QuietLevelTurn sh (exp1_turn sh)
  unfolding QuietLevelTurn
  exp1_turn-Quiet self sub ig p [] a b s = tt
  exp1_turn-Quiet self sub ig p (t ∷ ts) a b s =
      QuietTurn-if sh (eq t (codes "&&")) _ _
        (λ w.
          body-Still sh self sub (exp1_ignore sh ig p) _ a b (or_true ig.skip _ s)
            (λ p2 us v. none_yet) ts w)
        tt

  exp0_turn-Quiet : QuietLevelTurn sh (exp0_turn sh)
  unfolding QuietLevelTurn
  exp0_turn-Quiet self sub ig p [] a b s = tt
  exp0_turn-Quiet self sub ig p (t ∷ ts) a b s =
      QuietTurn-if sh (eq t (codes "||")) _ _
        (λ w.
          body-Still sh self sub (exp0_ignore sh ig p) _ a b (or_true ig.skip _ s)
            (λ p2 us v. none_yet) ts w)
        tt

  exp2c_ignore-skip : (i : ℕ) (ig : Ignore) → ig.skip ≡ true → (exp2c_ignore sh i ig).skip ≡ true
  exp2c_ignore-skip i ig s = go (i == eqmatch || i == noteqmatch)
    where
      go : (b : Bool) → (if◌then◌else◌ {A = Ignore} b (record ig { noglob = true }) ig).skip ≡ true
      go true = s
      go false = s

  exp2c_rest-QuietRun :
      (sub : Level W Str) (ig : Ignore) (p : Str)
      → Quiet sh sub
      → ig.skip ≡ true
      → QuietRun sh (exp2c_rest sh sub ig p)
  unfolding exp2c_rest
  exp2c_rest-QuietRun sub ig p q s [] w = lift-QuietRun sh (egetn sh p) [] w
  exp2c_rest-QuietRun sub ig p q s (op ∷ ts) w =
      let i = isa op eqop in
      Still-if sh w (i == 0) _ _ (lift-QuietRun sh (egetn sh p) (op ∷ ts) w) (
        Still-and_then sh w (sub (exp2c_ignore sh i ig) ts w) _
          (q (exp2c_ignore sh i ig) ts w (exp2c_ignore-skip i ig s)) λ p2. lift-QuietRun sh _)

  -- The levels, over a quiet level for what stands in parentheses.
  module _ (E : Level W ℤ) (quiet : Quiet sh E) where
    exp5-Quiet : (n : ℕ) → Quiet sh (exp5 sh E n)
    unfolding exp5 QuietLevelTurn
    exp5-Quiet zero = λ ig ts w s. tt
    exp5-Quiet (suc n) =
        level-Quiet sh sh.compat (suc n) (exp6 sh E) (exp5_turn sh (exp5 sh E n) (exp6 sh E))
          (exp6-Quiet sh E quiet)
          λ ig p ts. exp5_turn-Quiet _ _ ig p ts (exp5-Quiet n) (exp6-Quiet sh E quiet)

    exp4-Quiet : (n : ℕ) → Quiet sh (exp4 sh E n)
    unfolding exp4 QuietLevelTurn
    exp4-Quiet zero = λ ig ts w s. tt
    exp4-Quiet (suc n) =
        level-Quiet sh sh.compat (suc n) (exp5 sh E (suc n))
          (exp4_turn sh (exp4 sh E n) (exp5 sh E (suc n))) (exp5-Quiet (suc n))
          λ ig p ts. exp4_turn-Quiet _ _ ig p ts (exp4-Quiet n) (exp5-Quiet (suc n))

    exp3a-Quiet : (n : ℕ) → Quiet sh (exp3a sh E n)
    unfolding exp3a
    exp3a-Quiet zero ig ts w s = tt
    exp3a-Quiet (suc n) ig ts w s =
        Still-and_then sh w (exp4 sh E (suc n) ig ts w) _ (exp4-Quiet (suc n) ig ts w s) λ p.
          exp3a_rest-Still (exp3a sh E n) (exp4 sh E (suc n)) ig p (exp3a-Quiet n)
            (exp4-Quiet (suc n)) s

    exp3-Quiet : (n : ℕ) → Quiet sh (exp3 sh E n)
    unfolding exp3 QuietLevelTurn
    exp3-Quiet zero = λ ig ts w s. tt
    exp3-Quiet (suc n) =
        level-Quiet sh sh.compat (suc n) (exp3a sh E (suc n))
          (exp3_turn sh (exp3 sh E n) (exp3a sh E (suc n))) (exp3a-Quiet (suc n))
          λ ig p ts. exp3_turn-Quiet _ _ ig p ts (exp3-Quiet n) (exp3a-Quiet (suc n))

    exp2c-Quiet : (n : ℕ) → Quiet sh (exp2c sh E n)
    unfolding exp2c
    exp2c-Quiet n ig ts w s =
        Still-and_then sh w (exp3 sh E n ig ts w) _ (exp3-Quiet n ig ts w s)
          λ p. exp2c_rest-QuietRun (exp3 sh E n) ig p (exp3-Quiet n) s

    exp2b-Quiet : (n : ℕ) → Quiet sh (exp2b sh E n)
    unfolding exp2b QuietLevelTurn
    exp2b-Quiet zero = λ ig ts w s. tt
    exp2b-Quiet (suc n) =
        level-Quiet sh sh.compat (suc n) (exp2c sh E (suc n))
          (exp2b_turn sh (exp2b sh E n) (exp2c sh E (suc n))) (exp2c-Quiet (suc n))
          λ ig p ts. exp2b_turn-Quiet _ _ ig p ts (exp2b-Quiet n) (exp2c-Quiet (suc n))

    exp2a-Quiet : (n : ℕ) → Quiet sh (exp2a sh E n)
    unfolding exp2a QuietLevelTurn
    exp2a-Quiet zero = λ ig ts w s. tt
    exp2a-Quiet (suc n) =
        level-Quiet sh sh.compat (suc n) (exp2b sh E (suc n))
          (exp2a_turn sh (exp2a sh E n) (exp2b sh E (suc n))) (exp2b-Quiet (suc n))
          λ ig p ts. exp2a_turn-Quiet _ _ ig p ts (exp2a-Quiet n) (exp2b-Quiet (suc n))

    exp2x-Quiet : (n : ℕ) → Quiet sh (exp2x sh E n)
    unfolding exp2x QuietLevelTurn
    exp2x-Quiet zero = λ ig ts w s. tt
    exp2x-Quiet (suc n) =
        level-Quiet sh sh.compat (suc n) (exp2a sh E (suc n))
          (exp2x_turn sh (exp2x sh E n) (exp2a sh E (suc n))) (exp2a-Quiet (suc n))
          λ ig p ts. exp2x_turn-Quiet _ _ ig p ts (exp2x-Quiet n) (exp2a-Quiet (suc n))

    exp1-Quiet : (n : ℕ) → Quiet sh (exp1 sh E n)
    unfolding exp1 QuietLevelTurn
    exp1-Quiet zero = λ ig ts w s. tt
    exp1-Quiet (suc n) =
        level-Quiet sh sh.compat (suc n) (exp2x sh E (suc n))
          (exp1_turn sh (exp1 sh E n) (exp2x sh E (suc n))) (exp2x-Quiet (suc n))
          λ ig p ts. exp1_turn-Quiet _ _ ig p ts (exp1-Quiet n) (exp2x-Quiet (suc n))

  -- With TEXP_IGNORE set, where `exp0` with any fuel ends with a value, the state of the shell is one
  -- that the expansion of words leads to: no command in braces is executed, however deep it stands.
  pub exp0-Quiet :
      (n : ℕ) (ig : Ignore) (ts : Words) (w : W) → ig.skip ≡ true → Still sh w (exp0 sh n ig ts w)
  unfolding exp0 QuietLevelTurn
  exp0-Quiet zero ig ts w s = tt
  exp0-Quiet (suc n) ig ts w s =
      level-Quiet sh sh.compat (suc n) (exp1 sh (exp0 sh n) (suc n))
        (exp0_turn sh (exp0 sh n) (exp1 sh (exp0 sh n) (suc n)))
        (exp1-Quiet (exp0 sh n) (exp0-Quiet n) (suc n))
        (λ ig p ts.
          exp0_turn-Quiet _ _ ig p ts (exp0-Quiet n)
            (exp1-Quiet (exp0 sh n) (exp0-Quiet n) (suc n)))
        ig ts w s
