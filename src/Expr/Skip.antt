-- ===== src/Expr/Skip.antt =====
-- sh.exp.c: operands and loops of the evaluator under TEXP_IGNORE, and the state of the shell.
pub mod Levels
use mcsh.Base.{
  ℕ, zero, suc, Bool, true, false, not, ◌&&◌, ◌||◌, List, [], ◌∷◌, ◌==◌, if◌then◌else◌, Str, codes,
  eq, any, char0, char1, ℤ, Option, none, some, ◌≡◌, refl, Bool-cases, inl, inr,
}
use mcsh.Expr.Isa.{isa, isa_next, anyop}
use mcsh.Expr.FileTest.{filetest, file_tests, file_vals, test_letters}
use mcsh.Expr.Shell.{
  bad_expression, Res, ok, raise, out_of_fuel, Outcome, done, raised, Shell, Ignore, Words, M,
  Level, and_then, ◌>>=◌, pure, lift, lift_state,
}
use mcsh.Expr.Arith.{exp6_not, exp6_compl}
use mcsh.Expr.Operand.{exp6, exp6_brace, exp6_operand, exp6_close, split_brace, brace_from}
use mcsh.Expr.Loop.{Turn, stop, again, leave, run_turn, loop, operand}

-- The states that the expansion of words by `globone` leads to from a state.
pub data Expands {W : Type 0} (sh : Shell W) (w : W) : W → Type 0 where
  none_yet : Expands sh w w
  one_more :
      {v u : W} (cp t : Str) → Expands sh w v → sh.globone v cp ≡ done (t, u) → Expands sh w u

module _ {W : Type 0} (sh : Shell W) where
  Expands-trans : (w v u : W) → Expands sh w v → Expands sh v u → Expands sh w u
  Expands-trans w v _ p none_yet = p
  Expands-trans w v u p (one_more cp t q e) = one_more cp t (Expands-trans w v _ p q) e

-- A run from the state `w` that ends with a value has only expanded words.
abbrev pub Still : {W A : Type 0} → Shell W → W → Res (A × Words × W) → Type 0
Still sh w (ok (a, ts, w')) = Expands sh w w'
Still sh w (raise e) = Unit
Still sh w out_of_fuel = Unit

abbrev pub QuietRun : {W A : Type 0} → Shell W → M W A → Type 0
QuietRun {W} sh m = (ts : Words) (w : W) → Still sh w (m ts w)

-- A level that only expands words where it is to skip.
abbrev pub Quiet : {W A : Type 0} → Shell W → Level W A → Type 0
Quiet {W} sh level =
    (ig : Ignore) (ts : Words) (w : W) → ig.skip ≡ true → Still sh w (level ig ts w)

abbrev pub QuietTurn : {W A : Type 0} → Shell W → Turn W A → Type 0
QuietTurn sh stop = Unit
QuietTurn {W} sh (again rest m) = (w : W) → Still sh w (m rest w)
QuietTurn {W} sh (leave rest m) = (w : W) → Still sh w (m rest w)

module _ {W B : Type 0} (sh : Shell W) where
  Still-later : (w v : W) (r : Res (B × Words × W)) → Expands sh w v → Still sh v r → Still sh w r
  Still-later w v (ok (b, ts, u)) p q = Expands-trans sh w v u p q
  Still-later w v (raise e) p q = tt
  Still-later w v out_of_fuel p q = tt

module _ {W A B : Type 0} (sh : Shell W) where
  pub Still-and_then :
      (w : W) (r : Res (A × Words × W)) (f : A → M W B)
      → Still sh w r
      → ((a : A) → QuietRun sh (f a))
      → Still sh w (and_then r f)
  Still-and_then w (ok (a, ts, w')) f h k = Still-later sh w w' (f a ts w') h (k a ts w')
  Still-and_then w (raise e) f h k = tt
  Still-and_then w out_of_fuel f h k = tt

module _ {W A : Type 0} (sh : Shell W) where
  pub lift-QuietRun : (o : Outcome A) → QuietRun sh (lift o)
  lift-QuietRun (done a) ts w = none_yet
  lift-QuietRun (raised e) ts w = tt

  pub Still-if :
      (w : W) (b : Bool) (x y : Res (A × Words × W))
      → Still sh w x
      → Still sh w y
      → Still sh w (if b then x else y)
  Still-if w true x y p q = p
  Still-if w false x y p q = q

  pub QuietTurn-if :
      (b : Bool) (x y : Turn W A)
      → QuietTurn sh x
      → QuietTurn sh y
      → QuietTurn sh (if b then x else y)
  QuietTurn-if true x y p q = p
  QuietTurn-if false x y p q = q

  run_turn-Still :
      (compat : Bool) (next : A → M W A) (p : A) (ts : Words) (w : W) (t : Turn W A)
      → QuietTurn sh t
      → ((a : A) → QuietRun sh (next a))
      → Still sh w (run_turn compat next p ts w t)
  unfolding run_turn
  run_turn-Still compat next p ts w stop h k = none_yet
  run_turn-Still true next p ts w (again rest m) h k =
      Still-and_then sh w (m rest w) pure (h w) λ a ts w. none_yet
  run_turn-Still false next p ts w (again rest m) h k = Still-and_then sh w (m rest w) next (h w) k
  run_turn-Still compat next p ts w (leave rest m) h k = h w

  loop-QuietRun :
      (compat : Bool) (n : ℕ) (turn : A → Words → Turn W A)
      → ((p : A) (ts : Words) → QuietTurn sh (turn p ts))
      → (p : A) → QuietRun sh (loop compat n turn p)
  unfolding loop
  loop-QuietRun compat zero turn h p ts w = tt
  loop-QuietRun compat (suc n) turn h p ts w =
      run_turn-Still compat (loop compat n turn) p ts w (turn p ts) (h p ts)
        λ a. loop-QuietRun compat n turn h a

  -- A level that is its operand and then a `while`.
  pub level-Quiet :
      (compat : Bool) (n : ℕ) (sub : Level W A) (turn : Ignore → A → Words → Turn W A)
      → Quiet sh sub
      → ((ig : Ignore) (p : A) (ts : Words) → ig.skip ≡ true → QuietTurn sh (turn ig p ts))
      → Quiet sh (λ ig ts w. and_then (sub ig ts w) (loop compat n (turn ig)))
  level-Quiet compat n sub turn q t ig ts w s =
      Still-and_then sh w (sub ig ts w) (loop compat n (turn ig)) (q ig ts w s)
        λ a. loop-QuietRun compat n (turn ig) (λ p us. t ig p us s) a

module _ {W : Type 0} (sh : Shell W) where
  -- The body of a turn: an operand, and what follows from its value.
  pub body-Still :
      {A B : Type 0} (self sub : Level W A) (ig : Ignore) (f : A → M W B)
      → Quiet sh self
      → Quiet sh sub
      → ig.skip ≡ true
      → ((a : A) → QuietRun sh (f a))
      → QuietRun sh (operand sh self sub ig >>= f)
  body-Still {A} self sub ig f p q s k ts w = go sh.compat
    where
      go : (b : Bool) → Still sh w (and_then ((if b then self else sub) ig ts w) f)
      go true = Still-and_then sh w (self ig ts w) f (p ig ts w s) k
      go false = Still-and_then sh w (sub ig ts w) f (q ig ts w s) k

  exp6_brace-Quiet : Quiet sh (exp6_brace sh)
  unfolding exp6_brace
  exp6_brace-Quiet ig ts w s = go (split_brace ts)
    where
      go : (o : Option (Words × Words)) → Still sh w (brace_from sh ig w o)
      go none = tt
      go (some (cs, rest)) = rw s none_yet

  filetest-Quiet : (cp : Str) → Quiet sh (filetest sh cp)
  unfolding filetest
  filetest-Quiet cp ig [] w s = Still-if sh w (not (test_letters cp)) _ _ tt tt
  filetest-Quiet cp ig (dp ∷ ts) w s = Still-if sh w (not (test_letters cp)) _ _ tt (
      Still-if sh w (not (isa_next (dp ∷ ts) anyop == 0) && not (sh.stat w dp)) _ _ tt
        (rw s none_yet))

  globone-Still : (w : W) (t : Str) (ts : Words) → Still sh w (lift_state (sh.globone w t) ts)
  globone-Still w t ts = go (sh.globone w t) refl
    where
      go : (o : Outcome (Str × W)) → sh.globone w t ≡ o → Still sh w (lift_state o ts)
      go (done (cp, v)) e = one_more t cp none_yet e
      go (raised d) e = tt

  exp6_operand-Still :
      (ig : Ignore) (t : Str) (ts : Words) (w : W)
      → ig.skip ≡ true
      → Still sh w (exp6_operand sh ig t ts w)
  unfolding exp6_operand
  exp6_operand-Still ig t ts w s =
      Still-if sh w (char0 t == b'-' && (any file_tests (char1 t) || any file_vals (char1 t))) _ _
        (filetest-Quiet t ig ts w s) (Still-if sh w ig.noglob _ _ none_yet (globone-Still w t ts))

  exp6_close-QuietRun : (a : ℤ) → QuietRun sh (exp6_close sh a)
  exp6_close-QuietRun a [] w = tt
  exp6_close-QuietRun a (t ∷ ts) w = Still-if sh w (char0 t == b')') _ _ none_yet tt

  pub exp6-Quiet : (exp0 : Level W ℤ) → Quiet sh exp0 → Quiet sh (exp6 sh exp0)
  unfolding exp6
  exp6-Quiet exp0 q ig [] w s = tt
  exp6-Quiet exp0 q ig (t ∷ ts) w s =
      let inner = exp6-Quiet exp0 q ig ts w s in
      Still-if sh w (eq t (codes "!")) _ _
        (Still-and_then sh w (exp6 sh exp0 ig ts w) _ inner λ cp. lift-QuietRun sh (exp6_not sh cp))
        (Still-if sh w (eq t (codes "~")) _ _
          (Still-and_then sh w (exp6 sh exp0 ig ts w) _ inner
            λ cp. lift-QuietRun sh (exp6_compl sh cp))
          (Still-if sh w (eq t (codes "(")) _ _
            (Still-and_then sh w (exp0 ig ts w) (exp6_close sh) (q ig ts w s) exp6_close-QuietRun)
            (Still-if sh w (eq t (codes "{")) _ _ (exp6_brace-Quiet ig ts w s) (
              Still-if sh w (not (isa t anyop == 0)) _ _ none_yet
                (exp6_operand-Still ig t ts w s)))))
