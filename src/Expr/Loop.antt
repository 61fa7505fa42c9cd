-- ===== src/Expr/Loop.antt =====
-- sh.exp.c: the `while` that each binary level of the grammar is.
use mcsh.Base.{ℕ, zero, suc, Bool, if◌then◌else◌}
use mcsh.Expr.Shell.{Res, ok, out_of_fuel, Shell, Words, M, Level, and_then, pure}

-- One turn of a level's `while`: its test fails; or it passes, the operator is taken off, and the
-- body gives the new `p1`; or the body returns from the level.
pub data Turn (W A : Type 0) : Type 0 where
  stop : Turn W A
  again leave : Words → M W A → Turn W A

-- The rest of the turn; `next` is the turn that follows, which `compat_expr` breaks off before.
unfoldable pub run_turn :
    {W A : Type 0} → Bool → (A → M W A) → A → Words → W → Turn W A → Res (A × Words × W)
run_turn compat next p1 ts w stop = ok (p1, ts, w)
run_turn compat next p1 ts w (again rest m) = and_then (m rest w) (if compat then pure else next)
run_turn compat next p1 ts w (leave rest m) = m rest w

-- The `while` of a level.
unfoldable pub loop : {W A : Type 0} → Bool → ℕ → (A → Words → Turn W A) → A → M W A
unfolding run_turn
loop compat zero turn p1 ts w = out_of_fuel
loop compat (suc n) turn p1 ts w = run_turn compat (loop compat n turn) p1 ts w (turn p1 ts)

module _ {W : Type 0} (sh : Shell W) where
  -- `compat_expr ? self : sub`
  abbrev pub operand : {A : Type 0} → Level W A → Level W A → Level W A
  operand self sub = if sh.compat then self else sub
