-- ===== src/Sched/Run.antt =====
-- tc.sched.c: `sched_run`, which executes the events that are due.
use mcsh.Base.{
  ℕ, zero, suc, ◌<◌, Option, none, some, List, [], ◌∷◌, ltb, if◌then◌else◌, Str, length, ◌≡◌, refl,
  arith, Bool-cases, inl, inr,
}
use mcsh.Sched.{Events, Clock}

-- What `alias`, `syntax` and `execute` do with the words of an event: they change the state of the
-- shell and may change the events, or end in an error.
pub record Runner (W : Type 0) : Type 0 where
  pub execute : List Str → Events → W → Option (Events × W)

pub data Ran (W : Type 0) : Type 0 where
  finished : Events → W → Ran W
  error : Ran W
  out_of_fuel : Ran W

module _ {W : Type 0} (r : Runner W) where
  abbrev after : Option (Events × W) → (Events → W → Ran W) → Ran W
  after none go = error
  after (some (es, w)) go = go es w

  -- The loop: an event leaves the list before it is executed.
  unfoldable pub run_due : ℕ → ℕ → Events → W → Ran W
  run_due zero cur_time es w = out_of_fuel
  run_due (suc f) cur_time [] w = finished [] w
  run_due (suc f) cur_time (tp ∷ es) w =
      let rest : Ran W = after (r.execute tp.lex es w) (run_due f cur_time) in
      if ltb tp.when cur_time then rest else finished (tp ∷ es) w

  -- With commands that leave the events alone, each event takes one step.
  unfoldable pub sched_run : Clock → Events → W → Ran W
  unfolding run_due
  sched_run c es w = run_due (suc (length es)) c.cur_time es w

-- The events that are due at the front of the list, and those behind them.
unfoldable pub due_events : ℕ → Events → Events
due_events t [] = []
due_events t (e ∷ es) = let more = due_events t es in if ltb e.when t then e ∷ more else []

unfoldable pub later_events : ℕ → Events → Events
later_events t [] = []
later_events t (e ∷ es) = let more = later_events t es in if ltb e.when t then more else e ∷ es

unfoldable pub run_all : {W : Type 0} → (List Str → W → W) → Events → W → W
run_all step [] w = w
run_all step (e ∷ es) w = run_all step es (step e.lex w)

module _ {W : Type 0} (r : Runner W) (step : List Str → W → W)
    (alone : (lex : List Str) (es : Events) (w : W)
      → r.execute lex es w ≡ some (es, step lex w)) where
  run_due-run_all :
      (f t : ℕ) (es : Events) (w : W)
      → length es < f
      → run_due r f t es w ≡ finished (later_events t es) (run_all step (due_events t es) w)
  unfolding run_due later_events due_events run_all
  run_due-run_all zero t es w l = ground arith
  run_due-run_all (suc f) t [] w l = refl
  run_due-run_all (suc f) t (e ∷ es) w l = elim (Bool-cases (ltb e.when t)) [
    | inl b ↦ rw (b, alone e.lex es w) (run_due-run_all f t es (step e.lex w) (omega arith))
    | inr b ↦ rw b refl
  ]

  -- Where every command ends without an error and leaves the events alone, `sched_run` executes the
  -- events at the front of the list that are due, in their order, and the others stay in the list.
  pub sched_run-run_all :
      (c : Clock) (es : Events) (w : W)
      → sched_run r c es w
        ≡ finished (later_events c.cur_time es) (run_all step (due_events c.cur_time es) w)
  unfolding sched_run
  sched_run-run_all c es w = run_due-run_all (suc (length es)) c.cur_time es w (omega arith)
