-- ===== src/Edit/Bounds/Reach.antt =====
-- ed.inputl.c: the states of a line that `Inputl` edits, from a fresh line on.
use mcsh.Base.{true, ◌≡◌}
use mcsh.Edit.State.{Editor, Chars}
use mcsh.Edit.Kill.{KillDup}
use mcsh.Edit.Session.{Cmd, run, goes_on, settle}
use mcsh.Edit.Bounds.Inside.{Given}

module _ (ch : Chars) (dup : KillDup) where
  -- The loop from one prompt for a command to a later one, with the commands that it was given.
  pub data Reach (s : Editor) : Editor → Type 0 where
    start : Reach s s
    next :
        {t : Editor}
        → Reach s t
        → (c : Cmd) → Given ch c t
        → goes_on (run ch dup c t).ret ≡ true
        → Reach s (settle (run ch dup c t))
