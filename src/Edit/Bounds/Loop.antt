-- ===== src/Edit/Bounds/Loop.antt =====
-- ed.inputl.c: what holds each time that the loop of `Inputl` asks for the next command.
use mcsh.Base.{
  ℕ, zero, suc, ◌<◌, Bool, true, false, Option, none, some, arith, inl, refl, ◌==◌, not,
  if◌then◌else◌,
}
use mcsh.Edit.State.{Editor, Chars, Command, done, error, action_change, action_delete}
use mcsh.Edit.Kill.{KillDup}
use mcsh.Edit.Session.{Cmd, run}
use mcsh.Edit.Move.{v_csearch_back, v_csearch_fwd}
use mcsh.Edit.Vi.{
  v_chgmeta, v_delmeta, with_char, v_charto_fwd, v_charto_back, v_rchar_fwd, v_rchar_back,
}
use mcsh.Edit.Bounds.{Placed, if-Kept}
use mcsh.Edit.Bounds.Typing
use mcsh.Edit.Bounds.Typing.{Kept}
use mcsh.Edit.Bounds.Moves
use mcsh.Edit.Bounds.Searches
use mcsh.Edit.Bounds.Searches.{AtChar, EndsOther}
use mcsh.Edit.Bounds.Deletes
use mcsh.Edit.Bounds.Yanks
use mcsh.Edit.Bounds.Vi
use mcsh.Edit.Bounds.Vi.{MarkAtStart, UndoFits}

-- What a command wants beside its bounds: a search backwards at least one character to look for, `^`
-- in vi mode a line that no space follows, `dd` a mark at the start and undo a fitting state.
abbrev pub Ready : Chars → Cmd → Editor → Type 0
Ready ch Cmd.tobeg s = EndsOther ch s
Ready ch Cmd.chgmeta s = MarkAtStart s
Ready ch Cmd.delmeta s = MarkAtStart s
Ready ch Cmd.undo s = UndoFits s.undo_action s
Ready ch (Cmd.charto_back got) s = AtChar true s × (0 < s.argument)
Ready ch (Cmd.rchar_fwd c is_fwd) s = 0 < s.argument
Ready ch (Cmd.rchar_back c is_fwd) s = 0 < s.argument
Ready ch c s = Unit

csearch_back-Kept :
    (c n : ℕ) (tflag : Bool) (s : Editor)
    → AtChar tflag s
    → 0 < n
    → Placed s
    → Kept (v_csearch_back c n tflag) s
csearch_back-Kept c zero tflag s at l h = absurd (omega (arith, l))
csearch_back-Kept c (suc n) tflag s at l h = Searches.v_csearch_back-Kept c n tflag s at h

with_char-Kept :
    (got : Option ℕ) (f : ℕ → Command) (s : Editor)
    → Placed s
    → ((c : ℕ) → Kept (f c) s)
    → Kept (with_char got f) s
with_char-Kept none f s h k = Typing.e_send_eof-Placed s h
with_char-Kept (some c) f s h k = k c

charto_fwd-Kept : (got : Option ℕ) (s : Editor) → Placed s → Kept (v_charto_fwd got) s
unfolding v_charto_fwd
charto_fwd-Kept got s h =
    with_char-Kept got (λ c. v_csearch_fwd c s.argument true) s h
      (λ c. Searches.v_csearch_fwd-Kept c s.argument true s h)

charto_back-Kept :
    (got : Option ℕ) (s : Editor)
    → AtChar true s × (0 < s.argument)
    → Placed s
    → Kept (v_charto_back got) s
unfolding v_charto_back
charto_back-Kept got s r h =
    with_char-Kept got (λ c. v_csearch_back c s.argument true) s h
      (λ c. csearch_back-Kept c s.argument true s r.0 r.1 h)

-- The search again, in one direction or the other.
again-Kept :
    (c : ℕ) (fwd : Bool) (s : Editor)
    → 0 < s.argument
    → Placed s
    → Placed
        (if c == 0
          then done error s
          else if fwd
          then v_csearch_fwd c s.argument false s
          else v_csearch_back c s.argument false s).editor
again-Kept c fwd s l h =
    if-Kept (c == 0) _ _ (λ t. h)
      (λ t.
        if-Kept fwd _ _ (λ t. Searches.v_csearch_fwd-Kept c s.argument false s h)
          (λ t. csearch_back-Kept c s.argument false s (inl refl) l h))

rchar_fwd-Kept :
    (c : ℕ) (fwd : Bool) (s : Editor) → 0 < s.argument → Placed s → Kept (v_rchar_fwd c fwd) s
unfolding v_rchar_fwd
rchar_fwd-Kept c fwd s l h = again-Kept c fwd s l h

rchar_back-Kept :
    (c : ℕ) (fwd : Bool) (s : Editor) → 0 < s.argument → Placed s → Kept (v_rchar_back c fwd) s
unfolding v_rchar_back
rchar_back-Kept c fwd s l h = again-Kept c (not fwd) s l h

chgmeta-Kept : (s : Editor) → MarkAtStart s → Placed s → Kept v_chgmeta s
unfolding v_chgmeta
chgmeta-Kept s m h = Vi.v_action-Kept action_change s m h

delmeta-Kept : (s : Editor) → MarkAtStart s → Placed s → Kept v_delmeta s
unfolding v_delmeta
delmeta-Kept s m h = Vi.v_action-Kept action_delete s m h

module _ (ch : Chars) (dup : KillDup) where
  -- Every command, one by one.
  pub run-Placed : (c : Cmd) (s : Editor) → Ready ch c s → Placed s → Placed (run ch dup c s).editor
  unfolding run
  run-Placed Cmd.cmd_mode s r h = Typing.v_cmd_mode-Placed s h
  run-Placed Cmd.argfour s r h = Typing.e_argfour-Placed s h
  run-Placed Cmd.send_eof s r h = Typing.e_send_eof-Placed s h
  run-Placed Cmd.insovr s r h = Typing.e_insovr-Placed s h
  run-Placed Cmd.startover s r h = Typing.e_startover-Placed s h
  run-Placed Cmd.toend s r h = Moves.e_toend-Kept s h
  run-Placed Cmd.tobeg s r h = Searches.e_tobeg-Kept ch s r h
  run-Placed Cmd.charback s r h = Moves.e_charback-Kept s h
  run-Placed Cmd.charfwd s r h = Moves.e_charfwd-Kept s h
  run-Placed Cmd.wordback s r h = Moves.e_wordback-Kept ch s h
  run-Placed Cmd.wordfwd s r h = Moves.e_wordfwd-Kept ch s h
  run-Placed Cmd.vi_wordfwd s r h = Moves.v_wordfwd-Kept ch s h
  run-Placed Cmd.wordbegnext s r h = Moves.v_wordbegnext-Kept ch s h
  run-Placed Cmd.eword s r h = Moves.v_eword-Kept ch s h
  run-Placed Cmd.set_mark s r h = Moves.e_set_mark-Kept s h
  run-Placed Cmd.exchange_mark s r h = Moves.e_exchange_mark-Kept s h
  run-Placed Cmd.vi_delprev s r h = Deletes.v_delprev-Kept s h
  run-Placed Cmd.delprev s r h = Deletes.e_delprev-Kept s h
  run-Placed Cmd.delnext s r h = Deletes.e_delnext-Kept s h
  run-Placed Cmd.delnext_eof s r h = Deletes.e_delnext_eof-Kept s h
  run-Placed Cmd.delnext_list s r h = Deletes.e_delnext_list-Kept s h
  run-Placed Cmd.delnext_list_eof s r h = Deletes.e_delnext_list_eof-Kept s h
  run-Placed Cmd.list_eof s r h = Deletes.e_list_eof-Kept s h
  run-Placed Cmd.delwordprev s r h = Deletes.e_delwordprev-Kept ch dup s h
  run-Placed Cmd.delwordnext s r h = Deletes.e_delwordnext-Kept ch dup s h
  run-Placed Cmd.killend s r h = Deletes.e_killend-Kept dup s h
  run-Placed Cmd.killbeg s r h = Deletes.e_killbeg-Kept dup s h
  run-Placed Cmd.killall s r h = Deletes.e_killall-Kept dup s h
  run-Placed Cmd.killregion s r h = Deletes.e_killregion-Kept dup s h
  run-Placed Cmd.copyregion s r h = Deletes.e_copyregion-Kept dup s h
  run-Placed Cmd.yank_kill s r h = Yanks.e_yank_kill-Kept s h
  run-Placed Cmd.yank_pop s r h = Yanks.e_yank_pop-Kept s h
  run-Placed Cmd.charswitch s r h = Yanks.e_charswitch-Kept s h
  run-Placed Cmd.gcharswitch s r h = Yanks.e_gcharswitch-Kept s h
  run-Placed Cmd.copyprev s r h = Yanks.e_copyprev-Kept ch s h
  run-Placed Cmd.chgmeta s r h = chgmeta-Kept s r h
  run-Placed Cmd.delmeta s r h = delmeta-Kept s r h
  run-Placed Cmd.insbeg s r h = Vi.v_insbeg-Kept s h
  run-Placed Cmd.insert_mode s r h = Vi.v_insert-Kept s h
  run-Placed Cmd.add_mode s r h = Vi.v_add-Kept s h
  run-Placed Cmd.addend s r h = Vi.v_addend-Kept s h
  run-Placed Cmd.replone s r h = Vi.v_replone-Kept s h
  run-Placed Cmd.replmode s r h = Vi.v_replmode-Kept s h
  run-Placed Cmd.substchar s r h = Vi.v_substchar-Kept s h
  run-Placed Cmd.substline s r h = Vi.v_substline-Kept dup s h
  run-Placed Cmd.chgtoend s r h = Vi.v_chgtoend-Kept dup s h
  run-Placed Cmd.change_case s r h = Vi.v_change_case-Kept ch s h
  run-Placed Cmd.uppercase s r h = Vi.e_uppercase-Kept ch s h
  run-Placed Cmd.lowercase s r h = Vi.e_lowercase-Kept ch s h
  run-Placed Cmd.capitalcase s r h = Vi.e_capitalcase-Kept ch s h
  run-Placed Cmd.undo s r h = Vi.v_undo-Kept s r h
  run-Placed (Cmd.insert c) s r h = Typing.e_insert-Placed c s h
  run-Placed (Cmd.argdigit c) s r h = Typing.e_argdigit-Placed c s h
  run-Placed (Cmd.zero_key c) s r h = Moves.v_zero-Kept c s h
  run-Placed (Cmd.digit a c) s r h = Typing.e_digit-Placed a c s h
  run-Placed (Cmd.charto_fwd g) s r h = charto_fwd-Kept g s h
  run-Placed (Cmd.charto_back g) s r h = charto_back-Kept g s r h
  run-Placed (Cmd.rchar_fwd c f) s r h = rchar_fwd-Kept c f s r h
  run-Placed (Cmd.rchar_back c f) s r h = rchar_back-Kept c f s r h
