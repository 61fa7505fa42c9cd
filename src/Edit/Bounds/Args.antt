-- ===== src/Edit/Bounds/Args.antt =====
-- ed.inputl.c: the argument of a command, and what each step of the loop of `Inputl` keeps.
use mcsh.Base.{
  ℕ, Bool, true, false, Option, none, some, arith, ◌≡◌, ◌≢◌, not, refl, Bool-cases, inl, inr, ◌==◌,
  if◌then◌else◌, Option-cases,
}
use mcsh.Edit.State.{Editor, Chars, Command, Ret, preserve_arg, done, error}
use mcsh.Edit.Kill.{KillDup}
use mcsh.Edit.Session.{Cmd, run, goes_on, keeps_arg, settle}
use mcsh.Edit.Bounds.{Placed}
use mcsh.Edit.Bounds.Typing.{argument-Placed, doing_arg-Placed}
use mcsh.Edit.Bounds.Loop.{Ready, run-Placed}
use mcsh.Edit.Typing.{
  v_cmd_mode, e_insert, e_digit, e_argdigit, e_argfour, e_send_eof, e_insovr, e_startover,
}
use mcsh.Edit.Move.{
  v_zero, e_toend, e_tobeg, e_charback, e_charfwd, e_wordback, e_wordfwd, v_wordfwd, v_wordbegnext,
  v_eword, e_set_mark, e_exchange_mark, v_csearch_back, v_csearch_fwd, chars_back,
}
use mcsh.Edit.Delete.{
  v_delprev, e_delprev, e_delnext, e_delnext_eof, e_delnext_list, e_delnext_list_eof, e_list_eof,
  e_delwordprev, e_delwordnext, e_killend, e_killbeg, e_killall, e_killregion, e_copyregion,
  e_yank_kill, e_yank_pop, e_charswitch, e_gcharswitch, e_copyprev,
}
use mcsh.Edit.Vi.{
  v_action, v_chgmeta, v_delmeta, v_insbeg, v_insert, v_add, v_addend, v_replone, v_replmode,
  v_substchar, v_substline, v_chgtoend, v_change_case, e_uppercase, e_lowercase, e_capitalcase,
  v_undo, undo_by, v_charto_fwd, v_charto_back, v_rchar_fwd, v_rchar_back,
}

-- `Argument` is 1 where no argument is being typed.
abbrev pub ArgSet : Editor → Type 0
ArgSet s = s.doing_arg ≡ false → s.argument ≡ 1

abbrev ArgKept : Command → Editor → Type 0
ArgKept f s = (f s).ret ≡ preserve_arg → ArgSet s → ArgSet (f s).editor

delnext-ne : (s : Editor) → (e_delnext s).ret ≢ preserve_arg
unfolding e_delnext
delnext-ne s r = ground arith

delnext_eof-ne : (s : Editor) → (e_delnext_eof s).ret ≢ preserve_arg
unfolding e_delnext_eof
delnext_eof-ne s r = ground (arith, delnext-ne s)

csearch_back-ne :
    (c n : ℕ) (tflag : Bool) (s : Editor) → (v_csearch_back c n tflag s).ret ≢ preserve_arg
unfolding v_csearch_back
csearch_back-ne c n tflag s = elim (Option-cases (chars_back c s.input_buf.cells n s.cursor)) [
  | inl e ↦ rw (e, v_csearch_back) (λ r. ground arith)
  | inr (p, e) ↦ rw (e, v_csearch_back) (λ r. ground arith)
]

csearch_fwd-ne :
    (c n : ℕ) (tflag : Bool) (s : Editor) → (v_csearch_fwd c n tflag s).ret ≢ preserve_arg
unfolding v_csearch_fwd
csearch_fwd-ne c n tflag s r = ground arith

charto_fwd-ne : (got : Option ℕ) (s : Editor) → (v_charto_fwd got s).ret ≢ preserve_arg
unfolding v_charto_fwd e_send_eof
charto_fwd-ne none s = λ r. ground arith
charto_fwd-ne (some c) s = csearch_fwd-ne c s.argument true s

charto_back-ne : (got : Option ℕ) (s : Editor) → (v_charto_back got s).ret ≢ preserve_arg
unfolding v_charto_back e_send_eof
charto_back-ne none s = λ r. ground arith
charto_back-ne (some c) s = csearch_back-ne c s.argument true s

-- A search again, in one direction or the other.
again-ne :
    (c : ℕ) (fwd : Bool) (s : Editor)
    → (if c == 0
        then done error s
        else if fwd
        then v_csearch_fwd c s.argument false s
        else v_csearch_back c s.argument false s).ret
      ≢ preserve_arg
again-ne c fwd s r =
    ground (arith, csearch_fwd-ne c s.argument false s, csearch_back-ne c s.argument false s)

kept : (r : Ret) → keeps_arg r ≡ true → r ≡ preserve_arg
kept r h = ground arith

settled-Placed : (s : Editor) → Placed s → Placed (record s { argument = 1; doing_arg = false })
settled-Placed s h = argument-Placed 1 (record s { doing_arg = false }) (doing_arg-Placed false s h)

-- At the head of the loop.
abbrev pub AtPrompt : Editor → Type 0
AtPrompt s = Placed s × ArgSet s

module _ (ch : Chars) (dup : KillDup) where
  run-Arg : (c : Cmd) (s : Editor) → ArgKept (run ch dup c) s
  unfolding run v_cmd_mode
  run-Arg Cmd.cmd_mode s r a d = unfold v_cmd_mode in ground arith
  run-Arg Cmd.argfour s r a d = unfold e_argfour in ground arith
  run-Arg Cmd.send_eof s r a d = unfold e_send_eof in ground arith
  run-Arg Cmd.insovr s r a d = unfold e_insovr in ground arith
  run-Arg Cmd.startover s r a d = unfold e_startover in ground arith
  run-Arg Cmd.toend s r a d = unfold e_toend in ground arith
  run-Arg Cmd.tobeg s r a d = unfold e_tobeg in ground arith
  run-Arg Cmd.charback s r a d = unfold e_charback in ground arith
  run-Arg Cmd.charfwd s r a d = unfold e_charfwd in ground arith
  run-Arg Cmd.wordback s r a d = unfold e_wordback in ground arith
  run-Arg Cmd.wordfwd s r a d = unfold e_wordfwd in ground arith
  run-Arg Cmd.vi_wordfwd s r a d = unfold v_wordfwd in ground arith
  run-Arg Cmd.wordbegnext s r a d = unfold v_wordbegnext in ground arith
  run-Arg Cmd.eword s r a d = unfold v_eword in ground arith
  run-Arg Cmd.set_mark s r a d = unfold e_set_mark in ground arith
  run-Arg Cmd.exchange_mark s r a d = unfold e_exchange_mark in ground arith
  run-Arg Cmd.vi_delprev s r a d = unfold v_delprev in ground arith
  run-Arg Cmd.delprev s r a d = unfold e_delprev in ground arith
  run-Arg Cmd.delnext s r a d = absurd (delnext-ne s r)
  run-Arg Cmd.delnext_eof s r a d = absurd (delnext_eof-ne s r)
  run-Arg Cmd.delnext_list s r a d = unfold e_delnext_list in ground arith
  run-Arg Cmd.delnext_list_eof s r a d = unfold e_delnext_list_eof in ground arith
  run-Arg Cmd.list_eof s r a d = unfold e_list_eof in ground arith
  run-Arg Cmd.delwordprev s r a d = unfold e_delwordprev in ground arith
  run-Arg Cmd.delwordnext s r a d = unfold e_delwordnext in ground arith
  run-Arg Cmd.killend s r a d = unfold e_killend in ground arith
  run-Arg Cmd.killbeg s r a d = unfold e_killbeg in ground arith
  run-Arg Cmd.killall s r a d = unfold e_killall in ground arith
  run-Arg Cmd.killregion s r a d = unfold e_killregion in ground arith
  run-Arg Cmd.copyregion s r a d = unfold e_copyregion in ground arith
  run-Arg Cmd.yank_kill s r a d = unfold e_yank_kill in ground arith
  run-Arg Cmd.yank_pop s r a d = unfold e_yank_pop in ground arith
  run-Arg Cmd.charswitch s r a d = unfold e_charswitch in ground arith
  run-Arg Cmd.gcharswitch s r a d = unfold e_gcharswitch in ground arith
  run-Arg Cmd.copyprev s r a d = unfold e_copyprev in ground arith
  run-Arg Cmd.chgmeta s r a d = unfold v_chgmeta v_action in ground arith
  run-Arg Cmd.delmeta s r a d = unfold v_delmeta v_action in ground arith
  run-Arg Cmd.insbeg s r a d = unfold v_insbeg in ground arith
  run-Arg Cmd.insert_mode s r a d = unfold v_insert in ground arith
  run-Arg Cmd.add_mode s r a d = unfold v_add in ground arith
  run-Arg Cmd.addend s r a d = unfold v_addend in ground arith
  run-Arg Cmd.replone s r a d = unfold v_replone in ground arith
  run-Arg Cmd.replmode s r a d = unfold v_replmode in ground arith
  run-Arg Cmd.substchar s r a d = unfold v_substchar in ground arith
  run-Arg Cmd.substline s r a d = unfold v_substline in ground arith
  run-Arg Cmd.chgtoend s r a d = unfold v_chgtoend in ground arith
  run-Arg Cmd.change_case s r a d = unfold v_change_case in ground arith
  run-Arg Cmd.uppercase s r a d = unfold e_uppercase in ground arith
  run-Arg Cmd.lowercase s r a d = unfold e_lowercase in ground arith
  run-Arg Cmd.capitalcase s r a d = unfold e_capitalcase in ground arith
  run-Arg Cmd.undo s r a d = unfold v_undo undo_by in ground arith
  run-Arg (Cmd.insert c) s r a d = unfold e_insert in ground arith
  run-Arg (Cmd.argdigit c) s r a d = unfold e_argdigit in ground arith
  run-Arg (Cmd.zero_key c) s r a d = unfold v_zero in ground arith
  run-Arg (Cmd.digit b c) s r a d = unfold e_digit in ground arith
  run-Arg (Cmd.charto_fwd got) s r a d = absurd (charto_fwd-ne got s r)
  run-Arg (Cmd.charto_back got) s r a d = absurd (charto_back-ne got s r)
  run-Arg (Cmd.rchar_fwd c f) s r a d = absurd (again-ne c f s (unfold v_rchar_fwd in r))
  run-Arg (Cmd.rchar_back c f) s r a d = absurd (again-ne c (not f) s (unfold v_rchar_back in r))

  -- What holds at the head of the loop, in the words of the checks there under DEBUG_EDIT.
  pub step-AtPrompt :
      (c : Cmd) (s : Editor)
      → Ready ch c s
      → AtPrompt s
      → goes_on (run ch dup c s).ret ≡ true
      → AtPrompt (settle (run ch dup c s))
  unfolding settle
  step-AtPrompt c s r h g = elim (Bool-cases (keeps_arg (run ch dup c s).ret)) [
    | inl k ↦ rw k (run-Placed ch dup c s r h.0, run-Arg c s (kept (run ch dup c s).ret k) h.1)
    | inr k ↦ rw k (settled-Placed (run ch dup c s).editor (run-Placed ch dup c s r h.0), λ d. refl)
  ]
