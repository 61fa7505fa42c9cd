-- ===== src/Edit/Session.antt =====
-- ed.defns.c and ed.inputl.c: the commands of the table `CcFuncTbl` that are modelled, and what the
-- loop of `Inputl` does with the result of one.
use mcsh.Base.{ℕ, Bool, true, false, Option, if◌then◌else◌}
use mcsh.Edit.State.{Editor, Chars, Command, Done, Ret, newline, eof, list_choices, preserve_arg}
use mcsh.Edit.Kill.{KillDup}
use mcsh.Edit.Typing.{
  v_cmd_mode, e_insert, e_digit, e_argdigit, e_argfour, e_send_eof, e_insovr, e_startover,
}
use mcsh.Edit.Move.{
  v_zero, e_toend, e_tobeg, e_charback, e_charfwd, e_wordback, e_wordfwd, v_wordfwd, v_wordbegnext,
  v_eword, e_set_mark, e_exchange_mark,
}
use mcsh.Edit.Delete.{
  v_delprev, e_delprev, e_delnext, e_delnext_eof, e_delnext_list, e_delnext_list_eof, e_list_eof,
  e_delwordprev, e_delwordnext, e_killend, e_killbeg, e_killall, e_killregion, e_copyregion,
  e_yank_kill, e_yank_pop, e_charswitch, e_gcharswitch, e_copyprev,
}
use mcsh.Edit.Vi.{
  v_chgmeta, v_delmeta, v_insbeg, v_insert, v_add, v_addend, v_replone, v_replmode, v_substchar,
  v_substline, v_chgtoend, v_change_case, e_uppercase, e_lowercase, e_capitalcase, v_undo,
  v_charto_fwd, v_charto_back, v_rchar_fwd, v_rchar_back,
}

-- The commands with the key that they are given, or what they read besides.
pub data Cmd : Type 0 where
  cmd_mode argfour send_eof insovr startover toend tobeg charback charfwd wordback wordfwd : Cmd
  vi_wordfwd wordbegnext eword set_mark exchange_mark vi_delprev delprev delnext delnext_eof : Cmd
  delnext_list delnext_list_eof list_eof delwordprev delwordnext killend killbeg killall : Cmd
  killregion copyregion yank_kill yank_pop charswitch gcharswitch copyprev chgmeta delmeta : Cmd
  insbeg insert_mode add_mode addend replone replmode substchar substline chgtoend : Cmd
  change_case uppercase lowercase capitalcase undo : Cmd
  insert argdigit zero_key : ℕ → Cmd
  digit : Bool → ℕ → Cmd
  charto_fwd charto_back : Option ℕ → Cmd
  rchar_fwd rchar_back : ℕ → Bool → Cmd

module _ (ch : Chars) (dup : KillDup) where
  unfoldable pub run : Cmd → Command
  run cmd_mode = v_cmd_mode
  run argfour = e_argfour
  run send_eof = e_send_eof
  run insovr = e_insovr
  run startover = e_startover
  run toend = e_toend
  run tobeg = e_tobeg ch
  run charback = e_charback
  run charfwd = e_charfwd
  run wordback = e_wordback ch
  run wordfwd = e_wordfwd ch
  run vi_wordfwd = v_wordfwd ch
  run wordbegnext = v_wordbegnext ch
  run eword = v_eword ch
  run set_mark = e_set_mark
  run exchange_mark = e_exchange_mark
  run vi_delprev = v_delprev
  run delprev = e_delprev
  run delnext = e_delnext
  run delnext_eof = e_delnext_eof
  run delnext_list = e_delnext_list
  run delnext_list_eof = e_delnext_list_eof
  run list_eof = e_list_eof
  run delwordprev = e_delwordprev ch dup
  run delwordnext = e_delwordnext ch dup
  run killend = e_killend dup
  run killbeg = e_killbeg dup
  run killall = e_killall dup
  run killregion = e_killregion dup
  run copyregion = e_copyregion dup
  run yank_kill = e_yank_kill
  run yank_pop = e_yank_pop
  run charswitch = e_charswitch
  run gcharswitch = e_gcharswitch
  run copyprev = e_copyprev ch
  run chgmeta = v_chgmeta
  run delmeta = v_delmeta
  run insbeg = v_insbeg
  run insert_mode = v_insert
  run add_mode = v_add
  run addend = v_addend
  run replone = v_replone
  run replmode = v_replmode
  run substchar = v_substchar
  run substline = v_substline dup
  run chgtoend = v_chgtoend dup
  run change_case = v_change_case ch
  run uppercase = e_uppercase ch
  run lowercase = e_lowercase ch
  run capitalcase = e_capitalcase ch
  run undo = v_undo
  run (insert c) = e_insert c
  run (argdigit c) = e_argdigit c
  run (zero_key c) = v_zero c
  run (digit after c) = e_digit after c
  run (charto_fwd got) = v_charto_fwd got
  run (charto_back got) = v_charto_back got
  run (rchar_fwd c is_fwd) = v_rchar_fwd c is_fwd
  run (rchar_back c is_fwd) = v_rchar_back c is_fwd

-- Whether the loop goes on; it does with a pointer out of the buffer too. A listing of choices is not
-- modelled.
abbrev pub goes_on : Ret → Bool
goes_on newline = false
goes_on eof = false
goes_on list_choices = false
goes_on r = true

abbrev pub keeps_arg : Ret → Bool
keeps_arg preserve_arg = true
keeps_arg r = false

-- `Argument = 1; DoingArg = 0;`, but not for CC_PRESERVE_ARG.
unfoldable pub settle : Done → Editor
settle d = if keeps_arg d.ret then d.editor else record d.editor { argument = 1; doing_arg = false }
