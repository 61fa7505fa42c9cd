-- ===== src/Edit/Vi.antt =====
-- ed.chared.c: the commands of vi's command mode that change the line or enter insert mode, the undo
-- of the last change, and the case of words.
use mcsh.Base.{
  ℕ, zero, suc, ◌-◌, max, Bool, true, false, not, Option, none, some, ◌==◌, ltb, leb, if◌then◌else◌,
}
use mcsh.Edit.Buffer.{Buffer, put, move_down, copy}
use mcsh.Edit.State.{
  InputMode, mode_replace, mode_replace_1, UndoAction, undo_nothing, undo_insert, undo_delete,
  undo_change, ActionFlag, action_nop, action_delete, action_change, Editor, norm, error, refresh,
  preserve_arg, outside, done, Command, Chars,
}
use mcsh.Edit.Change.{c_insert, c_delafter}
use mcsh.Edit.Kill.{KillDup}
use mcsh.Edit.Word.{c_next_word}
use mcsh.Edit.Typing.{e_send_eof}
use mcsh.Edit.Delete.{e_killall, e_killend}
use mcsh.Edit.Move.{inserts, next_word, v_csearch_back, v_csearch_fwd}

-- `ActionFlag == TCSHOP_DELETE`
abbrev pub only_delete : ActionFlag → Bool
only_delete action_delete = true
only_delete a = false

-- The second key of `dd` empties the line; else a motion is to follow.
unfoldable pub v_action : ActionFlag → Command
unfolding copy
v_action c s =
    if only_delete s.action_flag
    then done refresh (record s {
      action_flag = action_nop;
      action_pos = none;
      undo_buf = copy s.last_char s.input_buf.cells 0 0 s.undo_buf;
      undo_size = s.last_char;
      undo_action = undo_insert;
      undo_ptr = 0;
      last_char = 0;
      cursor = 0;
      alt_key_map = if inserts c then false else s.alt_key_map;
    })
    else done preserve_arg (record s { action_pos = some s.cursor; action_flag = c })

unfoldable pub v_chgmeta : Command
unfolding v_action
v_chgmeta s = v_action action_change s

unfoldable pub v_delmeta : Command
unfolding v_action
v_delmeta s = v_action action_delete s

-- Insert mode from an index on.
abbrev pub inserting_at : ℕ → Editor → Editor
inserting_at p s = record s {
  alt_key_map = false;
  cursor = p;
  insert_pos = some p;
  undo_ptr = p;
  undo_action = undo_delete;
}

unfoldable pub v_insbeg : Command
v_insbeg s = done norm (inserting_at 0 s)

unfoldable pub v_insert : Command
v_insert s = done norm (inserting_at s.cursor s)

unfoldable pub v_add : Command
v_add s = done norm (inserting_at (if ltb s.cursor s.last_char then suc s.cursor else s.cursor) s)

unfoldable pub v_addend : Command
v_addend s = done norm (inserting_at s.last_char s)

abbrev pub replacing : InputMode → Editor → Editor
replacing m s = record s {
  alt_key_map = false;
  input_mode = m;
  undo_action = undo_change;
  undo_ptr = s.cursor;
  undo_size = 0;
}

unfoldable pub v_replone : Command
v_replone s = done norm (replacing mode_replace_1 s)

unfoldable pub v_replmode : Command
v_replmode s = done norm (replacing mode_replace s)

abbrev pub main_key_map : Editor → Editor
main_key_map s = record s { alt_key_map = false }

unfoldable pub v_substchar : Command
unfolding c_delafter
v_substchar s = done refresh (main_key_map (c_delafter s.argument s))

unfoldable pub v_substline : KillDup → Command
unfolding e_killall
v_substline dup s = done refresh (main_key_map (e_killall dup s).editor)

unfoldable pub v_chgtoend : KillDup → Command
unfolding e_killend
v_chgtoend dup s = done refresh (main_key_map (e_killend dup s).editor)

-- `if (test(*cp)) *cp = turn(*cp);` for `k` characters.
unfoldable pub turn_case : (ℕ → Bool) → (ℕ → ℕ) → ℕ → ℕ → Buffer → Buffer
unfolding put
turn_case test turn zero p b = b
turn_case test turn (suc k) p b =
    turn_case test turn k (suc p) (if test (b.cells p) then put p (turn (b.cells p)) b else b)

module _ (ch : Chars) where
  unfoldable pub v_change_case : Command
  unfolding put
  v_change_case s =
      let c = s.input_buf.cells s.cursor in
      if leb s.last_char s.cursor
      then done error s
      else done norm (record s {
        cursor = suc s.cursor;
        input_buf =
            if ch.is_upper c
            then put s.cursor (ch.to_lower c) s.input_buf
            else if ch.is_lower c
            then put s.cursor (ch.to_upper c) s.input_buf
            else s.input_buf;
      })

  -- The first letter is put in upper case, the rest in lower case.
  unfoldable pub capitalize : ℕ → ℕ → Buffer → Buffer
  unfolding put turn_case
  capitalize zero p b = b
  capitalize (suc k) p b =
      let rest = capitalize k (suc p) b in
      if ch.is_alpha (b.cells p)
      then turn_case ch.is_upper ch.to_lower k (suc p)
          (if ch.is_lower (b.cells p) then put p (ch.to_upper (b.cells p)) b else b)
      else rest

  -- The loops run over the characters up to the end of the word, where the cursor goes.
  abbrev pub change_word : (ℕ → ℕ → Buffer → Buffer) → Command
  change_word turn s = elim (next_word ch s) [
    | none ↦ done outside s
    | some p ↦ done refresh (record s {
      input_buf = turn (p - s.cursor) s.cursor s.input_buf;
      cursor = if ltb s.last_char p then s.last_char else p;
    })
  ]

  unfoldable pub e_uppercase : Command
  unfolding turn_case c_next_word
  e_uppercase s = change_word (turn_case ch.is_lower ch.to_upper) s

  unfoldable pub e_lowercase : Command
  unfolding turn_case c_next_word
  e_lowercase s = change_word (turn_case ch.is_upper ch.to_lower) s

  unfoldable pub e_capitalcase : Command
  unfolding capitalize c_next_word
  e_capitalcase s = change_word capitalize s

-- The loop that exchanges `n` characters of the line from `at` on with UndoBuf.
abbrev pub exchange : ℕ → ℕ → Editor → Editor
exchange n at s = record s {
  cursor = at;
  undo_buf = copy n s.input_buf.cells at 0 s.undo_buf;
  input_buf = copy n s.undo_buf.cells 0 at s.input_buf;
}

unfoldable pub undo_deletion : Editor → Editor
unfolding c_insert copy
undo_deletion s =
    let t = c_insert s.undo_size (record s { cursor = s.undo_ptr }) in
    record t {
      input_buf = copy s.undo_size t.undo_buf.cells 0 s.undo_ptr t.input_buf;
      undo_action = undo_delete;
    }

unfoldable pub undo_insertion : Editor → Editor
unfolding copy move_down
undo_insertion s = record s {
  undo_buf = copy s.undo_size s.input_buf.cells s.undo_ptr 0 s.undo_buf;
  input_buf = move_down (suc s.last_char - s.undo_ptr) s.undo_ptr s.undo_size s.input_buf;
  last_char = s.last_char - s.undo_size;
  cursor = s.undo_ptr;
  undo_action = undo_insert;
}

-- The cases of `switch (UndoAction)`.
unfoldable pub undo_by : UndoAction → Command
unfolding undo_deletion undo_insertion copy
undo_by undo_nothing s = done error s
undo_by undo_delete s =
    if s.undo_size == 0
    then done norm s
    else if leb s.undo_size s.last_char
    then done refresh (undo_insertion s)
    else done outside s
undo_by undo_insert s = if s.undo_size == 0 then done norm s else done refresh (undo_deletion s)
undo_by undo_change s =
    if s.undo_size == 0
    then done norm s
    else done refresh (exchange (max s.undo_size (s.undo_ptr - s.last_char)) s.undo_ptr s)

unfoldable pub v_undo : Command
unfolding undo_by
v_undo s = undo_by s.undo_action s

-- `GetNextChar` gave no character, or that one.
abbrev pub with_char : Option ℕ → (ℕ → Command) → Command
with_char none f s = e_send_eof s
with_char (some c) f s = f c s

unfoldable pub v_charto_fwd : Option ℕ → Command
unfolding e_send_eof v_csearch_fwd
v_charto_fwd got s = with_char got (λ c. v_csearch_fwd c s.argument true) s

unfoldable pub v_charto_back : Option ℕ → Command
unfolding e_send_eof v_csearch_back
v_charto_back got s = with_char got (λ c. v_csearch_back c s.argument true) s

-- For `srch_char` and whether `srch_dir` is CHAR_FWD.
unfoldable pub v_rchar_fwd : ℕ → Bool → Command
unfolding v_csearch_fwd v_csearch_back
v_rchar_fwd c is_fwd s =
    if c == 0
    then done error s
    else if is_fwd
    then v_csearch_fwd c s.argument false s
    else v_csearch_back c s.argument false s

unfoldable pub v_rchar_back : ℕ → Bool → Command
unfolding v_csearch_fwd v_csearch_back
v_rchar_back c is_fwd s =
    if c == 0
    then done error s
    else if not is_fwd
    then v_csearch_fwd c s.argument false s
    else v_csearch_back c s.argument false s
