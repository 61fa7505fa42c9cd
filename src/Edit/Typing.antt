-- ===== src/Edit/Typing.antt =====
-- ed.chared.c: the commands that put characters into the line, digits and arguments, and the ends of
-- a line. Argument stays what it was: the input loop sets it to 1 behind a command.
use mcsh.Base.{
  ℕ, zero, suc, ◌+◌, ◌-◌, ◌*◌, ◌%◌, Bool, true, false, not, none, some, [], ◌∷◌, ◌==◌, ltb, leb,
  if◌then◌else◌, Str, length, is_digit,
}
use mcsh.Edit.Buffer.{put, copy, write}
use mcsh.Edit.State.{
  InputMode, mode_insert, mode_replace, mode_replace_1, action_nop, Editor, input_lim, norm, error,
  refresh, newline, eof, preserve_arg, done, Command,
}
use mcsh.Edit.Change.{c_insert, c_delafter, c_delbefore}

abbrev pub overwrites : InputMode → Bool
overwrites mode_insert = false
overwrites m = true

abbrev pub is_replace_1 : InputMode → Bool
is_replace_1 mode_replace_1 = true
is_replace_1 m = false

abbrev pub repeated : ℕ → ℕ → Str
repeated zero c = []
repeated (suc n) c = c ∷ repeated n c

abbrev pub distance : ℕ → ℕ → ℕ
distance a b = if ltb b a then a - b else b - a

unfoldable pub v_cmd_mode : Command
v_cmd_mode s = done norm (record s {
  insert_pos = none;
  action_flag = action_nop;
  action_pos = none;
  doing_arg = false;
  undo_size = distance s.undo_ptr s.cursor;
  input_mode = mode_insert;
  alt_key_map = true;
})

-- `UndoBuf[UndoSize++] = Cursor[i]` for `n` characters, and a NUL behind them.
unfoldable pub save_overwritten : ℕ → Editor → Editor
unfolding copy put
save_overwritten n s = record s {
  undo_buf = put (s.undo_size + n) 0 (copy n s.input_buf.cells s.cursor s.undo_size s.undo_buf);
  undo_size = s.undo_size + n;
}

-- The gap for `n` characters: what they overwrite is deleted first.
unfoldable pub make_room : ℕ → Editor → Editor
make_room n s =
    if overwrites s.input_mode
    then c_insert n (c_delafter n (save_overwritten n s))
    else c_insert n s

-- `*Cursor++ = ...` for the characters of a text.
unfoldable pub put_text : Str → Editor → Editor
unfolding write
put_text w s = record s { input_buf = write w s.cursor s.input_buf; cursor = s.cursor + length w }

unfoldable pub e_insert : ℕ → Command
unfolding make_room put_text v_cmd_mode
e_insert c s =
    if c == 0
    then done error s
    else if leb input_lim (s.last_char + s.argument)
    then done error s
    else (let t = put_text (repeated s.argument c) (make_room s.argument s) in
        let u = record t { doing_arg = if s.argument == 1 then false else s.doing_arg } in
        done norm (if is_replace_1 s.input_mode then (v_cmd_mode u).editor else u))

-- `InsertStr`: -1 is `error`, and 0 is `norm`.
unfoldable pub insert_str : Str → Command
unfolding c_insert put_text
insert_str w s =
    if length w == 0
    then done error s
    else if leb input_lim (s.last_char + length w)
    then done error s
    else done norm (put_text w (c_insert (length w) s))

-- `DeleteBack`
unfoldable pub delete_back : ℕ → Editor → Editor
unfolding c_delbefore
delete_back n s = if n == 0 then s else if leb n s.cursor then c_delbefore n s else s

abbrev pub add_digit : ℕ → Command
add_digit c s =
    if ltb 1000000 s.argument
    then done error s
    else done preserve_arg (record s { argument = s.argument * 10 + (c - b'0') })

-- `after_argfour`: the last command was `e_argfour`.
unfoldable pub e_digit : Bool → ℕ → Command
unfolding make_room put_text
e_digit after_argfour c s =
    if not (is_digit c)
    then done error s
    else if s.doing_arg
    then (if after_argfour
        then done preserve_arg (record s { argument = c - b'0' })
        else add_digit c s)
    else if leb input_lim (s.last_char + 1)
    then done error s
    else done norm (record (put_text (c ∷ []) (make_room 1 s)) { doing_arg = false })

-- `c &= ASCII`
unfoldable pub e_argdigit : ℕ → Command
e_argdigit meta s =
    let c = meta % 128 in
    if not (is_digit c)
    then done error s
    else if s.doing_arg
    then add_digit c s
    else done preserve_arg (record s { argument = c - b'0'; doing_arg = true })

unfoldable pub e_argfour : Command
e_argfour s =
    if ltb 1000000 s.argument
    then done error s
    else done preserve_arg (record s { argument = s.argument * 4; doing_arg = true })

-- `*LastChar++ = '\n'; *LastChar = '\0';`
abbrev pub end_line : Editor → Editor
end_line s = record s {
  input_buf = put (suc s.last_char) 0 (put s.last_char b'\n' s.input_buf);
  last_char = suc s.last_char;
}

unfoldable pub e_newline : Command
unfolding put
e_newline s =
    let t = end_line (record s { mark_is_set = false }) in
    done newline (record t { insert_pos = if s.vi_mode then some 0 else s.insert_pos })

unfoldable pub e_send_eof : Command
unfolding put
e_send_eof s = done eof (record s { input_buf = put s.last_char 0 s.input_buf })

unfoldable pub e_insovr : Command
e_insovr s =
    done norm
      (record s { input_mode = elim s.input_mode [ mode_insert ↦ mode_replace | _ ↦ mode_insert ] })

-- `ResetInLine`
unfoldable pub reset_in_line : Editor → Editor
reset_in_line s = record s {
  cursor = 0;
  last_char = 0;
  mark = some 0;
  mark_is_set = false;
  alt_key_map = false;
  doing_arg = false;
  argument = 1;
}

unfoldable pub e_startover : Command
unfolding reset_in_line
e_startover s = done refresh (reset_in_line s)
