-- ===== src/Edit/Change.antt =====
-- ed.chared.c: `c_insert`, `c_delafter` and `c_delbefore`, which open a gap and close one.
use mcsh.Base.{ℕ, suc, ◌+◌, ◌-◌, min, Option, none, some, ◌&&◌, ◌==◌, ltb, leb, if◌then◌else◌}
use mcsh.Edit.Buffer.{move_up, move_down, copy}
use mcsh.Edit.State.{Editor, undo_insert, input_lim}

-- `if (Mark && Mark > Cursor) Mark += num;`
abbrev pub mark_inserted : ℕ → ℕ → Option ℕ → Option ℕ
mark_inserted cursor num none = none
mark_inserted cursor num (some m) = some (if ltb cursor m then m + num else m)

-- A mark in the deleted text goes to the cursor, and one behind it moves down.
abbrev pub mark_deleted : ℕ → ℕ → Option ℕ → Option ℕ
mark_deleted cursor num none = none
mark_deleted cursor num (some m) =
    some
      (if ltb cursor m && leb m (cursor + num) then cursor else if ltb cursor m then m - num else m)

unfoldable pub c_insert : ℕ → Editor → Editor
unfolding move_up
c_insert num s =
    if leb input_lim (s.last_char + num)
    then s
    else if ltb s.cursor s.last_char
    then record s {
      input_buf = move_up (suc (s.last_char - s.cursor)) s.cursor num s.input_buf;
      mark = mark_inserted s.cursor num s.mark;
      last_char = s.last_char + num;
    }
    else record s { last_char = s.last_char + num }

-- The `num` characters from `at` on are deleted, and saved in vi mode. There both loops run through
-- LastChar, each character read before it is overwritten. On a long line they read past InputBuf,
-- which the model does not report.
unfoldable pub close_gap : ℕ → ℕ → Editor → Editor
unfolding move_down copy
close_gap at num s =
    if s.vi_mode
    then record s {
      undo_buf = copy (suc (s.last_char - at)) s.input_buf.cells at 0 s.undo_buf;
      undo_action = undo_insert;
      undo_size = num;
      undo_ptr = at;
      input_buf = move_down (suc (s.last_char - at)) at num s.input_buf;
      last_char = s.last_char - num;
    }
    else record s {
      input_buf = move_down (suc (s.last_char - num) - at) at num s.input_buf;
      last_char = s.last_char - num;
    }

unfoldable pub c_delafter : ℕ → Editor → Editor
c_delafter n s =
    let num = min n (s.last_char - s.cursor) in
    if num == 0
    then s
    else record (close_gap s.cursor num s) { mark = mark_deleted s.cursor num s.mark }

unfoldable pub c_delbefore : ℕ → Editor → Editor
c_delbefore n s =
    let num = min n s.cursor in
    if num == 0 then s else record (close_gap (s.cursor - num) num s) {
      cursor = s.cursor - num;
      mark = mark_deleted (s.cursor - num) num s.mark;
    }
