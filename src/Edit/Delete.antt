-- ===== src/Edit/Delete.antt =====
-- ed.chared.c: the commands that delete, kill and yank, and those that change single characters.
use mcsh.Base.{
  ℕ, suc, ◌+◌, ◌-◌, ◌%◌, Bool, false, not, Option, none, some, ◌&&◌, ◌||◌, ◌==◌, ltb, leb,
  if◌then◌else◌, Str, length,
}
use mcsh.Edit.Buffer.{Buffer, put, copy, write, slice}
use mcsh.Edit.State.{
  KillRing, Editor, input_lim, norm, error, refresh, eof, list_choices, outside, done, Command,
  Chars,
}
use mcsh.Edit.Change.{c_insert, c_delafter, c_delbefore}
use mcsh.Edit.Kill.{KillDup, c_push_kill}
use mcsh.Edit.Word.{c_prev_word, c_next_word}

-- `v_delprev`, the backspace key in vi's insert mode.
unfoldable pub v_delprev : Command
unfolding c_delbefore
v_delprev s = elim s.insert_pos [
  | none ↦ done error s
  | some p ↦
      if leb (p + s.argument) s.cursor
      then done refresh (c_delbefore s.argument s)
      else done error s
]

unfoldable pub e_delprev : Command
unfolding c_delbefore
e_delprev s = if s.cursor == 0 then done error s else done refresh (c_delbefore s.argument s)

-- `c_delafter(Argument)`, and the bounds check behind it.
abbrev pub delete_argument : Editor → Editor
delete_argument s =
    let t = c_delafter s.argument s in
    record t { cursor = if ltb t.last_char t.cursor then t.last_char else t.cursor }

abbrev pub at_end : Editor → Bool
at_end s = s.cursor == s.last_char

unfoldable pub e_delnext : Command
unfolding c_delafter
e_delnext s =
    if at_end s
    then (if not s.vi_mode
        then done error s
        else if s.cursor == 0
        then done error s
        else done refresh (delete_argument (record s { cursor = s.cursor - 1 })))
    else done refresh (delete_argument s)

unfoldable pub e_delnext_eof : Command
unfolding e_delnext
e_delnext_eof s = if at_end s && (not s.vi_mode && s.cursor == 0) then done eof s else e_delnext s

-- `*LastChar = '\0'`, and the choices.
abbrev pub list_at_end : Command
list_at_end s = done list_choices (record s { input_buf = put s.last_char 0 s.input_buf })

unfoldable pub e_delnext_list : Command
unfolding c_delafter put
e_delnext_list s = if at_end s then list_at_end s else done refresh (delete_argument s)

unfoldable pub e_delnext_list_eof : Command
unfolding c_delafter put
e_delnext_list_eof s =
    if at_end s
    then (if s.cursor == 0 then done eof s else list_at_end s)
    else done refresh (delete_argument s)

unfoldable pub e_list_eof : Command
unfolding put
e_list_eof s = if at_end s && s.cursor == 0 then done eof s else list_at_end s

-- The text from one index up to another goes to the kill ring.
abbrev pub push_range : KillDup → ℕ → ℕ → Editor → Editor
push_range dup from to s = record s {
  kills = c_push_kill dup (slice (to - from) s.input_buf.cells from) s.kills;
}

unfoldable pub e_delwordprev : Chars → KillDup → Command
unfolding c_prev_word c_push_kill c_delbefore
e_delwordprev ch dup s =
    if s.cursor == 0
    then done error s
    else (let cp = c_prev_word ch s.input_buf.cells s.vi_mode s.cursor s.argument in
        done refresh (c_delbefore (s.cursor - cp) (push_range dup cp s.cursor s)))

-- The text up to the next word is saved and deleted. With an argument of 0 in vi mode the end of the
-- range is in front of its start, and `c_push_kill` gets a negative length.
abbrev pub delete_up_to : KillDup → ℕ → Command
delete_up_to dup cp s =
    let t = c_delafter (cp - s.cursor) (push_range dup s.cursor cp s) in
    if ltb cp s.cursor
    then done outside s
    else done refresh
        (record t { cursor = if ltb t.last_char t.cursor then t.last_char else t.cursor })

unfoldable pub e_delwordnext : Chars → KillDup → Command
unfolding c_next_word c_push_kill c_delafter
e_delwordnext ch dup s =
    if at_end s
    then done error s
    else elim (c_next_word ch s.input_buf.cells s.vi_mode s.cursor s.last_char s.argument) [
      | none ↦ done outside s
      | some cp ↦ delete_up_to dup cp s
    ]

-- `Mark > Cursor`, where a null pointer is not.
abbrev pub mark_past : ℕ → Option ℕ → Bool
mark_past c none = false
mark_past c (some m) = ltb c m

unfoldable pub e_killend : KillDup → Command
unfolding c_push_kill
e_killend dup s =
    let t = push_range dup s.cursor s.last_char s in
    done refresh (record t {
      last_char = s.cursor;
      mark = if mark_past s.cursor s.mark then some s.cursor else s.mark;
      mark_is_set = false;
    })

-- `if (Mark && Mark > Cursor) Mark -= n;`
abbrev pub mark_minus : ℕ → ℕ → Option ℕ → Option ℕ
mark_minus c n none = none
mark_minus c n (some m) = some (if ltb c m then m - n else m)

-- The cursor is at the start when the mark is looked at, so nothing is taken from it.
unfoldable pub e_killbeg : KillDup → Command
unfolding c_push_kill c_delbefore
e_killbeg dup s =
    let t = c_delbefore s.cursor (push_range dup 0 s.cursor s) in
    done refresh (record t { mark = mark_minus t.cursor t.cursor t.mark })

unfoldable pub e_killall : KillDup → Command
unfolding c_push_kill
e_killall dup s =
    let t = push_range dup 0 s.last_char s in
    done refresh (record t { cursor = 0; mark = some 0; last_char = 0; mark_is_set = false })

-- `if (!Mark) return CC_ERROR;`
abbrev pub with_mark : Option ℕ → (ℕ → Command) → Command
with_mark none f s = done error s
with_mark (some m) f s = f m s

-- The region is deleted on one side of the cursor or the other.
abbrev pub kill_region : KillDup → ℕ → Command
kill_region dup m s =
    if ltb s.cursor m
    then (let t = c_delafter (m - s.cursor) (push_range dup s.cursor m s) in
        done refresh (record t { mark = some t.cursor; mark_is_set = false }))
    else (let t = c_delbefore (s.cursor - m) (push_range dup m s.cursor s) in
        done refresh (record t { mark_is_set = false }))

unfoldable pub e_killregion : KillDup → Command
unfolding c_push_kill c_delafter c_delbefore
e_killregion dup s = with_mark s.mark (kill_region dup) s

abbrev pub copy_region : KillDup → ℕ → Command
copy_region dup m s =
    done norm (if ltb s.cursor m then push_range dup s.cursor m s else push_range dup m s.cursor s)

unfoldable pub e_copyregion : KillDup → Command
unfolding c_push_kill
e_copyregion dup s = with_mark s.mark (copy_region dup) s

-- The text opens a gap and is copied into it; cursor and mark go to its two ends.
abbrev pub yank_text : Bool → Str → Editor → Editor
yank_text cursor_behind w s =
    let t = c_insert (length w) s in
    let u = record t { input_buf = write w s.cursor t.input_buf; mark_is_set = false } in
    if cursor_behind
    then record u { mark = some s.cursor; cursor = s.cursor + length w }
    else record u { mark = some (s.cursor + length w) }

unfoldable pub e_yank_kill : Command
unfolding c_insert write
e_yank_kill s =
    let w = s.kills.slots s.kills.yank_pos in
    if s.kills.ring_len == 0
    then done error s
    else if leb input_lim (s.last_char + length w)
    then done error s
    else done refresh (yank_text (s.argument == 1) w s)

-- `YankPos -= Argument; while (YankPos < 0) YankPos += KillRingLen; YankPos %= KillRingLen;`
abbrev pub earlier : ℕ → KillRing → ℕ
earlier n k =
    if leb n k.yank_pos
    then (k.yank_pos - n) % k.ring_len
    else (k.ring_len - (n - k.yank_pos) % k.ring_len) % k.ring_len

-- The text between the mark and the cursor is replaced.
abbrev pub replace_region : Str → ℕ → Command
replace_region w m s =
    let before = ltb m s.cursor in
    let del_len = if before then s.cursor - m else m - s.cursor in
    if leb (input_lim + del_len) (s.last_char + length w)
    then done error s
    else done refresh
        (yank_text before w (if before then c_delbefore del_len s else c_delafter del_len s))

-- `ResetInLine` sets Mark at the start of a line, so it is not null here.
unfoldable pub e_yank_pop : Command
unfolding c_insert write c_delbefore c_delafter
e_yank_pop s =
    if s.kills.ring_len == 0
    then done error s
    else (let k = record s.kills { yank_pos = earlier s.argument s.kills } in
        with_mark s.mark (replace_region (k.slots k.yank_pos)) (record s { kills = k }))

-- `Cursor[-2]` and `Cursor[-1]` are exchanged.
abbrev pub switch_before : ℕ → Buffer → Buffer
switch_before c b = put (c - 1) (b.cells (c - 2)) (put (c - 2) (b.cells (c - 1)) b)

unfoldable pub e_charswitch : Command
unfolding put
e_charswitch s =
    if s.cursor == 0 || s.last_char == 1
    then done error s
    else (let c = if ltb s.cursor s.last_char then suc s.cursor else s.cursor in
        done refresh (record s { cursor = c; input_buf = switch_before c s.input_buf }))

unfoldable pub e_gcharswitch : Command
unfolding put
e_gcharswitch s =
    if ltb 1 s.cursor
    then done refresh (record s { input_buf = switch_before s.cursor s.input_buf })
    else done error s

unfoldable pub e_copyprev : Chars → Command
unfolding c_prev_word c_insert copy
e_copyprev ch s =
    if s.cursor == 0
    then done error s
    else (let cp = c_prev_word ch s.input_buf.cells s.vi_mode s.cursor s.argument in
        let t = c_insert (s.cursor - cp) s in
        let n =
          (if leb (s.cursor - cp) (t.last_char - s.cursor)
            then s.cursor - cp
            else t.last_char - s.cursor) in
        done refresh (record t {
          input_buf = copy n t.input_buf.cells cp s.cursor t.input_buf;
          cursor = s.cursor + n;
        }))
