-- ===== src/Edit/Move.antt =====
-- ed.chared.c: the commands that move the cursor, and `c_delfini`, which ends a delete in vi mode.
use mcsh.Base.{
  ℕ, zero, suc, ◌+◌, ◌-◌, Bool, true, false, not, Option, none, some, ◌&&◌, ◌==◌, ltb, leb,
  if◌then◌else◌,
}
use mcsh.Edit.State.{
  undo_insert, ActionFlag, action_nop, action_change, Editor, norm, error, refresh, outside, done,
  Command, Chars, inbufsize,
}
use mcsh.Edit.Change.{c_delafter, c_delbefore}
use mcsh.Edit.Word.{forth, up_to, c_prev_word, c_next_word, c_nexword, c_eword}
use mcsh.Edit.Typing.{add_digit}

-- Whether the bits of `ActionFlag` have TCSHOP_DELETE, and TCSHOP_INSERT.
abbrev pub deletes : ActionFlag → Bool
deletes action_nop = false
deletes a = true

abbrev pub inserts : ActionFlag → Bool
inserts action_change = true
inserts a = false

abbrev pub undone : ℕ → Editor → Editor
undone size s = record s { undo_ptr = s.cursor; undo_size = size }

abbrev pub delete_to : ℕ → Editor → Editor
delete_to p s =
    if ltb p s.cursor
    then undone (s.cursor - p) (c_delbefore (s.cursor - p) s)
    else if ltb s.cursor p
    then undone (p - s.cursor) (c_delafter (p - s.cursor) s)
    else undone 1 (c_delafter 1 s)

-- The delete itself, where `ActionPos` is not null.
unfoldable pub delete_pending : Option ℕ → Editor → Editor
unfolding c_delbefore c_delafter
delete_pending none s = s
delete_pending (some p) s = delete_to p (record s { undo_action = undo_insert })

unfoldable pub c_delfini : Editor → Editor
unfolding delete_pending
c_delfini s = delete_pending s.action_pos (record s {
  alt_key_map = if inserts s.action_flag then false else s.alt_key_map;
  action_flag = action_nop;
})

-- What ends a motion: a delete that is pending in vi mode, or the motion alone.
abbrev pub moved : Command
moved s = if s.vi_mode && deletes s.action_flag then done refresh (c_delfini s) else done norm s

-- The same where the mode is not looked at.
abbrev pub vi_moved : Command
vi_moved s = if deletes s.action_flag then done refresh (c_delfini s) else done norm s

-- And where the character under the cursor belongs to the range.
abbrev pub vi_moved_onto : Command
vi_moved_onto s =
    if deletes s.action_flag
    then done refresh (c_delfini (record s { cursor = suc s.cursor }))
    else done norm s

abbrev pub move_cursor : ℕ → Editor → Editor
move_cursor p s = record s { cursor = p }

unfoldable pub v_zero : ℕ → Command
unfolding c_delfini
v_zero c s = if s.doing_arg then add_digit c s else vi_moved (move_cursor 0 s)

unfoldable pub e_toend : Command
unfolding c_delfini
e_toend s = moved (move_cursor s.last_char s)

-- In vi mode the first character that is no space, however far behind the line it is; a scan that
-- meets none leaves InputBuf.
abbrev pub first_other : Chars → Editor → ℕ
first_other ch s = if s.vi_mode then forth ch.is_space s.input_buf.cells inbufsize 0 else 0

unfoldable pub e_tobeg : Chars → Command
unfolding c_delfini
e_tobeg ch s =
    let p = first_other ch s in if leb inbufsize p then done outside s else moved (move_cursor p s)

unfoldable pub e_charback : Command
unfolding c_delfini
e_charback s =
    if s.cursor == 0
    then done error s
    else moved (move_cursor (if ltb s.cursor s.argument then 0 else s.cursor - s.argument) s)

unfoldable pub e_charfwd : Command
unfolding c_delfini
e_charfwd s =
    if ltb s.cursor s.last_char
    then (let p = s.cursor + s.argument in
        moved (move_cursor (if ltb s.last_char p then s.last_char else p) s))
    else done error s

unfoldable pub e_wordback : Chars → Command
unfolding c_delfini c_prev_word
e_wordback ch s =
    if s.cursor == 0
    then done error s
    else moved (move_cursor (c_prev_word ch s.input_buf.cells s.vi_mode s.cursor s.argument) s)

abbrev pub next_word : Chars → Editor → Option ℕ
next_word ch s = c_next_word ch s.input_buf.cells s.vi_mode s.cursor s.last_char s.argument

unfoldable pub e_wordfwd : Chars → Command
unfolding c_delfini c_next_word
e_wordfwd ch s =
    if s.cursor == s.last_char
    then done error s
    else elim (next_word ch s) [ none ↦ done outside s | some p ↦ moved (move_cursor p s) ]

unfoldable pub v_wordfwd : Chars → Command
unfolding c_delfini c_nexword
v_wordfwd ch s =
    if s.cursor == s.last_char
    then done error s
    else moved (move_cursor (c_nexword ch s.input_buf.cells s.cursor s.last_char s.argument) s)

unfoldable pub v_wordbegnext : Chars → Command
unfolding c_delfini c_next_word
v_wordbegnext ch s = if s.cursor == s.last_char then done error s else elim (next_word ch s) [
  | none ↦ done outside s
  | some p ↦ moved (move_cursor (if ltb p s.last_char then suc p else p) s)
]

unfoldable pub v_eword : Chars → Command
unfolding c_delfini c_eword
v_eword ch s =
    if s.cursor == s.last_char
    then done error s
    else vi_moved_onto
        (move_cursor (c_eword ch s.input_buf.cells s.cursor s.last_char s.argument) s)

-- `while (count--) { if (*cp == ch) cp++; while (cp < LastChar && *cp != ch) cp++; }`
unfoldable pub chars_forth : ℕ → (ℕ → ℕ) → ℕ → ℕ → ℕ → ℕ
unfolding forth
chars_forth c f high zero p = p
chars_forth c f high (suc n) p =
    chars_forth c f high n (up_to (λ x. not (x == c)) f high (if f p == c then suc p else p))

-- The search backwards; a step in front of the buffer is none.
unfoldable pub char_back : ℕ → (ℕ → ℕ) → ℕ → ℕ
char_back c f zero = zero
char_back c f (suc p) = let rest = char_back c f p in if f (suc p) == c then suc p else rest

abbrev pub step_back : ℕ → (ℕ → ℕ) → ℕ → Option ℕ
step_back c f zero = if f 0 == c then none else some zero
step_back c f (suc p) = some (if f (suc p) == c then p else suc p)

unfoldable pub chars_back : ℕ → (ℕ → ℕ) → ℕ → ℕ → Option ℕ
unfolding char_back
chars_back c f zero p = some p
chars_back c f (suc n) p = elim (step_back c f p) [
  | none ↦ none
  | some q ↦ chars_back c f n (char_back c f q)
]

-- `tflag`: stop one character short of it.
unfoldable pub v_csearch_back : ℕ → ℕ → Bool → Command
unfolding c_delfini chars_back
v_csearch_back c count tflag s = elim (chars_back c s.input_buf.cells count s.cursor) [
  | none ↦ done error s
  | some p ↦
      if p == 0 && not (s.input_buf.cells 0 == c)
      then done error s
      else vi_moved_onto (move_cursor (if s.input_buf.cells p == c && tflag then suc p else p) s)
]

unfoldable pub v_csearch_fwd : ℕ → ℕ → Bool → Command
unfolding c_delfini chars_forth
v_csearch_fwd c count tflag s =
    let f = s.input_buf.cells in
    let p = chars_forth c f s.last_char count s.cursor in
    if leb s.last_char p
    then done error s
    else if f p == c && tflag
    then elim p [ zero ↦ done outside s | suc q ↦ vi_moved_onto (move_cursor q s) ]
    else vi_moved_onto (move_cursor p s)

unfoldable pub e_set_mark : Command
e_set_mark s = done norm (record s { mark = some s.cursor; mark_is_set = true })

-- `ResetInLine` sets Mark at the start of a line, so it is not null here.
unfoldable pub e_exchange_mark : Command
e_exchange_mark s = elim s.mark [
  | none ↦ done error s
  | some m ↦ done norm (record s { cursor = m; mark = some s.cursor })
]
