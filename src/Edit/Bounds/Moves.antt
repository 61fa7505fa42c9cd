-- ===== src/Edit/Bounds/Moves.antt =====
-- ed.chared.c: the bounds of the line under the commands that move the cursor.
use mcsh.Base.{
  ℕ, suc, ◌+◌, ◌-◌, ◌*◌, ◌≤◌, ◌<◌, Bool, false, Option, none, some, ◌&&◌, arith, ◌≡◌, ltb, ◌==◌,
  if◌then◌else◌, Option-cases, inl, inr,
}
use mcsh.Edit.State.{
  Editor, Command, Chars, done, outside, ActionFlag, action_nop, UndoAction, undo_insert,
}
use mcsh.Edit.Change.{c_delafter, c_delbefore}
use mcsh.Edit.Word.{c_prev_word, c_nexword, c_eword}
use mcsh.Edit.Move.{
  deletes, inserts, undone, delete_to, delete_pending, c_delfini, moved, vi_moved, vi_moved_onto,
  move_cursor, v_zero, e_toend, e_charback, e_charfwd, e_wordback, next_word, e_wordfwd, v_wordfwd,
  v_wordbegnext, v_eword, e_set_mark, e_exchange_mark,
}
use mcsh.Edit.Bounds.{Placed, Placed-le, if-Placed, if-Kept, c_delafter-Placed, c_delbefore-Placed}
use mcsh.Edit.Bounds.Words.{c_prev_word_le, c_next_word_le, c_nexword_le, c_eword_bounds}
use mcsh.Edit.Bounds.Typing.{Kept, argument-Placed}

-- A state whose cursor, line and mark are those of a placed one.
pub move-Placed : (p : ℕ) (s : Editor) → p ≤ s.last_char → Placed s → Placed (move_cursor p s)
unfolding Placed
move-Placed p s l h = (l, h.1, h.2, h.3)

undone-Placed : (n : ℕ) (s : Editor) → Placed s → Placed (undone n s)
unfolding Placed
undone-Placed n s h = h

delete_to-Placed : (p : ℕ) (s : Editor) → Placed s → Placed (delete_to p s)
delete_to-Placed p s h =
    if-Placed (ltb p s.cursor) _ _
      (λ t.
        undone-Placed (s.cursor - p) (c_delbefore (s.cursor - p) s)
          (c_delbefore-Placed (s.cursor - p) s h))
      (λ t.
        if-Placed (ltb s.cursor p) _ _
          (λ t.
            undone-Placed (p - s.cursor) (c_delafter (p - s.cursor) s)
              (c_delafter-Placed (p - s.cursor) s h))
          (λ t. undone-Placed 1 (c_delafter 1 s) (c_delafter-Placed 1 s h)))

-- The fields that `c_delfini` changes before it deletes.
pub keys-Placed :
    (b : Bool) (a : ActionFlag) (s : Editor)
    → Placed s
    → Placed (record s { alt_key_map = b; action_flag = a })
unfolding Placed
keys-Placed b a s h = h

undo_action-Placed :
    (u : UndoAction) (s : Editor) → Placed s → Placed (record s { undo_action = u })
unfolding Placed
undo_action-Placed u s h = h

delete_pending-Placed : (o : Option ℕ) (s : Editor) → Placed s → Placed (delete_pending o s)
unfolding delete_pending
delete_pending-Placed none s h = h
delete_pending-Placed (some p) s h =
    delete_to-Placed p (record s { undo_action = undo_insert }) (undo_action-Placed undo_insert s h)

pub c_delfini-Placed : (s : Editor) → Placed s → Placed (c_delfini s)
unfolding c_delfini
c_delfini-Placed s h =
    let b = if inserts s.action_flag then false else s.alt_key_map in
    delete_pending-Placed s.action_pos (record s { alt_key_map = b; action_flag = action_nop })
      (keys-Placed b action_nop s h)

moved-Kept : (s : Editor) → Placed s → Kept moved s
moved-Kept s h =
    if-Kept (s.vi_mode && deletes s.action_flag) _ _ (λ t. c_delfini-Placed s h) (λ t. h)

vi_moved-Kept : (s : Editor) → Placed s → Kept vi_moved s
vi_moved-Kept s h = if-Kept (deletes s.action_flag) _ _ (λ t. c_delfini-Placed s h) (λ t. h)

pub onto-Kept : (s : Editor) → s.cursor < s.last_char → Placed s → Kept vi_moved_onto s
onto-Kept s l h =
    let next = record s { cursor = suc s.cursor } in
    if-Kept (deletes s.action_flag) _ _
      (λ t. c_delfini-Placed next (move-Placed (suc s.cursor) s l h)) (λ t. h)

-- A motion to a place in the line.
pub to-Kept :
    (p : ℕ) (s : Editor) → p ≤ s.last_char → Placed s → Kept (λ s. moved (move_cursor p s)) s
to-Kept p s l h = moved-Kept (move_cursor p s) (move-Placed p s l h)

pub onto_at-Kept :
    (p : ℕ) (s : Editor)
    → p < s.last_char
    → Placed s
    → Kept (λ s. vi_moved_onto (move_cursor p s)) s
onto_at-Kept p s l h = onto-Kept (move_cursor p s) l (move-Placed p s (omega arith) h)

pub v_zero-Kept : (c : ℕ) (s : Editor) → Placed s → Kept (v_zero c) s
unfolding v_zero
v_zero-Kept c s h =
    if-Kept s.doing_arg _ _
      (λ t.
        if-Kept (ltb 1000000 s.argument) _ _ (λ t. h)
          (λ t. argument-Placed (s.argument * 10 + (c - b'0')) s h))
      (λ t. vi_moved-Kept (move_cursor 0 s) (move-Placed 0 s (omega arith) h))

pub e_toend-Kept : (s : Editor) → Placed s → Kept e_toend s
unfolding e_toend
e_toend-Kept s h = to-Kept s.last_char s (omega arith) h

pub e_charback-Kept : (s : Editor) → Placed s → Kept e_charback s
unfolding e_charback
e_charback-Kept s h =
    let l = Placed-le s h in
    if-Kept (s.cursor == 0) _ _ (λ t. h)
      (λ t.
        to-Kept (if ltb s.cursor s.argument then 0 else s.cursor - s.argument) s (ground arith) h)

pub e_charfwd-Kept : (s : Editor) → Placed s → Kept e_charfwd s
unfolding e_charfwd
e_charfwd-Kept s h =
    let p = s.cursor + s.argument in
    if-Kept (ltb s.cursor s.last_char) _ _
      (λ t. to-Kept (if ltb s.last_char p then s.last_char else p) s (ground arith) h) (λ t. h)

pub e_wordback-Kept : (ch : Chars) (s : Editor) → Placed s → Kept (e_wordback ch) s
unfolding e_wordback
e_wordback-Kept ch s h =
    let f = s.input_buf.cells in
    let l = Placed-le s h in
    if-Kept (s.cursor == 0) _ _ (λ t. h)
      (λ t.
        to-Kept (c_prev_word ch f s.vi_mode s.cursor s.argument) s
          (omega (arith, c_prev_word_le ch f s.vi_mode s.cursor s.argument)) h)

pub next_word_le :
    (ch : Chars) (s : Editor) (p : ℕ) → Placed s → next_word ch s ≡ some p → p ≤ s.last_char
next_word_le ch s p h e =
    c_next_word_le ch s.input_buf.cells s.vi_mode s.cursor s.last_char s.argument p (Placed-le s h)
      e

-- What is done at the next word.
pub at_next_word-Kept :
    (ch : Chars) (f : ℕ → Command) (s : Editor)
    → Placed s
    → ((p : ℕ) → p ≤ s.last_char → Kept (f p) s)
    → Kept (λ s. elim (next_word ch s) [ none ↦ done outside s | some p ↦ f p s ]) s
at_next_word-Kept ch f s h k = elim (Option-cases (next_word ch s)) [
  | inl e ↦ rw e h
  | inr (p, e) ↦ rw e (k p (next_word_le ch s p h e))
]

pub e_wordfwd-Kept : (ch : Chars) (s : Editor) → Placed s → Kept (e_wordfwd ch) s
unfolding e_wordfwd
e_wordfwd-Kept ch s h =
    if-Kept (s.cursor == s.last_char) _ _ (λ t. h)
      (λ t. at_next_word-Kept ch (λ p s. moved (move_cursor p s)) s h (λ p l. to-Kept p s l h))

pub v_wordbegnext-Kept : (ch : Chars) (s : Editor) → Placed s → Kept (v_wordbegnext ch) s
unfolding v_wordbegnext
v_wordbegnext-Kept ch s h =
    if-Kept (s.cursor == s.last_char) _ _ (λ t. h)
      (λ t.
        at_next_word-Kept ch (λ p s. moved (move_cursor (if ltb p s.last_char then suc p else p) s))
          s h (λ p l. to-Kept (if ltb p s.last_char then suc p else p) s (ground arith) h))

pub v_wordfwd-Kept : (ch : Chars) (s : Editor) → Placed s → Kept (v_wordfwd ch) s
unfolding v_wordfwd
v_wordfwd-Kept ch s h =
    let f = s.input_buf.cells in
    if-Kept (s.cursor == s.last_char) _ _ (λ t. h)
      (λ t.
        to-Kept (c_nexword ch f s.cursor s.last_char s.argument) s
          (c_nexword_le ch f s.cursor s.last_char s.argument) h)

pub v_eword-Kept : (ch : Chars) (s : Editor) → Placed s → Kept (v_eword ch) s
unfolding v_eword
v_eword-Kept ch s h =
    let f = s.input_buf.cells in
    let le = Placed-le s h in
    if-Kept (s.cursor == s.last_char) _ _ (λ t. h)
      (λ t.
        onto_at-Kept (c_eword ch f s.cursor s.last_char s.argument) s
          (omega (arith, c_eword_bounds ch f s.cursor s.last_char s.argument (ground arith))) h)

pub e_set_mark-Kept : (s : Editor) → Placed s → Kept e_set_mark s
unfolding e_set_mark Placed
e_set_mark-Kept s h = (h.0, h.1, h.0, h.3)

pub e_exchange_mark-Kept : (s : Editor) → Placed s → Kept e_exchange_mark s
unfolding e_exchange_mark Placed
e_exchange_mark-Kept s h = ground (arith, h)
