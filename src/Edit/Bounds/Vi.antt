-- ===== src/Edit/Bounds/Vi.antt =====
-- ed.chared.c: the bounds of the line under the commands of vi's command mode, undo and case.
use mcsh.Base.{
  ℕ, zero, suc, ◌+◌, ◌-◌, ◌≤◌, ◌<◌, max, Bool, true, false, arith, ◌≡◌, ◌⊎◌, inl, inr, ltb, leb,
  ◌==◌, if◌then◌else◌, Bool-cases, leb-false→lt,
}
use mcsh.Edit.Buffer.{Buffer, put}
use mcsh.Edit.State.{
  InputMode, mode_replace, mode_replace_1, UndoAction, undo_nothing, undo_insert, undo_delete,
  undo_change, ActionFlag, Editor, Chars, done, refresh, input_lim, inbufsize,
}
use mcsh.Edit.Change.{c_insert, c_delafter}
use mcsh.Edit.Kill.{KillDup}
use mcsh.Edit.Delete.{e_killall, e_killend}
use mcsh.Edit.Move.{move_cursor}
use mcsh.Edit.Cells.{put-top, copy-top, move_down-top}
use mcsh.Edit.Vi.{
  only_delete, v_action, inserting_at, v_insbeg, v_insert, v_add, v_addend, replacing, v_replone,
  v_replmode, main_key_map, v_substchar, v_substline, v_chgtoend, turn_case, v_change_case,
  capitalize, change_word, e_uppercase, e_lowercase, e_capitalcase, exchange, undo_deletion,
  undo_insertion, undo_by, v_undo,
}
use mcsh.Edit.Bounds.{
  MarkWithin, Placed, Placed-le, if-Kept, c_insert-Placed, c_delafter-Placed, c_insert-last,
}
use mcsh.Edit.Bounds.Typing.{Kept}
use mcsh.Edit.Bounds.Moves.{move-Placed, at_next_word-Kept}
use mcsh.Edit.Bounds.Deletes.{e_killall-Kept, e_killend-Kept}
use mcsh.Edit.Bounds.Yanks.{cells-Placed}

-- `dd` leaves the mark where it was.
abbrev pub MarkAtStart : Editor → Type 0
MarkAtStart s = (only_delete s.action_flag ≡ false) ⊎ MarkWithin 0 s.mark

pub v_action-Kept : (c : ActionFlag) (s : Editor) → MarkAtStart s → Placed s → Kept (v_action c) s
unfolding v_action Placed
v_action-Kept c s (inl m) h = rw (m, v_action) h
v_action-Kept c s (inr m) h =
    if-Kept (only_delete s.action_flag) _ _ (λ t. (omega arith, omega arith, m, h.3)) (λ t. h)

inserting-Placed : (p : ℕ) (s : Editor) → p ≤ s.last_char → Placed s → Placed (inserting_at p s)
unfolding Placed
inserting-Placed p s l h = (l, h.1, h.2, h.3)

pub v_insbeg-Kept : (s : Editor) → Placed s → Kept v_insbeg s
unfolding v_insbeg
v_insbeg-Kept s h = inserting-Placed 0 s (omega arith) h

pub v_insert-Kept : (s : Editor) → Placed s → Kept v_insert s
unfolding v_insert
v_insert-Kept s h = inserting-Placed s.cursor s (Placed-le s h) h

pub v_add-Kept : (s : Editor) → Placed s → Kept v_add s
unfolding v_add
v_add-Kept s h =
    let le = Placed-le s h in
    inserting-Placed (if ltb s.cursor s.last_char then suc s.cursor else s.cursor) s (ground arith)
      h

pub v_addend-Kept : (s : Editor) → Placed s → Kept v_addend s
unfolding v_addend
v_addend-Kept s h = inserting-Placed s.last_char s (omega arith) h

replacing-Placed : (m : InputMode) (s : Editor) → Placed s → Placed (replacing m s)
unfolding Placed
replacing-Placed m s h = h

pub v_replone-Kept : (s : Editor) → Placed s → Kept v_replone s
unfolding v_replone
v_replone-Kept s h = replacing-Placed mode_replace_1 s h

pub v_replmode-Kept : (s : Editor) → Placed s → Kept v_replmode s
unfolding v_replmode
v_replmode-Kept s h = replacing-Placed mode_replace s h

main_key_map-Placed : (s : Editor) → Placed s → Placed (main_key_map s)
unfolding Placed
main_key_map-Placed s h = h

pub v_substchar-Kept : (s : Editor) → Placed s → Kept v_substchar s
unfolding v_substchar
v_substchar-Kept s h =
    main_key_map-Placed (c_delafter s.argument s) (c_delafter-Placed s.argument s h)

pub v_substline-Kept : (dup : KillDup) (s : Editor) → Placed s → Kept (v_substline dup) s
unfolding v_substline
v_substline-Kept dup s h = main_key_map-Placed (e_killall dup s).editor (e_killall-Kept dup s h)

pub v_chgtoend-Kept : (dup : KillDup) (s : Editor) → Placed s → Kept (v_chgtoend dup) s
unfolding v_chgtoend
v_chgtoend-Kept dup s h = main_key_map-Placed (e_killend dup s).editor (e_killend-Kept dup s h)

put-top_or :
    (t : Bool) (p c : ℕ) (b : Buffer) → (if t then put p c b else b).top ≤ max b.top (suc p)
put-top_or true p c b = omega (arith, put-top p c b)
put-top_or false p c b = omega arith

turn_case-top :
    (test : ℕ → Bool) (turn : ℕ → ℕ) (k p : ℕ) (b : Buffer)
    → (turn_case test turn k p b).top ≤ max b.top (p + k)
unfolding turn_case
turn_case-top test turn zero p b = omega arith
turn_case-top test turn (suc k) p b =
    let t = test (b.cells p) in
    let c = turn (b.cells p) in
    omega
      (arith, turn_case-top test turn k (suc p) (if t then put p c b else b), put-top_or t p c b)

module _ (ch : Chars) where
  capitalize-top : (k p : ℕ) (b : Buffer) → (capitalize ch k p b).top ≤ max b.top (p + k)
  unfolding capitalize
  capitalize-top zero p b = omega arith
  capitalize-top (suc k) p b =
      let t = ch.is_lower (b.cells p) in
      let c = ch.to_upper (b.cells p) in
      let b' = if t then put p c b else b in
      elim (Bool-cases (ch.is_alpha (b.cells p))) [
        | inl a ↦
            rw a (
              omega (arith, turn_case-top ch.is_upper ch.to_lower k (suc p) b', put-top_or t p c b))
        | inr a ↦ rw a (omega (arith, capitalize-top k (suc p) b))
      ]

  pub v_change_case-Kept : (s : Editor) → Placed s → Kept (v_change_case ch) s
  unfolding v_change_case
  v_change_case-Kept s h =
      let c = s.input_buf.cells s.cursor in
      let lower = if ch.is_lower c then put s.cursor (ch.to_upper c) s.input_buf else s.input_buf in
      let b = if ch.is_upper c then put s.cursor (ch.to_lower c) s.input_buf else lower in
      let top : b.top ≤ max s.input_buf.top (suc s.cursor) = (elim (Bool-cases (ch.is_upper c)) [
        | inl u ↦ rw u (omega (arith, put-top s.cursor (ch.to_lower c) s.input_buf))
        | inr u ↦ rw u (put-top_or (ch.is_lower c) s.cursor (ch.to_upper c) s.input_buf)
      ]) in
      if-Kept (leb s.last_char s.cursor) _ _ (λ t. h)
        (λ t.
          let l = leb-false→lt s.last_char s.cursor t in
          move-Placed (suc s.cursor) (record s { input_buf = b }) l
            (cells-Placed b s (omega (arith, top, l)) h))

  -- The letters up to the next word are changed.
  change_word-Kept :
      (turn : ℕ → ℕ → Buffer → Buffer) (s : Editor)
      → ((k p : ℕ) (b : Buffer) → (turn k p b).top ≤ max b.top (p + k))
      → Placed s
      → Kept (change_word ch turn) s
  change_word-Kept turn s top h =
      at_next_word-Kept ch
        (λ p s. done refresh (record s {
          input_buf = turn (p - s.cursor) s.cursor s.input_buf;
          cursor = if ltb s.last_char p then s.last_char else p;
        }))
        s h
        (λ p l.
          let b = turn (p - s.cursor) s.cursor s.input_buf in
          move-Placed (if ltb s.last_char p then s.last_char else p) (record s { input_buf = b })
            (ground (arith, l))
            (cells-Placed b s
              (omega (arith, top (p - s.cursor) s.cursor s.input_buf, l, Placed-le s h)) h))

  pub e_uppercase-Kept : (s : Editor) → Placed s → Kept (e_uppercase ch) s
  unfolding e_uppercase
  e_uppercase-Kept s h =
      change_word-Kept (turn_case ch.is_lower ch.to_upper) s (turn_case-top ch.is_lower ch.to_upper)
        h

  pub e_lowercase-Kept : (s : Editor) → Placed s → Kept (e_lowercase ch) s
  unfolding e_lowercase
  e_lowercase-Kept s h =
      change_word-Kept (turn_case ch.is_upper ch.to_lower) s (turn_case-top ch.is_upper ch.to_lower)
        h

  pub e_capitalcase-Kept : (s : Editor) → Placed s → Kept (e_capitalcase ch) s
  unfolding e_capitalcase
  e_capitalcase-Kept s h = change_word-Kept (capitalize ch) s capitalize-top h

-- What undo wants of its state: the text that it takes out or puts back is in the line or fits, and
-- the mark is not in what is taken out, since undo leaves the mark where it was.
abbrev pub UndoFits : UndoAction → Editor → Type 0
UndoFits undo_nothing s = Unit
UndoFits undo_delete s =
    (s.undo_ptr + s.undo_size ≤ s.last_char) × MarkWithin (s.last_char - s.undo_size) s.mark
UndoFits undo_insert s = (s.undo_ptr ≤ s.last_char) × (s.last_char + s.undo_size < input_lim)
UndoFits undo_change s = (s.undo_ptr ≤ s.last_char) × (s.undo_ptr + s.undo_size ≤ inbufsize)

undo_insertion-Placed : (s : Editor) → UndoFits undo_delete s → Placed s → Placed (undo_insertion s)
unfolding undo_insertion Placed
undo_insertion-Placed s f h = (
  omega (arith, f.0),
  omega (arith, h.1),
  f.1,
  omega (
    arith,
    move_down-top (suc s.last_char - s.undo_ptr) s.undo_ptr s.undo_size s.input_buf,
    h.1,
    h.3,
    f.0,
  ),
)

undo_deletion-Placed : (s : Editor) → UndoFits undo_insert s → Placed s → Placed (undo_deletion s)
unfolding undo_deletion Placed
undo_deletion-Placed s f h =
    let at = move_cursor s.undo_ptr s in
    let t = c_insert s.undo_size at in
    let k = c_insert-Placed s.undo_size at (f.0, h.1, h.2, h.3) in
    let l = c_insert-last s.undo_size at f.1 in
    (
      k.0,
      k.1,
      k.2,
      omega
          (arith, copy-top s.undo_size t.undo_buf.cells 0 s.undo_ptr t.input_buf, f.0, k.1, k.3, l),
    )

exchange-Placed :
    (s : Editor)
    → UndoFits undo_change s
    → Placed s
    → Placed (exchange (max s.undo_size (s.undo_ptr - s.last_char)) s.undo_ptr s)
unfolding Placed
exchange-Placed s f h = (
  f.0,
  h.1,
  h.2,
  omega (
    arith,
    copy-top (max s.undo_size (s.undo_ptr - s.last_char)) s.undo_buf.cells 0 s.undo_ptr s.input_buf,
    f.0,
    f.1,
    h.3,
  ),
)

undo_by-Kept : (u : UndoAction) (s : Editor) → UndoFits u s → Placed s → Placed (undo_by u s).editor
unfolding undo_by
undo_by-Kept undo_nothing s f h = h
undo_by-Kept undo_delete s f h =
    if-Kept (s.undo_size == 0) _ _ (λ t. h)
      (λ t. if-Kept (leb s.undo_size s.last_char) _ _ (λ t. undo_insertion-Placed s f h) (λ t. h))
undo_by-Kept undo_insert s f h =
    if-Kept (s.undo_size == 0) _ _ (λ t. h) (λ t. undo_deletion-Placed s f h)
undo_by-Kept undo_change s f h =
    if-Kept (s.undo_size == 0) _ _ (λ t. h) (λ t. exchange-Placed s f h)

pub v_undo-Kept : (s : Editor) → UndoFits s.undo_action s → Placed s → Kept v_undo s
unfolding v_undo
v_undo-Kept s f h = undo_by-Kept s.undo_action s f h
