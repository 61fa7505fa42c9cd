-- ===== src/Edit/Bounds/Yanks.antt =====
-- ed.chared.c: the bounds of the line under the commands that yank and switch characters.
use mcsh.Base.{
  ℕ, suc, ◌+◌, ◌-◌, ◌≤◌, ◌<◌, max, Bool, false, Option, none, some, ◌||◌, Str, length, arith, ◌≡◌,
  ltb, leb, ◌==◌, if◌then◌else◌, ltb→lt, leb-false→lt,
}
use mcsh.Edit.Buffer.{Buffer, put, copy, write}
use mcsh.Edit.State.{Editor, Chars, input_lim}
use mcsh.Edit.Change.{c_insert, c_delafter, c_delbefore}
use mcsh.Edit.Word.{c_prev_word}
use mcsh.Edit.Move.{move_cursor}
use mcsh.Edit.Delete.{
  yank_text, e_yank_kill, e_yank_pop, earlier, switch_before, e_charswitch, e_gcharswitch,
  e_copyprev, replace_region,
}
use mcsh.Edit.Cells.{put-top, copy-top, write-top}
use mcsh.Edit.Bounds.{
  MarkWithin, Placed, Placed-le, if-Placed, if-Kept, c_insert-Placed, c_delafter-Placed,
  c_delbefore-Placed, c_insert-last, c_insert-cursor, c_delafter-last, c_delbefore-last,
}
use mcsh.Edit.Bounds.Typing.{Kept}
use mcsh.Edit.Bounds.Moves.{move-Placed}
use mcsh.Edit.Bounds.Deletes.{mark-Placed, Placed-mark, with_mark-Kept, kills-Placed}

-- Text is put into a gap that fits.
yank_text-Placed :
    (behind : Bool) (w : Str) (s : Editor)
    → s.last_char + length w < input_lim
    → Placed s
    → Placed (yank_text behind w s)
yank_text-Placed behind w s l h =
    let t = c_insert (length w) s in
    let k = c_insert-Placed (length w) s h in
    let c = c_insert-cursor (length w) s in
    let e = c_insert-last (length w) s l in
    let le = Placed-le s h in
    let top = write-top w s.cursor t.input_buf in
    let u = record t { input_buf = write w s.cursor t.input_buf; mark_is_set = false } in
    let hu : Placed u = (unfold Placed in (k.0, k.1, k.2, omega (arith, top, e, l, k.3, le))) in
    if-Placed behind _ _
      (λ _. (unfold Placed in (omega (arith, e, le), hu.1, omega (arith, e, le), hu.3)))
      (λ _. mark-Placed (some (s.cursor + length w)) u (omega (arith, e, le)) hu)

pub e_yank_kill-Kept : (s : Editor) → Placed s → Kept e_yank_kill s
unfolding e_yank_kill
e_yank_kill-Kept s h =
    let w = s.kills.slots s.kills.yank_pos in
    if-Kept (s.kills.ring_len == 0) _ _ (λ _. h)
      (λ _.
        if-Kept (leb input_lim (s.last_char + length w)) _ _ (λ _. h)
          (λ t. yank_text-Placed (s.argument == 1) w s (ground arith) h))

-- A line that is shorter by what is deleted on one side of the cursor.
delete_side-Placed :
    (before : Bool) (n : ℕ) (s : Editor)
    → Placed s
    → Placed (if before then c_delbefore n s else c_delafter n s)
delete_side-Placed before n s h =
    if-Placed before _ _ (λ t. c_delbefore-Placed n s h) (λ t. c_delafter-Placed n s h)

delete_side-last :
    (m : ℕ) (s : Editor)
    → m ≤ s.last_char
    → Placed s
    → (let before = ltb m s.cursor in
        let n = if before then s.cursor - m else m - s.cursor in
        (if before then c_delbefore n s else c_delafter n s).last_char + n ≡ s.last_char)
delete_side-last m s l h =
    ground (
      arith,
      c_delbefore-last (s.cursor - m) s h,
      c_delafter-last (m - s.cursor) s h,
      Placed-le s h,
    )

replace_region-Kept :
    (w : Str) (m : ℕ) (s : Editor) → m ≤ s.last_char → Placed s → Kept (replace_region w m) s
replace_region-Kept w m s l h =
    let before = ltb m s.cursor in
    let n = if before then s.cursor - m else m - s.cursor in
    let t = if before then c_delbefore n s else c_delafter n s in
    if-Kept (leb (input_lim + n) (s.last_char + length w)) _ _ (λ _. h)
      (λ e.
        yank_text-Placed before w t
          (omega (
            arith,
            leb-false→lt (input_lim + n) (s.last_char + length w) e,
            delete_side-last m s l h,
          ))
          (delete_side-Placed before n s h))

MarkWithin-le : (l n : ℕ) (m : Option ℕ) → m ≡ some n → MarkWithin l m → n ≤ l
MarkWithin-le l n none e h = absurd (ground (arith, e))
MarkWithin-le l n (some m) e h = ground (arith, e, h)

pub e_yank_pop-Kept : (s : Editor) → Placed s → Kept e_yank_pop s
unfolding e_yank_pop
e_yank_pop-Kept s h =
    let k = record s.kills { yank_pos = earlier s.argument s.kills } in
    let t = record s { kills = k } in
    let ht = kills-Placed k s h in
    if-Kept (s.kills.ring_len == 0) _ _ (λ _. h)
      (λ _. with_mark-Kept s.mark (replace_region (k.slots k.yank_pos)) t ht (λ m e.
        replace_region-Kept (k.slots k.yank_pos) m t
          (MarkWithin-le s.last_char m s.mark e (Placed-mark s h)) ht))

switch_before-top : (c : ℕ) (b : Buffer) → 1 < c → (switch_before c b).top ≤ max b.top c
switch_before-top c b l =
    let b' = put (c - 2) (b.cells (c - 1)) b in
    omega (arith, put-top (c - 1) (b.cells (c - 2)) b', put-top (c - 2) (b.cells (c - 1)) b)

-- The cells of the line are changed, up to its end at most.
pub cells-Placed :
    (b : Buffer) (s : Editor)
    → b.top ≤ max s.input_buf.top (suc s.last_char)
    → Placed s
    → Placed (record s { input_buf = b })
unfolding Placed
cells-Placed b s l h = (h.0, h.1, h.2, omega (arith, l, h.1, h.3))

pub e_gcharswitch-Kept : (s : Editor) → Placed s → Kept e_gcharswitch s
unfolding e_gcharswitch
e_gcharswitch-Kept s h =
    if-Kept (ltb 1 s.cursor) _ _
      (λ t.
        cells-Placed (switch_before s.cursor s.input_buf) s
          (omega
            (arith, switch_before-top s.cursor s.input_buf (ltb→lt 1 s.cursor t), Placed-le s h))
          h)
      (λ t. h)

bump_le : (c l : ℕ) → c ≤ l → (if ltb c l then suc c else c) ≤ l
bump_le c l h = ground arith

-- A cursor behind the first character of a line that has two.
pub e_charswitch-Kept : (s : Editor) → Placed s → Kept e_charswitch s
unfolding e_charswitch
e_charswitch-Kept s h =
    let c = if ltb s.cursor s.last_char then suc s.cursor else s.cursor in
    let le = Placed-le s h in
    if-Kept (s.cursor == 0 || s.last_char == 1) _ _ (λ t. h)
      (λ t.
        cells-Placed (switch_before c s.input_buf) (move_cursor c s)
          (omega (
            arith,
            switch_before-top c s.input_buf (ground arith),
            bump_le s.cursor s.last_char le,
          ))
          (move-Placed c s (bump_le s.cursor s.last_char le) h))

pub e_copyprev-Kept : (ch : Chars) (s : Editor) → Placed s → Kept (e_copyprev ch) s
unfolding e_copyprev
e_copyprev-Kept ch s h =
    let cp = c_prev_word ch s.input_buf.cells s.vi_mode s.cursor s.argument in
    let t = c_insert (s.cursor - cp) s in
    let k = c_insert-Placed (s.cursor - cp) s h in
    let le = Placed-le s h in
    let e = c_insert-cursor (s.cursor - cp) s in
    let le' = Placed-le t k in
    let n =
      if leb (s.cursor - cp) (t.last_char - s.cursor)
      then s.cursor - cp
      else t.last_char - s.cursor in
    let b = copy n t.input_buf.cells cp s.cursor t.input_buf in
    let l : s.cursor + n ≤ t.last_char = ground arith in
    if-Kept (s.cursor == 0) _ _ (λ _. h)
      (λ _.
        move-Placed (s.cursor + n) (record t { input_buf = b }) l
          (cells-Placed b t (omega (arith, copy-top n t.input_buf.cells cp s.cursor t.input_buf, l))
            k))
