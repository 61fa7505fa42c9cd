-- ===== src/Edit/Bounds/Deletes.antt =====
-- ed.chared.c: the bounds of the line under the commands that delete, kill and yank.
use mcsh.Base.{
  ℕ, ◌-◌, Bool, false, not, Option, none, some, ◌&&◌, arith, ◌≡◌, refl, ltb, leb, ◌==◌,
  if◌then◌else◌,
}
use mcsh.Edit.State.{KillRing, Editor, Command, Chars}
use mcsh.Edit.Change.{c_delafter, c_delbefore}
use mcsh.Edit.Kill.{KillDup}
use mcsh.Edit.Word.{c_prev_word}
use mcsh.Edit.Typing.{delete_back}
use mcsh.Edit.Move.{move_cursor}
use mcsh.Edit.Delete.{
  v_delprev, e_delprev, delete_argument, e_delnext, e_delnext_eof, list_at_end, e_delnext_list,
  e_delnext_list_eof, e_list_eof, push_range, e_delwordprev, delete_up_to, e_delwordnext, e_killend,
  e_killbeg, e_killall, e_killregion, e_copyregion, mark_minus, with_mark, kill_region, copy_region,
}
use mcsh.Edit.Cells.{put-top}
use mcsh.Edit.Bounds.{
  MarkWithin, Placed, Placed-le, if-Placed, if-Kept, c_delafter-Placed, c_delbefore-Placed,
}
use mcsh.Edit.Bounds.Typing.{Kept}
use mcsh.Edit.Bounds.Moves.{move-Placed, at_next_word-Kept}

-- The cursor is put back to the end of the line.
abbrev clamped : Editor → Editor
clamped t = move_cursor (if ltb t.last_char t.cursor then t.last_char else t.cursor) t

clamped-Placed : (t : Editor) → Placed t → Placed (clamped t)
clamped-Placed t h =
    move-Placed (if ltb t.last_char t.cursor then t.last_char else t.cursor) t (ground arith) h

delete_argument-Placed : (s : Editor) → Placed s → Placed (delete_argument s)
delete_argument-Placed s h =
    clamped-Placed (c_delafter s.argument s) (c_delafter-Placed s.argument s h)

pub delete_back-Placed : (n : ℕ) (s : Editor) → Placed s → Placed (delete_back n s)
unfolding delete_back
delete_back-Placed n s h =
    if-Placed (n == 0) _ _ (λ t. h)
      (λ t. if-Placed (leb n s.cursor) _ _ (λ t. c_delbefore-Placed n s h) (λ t. h))

pub v_delprev-Kept : (s : Editor) → Placed s → Kept v_delprev s
unfolding v_delprev
v_delprev-Kept s h = ground (arith, h, c_delbefore-Placed s.argument s h)

pub e_delprev-Kept : (s : Editor) → Placed s → Kept e_delprev s
unfolding e_delprev
e_delprev-Kept s h = if-Kept (s.cursor == 0) _ _ (λ t. h) (λ t. c_delbefore-Placed s.argument s h)

pub e_delnext-Kept : (s : Editor) → Placed s → Kept e_delnext s
unfolding e_delnext
e_delnext-Kept s h =
    let l = Placed-le s h in
    if-Kept (s.cursor == s.last_char) _ _
      (λ t.
        if-Kept (not s.vi_mode) _ _ (λ t. h)
          (λ t.
            if-Kept (s.cursor == 0) _ _ (λ t. h)
              (λ t.
                delete_argument-Placed (move_cursor (s.cursor - 1) s)
                  (move-Placed (s.cursor - 1) s (omega arith) h))))
      (λ t. delete_argument-Placed s h)

pub e_delnext_eof-Kept : (s : Editor) → Placed s → Kept e_delnext_eof s
unfolding e_delnext_eof
e_delnext_eof-Kept s h =
    if-Kept (s.cursor == s.last_char && (not s.vi_mode && s.cursor == 0)) _ _ (λ t. h)
      (λ t. e_delnext-Kept s h)

list_at_end-Kept : (s : Editor) → Placed s → Kept list_at_end s
unfolding Placed
list_at_end-Kept s h = (h.0, h.1, h.2, omega (arith, put-top s.last_char 0 s.input_buf, h.1, h.3))

pub e_delnext_list-Kept : (s : Editor) → Placed s → Kept e_delnext_list s
unfolding e_delnext_list
e_delnext_list-Kept s h =
    if-Kept (s.cursor == s.last_char) _ _ (λ t. list_at_end-Kept s h)
      (λ t. delete_argument-Placed s h)

pub e_delnext_list_eof-Kept : (s : Editor) → Placed s → Kept e_delnext_list_eof s
unfolding e_delnext_list_eof
e_delnext_list_eof-Kept s h =
    if-Kept (s.cursor == s.last_char) _ _
      (λ t. if-Kept (s.cursor == 0) _ _ (λ t. h) (λ t. list_at_end-Kept s h))
      (λ t. delete_argument-Placed s h)

pub e_list_eof-Kept : (s : Editor) → Placed s → Kept e_list_eof s
unfolding e_list_eof
e_list_eof-Kept s h =
    if-Kept (s.cursor == s.last_char && s.cursor == 0) _ _ (λ t. h) (λ t. list_at_end-Kept s h)

pub kills-Placed : (k : KillRing) (s : Editor) → Placed s → Placed (record s { kills = k })
unfolding Placed
kills-Placed k s h = h

push_range-Placed :
    (dup : KillDup) (from to : ℕ) (s : Editor) → Placed s → Placed (push_range dup from to s)
unfolding Placed
push_range-Placed dup from to s h = h

pub e_delwordprev-Kept :
    (ch : Chars) (dup : KillDup) (s : Editor) → Placed s → Kept (e_delwordprev ch dup) s
unfolding e_delwordprev
e_delwordprev-Kept ch dup s h =
    let cp = c_prev_word ch s.input_buf.cells s.vi_mode s.cursor s.argument in
    let t = push_range dup cp s.cursor s in
    if-Kept (s.cursor == 0) _ _ (λ t. h)
      (λ _. c_delbefore-Placed (s.cursor - cp) t (push_range-Placed dup cp s.cursor s h))

delete_up_to-Kept : (dup : KillDup) (cp : ℕ) (s : Editor) → Placed s → Kept (delete_up_to dup cp) s
delete_up_to-Kept dup cp s h =
    let p = push_range dup s.cursor cp s in
    let t = c_delafter (cp - s.cursor) p in
    if-Kept (ltb cp s.cursor) _ _ (λ t. h)
      (λ _.
        clamped-Placed t
          (c_delafter-Placed (cp - s.cursor) p (push_range-Placed dup s.cursor cp s h)))

pub e_delwordnext-Kept :
    (ch : Chars) (dup : KillDup) (s : Editor) → Placed s → Kept (e_delwordnext ch dup) s
unfolding e_delwordnext
e_delwordnext-Kept ch dup s h =
    if-Kept (s.cursor == s.last_char) _ _ (λ t. h)
      (λ t. at_next_word-Kept ch (delete_up_to dup) s h (λ p l. delete_up_to-Kept dup p s h))

pub e_killend-Kept : (dup : KillDup) (s : Editor) → Placed s → Kept (e_killend dup) s
unfolding e_killend Placed
e_killend-Kept dup s h = ground (arith, h)

mark_minus-Within : (c n l : ℕ) (m : Option ℕ) → MarkWithin l m → MarkWithin l (mark_minus c n m)
mark_minus-Within c n l none h = tt
mark_minus-Within c n l (some m) h = ground arith

pub mark-Placed :
    (m : Option ℕ) (s : Editor)
    → MarkWithin s.last_char m
    → Placed s
    → Placed (record s { mark = m })
unfolding Placed
mark-Placed m s k h = (h.0, h.1, k, h.3)

mark_is_set-Placed : (b : Bool) (s : Editor) → Placed s → Placed (record s { mark_is_set = b })
unfolding Placed
mark_is_set-Placed b s h = h

pub Placed-mark : (s : Editor) → Placed s → MarkWithin s.last_char s.mark
unfolding Placed
Placed-mark s h = h.2

pub e_killbeg-Kept : (dup : KillDup) (s : Editor) → Placed s → Kept (e_killbeg dup) s
unfolding e_killbeg
e_killbeg-Kept dup s h =
    let t = c_delbefore s.cursor (push_range dup 0 s.cursor s) in
    let k =
      c_delbefore-Placed s.cursor (push_range dup 0 s.cursor s)
        (push_range-Placed dup 0 s.cursor s h) in
    mark-Placed (mark_minus t.cursor t.cursor t.mark) t
      (mark_minus-Within t.cursor t.cursor t.last_char t.mark (Placed-mark t k)) k

pub e_killall-Kept : (dup : KillDup) (s : Editor) → Placed s → Kept (e_killall dup) s
unfolding e_killall Placed
e_killall-Kept dup s h = (omega arith, omega arith, omega arith, h.3)

pub with_mark-Kept :
    (m : Option ℕ) (f : ℕ → Command) (s : Editor)
    → Placed s
    → ((n : ℕ) → m ≡ some n → Kept (f n) s)
    → Kept (with_mark m f) s
with_mark-Kept none f s h k = h
with_mark-Kept (some n) f s h k = k n refl

kill_region-Kept : (dup : KillDup) (m : ℕ) (s : Editor) → Placed s → Kept (kill_region dup m) s
kill_region-Kept dup m s h =
    let p = push_range dup s.cursor m s in
    let q = push_range dup m s.cursor s in
    let t = c_delafter (m - s.cursor) p in
    let u = c_delbefore (s.cursor - m) q in
    let ht = c_delafter-Placed (m - s.cursor) p (push_range-Placed dup s.cursor m s h) in
    let hu = c_delbefore-Placed (s.cursor - m) q (push_range-Placed dup m s.cursor s h) in
    if-Kept (ltb s.cursor m) _ _
      (λ _.
        mark_is_set-Placed false (record t { mark = some t.cursor })
          (mark-Placed (some t.cursor) t (Placed-le t ht) ht))
      (λ _. mark_is_set-Placed false u hu)

pub e_killregion-Kept : (dup : KillDup) (s : Editor) → Placed s → Kept (e_killregion dup) s
unfolding e_killregion
e_killregion-Kept dup s h =
    with_mark-Kept s.mark (kill_region dup) s h (λ m e. kill_region-Kept dup m s h)

pub e_copyregion-Kept : (dup : KillDup) (s : Editor) → Placed s → Kept (e_copyregion dup) s
unfolding e_copyregion
e_copyregion-Kept dup s h = with_mark-Kept s.mark (copy_region dup) s h (λ m e.
    if-Placed (ltb s.cursor m) _ _ (λ t. push_range-Placed dup s.cursor m s h)
      (λ t. push_range-Placed dup m s.cursor s h))
