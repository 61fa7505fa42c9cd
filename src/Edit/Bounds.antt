-- ===== src/Edit/Bounds.antt =====
-- ed.chared.c: where Cursor, LastChar and Mark stand, and how far InputBuf is written.
pub mod Words
pub mod Typing
pub mod Moves
pub mod Deletes
pub mod Yanks
pub mod Searches
pub mod Vi
pub mod Loop
pub mod Args
pub mod Inside
pub mod Reach
use mcsh.Base.{
  ℕ, zero, suc, ◌+◌, ◌-◌, ◌≤◌, ◌<◌, min, max, Bool, true, false, Option, none, some, [], ◌∷◌, Str,
  length, arith, ◌≡◌, refl, ltb, leb, ◌==◌, if◌then◌else◌,
}
use mcsh.Edit.Buffer.{Buffer, put, move_up, move_down, copy, write}
use mcsh.Edit.State.{Done, Editor, inbufsize, input_lim}
use mcsh.Edit.Change.{mark_inserted, mark_deleted, c_insert, close_gap, c_delafter, c_delbefore}
use mcsh.Edit.Cells.{move_up-top, move_down-top, write-top, put-top}
use mcsh.Edit.Typing.{put_text}

abbrev pub MarkWithin : ℕ → Option ℕ → Type 0
MarkWithin n none = Unit
MarkWithin n (some m) = m ≤ n

-- The cursor and the mark are in the line, the line ends before InputLim, and nothing was ever
-- written behind the end of InputBuf.
unfoldable pub Placed : Editor → Type 0
Placed s =
    (s.cursor ≤ s.last_char)
    × (s.last_char < input_lim)
    × MarkWithin s.last_char s.mark
    × (s.input_buf.top ≤ inbufsize)

mark_inserted-Within :
    (c num l : ℕ) (m : Option ℕ) → MarkWithin l m → MarkWithin (l + num) (mark_inserted c num m)
mark_inserted-Within c num l none h = tt
mark_inserted-Within c num l (some m) h = ground arith

mark_deleted-Within :
    (c num l : ℕ) (m : Option ℕ)
    → c + num ≤ l
    → MarkWithin l m
    → MarkWithin (l - num) (mark_deleted c num m)
mark_deleted-Within c num l none p h = tt
mark_deleted-Within c num l (some m) p h = ground arith

MarkWithin-le : (k l : ℕ) (m : Option ℕ) → k ≤ l → MarkWithin k m → MarkWithin l m
MarkWithin-le k l none p h = tt
MarkWithin-le k l (some m) p h = omega arith

pub c_insert-Placed : (num : ℕ) (s : Editor) → Placed s → Placed (c_insert num s)
unfolding c_insert Placed
c_insert-Placed num s h = ground (
  arith,
  mark_inserted-Within s.cursor num s.last_char s.mark h.2,
  MarkWithin-le s.last_char (s.last_char + num) s.mark (omega arith) h.2,
  move_up-top (suc (s.last_char - s.cursor)) s.cursor num s.input_buf,
)

pub close_gap-last : (at num : ℕ) (s : Editor) → (close_gap at num s).last_char ≡ s.last_char - num
unfolding close_gap
close_gap-last at num s = ground arith

close_gap-top :
    (at num : ℕ) (s : Editor)
    → at ≤ s.last_char
    → (close_gap at num s).input_buf.top ≤ max s.input_buf.top (suc s.last_char)
unfolding close_gap
close_gap-top at num s h = ground (
  arith,
  move_down-top (suc (s.last_char - at)) at num s.input_buf,
  move_down-top (suc (s.last_char - num) - at) at num s.input_buf,
)

pub close_gap-cursor : (at num : ℕ) (s : Editor) → (close_gap at num s).cursor ≡ s.cursor
unfolding close_gap
close_gap-cursor at num s = ground arith

pub c_delafter-Placed : (n : ℕ) (s : Editor) → Placed s → Placed (c_delafter n s)
unfolding c_delafter Placed
c_delafter-Placed n s h =
    let num = min n (s.last_char - s.cursor) in
    ground (
      arith,
      mark_deleted-Within s.cursor num s.last_char s.mark (omega arith) h.2,
      close_gap-last s.cursor num s,
      close_gap-cursor s.cursor num s,
      close_gap-top s.cursor num s h.0,
    )

pub c_delbefore-Placed : (n : ℕ) (s : Editor) → Placed s → Placed (c_delbefore n s)
unfolding c_delbefore Placed
c_delbefore-Placed n s h =
    let num = min n s.cursor in
    ground (
      arith,
      mark_deleted-Within (s.cursor - num) num s.last_char s.mark (omega arith) h.2,
      close_gap-last (s.cursor - num) num s,
      close_gap-top (s.cursor - num) num s (omega arith),
    )

pub c_insert-last :
    (num : ℕ) (s : Editor)
    → s.last_char + num < input_lim
    → (c_insert num s).last_char ≡ s.last_char + num
unfolding c_insert
c_insert-last num s h = ground arith

pub c_insert-cursor : (num : ℕ) (s : Editor) → (c_insert num s).cursor ≡ s.cursor
unfolding c_insert
c_insert-cursor num s = ground arith

pub put_text-Placed :
    (w : Str) (s : Editor) → s.cursor + length w ≤ s.last_char → Placed s → Placed (put_text w s)
unfolding put_text Placed
put_text-Placed w s p h = (p, h.1, h.2, omega (arith, write-top w s.cursor s.input_buf, h.3))

pub Placed-le : (s : Editor) → Placed s → s.cursor ≤ s.last_char
unfolding Placed
Placed-le s h = h.0

-- What a deletion leaves behind the cursor.
pub c_delafter-room :
    (n : ℕ) (s : Editor)
    → Placed s
    → ((c_delafter n s).cursor ≡ s.cursor) × ((c_delafter n s).last_char ≤ s.last_char)
unfolding c_delafter Placed
c_delafter-room n s h =
    let num = min n (s.last_char - s.cursor) in
    ground (arith, close_gap-last s.cursor num s, close_gap-cursor s.cursor num s)

pub c_delafter-last :
    (n : ℕ) (s : Editor)
    → Placed s
    → (c_delafter n s).last_char ≡ s.last_char - min n (s.last_char - s.cursor)
unfolding c_delafter Placed
c_delafter-last n s h = ground (arith, close_gap-last s.cursor (min n (s.last_char - s.cursor)) s)

pub c_delbefore-last :
    (n : ℕ) (s : Editor) → Placed s → (c_delbefore n s).last_char ≡ s.last_char - min n s.cursor
unfolding c_delbefore Placed
c_delbefore-last n s h =
    ground (arith, close_gap-last (s.cursor - min n s.cursor) (min n s.cursor) s)

-- The two branches of a test, each under what the test says.
pub if-Placed :
    (b : Bool) (s t : Editor)
    → (b ≡ true → Placed s)
    → (b ≡ false → Placed t)
    → Placed (if b then s else t)
if-Placed true s t h k = h refl
if-Placed false s t h k = k refl

pub if-Kept :
    (b : Bool) (d e : Done)
    → (b ≡ true → Placed d.editor)
    → (b ≡ false → Placed e.editor)
    → Placed (if b then d else e).editor
if-Kept true d e h k = h refl
if-Kept false d e h k = k refl
