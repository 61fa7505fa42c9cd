-- ===== src/Edit/Text.antt =====
-- ed.chared.c: the text of the line before and behind the cursor, and what inserting and deleting
-- make of it.
use mcsh.Base.{
  ℕ, zero, suc, ◌+◌, ◌-◌, ◌≤◌, ◌<◌, true, false, [], ◌∷◌, ◌++◌, Str, length, arith, ◌≡◌, ◌||◌,
  leb-false→lt, refl, ap, ◌∙◌, leb, ◌==◌, if◌then◌else◌, Bool-cases, inl, inr,
}
use mcsh.Edit.Buffer.{Buffer, put, write, slice}
use mcsh.Edit.State.{Editor, Done, done, input_lim, text, norm, error}
use mcsh.Edit.Change.{c_insert}
use mcsh.Edit.Cells.{move_up-cells, put-cells, write-outside}
use mcsh.Edit.Typing.{put_text, insert_str}
use mcsh.Edit.Bounds.{c_insert-last, c_insert-cursor}

abbrev pub before : Editor → Str
before s = slice s.cursor s.input_buf.cells 0

abbrev pub after : Editor → Str
after s = slice (s.last_char - s.cursor) s.input_buf.cells s.cursor

-- Two ranges with the same characters.
pub slice-ext :
    (n : ℕ) (f g : ℕ → ℕ) (i k : ℕ)
    → ((j : ℕ) → j < n → f (i + j) ≡ g (k + j))
    → slice n f i ≡ slice n g k
slice-ext zero f g i k h = refl
slice-ext (suc n) f g i k h =
    let head : f i ≡ g k =
      (let e : i + 0 ≡ i = omega arith in
        let e' : k + 0 ≡ k = omega arith in cc (h 0 (omega arith), e, e')) in
    let tail = slice-ext n f g (suc i) (suc k) (λ j l.
      let e : suc i + j ≡ i + suc j = omega arith in
      let e' : suc k + j ≡ k + suc j = omega arith in cc (h (suc j) (omega arith), e, e')) in
    cc (head, tail)

pub slice-append :
    (m n : ℕ) (f : ℕ → ℕ) (i : ℕ) → slice (m + n) f i ≡ slice m f i ++ slice n f (i + m)
slice-append zero n f i =
    let e : 0 + n ≡ n = omega arith in let e' : i + 0 ≡ i = omega arith in rw (e, e')
slice-append (suc m) n f i =
    let e : suc m + n ≡ suc (m + n) = omega arith in
    let e' : i + suc m ≡ suc i + m = omega arith in
    rw (e, e') (ap (λ xs. f i ∷ xs) (slice-append m n f (suc i)))

pub text-split : (s : Editor) → s.cursor ≤ s.last_char → text s ≡ before s ++ after s
text-split s l =
    let e : s.last_char ≡ s.cursor + (s.last_char - s.cursor) = omega arith in
    let e' : 0 + s.cursor ≡ s.cursor = omega arith in
    ap (λ n. slice n s.input_buf.cells 0) e
    ∙ slice-append s.cursor (s.last_char - s.cursor) s.input_buf.cells 0
    ∙ ap (λ i. before s ++ slice (s.last_char - s.cursor) s.input_buf.cells i) e'

pub length-slice : (n : ℕ) (f : ℕ → ℕ) (i : ℕ) → length (slice n f i) ≡ n
length-slice zero f i = refl
length-slice (suc n) f i = omega (arith, length-slice n f (suc i))

-- Written text stands where it was written.
pub write-slice : (w : Str) (dp : ℕ) (b : Buffer) → slice (length w) (write w dp b).cells dp ≡ w
unfolding write
write-slice [] dp b = refl
write-slice (c ∷ w) dp b =
    let head : (write w (suc dp) (put dp c b)).cells dp ≡ c =
      ground (arith, write-outside w (suc dp) dp (put dp c b), put-cells dp c dp b) in
    cc (head, write-slice w (suc dp) (put dp c b))

pub write-before : (w : Str) (dp j : ℕ) (b : Buffer) → j < dp → (write w dp b).cells j ≡ b.cells j
write-before w dp j b l = ground (arith, write-outside w dp j b)

pub write-behind :
    (w : Str) (dp j : ℕ) (b : Buffer) → dp + length w ≤ j → (write w dp b).cells j ≡ b.cells j
write-behind w dp j b l = ground (arith, write-outside w dp j b)

-- A gap leaves what is before the cursor, and moves up what is behind it.
pub c_insert-before :
    (num j : ℕ) (s : Editor)
    → j < s.cursor
    → (c_insert num s).input_buf.cells j ≡ s.input_buf.cells j
unfolding c_insert
c_insert-before num j s l =
    ground (arith, move_up-cells (suc (s.last_char - s.cursor)) s.cursor num j s.input_buf)

pub c_insert-behind :
    (num j : ℕ) (s : Editor)
    → s.last_char + num < input_lim
    → s.cursor + j < s.last_char
    → (c_insert num s).input_buf.cells (s.cursor + num + j) ≡ s.input_buf.cells (s.cursor + j)
unfolding c_insert
c_insert-behind num j s h l =
    let e : s.cursor + num + j - num ≡ s.cursor + j = omega arith in
    ground (
      arith,
      ap s.input_buf.cells e,
      move_up-cells (suc (s.last_char - s.cursor)) s.cursor num (s.cursor + num + j) s.input_buf,
    )

written-before :
    (w : Str) (c : ℕ) (b : Buffer)
    → slice (c + length w) (write w c b).cells 0 ≡ slice c b.cells 0 ++ w
written-before w c b =
    let f = (write w c b).cells in
    let e' : 0 + c ≡ c = omega arith in
    let old : slice c f 0 ≡ slice c b.cells 0 =
      slice-ext c f b.cells 0 0 (λ j l. write-before w c (0 + j) b (omega arith)) in
    slice-append c (length w) f 0
    ∙ ap (λ i. slice c f 0 ++ slice (length w) f i) e'
    ∙ ap (λ xs. xs ++ slice (length w) f c) old
    ∙ ap (λ ys. slice c b.cells 0 ++ ys) (write-slice w c b)

written-behind :
    (w : Str) (c n : ℕ) (b : Buffer)
    → slice n (write w c b).cells (c + length w) ≡ slice n b.cells (c + length w)
written-behind w c n b =
    slice-ext n (write w c b).cells b.cells (c + length w) (c + length w)
      (λ j l. write-behind w c (c + length w + j) b (omega arith))

-- What replaces the text before the cursor, with the rest as it is.
abbrev pub Inserted : Str → Editor → Editor → Type 0
Inserted w s t = (before t ≡ before s ++ w) × (after t ≡ after s) × (t.cursor ≤ t.last_char)

-- Text that is put into a gap of its length is inserted at the cursor.
pub put_text-Inserted :
    (w : Str) (s : Editor)
    → s.last_char + length w < input_lim
    → s.cursor ≤ s.last_char
    → Inserted w s (put_text w (c_insert (length w) s))
unfolding put_text
put_text-Inserted w s h l =
    let t = c_insert (length w) s in
    let b = t.input_buf in
    let c = s.cursor in
    let ec = c_insert-cursor (length w) s in
    let el = c_insert-last (length w) s h in
    let n = s.last_char - c in
    let old =
      slice-ext c b.cells s.input_buf.cells 0 0
        (λ j k. c_insert-before (length w) (0 + j) s (omega arith)) in
    let moved =
      slice-ext n b.cells s.input_buf.cells (c + length w) c
        (λ j k. c_insert-behind (length w) j s h (omega arith)) in
    let en : t.last_char - (c + length w) ≡ n = omega (arith, el, l) in
    let e1 : slice (t.cursor + length w) (write w t.cursor b).cells 0
        ≡ slice c s.input_buf.cells 0 ++ w =
      rw ec (written-before w c b ∙ ap (λ xs. xs ++ w) old) in
    let e2 : slice (t.last_char - (t.cursor + length w)) (write w t.cursor b).cells
          (t.cursor + length w)
        ≡ slice n s.input_buf.cells c =
      rw (ec, en) (written-behind w c n b ∙ moved) in
    (e1, e2, omega (arith, ec, el, l))

-- What `InsertStr` promises.
abbrev pub InsertMeets : Str → Editor → Done → Type 0
InsertMeets w s d =
    if length w == 0 || leb input_lim (s.last_char + length w)
    then d ≡ done error s
    else ((d.ret ≡ norm) × Inserted w s d.editor)

insert_str-refused :
    (w : Str) (s : Editor)
    → (length w == 0 || leb input_lim (s.last_char + length w)) ≡ true
    → insert_str w s ≡ done error s
unfolding insert_str
insert_str-refused w s h = elim (Bool-cases (length w == 0)) [
  | inl e ↦ rw (e, insert_str) refl
  | inr e ↦
      let f : leb input_lim (s.last_char + length w) ≡ true = ground (arith, h, e) in
      rw (e, f, insert_str) refl
]

insert_str-done :
    (w : Str) (s : Editor)
    → (length w == 0 || leb input_lim (s.last_char + length w)) ≡ false
    → insert_str w s ≡ done norm (put_text w (c_insert (length w) s))
unfolding insert_str
insert_str-done w s h =
    let e : (length w == 0) ≡ false = ground (arith, h) in
    let f : leb input_lim (s.last_char + length w) ≡ false = ground (arith, h) in
    rw (e, f, insert_str) refl

-- An empty text and one that does not fit are refused and change nothing; any other is inserted at
-- the cursor, with the text on both sides as it was.
pub insert_str-InsertMeets :
    (w : Str) (s : Editor) → s.cursor ≤ s.last_char → InsertMeets w s (insert_str w s)
insert_str-InsertMeets w s l =
    elim (Bool-cases (length w == 0 || leb input_lim (s.last_char + length w))) [
      | inl e ↦ rw e (insert_str-refused w s e)
      | inr e ↦
          let f : leb input_lim (s.last_char + length w) ≡ false = ground (arith, e) in
          let k = put_text-Inserted w s (leb-false→lt input_lim (s.last_char + length w) f) l in
          rw (e, insert_str-done w s e) (refl, k)
    ]
