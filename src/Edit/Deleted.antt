-- ===== src/Edit/Deleted.antt =====
-- ed.chared.c: the text of the line after a deletion.
use mcsh.Base.{
  ℕ, zero, suc, ◌+◌, ◌-◌, ◌≤◌, ◌<◌, min, false, [], ◌∷◌, arith, ◌≡◌, take, drop, leb-false→lt,
  leb→le, ==→≡, refl, sym, ap, ◌∙◌, leb, ◌==◌, Bool-cases, inl, inr,
}
use mcsh.Edit.Buffer.{slice}
use mcsh.Edit.State.{Editor}
use mcsh.Edit.Change.{close_gap, c_delafter, c_delbefore}
use mcsh.Edit.Cells.{move_down-cells}
use mcsh.Edit.Bounds.{close_gap-last, close_gap-cursor}
use mcsh.Edit.Text.{before, after, slice-ext}

-- A deletion at an index leaves what is before it, and moves down what is behind.
pub close_gap-before :
    (at num j : ℕ) (s : Editor)
    → j < at
    → (close_gap at num s).input_buf.cells j ≡ s.input_buf.cells j
unfolding close_gap
close_gap-before at num j s l = ground (
  arith,
  move_down-cells (suc (s.last_char - at)) at num j s.input_buf,
  move_down-cells (suc (s.last_char - num) - at) at num j s.input_buf,
)

pub close_gap-behind :
    (at num j : ℕ) (s : Editor)
    → at + j + num < s.last_char
    → (close_gap at num s).input_buf.cells (at + j) ≡ s.input_buf.cells (at + j + num)
unfolding close_gap
close_gap-behind at num j s l = ground (
  arith,
  move_down-cells (suc (s.last_char - at)) at num (at + j) s.input_buf,
  move_down-cells (suc (s.last_char - num) - at) at num (at + j) s.input_buf,
)

closed-before :
    (at num : ℕ) (s : Editor)
    → slice at (close_gap at num s).input_buf.cells 0 ≡ slice at s.input_buf.cells 0
closed-before at num s =
    slice-ext at (close_gap at num s).input_buf.cells s.input_buf.cells 0 0
      (λ j l. close_gap-before at num (0 + j) s (omega arith))

closed-behind :
    (at num n : ℕ) (s : Editor)
    → at + num + n ≤ s.last_char
    → slice n (close_gap at num s).input_buf.cells at ≡ slice n s.input_buf.cells (at + num)
closed-behind at num n s l =
    slice-ext n (close_gap at num s).input_buf.cells s.input_buf.cells at (at + num) (λ j k.
      let e : at + num + j ≡ at + j + num = omega arith in
      rw e (close_gap-behind at num j s (omega arith)))

drop-slice : (n m : ℕ) (f : ℕ → ℕ) (i : ℕ) → drop n (slice m f i) ≡ slice (m - n) f (i + n)
drop-slice zero m f i =
    let e : m - 0 ≡ m = omega arith in let e' : i + 0 ≡ i = omega arith in rw (e, e')
drop-slice (suc n) zero f i = let e : 0 - suc n ≡ 0 = omega arith in rw e
drop-slice (suc n) (suc m) f i =
    let e : suc m - suc n ≡ m - n = omega arith in
    let e' : i + suc n ≡ suc i + n = omega arith in rw (e, e') (drop-slice n m f (suc i))

take-slice : (k m : ℕ) (f : ℕ → ℕ) (i : ℕ) → k ≤ m → take k (slice m f i) ≡ slice k f i
take-slice zero m f i l = refl
take-slice (suc k) zero f i l = absurd (omega (arith, l))
take-slice (suc k) (suc m) f i l = ap (λ xs. f i ∷ xs) (take-slice k m f (suc i) (omega arith))

slice-none : (n : ℕ) (f : ℕ → ℕ) (i : ℕ) → n ≡ 0 → slice n f i ≡ []
slice-none n f i e = rw e refl

-- Where nothing is there to delete, and where something is.
c_delafter-none : (n : ℕ) (s : Editor) → min n (s.last_char - s.cursor) ≡ 0 → c_delafter n s ≡ s
unfolding c_delafter
c_delafter-none n s e = rw (e, c_delafter) refl

c_delafter-some :
    (n : ℕ) (s : Editor)
    → (min n (s.last_char - s.cursor) == 0) ≡ false
    → ((c_delafter n s).input_buf
        ≡ (close_gap s.cursor (min n (s.last_char - s.cursor)) s).input_buf)
      × ((c_delafter n s).cursor ≡ s.cursor)
      × ((c_delafter n s).last_char ≡ s.last_char - min n (s.last_char - s.cursor))
unfolding c_delafter
c_delafter-some n s e =
    rw (e, c_delafter)
      (
        refl,
        close_gap-cursor s.cursor (min n (s.last_char - s.cursor)) s,
        close_gap-last s.cursor (min n (s.last_char - s.cursor)) s,
      )

drop-none : (n m : ℕ) (f : ℕ → ℕ) (i : ℕ) → min n m ≡ 0 → slice m f i ≡ drop n (slice m f i)
drop-none zero m f i e = refl
drop-none (suc n) m f i e = let z : m ≡ 0 = omega (arith, e) in rw (z) refl

-- The rest of the text behind what is deleted, where there may be less than was asked for.
drop-rest :
    (n m : ℕ) (f : ℕ → ℕ) (i : ℕ) → slice (m - min n m) f (i + min n m) ≡ drop n (slice m f i)
drop-rest n m f i = elim (Bool-cases (leb n m)) [
  | inl e ↦ let q : min n m ≡ n = omega (arith, leb→le n m e) in rw q (sym (drop-slice n m f i))
  | inr e ↦
      let q : m - min n m ≡ 0 = omega (arith, leb-false→lt n m e) in
      let z : m - n ≡ 0 = omega (arith, leb-false→lt n m e) in
      rw q (sym (drop-slice n m f i ∙ slice-none (m - n) f (i + n) z))
]

-- Characters behind the cursor are gone, as many as asked for and as there are.
pub c_delafter-text :
    (n : ℕ) (s : Editor)
    → s.cursor ≤ s.last_char
    → (before (c_delafter n s) ≡ before s) × (after (c_delafter n s) ≡ drop n (after s))
c_delafter-text n s l =
    let m = s.last_char - s.cursor in
    let f = s.input_buf.cells in
    elim (Bool-cases (min n m == 0)) [
      | inl e ↦
          rw (c_delafter-none n s (==→≡ (min n m) 0 e))
            (refl, drop-none n m f s.cursor (==→≡ (min n m) 0 e))
      | inr e ↦
          let (eb, ec, el) = c_delafter-some n s e in
          let g = (close_gap s.cursor (min n m) s).input_buf.cells in
          let en : (c_delafter n s).last_char - (c_delafter n s).cursor ≡ m - min n m =
            omega (arith, ec, el) in
          let e1 : slice (c_delafter n s).cursor (c_delafter n s).input_buf.cells 0
              ≡ slice s.cursor f 0 =
            rw (ec, eb) (closed-before s.cursor (min n m) s) in
          let e2 : slice ((c_delafter n s).last_char - (c_delafter n s).cursor)
                (c_delafter n s).input_buf.cells (c_delafter n s).cursor
              ≡ drop n (slice m f s.cursor) =
            rw (en, ec, eb)
              (closed-behind s.cursor (min n m) (m - min n m) s (omega (arith, l))
                ∙ drop-rest n m f s.cursor) in
          (e1, e2)
    ]

c_delbefore-none : (n : ℕ) (s : Editor) → min n s.cursor ≡ 0 → c_delbefore n s ≡ s
unfolding c_delbefore
c_delbefore-none n s e = rw (e, c_delbefore) refl

c_delbefore-some :
    (n : ℕ) (s : Editor)
    → (min n s.cursor == 0) ≡ false
    → ((c_delbefore n s).input_buf
        ≡ (close_gap (s.cursor - min n s.cursor) (min n s.cursor) s).input_buf)
      × ((c_delbefore n s).cursor ≡ s.cursor - min n s.cursor)
      × ((c_delbefore n s).last_char ≡ s.last_char - min n s.cursor)
unfolding c_delbefore
c_delbefore-some n s e =
    rw (e, c_delbefore) (refl, refl, close_gap-last (s.cursor - min n s.cursor) (min n s.cursor) s)

-- Characters before the cursor are gone, as many as asked for and as there are.
pub c_delbefore-text :
    (n : ℕ) (s : Editor)
    → s.cursor ≤ s.last_char
    → (before (c_delbefore n s) ≡ take (s.cursor - n) (before s))
      × (after (c_delbefore n s) ≡ after s)
c_delbefore-text n s l =
    let c = s.cursor in
    let f = s.input_buf.cells in
    let k = min n c in
    let rest : slice (c - k) f 0 ≡ take (c - n) (slice c f 0) =
      (let q : c - k ≡ c - n = omega arith in
        rw q (sym (take-slice (c - n) c f 0 (omega arith)))) in
    elim (Bool-cases (k == 0)) [
      | inl e ↦
          let z : c ≡ c - k = omega (arith, ==→≡ k 0 e) in
          rw (c_delbefore-none n s (==→≡ k 0 e)) (ap (λ j. slice j f 0) z ∙ rest, refl)
      | inr e ↦
          let (eb, ec, el) = c_delbefore-some n s e in
          let en : (c_delbefore n s).last_char - (c_delbefore n s).cursor ≡ s.last_char - c =
            omega (arith, ec, el, l) in
          let ek : c - k + k ≡ c = omega arith in
          let e1 : slice (c_delbefore n s).cursor (c_delbefore n s).input_buf.cells 0
              ≡ take (c - n) (slice c f 0) =
            rw (ec, eb) (closed-before (c - k) k s ∙ rest) in
          let e2 : slice ((c_delbefore n s).last_char - (c_delbefore n s).cursor)
                (c_delbefore n s).input_buf.cells (c_delbefore n s).cursor
              ≡ slice (s.last_char - c) f c =
            rw (en, ec, eb)
              (closed-behind (c - k) k (s.last_char - c) s (omega (arith, l))
                ∙ ap (λ i. slice (s.last_char - c) f i) ek) in
          (e1, e2)
    ]
