-- ===== src/Edit/Bounds/Searches.antt =====
-- ed.chared.c: the bounds of the line under the searches for a character, and `e_tobeg`.
use mcsh.Base.{
  ℕ, zero, suc, ◌≤◌, ◌<◌, Bool, true, false, not, some, ◌&&◌, arith, ◌≡◌, ap, ◌⊎◌, inl, inr, leb,
  ◌==◌, if◌then◌else◌, Option-cases, Bool-cases, leb-false→lt, ==→≡,
}
use mcsh.Edit.State.{Editor, Chars, done, outside, inbufsize}
use mcsh.Edit.Word.{forth}
use mcsh.Edit.Move.{
  deletes, vi_moved_onto, move_cursor, e_tobeg, first_other, chars_forth, char_back, step_back,
  chars_back, v_csearch_back, v_csearch_fwd,
}
use mcsh.Edit.Bounds.{Placed, Placed-le, if-Kept}
use mcsh.Edit.Bounds.Typing.{Kept}
use mcsh.Edit.Bounds.Words.{chars_back_le, char_back_le, from_step}
use mcsh.Edit.Bounds.Moves.{move-Placed, to-Kept, onto_at-Kept, c_delfini-Placed}

-- A scan stops at a character that fails its test.
forth_stops :
    (test : ℕ → Bool) (f : ℕ → ℕ) (k p q : ℕ) → p ≤ q → test (f q) ≡ false → forth test f k p ≤ q
unfolding forth
forth_stops test f zero p q l h = l
forth_stops test f (suc k) p q l h = elim (Bool-cases (test (f p))) [
  | inl e ↦ rw e (forth_stops test f k (suc p) q (passes e) h)
  | inr e ↦ rw e l
]
  where
    passes : test (f p) ≡ true → suc p ≤ q
    passes e = elim (Bool-cases (p == q)) [
      | inl s ↦ absurd (ground (arith, ap (λ n. test (f n)) (==→≡ p q s)))
      | inr d ↦ ground (arith, l, d)
    ]

-- In vi mode the character behind the line is to be no space, for the scan to stop there.
abbrev pub EndsOther : Chars → Editor → Type 0
EndsOther ch s = (s.vi_mode ≡ false) ⊎ (ch.is_space (s.input_buf.cells s.last_char) ≡ false)

pub first_other-le :
    (ch : Chars) (s : Editor) → EndsOther ch s → Placed s → first_other ch s ≤ s.last_char
unfolding Placed
first_other-le ch s (inl e) h = rw e (omega arith)
first_other-le ch s (inr e) h =
    let l =
      forth_stops ch.is_space s.input_buf.cells inbufsize 0 s.last_char (omega (arith, h.1)) e in
    elim (Bool-cases s.vi_mode) [ inl v ↦ rw v l | inr v ↦ rw v (omega arith) ]

pub e_tobeg-Kept : (ch : Chars) (s : Editor) → EndsOther ch s → Placed s → Kept (e_tobeg ch) s
unfolding e_tobeg
e_tobeg-Kept ch s ends h =
    let p = first_other ch s in
    if-Kept (leb inbufsize p) _ _ (λ t. h) (λ t. to-Kept p s (first_other-le ch s ends h) h)

-- One round of the search backwards goes back, or ends at a start that does not match.
round_back :
    (c : ℕ) (f : ℕ → ℕ) (p r : ℕ)
    → step_back c f p ≡ some r
    → (char_back c f r < p) ⊎ ((char_back c f r ≡ 0) × ((f 0 == c) ≡ false))
unfolding char_back
round_back c f zero r e = ground arith
round_back c f (suc p) r e = elim (Bool-cases (f (suc p) == c)) [
  | inl t ↦
      let q : p ≡ r = ground (arith, e, t) in inl (rw (← q) (omega (arith, char_back_le c f p)))
  | inr t ↦
      let q : suc p ≡ r = ground (arith, e, t) in
      inl (rw (← q, t) (omega (arith, char_back_le c f p)))
]

-- A search for at least one character goes back, or fails.
chars_back_lt :
    (c : ℕ) (f : ℕ → ℕ) (n p q : ℕ)
    → chars_back c f (suc n) p ≡ some q
    → (q < p) ⊎ ((q ≡ 0) × ((f 0 == c) ≡ false))
unfolding chars_back
chars_back_lt c f n p q h =
    let (r, e, k) = from_step (step_back c f p) (λ r. chars_back c f n (char_back c f r)) q h in
    let l = chars_back_le c f n (char_back c f r) q k in
    elim (round_back c f p r e) [
      | inl b ↦ inl (omega (arith, l, b))
      | inr b ↦ inr (omega (arith, l, b.0), b.1)
    ]

-- What a search backwards with a delete pending wants: a character of the line under the cursor.
abbrev pub AtChar : Bool → Editor → Type 0
AtChar tflag s = (tflag ≡ false) ⊎ ((deletes s.action_flag ≡ false) ⊎ (s.cursor < s.last_char))

found_back :
    (c p : ℕ) (tflag : Bool) (s : Editor)
    → p < s.cursor
    → AtChar tflag s
    → Placed s
    → Kept
        (λ s.
          vi_moved_onto (move_cursor (if s.input_buf.cells p == c && tflag then suc p else p) s))
        s
found_back c p tflag s l at h =
    let q = if s.input_buf.cells p == c && tflag then suc p else p in
    let le = Placed-le s h in
    let t = move_cursor q s in
    let ht = move-Placed q s (ground arith) h in
    if-Kept (deletes s.action_flag) _ _
      (λ d. c_delfini-Placed (move_cursor (suc q) s) (move-Placed (suc q) s (ground arith) h))
      (λ d. ht)

pub v_csearch_back-Kept :
    (c n : ℕ) (tflag : Bool) (s : Editor)
    → AtChar tflag s
    → Placed s
    → Kept (v_csearch_back c (suc n) tflag) s
unfolding v_csearch_back
v_csearch_back-Kept c n tflag s at h = elim (Option-cases (chars_back c f (suc n) s.cursor)) [
  | inl e ↦ rw (e, v_csearch_back) h
  | inr (p, e) ↦
      rw (e, v_csearch_back)
        (if-Kept (p == 0 && not (f 0 == c)) _ _ (λ t. h)
          (λ t. found_back c p tflag s (back p e t) at h))
]
  where
    f : ℕ → ℕ
    f = s.input_buf.cells

    back :
        (p : ℕ)
        → chars_back c f (suc n) s.cursor ≡ some p
        → (p == 0 && not (f 0 == c)) ≡ false
        → p < s.cursor
    back p e t = elim (chars_back_lt c f n s.cursor p e) [
      | inl b ↦ b
      | inr b ↦ absurd (ground (arith, b.0, b.1, t))
    ]

pub v_csearch_fwd-Kept :
    (c n : ℕ) (tflag : Bool) (s : Editor) → Placed s → Kept (v_csearch_fwd c n tflag) s
unfolding v_csearch_fwd
v_csearch_fwd-Kept c n tflag s h =
    let f = s.input_buf.cells in
    let p = chars_forth c f s.last_char n s.cursor in
    if-Kept (leb s.last_char p) _ _ (λ t. h)
      (λ t.
        let l = leb-false→lt s.last_char p t in
        if-Kept (f p == c && tflag) _ _ (λ _. before p l) (λ _. onto_at-Kept p s l h))
  where
    before :
        (p : ℕ)
        → p < s.last_char
        → Kept (λ s. elim p [ zero ↦ done outside s | suc q ↦ vi_moved_onto (move_cursor q s) ]) s
    before zero l = h
    before (suc q) l = onto_at-Kept q s (omega arith) h
