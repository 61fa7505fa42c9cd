-- ===== src/Edit/Undo.antt =====
-- ed.chared.c: a deletion in vi mode, and what undo makes of it.
use mcsh.Base.{
  ℕ, suc, ◌+◌, ◌-◌, ◌≤◌, ◌<◌, min, Bool, true, false, arith, ◌≡◌, refl, ap, ◌∙◌, ltb, leb, ◌==◌,
  ◌&&◌, if◌then◌else◌, Bool-cases, inl, inr, ltb→lt,
}
use mcsh.Edit.Buffer.{copy}
use mcsh.Edit.State.{Editor, undo_insert, input_lim, text}
use mcsh.Edit.Change.{c_insert, close_gap, c_delafter}
use mcsh.Edit.Vi.{undo_deletion, undo_by, v_undo}
use mcsh.Edit.Cells.{copy-cells}
use mcsh.Edit.Text.{slice-ext, c_insert-before, c_insert-behind}
use mcsh.Edit.Deleted.{close_gap-before, close_gap-behind}
use mcsh.Edit.Bounds.{c_insert-last}

-- A deletion in vi mode, and what it saves.
deleted-fields :
    (n : ℕ) (s : Editor)
    → s.vi_mode ≡ true
    → (min n (s.last_char - s.cursor) == 0) ≡ false
    → (let num = min n (s.last_char - s.cursor) in
        let t = c_delafter n s in
        (t.undo_action ≡ undo_insert)
        × (t.undo_size ≡ num)
        × (t.undo_ptr ≡ s.cursor)
        × (t.last_char ≡ s.last_char - num)
        × (t.input_buf ≡ (close_gap s.cursor num s).input_buf)
        × (t.undo_buf
            ≡ copy (suc (s.last_char - s.cursor)) s.input_buf.cells s.cursor 0 s.undo_buf))
unfolding c_delafter close_gap
deleted-fields n s v e = rw (e, v, c_delafter, close_gap) (refl, refl, refl, refl, refl, refl)

c_insert-undo : (n : ℕ) (s : Editor) → (c_insert n s).undo_buf ≡ s.undo_buf
unfolding c_insert
c_insert-undo n s = ground arith

-- The cells of a line into which the saved text is put back.
undo_deletion-cells :
    (t : Editor) (j : ℕ)
    → (undo_deletion t).input_buf.cells j ≡ (
        if leb t.undo_ptr j && ltb j (t.undo_ptr + t.undo_size)
        then t.undo_buf.cells (j - t.undo_ptr)
        else (c_insert t.undo_size (record t { cursor = t.undo_ptr })).input_buf.cells j)
unfolding undo_deletion
undo_deletion-cells t j =
    let u = c_insert t.undo_size (record t { cursor = t.undo_ptr }) in
    let e = c_insert-undo t.undo_size (record t { cursor = t.undo_ptr }) in
    let z : 0 + (j - t.undo_ptr) ≡ j - t.undo_ptr = omega arith in
    copy-cells t.undo_size u.undo_buf.cells 0 t.undo_ptr j u.input_buf ∙ rw (e, z) refl

beyond : (b : Bool) (x y : ℕ) → (if b && false then x else y) ≡ y
beyond b x y = ground arith

-- What a deletion and its undo leave of a character of the line.
restored :
    (n j : ℕ) (s : Editor)
    → s.vi_mode ≡ true
    → (min n (s.last_char - s.cursor) == 0) ≡ false
    → s.cursor ≤ s.last_char
    → s.last_char < input_lim
    → j < s.last_char
    → (undo_deletion (c_delafter n s)).input_buf.cells j ≡ s.input_buf.cells j
restored n j s v e l h d =
    let m = s.last_char - s.cursor in
    let num = min n m in
    let t = c_delafter n s in
    let (ea, es, ep, el, eb, eu) = deleted-fields n s v e in
    let t' = record t { cursor = t.undo_ptr } in
    let kept = undo_deletion-cells t j in
    let i = j - (s.cursor + num) in
    let saved = copy-cells (suc m) s.input_buf.cells s.cursor 0 (j - s.cursor) s.undo_buf in
    let at_front = c_insert-before t.undo_size j t' in
    let front = close_gap-before s.cursor num j s in
    let at_back = c_insert-behind t.undo_size i t' in
    let back = close_gap-behind s.cursor num i s in
    elim (Bool-cases (ltb j s.cursor)) [
      | inl p ↦
          let b : leb t.undo_ptr j ≡ false = ground (arith, p, ep) in
          let f : t.input_buf.cells j ≡ s.input_buf.cells j = rw eb (front (ltb→lt j s.cursor p)) in
          rw (kept, b) (at_front (omega (arith, ltb→lt j s.cursor p, ep)) ∙ f)
      | inr p ↦
          let le : s.cursor ≤ j = ground (arith, p) in
          elim (Bool-cases (ltb j (s.cursor + num))) [
            | inl q ↦
                let b : leb t.undo_ptr j ≡ true = ground (arith, le, ep) in
                let b' : ltb j (t.undo_ptr + t.undo_size) ≡ true = ground (arith, q, ep, es) in
                let z : s.cursor + (j - s.cursor - 0) ≡ j = omega (arith, le) in
                let c : ltb (j - s.cursor) (0 + suc m) ≡ true = ground (arith, d, le, l) in
                let c' : leb 0 (j - s.cursor) ≡ true = ground arith in
                let f : t.undo_buf.cells (j - s.cursor) ≡ s.input_buf.cells j =
                  rw eu (rw (c', c, z) at saved) in
                rw (kept, b, b', ep) f
            | inr q ↦
                let b' : ltb j (t.undo_ptr + t.undo_size) ≡ false = ground (arith, q, ep, es) in
                let k : s.cursor + num ≤ j = ground (arith, q) in
                let z : j ≡ t.undo_ptr + t.undo_size + i = omega (arith, k, ep, es) in
                let y : s.cursor + i + num ≡ j = omega (arith, k) in
                let f : t.input_buf.cells (t.undo_ptr + i) ≡ s.input_buf.cells j =
                  rw (ep, eb) (back (omega (arith, k, d)) ∙ ap s.input_buf.cells y) in
                rw (kept, b')
                  (beyond (leb t.undo_ptr j) (t.undo_buf.cells (j - t.undo_ptr))
                      ((c_insert t.undo_size t').input_buf.cells j)
                    ∙ ap (c_insert t.undo_size t').input_buf.cells z
                    ∙ at_back (omega (arith, el, es, h, l)) (omega (arith, ep, el, k, d))
                    ∙ f)
          ]
    ]

v_undo-insert :
    (t : Editor)
    → t.undo_action ≡ undo_insert
    → (t.undo_size == 0) ≡ false
    → (v_undo t).editor ≡ undo_deletion t
unfolding v_undo undo_by
v_undo-insert t e z = rw (e, v_undo, z) refl

undo_deletion-last :
    (t : Editor)
    → t.last_char + t.undo_size < input_lim
    → (undo_deletion t).last_char ≡ t.last_char + t.undo_size
unfolding undo_deletion
undo_deletion-last t h = c_insert-last t.undo_size (record t { cursor = t.undo_ptr }) h

-- In vi mode a deletion that deletes something is undone: the line is what it was.
pub v_undo-c_delafter :
    (n : ℕ) (s : Editor)
    → s.vi_mode ≡ true
    → 0 < n
    → s.cursor < s.last_char
    → s.last_char < input_lim
    → text (v_undo (c_delafter n s)).editor ≡ text s
v_undo-c_delafter n s v k l h =
    let num = min n (s.last_char - s.cursor) in
    let t = c_delafter n s in
    let e : (num == 0) ≡ false = ground (arith, k, l) in
    let (ea, es, ep, el, eb, eu) = deleted-fields n s v e in
    let z : (t.undo_size == 0) ≡ false = rw es e in
    let last : (undo_deletion t).last_char ≡ s.last_char =
      undo_deletion-last t (omega (arith, el, es, h, l)) ∙ omega (arith, el, es, l) in
    rw (v_undo-insert t ea z, last)
      (slice-ext s.last_char (undo_deletion t).input_buf.cells s.input_buf.cells 0 0
        (λ j d. restored n (0 + j) s v e (omega (arith, l)) h (omega (arith, d))))
