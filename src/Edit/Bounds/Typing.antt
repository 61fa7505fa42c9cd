-- ===== src/Edit/Bounds/Typing.antt =====
-- ed.chared.c: the bounds of the line under the commands that put characters into it.
use mcsh.Base.{
  ℕ, zero, suc, ◌+◌, ◌-◌, ◌*◌, ◌≤◌, ◌<◌, Bool, false, [], ◌∷◌, Str, length, arith, ◌≡◌, refl, ◌∙◌,
  Bool-cases, inl, inr, ◌==◌, if◌then◌else◌, subst,
}
use mcsh.Edit.State.{Editor, Command, input_lim, inbufsize}
use mcsh.Edit.Change.{c_insert, c_delafter}
use mcsh.Edit.Typing.{
  overwrites, repeated, v_cmd_mode, save_overwritten, make_room, put_text, e_insert, insert_str,
  e_digit, e_argdigit, e_argfour, e_send_eof, e_insovr, e_startover, reset_in_line,
}
use mcsh.Edit.Cells.{put-top}
use mcsh.Edit.Bounds.{
  Placed, c_insert-Placed, c_delafter-Placed, c_insert-last, c_insert-cursor, put_text-Placed,
  c_delafter-room, Placed-le,
}

-- What a command keeps.
abbrev pub Kept : Command → Editor → Type 0
Kept f s = Placed (f s).editor

length-repeated : (n c : ℕ) → length (repeated n c) ≡ n
length-repeated zero c = refl
length-repeated (suc n) c = omega (arith, length-repeated n c)

save_overwritten-Placed : (n : ℕ) (s : Editor) → Placed s → Placed (save_overwritten n s)
unfolding save_overwritten Placed
save_overwritten-Placed n s h = h

save_overwritten-cursor : (n : ℕ) (s : Editor) → (save_overwritten n s).cursor ≡ s.cursor
unfolding save_overwritten
save_overwritten-cursor n s = refl

save_overwritten-last : (n : ℕ) (s : Editor) → (save_overwritten n s).last_char ≡ s.last_char
unfolding save_overwritten
save_overwritten-last n s = refl

-- The line has `n` places behind the cursor of an earlier state.
abbrev Room : ℕ → Editor → Editor → Type 0
Room n s t = Placed t × (t.cursor ≡ s.cursor) × (s.cursor + n ≤ t.last_char)

c_insert-Room :
    (n : ℕ) (s t : Editor)
    → t.cursor ≡ s.cursor
    → t.last_char + n < input_lim
    → Placed t
    → Room n s (c_insert n t)
c_insert-Room n s t e l h = (
  c_insert-Placed n t h,
  c_insert-cursor n t ∙ e,
  omega (arith, c_insert-last n t l, Placed-le t h, e),
)

-- The gap is opened in the bounds, and has the place asked for.
make_room-Room :
    (n : ℕ) (s : Editor) → Placed s → s.last_char + n < input_lim → Room n s (make_room n s)
unfolding make_room
make_room-Room n s h l =
    let t = save_overwritten n s in
    let ht = save_overwritten-Placed n s h in
    let d = c_delafter-room n t ht in
    let ec = save_overwritten-cursor n s in
    let el = save_overwritten-last n s in
    elim (Bool-cases (overwrites s.input_mode)) [
      | inl e ↦
          rw (e, make_room)
            (c_insert-Room n s (c_delafter n t) (d.0 ∙ ec) (omega (arith, d.1, el, l))
              (c_delafter-Placed n t ht))
      | inr e ↦ rw (e, make_room) (c_insert-Room n s s refl l h)
    ]

-- Text that fits is put into the gap.
put_in_room-Placed :
    (w : Str) (s : Editor)
    → Placed s
    → s.last_char + length w < input_lim
    → Placed (put_text w (make_room (length w) s))
put_in_room-Placed w s h l =
    let t = make_room (length w) s in
    let r = make_room-Room (length w) s h l in put_text-Placed w t (omega (arith, r.1, r.2)) r.0

pub v_cmd_mode-Placed : (s : Editor) → Placed s → Kept v_cmd_mode s
unfolding v_cmd_mode Placed
v_cmd_mode-Placed s h = h

pub doing_arg-Placed : (b : Bool) (s : Editor) → Placed s → Placed (record s { doing_arg = b })
unfolding Placed
doing_arg-Placed b s h = h

pub argument-Placed : (n : ℕ) (s : Editor) → Placed s → Placed (record s { argument = n })
unfolding Placed
argument-Placed n s h = h

repeated-Placed :
    (c : ℕ) (s : Editor)
    → Placed s
    → s.last_char + s.argument < input_lim
    → Placed (put_text (repeated s.argument c) (make_room s.argument s))
repeated-Placed c s h l =
    let e = length-repeated s.argument c in
    subst (λ n. Placed (put_text (repeated s.argument c) (make_room n s))) e
      (put_in_room-Placed (repeated s.argument c) s h (omega (arith, e, l)))

pub e_insert-Placed : (c : ℕ) (s : Editor) → Placed s → Kept (e_insert c) s
unfolding e_insert
e_insert-Placed c s h =
    let t = put_text (repeated s.argument c) (make_room s.argument s) in
    let b = if s.argument == 1 then false else s.doing_arg in
    let u = record t { doing_arg = b } in
    ground (arith, h, repeated-Placed c s h, doing_arg-Placed b t, v_cmd_mode-Placed u)

pub insert_str-Placed : (w : Str) (s : Editor) → Placed s → Kept (insert_str w) s
unfolding insert_str
insert_str-Placed w s h =
    let n = length w in
    ground (
      arith,
      h,
      put_text-Placed w (c_insert n s),
      c_insert-Placed n s h,
      c_insert-last n s,
      c_insert-cursor n s,
      Placed-le s h,
    )

pub e_digit-Placed : (after : Bool) (c : ℕ) (s : Editor) → Placed s → Kept (e_digit after c) s
unfolding e_digit
e_digit-Placed after c s h =
    let t = put_text (c ∷ []) (make_room 1 s) in
    ground (
      arith,
      h,
      put_in_room-Placed (c ∷ []) s h,
      doing_arg-Placed false t,
      argument-Placed (c - b'0') s h,
      argument-Placed (s.argument * 10 + (c - b'0')) s h,
    )

pub e_argdigit-Placed : (c : ℕ) (s : Editor) → Placed s → Kept (e_argdigit c) s
unfolding e_argdigit Placed
e_argdigit-Placed c s h = ground (arith, h)

pub e_argfour-Placed : (s : Editor) → Placed s → Kept e_argfour s
unfolding e_argfour Placed
e_argfour-Placed s h = ground (arith, h)

pub e_send_eof-Placed : (s : Editor) → Placed s → Kept e_send_eof s
unfolding e_send_eof Placed
e_send_eof-Placed s h = (h.0, h.1, h.2, omega (arith, put-top s.last_char 0 s.input_buf, h.1, h.3))

pub e_insovr-Placed : (s : Editor) → Placed s → Kept e_insovr s
unfolding e_insovr Placed
e_insovr-Placed s h = h

pub reset_in_line-Placed : (s : Editor) → s.input_buf.top ≤ inbufsize → Placed (reset_in_line s)
unfolding reset_in_line Placed
reset_in_line-Placed s h = (omega arith, omega arith, omega arith, h)

pub e_startover-Placed : (s : Editor) → Placed s → Kept e_startover s
unfolding e_startover
e_startover-Placed s h = reset_in_line-Placed s (unfold Placed in h.3)
