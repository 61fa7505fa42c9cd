-- ===== src/Edit/RoundTrip.antt =====
-- ed.chared.c: a line that is killed and yanked back.
use mcsh.Base.{
  ◌+◌, ◌-◌, ◌≤◌, ◌<◌, true, false, [], ◌++◌, Str, length, arith, ◌≡◌, refl, sym, ap, ◌∙◌, leb, ◌==◌,
  append-nil,
}
use mcsh.Edit.Buffer.{write, slice}
use mcsh.Edit.State.{Editor, input_lim, text, Done, done, refresh}
use mcsh.Edit.Change.{c_insert}
use mcsh.Edit.Kill.{dup_keep, push_new, c_push_kill}
use mcsh.Edit.Delete.{e_killend, e_yank_kill, yank_text}
use mcsh.Edit.Typing.{put_text}
use mcsh.Edit.Ring.{Ring, push_new-latest}
use mcsh.Edit.Text.{before, after, put_text-Inserted, text-split, length-slice}
use mcsh.Edit.Bounds.{c_insert-cursor}

-- The yanked text is put before the cursor.
yank_text-text :
    (w : Str) (s : Editor)
    → s.last_char + length w < input_lim
    → s.cursor ≤ s.last_char
    → text (yank_text true w s) ≡ (before s ++ w) ++ after s
yank_text-text w s h l =
    let t = c_insert (length w) s in
    let u = put_text w t in
    let (eb, ea, le) = put_text-Inserted w s h l in
    let ec = c_insert-cursor (length w) s in
    let same : text (yank_text true w s) ≡ text u =
      (unfold put_text in ap (λ c. slice t.last_char (write w c t.input_buf).cells 0) (sym ec)) in
    same ∙ text-split u le ∙ ap (λ xs. xs ++ after u) eb ∙ ap (λ ys. (before s ++ w) ++ ys) ea

-- What `e_killend` leaves, with $killdup not set.
abbrev pub killed : Editor → Editor
killed s = (e_killend dup_keep s).editor

killed-slot : (s : Editor) → (killed s).kills.slots (killed s).kills.yank_pos ≡ after s
unfolding e_killend
killed-slot s = unfold c_push_kill in push_new-latest (after s) s.kills

e_yank_kill-some :
    (s : Editor)
    → (s.kills.ring_len == 0) ≡ false
    → leb input_lim (s.last_char + length (s.kills.slots s.kills.yank_pos)) ≡ false
    → e_yank_kill s ≡ done refresh (yank_text (s.argument == 1) (s.kills.slots s.kills.yank_pos) s)
unfolding e_yank_kill
e_yank_kill-some s e f = rw (e, f, e_yank_kill) refl

killed-fields :
    (s : Editor)
    → ((killed s).cursor ≡ s.cursor)
      × ((killed s).last_char ≡ s.cursor)
      × ((killed s).argument ≡ s.argument)
      × ((killed s).input_buf ≡ s.input_buf)
unfolding e_killend
killed-fields s = (refl, refl, refl, refl)

killed-len : (s : Editor) → Ring s.kills → ((killed s).kills.ring_len == 0) ≡ false
unfolding e_killend
killed-len s r = unfold c_push_kill push_new in ground (arith, r)

-- Killing to the end of the line and yanking with no argument gives the line back.
pub e_yank_kill-killend :
    (s : Editor)
    → Ring s.kills
    → s.argument ≡ 1
    → s.cursor ≤ s.last_char
    → s.last_char < input_lim
    → text (e_yank_kill (killed s)).editor ≡ text s
e_yank_kill-killend s r a l h =
    let t = killed s in
    let (ec, el, ea, eb) = killed-fields s in
    let w = t.kills.slots t.kills.yank_pos in
    let ew : w ≡ after s = killed-slot s in
    let n : length w ≡ s.last_char - s.cursor =
      ap length ew ∙ length-slice (s.last_char - s.cursor) s.input_buf.cells s.cursor in
    let fits : t.last_char + length w < input_lim = omega (arith, n, el, l, h) in
    let f : leb input_lim (t.last_char + length w) ≡ false = ground (arith, fits) in
    let one : (t.argument == 1) ≡ true = rw (ea, a) refl in
    let y = e_yank_kill-some t (killed-len s r) f in
    let tail : after t ≡ [] =
      (let z : t.last_char - t.cursor ≡ 0 = omega (arith, ec, el) in rw z refl) in
    let head : before t ≡ before s = rw (ec, eb) refl in
    ap (λ (d : Done). text d.editor) y
    ∙ ap (λ b. text (yank_text b w t)) one
    ∙ yank_text-text w t fits (omega (arith, ec, el))
    ∙ ap (λ xs. (xs ++ w) ++ after t) head
    ∙ ap (λ xs. (before s ++ xs) ++ after t) ew
    ∙ ap (λ ys. (before s ++ after s) ++ ys) tail
    ∙ append-nil (before s ++ after s)
    ∙ sym (text-split s l)
