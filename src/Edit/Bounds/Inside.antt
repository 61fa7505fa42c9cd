-- ===== src/Edit/Bounds/Inside.antt =====
-- ed.chared.c: that commands leave no pointer outside of InputBuf.
use mcsh.Base.{
  ℕ, zero, suc, ◌-◌, ◌≤◌, ◌<◌, Bool, true, false, Option, none, some, arith, ◌≡◌, ◌≢◌, ◌⊎◌, not,
  refl, Bool-cases, inl, inr, ◌==◌, ◌&&◌, leb, ltb, if◌then◌else◌, Option-cases, ltb→lt,
}
use mcsh.Edit.State.{Editor, Chars, outside, done, error, inbufsize}
use mcsh.Edit.Buffer.{Buffer}
use mcsh.Edit.Kill.{KillDup}
use mcsh.Edit.Session.{Cmd, run}
use mcsh.Edit.Word.{
  forth, up_to, class_forth, class_of, like, same_class, Class, class_white, class_word,
  class_other, classes_forth, c_next_word, one_back,
}
use mcsh.Edit.Bounds.{Placed}
use mcsh.Edit.Bounds.Words.{forth_bounds, up_to_bounds, classes_forth_bounds, c_next_word_ge}
use mcsh.Edit.Bounds.Searches.{AtChar, EndsOther, first_other-le}
use mcsh.Edit.Typing.{
  v_cmd_mode, e_insert, e_digit, e_argdigit, e_argfour, e_send_eof, e_insovr, e_startover,
}
use mcsh.Edit.Move.{
  v_zero, e_toend, e_tobeg, e_charback, e_charfwd, e_wordback, e_wordfwd, v_wordfwd, v_wordbegnext,
  v_eword, e_set_mark, e_exchange_mark, v_csearch_back, v_csearch_fwd, chars_back, chars_forth,
  next_word, first_other, vi_moved_onto, move_cursor,
}
use mcsh.Edit.Delete.{
  v_delprev, e_delprev, e_delnext, e_delnext_eof, e_delnext_list, e_delnext_list_eof, e_list_eof,
  e_delwordprev, e_delwordnext, e_killend, e_killbeg, e_killall, e_killregion, e_copyregion,
  e_yank_kill, e_yank_pop, e_charswitch, e_gcharswitch, e_copyprev,
}
use mcsh.Edit.Vi.{
  v_insbeg, v_insert, v_add, v_addend, v_replone, v_replmode, v_substchar, v_substline, v_chgtoend,
  v_change_case, e_uppercase, e_lowercase, e_capitalcase, change_word, turn_case, capitalize,
  v_charto_fwd, v_charto_back, v_rchar_fwd, v_rchar_back,
}

-- The first character of a class is passed over.
forth_gt :
    (test : ℕ → Bool) (f : ℕ → ℕ) (k p : ℕ) → test (f p) ≡ true → suc p ≤ forth test f (suc k) p
unfolding forth
forth_gt test f k p e = ground (arith, e, forth_bounds test f k (suc p))

same_class_refl : (c : Class) → same_class c c ≡ true
same_class_refl class_white = refl
same_class_refl class_word = refl
same_class_refl class_other = refl

module _ (ch : Chars) (f : ℕ → ℕ) where
  class_forth_gt : (high p : ℕ) → p < high → suc p ≤ class_forth ch f high p
  class_forth_gt high p l =
      let e : high - p ≡ suc (high - p - 1) = omega (arith, l) in
      rw e (
        forth_gt (like ch f (class_of ch f p)) f (high - p - 1) p
          (same_class_refl (class_of ch f p)))

  classes_forth_gt : (high n p : ℕ) → p < high → suc p ≤ classes_forth ch f high (suc n) p
  unfolding classes_forth
  classes_forth_gt high n p l =
      let q = class_forth ch f high p in
      let r = up_to ch.is_space f high q in
      ground (
        arith,
        l,
        class_forth_gt high p l,
        up_to_bounds ch.is_space f high q,
        classes_forth_bounds ch f high n q,
        classes_forth_bounds ch f high n r,
      )

  -- The next word is no earlier.
  pub next_word_some :
      (vi : Bool) (p high n : ℕ)
      → p < high
      → 0 < n
      → (r : ℕ) × (c_next_word ch f vi p high n ≡ some r) × (p ≤ r)
  unfolding c_next_word
  next_word_some vi p high zero l m = absurd (omega (arith, m))
  next_word_some false p high (suc n) l m =
      (_, refl, c_next_word_ge ch f p high (suc n) _ (omega (arith, l)) refl)
  next_word_some true p high (suc n) l m =
      go (classes_forth ch f high (suc n) p) (classes_forth_gt high n p l)
    where
      go : (q : ℕ) → suc p ≤ q → (r : ℕ) × (one_back q ≡ some r) × (p ≤ r)
      go zero h = absurd (omega (arith, h))
      go (suc q) h = (q, refl, omega (arith, h))

next_is :
    (ch : Chars) (s : Editor)
    → s.cursor < s.last_char
    → 0 < s.argument
    → (r : ℕ) × (next_word ch s ≡ some r) × (s.cursor ≤ r)
next_is ch s l m = next_word_some ch s.input_buf.cells s.vi_mode s.cursor s.last_char s.argument l m

not_at_end : (s : Editor) → Placed s → (s.cursor == s.last_char) ≡ false → s.cursor < s.last_char
unfolding Placed
not_at_end s h e = ground (arith, h, e)

wordfwd-ne : (ch : Chars) (s : Editor) → 0 < s.argument → Placed s → (e_wordfwd ch s).ret ≢ outside
unfolding e_wordfwd
wordfwd-ne ch s g h = elim (Bool-cases (s.cursor == s.last_char)) [
  | inl e ↦ rw (e, e_wordfwd) (λ r. ground arith)
  | inr e ↦
      let (p, q, l) = next_is ch s (not_at_end s h e) g in rw (e, q, e_wordfwd) (λ r. ground arith)
]

wordbegnext-ne :
    (ch : Chars) (s : Editor) → 0 < s.argument → Placed s → (v_wordbegnext ch s).ret ≢ outside
unfolding v_wordbegnext
wordbegnext-ne ch s g h = elim (Bool-cases (s.cursor == s.last_char)) [
  | inl e ↦ rw (e, v_wordbegnext) (λ r. ground arith)
  | inr e ↦
      let (p, q, l) = next_is ch s (not_at_end s h e) g in
      rw (e, q, v_wordbegnext) (λ r. ground arith)
]

delwordnext-ne :
    (ch : Chars) (dup : KillDup) (s : Editor)
    → 0 < s.argument
    → Placed s
    → (e_delwordnext ch dup s).ret ≢ outside
unfolding e_delwordnext
delwordnext-ne ch dup s g h = elim (Bool-cases (s.cursor == s.last_char)) [
  | inl e ↦ rw (e, e_delwordnext) (λ r. ground arith)
  | inr e ↦
      let (p, q, l) = next_is ch s (not_at_end s h e) g in
      let n : ltb p s.cursor ≡ false = ground (arith, l) in
      rw (e, q, e_delwordnext, n) (λ r. ground arith)
]

change_word-ne :
    (ch : Chars) (turn : ℕ → ℕ → Buffer → Buffer) (s : Editor)
    → (0 < s.argument) × (s.cursor < s.last_char)
    → (change_word ch turn s).ret ≢ outside
change_word-ne ch turn s g =
    let (p, q, l) = next_is ch s g.1 g.0 in rw (q, change_word) (λ r. ground arith)

tobeg-ne : (ch : Chars) (s : Editor) → EndsOther ch s → Placed s → (e_tobeg ch s).ret ≢ outside
unfolding e_tobeg Placed
tobeg-ne ch s g h =
    let e : leb inbufsize (first_other ch s) ≡ false =
      ground (arith, first_other-le ch s g h, h.1) in
    rw (e, e_tobeg) (λ r. ground arith)

delnext-ne : (s : Editor) → (e_delnext s).ret ≢ outside
unfolding e_delnext
delnext-ne s r = ground arith

delnext_eof-ne : (s : Editor) → (e_delnext_eof s).ret ≢ outside
unfolding e_delnext_eof
delnext_eof-ne s r = ground (arith, delnext-ne s)

csearch_back-ne : (c n : ℕ) (tflag : Bool) (s : Editor) → (v_csearch_back c n tflag s).ret ≢ outside
unfolding v_csearch_back
csearch_back-ne c n tflag s = elim (Option-cases (chars_back c s.input_buf.cells n s.cursor)) [
  | inl e ↦ rw (e, v_csearch_back) (λ r. ground arith)
  | inr (p, e) ↦ rw (e, v_csearch_back) (λ r. ground arith)
]

chars_forth_ge : (c : ℕ) (f : ℕ → ℕ) (high n p : ℕ) → p ≤ chars_forth c f high n p
unfolding chars_forth
chars_forth_ge c f high zero p = omega arith
chars_forth_ge c f high (suc n) p =
    let at : ℕ → Bool = λ x. not (x == c) in
    ground (
      arith,
      up_to_bounds at f high p,
      up_to_bounds at f high (suc p),
      chars_forth_ge c f high n (up_to at f high p),
      chars_forth_ge c f high n (up_to at f high (suc p)),
    )

-- A search for a character leaves the one it starts at.
chars_forth_gt :
    (c : ℕ) (f : ℕ → ℕ) (high n p : ℕ) → p < high → suc p ≤ chars_forth c f high (suc n) p
unfolding chars_forth
chars_forth_gt c f high n p l =
    let at : ℕ → Bool = λ x. not (x == c) in
    elim (Bool-cases (f p == c)) [
      | inl e ↦
          rw (e, chars_forth)
            (omega (
              arith,
              up_to_bounds at f high (suc p),
              chars_forth_ge c f high n (up_to at f high (suc p)),
            ))
      | inr e ↦
          let w : high - p ≡ suc (high - p - 1) = omega (arith, l) in
          let g : suc p ≤ up_to at f high p = rw w (forth_gt at f (high - p - 1) p (rw e refl)) in
          rw (e, chars_forth) (omega (arith, g, chars_forth_ge c f high n (up_to at f high p)))
    ]

csearch_past :
    (c n : ℕ) (s : Editor)
    → s.cursor < s.last_char
    → 0 < chars_forth c s.input_buf.cells s.last_char (suc n) s.cursor
csearch_past c n s l = omega (arith, chars_forth_gt c s.input_buf.cells s.last_char n s.cursor l)

csearch_fwd-ne :
    (c n : ℕ) (tflag : Bool) (s : Editor)
    → (tflag ≡ false) ⊎ (0 < n)
    → Placed s
    → (v_csearch_fwd c n tflag s).ret ≢ outside
unfolding v_csearch_fwd
csearch_fwd-ne c n tflag s (inl t) h r = ground (arith, t, r)
csearch_fwd-ne c zero tflag s (inr l) h r = absurd (omega (arith, l))
csearch_fwd-ne c (suc n) tflag s (inr l) h r =
    let p = chars_forth c s.input_buf.cells s.last_char (suc n) s.cursor in
    elim (Bool-cases (ltb s.cursor s.last_char)) [
      | inl e ↦ go p (csearch_past c n s (ltb→lt s.cursor s.last_char e)) r
      | inr e ↦
          ground (arith, e, chars_forth_ge c s.input_buf.cells s.last_char (suc n) s.cursor, r)
    ]
  where
    go :
        (p : ℕ)
        → 0 < p
        → (if leb s.last_char p
            then done error s
            else if s.input_buf.cells p == c && tflag
            then elim p [ zero ↦ done outside s | suc q ↦ vi_moved_onto (move_cursor q s) ]
            else vi_moved_onto (move_cursor p s)).ret
          ≢ outside
    go zero l = absurd (omega (arith, l))
    go (suc p) l = λ r. ground (arith, r)

charto_fwd-ne :
    (got : Option ℕ) (s : Editor) → 0 < s.argument → Placed s → (v_charto_fwd got s).ret ≢ outside
unfolding v_charto_fwd e_send_eof
charto_fwd-ne none s g h = λ r. ground arith
charto_fwd-ne (some c) s g h = csearch_fwd-ne c s.argument true s (inr g) h

charto_back-ne : (got : Option ℕ) (s : Editor) → (v_charto_back got s).ret ≢ outside
unfolding v_charto_back e_send_eof
charto_back-ne none s = λ r. ground arith
charto_back-ne (some c) s = csearch_back-ne c s.argument true s

again-ne :
    (c : ℕ) (fwd : Bool) (s : Editor)
    → Placed s
    → (if c == 0
        then done error s
        else if fwd
        then v_csearch_fwd c s.argument false s
        else v_csearch_back c s.argument false s).ret
      ≢ outside
again-ne c fwd s h r =
    ground (
      arith,
      csearch_fwd-ne c s.argument false s (inl refl) h,
      csearch_back-ne c s.argument false s,
    )

-- What a command wants: with an argument of 0 some scans step back from where they start. `^` in vi mode wants a
-- line that no space follows. The changes of whole lines in vi mode and undo are left out.
abbrev pub Given : Chars → Cmd → Editor → Type 0
Given ch Cmd.tobeg s = EndsOther ch s
Given ch Cmd.wordfwd s = 0 < s.argument
Given ch Cmd.wordbegnext s = 0 < s.argument
Given ch Cmd.delwordnext s = 0 < s.argument
Given ch Cmd.uppercase s = (0 < s.argument) × (s.cursor < s.last_char)
Given ch Cmd.lowercase s = (0 < s.argument) × (s.cursor < s.last_char)
Given ch Cmd.capitalcase s = (0 < s.argument) × (s.cursor < s.last_char)
Given ch Cmd.chgmeta s = ⊥
Given ch Cmd.delmeta s = ⊥
Given ch Cmd.undo s = ⊥
Given ch (Cmd.charto_fwd got) s = 0 < s.argument
Given ch (Cmd.charto_back got) s = AtChar true s × (0 < s.argument)
Given ch (Cmd.rchar_fwd c is_fwd) s = 0 < s.argument
Given ch (Cmd.rchar_back c is_fwd) s = 0 < s.argument
Given ch c s = Unit

module _ (ch : Chars) (dup : KillDup) where
  pub run-inside : (c : Cmd) (s : Editor) → Given ch c s → Placed s → (run ch dup c s).ret ≢ outside
  unfolding run v_cmd_mode
  run-inside Cmd.cmd_mode s g h = λ r. unfold v_cmd_mode in ground arith
  run-inside Cmd.argfour s g h = λ r. unfold e_argfour in ground arith
  run-inside Cmd.send_eof s g h = λ r. unfold e_send_eof in ground arith
  run-inside Cmd.insovr s g h = λ r. unfold e_insovr in ground arith
  run-inside Cmd.startover s g h = λ r. unfold e_startover in ground arith
  run-inside Cmd.toend s g h = λ r. unfold e_toend in ground arith
  run-inside Cmd.tobeg s g h = tobeg-ne ch s g h
  run-inside Cmd.charback s g h = λ r. unfold e_charback in ground arith
  run-inside Cmd.charfwd s g h = λ r. unfold e_charfwd in ground arith
  run-inside Cmd.wordback s g h = λ r. unfold e_wordback in ground arith
  run-inside Cmd.wordfwd s g h = wordfwd-ne ch s g h
  run-inside Cmd.vi_wordfwd s g h = λ r. unfold v_wordfwd in ground arith
  run-inside Cmd.wordbegnext s g h = wordbegnext-ne ch s g h
  run-inside Cmd.eword s g h = λ r. unfold v_eword in ground arith
  run-inside Cmd.set_mark s g h = λ r. unfold e_set_mark in ground arith
  run-inside Cmd.exchange_mark s g h = λ r. unfold e_exchange_mark in ground arith
  run-inside Cmd.vi_delprev s g h = λ r. unfold v_delprev in ground arith
  run-inside Cmd.delprev s g h = λ r. unfold e_delprev in ground arith
  run-inside Cmd.delnext s g h = delnext-ne s
  run-inside Cmd.delnext_eof s g h = delnext_eof-ne s
  run-inside Cmd.delnext_list s g h = λ r. unfold e_delnext_list in ground arith
  run-inside Cmd.delnext_list_eof s g h = λ r. unfold e_delnext_list_eof in ground arith
  run-inside Cmd.list_eof s g h = λ r. unfold e_list_eof in ground arith
  run-inside Cmd.delwordprev s g h = λ r. unfold e_delwordprev in ground arith
  run-inside Cmd.delwordnext s g h = delwordnext-ne ch dup s g h
  run-inside Cmd.killend s g h = λ r. unfold e_killend in ground arith
  run-inside Cmd.killbeg s g h = λ r. unfold e_killbeg in ground arith
  run-inside Cmd.killall s g h = λ r. unfold e_killall in ground arith
  run-inside Cmd.killregion s g h = λ r. unfold e_killregion in ground arith
  run-inside Cmd.copyregion s g h = λ r. unfold e_copyregion in ground arith
  run-inside Cmd.yank_kill s g h = λ r. unfold e_yank_kill in ground arith
  run-inside Cmd.yank_pop s g h = λ r. unfold e_yank_pop in ground arith
  run-inside Cmd.charswitch s g h = λ r. unfold e_charswitch in ground arith
  run-inside Cmd.gcharswitch s g h = λ r. unfold e_gcharswitch in ground arith
  run-inside Cmd.copyprev s g h = λ r. unfold e_copyprev in ground arith
  run-inside Cmd.chgmeta s g h = absurd g
  run-inside Cmd.delmeta s g h = absurd g
  run-inside Cmd.insbeg s g h = λ r. unfold v_insbeg in ground arith
  run-inside Cmd.insert_mode s g h = λ r. unfold v_insert in ground arith
  run-inside Cmd.add_mode s g h = λ r. unfold v_add in ground arith
  run-inside Cmd.addend s g h = λ r. unfold v_addend in ground arith
  run-inside Cmd.replone s g h = λ r. unfold v_replone in ground arith
  run-inside Cmd.replmode s g h = λ r. unfold v_replmode in ground arith
  run-inside Cmd.substchar s g h = λ r. unfold v_substchar in ground arith
  run-inside Cmd.substline s g h = λ r. unfold v_substline in ground arith
  run-inside Cmd.chgtoend s g h = λ r. unfold v_chgtoend in ground arith
  run-inside Cmd.change_case s g h = λ r. unfold v_change_case in ground arith
  run-inside Cmd.uppercase s g h =
      unfold e_uppercase in change_word-ne ch (turn_case ch.is_lower ch.to_upper) s g
  run-inside Cmd.lowercase s g h =
      unfold e_lowercase in change_word-ne ch (turn_case ch.is_upper ch.to_lower) s g
  run-inside Cmd.capitalcase s g h = unfold e_capitalcase in change_word-ne ch (capitalize ch) s g
  run-inside Cmd.undo s g h = absurd g
  run-inside (Cmd.insert c) s g h = λ r. unfold e_insert in ground arith
  run-inside (Cmd.argdigit c) s g h = λ r. unfold e_argdigit in ground arith
  run-inside (Cmd.zero_key c) s g h = λ r. unfold v_zero in ground arith
  run-inside (Cmd.digit b c) s g h = λ r. unfold e_digit in ground arith
  run-inside (Cmd.charto_fwd got) s g h = charto_fwd-ne got s g h
  run-inside (Cmd.charto_back got) s g h = charto_back-ne got s
  run-inside (Cmd.rchar_fwd c f) s g h = unfold v_rchar_fwd in again-ne c f s h
  run-inside (Cmd.rchar_back c f) s g h = unfold v_rchar_back in again-ne c (not f) s h
