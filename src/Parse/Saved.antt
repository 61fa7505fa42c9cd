-- ===== src/Parse/Saved.antt =====
-- sh.parse.c: the second loop of `syn3`, its saved words and `lp`.
use mcsh.Base.{
  ℕ, ◌≤◌, ◌<◌, Bool, true, false, not, ◌&&◌, ◌||◌, Option, none, some, List, [], ◌∷◌, ◌==◌,
  if◌then◌else◌, Str, codes, eq, char0, char1, length, arith,
}
use mcsh.Parse.Command.{
  SynError, bad_plp, mis_red, out_red, in_red, red_par, SetErr, Context, dec, inc, is_zero, relpar,
}
use mcsh.Parse.Simple.{
  Loop, Mode, between, behind_out, behind_both, behind_bang, behind_in, save_words, step_in, at_end,
  word_between, set_err, savep, open_paren, close_paren, out_file, in_file, bang_or_file, both,
  is_some,
}
use mcsh.Parse.Words.{PointsBelow, Saves-error, LoopOk, save-LoopOk}

module _ (d : SetErr) (n : ℕ) where
  if_ok : (b : Bool) (x y : Loop) → LoopOk d n x → LoopOk d n y → LoopOk d n (if b then x else y)
  if_ok true x y p q = p
  if_ok false x y p q = q

  set_err_ok : (id : SynError) (s : Loop) → PointsBelow n s.lp → LoopOk d n (set_err id s)
  set_err_ok id s p = record { saves = Saves-error d s.err s.av s.av id; points = p }

  savep_ok : (specp : Bool) (w : Str) (s : Loop) → LoopOk d n s → LoopOk d n (savep specp w s)
  savep_ok specp w s h = if_ok specp _ _ (save-LoopOk d n w s h) h

  open_ok :
      (specp : Bool) (ws : List Str) (s : Loop)
      → length ws < n
      → LoopOk d n s
      → LoopOk d n (open_paren specp ws s)
  open_ok specp ws s l h = go s.lp
    where
      go :
          (o : Option (List Str))
          → LoopOk d n (
              let t : Loop = elim o [
                | none ↦ s
                | some _ ↦ if specp then s else set_err bad_plp s
              ] in
              if is_zero s.l
              then record t { lp = some ws; l = inc s.l }
              else record s { l = inc s.l })
      go none =
          if_ok (is_zero s.l) _ _ (record { saves = h.saves; points = l })
            (record { saves = h.saves; points = h.points })
      go (some v) =
          if_ok (is_zero s.l) _ _
            (record {
              saves = (if_ok specp s (set_err bad_plp s) h (set_err_ok bad_plp s h.points)).saves;
              points = l;
            })
            (record { saves = h.saves; points = h.points })

  close_ok : (w : Str) (ws : List Str) (s : Loop) → LoopOk d n s → LoopOk d n (close_paren w ws s)
  close_ok w ws s h =
      if_ok (is_zero (dec s.l)) _ _ (record { saves = h.saves; points = h.points })
        (record { saves = h.saves; points = h.points })

  out_file_ok :
      (flags : Context) (w : Str) (s : Loop) → LoopOk d n s → LoopOk d n (out_file flags w s)
  out_file_ok flags w s h =
      let t : Loop = record s { mode = between } in
      let u : Loop = record t { redirects = record s.redirects { rit = some w } } in
      let b = (flags.p_out && not flags.p_diag) || is_some s.redirects.rit in
      if_ok (relpar w) (set_err mis_red t) (if b then set_err out_red t else u)
        (set_err_ok mis_red t h.points)
        (if_ok b (set_err out_red t) u (set_err_ok out_red t h.points)
          (record { saves = h.saves; points = h.points }))

  in_file_ok :
      (flags : Context) (w : Str) (s : Loop) → LoopOk d n s → LoopOk d n (in_file flags w s)
  in_file_ok flags w s h =
      let t : Loop = record s { mode = between } in
      let u : Loop = record t { redirects = record s.redirects { lef = some w } } in
      let b = flags.p_in || is_some s.redirects.lef in
      let v : Loop = if b then set_err in_red t else u in
      let c = flags.here && s.redirects.flags.read in
      if_ok (relpar w) (set_err mis_red t) (if c then set_err red_par t else v)
        (set_err_ok mis_red t h.points)
        (if_ok c (set_err red_par t) v (set_err_ok red_par t h.points) (
          if_ok b (set_err in_red t) u (set_err_ok in_red t h.points)
            (record { saves = h.saves; points = h.points })))

  bang_ok :
      (flags : Context) (w : Str) (s : Loop) → LoopOk d n s → LoopOk d n (bang_or_file flags w s)
  bang_ok flags w s h =
      if_ok (eq w (codes "!")) _ _ (record { saves = h.saves; points = h.points })
        (out_file_ok flags w s h)

  both_ok : (flags : Context) (s : Loop) → LoopOk d n s → LoopOk d n (both flags s)
  both_ok flags s h =
      if_ok (flags.p_out || flags.p_diag) _ _ (set_err_ok out_red _ h.points)
        (record { saves = h.saves; points = h.points })

  word_ok :
      (specp : Bool) (w : Str) (ws : List Str) (s : Loop)
      → length ws < n
      → LoopOk d n s
      → LoopOk d n (word_between specp w ws s)
  unfolding word_between
  word_ok specp w ws s l h =
      if_ok (char0 w == b'(') _ _ (savep_ok specp w _ (open_ok specp ws s l h)) (
        if_ok (char0 w == b')') _ _ (savep_ok specp w _ (close_ok w ws s h)) (
          if_ok (char0 w == b'>') _ _
            (if_ok (not (is_zero s.l)) _ _ (savep_ok specp w s h) (
              if_ok (char1 w == b'>') _ _ (record { saves = h.saves; points = h.points })
                (record { saves = h.saves; points = h.points })))
            (if_ok (char0 w == b'<') _ _
              (if_ok (not (is_zero s.l)) _ _ (savep_ok specp w s h) (
                if_ok (char1 w == b'<') _ _ (record { saves = h.saves; points = h.points })
                  (record { saves = h.saves; points = h.points })))
              (if_ok (not (is_zero s.l) && not specp) _ _ h (save-LoopOk d n w s h)))))

  step_ok :
      (m : Mode) (specp : Bool) (flags : Context) (w : Str) (ws : List Str) (s : Loop)
      → length ws < n
      → LoopOk d n s
      → LoopOk d n (step_in m specp flags w ws s)
  unfolding step_in
  step_ok between specp flags w ws s l h = word_ok specp w ws s l h
  step_ok behind_out specp flags w ws s l h =
      if_ok (eq w (codes "&")) _ _ (both_ok flags s h) (bang_ok flags w s h)
  step_ok behind_both specp flags w ws s l h = bang_ok flags w s h
  step_ok behind_bang specp flags w ws s l h = out_file_ok flags w s h
  step_ok behind_in specp flags w ws s l h = in_file_ok flags w s h

  at_end_ok : (m : Mode) (s : Loop) → LoopOk d n s → LoopOk d n (at_end m s)
  unfolding at_end
  at_end_ok between s h = h
  at_end_ok _ s h = set_err_ok mis_red s h.points

  pub save_words-LoopOk :
      (specp : Bool) (flags : Context) (ws : List Str) (s : Loop)
      → length ws ≤ n
      → LoopOk d n s
      → LoopOk d n (save_words specp flags ws s)
  unfolding save_words
  save_words-LoopOk specp flags [] s l h = at_end_ok s.mode s h
  save_words-LoopOk specp flags (w ∷ ws) s l h =
      save_words-LoopOk specp flags ws (step_in s.mode specp flags w ws s) (omega arith)
        (step_ok s.mode specp flags w ws s (omega arith) h)
