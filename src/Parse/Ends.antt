-- ===== src/Parse/Ends.antt =====
-- sh.parse.c: the levels with their fuel, and the trees that they give.
use mcsh.Base.{
  ℕ, zero, suc, ◌+◌, ◌*◌, ◌≤◌, ◌<◌, Bool, true, false, ◌||◌, Option, none, some, List, [], ◌∷◌,
  ◌==◌, if◌then◌else◌, Str, char0, length, arith, subst, sym, ℤ, pos, ◌≡◌, ◌≢◌, refl, ◌∙◌,
}
use mcsh.Parse.Command.{
  too_many_lp, bad_plps, null_com, SetErr, seterror, no_flags, null, command, paren, pipe, and, or,
  list, Context, outside, is_zero, specp,
}
use mcsh.Parse.Simple.{Loop, save_words}
use mcsh.Parse.Words.{
  SplitsBelow, split_at-SplitsBelow, AtAmp, Keeps-refl, ScanOk, scan0-ScanOk, length-skip_empty,
  AtMost, between_pointers-AtMost, PointsBelow, LoopOk,
}
use mcsh.Parse.Grouped.{level, counted, seterror-none, Shape, group_end, start-Shape}
use mcsh.Parse.Depth.{
  Balanced, Sides, is_zero-eq, split_at-Flat, scan0-Sides, behind-Balanced, level-after_amp,
  is_semi-Neutral, is_or-Neutral, is_and-Neutral, is_pipe-Neutral,
}
use mcsh.Parse.Saved.{save_words-LoopOk}
use mcsh.Parse.WellFormed.{
  WellFormed, WellFormed-background, WellFormed-list_of, Good, Good-error, Good-both, by_split,
  Good-Keeps, skip_empty-amp, command_ok, plps-Keeps, start-LoopOk, Good-null, Good-weaken,
  Good-paren,
}
use mcsh.Parse.Syntax.{
  Run, done, astray, then_run, Split, split_at, is_semi, is_or, is_and, is_pipe, Scan, scan0,
  background, list_of, skip_empty, between_pointers, syntax, syn0, syn1, syn1a, syn1b, syn2, syn3,
  fuel_for, parse, start, next_amp, rest,
}

abbrev Level : Type 0
Level = Context → ℕ → List Str → SetErr → Run

-- A level that has the fuel f: `8 * length ws + k` is enough for it.
abbrev Enough : ℕ → ℕ → Level → Type 0
Enough f k level =
    (flags : Context) (stop : ℕ) (ws : List Str) (e : SetErr)
    → Balanced e ws
    → 8 * length ws + k ≤ f
    → Good false e (level flags stop ws e)

record Levels (f : ℕ) : Type 0 where
  syntax_ok :
      (flags : Context) (stop : ℕ) (ws : List Str) (e : SetErr)
      → 8 * length (skip_empty ws) + 8 ≤ f
      → Good true e (syntax f flags stop ws e)
  syn0_ok :
      (flags : Context) (stop : ℕ) (ws : List Str) (e : SetErr)
      → 8 * length ws + 7 ≤ f
      → Good false e (syn0 f flags stop ws e)
  syn1_ok : Enough f 6 (syn1 f)
  syn1a_ok : Enough f 5 (syn1a f)
  syn1b_ok : Enough f 4 (syn1b f)
  syn2_ok : Enough f 3 (syn2 f)
  syn3_ok : Enough f 2 (syn3 f)

module _ (f : ℕ) (below : Levels f) where
  syntax_step :
      (flags : Context) (stop : ℕ) (ws : List Str) (e : SetErr)
      → 8 * length (skip_empty ws) + 8 ≤ suc f
      → Good true e (syntax (suc f) flags stop ws e)
  unfolding syntax
  syntax_step flags stop ws e h = go (skip_empty ws) h
    where
      go :
          (vs : List Str)
          → 8 * length vs + 8 ≤ suc f
          → Good true e (elim vs [ [] ↦ done null e | w ∷ vs ↦ syn0 f flags stop (w ∷ vs) e ])
      go [] h = Good-null e
      go (w ∷ vs) h =
          Good-weaken e (syn0 f flags stop (w ∷ vs) e)
            (below.syn0_ok flags stop (w ∷ vs) e (omega arith))

  syn0_step :
      (flags : Context) (stop : ℕ) (ws : List Str) (e : SetErr)
      → 8 * length ws + 7 ≤ suc f
      → Good false e (syn0 (suc f) flags stop ws e)
  unfolding syntax WellFormed
  syn0_step flags stop ws e h =
      go (scan0 false (pos 0) e ws) (scan0-ScanOk false (pos 0) e e ws (Keeps-refl e))
        (scan0-Sides false (pos 0) e ws)
    where
      at :
          (l : ℤ) (d : SetErr) (b : Bool)
          → l ≡ level (pos 0) ws
          → is_zero l ≡ b
          → Good false d (elim b [
            | true ↦ syn1 f flags stop ws d
            | false ↦ done null (seterror too_many_lp d)
          ])
      at l d true z c = below.syn1_ok flags stop ws d (λ _. sym z ∙ is_zero-eq l c) (omega arith)
      at l d false z c = Good-error false d null d too_many_lp

      two :
          (d : SetErr) (o : Split) (l : ℤ)
          → SplitsBelow (length ws) o
          → AtAmp o
          → Sides (pos 0) ws l o
          → Good false d (elim o [
            | some (front, sep, behind) ↦ then_run (syn1 f flags (char0 sep) front d) λ t1 e1.
                then_run
                  (syntax f flags stop (sep ∷ behind) e1)
                  λ t2 e2. done (list no_flags (background t1) t2) e2
            | none ↦ elim (is_zero l) [
              | true ↦ syn1 f flags stop ws d
              | false ↦ done null (seterror too_many_lp d)
            ]
          ])
      two d none l s a z = at l d (is_zero l) z refl
      two d (some (front, sep, behind)) l s a z =
          Good-both false true false d (syn1 f flags (char0 sep) front d)
            (syntax f flags stop (sep ∷ behind)) (λ t u. list no_flags (background t) u)
            (below.syn1_ok flags (char0 sep) front d (λ _. z) (omega arith))
            (λ e _. below.syntax_ok flags stop (sep ∷ behind) e (
              subst (λ v. 8 * length v + 8 ≤ f) (sym (skip_empty-amp sep behind a))
                (omega (arith, length-skip_empty behind))))
            λ t u p q. (WellFormed-background t p, q)

      go :
          (s : Scan)
          → ScanOk e (length ws) s
          → Sides (pos 0) ws s.level s.split
          → Good false e (elim s.split [
            | some (front, sep, behind) ↦ then_run (syn1 f flags (char0 sep) front s.err) λ t1 e1.
                then_run
                  (syntax f flags stop (sep ∷ behind) e1)
                  λ t2 e2. done (list no_flags (background t1) t2) e2
            | none ↦ elim (is_zero s.level) [
              | true ↦ syn1 f flags stop ws s.err
              | false ↦ done null (seterror too_many_lp s.err)
            ]
          ])
      go s k z = Good-Keeps false e s.err _ k.2 (two s.err s.split s.level k.0 k.1 z)

  syn1_step : Enough (suc f) 6 (syn1 (suc f))
  unfolding syntax WellFormed
  syn1_step flags stop ws e bal h =
      by_split false e ws (split_at is_semi (pos 0) ws) (syn1a f flags stop ws e) _
        (split_at-SplitsBelow is_semi (pos 0) ws) (split_at-Flat is_semi is_semi-Neutral (pos 0) ws)
        (below.syn1a_ok flags stop ws e bal (omega arith))
        λ front sep behind p q z.
          Good-both false true false e (syn1a f flags (char0 sep) front e)
            (syntax f flags stop behind) list_of
            (below.syn1a_ok flags (char0 sep) front e (λ _. z.0) (omega arith))
            (λ d _. below.syntax_ok flags stop behind d (omega (arith, length-skip_empty behind)))
            λ t u. WellFormed-list_of t u

  syn1a_step : Enough (suc f) 5 (syn1a (suc f))
  unfolding syntax WellFormed
  syn1a_step flags stop ws e bal h =
      by_split false e ws (split_at is_or (pos 0) ws) (syn1b f flags stop ws e) _
        (split_at-SplitsBelow is_or (pos 0) ws) (split_at-Flat is_or is_or-Neutral (pos 0) ws)
        (below.syn1b_ok flags stop ws e bal (omega arith))
        λ front sep behind p q z.
          Good-both false false false e (syn1b f flags (char0 sep) front e)
            (syn1a f flags stop behind) (or no_flags)
            (below.syn1b_ok flags (char0 sep) front e (λ _. z.0) (omega arith))
            (λ d k.
              below.syn1a_ok flags stop behind d (behind-Balanced e d ws behind k bal z.1)
                (omega arith))
            λ t u p q. (p, q)

  syn1b_step : Enough (suc f) 4 (syn1b (suc f))
  unfolding syntax WellFormed
  syn1b_step flags stop ws e bal h =
      by_split false e ws (split_at is_and (pos 0) ws) (syn2 f flags stop ws e) _
        (split_at-SplitsBelow is_and (pos 0) ws) (split_at-Flat is_and is_and-Neutral (pos 0) ws)
        (below.syn2_ok flags stop ws e bal (omega arith))
        λ front sep behind p q z.
          Good-both false false false e (syn2 f flags (char0 sep) front e)
            (syn1b f flags stop behind) (and no_flags)
            (below.syn2_ok flags (char0 sep) front e (λ _. z.0) (omega arith))
            (λ d k.
              below.syn1b_ok flags stop behind d (behind-Balanced e d ws behind k bal z.1)
                (omega arith))
            λ t u p q. (p, q)

  length-after_amp : (b : Bool) (ws : List Str) → length (if b then rest ws else ws) ≤ length ws
  length-after_amp true [] = omega arith
  length-after_amp true (w ∷ ws) = omega arith
  length-after_amp false ws = omega arith

  syn2_step : Enough (suc f) 3 (syn2 (suc f))
  unfolding syntax WellFormed
  syn2_step flags stop ws e bal h =
      by_split false e ws (split_at is_pipe (pos 0) ws) (syn3 f flags stop ws e) _
        (split_at-SplitsBelow is_pipe (pos 0) ws) (split_at-Flat is_pipe is_pipe-Neutral (pos 0) ws)
        (below.syn3_ok flags stop ws e bal (omega arith))
        λ front sep behind p q z.
          let amp = next_amp behind in
          let behind' = if amp then rest behind else behind in
          Good-both false false false e
            (syn3 f (record flags { p_out = true; p_diag = flags.p_diag || amp }) (char0 sep) front
              e)
            (syn2 f (record flags { p_in = true }) stop behind')
            (pipe (record no_flags { stderr = amp }))
            (below.syn3_ok _ (char0 sep) front e (λ _. z.0) (omega arith))
            (λ d k.
              below.syn2_ok _ stop behind' d
                (behind-Balanced e d ws behind' k bal (z.1 ∙ level-after_amp behind))
                (omega (arith, length-after_amp amp behind)))
            λ t u p q. (p, q)

  syn3_step : Enough (suc f) 2 (syn3 (suc f))
  unfolding syntax WellFormed
  syn3_step flags stop ws e bal h = go (specp ws) s.lp refl refl ok.points
    where
      s : Loop
      s = save_words (specp ws) flags ws (start stop e)

      ok : LoopOk e (length ws) s
      ok =
          save_words-LoopOk e (length ws) (specp ws) flags ws (start stop e) (omega arith)
            (start-LoopOk (length ws) stop e)

      d : SetErr
      d = if length s.av == 0 then s.err else seterror bad_plps s.err

      has_end :
          (lp : List Str)
          → specp ws ≡ false
          → s.lp ≡ some lp
          → d ≡ none
          → between_pointers lp s.rp ≢ none
      has_end lp b p z =
          let c =
            counted (specp ws) flags ws (start stop e) b
              (seterror-none (length s.av == 0) bad_plps s.err z) in
          group_end s.l lp s.rp (c.at_level ∙ bal c.started)
            (subst (λ o. Shape 0 s.l o s.rp) p (c.ended (start-Shape (length ws))))

      group :
          (n : ℕ) (o : Option (List Str))
          → n < length ws
          → AtMost n o
          → (d ≡ none → o ≢ none)
          → Good false e (elim o [
            | none ↦ astray d
            | some inner ↦
                then_run
                  (syn0 f (record outside { here = true }) b')' inner d)
                  λ t e1. done (paren s.redirects t) e1
          ])
      group n none p q r = λ z. r z refl
      group n (some inner) p q _ =
          let r = syn0 f (record outside { here = true }) b')' inner d in
          Good-paren e s.redirects r (
            Good-Keeps false e d r (plps-Keeps e (length ws) s ok)
              (below.syn0_ok (record outside { here = true }) b')' inner d (omega arith)))

      go :
          (b : Bool) (o : Option (List Str))
          → specp ws ≡ b
          → s.lp ≡ o
          → PointsBelow (length ws) o
          → Good false e (elim (if b then none else o) [
            | none ↦
                done
                  (command s.redirects s.av)
                  (if length s.av == 0 then seterror null_com s.err else s.err)
            | some lp ↦ elim (between_pointers lp s.rp) [
              | none ↦ astray d
              | some inner ↦
                  then_run
                    (syn0 f (record outside { here = true }) b')' inner d)
                    λ t e1. done (paren s.redirects t) e1
            ]
          ])
      go true o b c p = command_ok e (length ws) s ok
      go false none b c p = command_ok e (length ws) s ok
      go false (some lp) b c p =
          group (length lp) (between_pointers lp s.rp) p (between_pointers-AtMost lp s.rp)
            (has_end lp b c)

Levels-zero : Levels 0
unfolding syntax
Levels-zero = record {
  syntax_ok = λ flags stop ws e h. omega arith;
  syn0_ok = λ flags stop ws e h. omega arith;
  syn1_ok = λ flags stop ws e b h. omega arith;
  syn1a_ok = λ flags stop ws e b h. omega arith;
  syn1b_ok = λ flags stop ws e b h. omega arith;
  syn2_ok = λ flags stop ws e b h. omega arith;
  syn3_ok = λ flags stop ws e b h. omega arith;
}

levels : (f : ℕ) → Levels f
levels zero = Levels-zero
levels (suc f) =
    let below = levels f in
    record {
      syntax_ok = syntax_step f below;
      syn0_ok = syn0_step f below;
      syn1_ok = syn1_step f below;
      syn1a_ok = syn1a_step f below;
      syn1b_ok = syn1b_step f below;
      syn2_ok = syn2_step f below;
      syn3_ok = syn3_step f below;
    }

-- For any words, `parse` never runs out of its fuel: it ends, or comes to a group whose end pointer
-- is null or in front of its beginning (`astray`), and that only with an error set. Where it ends with no error, the tree can be
-- executed as it stands: every simple command has a word and none of its words is missing, every
-- group has a command, and so have both sides of each pipe, `&&` and `||`; only a side of a list
-- can be empty.
pub parse-Good : (ws : List Str) → Good true none (parse ws)
unfolding parse
parse-Good ws =
    (levels (fuel_for ws)).syntax_ok outside 0 ws none (omega (arith, length-skip_empty ws))
