-- ===== src/Parse/Syntax.antt =====
-- sh.parse.c: `syntax` and `syn0` to `syn3`, for input that is not read from a terminal (`intty` is
-- 0). The words from p1 up to p2 are a list; `stop` is the first character of the word at p2.
use mcsh.Base.{
  ℕ, zero, suc, ◌+◌, ◌-◌, ◌*◌, Bool, true, false, not, ◌&&◌, ◌||◌, Option, none, some, List, [],
  ◌∷◌, ◌==◌, leb, if◌then◌else◌, Str, codes, eq, any, char0, char1, ℤ, pos, negsuc, length, take,
}
use mcsh.Parse.Command.{
  too_many_rp, too_many_lp, bad_plps, null_com, SetErr, seterror, Flags, no_flags, Redirects,
  Command, null, command, paren, pipe, and, or, list, Context, outside, dec, depth, is_zero, specp,
}
use mcsh.Parse.Simple.{Loop, between, save_words}

-- A run with `seterr`. `astray`: `syn3` comes to a group in parentheses whose end `rp` is a null
-- pointer, or in front of its beginning `lp`. The source then walks on around the circular list of
-- words, in the first case without end; the model stops with `seterr`. `out_of_fuel` belongs to the model only.
pub data Run : Type 0 where
  done : Command → SetErr → Run
  astray : SetErr → Run
  out_of_fuel : Run

abbrev pub then_run : Run → (Command → SetErr → Run) → Run
then_run (done t e) f = f t e
then_run (astray e) f = astray e
then_run out_of_fuel f = out_of_fuel

-- The scan for the word at which a level splits its words: those in front, it, and those behind.
abbrev pub Split : Type 0
Split = Option (List Str × Str × List Str)

abbrev pub in_front : Str → Split → Split
in_front w none = none
in_front w (some (front, sep, behind)) = some (w ∷ front, sep, behind)

unfoldable pub split_at : (Str → Bool) → ℤ → List Str → Split
split_at test l [] = none
split_at test l (w ∷ ws) =
    let rest = in_front w (split_at test (depth w l) ws) in
    if is_zero l && test w then some ([], w, ws) else rest

abbrev pub is_semi : Str → Bool
is_semi w = char0 w == b';' || char0 w == b'\n'

abbrev pub is_or : Str → Bool
is_or w = char0 w == b'|' && char1 w == b'|'

abbrev pub is_and : Str → Bool
is_and w = char0 w == b'&' && char1 w == b'&'

abbrev pub is_pipe : Str → Bool
is_pipe w = char0 w == b'|'

-- The loop of `syn0`: the split at `&`, the depth at the end, and `seterr`.
pub record Scan : Type 0 where
  pub split : Split
  pub level : ℤ
  pub err : SetErr

abbrev pub minus_one : ℤ → Bool
minus_one (pos n) = false
minus_one (negsuc n) = true

-- `skip` tells that the word behind `|` or `>` was read: an `&` there is passed over.
abbrev pub over : Bool → Str → Bool
over skip w = skip && eq w (codes "&")

abbrev pub reads_on : Bool → Str → Bool
reads_on skip w =
    not (over skip w) && ((char0 w == b'|' && not (char1 w == b'|')) || char0 w == b'>')

abbrev pub is_background : Bool → ℤ → Str → Bool
is_background skip l w =
    not (over skip w) && (char0 w == b'&' && (is_zero l && not (char1 w == b'&')))

abbrev pub close_err : Str → ℤ → SetErr → SetErr
close_err w l e = if char0 w == b')' && minus_one (dec l) then seterror too_many_rp e else e

unfoldable pub scan0 : Bool → ℤ → SetErr → List Str → Scan
scan0 skip l e [] = record { split = none; level = l; err = e }
scan0 skip l e (w ∷ ws) =
    let rest = scan0 (reads_on skip w) (depth w l) (close_err w l e) ws in
    if is_background skip l w
    then record { split = some ([], w, ws); level = l; err = e }
    else record rest { split = in_front w rest.split }

-- `t1->t_dflg |= F_AMPERSAND | F_NOINTERRUPT`, under a NODE_PAREN where there are several commands.
abbrev bg_flags : Flags → Flags
bg_flags f = record f { ampersand = true; nointerrupt = true }

abbrev bg_redirects : Redirects → Redirects
bg_redirects r = record r { flags = bg_flags r.flags }

abbrev no_redirects : Flags → Redirects
no_redirects f = record { flags = f; lef = none; rit = none }

unfoldable pub background : Command → Command
background null = null
background (command r av) = command (bg_redirects r) av
background (paren r t) = paren (bg_redirects r) t
background (pipe f a b) = pipe (bg_flags f) a b
background (and f a b) = paren (no_redirects (bg_flags no_flags)) (and f a b)
background (or f a b) = paren (no_redirects (bg_flags no_flags)) (or f a b)
background (list f a b) = paren (no_redirects (bg_flags no_flags)) (list f a b)

-- `syn1`'s list node: with nothing behind the `;` its one command moves to the right.
abbrev pub list_of : Command → Command → Command
list_of car null = list no_flags null car
list_of car cdr = list no_flags car cdr

-- The words that `syntax` passes over.
unfoldable pub skip_empty : List Str → List Str
skip_empty [] = []
skip_empty (w ∷ ws) =
    let more = skip_empty ws in if any (codes ";&\n") (char0 w) then more else w ∷ ws

-- The words from `lp` up to `rp`, where `rp` is set and not in front of `lp`.
abbrev pub between_pointers : List Str → Option (List Str) → Option (List Str)
between_pointers lp none = none
between_pointers lp (some rp) =
    if leb (length rp) (length lp) then some (take (length lp - length rp) lp) else none

abbrev pub start : ℕ → SetErr → Loop
start stop e = record {
  mode = between;
  l = pos 0;
  lp = none;
  rp = none;
  av = [];
  redirects = record {
    flags = if stop == b')' then record no_flags { nofork = true } else no_flags;
    lef = none;
    rit = none;
  };
  err = e;
}

abbrev pub next_amp : List Str → Bool
next_amp [] = false
next_amp (w ∷ ws) = char0 w == b'&'

abbrev pub rest : List Str → List Str
rest [] = []
rest (w ∷ ws) = ws

-- One function for each level. Each call costs a unit of fuel.
unfoldable mutual
  pub syntax : ℕ → Context → ℕ → List Str → SetErr → Run
  syntax zero flags stop ws e = out_of_fuel
  syntax (suc f) flags stop ws e = elim (skip_empty ws) [
    | [] ↦ done null e
    | w ∷ vs ↦ syn0 f flags stop (w ∷ vs) e
  ]

  pub syn0 : ℕ → Context → ℕ → List Str → SetErr → Run
  syn0 zero flags stop ws e = out_of_fuel
  syn0 (suc f) flags stop ws e =
      let s = scan0 false (pos 0) e ws in
      elim s.split [
        | some (front, sep, behind) ↦ then_run (syn1 f flags (char0 sep) front s.err) λ t1 e1.
            then_run (syntax f flags stop (sep ∷ behind) e1)
              λ t2 e2. done (list no_flags (background t1) t2) e2
        | none ↦ elim (is_zero s.level) [
          | true ↦ syn1 f flags stop ws s.err
          | false ↦ done null (seterror too_many_lp s.err)
        ]
      ]

  pub syn1 : ℕ → Context → ℕ → List Str → SetErr → Run
  syn1 zero flags stop ws e = out_of_fuel
  syn1 (suc f) flags stop ws e = elim (split_at is_semi (pos 0) ws) [
    | none ↦ syn1a f flags stop ws e
    | some (front, sep, behind) ↦
        then_run (syn1a f flags (char0 sep) front e)
          λ t1 e1. then_run (syntax f flags stop behind e1) λ t2 e2. done (list_of t1 t2) e2
  ]

  pub syn1a : ℕ → Context → ℕ → List Str → SetErr → Run
  syn1a zero flags stop ws e = out_of_fuel
  syn1a (suc f) flags stop ws e = elim (split_at is_or (pos 0) ws) [
    | none ↦ syn1b f flags stop ws e
    | some (front, sep, behind) ↦
        then_run (syn1b f flags (char0 sep) front e)
          λ t1 e1. then_run (syn1a f flags stop behind e1) λ t2 e2. done (or no_flags t1 t2) e2
  ]

  pub syn1b : ℕ → Context → ℕ → List Str → SetErr → Run
  syn1b zero flags stop ws e = out_of_fuel
  syn1b (suc f) flags stop ws e = elim (split_at is_and (pos 0) ws) [
    | none ↦ syn2 f flags stop ws e
    | some (front, sep, behind) ↦
        then_run (syn2 f flags (char0 sep) front e)
          λ t1 e1. then_run (syn1b f flags stop behind e1) λ t2 e2. done (and no_flags t1 t2) e2
  ]

  -- An `&` behind the `|` sends the diagnostic output along.
  pub syn2 : ℕ → Context → ℕ → List Str → SetErr → Run
  syn2 zero flags stop ws e = out_of_fuel
  syn2 (suc f) flags stop ws e = elim (split_at is_pipe (pos 0) ws) [
    | none ↦ syn3 f flags stop ws e
    | some (front, sep, behind) ↦
        let amp = next_amp behind in
        then_run
          (syn3 f (record flags { p_out = true; p_diag = flags.p_diag || amp }) (char0 sep) front e)
          λ t1 e1.
            then_run
              (syn2 f (record flags { p_in = true }) stop (if amp then rest behind else behind) e1)
              λ t2 e2. done (pipe (record no_flags { stderr = amp }) t1 t2) e2
  ]

  pub syn3 : ℕ → Context → ℕ → List Str → SetErr → Run
  syn3 zero flags stop ws e = out_of_fuel
  syn3 (suc f) flags stop ws e =
      let s = save_words (specp ws) flags ws (start stop e) in
      elim (if specp ws then none else s.lp) [
        | none ↦
            done (command s.redirects s.av)
              (if length s.av == 0 then seterror null_com s.err else s.err)
        | some lp ↦ elim (between_pointers lp s.rp) [
          | none ↦ astray (if length s.av == 0 then s.err else seterror bad_plps s.err)
          | some inner ↦
              then_run
                (syn0 f (record outside { here = true }) b')' inner
                  (if length s.av == 0 then s.err else seterror bad_plps s.err))
                λ t e1. done (paren s.redirects t) e1
        ]
      ]

-- Each word can open a level of its own, and seven calls lead from one level to the next.
abbrev pub fuel_for : List Str → ℕ
fuel_for ws = 8 * length ws + 8

-- `syntax(p1, p2, 0)` for a whole line.
unfoldable pub parse : List Str → Run
parse ws = syntax (fuel_for ws) outside 0 ws none
