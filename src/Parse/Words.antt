-- ===== src/Parse/Words.antt =====
-- sh.parse.c: what the scans and the loops of `syn3` leave, for the proofs about the levels.
use mcsh.Base.{
  ℕ, zero, suc, ◌-◌, ◌≤◌, ◌<◌, Bool, true, false, ◌&&◌, Option, none, some, List, [], ◌∷◌, ◌++◌,
  if◌then◌else◌, leb, Str, char0, ℤ, length, take, ◌≡◌, ◌≢◌, refl, arith, All,
}
use mcsh.Parse.Command.{SynError, SetErr, seterror, is_zero, depth}
use mcsh.Parse.Simple.{Loop, save}
use mcsh.Parse.Syntax.{
  Split, in_front, split_at, Scan, scan0, skip_empty, between_pointers, is_background, reads_on,
  close_err,
}

-- The two sides of a split are shorter than the words that it splits.
abbrev pub SplitsBelow : ℕ → Split → Type 0
SplitsBelow n none = Unit
SplitsBelow n (some (front, sep, behind)) = (length front < n) × (length behind < n)

in_front-SplitsBelow :
    (n : ℕ) (w : Str) (o : Split) → SplitsBelow n o → SplitsBelow (suc n) (in_front w o)
in_front-SplitsBelow n w none h = tt
in_front-SplitsBelow n w (some (front, sep, behind)) h = omega arith

if_split {ℓ} : (P : Split → Type ℓ) (b : Bool) (x y : Split) → P x → P y → P (if b then x else y)
if_split P true x y p q = p
if_split P false x y p q = q

pub split_at-SplitsBelow :
    (test : Str → Bool) (l : ℤ) (ws : List Str) → SplitsBelow (length ws) (split_at test l ws)
unfolding split_at
split_at-SplitsBelow test l [] = tt
split_at-SplitsBelow test l (w ∷ ws) =
    if_split (SplitsBelow (suc (length ws))) (is_zero l && test w) _ _ (omega arith) (
      in_front-SplitsBelow (length ws) w (split_at test (depth w l) ws)
        (split_at-SplitsBelow test (depth w l) ws))

-- The split of `syn0` is at a word that begins with `&`.
abbrev pub AtAmp : Split → Type 0
AtAmp none = Unit
AtAmp (some (front, sep, behind)) = char0 sep ≡ b'&'

in_front-AtAmp : (w : Str) (o : Split) → AtAmp o → AtAmp (in_front w o)
in_front-AtAmp w none h = tt
in_front-AtAmp w (some (front, sep, behind)) h = h

-- An error that is there stays.
abbrev pub Keeps : SetErr → SetErr → Type 0
Keeps e none = e ≡ none
Keeps e (some x) = Unit

pub Keeps-refl : (e : SetErr) → Keeps e e
Keeps-refl none = refl
Keeps-refl (some x) = tt

pub Keeps-seterror : (id : SynError) (d e : SetErr) → Keeps d e → Keeps d (seterror id e)
unfolding seterror
Keeps-seterror id d none h = tt
Keeps-seterror id d (some x) h = tt

Keeps-close_err : (w : Str) (l : ℤ) (d e : SetErr) → Keeps d e → Keeps d (close_err w l e)
unfolding seterror
Keeps-close_err w l d none h = ground arith
Keeps-close_err w l d (some x) h = ground arith

abbrev pub ScanOk : SetErr → ℕ → Scan → Type 0
ScanOk d n s = SplitsBelow n s.split × AtAmp s.split × Keeps d s.err

if_scan :
    (P : Scan → Type 0) (b : Bool) (x y : Scan) → (b ≡ true → P x) → P y → P (if b then x else y)
if_scan P true x y p q = p refl
if_scan P false x y p q = q

is_background-amp : (skip : Bool) (l : ℤ) (w : Str) → is_background skip l w ≡ true → char0 w ≡ b'&'
is_background-amp skip l w h = ground arith

pub scan0-ScanOk :
    (skip : Bool) (l : ℤ) (d e : SetErr) (ws : List Str)
    → Keeps d e
    → ScanOk d (length ws) (scan0 skip l e ws)
unfolding scan0
scan0-ScanOk skip l d e [] k = (tt, tt, k)
scan0-ScanOk skip l d e (w ∷ ws) k =
    let rest = scan0 (reads_on skip w) (depth w l) (close_err w l e) ws in
    let ih =
      scan0-ScanOk (reads_on skip w) (depth w l) d (close_err w l e) ws
        (Keeps-close_err w l d e k) in
    if_scan (ScanOk d (suc (length ws))) (is_background skip l w) _ _
      (λ h. ((omega arith, omega arith), is_background-amp skip l w h, k))
      (in_front-SplitsBelow (length ws) w rest.split ih.0, in_front-AtAmp w rest.split ih.1, ih.2)

pub length-skip_empty : (ws : List Str) → length (skip_empty ws) ≤ length ws
unfolding skip_empty
length-skip_empty [] = omega arith
length-skip_empty (w ∷ ws) = ground (arith, length-skip_empty ws)

length-take-le : (n : ℕ) (ws : List Str) → length (take n ws) ≤ length ws
length-take-le zero ws = omega arith
length-take-le (suc n) [] = omega arith
length-take-le (suc n) (w ∷ ws) = omega (arith, length-take-le n ws)

-- The words of a group are no more than those from its beginning on.
abbrev pub AtMost : ℕ → Option (List Str) → Type 0
AtMost n none = Unit
AtMost n (some ws) = length ws ≤ n

pub between_pointers-AtMost :
    (lp : List Str) (rp : Option (List Str)) → AtMost (length lp) (between_pointers lp rp)
between_pointers-AtMost lp none = tt
between_pointers-AtMost lp (some rp) = go (leb (length rp) (length lp))
  where
    go :
        (b : Bool) → AtMost (length lp) (if b then some (take (length lp - length rp) lp) else none)
    go true = length-take-le (length lp - length rp) lp
    go false = tt

-- `lp` points into the words that were given.
abbrev pub PointsBelow : ℕ → Option (List Str) → Type 0
PointsBelow n none = Unit
PointsBelow n (some ws) = length ws < n

-- While there is no error, all words are saved.
abbrev IsSaved : Option Str → Type 0
IsSaved o = o ≢ none

abbrev pub AllSaved : List (Option Str) → Type 0
AllSaved = All (λ o. o ≢ none)

abbrev pub Saves : SetErr → SetErr → List (Option Str) → Type 0
Saves d none av = (d ≡ none) × AllSaved av
Saves d (some e) av = Unit

pub record LoopOk (d : SetErr) (n : ℕ) (s : Loop) : Type 0 where
  pub saves : Saves d s.err s.av
  pub points : PointsBelow n s.lp

-- A loop state that differs in nothing that `LoopOk` reads, or has an error, or a word more.
pub Saves-error :
    (d e : SetErr) (av av' : List (Option Str)) (id : SynError) → Saves d (seterror id e) av'
unfolding seterror
Saves-error d none av av' id = tt
Saves-error d (some e) av av' id = tt

AllSaved-append : (av : List (Option Str)) (w : Str) → AllSaved av → AllSaved (av ++ some w ∷ [])
AllSaved-append [] w h = ((λ e. cc), tt)
AllSaved-append (o ∷ av) w (p, h) = (p, AllSaved-append av w h)

pub save-LoopOk : (d : SetErr) (n : ℕ) (w : Str) (s : Loop) → LoopOk d n s → LoopOk d n (save w s)
save-LoopOk d n w s h = record { saves = go s.err h.saves; points = h.points }
  where
    go :
        (e : SetErr)
        → Saves d e s.av
        → Saves d e (s.av ++ (elim e [ none ↦ some w | some x ↦ none ] ∷ []))
    go none (p, q) = (p, AllSaved-append s.av w q)
    go (some x) h = tt
