-- ===== src/Parse/Depth.antt =====
-- sh.parse.c: the depth of parentheses on the two sides of a split.
use mcsh.Base.{
  zero, suc, Bool, true, false, ◌&&◌, none, some, List, [], ◌∷◌, if◌then◌else◌, Str, char0, ◌==◌, ℤ,
  pos, negsuc, ◌≡◌, refl, arith, sym, ◌∙◌,
}
use mcsh.Parse.Command.{SetErr, depth, is_zero}
use mcsh.Parse.Syntax.{
  Split, in_front, split_at, Scan, scan0, is_background, reads_on, close_err, next_amp, rest,
  is_semi, is_or, is_and, is_pipe,
}
use mcsh.Parse.Words.{Keeps}
use mcsh.Parse.Grouped.{level}

-- Words whose parentheses match, where no error is set.
abbrev pub Balanced : SetErr → List Str → Type 0
Balanced e ws = e ≡ none → level (pos 0) ws ≡ pos 0

-- The words in front end at depth 0, and those behind start there.
abbrev pub Flat : ℤ → List Str → Split → Type 0
Flat l ws none = Unit
Flat l ws (some (front, sep, behind)) =
    (level l front ≡ pos 0) × (level l ws ≡ level (pos 0) behind)

abbrev pub Neutral : (Str → Bool) → Type 0
Neutral test = (w : Str) (l : ℤ) → test w ≡ true → depth w l ≡ l

pub is_zero-eq : (l : ℤ) → is_zero l ≡ true → l ≡ pos 0
is_zero-eq (pos zero) h = refl
is_zero-eq (pos (suc n)) h = cc h
is_zero-eq (negsuc n) h = cc h

and_left : (a b : Bool) → (a && b) ≡ true → a ≡ true
and_left a b h = ground (arith, h)

and_right : (a b : Bool) → (a && b) ≡ true → b ≡ true
and_right a b h = ground (arith, h)

in_front-Flat :
    (w : Str) (l : ℤ) (ws : List Str) (o : Split)
    → Flat (depth w l) ws o
    → Flat l (w ∷ ws) (in_front w o)
unfolding level
in_front-Flat w l ws none h = tt
in_front-Flat w l ws (some (front, sep, behind)) h = h

if_Flat :
    (l : ℤ) (ws : List Str) (b : Bool) (x y : Split)
    → (b ≡ true → Flat l ws x)
    → Flat l ws y
    → Flat l ws (if b then x else y)
if_Flat l ws true x y p q = p refl
if_Flat l ws false x y p q = q

pub split_at-Flat :
    (test : Str → Bool) → Neutral test → (l : ℤ) (ws : List Str) → Flat l ws (split_at test l ws)
unfolding split_at level
split_at-Flat test k l [] = tt
split_at-Flat test k l (w ∷ ws) =
    if_Flat l (w ∷ ws) (is_zero l && test w) _ _
      (λ b.
        let z : l ≡ pos 0 = is_zero-eq l (and_left (is_zero l) (test w) b) in
        (z, rw (k w l (and_right (is_zero l) (test w) b), z) refl))
      (in_front-Flat w l ws (split_at test (depth w l) ws) (split_at-Flat test k (depth w l) ws))

-- The same for the loop of `syn0`, which counts the depth of the words where it splits none.
abbrev pub Sides : ℤ → List Str → ℤ → Split → Type 0
Sides l ws z none = z ≡ level l ws
Sides l ws z (some (front, sep, behind)) = level l front ≡ pos 0

in_front-Sides :
    (w : Str) (l z : ℤ) (ws : List Str) (o : Split)
    → Sides (depth w l) ws z o
    → Sides l (w ∷ ws) z (in_front w o)
unfolding level
in_front-Sides w l z ws none h = h
in_front-Sides w l z ws (some (front, sep, behind)) h = h

background-zero : (skip : Bool) (l : ℤ) (w : Str) → is_background skip l w ≡ true → is_zero l ≡ true
background-zero skip l w h = ground (arith, h)

if_Sides :
    (l : ℤ) (ws : List Str) (b : Bool) (x y : Scan)
    → (b ≡ true → Sides l ws x.level x.split)
    → Sides l ws y.level y.split
    → (let s = if b then x else y in Sides l ws s.level s.split)
if_Sides l ws true x y p q = p refl
if_Sides l ws false x y p q = q

pub scan0-Sides :
    (skip : Bool) (l : ℤ) (e : SetErr) (ws : List Str)
    → Sides l ws (scan0 skip l e ws).level (scan0 skip l e ws).split
unfolding scan0 level
scan0-Sides skip l e [] = refl
scan0-Sides skip l e (w ∷ ws) =
    let rest = scan0 (reads_on skip w) (depth w l) (close_err w l e) ws in
    if_Sides l (w ∷ ws) (is_background skip l w) _ _
      (λ b. is_zero-eq l (background-zero skip l w b))
      (in_front-Sides w l rest.level ws rest.split
        (scan0-Sides (reads_on skip w) (depth w l) (close_err w l e) ws))

-- Errors stay, so words that are balanced are balanced later.
pub behind-Balanced :
    (d e : SetErr) (ws vs : List Str)
    → Keeps d e
    → (d ≡ none → level (pos 0) ws ≡ pos 0)
    → level (pos 0) ws ≡ level (pos 0) vs
    → Balanced e vs
behind-Balanced d none ws vs k b q = λ h. sym q ∙ b k
behind-Balanced d (some x) ws vs k b q = λ h. cc h

pub level-after_amp :
    (ws : List Str) → level (pos 0) ws ≡ level (pos 0) (if next_amp ws then rest ws else ws)
unfolding level
level-after_amp [] = refl
level-after_amp (w ∷ ws) = go (char0 w == b'&') refl
  where
    go :
        (b : Bool)
        → (char0 w == b'&') ≡ b
        → level (pos 0) (w ∷ ws) ≡ level (pos 0) (if b then ws else w ∷ ws)
    go true c = ground (arith, c)
    go false c = refl

pub is_semi-Neutral : Neutral is_semi
is_semi-Neutral w l h = ground arith

pub is_or-Neutral : Neutral is_or
is_or-Neutral w l h = ground arith

pub is_and-Neutral : Neutral is_and
is_and-Neutral w l h = ground arith

pub is_pipe-Neutral : Neutral is_pipe
is_pipe-Neutral w l h = ground arith
