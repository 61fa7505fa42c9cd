-- ===== src/Match/Fuel.antt =====
-- sh.glob.c: the fuel of `t_pmatch`, a unit for each character of the pattern and one more.
use mcsh.Base.{
  ℕ, zero, suc, ◌≤◌, ◌<◌, Bool, true, false, not, ◌&&◌, ◌||◌, Option, none, some, [], ◌∷◌, ◌==◌,
  if◌then◌else◌, Str, arith, length,
}
use mcsh.Match.{
  Locale, Class, found, no_bracket, class_overrun, scan_class, Match, no_match, partial, exact,
  missing, overrun, out_of_fuel, later, finish, star_case, star, negated, xor, class_case,
  same_char, char_of, in_range, pmatch, t_pmatch,
}

abbrev pub Ends : Match → Type 0
Ends out_of_fuel = ⊥
Ends r = Unit

-- The pattern behind a class is no longer than `n`.
abbrev Within : ℕ → Class → Type 0
Within n (found match r) = length r ≤ n
Within n c = Unit

Within-weaken : (m n : ℕ) (c : Class) → m ≤ n → Within m c → Within n c
Within-weaken m n (found match r) l h = omega arith
Within-weaken m n no_bracket l h = tt
Within-weaken m n class_overrun l h = tt

if_Within :
    (n : ℕ) (b : Bool) (x y : Class) → Within n x → Within n y → Within n (if b then x else y)
if_Within n true x y h k = h
if_Within n false x y h k = k

scan_class-Within :
    (loc : Locale) (c : ℕ) (match : Bool) (p : Str) → Within (length p) (scan_class loc c match p)
unfolding scan_class
scan_class-Within loc c match [] = tt
scan_class-Within loc c match (r ∷ []) = if_Within 1 (r == b']') _ _ (omega arith) tt
scan_class-Within loc c match (r ∷ d ∷ []) = if_Within 2 (r == b']') _ _ (omega arith) (
    if_Within 2 (not match && d == b'-') _ _ tt
      (Within-weaken 1 2 _ (omega arith) (scan_class-Within loc c (match || c == r) (d ∷ []))))
scan_class-Within loc c match (r ∷ d ∷ e ∷ p) =
    let n = suc (suc (suc (length p))) in
    if_Within n (r == b']') _ _ (omega arith) (
      if_Within n (not match && (d == b'-' && not (e == b']'))) _ _
        (Within-weaken (length p) n _ (omega arith)
          (scan_class-Within loc c (in_range loc c r e) p))
        (Within-weaken (suc (suc (length p))) n _ (omega arith)
          (scan_class-Within loc c (match || c == r) (d ∷ e ∷ p))))

if_Ends : (b : Bool) (x y : Match) → Ends x → Ends y → Ends (if b then x else y)
if_Ends true x y h k = h
if_Ends false x y h k = k

star_case-Ends :
    (r : Match) (best : Option Str) (go : Option Str → Match)
    → Ends r
    → ((b : Option Str) → Ends (go b))
    → Ends (star_case r best go)
star_case-Ends no_match best go h k = k best
star_case-Ends (partial r) best go h k = k (later r best)
star_case-Ends (exact r) best go h k = tt
star_case-Ends missing best go h k = tt
star_case-Ends overrun best go h k = tt
star_case-Ends out_of_fuel best go h k = h

finish-Ends : (b : Option Str) → Ends (finish b)
finish-Ends none = tt
finish-Ends (some r) = tt

star-Ends :
    (k : Str → Match) (best : Option Str) (s : Str)
    → ((t : Str) → Ends (k t))
    → Ends (star k best s)
unfolding star
star-Ends k best [] h = star_case-Ends (k []) best finish (h []) finish-Ends
star-Ends k best (c ∷ s) h =
    star_case-Ends (k (c ∷ s)) best (λ b. star k b s) (h (c ∷ s)) λ b. star-Ends k b s h

class_case-Ends :
    (n : ℕ) (o : Class) (neg : Bool) (s : Str) (k : Str → Str → Match)
    → Within n o
    → ((t r : Str) → length r ≤ n → Ends (k t r))
    → Ends (class_case o neg s k)
class_case-Ends n no_bracket neg s k w h = tt
class_case-Ends n class_overrun neg s k w h = tt
class_case-Ends n (found true r) true [] k w h = tt
class_case-Ends n (found true r) false [] k w h = tt
class_case-Ends n (found false r) neg [] k w h = tt
class_case-Ends n (found match r) neg (c ∷ s) k w h =
    if_Ends (xor match neg) (k s r) no_match (h s r w) tt

length-negated : (p : Str) → length (negated p).1 ≤ length p
length-negated [] = omega arith
length-negated (c ∷ p) = go (c == b'^')
  where
    go :
        (b : Bool)
        → length (if◌then◌else◌ {A = Bool × Str} b (true, p) (false, c ∷ p)).1 ≤ suc (length p)
    go true = omega arith
    go false = omega arith

pmatch-Ends :
    (f : ℕ) (loc : Locale) (cs : Bool) (s p : Str) → length p < f → Ends (pmatch f loc cs s p)
unfolding pmatch
pmatch-Ends zero loc cs s p l = omega arith
pmatch-Ends (suc f) loc cs [] [] l = tt
pmatch-Ends (suc f) loc cs (c ∷ s) [] l = tt
pmatch-Ends (suc f) loc cs s (m ∷ p) l =
    let ih : (t r : Str) → length r ≤ length p → Ends (pmatch f loc cs t r) =
      λ t r h. pmatch-Ends f loc cs t r (omega arith) in
    if_Ends (m == b'?') _ _ (one s (λ t. ih t p (omega arith))) (
      if_Ends (m == b'*') _ _ (many p (λ t. ih t p (omega arith))) (
        if_Ends (m == b'[') _ _
          (class_case-Ends (length p) (scan_class loc (char_of s) false (negated p).1) (negated p).0
            s (pmatch f loc cs)
            (Within-weaken (length (negated p).1) (length p) _ (length-negated p)
              (scan_class-Within loc (char_of s) false (negated p).1))
            ih)
          (same s (λ t. ih t p (omega arith)))))
  where
    one :
        (s : Str)
        → ((t : Str) → Ends (pmatch f loc cs t p))
        → Ends (elim s [ [] ↦ no_match | c ∷ t ↦ pmatch f loc cs t p ])
    one [] h = tt
    one (c ∷ t) h = h t

    many :
        (q : Str)
        → ((t : Str) → Ends (pmatch f loc cs t q))
        → Ends (elim q [ [] ↦ exact [] | x ∷ q ↦ star (λ t. pmatch f loc cs t (x ∷ q)) none s ])
    many [] h = tt
    many (x ∷ q) h = star-Ends (λ t. pmatch f loc cs t (x ∷ q)) none s h

    same :
        (s : Str)
        → ((t : Str) → Ends (pmatch f loc cs t p))
        → Ends (elim s [
          | [] ↦ no_match
          | c ∷ t ↦ elim (same_char loc cs m c) [ true ↦ pmatch f loc cs t p | false ↦ no_match ]
        ])
    same [] h = tt
    same (c ∷ t) h = go (same_char loc cs m c)
      where
        go : (b : Bool) → Ends (elim b [ true ↦ pmatch f loc cs t p | false ↦ no_match ])
        go true = h t
        go false = tt

-- `t_pmatch` never runs out of fuel.
pub t_pmatch-Ends : (loc : Locale) (cs : Bool) (s p : Str) → Ends (t_pmatch loc cs s p)
unfolding t_pmatch
t_pmatch-Ends loc cs s p = pmatch-Ends (suc (length p)) loc cs s p (omega arith)
