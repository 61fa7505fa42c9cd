-- ===== src/Match.antt =====
-- sh.glob.c: `t_pmatch`, which matches a string against a pattern without braces; glob.c: the order
-- of characters in a range. A rest of the string stands for a pointer into it. Characters are those
-- below TRIM, with no quoting bit.
use mcsh.Base.{
  ℕ, zero, suc, Bool, true, false, not, ◌&&◌, ◌||◌, Option, none, some, List, [], ◌∷◌, ◌==◌, ltb,
  if◌then◌else◌, Str, ℤ, pos, negsuc, length,
}
pub mod Chars
pub mod Sound
pub mod Fuel
pub mod Exact

-- The C library's functions for the current locale.
pub record Locale : Type 0 where
  pub towlower : ℕ → ℕ
  pub iswlower : ℕ → Bool
  pub iswupper : ℕ → Bool
  pub wcscoll : ℕ → ℕ → ℤ

unfoldable pub globcharcoll : Locale → ℕ → ℕ → Bool → ℤ
globcharcoll loc c1 c2 cs =
    if c1 == c2
    then pos 0
    else if cs
    then loc.wcscoll (loc.towlower c1) (loc.towlower c2)
    else if loc.iswlower c1 && loc.iswupper c2
    then pos 1
    else if loc.iswupper c1 && loc.iswlower c2
    then negsuc 0
    else loc.wcscoll c1 c2

abbrev pub not_positive : ℤ → Bool
not_positive (pos zero) = true
not_positive (pos (suc n)) = false
not_positive (negsuc n) = true

abbrev pub in_range : Locale → ℕ → ℕ → ℕ → Bool
in_range loc stringc rangec rangec2 =
    not_positive (globcharcoll loc stringc rangec2 false)
    && not_positive (globcharcoll loc rangec stringc false)

-- The class behind `[`: whether it has the character, and the pattern behind its `]`; no `]`; or a
-- range with no end, behind which the scan reads past the end of the pattern.
pub data Class : Type 0 where
  found : Bool → Str → Class
  no_bracket : Class
  class_overrun : Class

unfoldable pub scan_class : Locale → ℕ → Bool → Str → Class
scan_class loc c match [] = no_bracket
scan_class loc c match (r ∷ []) = if r == b']' then found match [] else no_bracket
scan_class loc c match (r ∷ d ∷ []) =
    let next = scan_class loc c (match || c == r) (d ∷ []) in
    if r == b']'
    then found match (d ∷ [])
    else if not match && d == b'-'
    then class_overrun
    else next
scan_class loc c match (r ∷ d ∷ e ∷ p) =
    let next = scan_class loc c (match || c == r) (d ∷ e ∷ p) in
    let range = scan_class loc c (in_range loc c r e) p in
    if r == b']'
    then found match (d ∷ e ∷ p)
    else if not match && (d == b'-' && not (e == b']'))
    then range
    else next

-- The results 0, 1 and 2 with `*estr`, ERR_MISSING, and a read past the end of the string or of the
-- pattern. `out_of_fuel` belongs to the model only.
pub data Match : Type 0 where
  no_match : Match
  partial : Str → Match
  exact : Str → Match
  missing : Match
  overrun : Match
  out_of_fuel : Match

abbrev pub later : Str → Option Str → Option Str
later r none = some r
later r (some best) = if ltb (length r) (length best) then some r else some best

abbrev pub finish : Option Str → Match
finish none = no_match
finish (some r) = partial r

-- The switch in the loop for `*`: `go` is what follows it.
abbrev pub star_case : Match → Option Str → (Option Str → Match) → Match
star_case no_match best go = go best
star_case (partial r) best go = go (later r best)
star_case (exact r) best go = exact r
star_case missing best go = missing
star_case overrun best go = overrun
star_case out_of_fuel best go = out_of_fuel

unfoldable pub star : (Str → Match) → Option Str → Str → Match
star k best [] = star_case (k []) best finish
star k best (c ∷ s) = star_case (k (c ∷ s)) best λ b. star k b s

abbrev pub negated : Str → Bool × Str
negated [] = (false, [])
negated (c ∷ p) = if c == b'^' then (true, p) else (false, c ∷ p)

abbrev pub xor : Bool → Bool → Bool
xor true b = not b
xor false b = b

-- Behind a class: `k` is what follows it.
abbrev pub class_case : Class → Bool → Str → (Str → Str → Match) → Match
class_case no_bracket neg s k = missing
class_case class_overrun neg s k = overrun
class_case (found match p) neg [] k =
    if not match then no_match else if neg then no_match else overrun
class_case (found match p) neg (c ∷ s) k = if xor match neg then k s p else no_match

abbrev pub same_char : Locale → Bool → ℕ → ℕ → Bool
same_char loc cs p c = if cs then p == c else loc.towlower p == loc.towlower c

abbrev pub char_of : Str → ℕ
char_of [] = 0
char_of (c ∷ s) = c

unfoldable pub pmatch : ℕ → Locale → Bool → Str → Str → Match
pmatch zero loc cs s p = out_of_fuel
pmatch (suc f) loc cs s [] = elim s [ [] ↦ exact [] | c ∷ t ↦ partial (c ∷ t) ]
pmatch (suc f) loc cs s (m ∷ p) =
    let one : Match = elim s [ [] ↦ no_match | c ∷ t ↦ pmatch f loc cs t p ] in
    let many : Match = elim p [
      | [] ↦ exact []
      | x ∷ q ↦ star (λ t. pmatch f loc cs t (x ∷ q)) none s
    ] in
    let class : Match =
      (let (neg, q) = negated p in
        class_case (scan_class loc (char_of s) false q) neg s λ t r. pmatch f loc cs t r) in
    let same : Match = elim s [
      | [] ↦ no_match
      | c ∷ t ↦ elim (same_char loc cs m c) [ true ↦ pmatch f loc cs t p | false ↦ no_match ]
    ] in
    if m == b'?' then one else if m == b'*' then many else if m == b'[' then class else same

-- Each step takes a character off the pattern.
unfoldable pub t_pmatch : Locale → Bool → Str → Str → Match
t_pmatch loc cs s p = pmatch (suc (length p)) loc cs s p
