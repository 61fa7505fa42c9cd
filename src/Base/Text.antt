-- ===== src/Base/Text.antt =====
-- A `Char *` is the list of its characters before the NUL; a read at or past its end gives 0.
use Prim.Native.Nat.{ℕ}
use Prim.Native.Char.{code}
use Prim.Native.String.{String}
use mathlib.Core.Path.{◌≡◌}
use mathlib.Core.Logic.{◌↔◌}
use mathlib.Core.Bool.{Bool, true, false, ◌&&◌, ◌||◌}
use mathlib.Core.List.{List, [], ◌∷◌}
use native.Mathlib.Omega.{arith}
use mcsh.Base.Tests.{leb, ◌==◌}

abbrev pub Str : Type 0
Str = List ℕ

abbrev pub codes : String → Str
codes String.[] = []
codes (String.◌∷◌ c s) = code c ∷ codes s

-- `eq(a, b)`: Strcmp(a, b) == 0.
abbrev pub eq : Str → Str → Bool
eq [] [] = true
eq [] (y ∷ ys) = false
eq (x ∷ xs) [] = false
eq (x ∷ xs) (y ∷ ys) = x == y && eq xs ys

pub eq_iff : (a b : Str) → (eq a b ≡ true) ↔ (a ≡ b)
eq_iff [] [] = ground arith
eq_iff [] (y ∷ b) = ground arith
eq_iff (x ∷ a) [] = ground arith
eq_iff (x ∷ a) (y ∷ b) = ground (arith, eq_iff a b)

-- `any(s, c)` of sh.misc.c.
abbrev pub any : Str → ℕ → Bool
any [] c = false
any (x ∷ s) c = x == c || any s c

-- `*cp`
abbrev pub char0 : Str → ℕ
char0 [] = 0
char0 (c ∷ s) = c

-- `cp[1]`
abbrev pub char1 : Str → ℕ
char1 [] = 0
char1 (c ∷ s) = char0 s

-- `iswdigit(c)` of an unquoted character.
abbrev pub is_digit : ℕ → Bool
is_digit c = leb b'0' c && leb c b'9'
