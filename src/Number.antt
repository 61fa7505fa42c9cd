-- ===== src/Number.antt =====
-- sh.set.c: `putn`, `putn1` and `getn`, which carry every number of an expression through text,
-- and the 64-bit arithmetic of `tcsh_number_t` (`long long`) that sh.exp.c computes with.
-- A `tcsh_number_t` is an integer; `InRange` says that it fits 64 bits.
pub mod RoundTrip
use mcsh.Base.{
  ℕ, zero, suc, ◌+◌, ◌-◌, ◌*◌, ◌/◌, ◌%◌, ◌≤◌, ◌<◌, Bool, true, false, not, ◌&&◌, ◌||◌, Option, none,
  some, List, [], ◌∷◌, ◌++◌, map, ltb, leb, ◌==◌, if◌then◌else◌, length, Str, char0, char1,
  is_digit, ℤ, pos, negsuc, pos_part, neg_part, sub_ℕ, eq_ℤ, bit_and, bit_or, bit_xor,
}

-- 2 ^ 64 and 2 ^ 63
abbrev pub u64 : ℕ
u64 = 18446744073709551616

abbrev pub half64 : ℕ
half64 = 9223372036854775808

abbrev pub InRange : ℤ → Type 0
InRange z = (pos_part z < half64) × (neg_part z ≤ half64)

-- `(unsigned long long) z`
unfoldable pub to_u64 : ℤ → ℕ
to_u64 (pos n) = n % u64
to_u64 (negsuc n) = u64 - 1 - n % u64

-- `(tcsh_number_t) u`, for u below 2 ^ 64
unfoldable pub of_u64 : ℕ → ℤ
of_u64 u = if ltb u half64 then pos u else negsuc (u64 - 1 - u)

unfoldable pub add64 : ℤ → ℤ → ℤ
add64 a b = of_u64 ((to_u64 a + to_u64 b) % u64)

unfoldable pub sub64 : ℤ → ℤ → ℤ
sub64 a b = of_u64 ((to_u64 a + (u64 - to_u64 b)) % u64)

unfoldable pub mul64 : ℤ → ℤ → ℤ
mul64 a b = of_u64 ((to_u64 a * to_u64 b) % u64)

abbrev pub is_neg : ℤ → Bool
is_neg (pos n) = false
is_neg (negsuc n) = true

abbrev pub magnitude : ℤ → ℕ
magnitude z = pos_part z + neg_part z

abbrev pub signed : Bool → ℕ → ℤ
signed neg n = if neg then sub_ℕ 0 n else pos n

abbrev pub differ : Bool → Bool → Bool
differ true b = not b
differ false b = b

-- C's `/` and `%` truncate towards zero.
unfoldable pub quot64 : ℤ → ℤ → ℤ
quot64 a b = signed (differ (is_neg a) (is_neg b)) (magnitude a / magnitude b)

unfoldable pub rem64 : ℤ → ℤ → ℤ
rem64 a b = signed (is_neg a) (magnitude a % magnitude b)

-- `~z`
unfoldable pub not64 : ℤ → ℤ
not64 (pos n) = negsuc n
not64 (negsuc n) = pos n

unfoldable pub and64 : ℤ → ℤ → ℤ
and64 a b = of_u64 (bit_and (to_u64 a) (to_u64 b))

unfoldable pub or64 : ℤ → ℤ → ℤ
or64 a b = of_u64 (bit_or (to_u64 a) (to_u64 b))

unfoldable pub xor64 : ℤ → ℤ → ℤ
xor64 a b = of_u64 (bit_xor (to_u64 a) (to_u64 b))

abbrev pub of_bool : Bool → ℤ
of_bool true = pos 1
of_bool false = pos 0

abbrev pub to_bool : ℤ → Bool
to_bool z = not (eq_ℤ z (pos 0))

-- `putn1`, whose recursion is on `n / 10`; a 64-bit number has at most twenty digits.
unfoldable pub putn1 : ℕ → ℕ → Str
putn1 zero n = []
putn1 (suc f) n =
    let high = putn1 f (n / 10) in (if ltb 9 n then high else []) ++ (n % 10 + b'0') ∷ []

unfoldable pub putn : ℤ → Str
unfolding to_u64
putn n = if is_neg n then b'-' ∷ putn1 20 ((u64 - to_u64 n) % u64) else putn1 20 (to_u64 n)

abbrev pub is_space : ℕ → Bool
is_space c = c == b' ' || (leb 9 c && leb c 13)

-- The value of a digit in bases up to 36.
abbrev pub digit_value : ℕ → ℕ
digit_value c =
    if is_digit c
    then c - b'0'
    else if leb b'a' c && leb c b'z'
    then c - b'a' + 10
    else if leb b'A' c && leb c b'Z'
    then c - b'A' + 10
    else 36

-- Digits read from the front: the value, and what is left.
unfoldable pub read_digits : ℕ → ℕ → Str → ℕ × Str
read_digits base acc [] = (acc, [])
read_digits base acc (c ∷ s) =
    let more = read_digits base (acc * base + digit_value c) s in
    if ltb (digit_value c) base then more else (acc, c ∷ s)

-- What `strtoll` gives back: the value, `*endptr`, and whether `errno` is ERANGE.
pub record Strtoll : Type 0 where
  pub value : ℤ
  pub rest : Str
  pub erange : Bool

abbrev pub clamp : Bool → ℕ → Str → Strtoll
clamp neg v rest =
    if (if neg then ltb half64 v else leb half64 v)
    then record {
      value = if neg then negsuc (half64 - 1) else pos (half64 - 1);
      rest = rest;
      erange = true;
    }
    else record { value = signed neg v; rest = rest; erange = false }

-- The number behind the sign. With no digit at all nothing is converted.
unfoldable pub strtoll_digits : ℕ → Bool → Str → Strtoll
unfolding read_digits
strtoll_digits base neg [] = record { value = pos 0; rest = []; erange = false }
strtoll_digits base neg (c ∷ s) =
    if ltb (digit_value c) base
    then (let (v, rest) = read_digits base 0 (c ∷ s) in clamp neg v rest)
    else record { value = pos 0; rest = c ∷ s; erange = false }

-- In base 16 a prefix 0x is skipped if a digit follows it.
unfoldable pub strtoll_prefix : ℕ → Bool → Str → Strtoll
unfolding strtoll_digits
strtoll_prefix base neg (z ∷ x ∷ d ∷ s) =
    if base == 16 && (z == b'0' && ((x == b'x' || x == b'X') && ltb (digit_value d) 16))
    then strtoll_digits base neg (d ∷ s)
    else strtoll_digits base neg (z ∷ x ∷ d ∷ s)
strtoll_prefix base neg s = strtoll_digits base neg s

-- The C library's `strtoll` on a text with no white space in front.
unfoldable pub strtoll : ℕ → Str → Strtoll
unfolding strtoll_prefix
strtoll base [] = record { value = pos 0; rest = []; erange = false }
strtoll base (c ∷ s) =
    if c == b'-'
    then strtoll_prefix base true s
    else if c == b'+'
    then strtoll_prefix base false s
    else strtoll_prefix base false (c ∷ s)

-- `buf[len++] = (char)*p++` keeps the low byte, and a C string ends at its first NUL.
unfoldable pub to_chars : Str → Str
to_chars [] = []
to_chars (c ∷ s) = let more = to_chars s in if c % 256 == 0 then [] else (c % 256) ∷ more

abbrev pub number_base : Bool → Str → ℕ
number_base octal cp =
    if char0 cp == b'0' && (char1 cp == b'x' || char1 cp == b'X')
    then 16
    else if char0 cp == b'0' && (not (char1 cp == 0) && octal)
    then 8
    else 10

abbrev pub accept : Strtoll → Option ℤ
accept r = elim r.rest [ [] ↦ if r.erange then none else some r.value | _ ↦ none ]

-- The part of `getn` behind the sign: `buf` holds the sign, and at most 67 characters in all.
unfoldable pub getn_number : Bool → Bool → Str → Option ℤ
unfolding strtoll to_chars
getn_number octal sign cp =
    if ltb 67 (length cp + (if sign then 1 else 0))
    then none
    else accept (strtoll (number_base octal cp) ((if sign then b'-' ∷ [] else []) ++ to_chars cp))

-- `getn`; `octal` is whether $parseoctal is set, and `none` is stderror(ERR_NAME | ERR_BADNUM).
unfoldable pub getn : Bool → Str → Option ℤ
getn octal [] = some (pos 0)
getn octal (c ∷ cp) =
    if is_space c
    then none
    else if c == b'+' || c == b'-'
    then (if not (is_digit (char0 cp)) then none else getn_number octal (c == b'-') cp)
    else if not (is_digit c)
    then none
    else getn_number octal false (c ∷ cp)
