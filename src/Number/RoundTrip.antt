-- ===== src/Number/RoundTrip.antt =====
-- sh.set.c: `putn` and then `getn`.
use native.Mathlib.Nat.{pow-suc}
use mcsh.Base.{
  ℕ, zero, suc, ◌+◌, ◌-◌, ◌*◌, ◌/◌, ◌%◌, ◌^◌, ◌≤◌, ◌<◌, Bool, true, false, some, [], ◌∷◌, ◌++◌, ltb,
  ◌==◌, if◌then◌else◌, length, length-append, Str, char0, is_digit, ℤ, pos, negsuc, ◌≡◌, refl, ap,
  ◌∙◌, ◌||◌, arith, append_assoc, All, append-nil, inl, inr, Bool-cases,
}
use mcsh.Number.{
  u64, half64, InRange, putn1, putn, getn, getn_number, strtoll, strtoll_prefix, read_digits,
  to_chars, accept, number_base, clamp, signed, is_space,
}

abbrev IsDigit : ℕ → Type 0
IsDigit c = (b'0' ≤ c) × (c ≤ b'9')

All-append : (xs ys : Str) → All IsDigit xs → All IsDigit ys → All IsDigit (xs ++ ys)
All-append [] ys p q = q
All-append (x ∷ xs) ys (h, p) q = (h, All-append xs ys p q)

pub putn1-IsDigit : (f n : ℕ) → All IsDigit (putn1 f n)
unfolding putn1
putn1-IsDigit zero n = tt
putn1-IsDigit (suc f) n = elim (Bool-cases (ltb 9 n)) [
  | inl h ↦
      rw h (
        All-append (putn1 f (n / 10)) _ (putn1-IsDigit f (n / 10)) ((omega arith, omega arith), tt))
  | inr h ↦ rw h ((omega arith, omega arith), tt)
]

pub length-putn1 : (f n : ℕ) → length (putn1 f n) ≤ f
unfolding putn1
length-putn1 zero n = omega arith
length-putn1 (suc f) n = elim (Bool-cases (ltb 9 n)) [
  | inl h ↦ rw h (
      omega
        (arith, length-append (putn1 f (n / 10)) ((n % 10 + b'0') ∷ []), length-putn1 f (n / 10)))
  | inr h ↦ rw h (omega arith)
]

digit_step :
    (acc c : ℕ) (s : Str)
    → IsDigit c
    → read_digits 10 acc (c ∷ s) ≡ read_digits 10 (acc * 10 + (c - b'0')) s
unfolding read_digits
digit_step acc c s h = ground arith

-- From zero, the digits of `n` bring the accumulator to `n`.
read_digits-putn1 :
    (f n : ℕ) (rest : Str)
    → n < 10 ^ f
    → read_digits 10 0 (putn1 f n ++ rest) ≡ read_digits 10 n rest
unfolding putn1
read_digits-putn1 zero n rest h = rw (let e : 0 ≡ n = omega arith in e)
read_digits-putn1 (suc f) n rest h = elim (Bool-cases (ltb 9 n)) [
  | inl big ↦ rw big (
      rw (append_assoc (putn1 f (n / 10)) ((n % 10 + b'0') ∷ []) rest) (
        read_digits-putn1 f (n / 10) _ (omega (arith, pow-suc 10 f))
        ∙ digit_step (n / 10) (n % 10 + b'0') rest (omega arith, omega arith)
        ∙ ap (λ (k : ℕ). read_digits 10 k rest) (omega arith)))
  | inr small ↦ rw small (
      digit_step 0 (n % 10 + b'0') rest (omega arith, omega arith)
      ∙ ap (λ (k : ℕ). read_digits 10 k rest) (ground arith))
]

to_chars-digits : (s : Str) → All IsDigit s → to_chars s ≡ s
unfolding to_chars
to_chars-digits [] h = refl
to_chars-digits (c ∷ s) h = ground (arith, to_chars-digits s h.1)

char0-append : (xs ys : Str) → 0 < char0 xs → char0 (xs ++ ys) ≡ char0 xs
char0-append [] ys h = absurd (omega arith)
char0-append (x ∷ xs) ys h = refl

-- A positive number has no leading zero.
char0-putn1 : (f n : ℕ) → 0 < n → n < 10 ^ f → b'0' < char0 (putn1 f n)
unfolding putn1
char0-putn1 zero n p h = absurd (omega arith)
char0-putn1 (suc f) n p h = elim (Bool-cases (ltb 9 n)) [
  | inl big ↦ rw big (
      let ih = char0-putn1 f (n / 10) (ground arith) (omega (arith, pow-suc 10 f)) in
      rw (char0-append (putn1 f (n / 10)) ((n % 10 + b'0') ∷ []) (omega (arith, ih))) ih)
  | inr small ↦ rw small (ground arith)
]

number_base-putn1 : (octal : Bool) (n : ℕ) → n < 10 ^ 20 → number_base octal (putn1 20 n) ≡ 10
number_base-putn1 octal zero h = unfold putn1 in refl
number_base-putn1 octal (suc n) h =
    let lead = char0-putn1 20 (suc n) (omega arith) h in ground (arith, lead)

-- Digits alone, after the sign, are all read.
strtoll_digits10 :
    (neg : Bool) (s : Str)
    → All IsDigit s
    → 0 < char0 s
    → strtoll_prefix 10 neg s ≡ clamp neg (read_digits 10 0 s).0 (read_digits 10 0 s).1
unfolding strtoll_prefix
strtoll_digits10 neg [] h p = absurd (omega arith)
strtoll_digits10 neg (a ∷ []) h p = ground arith
strtoll_digits10 neg (a ∷ b ∷ []) h p = ground arith
strtoll_digits10 neg (a ∷ b ∷ c ∷ s) h p = ground arith

strtoll_unsigned :
    (s : Str) → All IsDigit s → 0 < char0 s → strtoll 10 s ≡ strtoll_prefix 10 false s
unfolding strtoll
strtoll_unsigned [] h p = absurd (omega arith)
strtoll_unsigned (a ∷ s) h p = ground arith

char0-putn1_pos : (n : ℕ) → n < 10 ^ 20 → 0 < char0 (putn1 20 n)
char0-putn1_pos zero h = unfold putn1 in omega arith
char0-putn1_pos (suc n) h = omega (arith, char0-putn1 20 (suc n) (omega arith) h)

getn-digits :
    (octal : Bool) (s : Str)
    → All IsDigit s
    → 0 < char0 s
    → getn octal s ≡ getn_number octal false s
unfolding getn
getn-digits octal [] h p = absurd (omega arith)
getn-digits octal (c ∷ s) h p =
    let space : is_space c ≡ false = ground arith in
    let sign : (c == b'+' || c == b'-') ≡ false = ground arith in
    let digit : is_digit c ≡ true = ground arith in rw (space, sign, digit)

getn-minus :
    (octal : Bool) (s : Str)
    → All IsDigit s
    → 0 < char0 s
    → getn octal (b'-' ∷ s) ≡ getn_number octal true s
unfolding getn
getn-minus octal [] h p = absurd (omega arith)
getn-minus octal (c ∷ s) h p = ground arith

abbrev Fits : Bool → ℕ → Type 0
Fits true n = n ≤ half64
Fits false n = n < half64

clamp-Fits : (neg : Bool) (n : ℕ) → Fits neg n → accept (clamp neg n []) ≡ some (signed neg n)
clamp-Fits true n h = ground arith
clamp-Fits false n h = ground arith

read_digits-all : (n : ℕ) → n < 10 ^ 20 → read_digits 10 0 (putn1 20 n) ≡ (n, [])
read_digits-all n h =
    rw (← append-nil (putn1 20 n)) (read_digits-putn1 20 n [] h ∙ unfold read_digits in refl)

strtoll-putn1 :
    (neg : Bool) (n : ℕ)
    → n < 10 ^ 20
    → strtoll 10 ((if neg then b'-' ∷ [] else []) ++ putn1 20 n) ≡ clamp neg n []
unfolding strtoll
strtoll-putn1 true n h =
    strtoll_digits10 true (putn1 20 n) (putn1-IsDigit 20 n) (char0-putn1_pos n h)
    ∙ rw (read_digits-all n h)
strtoll-putn1 false n h =
    strtoll_unsigned (putn1 20 n) (putn1-IsDigit 20 n) (char0-putn1_pos n h)
    ∙ strtoll_digits10 false (putn1 20 n) (putn1-IsDigit 20 n) (char0-putn1_pos n h)
    ∙ rw (read_digits-all n h)

getn_number-putn1 :
    (octal neg : Bool) (n : ℕ)
    → n < 10 ^ 20
    → Fits neg n
    → getn_number octal neg (putn1 20 n) ≡ some (signed neg n)
unfolding getn_number
getn_number-putn1 octal neg n h f =
    let short : ltb 67 (length (putn1 20 n) + (if neg then 1 else 0)) ≡ false =
      ground (arith, length-putn1 20 n) in
    rw
      (
        short,
        number_base-putn1 octal n h,
        to_chars-digits (putn1 20 n) (putn1-IsDigit 20 n),
        strtoll-putn1 neg n h,
      )
      (clamp-Fits neg n f)

-- Every 64-bit number that `putn` writes `getn` reads back as that number, whatever the setting
-- of $parseoctal.
pub getn-putn : (octal : Bool) (z : ℤ) → InRange z → getn octal (putn z) ≡ some z
unfolding putn
getn-putn octal (pos n) h =
    let e : n % u64 ≡ n = omega arith in
    rw e (
      getn-digits octal (putn1 20 n) (putn1-IsDigit 20 n) (char0-putn1_pos n (omega arith))
      ∙ getn_number-putn1 octal false n (omega arith) (omega arith))
getn-putn octal (negsuc n) h =
    let e : (u64 - (u64 - 1 - n % u64)) % u64 ≡ suc n = omega arith in
    rw e (
      getn-minus octal (putn1 20 (suc n)) (putn1-IsDigit 20 (suc n))
        (char0-putn1_pos (suc n) (omega arith))
      ∙ getn_number-putn1 octal true (suc n) (omega arith) (omega arith)
      ∙ ground arith)
