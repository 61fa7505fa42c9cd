-- ===== src/Match/Sound.antt =====
-- sh.glob.c: matching as a relation, and the results of `t_pmatch` beside it.
use mcsh.Base.{
  ℕ, zero, suc, Bool, true, false, Option, none, some, [], ◌∷◌, ◌++◌, ◌==◌, if◌then◌else◌, Str, ◌≡◌,
  ◌⊎◌, refl, ap, arith, subst, length, append_assoc, append-nil, ltb, ◌∙◌, Bool-cases, inl, inr,
  sym, ◌||◌, ==→≡,
}
use mcsh.Match.Chars.{Holds, ClassHolds, scan-ClassHolds}
use mcsh.Match.{
  Locale, Class, found, no_bracket, class_overrun, Match, no_match, partial, exact, missing,
  overrun, out_of_fuel, later, finish, star_case, star, negated, xor, class_case, same_char,
  char_of, pmatch, t_pmatch,
}

-- The characters of a pattern that stand for others.
abbrev pub is_special : ℕ → Bool
is_special m = m == b'?' || (m == b'*' || m == b'[')

negated-caret : (p q : Str) → negated p ≡ (true, q) → p ≡ b'^' ∷ q
negated-caret [] q e = cc
negated-caret (c ∷ p) q e = ground (arith, e)

negated-plain : (p q : Str) → negated p ≡ (false, q) → (p ≡ q) × ((char_of p == b'^') ≡ false)
negated-plain [] q e = ground (arith, e)
negated-plain (c ∷ p) q e = ground (arith, e)

module _ (loc : Locale) (cs : Bool) where
  -- Equal characters, or with `cs` not set equal but for their case.
  abbrev pub SameChar : ℕ → ℕ → Type 0
  SameChar m c = ((cs ≡ true) × (m ≡ c)) ⊎ ((cs ≡ false) × (loc.towlower m ≡ loc.towlower c))

  same_char-SameChar : (m c : ℕ) → same_char loc cs m c ≡ true → SameChar m c
  same_char-SameChar m c e = go cs refl e
    where
      go : (b : Bool) → cs ≡ b → same_char loc b m c ≡ true → SameChar m c
      go true q e = inl (q, ==→≡ m c e)
      go false q e = inr (q, ==→≡ (loc.towlower m) (loc.towlower c) e)

  -- The pattern matches the whole of the text.
  pub data Matches : Str → Str → Type 0 where
    nothing : Matches [] []
    one : (c : ℕ) {p t : Str} → Matches p t → Matches (b'?' ∷ p) (c ∷ t)
    many : (u : Str) {p s t : Str} → u ++ t ≡ s → Matches p t → Matches (b'*' ∷ p) s
    class_in :
        (c : ℕ) {p r t : Str}
        → (char_of p == b'^') ≡ false
        → Holds loc c true p r
        → Matches r t
        → Matches (b'[' ∷ p) (c ∷ t)
    class_out :
        (c : ℕ) {p r t : Str}
        → Holds loc c false p r
        → Matches r t
        → Matches (b'[' ∷ b'^' ∷ p) (c ∷ t)
    same :
        (m c : ℕ) {p t : Str}
        → is_special m ≡ false
        → SameChar m c
        → Matches p t
        → Matches (m ∷ p) (c ∷ t)

  -- The text up to the end that is reported is matched, and an exact match ends where it does.
  pub data Sound (s p : Str) : Match → Type 0 where
    no_match_ok : Sound s p no_match
    missing_ok : Sound s p missing
    overrun_ok : Sound s p overrun
    fuel_ok : Sound s p out_of_fuel
    partial_ok : (u r : Str) → u ++ r ≡ s → Matches p u → Sound s p (partial r)
    exact_ok : Matches p s → Sound s p (exact [])

  lift :
      (c : ℕ) (t q p : Str) (r : Match)
      → ((u : Str) → Matches q u → Matches p (c ∷ u))
      → Sound t q r
      → Sound (c ∷ t) p r
  lift c t q p _ k no_match_ok = no_match_ok
  lift c t q p _ k missing_ok = missing_ok
  lift c t q p _ k overrun_ok = overrun_ok
  lift c t q p _ k fuel_ok = fuel_ok
  lift c t q p _ k (partial_ok u r e m) = partial_ok (c ∷ u) r (ap (λ x. c ∷ x) e) (k u m)
  lift c t q p _ k (exact_ok m) = exact_ok (k t m)

  Best : Str → Str → Option Str → Type 0
  Best s p none = Unit
  Best s p (some r) = (u : Str) × (u ++ r ≡ s) × Matches p u

  later-Best :
      (s p r : Str) (best : Option Str)
      → Best s p (some r)
      → Best s p best
      → Best s p (later r best)
  unfolding Best
  later-Best s p r none h g = h
  later-Best s p r (some b) h g = go (ltb (length r) (length b))
    where
      go : (c : Bool) → Best s p (if c then some r else some b)
      go true = h
      go false = g

  finish-Sound : (s p : Str) (best : Option Str) → Best s p best → Sound s p (finish best)
  unfolding Best
  finish-Sound s p none h = no_match_ok
  finish-Sound s p (some r) h = partial_ok h.0 r h.1 h.2

  star_case-Sound :
      (v s s₀ p : Str) (r : Match) (best : Option Str) (go : Option Str → Match)
      → v ++ s ≡ s₀
      → Sound s p r
      → Best s₀ (b'*' ∷ p) best
      → ((b : Option Str) → Best s₀ (b'*' ∷ p) b → Sound s₀ (b'*' ∷ p) (go b))
      → Sound s₀ (b'*' ∷ p) (star_case r best go)
  unfolding Best
  star_case-Sound v s s₀ p _ best go e no_match_ok h k = k best h
  star_case-Sound v s s₀ p _ best go e missing_ok h k = missing_ok
  star_case-Sound v s s₀ p _ best go e overrun_ok h k = overrun_ok
  star_case-Sound v s s₀ p _ best go e fuel_ok h k = fuel_ok
  star_case-Sound v s s₀ p _ best go e (partial_ok u r d m) h k = k (later r best) (
      later-Best s₀ (b'*' ∷ p) r best
        (v ++ u, append_assoc v u r ∙ ap (λ x. v ++ x) d ∙ e, many v refl m) h)
  star_case-Sound v s s₀ p _ best go e (exact_ok m) h k = exact_ok (many v e m)

  star-Sound :
      (k : Str → Match) (p v s s₀ : Str) (best : Option Str)
      → ((t : Str) → Sound t p (k t))
      → v ++ s ≡ s₀
      → Best s₀ (b'*' ∷ p) best
      → Sound s₀ (b'*' ∷ p) (star k best s)
  unfolding star
  star-Sound k p v [] s₀ best h e b =
      star_case-Sound v [] s₀ p (k []) best finish e (h []) b (finish-Sound s₀ (b'*' ∷ p))
  star-Sound k p v (c ∷ s) s₀ best h e b =
      star_case-Sound v (c ∷ s) s₀ p (k (c ∷ s)) best (λ b. star k b s) e (h (c ∷ s)) b
        λ b g. star-Sound k p (v ++ (c ∷ [])) s s₀ b h (append_assoc v (c ∷ []) s ∙ e) g

  -- With a character in hand: the class has it, or has it not behind a `^`.
  class_char-Sound :
      (p q t r : Str) (c : ℕ) (neg match : Bool) (k : Match)
      → negated p ≡ (neg, q)
      → Holds loc c match q r
      → xor match neg ≡ true
      → Sound t r k
      → Sound (c ∷ t) (b'[' ∷ p) k
  class_char-Sound p q t r c true true k e h x s = cc
  class_char-Sound p q t r c false false k e h x s = cc
  class_char-Sound p q t r c true false k e h x s =
      let e' : p ≡ b'^' ∷ q = negated-caret p q e in
      lift c t r (b'[' ∷ p) k
        (λ u m. subst (λ p. Matches (b'[' ∷ p) (c ∷ u)) (sym e') (class_out c h m)) s
  class_char-Sound p q t r c false true k e h x s =
      let e' = negated-plain p q e in
      lift c t r (b'[' ∷ p) k
        (λ u m. class_in c e'.1 (subst (λ q. Holds loc c true q r) (sym e'.0) h) m) s

  class_case-Sound :
      (p q s : Str) (neg : Bool) (o : Class) (k : Str → Str → Match)
      → negated p ≡ (neg, q)
      → ClassHolds loc (char_of s) q o
      → ((t r : Str) → Sound t r (k t r))
      → Sound s (b'[' ∷ p) (class_case o neg s k)
  class_case-Sound p q s neg no_bracket k e d h = missing_ok
  class_case-Sound p q s neg class_overrun k e d h = overrun_ok
  class_case-Sound p q [] true (found true r) k e d h = no_match_ok
  class_case-Sound p q [] false (found true r) k e d h = overrun_ok
  class_case-Sound p q [] neg (found false r) k e d h = no_match_ok
  class_case-Sound p q (c ∷ s) neg (found match r) k e d h = elim (Bool-cases (xor match neg)) [
    | inl b ↦ rw b (class_char-Sound p q s r c neg match (k s r) e d b (h s r))
    | inr b ↦ rw b no_match_ok
  ]

  if_sound :
      (s p : Str) (b : Bool) (x y : Match)
      → (b ≡ true → Sound s p x)
      → (b ≡ false → Sound s p y)
      → Sound s p (if b then x else y)
  if_sound s p true x y h k = h refl
  if_sound s p false x y h k = k refl

  plain :
      (m : ℕ)
      → (m == b'?') ≡ false
      → (m == b'*') ≡ false
      → (m == b'[') ≡ false
      → is_special m ≡ false
  plain m a b c = rw (a, b, c) refl

  at_char :
      (s p : Str) (m c : ℕ) (r : Match) → (m == c) ≡ true → Sound s (c ∷ p) r → Sound s (m ∷ p) r
  at_char s p m c r e h = subst (λ x. Sound s (x ∷ p) r) (to_eq m c e) h
    where
      to_eq : (m c : ℕ) → (m == c) ≡ true → c ≡ m
      to_eq m c e = ground arith

  -- The four branches, where the match of the rest is sound.
  one-Sound :
      (s p : Str) (k : Str → Match)
      → ((t : Str) → Sound t p (k t))
      → Sound s (b'?' ∷ p) (elim s [ [] ↦ no_match | c ∷ t ↦ k t ])
  one-Sound [] p k h = no_match_ok
  one-Sound (c ∷ t) p k h = lift c t p (b'?' ∷ p) (k t) (λ u m. one c m) (h t)

  many-Sound :
      (s p : Str) (k : Str → Str → Match)
      → ((t r : Str) → Sound t r (k t r))
      → Sound s (b'*' ∷ p) (elim p [ [] ↦ exact [] | x ∷ q ↦ star (λ t. k t (x ∷ q)) none s ])
  unfolding Best
  many-Sound s [] k h = exact_ok (many s (append-nil s) nothing)
  many-Sound s (x ∷ q) k h =
      star-Sound (λ t. k t (x ∷ q)) (x ∷ q) [] s s none (λ t. h t (x ∷ q)) refl tt

  same-Sound :
      (s p : Str) (m : ℕ) (k : Str → Match)
      → is_special m ≡ false
      → ((t : Str) → Sound t p (k t))
      → Sound s (m ∷ p) (elim s [
        | [] ↦ no_match
        | c ∷ t ↦ elim (same_char loc cs m c) [ true ↦ k t | false ↦ no_match ]
      ])
  same-Sound [] p m k n h = no_match_ok
  same-Sound (c ∷ t) p m k n h = go (Bool-cases (same_char loc cs m c))
    where
      go :
          (same_char loc cs m c ≡ true) ⊎ (same_char loc cs m c ≡ false)
          → Sound (c ∷ t) (m ∷ p) (elim (same_char loc cs m c) [ true ↦ k t | false ↦ no_match ])
      go (inl b) =
          rw b (lift c t p (m ∷ p) (k t) (λ u l. same m c n (same_char-SameChar m c b) l) (h t))
      go (inr b) = rw b no_match_ok

  pmatch-Sound : (f : ℕ) (s p : Str) → Sound s p (pmatch f loc cs s p)
  unfolding pmatch
  pmatch-Sound zero s p = fuel_ok
  pmatch-Sound (suc f) [] [] = exact_ok nothing
  pmatch-Sound (suc f) (c ∷ s) [] = partial_ok [] (c ∷ s) refl nothing
  pmatch-Sound (suc f) s (m ∷ p) =
      let ih : (t r : Str) → Sound t r (pmatch f loc cs t r) = λ t r. pmatch-Sound f t r in
      if_sound s (m ∷ p) (m == b'?') _ _
        (λ e. at_char s p m b'?' _ e (one-Sound s p (λ t. pmatch f loc cs t p) λ t. ih t p))
        λ n.
          if_sound s (m ∷ p) (m == b'*') _ _
            (λ e. at_char s p m b'*' _ e (many-Sound s p (pmatch f loc cs) ih))
            λ n'.
              if_sound s (m ∷ p) (m == b'[') _ _
                (λ e. at_char s p m b'[' _ e (
                  class_case-Sound p (negated p).1 s (negated p).0 _ (pmatch f loc cs) refl
                    (scan-ClassHolds loc (char_of s) (negated p).1) ih))
                λ n''. same-Sound s p m (λ t. pmatch f loc cs t p) (plain m n n' n'') (λ t. ih t p)

  -- Where `t_pmatch` reports an exact match the pattern matches the whole string; where it reports a
  -- partial match ending at `r`, the string is `u ++ r` for a text `u` that the pattern matches.
  pub t_pmatch-Sound : (s p : Str) → Sound s p (t_pmatch loc cs s p)
  unfolding t_pmatch
  t_pmatch-Sound s p = pmatch-Sound (suc (length p)) s p
