-- ===== src/Match/Exact.antt =====
-- sh.glob.c: what each result of `t_pmatch` says of the string and the pattern.
use mcsh.Base.{
  ℕ, zero, suc, Bool, true, false, Option, none, [], ◌∷◌, ◌++◌, ◌==◌, Str, ◌≡◌, refl, arith, subst,
  length, inl, inr, ==_refl,
}
use mcsh.Match.{
  Locale, Match, no_match, partial, exact, missing, overrun, out_of_fuel, later, finish, star_case,
  star, negated, same_char, char_of, pmatch, t_pmatch,
}
use mcsh.Match.Chars.{scan-Holds}
use mcsh.Match.Sound.{
  is_special, SameChar, Matches, nothing, one, many, class_in, class_out, same, Sound, no_match_ok,
  missing_ok, overrun_ok, fuel_ok, partial_ok, exact_ok, t_pmatch-Sound,
}
use mcsh.Match.Fuel.{Ends, t_pmatch-Ends}

-- Neither a partial match nor none.
abbrev Full : Match → Type 0
Full no_match = ⊥
Full (partial r) = ⊥
Full r = Unit

star_case-Full :
    (r : Match) (best : Option Str) (go : Option Str → Match) → Full r → Full (star_case r best go)
star_case-Full no_match best go f = absurd f
star_case-Full (partial r) best go f = absurd f
star_case-Full (exact r) best go f = tt
star_case-Full missing best go f = tt
star_case-Full overrun best go f = tt
star_case-Full out_of_fuel best go f = tt

star_case-later :
    (r : Match) (best : Option Str) (go : Option Str → Match)
    → ((b : Option Str) → Full (go b))
    → Full (star_case r best go)
star_case-later no_match best go f = f best
star_case-later (partial r) best go f = f (later r best)
star_case-later (exact r) best go f = tt
star_case-later missing best go f = tt
star_case-later overrun best go f = tt
star_case-later out_of_fuel best go f = tt

star-Full :
    (k : Str → Match) (best : Option Str) (u t s : Str)
    → u ++ t ≡ s
    → Full (k t)
    → Full (star k best s)
unfolding star
star-Full k best [] [] s e f =
    subst (λ s. Full (star k best s)) e (star_case-Full (k []) best finish f)
star-Full k best [] (c ∷ t) s e f =
    subst (λ s. Full (star k best s)) e (star_case-Full (k (c ∷ t)) best (λ b. star k b t) f)
star-Full k best (c ∷ u) t s e f =
    subst (λ s. Full (star k best s)) e
      (star_case-later (k (c ∷ (u ++ t))) best (λ b. star k b (u ++ t))
        (λ b. star-Full k b u t (u ++ t) refl f))

plain_parts :
    (m : ℕ)
    → is_special m ≡ false
    → ((m == b'?') ≡ false) × ((m == b'*') ≡ false) × ((m == b'[') ≡ false)
plain_parts m h = ground (arith, h)

negated-plain : (p : Str) → (char_of p == b'^') ≡ false → negated p ≡ (false, p)
negated-plain [] h = refl
negated-plain (c ∷ p) h = rw h refl

module _ (loc : Locale) (cs : Bool) where
  SameChar-same_char : (m c : ℕ) → SameChar loc cs m c → same_char loc cs m c ≡ true
  SameChar-same_char m c (inl (q, e)) = rw (q, e, same_char) (==_refl c)
  SameChar-same_char m c (inr (q, e)) = rw (q, e, same_char) (==_refl (loc.towlower c))

  pmatch-Full : (f : ℕ) (s p : Str) → Matches loc cs p s → Full (pmatch f loc cs s p)
  unfolding pmatch
  pmatch-Full zero s p m = tt
  pmatch-Full (suc f) _ _ nothing = tt
  pmatch-Full (suc f) _ _ (one c {p = p} {t = t} m) = pmatch-Full f t p m
  pmatch-Full (suc f) s _ (many u {p = []} e m) = tt
  pmatch-Full (suc f) s _ (many u {p = x ∷ q} {t = t} e m) =
      star-Full (λ t. pmatch f loc cs t (x ∷ q)) none u t s e (pmatch-Full f t (x ∷ q) m)
  pmatch-Full (suc f) _ _ (class_in c {p = p} {r = r} {t = t} n h m) =
      rw (negated-plain p n, scan-Holds loc c true p r h, pmatch) (pmatch-Full f t r m)
  pmatch-Full (suc f) _ _ (class_out c {p = p} {r = r} {t = t} h m) =
      rw (scan-Holds loc c false p r h, pmatch) (pmatch-Full f t r m)
  pmatch-Full (suc f) _ _ (same x c {p = p} {t = t} n h m) =
      let (a, b, d) = plain_parts x n in
      rw (a, b, d, SameChar-same_char x c h, pmatch) (pmatch-Full f t p m)

  -- An exact match is one of the whole string, any other result but for a broken pattern means that
  -- there is none; a partial match is one of the string up to the end that is reported.
  abbrev pub Told : Str → Str → Match → Type 0
  Told s p (exact r) = (r ≡ []) × Matches loc cs p s
  Told s p (partial r) = (Matches loc cs p s → ⊥) × ((u : Str) × (u ++ r ≡ s) × Matches loc cs p u)
  Told s p no_match = Matches loc cs p s → ⊥
  Told s p missing = Unit
  Told s p overrun = Unit
  Told s p out_of_fuel = ⊥

  told :
      (s p : Str) (r : Match)
      → Sound loc cs s p r
      → (Matches loc cs p s → Full r)
      → Ends r
      → Told s p r
  told s p _ no_match_ok f e = f
  told s p _ missing_ok f e = tt
  told s p _ overrun_ok f e = tt
  told s p _ fuel_ok f e = e
  told s p _ (partial_ok u r q m) f e = (f, (u, q, m))
  told s p _ (exact_ok m) f e = (refl, m)

  -- `t_pmatch` gives an exact match only of the whole string, and a partial one only of the string up
  -- to the end that it reports; with either a partial match or none the pattern does not match the
  -- whole string. Where a class has no `]`, or a read goes past the end, it tells nothing.
  pub t_pmatch-Told : (s p : Str) → Told s p (t_pmatch loc cs s p)
  t_pmatch-Told s p =
      told s p (t_pmatch loc cs s p) (t_pmatch-Sound loc cs s p)
        (λ m. unfold t_pmatch in pmatch-Full (suc (length p)) s p m) (t_pmatch-Ends loc cs s p)
