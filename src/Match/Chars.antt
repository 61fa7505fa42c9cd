-- ===== src/Match/Chars.antt =====
-- sh.glob.c: what a class in brackets holds, as a relation, and `t_pmatch`'s scan of it.
use mcsh.Base.{
  ℕ, Bool, true, false, not, ◌&&◌, ◌||◌, [], ◌∷◌, ◌==◌, Str, ◌≡◌, refl, arith, Bool-cases, inl, inr,
  subst, sym,
}
use mcsh.Match.{
  Locale, globcharcoll, not_positive, in_range, Class, found, no_bracket, class_overrun, scan_class,
}

-- A `-` comes, with the end of a range behind it that is not `]`.
abbrev pub is_range : Str → Bool
is_range (d ∷ e ∷ p) = d == b'-' && not (e == b']')
is_range p = false

-- The pattern up to its first `]`, and what is behind it.
pub data Closes : Str → Str → Type 0 where
  here : (r : Str) → Closes (b']' ∷ r) r
  past : (x : ℕ) {p r : Str} → (x == b']') ≡ false → Closes p r → Closes (x ∷ p) r

module _ (loc : Locale) (c : ℕ) where
  -- Neither end of the range is on the wrong side of the character in the order of the locale.
  abbrev pub IsBetween : ℕ → ℕ → Bool → Type 0
  IsBetween lo hi b =
      (not_positive (globcharcoll loc c hi false) && not_positive (globcharcoll loc lo c false)) ≡ b

  -- Whether the class has the character, and the pattern behind the class: at the first member that
  -- has it the rest of the class is passed over.
  pub data Holds : Bool → Str → Str → Type 0 where
    end : (r : Str) → Holds false (b']' ∷ r) r
    char :
        (x : ℕ) {p r : Str}
        → (x == b']') ≡ false
        → is_range p ≡ false
        → (c == x) ≡ true
        → Closes p r
        → Holds true (x ∷ p) r
    no_char :
        (x : ℕ) {b : Bool} {p r : Str}
        → (x == b']') ≡ false
        → is_range p ≡ false
        → (c == x) ≡ false
        → Holds b p r
        → Holds b (x ∷ p) r
    range :
        (x e : ℕ) {p r : Str}
        → (x == b']') ≡ false
        → (e == b']') ≡ false
        → IsBetween x e true
        → Closes p r
        → Holds true (x ∷ b'-' ∷ e ∷ p) r
    no_range :
        (x e : ℕ) {b : Bool} {p r : Str}
        → (x == b']') ≡ false
        → (e == b']') ≡ false
        → IsBetween x e false
        → Holds b p r
        → Holds b (x ∷ b'-' ∷ e ∷ p) r

  -- A member that is not a range, before a scan that gets to the end of the class.
  scan_member :
      (m b : Bool) (x : ℕ) (p r : Str)
      → (x == b']') ≡ false
      → (not m && is_range p) ≡ false
      → scan_class loc c (m || c == x) p ≡ found b r
      → scan_class loc c m (x ∷ p) ≡ found b r
  unfolding scan_class
  scan_member m b x [] r n g q = absurd (ground (arith, q))
  scan_member m b x (d ∷ []) r n g q = ground (arith, n, q)
  scan_member m b x (d ∷ e ∷ p) r n g q = rw (n, g, scan_class) q

  -- The scan behind a member that has the character.
  scan-Closes : (p r : Str) → Closes p r → scan_class loc c true p ≡ found true r
  unfolding scan_class
  scan-Closes _ _ (here []) = refl
  scan-Closes _ _ (here (d ∷ [])) = refl
  scan-Closes _ _ (here (d ∷ e ∷ r)) = refl
  scan-Closes _ r (past x {p = p} n k) = scan_member true true x p r n refl (scan-Closes p r k)

  pub scan-Holds : (b : Bool) (p r : Str) → Holds b p r → scan_class loc c false p ≡ found b r
  unfolding scan_class
  scan-Holds _ _ _ (end []) = refl
  scan-Holds _ _ _ (end (d ∷ [])) = refl
  scan-Holds _ _ _ (end (d ∷ e ∷ r)) = refl
  scan-Holds _ _ r (char x {p = p} n g h k) =
      scan_member false true x p r n g (rw h (scan-Closes p r k))
  scan-Holds b _ r (no_char x {p = p} n g h k) =
      scan_member false b x p r n g (rw h (scan-Holds b p r k))
  scan-Holds _ _ r (range x e {p = p} n m i k) = rw (n, m, i, scan_class) (scan-Closes p r k)
  scan-Holds b _ r (no_range x e {p = p} n m i k) = rw (n, m, i, scan_class) (scan-Holds b p r k)

  -- What a scan finds, in the words of the relations.
  ClassCloses : Str → Class → Type 0
  ClassCloses p (found b r) = (b ≡ true) × Closes p r
  ClassCloses p o = Unit

  abbrev pub ClassHolds : Str → Class → Type 0
  ClassHolds p (found b r) = Holds b p r
  ClassHolds p o = Unit

  at_bracket : (x : ℕ) → (x == b']') ≡ true → b']' ≡ x
  at_bracket x e = ground arith

  at_dash : (x : ℕ) → (x == b'-') ≡ true → b'-' ≡ x
  at_dash x e = ground arith

  past-ClassCloses :
      (x : ℕ) (p : Str) (o : Class) → (x == b']') ≡ false → ClassCloses p o → ClassCloses (x ∷ p) o
  unfolding ClassCloses
  past-ClassCloses x p (found b r) n h = (h.0, past x n h.1)
  past-ClassCloses x p no_bracket n h = tt
  past-ClassCloses x p class_overrun n h = tt

  closed-ClassCloses : (x : ℕ) (p : Str) → (x == b']') ≡ true → ClassCloses (x ∷ p) (found true p)
  unfolding ClassCloses
  closed-ClassCloses x p e = (refl, subst (λ y. Closes (y ∷ p) p) (at_bracket x e) (here p))

  closed_scan :
      (x : ℕ) (p : Str) → (x == b']') ≡ true → ClassCloses (x ∷ p) (scan_class loc c true (x ∷ p))
  unfolding scan_class
  closed_scan x [] e = rw (e, scan_class) (closed-ClassCloses x [] e)
  closed_scan x (d ∷ []) e = rw (e, scan_class) (closed-ClassCloses x (d ∷ []) e)
  closed_scan x (d ∷ f ∷ p) e = rw (e, scan_class) (closed-ClassCloses x (d ∷ f ∷ p) e)

  further_scan :
      (x : ℕ) (p : Str)
      → (x == b']') ≡ false
      → ClassCloses p (scan_class loc c true p)
      → ClassCloses (x ∷ p) (scan_class loc c true (x ∷ p))
  unfolding scan_class
  further_scan x [] e h = rw (e, scan_class) (unfold ClassCloses in tt)
  further_scan x (d ∷ []) e h = rw (e, scan_class) (past-ClassCloses x (d ∷ []) _ e h)
  further_scan x (d ∷ f ∷ p) e h = rw (e, scan_class) (past-ClassCloses x (d ∷ f ∷ p) _ e h)

  scan-ClassCloses : (p : Str) → ClassCloses p (scan_class loc c true p)
  unfolding scan_class
  scan-ClassCloses [] = unfold ClassCloses in tt
  scan-ClassCloses (x ∷ p) = elim (Bool-cases (x == b']')) [
    | inl e ↦ closed_scan x p e
    | inr e ↦ further_scan x p e (scan-ClassCloses p)
  ]

  closed-ClassHolds : (x : ℕ) (p : Str) → (x == b']') ≡ true → ClassHolds (x ∷ p) (found false p)
  closed-ClassHolds x p e = subst (λ y. Holds false (y ∷ p) p) (at_bracket x e) (end p)

  member-ClassHolds :
      (x : ℕ) (p : Str) (b : Bool)
      → (x == b']') ≡ false
      → is_range p ≡ false
      → (c == x) ≡ b
      → (h : ClassHolds p (scan_class loc c false p)) → ClassHolds (x ∷ p) (scan_class loc c b p)
  member-ClassHolds x p true n g e h = go (scan_class loc c true p) (scan-ClassCloses p)
    where
      go : (o : Class) → ClassCloses p o → ClassHolds (x ∷ p) o
      go (found b r) k =
          let k' : (b ≡ true) × Closes p r = (unfold ClassCloses in k) in
          subst (λ b. Holds b (x ∷ p) r) (sym k'.0) (char x n g e k'.1)
      go no_bracket k = tt
      go class_overrun k = tt
  member-ClassHolds x p false n g e h = go (scan_class loc c false p) h
    where
      go : (o : Class) → ClassHolds p o → ClassHolds (x ∷ p) o
      go (found b r) k = no_char x n g e k
      go no_bracket k = tt
      go class_overrun k = tt

  range-ClassHolds :
      (x d e : ℕ) (q : Str) (b : Bool)
      → (x == b']') ≡ false
      → (d == b'-') ≡ true
      → (e == b']') ≡ false
      → IsBetween x e b
      → (h : ClassHolds q (scan_class loc c false q))
      → ClassHolds (x ∷ d ∷ e ∷ q) (scan_class loc c b q)
  range-ClassHolds x d e q true n m l i h = go (scan_class loc c true q) (scan-ClassCloses q)
    where
      go : (o : Class) → ClassCloses q o → ClassHolds (x ∷ d ∷ e ∷ q) o
      go (found b r) k =
          let k' : (b ≡ true) × Closes q r = (unfold ClassCloses in k) in
          subst (λ b. Holds b (x ∷ d ∷ e ∷ q) r) (sym k'.0)
            (subst (λ y. Holds true (x ∷ y ∷ e ∷ q) r) (at_dash d m) (range x e n l i k'.1))
      go no_bracket k = tt
      go class_overrun k = tt
  range-ClassHolds x d e q false n m l i h = go (scan_class loc c false q) h
    where
      go : (o : Class) → ClassHolds q o → ClassHolds (x ∷ d ∷ e ∷ q) o
      go (found b r) k = subst (λ y. Holds b (x ∷ y ∷ e ∷ q) r) (at_dash d m) (no_range x e n l i k)
      go no_bracket k = tt
      go class_overrun k = tt

  pub scan-ClassHolds : (p : Str) → ClassHolds p (scan_class loc c false p)
  unfolding scan_class
  scan-ClassHolds [] = tt
  scan-ClassHolds (x ∷ []) = elim (Bool-cases (x == b']')) [
    | inl e ↦ rw (e, scan_class) (closed-ClassHolds x [] e)
    | inr e ↦ rw (e, scan_class) tt
  ]
  scan-ClassHolds (x ∷ d ∷ []) = elim (Bool-cases (x == b']')) [
    | inl e ↦ rw (e, scan_class) (closed-ClassHolds x (d ∷ []) e)
    | inr e ↦ elim (Bool-cases (d == b'-')) [
      | inl m ↦ rw (e, m, scan_class) tt
      | inr m ↦
          rw (e, m, scan_class)
            (member-ClassHolds x (d ∷ []) (c == x) e refl refl (scan-ClassHolds (d ∷ [])))
    ]
  ]
  scan-ClassHolds (x ∷ d ∷ e ∷ q) = elim (Bool-cases (x == b']')) [
    | inl n ↦ rw (n, scan_class) (closed-ClassHolds x (d ∷ e ∷ q) n)
    | inr n ↦ elim (Bool-cases (d == b'-' && not (e == b']'))) [
      | inl g ↦
          rw (n, g, scan_class)
            (range-ClassHolds x d e q (in_range loc c x e) n (ground (arith, g)) (ground (arith, g))
              refl (scan-ClassHolds q))
      | inr g ↦
          rw (n, g, scan_class)
            (member-ClassHolds x (d ∷ e ∷ q) (c == x) n g refl (scan-ClassHolds (d ∷ e ∷ q)))
    ]
  ]
