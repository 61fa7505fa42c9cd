-- ===== src/Vars/Update.antt =====
-- sh.set.c: the values of names in a sorted table after `setq` and `unsetv`.
use mcsh.Base.{
  ℕ, Bool, true, false, Option, none, some, List, ◌∷◌, ◌++◌, Str, eq, eq_iff, ◌≡◌, ◌≢◌, inl, inr,
  refl, ap, sym, ◌∙◌, subst, append_assoc, not, if◌then◌else◌, Bool-cases,
}
use mcsh.Vars.Tree.{Var, Bal, even, Tree, leaf, node, Way, plug}
use mcsh.Vars.Table.{
  adrof1, readonly, undefined, Result, ok, err, is_readonly, Place, absent, present, new_var,
  set_at, setq, unset_place, unsetv1, unsetv, trim,
}
use mcsh.Vars.Inorder.{to_list, before, after, to_list-plug, to_list-balance, to_list-unsetv1}
use mcsh.Vars.Order.{
  AllLess, AllMore, Sorted, lookup, Sorted-less, Sorted-right, Sorted-remove, Sorted-insert,
  lookup-AllMore, lookup-skip, lookup-middle,
}
use mcsh.Vars.Lookup.{eq_self, Found, regroup, locate-Found_top, IsSorted, adrof1-eq-lookup}

-- The value of `j` after `k` got the variable `v`, or lost its own.
abbrev pub Sets : Str → Var → Tree → Tree → Type 0
Sets k v t t' = IsSorted t' × ((j : Str) → adrof1 j t' ≡ (if eq j k then some v else adrof1 j t))

abbrev pub Drops : Str → Tree → Tree → Type 0
Drops k t t' = IsSorted t' × ((j : Str) → adrof1 j t' ≡ (if eq j k then none else adrof1 j t))

-- From lists to trees: `v` was put in front of `ys`, in place of the variables `old`.
Sets-of-lists :
    (k : Str) (v : Var) (t t' : Tree) (xs ys : List Var)
    → v.name ≡ k
    → IsSorted t
    → to_list t' ≡ xs ++ v ∷ ys
    → Sorted (xs ++ v ∷ ys)
    → ((j : Str) → eq j k ≡ false → lookup j (xs ++ ys) ≡ lookup j (to_list t))
    → Sets k v t t'
Sets-of-lists k v t t' xs ys named s e s' others =
    let s'' : IsSorted t' = subst Sorted (sym e) s' in
    (
      s'',
      λ j. elim (Bool-cases (eq j k)) [
        | inl h ↦ rw h (
            adrof1-eq-lookup j t' s''
            ∙ ap (lookup j) e
            ∙ lookup-skip j xs _ (
                subst (λ n. AllLess n xs) (named ∙ sym ((eq_iff j k).0 h)) (Sorted-less xs v ys s'))
            ∙ unfold lookup in rw (rw (← named) at h))
        | inr h ↦ rw h (
            adrof1-eq-lookup j t' s''
            ∙ ap (lookup j) e
            ∙ lookup-middle j xs v ys (rw (← named) at h)
            ∙ others j h
            ∙ sym (adrof1-eq-lookup j t s))
      ],
    )

-- The table has no read-only variable of that name.
abbrev pub writable : Option Var → Bool
writable none = true
writable (some x) = not (is_readonly x)

-- What `setq` promises: a read-only variable is refused, and else the one name has its new value.
abbrev pub SetqMeets : Str → Var → Tree → Result Tree → Type 0
SetqMeets k v t (ok t') = (writable (adrof1 k t) ≡ true) × Sets k v t t'
SetqMeets k v t (err f) = (writable (adrof1 k t) ≡ false) × (f ≡ readonly k)

abbrev pub UnsetvMeets : Str → Tree → Result Tree → Type 0
UnsetvMeets k t (ok t') = (adrof1 k t ≢ none) × Drops k t t'
UnsetvMeets k t (err f) = (adrof1 k t ≡ none) × (f ≡ undefined k)

-- The variables on both sides of the place of `k`.
record Sides (k : Str) (t : Tree) (xs ys : List Var) : Type 0 where
  less_k : AllLess k xs
  more_k : AllMore k ys
  sorted : Sorted (xs ++ ys)
  others : (j : Str) → eq j k ≡ false → lookup j (xs ++ ys) ≡ lookup j (to_list t)

module _ (k : Str) (t : Tree) (s : IsSorted t) where
  absent-Sides :
      (way : Way)
      → Found k (to_list t) (absent way)
      → Sides k t (before way) (after way) × (adrof1 k t ≡ none)
  absent-Sides way (e, p, q) = (
    record {
      less_k = p;
      more_k = q;
      sorted = subst Sorted (sym e) s;
      others = λ j h. ap (lookup j) e;
    },
    adrof1-eq-lookup k t s
        ∙ ap (lookup k) (sym e)
        ∙ lookup-skip k (before way) (after way) p
        ∙ lookup-AllMore k (after way) q,
  )

  present-Sides :
      (l : Tree) (x : Var) (b : Bal) (r : Tree) (way : Way)
      → Found k (to_list t) (present l x b r way)
      → Sides k t (before way ++ to_list l) (to_list r ++ after way) × (adrof1 k t ≡ some x)
  present-Sides l x b r way (e, named) =
      let s' = subst Sorted (sym e) s in
      let less_x = Sorted-less (before way ++ to_list l) x _ s' in
      (
        record {
          less_k = rw (← named) less_x;
          more_k = rw (← named) (Sorted-right (before way ++ to_list l) _ s').0;
          sorted = Sorted-remove (before way ++ to_list l) x _ s';
          others = λ j h.
              sym (lookup-middle j (before way ++ to_list l) x _ (rw named h)) ∙ ap (lookup j) e;
        },
        adrof1-eq-lookup k t s
            ∙ ap (lookup k) (sym e)
            ∙ lookup-skip k (before way ++ to_list l) _ (rw (← named) less_x)
            ∙ unfold lookup in rw (named, eq_self k),
      )

  Sides-Sets :
      (v : Var) (t' : Tree) (xs ys : List Var)
      → v.name ≡ k
      → Sides k t xs ys
      → to_list t' ≡ xs ++ v ∷ ys
      → Sets k v t t'
  Sides-Sets v t' xs ys named h e =
      Sets-of-lists k v t t' xs ys named s e
        (Sorted-insert xs v ys h.sorted (rw named h.less_k) (rw named h.more_k)) h.others

  Sides-Drops :
      (t' : Tree) (xs ys : List Var) → Sides k t xs ys → to_list t' ≡ xs ++ ys → Drops k t t'
  Sides-Drops t' xs ys h e =
      let s' : IsSorted t' = subst Sorted (sym e) h.sorted in
      (
        s',
        λ j. elim (Bool-cases (eq j k)) [
          | inl hit ↦ rw hit (
              adrof1-eq-lookup j t' s'
              ∙ ap (lookup j) e
              ∙ rw ((eq_iff j k).0 hit)
                  (lookup-skip k xs ys h.less_k ∙ lookup-AllMore k ys h.more_k))
          | inr other ↦ rw other (
              adrof1-eq-lookup j t' s'
              ∙ ap (lookup j) e
              ∙ h.others j other
              ∙ sym (adrof1-eq-lookup j t s))
        ],
      )

  set_at-Meets :
      (vec : List Str) (flags : ℕ) (p : Place)
      → Found k (to_list t) p
      → SetqMeets k (new_var k vec flags) t (set_at k vec flags p)
  set_at-Meets vec flags (absent way) f =
      let (sides, none_there) = absent-Sides way f in
      let v = new_var k vec flags in
      (
        rw none_there,
        Sides-Sets v _ _ _ refl sides (
            to_list-balance false (node leaf v even leaf) way
            ∙ to_list-plug (node leaf v even leaf) way
            ∙ unfold to_list in refl),
      )
  set_at-Meets vec flags (present l x b r way) f =
      let (sides, there) = present-Sides l x b r way f in
      let v : Var = record x { vec = trim vec; flags = flags } in
      let same_v : v ≡ new_var k vec flags =
        λ i. record { name = f.1 i; vec = trim vec; flags = flags } in
      let sets = Sides-Sets v (plug (node l v b r) way) _ _ f.1 sides (
        to_list-plug (node l v b r) way
        ∙ unfold to_list in sym (regroup (before way) (to_list l) (to_list r) (after way) v)) in
      elim (Bool-cases (is_readonly x)) [
        | inl e ↦ rw e (rw (there, e), ap readonly f.1)
        | inr e ↦
            rw e (rw (there, e), subst (λ u. Sets k u t (plug (node l v b r) way)) same_v sets)
      ]

  unset_place-Meets : (p : Place) → Found k (to_list t) p → UnsetvMeets k t (unset_place k p)
  unset_place-Meets (absent way) f = ((absent-Sides way f).1, refl)
  unset_place-Meets (present l x b r way) f =
      let (sides, there) = present-Sides l x b r way f in
      (
        λ e. cc,
        Sides-Drops (unsetv1 l x b r way) _ _ sides
            (to_list-unsetv1 l x b r way ∙ simp append_assoc),
      )

-- `setq` on a sorted table refuses a read-only variable and nothing else. Otherwise the table stays
-- sorted, a search for the name finds the new variable, and every other search finds what it found.
pub setq-SetqMeets :
    (k : Str) (vec : List Str) (t : Tree) (flags : ℕ)
    → IsSorted t
    → SetqMeets k (new_var k vec flags) t (setq k vec t flags)
unfolding setq
setq-SetqMeets k vec t flags s = set_at-Meets k t s vec flags _ (locate-Found_top k t s)

-- `unsetv` on a sorted table fails only for a name that is not there. Otherwise the table stays
-- sorted, a search for the name finds nothing, and every other search finds what it found.
pub unsetv-UnsetvMeets : (k : Str) (t : Tree) → IsSorted t → UnsetvMeets k t (unsetv k t)
unfolding unsetv
unsetv-UnsetvMeets k t s = unset_place-Meets k t s _ (locate-Found_top k t s)
