-- ===== src/Vars/Lookup.antt =====
-- sh.set.c: the descent for a name, in `adrof1`, `setq` and `unsetv`.
use Prim.Native.Nat.{Ordering}
use mcsh.Base.{
  true, List, [], ◌∷◌, ◌++◌, Str, eq, eq_iff, ◌≡◌, refl, sym, ◌∙◌, subst, append_assoc, append-nil,
}
use mcsh.Vars.Tree.{Var, Bal, Tree, leaf, node, from_left, from_right, Way}
use mcsh.Vars.Table.{s_strcmp, name_cmp, adrof1, Place, absent, present, locate}
use mcsh.Vars.Inorder.{to_list, before, after}
use mcsh.Vars.Order.{
  name_cmp-eq-strcmp, strcmp-eq, strcmp_gt, Precedes, Precedes-eq, eq_sym, AllLess, AllMore, Sorted,
  lookup, All-append, AllMore-trans, AllLess-trans, Sorted-less, Sorted-left, Sorted-right,
  lookup-skip, lookup-stop,
}

-- The names of the tree increase from left to right.
abbrev pub IsSorted : Tree → Type 0
IsSorted t = Sorted (to_list t)

pub eq_self : (a : Str) → eq a a ≡ true
eq_self a = (eq_iff a a).1 refl

-- Three outcomes of a comparison.
data Cmp (a b : Str) : Type 0 where
  same : name_cmp a b ≡ Ordering.eq → a ≡ b → Cmp a b
  less : name_cmp a b ≡ Ordering.lt → Precedes a b → Cmp a b
  more : name_cmp a b ≡ Ordering.gt → Precedes b a → Cmp a b

cmp : (a b : Str) → Cmp a b
cmp a b = go (s_strcmp a b) refl
  where
    go : (o : Ordering) → s_strcmp a b ≡ o → Cmp a b
    go Ordering.eq e = same (name_cmp-eq-strcmp a b ∙ e) (strcmp-eq a b e)
    go Ordering.lt e = less (name_cmp-eq-strcmp a b ∙ e) e
    go Ordering.gt e = more (name_cmp-eq-strcmp a b ∙ e) (strcmp_gt a b e)

-- The descent finds what a search of the whole list finds.
pub adrof1-eq-lookup :
    (name : Str) (t : Tree) → IsSorted t → adrof1 name t ≡ lookup name (to_list t)
unfolding adrof1 to_list
adrof1-eq-lookup name leaf s = unfold lookup in refl
adrof1-eq-lookup name (node l x b r) s =
    let less_l = Sorted-less (to_list l) x (to_list r) s in
    let (more_r, sorted_r) = Sorted-right (to_list l) (x ∷ to_list r) s in
    elim (cmp name x.name) [
      | same c e ↦
          rw (c, adrof1)
            (sym (
              lookup-skip name (to_list l) _ (rw e less_l)
              ∙ unfold lookup in rw (e, eq_self x.name)))
      | less c p ↦
          rw (c, adrof1)
            (adrof1-eq-lookup name l (Sorted-left (to_list l) _ s)
              ∙ sym (
                  lookup-stop name (to_list l) (x ∷ to_list r)
                    (p, AllMore-trans name x.name (to_list r) p more_r)))
      | more c p ↦
          rw (c, adrof1)
            (adrof1-eq-lookup name r sorted_r
              ∙ sym (
                  lookup-skip name (to_list l) _ (AllLess-trans x.name name (to_list l) p less_l)
                  ∙ unfold lookup in rw (eq_sym x.name name (Precedes-eq x.name name p))))
    ]

-- What the end of a descent says of the list of all variables.
abbrev pub Found : Str → List Var → Place → Type 0
Found name vars (absent way) =
    (before way ++ after way ≡ vars) × AllLess name (before way) × AllMore name (after way)
Found name vars (present l x b r way) =
    ((before way ++ to_list l) ++ x ∷ (to_list r ++ after way) ≡ vars) × (x.name ≡ name)

module _ (name : Str) (l : Tree) (x : Var) (b : Bal) (r : Tree) (way : Way) where
  locate_same :
      name_cmp name x.name ≡ Ordering.eq → locate name (node l x b r) way ≡ present l x b r way
  unfolding locate
  locate_same c = rw (c, locate)

  locate_less :
      name_cmp name x.name ≡ Ordering.lt
      → locate name (node l x b r) way ≡ locate name l (from_left x b r ∷ way)
  unfolding locate
  locate_less c = rw (c, locate)

  locate_more :
      name_cmp name x.name ≡ Ordering.gt
      → locate name (node l x b r) way ≡ locate name r (from_right l x b ∷ way)
  unfolding locate
  locate_more c = rw (c, locate)

pub regroup : (a l r z : List Var) (x : Var) → (a ++ l) ++ x ∷ (r ++ z) ≡ a ++ ((l ++ x ∷ r) ++ z)
regroup a l r z x = simp append_assoc

locate-Found :
    (name : Str) (vars : List Var) (t : Tree) (way : Way)
    → Sorted vars
    → before way ++ (to_list t ++ after way) ≡ vars
    → AllLess name (before way)
    → AllMore name (after way)
    → Found name vars (locate name t way)
locate-Found name vars leaf way s e p q = unfold locate in (unfold to_list in e, p, q)
locate-Found name vars (node l x b r) way s e p q =
    let split : (before way ++ to_list l) ++ x ∷ (to_list r ++ after way) ≡ vars =
      regroup (before way) (to_list l) (to_list r) (after way) x ∙ unfold to_list in e in
    let s' : Sorted ((before way ++ to_list l) ++ x ∷ (to_list r ++ after way)) =
      subst Sorted (sym split) s in
    let less_x = Sorted-less (before way ++ to_list l) x _ s' in
    let more_x = (Sorted-right (before way ++ to_list l) _ s').0 in
    elim (cmp name x.name) [
      | same c h ↦ subst (Found name vars) (sym (locate_same name l x b r way c)) (split, sym h)
      | less c h ↦ subst (Found name vars) (sym (locate_less name l x b r way c)) (
          locate-Found name vars l (from_left x b r ∷ way) s
            (unfold before after in (sym (append_assoc (before way) (to_list l) _) ∙ split))
            (unfold before in p) (unfold after in (h, AllMore-trans name x.name _ h more_x)))
      | more c h ↦ subst (Found name vars) (sym (locate_more name l x b r way c)) (
          locate-Found name vars r (from_right l x b ∷ way) s
            (unfold before after in
              (simp append_assoc (sym (append_assoc (before way) (to_list l) _) ∙ split)))
            (unfold before in
              (subst (AllLess name) (append_assoc (before way) (to_list l) (x ∷ [])) (
                All-append _ (before way ++ to_list l) (x ∷ [])
                  (AllLess-trans x.name name _ h less_x) (h, tt))))
            (unfold after in q))
    ]

pub locate-Found_top :
    (name : Str) (t : Tree) → IsSorted t → Found name (to_list t) (locate name t [])
locate-Found_top name t s =
    locate-Found name (to_list t) t [] s (unfold before after in append-nil (to_list t))
      (unfold before in tt) (unfold after in tt)
