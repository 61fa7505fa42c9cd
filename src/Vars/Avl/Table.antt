-- ===== src/Vars/Avl/Table.antt =====
-- sh.set.c: the heights under `setq` and `unsetv`.
use mcsh.Base.{
  ℕ, suc, true, false, List, [], ◌∷◌, ◌++◌, Str, inl, inr, refl, arith, subst, Bool-cases,
}
use Prim.Native.Nat.{Ordering}
use mcsh.Vars.Tree.{Var, Bal, even, Tree, leaf, node, from_left, from_right, Way}
use mcsh.Vars.Table.{
  Place, absent, present, locate, set_at, setq, Result, ok, err, unset_place, unsetv, unsetv1,
  rightmost, replace_by, new_var, is_readonly, trim, name_cmp,
}
use mcsh.Vars.Avl.{height, IsAvl, WayAvl, plug-IsAvl, balance-IsAvl}

abbrev PlaceAvl : Place → Type 0
PlaceAvl (absent way) = WayAvl way 0
PlaceAvl (present l x b r way) = IsAvl (node l x b r) × WayAvl way (height (node l x b r))

locate-PlaceAvl :
    (name : Str) (t : Tree) (way : Way)
    → IsAvl t
    → WayAvl way (height t)
    → PlaceAvl (locate name t way)
unfolding locate
locate-PlaceAvl name leaf way p w = w
locate-PlaceAvl name (node l x b r) way p w =
    go (name_cmp name x.name) (locate-PlaceAvl name l (from_left x b r ∷ way) p.0 (p.1, p.2, w))
      (locate-PlaceAvl name r (from_right l x b ∷ way) p.1 (p.0, p.2, w))
  where
    go :
        (o : Ordering)
        → PlaceAvl (locate name l (from_left x b r ∷ way))
        → PlaceAvl (locate name r (from_right l x b ∷ way))
        → PlaceAvl (elim o [
          | Ordering.eq ↦ present l x b r way
          | Ordering.lt ↦ locate name l (from_left x b r ∷ way)
          | Ordering.gt ↦ locate name r (from_right l x b ∷ way)
        ])
    go Ordering.eq a c = (p, w)
    go Ordering.lt a c = a
    go Ordering.gt a c = c

-- A result that is a tree is balanced.
abbrev pub OkAvl : Result Tree → Type 0
OkAvl (ok t) = IsAvl t
OkAvl (err f) = Unit

set_at-OkAvl :
    (k : Str) (vec : List Str) (flags : ℕ) (p : Place) → PlaceAvl p → OkAvl (set_at k vec flags p)
set_at-OkAvl k vec flags (absent way) w =
    balance-IsAvl false (node leaf (new_var k vec flags) even leaf) way 0 (tt, tt, refl) refl w
set_at-OkAvl k vec flags (present l x b r way) (p, w) = elim (Bool-cases (is_readonly x)) [
  | inl e ↦ rw e tt
  | inr e ↦ rw e (plug-IsAvl (node l (record x { vec = trim vec; flags = flags }) b r) way p w)
]

rightmost-Avl :
    (l : Tree) (x : Var) (b : Bal) (r : Tree) (inner outer : Way)
    → IsAvl (node l x b r)
    → WayAvl (inner ++ outer) (height (node l x b r))
    → let (z, m, out) = rightmost l x b r inner in IsAvl m × WayAvl (out ++ outer) (suc (height m))
unfolding rightmost
rightmost-Avl l x b leaf inner outer p w = (p.0, subst (WayAvl (inner ++ outer)) (omega arith) w)
rightmost-Avl l x b (node m y c r) inner outer p w =
    rightmost-Avl m y c r (from_right l x b ∷ inner) outer p.1 (p.0, p.2, w)

replace_by-IsAvl :
    (q : Var × Tree × Way) (b : Bal) (r : Tree) (way : Way)
    → IsAvl q.1
    → WayAvl (q.2 ++ from_left q.0 b r ∷ way) (suc (height q.1))
    → IsAvl (replace_by q b r way)
replace_by-IsAvl (z, m, inner) b r way p w =
    balance-IsAvl true m (inner ++ from_left z b r ∷ way) (suc (height m)) p refl w

pub unsetv1-IsAvl :
    (l : Tree) (x : Var) (b : Bal) (r : Tree) (way : Way)
    → IsAvl (node l x b r)
    → WayAvl way (height (node l x b r))
    → IsAvl (unsetv1 l x b r way)
unfolding unsetv1
unsetv1-IsAvl l x b leaf way p w =
    balance-IsAvl true l way (height (node l x b leaf)) p.0 (omega arith) w
unsetv1-IsAvl leaf x b (node m z c r) way p w =
    balance-IsAvl true (node m z c r) way (height (node leaf x b (node m z c r))) p.1 (omega arith)
      w
unsetv1-IsAvl (node k y a l) x b (node m z c r) way p w =
    let q = rightmost k y a l [] in
    let (balanced, inner) =
      rightmost-Avl k y a l [] (from_left q.0 b (node m z c r) ∷ way) p.0 (p.1, p.2, w) in
    replace_by-IsAvl q b (node m z c r) way balanced inner

unset_place-OkAvl : (k : Str) (p : Place) → PlaceAvl p → OkAvl (unset_place k p)
unset_place-OkAvl k (absent way) w = tt
unset_place-OkAvl k (present l x b r way) (p, w) = unsetv1-IsAvl l x b r way p w

-- `setq` on a height-balanced table gives a height-balanced table, whose balance factors are all
-- right, or refuses.
pub setq-OkAvl :
    (k : Str) (vec : List Str) (t : Tree) (flags : ℕ) → IsAvl t → OkAvl (setq k vec t flags)
unfolding setq
setq-OkAvl k vec t flags p = set_at-OkAvl k vec flags (locate k t []) (locate-PlaceAvl k t [] p tt)

-- `unsetv` on a height-balanced table gives a height-balanced table, whose balance factors are all
-- right, or fails.
pub unsetv-OkAvl : (k : Str) (t : Tree) → IsAvl t → OkAvl (unsetv k t)
unfolding unsetv
unsetv-OkAvl k t p = unset_place-OkAvl k (locate k t []) (locate-PlaceAvl k t [] p tt)
