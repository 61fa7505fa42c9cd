-- ===== src/Vars/Avl.antt =====
-- sh.set.c: `balance`, the heights of the subtrees and every `v_bal`.
pub mod Table
use mcsh.Base.{
  ℕ, zero, suc, ◌+◌, ◌≤◌, ◌<◌, max, Bool, true, false, not, List, [], ◌∷◌, ◌++◌, Str, ◌≡◌, ◌⊎◌, inl,
  inr, refl, ap, sym, ◌∙◌, subst, arith, if◌then◌else◌, Bool-cases,
}
use mcsh.Vars.Tree.{
  Var, Bal, left, even, right, Tree, leaf, node, Frame, from_left, from_right, Way, plug, balance,
  right_heavy, left_heavy, rebalance, done_at, top_bal, left_of, right_of, is_even,
}
use mcsh.Vars.Table.{
  Place, absent, present, locate, set_at, setq, Result, ok, err, unset_place, unsetv, unsetv1,
  rightmost, replace_by, new_var, is_readonly, trim, name_cmp,
}

abbrev pub height : Tree → ℕ
height leaf = 0
height (node l x b r) = suc (max (height l) (height r))

-- `v_bal` against the heights of the children.
abbrev pub Tilt : Bal → ℕ → ℕ → Type 0
Tilt left a b = a ≡ suc b
Tilt even a b = a ≡ b
Tilt right a b = b ≡ suc a

abbrev pub IsAvl : Tree → Type 0
IsAvl leaf = Unit
IsAvl (node l x b r) = IsAvl l × IsAvl r × Tilt b (height l) (height r)

-- The way to a subtree that had height `k` when all was balanced.
abbrev WayAvl : Way → ℕ → Type 0
WayAvl [] k = Unit
WayAvl (from_left x b r ∷ way) k =
    IsAvl r × Tilt b k (height r) × WayAvl way (suc (max k (height r)))
WayAvl (from_right l x b ∷ way) k =
    IsAvl l × Tilt b (height l) k × WayAvl way (suc (max (height l) k))

-- The right child has become one higher, or the left one lower, than `v_bal` says.
abbrev LeansRight : Bal → ℕ → ℕ → Type 0
LeansRight left a b = b ≡ a
LeansRight even a b = b ≡ suc a
LeansRight right a b = b ≡ suc (suc a)

abbrev LeansLeft : Bal → ℕ → ℕ → Type 0
LeansLeft right a b = a ≡ b
LeansLeft even a b = a ≡ suc b
LeansLeft left a b = a ≡ suc (suc b)

-- The height behind the rotation, from that of the heavy child.
abbrev after_right : Bal → Bal → ℕ → ℕ
after_right right even h = h
after_right b c h = suc h

abbrev after_left : Bal → Bal → ℕ → ℕ
after_left left even h = h
after_left b c h = suc h

abbrev Fixed : (Bal → Bal → ℕ → ℕ) → Bal → ℕ → Tree → Type 0
Fixed f b h t = IsAvl t × (height t ≡ f b (top_bal t) h)

right_heavy-Fixed :
    (l : Tree) (x : Var) (b : Bal) (r : Tree)
    → IsAvl l
    → IsAvl r
    → LeansRight b (height l) (height r)
    → Fixed after_right b (height r) (right_heavy l x b r)
unfolding right_heavy
right_heavy-Fixed l x left r p q h = ((p, q, omega arith), omega arith)
right_heavy-Fixed l x even r p q h = ((p, q, omega arith), omega arith)
right_heavy-Fixed l x right leaf p q h = absurd (omega arith)
right_heavy-Fixed l x right (node m y right r) p q h =
    (((p, q.0, omega arith), q.1, omega arith), omega arith)
right_heavy-Fixed l x right (node m y even r) p q h =
    (((p, q.0, omega arith), q.1, omega arith), omega arith)
right_heavy-Fixed l x right (node leaf y left r) p q h = absurd (omega arith)
right_heavy-Fixed l x right (node (node a z left b) y left r) p q h =
    (((p, q.0.0, omega arith), (q.0.1, q.1, omega arith), omega arith), omega arith)
right_heavy-Fixed l x right (node (node a z even b) y left r) p q h =
    (((p, q.0.0, omega arith), (q.0.1, q.1, omega arith), omega arith), omega arith)
right_heavy-Fixed l x right (node (node a z right b) y left r) p q h =
    (((p, q.0.0, omega arith), (q.0.1, q.1, omega arith), omega arith), omega arith)

left_heavy-Fixed :
    (l : Tree) (x : Var) (b : Bal) (r : Tree)
    → IsAvl l
    → IsAvl r
    → LeansLeft b (height l) (height r)
    → Fixed after_left b (height l) (left_heavy l x b r)
unfolding left_heavy
left_heavy-Fixed l x right r p q h = ((p, q, omega arith), omega arith)
left_heavy-Fixed l x even r p q h = ((p, q, omega arith), omega arith)
left_heavy-Fixed leaf x left r p q h = absurd (omega arith)
left_heavy-Fixed (node l y left m) x left r p q h =
    ((p.0, (p.1, q, omega arith), omega arith), omega arith)
left_heavy-Fixed (node l y even m) x left r p q h =
    ((p.0, (p.1, q, omega arith), omega arith), omega arith)
left_heavy-Fixed (node l y right leaf) x left r p q h = absurd (omega arith)
left_heavy-Fixed (node l y right (node a z left b)) x left r p q h =
    (((p.0, p.1.0, omega arith), (p.1.1, q, omega arith), omega arith), omega arith)
left_heavy-Fixed (node l y right (node a z even b)) x left r p q h =
    (((p.0, p.1.0, omega arith), (p.1.1, q, omega arith), omega arith), omega arith)
left_heavy-Fixed (node l y right (node a z right b)) x left r p q h =
    (((p.0, p.1.0, omega arith), (p.1.1, q, omega arith), omega arith), omega arith)

pub plug-IsAvl : (t : Tree) (way : Way) → IsAvl t → WayAvl way (height t) → IsAvl (plug t way)
unfolding plug
plug-IsAvl t [] p w = p
plug-IsAvl t (from_left x b r ∷ way) p w = plug-IsAvl (node t x b r) way (p, w.0, w.1) w.2
plug-IsAvl t (from_right l x b ∷ way) p w = plug-IsAvl (node l x b t) way (w.0, p, w.1) w.2

-- A child grew by one on an insert, or shrank by one on a delete.
abbrev Moved : Bool → ℕ → ℕ → Type 0
Moved false k h = h ≡ suc k
Moved true k h = suc h ≡ k

abbrev old_height : Frame → ℕ → ℕ
old_height (from_left x b r) k = suc (max k (height r))
old_height (from_right l x b) k = suc (max (height l) k)

abbrev RestAvl : Frame → Way → ℕ → Type 0
RestAvl fr way k = WayAvl way (old_height fr k)

-- One round: the loop stops where the height is what it was, and goes on where it moved too.
abbrev Round : Bool → ℕ → Tree → Type 0
Round d k p = IsAvl p × (if done_at d p then height p ≡ k else Moved d k (height p))

-- A rotation after an insert restores the height, unless the node is left uneven.
inserted :
    (b c : Bal) (t : Tree) (h k : ℕ)
    → height t ≡ after_right b c h
    → top_bal t ≡ c
    → b ≡ right
    → h ≡ k
    → if done_at false t then height t ≡ k else Moved false k (height t)
inserted right left t h k e f g l = rw f (omega arith)
inserted right even t h k e f g l = rw f (omega arith)
inserted right right t h k e f g l = rw f (omega arith)
inserted left c t h k e f g l = cc
inserted even c t h k e f g l = cc

-- After a delete it lowers the height, unless the node is left uneven.
deleted :
    (c : Bal) (t : Tree) (h k : ℕ)
    → height t ≡ after_right right c h
    → top_bal t ≡ c
    → suc h ≡ k
    → if done_at true t then height t ≡ k else Moved true k (height t)
deleted left t h k e f l = rw f (omega arith)
deleted even t h k e f l = rw f (omega arith)
deleted right t h k e f l = rw f (omega arith)

mirror : (c : Bal) (h : ℕ) → after_left left c h ≡ after_right right c h
mirror left h = refl
mirror even h = refl
mirror right h = refl

rebalance-Round :
    (d : Bool) (c : Tree) (fr : Frame) (way : Way) (k : ℕ)
    → IsAvl c
    → Moved d k (height c)
    → WayAvl (fr ∷ way) k
    → Round d (old_height fr k) (rebalance d c fr)
rebalance-Round true c (from_left x left r) way k p h w =
    unfold rebalance right_heavy in ((p, w.0, omega arith), omega arith)
rebalance-Round true c (from_left x even r) way k p h w =
    unfold rebalance right_heavy in ((p, w.0, omega arith), omega arith)
rebalance-Round true c (from_left x right r) way k p h w =
    let f = right_heavy-Fixed c x right r p w.0 (omega arith) in
    unfold rebalance in
    (f.0, deleted _ (right_heavy c x right r) (height r) _ f.1 refl (omega arith))
rebalance-Round true c (from_right l x right) way k p h w =
    unfold rebalance left_heavy in ((w.0, p, omega arith), omega arith)
rebalance-Round true c (from_right l x even) way k p h w =
    unfold rebalance left_heavy in ((w.0, p, omega arith), omega arith)
rebalance-Round true c (from_right l x left) way k p h w =
    let f = left_heavy-Fixed l x left c w.0 p (omega arith) in
    unfold rebalance in
    (
      f.0,
      deleted _ (left_heavy l x left c) (height l) _ (f.1 ∙ mirror _ (height l)) refl (omega arith),
    )
rebalance-Round false c (from_left x right r) way k p h w =
    unfold rebalance left_heavy in ((p, w.0, omega arith), omega arith)
rebalance-Round false c (from_left x even r) way k p h w =
    unfold rebalance left_heavy in ((p, w.0, omega arith), omega arith)
rebalance-Round false c (from_left x left r) way k p h w =
    let f = left_heavy-Fixed c x left r p w.0 (omega arith) in
    unfold rebalance in
    (
      f.0,
      inserted right _ (left_heavy c x left r) (height c) _ (f.1 ∙ mirror _ (height c)) refl refl
          (omega arith),
    )
rebalance-Round false c (from_right l x left) way k p h w =
    unfold rebalance right_heavy in ((w.0, p, omega arith), omega arith)
rebalance-Round false c (from_right l x even) way k p h w =
    unfold rebalance right_heavy in ((w.0, p, omega arith), omega arith)
rebalance-Round false c (from_right l x right) way k p h w =
    let f = right_heavy-Fixed l x right c w.0 p (omega arith) in
    unfold rebalance in
    (f.0, inserted right _ (right_heavy l x right c) (height c) _ f.1 refl refl (omega arith))

way_above : (fr : Frame) (way : Way) (k : ℕ) → WayAvl (fr ∷ way) k → WayAvl way (old_height fr k)
way_above (from_left x b r) way k w = w.2
way_above (from_right l x b) way k w = w.2

-- From a child whose height moved by one, the loop leaves a balanced tree.
pub balance-IsAvl :
    (d : Bool) (c : Tree) (way : Way) (k : ℕ)
    → IsAvl c
    → Moved d k (height c)
    → WayAvl way k
    → IsAvl (balance d c way)
unfolding balance
balance-IsAvl d c [] k p h w = p
balance-IsAvl d c (fr ∷ way) k p h w =
    let (q, moved) = rebalance-Round d c fr way k p h w in
    let above = way_above fr way k w in
    elim (Bool-cases (done_at d (rebalance d c fr))) [
      | inl stop ↦ rw stop (plug-IsAvl (rebalance d c fr) way q (rw (rw stop at moved) above))
      | inr on ↦
          rw on (balance-IsAvl d (rebalance d c fr) way (old_height fr k) q (rw on at moved) above)
    ]
