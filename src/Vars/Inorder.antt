-- ===== src/Vars/Inorder.antt =====
-- sh.set.c: the variables of a tree in order, under `balance` and `unsetv1`.
use mcsh.Base.{
  Bool, true, false, List, [], ◌∷◌, ◌++◌, ◌≡◌, refl, sym, ◌∙◌, append_assoc, append-nil, Bool-cases,
  inl, inr,
}
use mcsh.Vars.Tree.{
  Var, Bal, left, even, right, Tree, leaf, node, Frame, from_left, from_right, Way, plug, balance,
  right_heavy, left_heavy, rebalance, done_at,
}
use mcsh.Vars.Table.{rightmost, replace_by, unsetv1}

unfoldable pub to_list : Tree → List Var
to_list leaf = []
to_list (node l x b r) = to_list l ++ x ∷ to_list r

-- The variables in front of and behind the subtree that a way leads to.
unfoldable pub before : Way → List Var
before [] = []
before (from_left x b r ∷ way) = before way
before (from_right l x b ∷ way) = before way ++ (to_list l ++ x ∷ [])

unfoldable pub after : Way → List Var
after [] = []
after (from_left x b r ∷ way) = x ∷ (to_list r ++ after way)
after (from_right l x b ∷ way) = after way

pub to_list-plug :
    (t : Tree) (way : Way) → to_list (plug t way) ≡ before way ++ (to_list t ++ after way)
unfolding plug before after
to_list-plug t [] = sym (append-nil (to_list t))
to_list-plug t (from_left x b r ∷ way) =
    to_list-plug (node t x b r) way ∙ unfold to_list in simp append_assoc
to_list-plug t (from_right l x b ∷ way) =
    to_list-plug (node l x b t) way ∙ unfold to_list in simp append_assoc

to_list-right_heavy :
    (l : Tree) (x : Var) (b : Bal) (r : Tree)
    → to_list (right_heavy l x b r) ≡ to_list l ++ x ∷ to_list r
unfolding right_heavy to_list
to_list-right_heavy l x left r = refl
to_list-right_heavy l x even r = refl
to_list-right_heavy l x right leaf = refl
to_list-right_heavy l x right (node m y right r) = simp append_assoc
to_list-right_heavy l x right (node m y even r) = simp append_assoc
to_list-right_heavy l x right (node leaf y left r) = refl
to_list-right_heavy l x right (node (node a z c b) y left r) = simp append_assoc

to_list-left_heavy :
    (l : Tree) (x : Var) (b : Bal) (r : Tree)
    → to_list (left_heavy l x b r) ≡ to_list l ++ x ∷ to_list r
unfolding left_heavy to_list
to_list-left_heavy l x right r = refl
to_list-left_heavy l x even r = refl
to_list-left_heavy leaf x left r = refl
to_list-left_heavy (node l y left m) x left r = simp append_assoc
to_list-left_heavy (node l y even m) x left r = simp append_assoc
to_list-left_heavy (node l y right leaf) x left r = refl
to_list-left_heavy (node l y right (node a z c b)) x left r = simp append_assoc

to_list-rebalance :
    (d : Bool) (c : Tree) (fr : Frame) → to_list (rebalance d c fr) ≡ to_list (plug c (fr ∷ []))
unfolding rebalance plug
to_list-rebalance true c (from_left x b r) = to_list-right_heavy c x b r ∙ unfold to_list in refl
to_list-rebalance false c (from_left x b r) = to_list-left_heavy c x b r ∙ unfold to_list in refl
to_list-rebalance true c (from_right l x b) = to_list-left_heavy l x b c ∙ unfold to_list in refl
to_list-rebalance false c (from_right l x b) = to_list-right_heavy l x b c ∙ unfold to_list in refl

-- A subtree is put back over one frame at a time.
to_list-over :
    (t c : Tree) (fr : Frame) (way : Way)
    → to_list t ≡ to_list (plug c (fr ∷ []))
    → to_list (plug t way) ≡ to_list (plug c (fr ∷ way))
unfolding plug
to_list-over t c (from_left x b r) way e =
    to_list-plug t way ∙ rw e (sym (to_list-plug (node c x b r) way))
to_list-over t c (from_right l x b) way e =
    to_list-plug t way ∙ rw e (sym (to_list-plug (node l x b c) way))

-- `balance` keeps the variables and their order.
pub to_list-balance :
    (d : Bool) (c : Tree) (way : Way) → to_list (balance d c way) ≡ to_list (plug c way)
unfolding balance
to_list-balance d c [] = refl
to_list-balance d c (fr ∷ way) =
    let over = to_list-over (rebalance d c fr) c fr way (to_list-rebalance d c fr) in
    elim (Bool-cases (done_at d (rebalance d c fr))) [
      | inl stop ↦ rw stop over
      | inr on ↦ rw on (to_list-balance d (rebalance d c fr) way ∙ over)
    ]

before-append : (inner way : Way) → before (inner ++ way) ≡ before way ++ before inner
unfolding before
before-append [] way = sym (append-nil (before way))
before-append (from_left x b r ∷ inner) way = before-append inner way
before-append (from_right l x b ∷ inner) way = rw (before-append inner way) (simp append_assoc)

after-append : (inner way : Way) → after (inner ++ way) ≡ after inner ++ after way
unfolding after
after-append [] way = refl
after-append (from_left x b r ∷ inner) way = rw (after-append inner way) (simp append_assoc)
after-append (from_right l x b ∷ inner) way = after-append inner way

-- What `rightmost` leaves and what it takes off make up the tree.
to_list-rightmost :
    (l : Tree) (x : Var) (b : Bal) (r : Tree) (way : Way)
    → let (z, m, inner) = rightmost l x b r way in
      (before inner ++ (to_list m ++ z ∷ []) ≡ before way ++ (to_list l ++ x ∷ to_list r))
      × (after inner ≡ after way)
unfolding rightmost
to_list-rightmost l x b leaf way = (unfold to_list in refl, refl)
to_list-rightmost l x b (node m y c r) way =
    let (p, q) = to_list-rightmost m y c r (from_right l x b ∷ way) in
    (p ∙ unfold to_list before in simp append_assoc, q ∙ unfold after in refl)

to_list-replace_by :
    (q : Var × Tree × Way) (ls : List Var) (b : Bal) (r : Tree) (way : Way)
    → before q.2 ++ (to_list q.1 ++ q.0 ∷ []) ≡ ls
    → after q.2 ≡ []
    → to_list (replace_by q b r way) ≡ before way ++ (ls ++ (to_list r ++ after way))
to_list-replace_by (z, m, inner) ls b r way p q =
    to_list-balance true m (inner ++ from_left z b r ∷ way)
    ∙ to_list-plug m (inner ++ from_left z b r ∷ way)
    ∙ simp (before-append, after-append, q) (unfold before after in rw (← p) (simp append_assoc))

-- `unsetv1` takes its node's variable out, and no other.
pub to_list-unsetv1 :
    (l : Tree) (x : Var) (b : Bal) (r : Tree) (way : Way)
    → to_list (unsetv1 l x b r way) ≡ before way ++ (to_list l ++ (to_list r ++ after way))
unfolding unsetv1
to_list-unsetv1 l x b leaf way =
    to_list-balance true l way ∙ to_list-plug l way ∙ unfold to_list in refl
to_list-unsetv1 leaf x b (node m z c r) way =
    to_list-balance true (node m z c r) way
    ∙ to_list-plug (node m z c r) way
    ∙ unfold to_list in refl
to_list-unsetv1 (node k y a l) x b (node m z c r) way =
    let (p, q) = to_list-rightmost k y a l [] in
    to_list-replace_by (rightmost k y a l []) (to_list (node k y a l)) b (node m z c r) way
      (p ∙ unfold to_list before in refl) (q ∙ unfold after in refl)
