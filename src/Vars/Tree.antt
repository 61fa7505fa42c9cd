-- ===== src/Vars/Tree.antt =====
-- sh.h: `struct varent`. sh.set.c: `balance` and its rotations.
-- A tree hangs off its header's left link. The way from a node up to the header, which the source
-- follows by `v_parent`, is a list of frames, the nearest parent first.
use mcsh.Base.{ℕ, Bool, true, false, not, List, [], ◌∷◌, Str, if◌then◌else◌}

pub record Var : Type 0 where
  pub name : Str
  pub vec : List Str
  pub flags : ℕ

-- `v_bal`: -1, 0 and 1.
pub data Bal : Type 0 where
  left even right : Bal

pub data Tree : Type 0 where
  leaf : Tree
  node : Tree → Var → Bal → Tree → Tree

-- A parent without the child that the way comes from.
pub data Frame : Type 0 where
  from_left : Var → Bal → Tree → Frame
  from_right : Tree → Var → Bal → Frame

abbrev pub Way : Type 0
Way = List Frame

-- The rotations `rleft` and `rright`. The source would follow a null pointer where a child that is
-- to come up is missing; here the tree stays.
abbrev pub rleft : Tree → Tree
rleft (node l x b (node m y c r)) = node (node l x b m) y c r
rleft t = t

abbrev pub rright : Tree → Tree
rright (node (node l x b m) y c r) = node l x b (node m y c r)
rright t = t

-- `v_bal` of the left child, of the node and of the right child are set.
abbrev pub set_bals : Bal → Bal → Bal → Tree → Tree
set_bals a b c (node (node l x _ m) y _ (node n z _ r)) = node (node l x a m) y b (node n z c r)
set_bals a b c t = t

abbrev pub set_left_bals : Bal → Bal → Tree → Tree
set_left_bals a b (node (node l x _ m) y _ r) = node (node l x a m) y b r
set_left_bals a b t = t

abbrev pub set_right_bals : Bal → Bal → Tree → Tree
set_right_bals b c (node l y _ (node n z _ r)) = node l y b (node n z c r)
set_right_bals b c t = t

-- `p->v_bal < 1 ? 0 : -1` and `p->v_bal > -1 ? 0 : 1`
abbrev pub left_of : Bal → Bal
left_of right = left
left_of b = even

abbrev pub right_of : Bal → Bal
right_of left = right
right_of b = even

abbrev pub top_bal : Tree → Bal
top_bal leaf = even
top_bal (node l x b r) = b

-- The branch "right heavy" for a node that was already right heavy.
abbrev rotate_right_heavy : Tree → Var → Tree → Tree
rotate_right_heavy l x leaf = node l x right leaf
rotate_right_heavy l x (node m y right r) =
    set_left_bals even even (rleft (node l x right (node m y right r)))
rotate_right_heavy l x (node m y even r) =
    set_left_bals right left (rleft (node l x right (node m y even r)))
rotate_right_heavy l x (node leaf y left r) = node l x right (node leaf y left r)
rotate_right_heavy l x (node (node a z c m) y left r) =
    let p = rleft (node l x right (rright (node (node a z c m) y left r))) in
    set_bals (left_of (top_bal p)) even (right_of (top_bal p)) p

unfoldable pub right_heavy : Tree → Var → Bal → Tree → Tree
right_heavy l x left r = node l x even r
right_heavy l x even r = node l x right r
right_heavy l x right r = rotate_right_heavy l x r

-- The branch "left heavy".
abbrev rotate_left_heavy : Tree → Var → Tree → Tree
rotate_left_heavy leaf x r = node leaf x left r
rotate_left_heavy (node l y left m) x r =
    set_right_bals even even (rright (node (node l y left m) x left r))
rotate_left_heavy (node l y even m) x r =
    set_right_bals right left (rright (node (node l y even m) x left r))
rotate_left_heavy (node l y right leaf) x r = node (node l y right leaf) x left r
rotate_left_heavy (node l y right (node m z c a)) x r =
    let p = rright (node (rleft (node l y right (node m z c a))) x left r) in
    set_bals (left_of (top_bal p)) even (right_of (top_bal p)) p

unfoldable pub left_heavy : Tree → Var → Bal → Tree → Tree
left_heavy l x right r = node l x even r
left_heavy l x even r = node l x left r
left_heavy l x left r = rotate_left_heavy l x r

-- A subtree put back under its parents.
unfoldable pub plug : Tree → Way → Tree
plug t [] = t
plug t (from_left x b r ∷ way) = plug (node t x b r) way
plug t (from_right l x b ∷ way) = plug (node l x b t) way

abbrev pub is_even : Bal → Bool
is_even even = true
is_even b = false

-- One round at `p`: `f` tells from which child we come, `d` a delete from an insert.
unfoldable pub rebalance : Bool → Tree → Frame → Tree
unfolding right_heavy left_heavy
rebalance d c (from_left x b r) = if d then right_heavy c x b r else left_heavy c x b r
rebalance d c (from_right l x b) = if d then left_heavy l x b c else right_heavy l x b c

-- `(p->v_bal == 0) ^ d`
abbrev pub done_at : Bool → Tree → Bool
done_at d p = if d then not (is_even (top_bal p)) else is_even (top_bal p)

-- `balance`, from a child that has changed up to the header.
unfoldable pub balance : Bool → Tree → Way → Tree
unfolding plug rebalance
balance d c [] = c
balance d c (fr ∷ way) =
    let up = balance d (rebalance d c fr) way in
    if done_at d (rebalance d c fr) then plug (rebalance d c fr) way else up
