-- ===== src/Vars/Table.antt =====
-- tc.str.c: `Strcmp`. sh.glob.c: `trim`. sh.set.c: `adrof1`, `value1`, `setq`, `unsetv1`, `unsetv`,
-- `madrof` and `unset1`.
use Prim.Native.Nat.{compare, Ordering}
use mcsh.Base.{
  ℕ, zero, suc, ◌/◌, ◌%◌, ◌^◌, Bool, true, false, Option, none, some, List, [], ◌∷◌, ◌++◌, map, Str,
  char0, ◌==◌, if◌then◌else◌,
}
use mcsh.Vars.Tree.{Var, Bal, even, Tree, leaf, node, from_left, from_right, Way, plug, balance}

-- `s_strcmp`, on characters without the quote bit and without invalid bytes, which the source takes
-- for negative numbers: which of the texts comes first.
unfoldable pub s_strcmp : Str → Str → Ordering
s_strcmp [] [] = Ordering.eq
s_strcmp [] (y ∷ ys) = Ordering.lt
s_strcmp (x ∷ xs) [] = Ordering.gt
s_strcmp (x ∷ xs) (y ∷ ys) = elim (compare x y) [
  | Ordering.eq ↦ s_strcmp xs ys
  | Ordering.lt ↦ Ordering.lt
  | Ordering.gt ↦ Ordering.gt
]

-- `(cmp = *name - *v_name) != 0 || (cmp = Strcmp(name, v_name)) != 0`
unfoldable pub name_cmp : Str → Str → Ordering
name_cmp a b = elim (compare (char0 a) (char0 b)) [
  | Ordering.eq ↦ s_strcmp a b
  | Ordering.lt ↦ Ordering.lt
  | Ordering.gt ↦ Ordering.gt
]

unfoldable pub adrof1 : Str → Tree → Option Var
adrof1 name leaf = none
adrof1 name (node l x b r) = elim (name_cmp name x.name) [
  | Ordering.eq ↦ some x
  | Ordering.lt ↦ adrof1 name l
  | Ordering.gt ↦ adrof1 name r
]

abbrev first_word : List Str → Str
first_word [] = []
first_word (s ∷ vec) = s

unfoldable pub value1 : Str → Tree → Str
value1 var head = elim (adrof1 var head) [ none ↦ [] | some vp ↦ first_word vp.vec ]

-- What `stderror` is called with.
pub data Fault : Type 0 where
  readonly undefined : Str → Fault

pub data Result {ℓ} (A : Type ℓ) : Type ℓ where
  ok : A → Result A
  err : Fault → Result A

-- The bit VAR_READONLY.
abbrev pub is_readonly : Var → Bool
is_readonly x = x.flags % 2 == 1

-- Quote bits are taken off all characters but the bytes marked INVALID_BYTE.
unfoldable pub trim_char : ℕ → ℕ
trim_char c = if c / 2 ^ 28 % 16 == 15 then c else c % 2 ^ 31

unfoldable pub trim : List Str → List Str
trim = map (map trim_char)

-- Where the descent for a name ends: at no node, or at a node that has the name.
pub data Place : Type 0 where
  absent : Way → Place
  present : Tree → Var → Bal → Tree → Way → Place

unfoldable pub locate : Str → Tree → Way → Place
locate name leaf way = absent way
locate name (node l x b r) way = elim (name_cmp name x.name) [
  | Ordering.eq ↦ present l x b r way
  | Ordering.lt ↦ locate name l (from_left x b r ∷ way)
  | Ordering.gt ↦ locate name r (from_right l x b ∷ way)
]

abbrev pub new_var : Str → List Str → ℕ → Var
new_var name vec flags = record { name = name; vec = trim vec; flags = flags }

abbrev pub set_at : Str → List Str → ℕ → Place → Result Tree
set_at name vec flags (absent way) =
    ok (balance false (node leaf (new_var name vec flags) even leaf) way)
set_at name vec flags (present l x b r way) =
    if is_readonly x
    then err (readonly x.name)
    else ok (plug (node l (record x { vec = trim vec; flags = flags }) b r) way)

unfoldable pub setq : Str → List Str → Tree → ℕ → Result Tree
unfolding locate
setq name vec head flags = set_at name vec flags (locate name head [])

-- The rightmost node of a tree: its variable, its left child and the way up to it.
unfoldable pub rightmost : Tree → Var → Bal → Tree → Way → Var × Tree × Way
rightmost l x b leaf way = (x, l, way)
rightmost l x b (node m y c r) way = rightmost m y c r (from_right l x b ∷ way)

-- The node's predecessor moves into its place, and its left child into that of the predecessor.
abbrev pub replace_by : Var × Tree × Way → Bal → Tree → Way → Tree
replace_by (z, m, inner) b r way = balance true m (inner ++ from_left z b r ∷ way)

-- `unsetv1` of a node that is under `way`.
unfoldable pub unsetv1 : Tree → Var → Bal → Tree → Way → Tree
unfolding rightmost
unsetv1 l x b leaf way = balance true l way
unsetv1 leaf x b (node m z c r) way = balance true (node m z c r) way
unsetv1 (node k y a l) x b (node m z c r) way =
    replace_by (rightmost k y a l []) b (node m z c r) way

abbrev pub unset_place : Str → Place → Result Tree
unset_place var (absent way) = err (undefined var)
unset_place var (present l x b r way) = ok (unsetv1 l x b r way)

unfoldable pub unsetv : Str → Tree → Result Tree
unsetv var head = unset_place var (locate var head [])

-- `madrof`: the first node in order whose name matches. `gmatch` is Gmatch with the pattern.
abbrev pub or_place : Place → Place → Place
or_place (absent _) q = q
or_place (present l x b r way) q = present l x b r way

unfoldable pub madrof : (Str → Bool) → Tree → Way → Place
madrof gmatch leaf way = absent way
madrof gmatch (node l x b r) way =
    let right = madrof gmatch r (from_right l x b ∷ way) in
    or_place (madrof gmatch l (from_left x b r ∷ way))
      (if gmatch x.name then present l x b r way else right)

-- The loop of `unset1` for one pattern; each round takes one node off, so the number of nodes is
-- enough fuel. `none` means that it ran out.
unfoldable pub unset1 : ℕ → (Str → Bool) → Tree → Option (Result Tree)
unset1 zero gmatch head = none
unset1 (suc n) gmatch head = elim (madrof gmatch head []) [
  | absent way ↦ some (ok head)
  | present l x b r way ↦ elim (is_readonly x) [
    | true ↦ some (err (readonly x.name))
    | false ↦ unset1 n gmatch (unsetv1 l x b r way)
  ]
]
