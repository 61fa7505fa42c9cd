-- ===== src/Keys/Added.antt =====
-- ed.xmap.c: the bindings of all keys after `AddXkey`.
use mcsh.Base.{
  ℕ, Bool, true, false, ◌&&◌, ◌||◌, not, [], ◌∷◌, ◌==◌, if◌then◌else◌, Str, eq, Option, none, some,
  ◌≡◌, refl, arith,
}
use mcsh.Keys.{Binding, Xmap, null, node, is_null, is_lead_in, new_nodes, try_node, add_xkey}
use mcsh.Keys.Lookup.{lookup}

abbrev pub is_prefix : Str → Str → Bool
is_prefix [] ys = true
is_prefix (x ∷ xs) [] = false
is_prefix (x ∷ xs) (y ∷ ys) = x == y && is_prefix xs ys

-- What a key that starts like the new one has then: the new binding if it is that key, none if it is
-- longer or a part of it, and else what it had.
abbrev pub beside_new : Str → Str → Binding → Option Binding → Option Binding
beside_new cs ks v old =
    if eq cs ks then some v else if is_prefix cs ks || is_prefix ks cs then none else old

pub new_nodes-is_null : (c : ℕ) (cs : Str) (v : Binding) → is_null (new_nodes c cs v) ≡ false
unfolding new_nodes
new_nodes-is_null c [] v = refl
new_nodes-is_null c (d ∷ ds) v = refl

pub try_node-is_null :
    (t : Xmap) (c : ℕ) (cs : Str) (v : Binding) → is_null (try_node t c cs v) ≡ false
unfolding try_node
try_node-is_null null c cs v = new_nodes-is_null c cs v
try_node-is_null (node ch b next sibling) c [] v = ground arith
try_node-is_null (node ch b next sibling) c (d ∷ ds) v = ground arith

lookup-new_nodes :
    (cs : Str) (c k : ℕ) (ks : Str) (v : Binding)
    → lookup (new_nodes c cs v) k ks ≡ (if c == k && eq cs ks then some v else none)
unfolding lookup new_nodes
lookup-new_nodes [] c k [] v = ground arith
lookup-new_nodes [] c k (l ∷ ls) v = ground arith
lookup-new_nodes (d ∷ ds) c k [] v = ground (arith, new_nodes-is_null d ds v)
lookup-new_nodes (d ∷ ds) c k (l ∷ ls) v = ground (arith, lookup-new_nodes ds d l ls v)

lookup-try_node :
    (t : Xmap) (c : ℕ) (cs : Str) (k : ℕ) (ks : Str) (v : Binding)
    → lookup (try_node t c cs v) k ks
      ≡ (if c == k then beside_new cs ks v (lookup t k ks) else lookup t k ks)
unfolding lookup try_node
lookup-try_node null c cs k ks v = ground (arith, lookup-new_nodes cs c k ks v)
lookup-try_node (node ch b next sibling) c [] k [] v =
    ground (arith, lookup-try_node sibling c [] k [] v)
lookup-try_node (node ch b next sibling) c [] k (l ∷ ls) v =
    ground (arith, lookup-try_node sibling c [] k (l ∷ ls) v)
lookup-try_node (node ch b next sibling) c (d ∷ ds) k [] v =
    ground (arith, lookup-try_node sibling c (d ∷ ds) k [] v, try_node-is_null next d ds v)
lookup-try_node (node ch b next sibling) c (d ∷ ds) k (l ∷ ls) v =
    ground
      (arith, lookup-try_node sibling c (d ∷ ds) k (l ∷ ls) v, lookup-try_node next d ds l ls v)

-- A refused binding changes nothing. Any other is the binding of its key from then on; keys that are
-- a part of it, or that it is a part of, have none, and all others have what they had.
pub lookup-add_xkey :
    (t : Xmap) (c : ℕ) (cs : Str) (k : ℕ) (ks : Str) (v : Binding)
    → lookup (add_xkey (c ∷ cs) v t) k ks
      ≡ (if is_lead_in v || not (c == k) then lookup t k ks else beside_new cs ks v (lookup t k ks))
unfolding add_xkey
lookup-add_xkey t c cs k ks v = ground (arith, lookup-try_node t c cs k ks v)
