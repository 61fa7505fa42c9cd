-- ===== src/Tests/KeyMap.antt =====
-- The theorems on the tree of extended keys at concrete inputs.
use mcsh.Base.{
  ◌==◌, ◌++◌, ◌&&◌, ◌||◌, if◌then◌else◌, none, some, [], Str, codes, ◌≡◌, ◌≢◌, refl, not,
}
use mcsh.Keys.{
  nod, cmd, str, exe, Xmap, null, is_lead_in, add_xkey, delete_xkey, found, mismatch, send_eof,
  get_xkey,
}
use mcsh.Keys.Lookup.{lookup, FoundBy, get_xkey-lookup, get_xkey-FoundBy}
use mcsh.Keys.Added.{is_prefix, beside_new, lookup-add_xkey}
use mcsh.Keys.Deleted.{lookup-delete_xkey}
use mcsh.Keys.Bound.{Made, empty, added, deleted, Made-IsWell, get_xkey-ne-nod}

-- Three keys: "ab" for a text, "ac" for a command of the editor, "b" for a command of the shell.
abbrev ab : Str
ab = codes "ab"

abbrev ac : Str
ac = codes "ac"

abbrev b' : Str
b' = codes "b"

abbrev three_keys : Xmap
three_keys =
    add_xkey b' (exe (codes "ls")) (add_xkey ac (cmd 7) (add_xkey ab (str (codes "x")) null))

three_keys-Made : Made three_keys
three_keys-Made =
    added (added (added empty ab (str (codes "x")) refl) ac (cmd 7) refl) b' (exe (codes "ls")) refl

ac_found : get_xkey 97 (codes "cz") three_keys ≡ found (cmd 7) (codes "z")
unfolding get_xkey add_xkey
ac_found = refl

ac_is_ended : get_xkey 97 [] three_keys ≡ send_eof
unfolding get_xkey add_xkey
ac_is_ended = refl

d_is_unbound : get_xkey 100 [] three_keys ≡ mismatch
unfolding get_xkey add_xkey
d_is_unbound = refl

ac_is_bound : lookup three_keys 97 (codes "c") ≡ some (cmd 7)
unfolding lookup add_xkey
ac_is_bound = refl

-- A longer key takes the binding of a shorter one away.
longer_key : lookup (add_xkey (codes "bc") (cmd 9) three_keys) 98 [] ≡ none
unfolding lookup add_xkey
longer_key = refl

-- Deleting the longer key frees the node of the shorter one too.
shorter_key :
    get_xkey 98 [] (delete_xkey (codes "bc") (add_xkey (codes "bc") (cmd 9) three_keys)) ≡ mismatch
unfolding get_xkey add_xkey delete_xkey
shorter_key = refl

get_xkey-lookup_example :
    get_xkey 97 (codes "c" ++ codes "z") three_keys ≡ found (cmd 7) (codes "z")
get_xkey-lookup_example = get_xkey-lookup 97 (codes "c") (codes "z") three_keys (cmd 7) ac_is_bound

get_xkey-FoundBy_example : FoundBy three_keys 97 (codes "cz") (cmd 7) (codes "z")
get_xkey-FoundBy_example = get_xkey-FoundBy three_keys 97 (codes "cz") (cmd 7) (codes "z") ac_found

lookup-add_xkey_example : lookup (add_xkey (codes "ad") (cmd 8) three_keys) 97 (codes "c") ≡ (
    if is_lead_in (cmd 8) || not (97 == 97)
    then lookup three_keys 97 (codes "c")
    else beside_new (codes "d") (codes "c") (cmd 8) (lookup three_keys 97 (codes "c")))
lookup-add_xkey_example = lookup-add_xkey three_keys 97 (codes "d") 97 (codes "c") (cmd 8)

lookup-delete_xkey_example : lookup (delete_xkey ab three_keys) 97 (codes "c") ≡ (
    if 97 == 97 && is_prefix (codes "b") (codes "c")
    then none
    else lookup three_keys 97 (codes "c"))
lookup-delete_xkey_example =
    lookup-delete_xkey three_keys 97 (codes "b") 97 (codes "c") (Made-IsWell three_keys-Made)

get_xkey-ne-nod_example :
    get_xkey 97 (codes "cz") (delete_xkey ab three_keys) ≢ found nod (codes "z")
get_xkey-ne-nod_example = get_xkey-ne-nod (deleted three_keys-Made ab) 97 (codes "cz") (codes "z")
