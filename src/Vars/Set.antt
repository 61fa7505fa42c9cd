-- ===== src/Vars/Set.antt =====
-- sh.set.c: `set1`, which expands the words of a value, takes repeated words out for `set -f` and
-- `set -l`, and sets the variable.
use mcsh.Base.{
  ℕ, ◌-◌, ◌/◌, ◌%◌, Bool, true, false, ◌&&◌, ◌||◌, Option, none, some, List, [], ◌∷◌, ◌++◌, map,
  Str, ◌==◌, eq, if◌then◌else◌,
}
use mcsh.Vars.Tree.{Tree}
use mcsh.Vars.Table.{Fault, Result, ok, err, adrof1, setq}
pub mod Unique
pub mod Stored

-- A slot of `vec` whose word was freed is none.
abbrev pub Slots : Type 0
Slots = List (Option Str)

abbrev pub holds : Str → Option Str → Bool
holds x none = false
holds x (some y) = eq y x

abbrev pub found : Str → Slots → Bool
found x [] = false
found x (s ∷ ss) = holds x s || found x ss

-- The words in front of this one are done.
unfoldable pub delete_later : Slots → List Str → Slots
delete_later done [] = done
delete_later done (x ∷ xs) =
    delete_later (done ++ ((if found x done then none else some x) ∷ [])) xs

unfoldable pub delete_earlier : List Str → Slots
delete_earlier [] = []
delete_earlier (x ∷ xs) = (if found x (map some xs) then none else some x) ∷ delete_earlier xs

unfoldable pub compress : Slots → List Str
compress [] = []
compress (none ∷ ss) = compress ss
compress (some x ∷ ss) = x ∷ compress ss

-- The bits VAR_READONLY, VAR_NOGLOB, VAR_RWONLY, VAR_FIRST and VAR_LAST of the flags are 1, 4, 8, 32
-- and 64.
abbrev pub bit : ℕ → ℕ → Bool
bit b flags = flags / b % 2 == 1

abbrev pub clear_bit : ℕ → ℕ → ℕ
clear_bit b flags = if bit b flags then flags - b else flags

unfoldable pub unique : ℕ → List Str → List Str
unfolding delete_later delete_earlier compress
unique flags [] = []
unique flags (x ∷ []) = x ∷ []
unique flags (x ∷ y ∷ vec) =
    if bit 32 flags
    then compress (delete_later [] (x ∷ y ∷ vec))
    else if bit 64 flags
    then compress (delete_earlier (x ∷ y ∷ vec))
    else x ∷ y ∷ vec

pub data SetFault : Type 0 where
  readwrite : Str → SetFault
  no_match : SetFault
  fault : Fault → SetFault

pub data Set1 : Type 0 where
  was_set : Tree → Set1
  refused : SetFault → Set1

abbrev pub lift_setq : Result Tree → Set1
lift_setq (ok t) = was_set t
lift_setq (err f) = refused (fault f)

abbrev pub is_rwonly : Str → Tree → Bool
is_rwonly var shvhed = elim (adrof1 var shvhed) [ none ↦ false | some x ↦ bit 8 x.flags ]

-- `expand` is `tglob` and `globall`: none where no file name matches.
abbrev pub expanded : (List Str → Option (List Str)) → ℕ → List Str → Option (List Str)
expanded expand flags vec = if bit 4 flags then some vec else expand vec

unfoldable pub set1 : (List Str → Option (List Str)) → Tree → Str → List Str → Tree → ℕ → Set1
unfolding unique setq adrof1
set1 expand shvhed var vec head flags =
    if bit 1 flags && is_rwonly var shvhed
    then refused (readwrite var)
    else elim (expanded expand flags vec) [
      | none ↦ refused no_match
      | some words ↦
          if bit 32 flags || bit 64 flags
          then lift_setq (setq var (unique flags words) head (clear_bit 64 (clear_bit 32 flags)))
          else lift_setq (setq var words head flags)
    ]
