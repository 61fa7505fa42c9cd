-- ===== src/Tests/Commands.antt =====
-- The theorems on the history list at concrete inputs.
use mcsh.Base.{
  ◌==◌, if◌then◌else◌, ◌+◌, ◌/◌, true, none, some, [], ◌∷◌, codes, length, map, ◌≡◌, refl, arith,
}
use mcsh.Hist.{History, prune_front, prune_back, is_excess, hremove, time_at, discard_excess}
use mcsh.Hist.Enter.{dup_erase, dup_all, dup_keep, later, merge_point, start_of, savehist}
use mcsh.Hist.Numbered.{Numbered, IsNumbered, savehist-IsNumbered}
use mcsh.Hist.Distinct.{Distinct, savehist-Distinct}
use mcsh.Hist.Hash.{
  empty, deleted, used, HashTable, put, insert_hash, find_hash, is_same, find_hash-insert_hash,
}
use mcsh.Hist.Excess.{Pruned, discard_excess-Pruned}
use mcsh.Hist.Merge.{Timed, merge_point-later}
use mcsh.Hist.Merge.Timed.{savehist-Timed}

-- Four commands, two of one time, with a time from a file in `Htime`.
abbrev commands : History
commands = record {
  entries =
      record { lex = codes "make" ∷ []; hnum = 9; href = 9; htime = 30 }
      ∷ record { lex = codes "ls" ∷ []; hnum = 7; href = 7; htime = 20 }
      ∷ record { lex = codes "cd" ∷ []; hnum = 6; href = 6; htime = 20 }
      ∷ record { lex = codes "vi" ∷ []; hnum = 2; href = 2; htime = 10 }
      ∷ [];
  eventno = 9;
  stamp = 20;
  merged = some 3;
}

commands-IsNumbered : IsNumbered commands
unfolding Numbered
commands-IsNumbered = (omega arith, (omega arith, (omega arith, (omega arith, tt))))

commands-Timed : Timed commands.entries
unfolding Timed time_at
commands-Timed = (omega arith, (omega arith, (omega arith, (omega arith, tt))))

-- A merged command gets the number 6, and the later ones the numbers up to 10.
merged_numbers :
    map (λ e. e.hnum) (savehist 50 dup_keep none 8 (some (codes "pwd" ∷ [])) true commands).entries
    ≡ 10 ∷ 9 ∷ 7 ∷ 6 ∷ 2 ∷ []
unfolding savehist prune_back prune_front start_of
merged_numbers = refl

-- A command that is there at its time is not entered again.
merged_twice : (savehist 50 dup_keep none 8 (some (codes "cd" ∷ [])) true commands).eventno ≡ 9
unfolding savehist prune_back prune_front start_of
merged_twice = refl

-- The limit is 3: two entries are too old, and one is enough.
three_are_left : length (discard_excess 3 commands).entries ≡ 3
unfolding discard_excess prune_back prune_front is_excess hremove
three_are_left = refl

savehist-IsNumbered_example :
    IsNumbered (savehist 50 dup_all (some 2) 3 (some (codes "cd" ∷ [])) true commands)
savehist-IsNumbered_example =
    savehist-IsNumbered 50 dup_all (some 2) 3 (some (codes "cd" ∷ [])) true commands
      commands-IsNumbered

savehist-Timed_example :
    Timed (savehist 50 dup_erase (some 2) 8 (some (codes "cd" ∷ [])) true commands).entries
savehist-Timed_example =
    savehist-Timed 50 dup_erase (some 2) 8 (some (codes "cd" ∷ [])) commands refl commands-Timed

discard_excess-Pruned_example : Pruned (3 + 3 / 16) 3 (discard_excess 3 commands)
discard_excess-Pruned_example = discard_excess-Pruned 3 commands (omega arith)

merge_point-later_example : merge_point 20 (some 4) commands ≡ later 20 commands.entries
merge_point-later_example = merge_point-later 20 (some 4) commands commands-Timed

commands-Distinct : Distinct commands.entries
commands-Distinct = (refl, (refl, (refl, (refl, tt))))

savehist-Distinct_example :
    Distinct (savehist 50 dup_erase (some 2) 8 (some (codes "cd" ∷ [])) true commands).entries
savehist-Distinct_example =
    savehist-Distinct 50 dup_erase (some 2) 8 (codes "cd" ∷ []) true commands refl refl
      commands-Distinct

-- A table of 32 places: 5 and 6 are taken, the latter by an entry that was deleted.
abbrev table : HashTable
table = record {
  slots = λ i. if i == 5 then used 5 1 else if i == 6 then deleted else empty;
  size = 32;
}

-- Entry 2 with the hash 37 goes to place 6, which `(hash + 1) % 32` leads to.
abbrev table_2 : HashTable
table_2 = put (37 + 1) (used 37 2) table

table_2-inserted : insert_hash 2 37 table ≡ some table_2
unfolding insert_hash
table_2-inserted = refl

find_hash-insert_hash_example : is_same (λ i. i == 2) (find_hash (λ i. i == 2) 37 table_2) ≡ true
find_hash-insert_hash_example =
    find_hash-insert_hash (λ i. i == 2) 2 37 table table_2 (omega arith) refl table_2-inserted
