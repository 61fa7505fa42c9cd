-- ===== src/Hist/Hash.antt =====
-- sh.hist.c: the hash table of the history list, with the insertion and the search of an entry.
use mcsh.Base.{
  ℕ, zero, suc, ◌+◌, ◌/◌, ◌%◌, ◌≤◌, Bool, true, false, ◌&&◌, ◌==◌, ltb, if◌then◌else◌, Option, none,
  some, ◌≡◌, refl, arith, Bool-cases, inl, inr, Option-cases, subst, ap, sym, ◌∙◌,
}

-- A place of `histHashTable`: `emptyHTE`, `deletedHTE`, or an entry by its `Hhash` and its number.
pub data Slot : Type 0 where
  empty deleted : Slot
  used : ℕ → ℕ → Slot

-- `histHashTable` with `histHashTableLength`, a power of two: `hash & (len - 1)` is the remainder.
pub record HashTable : Type 0 where
  pub slots : ℕ → Slot
  pub size : ℕ

abbrev pub slot_at : ℕ → HashTable → Slot
slot_at hi t = t.slots (hi % t.size)

abbrev pub is_free : Slot → Bool
is_free (used hash np) = false
is_free s = true

-- The number of rehashes up to a free place, at most a tenth of the length; none where the table grows.
unfoldable pub rehashes : ℕ → ℕ → ℕ → HashTable → Option ℕ
rehashes zero r hash t = none
rehashes (suc fuel) r hash t =
    let rest = rehashes fuel (suc r) hash t in
    if is_free (slot_at (hash + r) t) then some r else rest

abbrev pub put : ℕ → Slot → HashTable → HashTable
put hi s t = record t { slots = λ i. if i == hi % t.size then s else t.slots i }

-- `insertHistHashTable` for an entry that is not in the table; none where the table is made anew.
unfoldable pub insert_hash : ℕ → ℕ → HashTable → Option HashTable
unfolding rehashes
insert_hash np hash t = elim (rehashes (suc (t.size / 10)) 0 hash t) [
  | none ↦ none
  | some r ↦ some (put (hash + r) (used hash np) t)
]

-- What the search gives: an entry, a null pointer, or that the table is made anew before it goes on.
-- `endless` is a walk through the whole table that met no empty place.
pub data Search : Type 0 where
  hit : ℕ → Search
  no_entry rebuild endless : Search

-- `same` is `heq` on the words of an entry. A turn counts the deleted places before it tests them.
module _ (same : ℕ → Bool) where
  abbrev pub is_hit : ℕ → Slot → Bool
  is_hit hash (used h np) = h == hash && same np
  is_hit hash s = false

  abbrev pub entry_of : Slot → ℕ
  entry_of (used h np) = np
  entry_of s = 0

  abbrev pub is_empty : Slot → Bool
  is_empty empty = true
  is_empty s = false

  abbrev pub count_deleted : Slot → ℕ → ℕ
  count_deleted deleted n = suc n
  count_deleted s n = n

  -- A turn at a place, with the count of deleted ones and what the rest of the walk gives.
  abbrev pub turn : ℕ → ℕ → ℕ → Slot → Search → Search
  turn hash size n s rest =
      if is_empty s
      then no_entry
      else if is_hit hash s
      then hit (entry_of s)
      else if ltb (size / 16) n
      then rebuild
      else rest

  unfoldable pub search : ℕ → ℕ → ℕ → ℕ → HashTable → Search
  search zero n hi hash t = endless
  search (suc fuel) n hi hash t =
      let s = slot_at hi t in
      let n = count_deleted s n in turn hash t.size n s (search fuel n (suc hi) hash t)

  -- `findHistHashTable`
  unfoldable pub find_hash : ℕ → HashTable → Search
  unfolding search
  find_hash hash t = search t.size 0 hash hash t

  abbrev pub is_same : Search → Bool
  is_same (hit np) = same np
  is_same r = false

  turn-same :
      (hash size : ℕ) (s : Slot) (rest : ℕ → Search)
      → is_free s ≡ false
      → is_same (rest 0) ≡ true
      → is_same (turn hash size (count_deleted s 0) s (rest (count_deleted s 0))) ≡ true
  turn-same hash size empty rest f q = absurd (ground (arith, f))
  turn-same hash size deleted rest f q = absurd (ground (arith, f))
  turn-same hash size (used h np) rest f q = ground (arith, q)

  turn-put :
      (hash size np : ℕ) (s : Slot) (rest : ℕ → Search)
      → same np ≡ true
      → s ≡ used hash np
      → is_same (turn hash size (count_deleted s 0) s (rest (count_deleted s 0))) ≡ true
  turn-put hash size np s rest m e = rw e (ground (arith, m))

  walk :
      (np hash : ℕ) (t : HashTable) (fuel total r k hi : ℕ)
      → same np ≡ true
      → rehashes fuel r hash t ≡ some k
      → fuel ≤ total
      → hi ≡ hash + r
      → is_same (search total 0 hi hash (put (hash + k) (used hash np) t)) ≡ true
  unfolding search rehashes
  walk np hash t zero total r k hi m q l e = absurd (ground (arith, q))
  walk np hash t (suc fuel) zero r k hi m q l e = absurd (omega (arith, l))
  walk np hash t (suc fuel) (suc total) r k hi m q l e =
      let t' = put (hash + k) (used hash np) t in
      let rest : ℕ → Search = λ n. search total n (suc hi) hash t' in
      elim (Bool-cases (hi % t.size == (hash + k) % t.size)) [
        | inl b ↦ turn-put hash t.size np (slot_at hi t') rest m (rw b refl)
        | inr b ↦ elim (Bool-cases (is_free (slot_at (hash + r) t))) [
          | inl f ↦ absurd (ground (arith, b, f, q, e))
          | inr f ↦ turn-same hash t.size (slot_at hi t') rest (rw (b, e) f) (
              walk np hash t fuel total (suc r) k (suc hi) m (ground (arith, f, q))
                (omega (arith, l)) (omega (arith, e)))
        ]
      ]

  put_there :
      (np hash k : ℕ) (t t' : HashTable)
      → rehashes (suc (t.size / 10)) 0 hash t ≡ some k
      → insert_hash np hash t ≡ some t'
      → put (hash + k) (used hash np) t ≡ t'
  unfolding insert_hash
  put_there np hash k t t' o q =
      let e : insert_hash np hash t ≡ some (put (hash + k) (used hash np) t) =
        rw (o, insert_hash) refl in
      ap (λ o. elim o [ none ↦ t | some u ↦ u ]) (sym e ∙ q)

  -- In a table of at least two places, an entry that was put in is found by its hash, or another one
  -- with the same words is.
  pub find_hash-insert_hash :
      (np hash : ℕ) (t t' : HashTable)
      → 2 ≤ t.size
      → same np ≡ true
      → insert_hash np hash t ≡ some t'
      → is_same (find_hash hash t') ≡ true
  unfolding insert_hash find_hash
  find_hash-insert_hash np hash t t' z m q =
      elim (Option-cases (rehashes (suc (t.size / 10)) 0 hash t)) [
        | inl o ↦ absurd (ground (arith, o, q))
        | inr (k, o) ↦
            subst (λ u. is_same (find_hash hash u) ≡ true) (put_there np hash k t t' o q)
              (walk np hash t (suc (t.size / 10)) t.size 0 k hash m o (omega (arith, z))
                (omega arith))
      ]
