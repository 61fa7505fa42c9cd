-- ===== src/Edit/Kill.antt =====
-- ed.chared.c: `c_push_kill` and the kill ring.
use mcsh.Base.{
  ℕ, zero, suc, ◌+◌, ◌-◌, ◌%◌, Bool, false, Option, none, some, ◌||◌, ◌==◌, ltb, if◌then◌else◌, Str,
  eq, leb, [],
}
use mcsh.Edit.State.{KillRing}

-- The value of $killdup: not set, `erase`, `all` or `prev`.
pub data KillDup : Type 0 where
  dup_keep dup_erase dup_all dup_prev : KillDup

abbrev pub set_slot : ℕ → Str → (ℕ → Str) → ℕ → Str
set_slot i w slots = λ j. if j == i then w else slots j

-- From the latest slot backwards: how far, and the slot of an equal text.
unfoldable pub find_dup : ℕ → ℕ → ℕ → Str → KillRing → Option (ℕ × ℕ)
find_dup zero i j w k = none
find_dup (suc n) i j w k =
    let rest = find_dup n (suc i) ((j + k.ring_len - 1) % k.ring_len) w k in
    if eq (k.slots j) w then some (i, j) else rest

-- The slots behind `j` move down by one, `i` times; the last place that is free, and the slots.
unfoldable pub rotate : ℕ → ℕ → ℕ → (ℕ → Str) → ℕ × (ℕ → Str)
rotate zero j len slots = (j, slots)
rotate (suc i) j len slots = rotate i ((j + 1) % len) len (set_slot j (slots ((j + 1) % len)) slots)

unfoldable pub any_dup : ℕ → Str → KillRing → Bool
any_dup zero w k = false
any_dup (suc i) w k = eq (k.slots i) w || any_dup i w k

unfoldable pub push_new : Str → KillRing → KillRing
push_new w k = record {
  slots = set_slot k.kill_pos w k.slots;
  ring_max = k.ring_max;
  ring_len = if ltb k.ring_len k.ring_max then suc k.ring_len else k.ring_len;
  kill_pos = (k.kill_pos + 1) % k.ring_max;
  yank_pos = k.kill_pos;
}

abbrev pub move_dup : ℕ × ℕ → KillRing → KillRing
move_dup (i, j) k =
    let (free, slots) = rotate i j k.ring_len k.slots in
    record k { slots = set_slot free (k.slots j) slots }

-- With a duplicate in the ring, `YankPos` is on the latest text.
unfoldable pub push_dup : KillDup → Str → KillRing → KillRing
unfolding find_dup rotate any_dup push_new
push_dup dup_keep w k = push_new w k
push_dup dup_erase w k = elim (find_dup k.ring_len 0 k.yank_pos w k) [
  | none ↦ push_new w k
  | some found ↦ move_dup found k
]
push_dup dup_all w k = if any_dup k.ring_len w k then k else push_new w k
push_dup dup_prev w k = if eq (k.slots k.yank_pos) w then k else push_new w k

abbrev pub latest : KillRing → KillRing
latest k = record k { yank_pos = (k.kill_pos + k.ring_len - 1) % k.ring_len }

unfoldable pub c_push_kill : KillDup → Str → KillRing → KillRing
unfolding push_dup
c_push_kill dup_keep w k = push_new w k
c_push_kill dup w k = if k.ring_len == 0 then push_new w k else push_dup dup w (latest k)

-- The copying of `SetKillRing`: the slots from `j` on around the old ring, to `i` and on in the new one.
-- A text that is past the new length is freed.
unfoldable pub copy_ring : ℕ → ℕ → ℕ → ℕ → (ℕ → Str) → ℕ → Str
copy_ring zero i j len slots = λ p. []
copy_ring (suc n) i j len slots =
    set_slot i (slots j) (copy_ring n (suc i) ((j + 1) % len) len slots)

-- `count`, and the `j` that the copying starts at.
abbrev pub kept_texts : ℕ → KillRing → ℕ
kept_texts top k = if leb k.ring_len top then k.ring_len else top

abbrev pub first_kept : ℕ → KillRing → ℕ
first_kept top k =
    if leb k.ring_len top then k.kill_pos else (k.kill_pos + k.ring_len - top) % k.ring_len

abbrev pub resize_texts : ℕ → KillRing → KillRing
resize_texts top k = record {
  slots = copy_ring (kept_texts top k) 0 (first_kept top k) k.ring_len k.slots;
  ring_max = top;
  ring_len = kept_texts top k;
  kill_pos = kept_texts top k % top;
  yank_pos = kept_texts top k - 1;
}

abbrev pub resize : ℕ → KillRing → KillRing
resize top k =
    if k.ring_len == 0 then record k { slots = λ p. []; ring_max = top } else resize_texts top k

unfoldable pub set_kill_ring : ℕ → KillRing → KillRing
unfolding copy_ring
set_kill_ring top k =
    let top = if ltb top 1 then 1 else top in if top == k.ring_max then k else resize top k
