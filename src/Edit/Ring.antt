-- ===== src/Edit/Ring.antt =====
-- ed.chared.c: the positions of the kill ring under `c_push_kill` and `SetKillRing`.
use mcsh.Base.{
  ℕ, suc, ◌+◌, ◌%◌, ◌≤◌, ◌<◌, arith, ◌≡◌, ◌⊎◌, inl, inr, ltb, Str, Bool-cases, ltb→lt, ==_refl, sym,
}
use native.Mathlib.Nat.{mod_self, mod-eq_of_lt, add-mod_left}
use mcsh.Edit.State.{KillRing}
use mcsh.Edit.Kill.{KillDup, dup_all, push_new}

-- The ring has room, its positions are slots of it, and while it is not full the next text goes
-- behind the last one.
pub record Ring (k : KillRing) : Type 0 where
  pub room : 0 < k.ring_max
  pub len_le : k.ring_len ≤ k.ring_max
  pub kill_in : k.kill_pos < k.ring_max
  pub yank_in : (k.ring_len ≡ 0) ⊎ (k.yank_pos < k.ring_len)
  pub filled : (k.ring_len ≡ k.ring_max) ⊎ (k.kill_pos ≡ k.ring_len)

pub mod-next : (p n : ℕ) → p < n → ((p + 1) % n < n) × (((p + 1) % n ≡ p + 1) ⊎ (p + 1 ≡ n))
mod-next p n l = elim (Bool-cases (ltb (p + 1) n)) [
  | inl e ↦ (omega (arith, l), inl (mod-eq_of_lt (ltb→lt (p + 1) n e)))
  | inr e ↦ (omega (arith, l), inr (ground (arith, l, e)))
]

-- What a push makes sure of: the text is the one to be yanked, or with $killdup `all` a text of the ring.
abbrev pub Holds : KillDup → Str → KillRing → Type 0
Holds dup_all w k = (p : ℕ) × (p < k.ring_len) × (k.slots p ≡ w)
Holds dup w k = k.slots k.yank_pos ≡ w

pub push_new-latest : (w : Str) (k : KillRing) → (push_new w k).slots (push_new w k).yank_pos ≡ w
unfolding push_new
push_new-latest w k = rw (==_refl k.kill_pos)

pub mod-forth : (j i n : ℕ) → j < n → ((j + 1) % n < n) × (((j + 1) % n + i) % n ≡ (j + suc i) % n)
mod-forth j i n l = elim (Bool-cases (ltb (j + 1) n)) [
  | inl t ↦
      let e = mod-eq_of_lt (ltb→lt (j + 1) n t) in
      let e' : j + 1 + i ≡ j + suc i = omega arith in (omega (arith, l), rw (e, e'))
  | inr t ↦
      let q : j + 1 ≡ n = ground (arith, l, t) in
      let e : (j + 1) % n ≡ 0 = rw q (mod_self n) in
      let e' : j + suc i ≡ n + i = omega (arith, q) in
      let z : 0 + i ≡ i = omega arith in (omega (arith, l), rw (e, e', z) (sym (add-mod_left n i)))
]

-- What a push keeps and makes sure of.
abbrev pub Pushed : KillDup → Str → KillRing → Type 0
Pushed dup w k = Ring k × Holds dup w k
