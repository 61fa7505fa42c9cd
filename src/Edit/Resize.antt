-- ===== src/Edit/Resize.antt =====
-- ed.chared.c: what `SetKillRing` does to the texts of the ring.
use mcsh.Base.{
  ℕ, zero, suc, min, max, ◌+◌, ◌-◌, ◌%◌, ◌≤◌, ◌<◌, true, false, arith, ◌≡◌, ◌⊎◌, inl, inr, refl, ap,
  ltb, leb, ◌==◌, if◌then◌else◌, Str, [], Bool-cases, ltb→lt, ==_refl, ==→≡, ◌≢◌, leb-false→lt, ◌∙◌,
}
use native.Mathlib.Nat.{mod_self, mod-eq_of_lt, mod-lt, mod-add-mod, add-mod_right}
use mcsh.Edit.State.{KillRing}
use mcsh.Edit.Kill.{copy_ring, resize, resize_texts, kept_texts, first_kept, set_kill_ring}
use mcsh.Edit.Ring.{Ring, mod-forth}

-- The slots that are copied, around the old ring.
copy_ring-slot :
    (n i j m len : ℕ) (slots : ℕ → Str)
    → j < len
    → m < n
    → copy_ring n i j len slots (i + m) ≡ slots ((j + m) % len)
unfolding copy_ring
copy_ring-slot zero i j m len slots l h = absurd (omega (arith, h))
copy_ring-slot (suc n) i j zero len slots l h =
    let e : i + 0 ≡ i = omega arith in
    let e' : (j + 0) % len ≡ j = (let d : j + 0 ≡ j = omega arith in rw d (mod-eq_of_lt l)) in
    rw (e, e', ==_refl i)
copy_ring-slot (suc n) i j (suc m) len slots l h =
    let d : (i + suc m == i) ≡ false = ground arith in
    let e : i + suc m ≡ suc i + m = omega arith in
    let f = mod-forth j m len l in
    rw d (
      rw e (
        copy_ring-slot n (suc i) ((j + 1) % len) m len slots f.0 (omega (arith, h)) ∙ ap slots f.1))

mod-top : (n top : ℕ) → 0 < top → n ≤ top → (n % top < top) × ((n ≡ top) ⊎ (n % top ≡ n))
mod-top n top l h = elim (Bool-cases (ltb n top)) [
  | inl e ↦ (mod-lt n l, inr (mod-eq_of_lt (ltb→lt n top e)))
  | inr e ↦ (mod-lt n l, inl (ground (arith, h, e)))
]

kept_texts_bounds :
    (top : ℕ) (k : KillRing)
    → 0 < top
    → (k.ring_len == 0) ≡ false
    → (0 < kept_texts top k) × (kept_texts top k ≤ top)
kept_texts_bounds top k l e = ground (arith, l, e)

resize_texts-Ring :
    (top : ℕ) (k : KillRing) → 0 < top → (k.ring_len == 0) ≡ false → Ring (resize_texts top k)
resize_texts-Ring top k l e =
    let b = kept_texts_bounds top k l e in
    let m = mod-top (kept_texts top k) top l b.1 in
    record {
      room = l;
      len_le = b.1;
      kill_in = m.0;
      yank_in = inr (omega (arith, b.0));
      filled = m.1;
    }

copy_ring-head : (n j len : ℕ) (slots : ℕ → Str) → 0 < n → copy_ring n 0 j len slots 0 ≡ slots j
unfolding copy_ring
copy_ring-head zero j len slots l = absurd (omega (arith, l))
copy_ring-head (suc n) j len slots l = refl

first_slot :
    (top : ℕ) (k : KillRing)
    → 0 < k.ring_len
    → k.kill_pos ≡ k.ring_len
    → k.ring_len ≤ top
    → (resize_texts (if ltb top 1 then 1 else top) k).slots 0 ≡ k.slots k.ring_len
first_slot top k l e h =
    let n = if ltb top 1 then 1 else top in
    let q : leb k.ring_len n ≡ true = ground (arith, l, h) in
    let j : first_kept n k ≡ k.ring_len = rw q e in
    copy_ring-head (kept_texts n k) (first_kept n k) k.ring_len k.slots (rw q l) ∙ ap k.slots j

empty-Ring :
    (top : ℕ) (k : KillRing)
    → 0 < top
    → k.ring_len ≡ 0
    → Ring k
    → Ring (record k { slots = λ p. []; ring_max = top })
empty-Ring top k l e r = record {
  room = l;
  len_le = omega (arith, e);
  kill_in = ground (arith, r, e, l);
  yank_in = inl e;
  filled = inr (ground (arith, r, e));
}

resize-Ring : (top : ℕ) (k : KillRing) → 0 < top → Ring k → Ring (resize top k)
resize-Ring top k l r = elim (Bool-cases (k.ring_len == 0)) [
  | inl e ↦ rw e (empty-Ring top k l (==→≡ k.ring_len 0 e) r)
  | inr e ↦ rw e (resize_texts-Ring top k l e)
]

new_top : (top : ℕ) → 0 < (if ltb top 1 then 1 else top)
new_top top = ground arith

-- Resizing keeps the positions of the ring in their bounds.
pub set_kill_ring-Ring : (top : ℕ) (k : KillRing) → Ring k → Ring (set_kill_ring top k)
unfolding set_kill_ring
set_kill_ring-Ring top k r =
    let n = if ltb top 1 then 1 else top in
    elim (Bool-cases (n == k.ring_max)) [
      | inl e ↦ rw (e, set_kill_ring) r
      | inr e ↦ rw (e, set_kill_ring) (resize-Ring n k (new_top top) r)
    ]

-- The place of the text that was pushed `m` pushes before the latest.
abbrev pub recent : KillRing → ℕ → ℕ
recent k m = (k.kill_pos + k.ring_len - 1 - m) % k.ring_len

recent-new :
    (count top m : ℕ)
    → 0 < top
    → count ≤ top
    → m < count
    → (count % top + count - 1 - m) % count ≡ count - 1 - m
recent-new count top m l h d = elim (Bool-cases (ltb count top)) [
  | inl e ↦
      let q : count % top ≡ count = mod-eq_of_lt (ltb→lt count top e) in
      let q' : count + count - 1 - m ≡ count - 1 - m + count = omega (arith, d) in
      rw (q, q') (add-mod_right (count - 1 - m) count ∙ mod-eq_of_lt (omega (arith, d)))
  | inr e ↦
      let t : count ≡ top = ground (arith, h, e) in
      let q : count % top ≡ 0 = rw t (mod_self top) in
      let q' : 0 + count - 1 - m ≡ count - 1 - m = omega arith in
      rw (q, q') (mod-eq_of_lt (omega (arith, d)))
]

-- Where the copying starts, counted from the latest text.
first_kept-recent :
    (top m : ℕ) (k : KillRing)
    → k.kill_pos < k.ring_len
    → m < kept_texts top k
    → (first_kept top k < k.ring_len)
      × ((first_kept top k + (kept_texts top k - 1 - m)) % k.ring_len ≡ recent k m)
first_kept-recent top m k r l = elim (Bool-cases (leb k.ring_len top)) [
  | inl e ↦
      let d : m < k.ring_len = (rw e at l) in
      let q : k.kill_pos + (k.ring_len - 1 - m) ≡ k.kill_pos + k.ring_len - 1 - m =
        omega (arith, d) in
      rw e (r, ap (λ n. n % k.ring_len) q)
  | inr e ↦
      let d : m < top = (rw e at l) in
      let t = leb-false→lt k.ring_len top e in
      let q : k.kill_pos + k.ring_len - top + (top - 1 - m) ≡ k.kill_pos + k.ring_len - 1 - m =
        omega (arith, d, t) in
      rw e (
        mod-lt (k.kill_pos + k.ring_len - top) (omega (arith, r)),
        mod-add-mod (k.kill_pos + k.ring_len - top) k.ring_len (top - 1 - m)
            ∙ ap (λ n. n % k.ring_len) q,
      )
]

resize_texts-recent :
    (top m : ℕ) (k : KillRing)
    → 0 < top
    → k.kill_pos < k.ring_len
    → m < kept_texts top k
    → (resize_texts top k).slots (recent (resize_texts top k) m) ≡ k.slots (recent k m)
resize_texts-recent top m k l r d =
    let count = kept_texts top k in
    let b : count ≤ top = ground arith in
    let f = first_kept-recent top m k r d in
    let z : count - 1 - m ≡ 0 + (count - 1 - m) = omega arith in
    let q : recent (resize_texts top k) m ≡ 0 + (count - 1 - m) =
      recent-new count top m l b d ∙ z in
    ap (copy_ring count 0 (first_kept top k) k.ring_len k.slots) q
    ∙ copy_ring-slot count 0 (first_kept top k) (count - 1 - m) k.ring_len k.slots f.0
        (omega (arith, d))
    ∙ ap k.slots f.1

-- Nothing is changed, or the texts of a ring that has some are copied.
set_kill_ring-cases :
    (top : ℕ) (k : KillRing)
    → 0 < k.ring_len
    → ((set_kill_ring top k ≡ k) × ((if ltb top 1 then 1 else top) ≡ k.ring_max))
      ⊎ (set_kill_ring top k ≡ resize_texts (if ltb top 1 then 1 else top) k)
unfolding set_kill_ring
set_kill_ring-cases top k l =
    let n = if ltb top 1 then 1 else top in
    elim (Bool-cases (n == k.ring_max)) [
      | inl e ↦ inl (rw (e, set_kill_ring) refl, ==→≡ n k.ring_max e)
      | inr e ↦
          let z : (k.ring_len == 0) ≡ false = ground (arith, l) in
          inr (rw (e, z, set_kill_ring) refl)
    ]

-- A full ring that is resized keeps as many texts as it has, and as there is room for where one place
-- is the least; they are its latest, in their order.
pub set_kill_ring-recent :
    (top m : ℕ) (k : KillRing)
    → Ring k
    → k.ring_len ≡ k.ring_max
    → m < min k.ring_len (max top 1)
    → ((set_kill_ring top k).ring_len ≡ min k.ring_len (max top 1))
      × ((set_kill_ring top k).slots (recent (set_kill_ring top k) m) ≡ k.slots (recent k m))
set_kill_ring-recent top m k r f l = elim (set_kill_ring-cases top k (omega (arith, r.room, f))) [
  | inl e ↦ (rw e.0 (ground (arith, e.1, f)), rw e.0 refl)
  | inr e ↦
      let n = if ltb top 1 then 1 else top in
      let c : kept_texts n k ≡ min k.ring_len (max top 1) = ground arith in
      let d : m < kept_texts n k = omega (arith, c, l) in
      (rw e c, rw e (resize_texts-recent n m k (new_top top) (omega (arith, r.kill_in, f)) d))
]

-- A ring that is not full loses its first text where it is given more room: the slot that is read in
-- its place holds no text yet.
pub set_kill_ring-first :
    (top : ℕ) (k : KillRing)
    → 0 < k.ring_len
    → k.kill_pos ≡ k.ring_len
    → k.ring_len ≤ top
    → top ≢ k.ring_max
    → (set_kill_ring top k).slots 0 ≡ k.slots k.ring_len
set_kill_ring-first top k l e h d = elim (set_kill_ring-cases top k l) [
  | inl q ↦ absurd (ground (arith, q.1, d, l, h))
  | inr q ↦ rw q (first_slot top k l e h)
]
