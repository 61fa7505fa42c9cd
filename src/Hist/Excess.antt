-- ===== src/Hist/Excess.antt =====
-- sh.hist.c: how long the history list is after `discardExcess`.
use mcsh.Base.{
  ℕ, zero, suc, ◌+◌, ◌-◌, All, leb, ◌⊎◌, ◌/◌, ◌<◌, ◌≤◌, false, ltb, [], ◌∷◌, length, ◌≡◌, refl, inl,
  inr, arith, Bool-cases, ltb→lt,
}
use mcsh.Hist.{
  Entry, Entries, History, over, ref_at, remove_at, hremove, is_excess, scan, scan_excess,
  discard_excess,
}
use mcsh.Hist.Kept.{pruned-Kept}

-- The last reference to an entry is among the latest events, as many as asked for.
abbrev pub IsRecent : ℕ → ℕ → Entry → Type 0
IsRecent hlen eventno e = eventno - e.href < hlen

-- The entries up to a position.
RecentTo : ℕ → ℕ → ℕ → Entries → Type 0
RecentTo hlen eventno zero es = Unit
RecentTo hlen eventno (suc pp) [] = Unit
RecentTo hlen eventno (suc pp) (e ∷ es) = IsRecent hlen eventno e × RecentTo hlen eventno pp es

RecentTo-more :
    (hlen ev pp : ℕ) (es : Entries)
    → RecentTo hlen ev pp es
    → ev - ref_at pp es < hlen
    → RecentTo hlen ev (suc pp) es
unfolding RecentTo ref_at
RecentTo-more hlen ev pp [] r l = tt
RecentTo-more hlen ev zero (e ∷ es) r l = (l, tt)
RecentTo-more hlen ev (suc pp) (e ∷ es) r l = (r.0, RecentTo-more hlen ev pp es r.1 l)

RecentTo-remove_at :
    (hlen ev pp : ℕ) (es : Entries) → RecentTo hlen ev pp es → RecentTo hlen ev pp (remove_at pp es)
unfolding RecentTo remove_at
RecentTo-remove_at hlen ev zero es r = tt
RecentTo-remove_at hlen ev (suc pp) [] r = tt
RecentTo-remove_at hlen ev (suc pp) (e ∷ es) r = (r.0, RecentTo-remove_at hlen ev pp es r.1)

RecentTo-All :
    (hlen ev pp : ℕ) (es : Entries)
    → RecentTo hlen ev pp es
    → length es ≤ pp
    → All (IsRecent hlen ev) es
unfolding RecentTo
RecentTo-All hlen ev pp [] r l = tt
RecentTo-All hlen ev zero (e ∷ es) r l = absurd (omega (arith, l))
RecentTo-All hlen ev (suc pp) (e ∷ es) r l =
    (r.0, RecentTo-All hlen ev pp es r.1 (omega (arith, l)))

-- As few entries as asked for, or only recent ones.
abbrev pub Pruned : ℕ → ℕ → History → Type 0
Pruned room hlen h = (length h.entries ≤ room) ⊎ All (IsRecent hlen h.eventno) h.entries

short : (n count : ℕ) → ltb n count ≡ false → count ≤ n
short n count t = ground arith

is_excess-false :
    (hlen pp : ℕ) (h : History)
    → is_excess hlen pp h ≡ false
    → h.eventno - ref_at pp h.entries < hlen
unfolding is_excess
is_excess-false hlen pp h x = ground (arith, x)

length-remove_at :
    (i : ℕ) (es : Entries) → i < length es → suc (length (remove_at i es)) ≡ length es
unfolding remove_at
length-remove_at i [] l = absurd (omega (arith, l))
length-remove_at zero (e ∷ es) l = refl
length-remove_at (suc i) (e ∷ es) l = omega (arith, length-remove_at i es (omega (arith, l)))

scan-Pruned :
    (fuel hlen pp : ℕ) (h : History)
    → RecentTo hlen h.eventno pp h.entries
    → length h.entries ≤ pp + fuel
    → Pruned hlen hlen (scan fuel hlen pp h)
unfolding scan hremove
scan-Pruned zero hlen pp h r f = inr (RecentTo-All hlen h.eventno pp h.entries r (omega (arith, f)))
scan-Pruned (suc fuel) hlen pp h r f = elim (Bool-cases (ltb hlen (length h.entries))) [
  | inr t ↦ rw (t, scan) (inl (short hlen (length h.entries) t))
  | inl t ↦ elim (Bool-cases (ltb pp (length h.entries))) [
    | inr e ↦
        rw (t, e, scan)
          (inr (RecentTo-All hlen h.eventno pp h.entries r (short pp (length h.entries) e)))
    | inl e ↦ elim (Bool-cases (is_excess hlen pp h)) [
      | inl x ↦
          rw (t, e, x, scan)
            (scan-Pruned fuel hlen pp (hremove pp h)
              (RecentTo-remove_at hlen h.eventno pp h.entries r)
              (omega (arith, f, length-remove_at pp h.entries (ltb→lt pp (length h.entries) e))))
      | inr x ↦
          rw (t, e, x, scan)
            (scan-Pruned fuel hlen (suc pp) h
              (RecentTo-more hlen h.eventno pp h.entries r (is_excess-false hlen pp h x))
              (omega (arith, f)))
    ]
  ]
]

scan_excess-Pruned :
    (hlen : ℕ) (h : History)
    → length h.entries < 4294967296
    → Pruned (hlen + hlen / 16) hlen (scan_excess hlen h)
unfolding RecentTo
scan_excess-Pruned hlen h w = elim (Bool-cases (leb (over (length h.entries) hlen) hlen)) [
  | inl e ↦ rw e (inl (ground (arith, w, e)))
  | inr e ↦ rw e (elim (scan-Pruned (length h.entries) hlen 0 h tt (omega arith)) [
    | inl l ↦ inl (omega (arith, l))
    | inr a ↦ inr a
  ])
]

abbrev Short : ℕ → History → Type 0
Short w h = length h.entries < w

remove_at-short : (i : ℕ) (es : Entries) → length (remove_at i es) ≤ length es
unfolding remove_at
remove_at-short i [] = omega arith
remove_at-short zero (e ∷ es) = omega arith
remove_at-short (suc i) (e ∷ es) = omega (arith, remove_at-short i es)

hremove-Short : (w pp : ℕ) (h : History) → Short w h → Short w (hremove pp h)
unfolding hremove
hremove-Short w pp h s = omega (arith, s, remove_at-short pp h.entries)

-- discardExcess leaves at most as many entries as asked for and one sixteenth more, or only entries
-- whose last reference is among as many of the latest events, where the length is a number of 32
-- bits.
pub discard_excess-Pruned :
    (hlen : ℕ) (h : History)
    → length h.entries < 4294967296
    → Pruned (hlen + hlen / 16) hlen (discard_excess hlen h)
unfolding discard_excess
discard_excess-Pruned hlen h w =
    scan_excess-Pruned hlen _ (pruned-Kept (Short 4294967296) (hremove-Short 4294967296) hlen h w)
