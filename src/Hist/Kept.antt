-- ===== src/Hist/Kept.antt =====
-- sh.hist.c: `discardExcess` does nothing but remove entries.
use mcsh.Base.{ℕ, zero, suc, ◌-◌, Bool, true, false, ◌&&◌, leb, ltb, if◌then◌else◌, length}
use mcsh.Hist.{
  History, hremove, is_excess, too_long, prune_front, prune_back, scan_entry, scan, over,
  discard_excess,
}

pub if_history :
    (P : History → Type 0) (b : Bool) {x y : History} → P x → P y → P (if b then x else y)
if_history P true p q = p
if_history P false p q = q

if_second :
    (P : History → Type 0) (b : Bool) (i j : ℕ) {x y : History}
    → P x
    → P y
    → P (if◌then◌else◌ {A = ℕ × History} b (i, x) (j, y)).1
if_second P true i j p q = p
if_second P false i j p q = q

module _ (P : History → Type 0) (keep : (pp : ℕ) (h : History) → P h → P (hremove pp h)) where
  prune_front-Kept : (fuel hlen : ℕ) (h : History) → P h → P (prune_front fuel hlen h)
  unfolding prune_front
  prune_front-Kept zero hlen h p = p
  prune_front-Kept (suc fuel) hlen h p =
      if_history P (too_long hlen h && is_excess hlen 0 h)
        (prune_front-Kept fuel hlen (hremove 0 h) (keep 0 h p)) p

  prune_back-Kept : (fuel hlen : ℕ) (h : History) → P h → P (prune_back fuel hlen h)
  unfolding prune_back
  prune_back-Kept zero hlen h p = p
  prune_back-Kept (suc fuel) hlen h p =
      let last = length h.entries - 1 in
      if_history P (too_long hlen h && is_excess hlen last h)
        (prune_back-Kept fuel hlen (hremove last h) (keep last h p)) p

  scan_entry-Kept : (hlen pp : ℕ) (h : History) → P h → P (scan_entry hlen pp h).1
  scan_entry-Kept hlen pp h p = if_second P (is_excess hlen pp h) pp (suc pp) (keep pp h p) p

  scan-Kept : (fuel hlen pp : ℕ) (h : History) → P h → P (scan fuel hlen pp h)
  unfolding scan
  scan-Kept zero hlen pp h p = p
  scan-Kept (suc fuel) hlen pp h p =
      let r = scan_entry hlen pp h in
      if_history P (too_long hlen h && ltb pp (length h.entries))
        (scan-Kept fuel hlen r.0 r.1 (scan_entry-Kept hlen pp h p)) p

  pub pruned-Kept :
      (hlen : ℕ) (h : History)
      → P h
      → (let front = prune_front (length h.entries) hlen h in
          P (prune_back (length front.entries) hlen front))
  pruned-Kept hlen h p =
      let front = prune_front (length h.entries) hlen h in
      prune_back-Kept (length front.entries) hlen front
        (prune_front-Kept (length h.entries) hlen h p)

  pub discard_excess-Kept : (hlen : ℕ) (h : History) → P h → P (discard_excess hlen h)
  unfolding discard_excess
  discard_excess-Kept hlen h p =
      let front = prune_front (length h.entries) hlen h in
      let back = prune_back (length front.entries) hlen front in
      let kept = pruned-Kept hlen h p in
      if_history P (leb (over (length back.entries) hlen) hlen) kept
        (scan-Kept (length back.entries) hlen 0 back kept)
