-- ===== src/Hist/Numbered.antt =====
-- sh.hist.c: the numbers of the events along the history list.
use mcsh.Base.{
  ℕ, zero, suc, ◌+◌, ◌-◌, ◌<◌, ◌≤◌, Bool, Option, none, some, List, [], ◌∷◌, Str, drop, ◌≡◌, refl,
  arith, Option-cases, inl, inr,
}
use mcsh.Hist.{Entry, Entries, History, insert_at, remove_at, hinsert, hremove, discard_excess}
use mcsh.Hist.Enter.{
  HistDup, dup_keep, dup_erase, dup_all, dup_prev, set_time, bubble, merge_point, merge_in,
  past_equal, renumber, time_of, enter, reuse, erase_hint, erase_stamp, erase_old, is_latest,
  is_null_line, enthist, savehist,
}
use mcsh.Hist.Kept.{if_history, discard_excess-Kept}

-- The numbers fall from entry to entry, from below the bound.
unfoldable pub Numbered : ℕ → Entries → Type 0
Numbered b [] = Unit
Numbered b (e ∷ es) = (e.hnum < b) × Numbered e.hnum es

abbrev pub IsNumbered : History → Type 0
IsNumbered h = Numbered (suc h.eventno) h.entries

Numbered-weaken : (a b : ℕ) (es : Entries) → a ≤ b → Numbered a es → Numbered b es
unfolding Numbered
Numbered-weaken a b [] l n = tt
Numbered-weaken a b (e ∷ es) l n = (omega (arith, l, n.0), n.1)

remove_at-Numbered : (b i : ℕ) (es : Entries) → Numbered b es → Numbered b (remove_at i es)
unfolding Numbered remove_at
remove_at-Numbered b i [] n = tt
remove_at-Numbered b zero (e ∷ es) n = Numbered-weaken e.hnum b es (omega (arith, n.0)) n.1
remove_at-Numbered b (suc i) (e ∷ es) n = (n.0, remove_at-Numbered e.hnum i es n.1)

set_time-Numbered : (b i t : ℕ) (es : Entries) → Numbered b es → Numbered b (set_time i t es)
unfolding Numbered set_time
set_time-Numbered b i t [] n = tt
set_time-Numbered b zero t (e ∷ es) n = n
set_time-Numbered b (suc i) t (e ∷ es) n = (n.0, set_time-Numbered e.hnum i t es n.1)

-- The numbers bubble down to where the entry is put.
bubble-Numbered :
    (b i : ℕ) (e : Entry) (es : Entries)
    → e.hnum < b
    → Numbered e.hnum es
    → (let r = bubble i e es in Numbered b (insert_at i r.0 r.1))
unfolding Numbered bubble insert_at
bubble-Numbered b zero e es l n = (l, n)
bubble-Numbered b (suc i) e [] l n = (l, tt)
bubble-Numbered b (suc i) e (d ∷ es) l n = (l, bubble-Numbered e.hnum i (renumber e d) es n.0 n.1)

merge_in-IsNumbered :
    (e : Entry) (hint : Option ℕ) (h : History)
    → e.hnum ≡ h.eventno
    → (k : ℕ) → h.eventno ≡ suc k
    → Numbered e.hnum h.entries
    → IsNumbered (merge_in e hint h)
unfolding hinsert
merge_in-IsNumbered e hint h q k s n =
    let pp = merge_point e.htime hint h in
    elim (Option-cases (past_equal e.htime e.lex (drop pp h.entries))) [
      | inl o ↦
          rw (o, merge_in)
            (Numbered-weaken e.hnum (suc (h.eventno - 1)) h.entries (omega (arith, q, s)) n)
      | inr (i, o) ↦
          rw (o, merge_in)
            (bubble-Numbered (suc h.eventno) (pp + i) e h.entries (omega (arith, q)) n)
    ]

enter_first :
    (e : Entry) (h : History)
    → e.hnum ≡ h.eventno
    → Numbered e.hnum h.entries
    → IsNumbered (hinsert e 0 h)
unfolding Numbered hinsert insert_at
enter_first e h q n = (omega (arith, q), n)

-- A new event is entered on a list of earlier ones.
enter-IsNumbered :
    (now k : ℕ) (lp : List Str) (mflg : Bool) (hint : Option ℕ) (h : History)
    → h.eventno ≡ suc k
    → Numbered (suc k) h.entries
    → IsNumbered (enter now (suc k) lp mflg hint h)
unfolding enter
enter-IsNumbered now k lp mflg hint h q n =
    let e : Entry = record { lex = lp; hnum = suc k; href = suc k; htime = time_of now h } in
    if_history IsNumbered mflg
      (merge_in-IsNumbered e hint (record h { stamp = 0 }) (omega (arith, q)) k q n)
      (enter_first e (record h { stamp = 0 }) (omega (arith, q)) n)

reuse-IsNumbered :
    (now pp k : ℕ) (h : History)
    → h.eventno ≡ suc k
    → Numbered (suc k) h.entries
    → IsNumbered (reuse now pp h)
unfolding reuse
reuse-IsNumbered now pp k h q n =
    Numbered-weaken (suc k) (suc (h.eventno - 1)) (set_time pp (time_of now h) h.entries)
      (omega (arith, q)) (set_time-Numbered (suc k) pp (time_of now h) h.entries n)

enthist-IsNumbered :
    (now : ℕ) (dup : HistDup) (found : Option ℕ) (k : ℕ) (lp : List Str) (mflg : Bool) (h : History)
    → h.eventno ≡ suc k
    → Numbered (suc k) h.entries
    → IsNumbered (enthist now dup found (suc k) lp mflg h)
unfolding enthist hremove
enthist-IsNumbered now dup_keep found k lp mflg h q n = enter-IsNumbered now k lp mflg none h q n
enthist-IsNumbered now dup_erase none k lp mflg h q n = enter-IsNumbered now k lp mflg none h q n
enthist-IsNumbered now dup_erase (some pp) k lp mflg h q n =
    enter-IsNumbered now k lp mflg (erase_hint mflg (erase_stamp pp h) pp h) (erase_old pp h) q
      (remove_at-Numbered (suc k) pp h.entries n)
enthist-IsNumbered now dup_all none k lp mflg h q n = enter-IsNumbered now k lp mflg none h q n
enthist-IsNumbered now dup_all (some pp) k lp mflg h q n = reuse-IsNumbered now pp k h q n
enthist-IsNumbered now dup_prev found k lp mflg h q n =
    if_history IsNumbered (is_latest lp h.entries) (reuse-IsNumbered now 0 k h q n)
      (enter-IsNumbered now k lp mflg none h q n)

pub hremove-IsNumbered : (pp : ℕ) (h : History) → IsNumbered h → IsNumbered (hremove pp h)
unfolding hremove
hremove-IsNumbered pp h n = remove_at-Numbered (suc h.eventno) pp h.entries n

discard_excess-IsNumbered :
    (hlen : ℕ) (h : History) → IsNumbered h → IsNumbered (discard_excess hlen h)
discard_excess-IsNumbered = discard_excess-Kept IsNumbered hremove-IsNumbered

-- Whatever is entered into the history, with a merge or without, and whatever $histdup is: the numbers
-- of the events fall from entry to entry, and none is above the number of the last event.
pub savehist-IsNumbered :
    (now : ℕ) (dup : HistDup) (found : Option ℕ) (hlen : ℕ) (lp : Option (List Str)) (mflg : Bool)
    (h : History)
    → IsNumbered h
    → IsNumbered (savehist now dup found hlen lp mflg h)
unfolding savehist
savehist-IsNumbered now dup found hlen none mflg h n = discard_excess-IsNumbered hlen h n
savehist-IsNumbered now dup found hlen (some lp) mflg h n =
    if_history IsNumbered (is_null_line lp) n (
      discard_excess-IsNumbered hlen _ (
        enthist-IsNumbered now dup found h.eventno lp mflg (record h { eventno = suc h.eventno })
          refl n))
