-- ===== src/Hist/Merge/Timed.antt =====
-- sh.hist.c: the order of the times along the history list, under merges.
use mcsh.Base.{
  ℕ, zero, suc, ◌+◌, ◌≤◌, Bool, true, false, ◌==◌, ltb, Option, none, some, List, [], ◌∷◌, Str,
  drop, ◌≡◌, refl, ◌⊎◌, inl, inr, arith, Bool-cases, Option-cases, subst, ap, sym, ◌∙◌,
}
use mcsh.Hist.{Entry, Entries, History, time_at, insert_at, remove_at, hinsert, hremove, heq}
use mcsh.Hist.Enter.{
  HistDup, dup_keep, dup_erase, dup_all, dup_prev, later, bubble, renumber, past_equal, merge_point,
  merge_in, time_of, enter, erase_hint, erase_stamp, erase_old, enthist, is_null_line, savehist,
}
use mcsh.Hist.Kept.{if_history, discard_excess-Kept}
use mcsh.Hist.Merge.{Timed, merge_point-later}

remove_at-head :
    (i : ℕ) (e : Entry) (es : Entries) → Timed (e ∷ es) → time_at 1 (remove_at i es) ≤ e.htime
unfolding remove_at time_at Timed
remove_at-head i e [] s = omega arith
remove_at-head zero e (d ∷ es) s = omega (arith, s.0, s.1.0)
remove_at-head (suc i) e (d ∷ es) s = s.0

remove_at-Timed : (i : ℕ) (es : Entries) → Timed es → Timed (remove_at i es)
unfolding remove_at Timed
remove_at-Timed i [] s = tt
remove_at-Timed zero (e ∷ es) s = s.1
remove_at-Timed (suc i) (e ∷ es) s = (remove_at-head i e es s, remove_at-Timed i es s.1)

-- A place for a time: no entry before it is earlier, and none behind it is later.
abbrev Fits : ℕ → ℕ → Entries → Type 0
Fits t i es = ((i ≡ 0) ⊎ (t ≤ time_at i es)) × (time_at (suc i) es ≤ t)

Fits-tail : (t i : ℕ) (d : Entry) (es : Entries) → Fits t (suc i) (d ∷ es) → Fits t i es
unfolding time_at
Fits-tail t zero d es f = (inl refl, f.1)
Fits-tail t (suc i) d es f = (ground (arith, f.0), f.1)

bubble-head :
    (i : ℕ) (e d : Entry) (es : Entries)
    → Timed (d ∷ es)
    → Fits e.htime (suc i) (d ∷ es)
    → (let r = bubble i e es in time_at 1 (insert_at i r.0 r.1) ≤ d.htime)
unfolding bubble insert_at time_at Timed
bubble-head zero e d es s f = ground (arith, f.0)
bubble-head (suc i) e d [] s f = ground (arith, f.0)
bubble-head (suc i) e d (c ∷ es) s f = s.0

bubble-Timed :
    (i : ℕ) (e : Entry) (es : Entries)
    → Timed es
    → Fits e.htime i es
    → (let r = bubble i e es in Timed (insert_at i r.0 r.1))
unfolding bubble insert_at Timed time_at
bubble-Timed zero e es s f = (f.1, s)
bubble-Timed (suc i) e [] s f = (omega arith, tt)
bubble-Timed (suc i) e (d ∷ es) s f = (
  bubble-head i (renumber e d) d es s f,
  bubble-Timed i (renumber e d) es s.1 (Fits-tail e.htime i d es f),
)

-- The entries behind the later ones.
drop-later-Timed : (t : ℕ) (es : Entries) → Timed es → Timed (drop (later t es) es)
unfolding later Timed
drop-later-Timed t [] s = tt
drop-later-Timed t (e ∷ es) s = elim (Bool-cases (ltb t e.htime)) [
  | inl b ↦ rw (b, later) (drop-later-Timed t es s.1)
  | inr b ↦ rw (b, later) s
]

Fits-cons :
    (t i : ℕ) (e : Entry) (es : Entries) → t ≤ e.htime → Fits t i es → Fits t (suc i) (e ∷ es)
unfolding time_at
Fits-cons t zero e es l f = (inr l, f.1)
Fits-cons t (suc i) e es l f = (inr (ground (arith, f.0)), f.1)

ltb→le : (a b : ℕ) → ltb a b ≡ true → a ≤ b
ltb→le a b h = ground arith

later_suc : (n k : ℕ) → suc (n + k) ≡ suc n + k
later_suc n k = omega arith

-- Where a place is in the rest of the list, it is one in the list.
Fits-later :
    (t k : ℕ) (es : Entries)
    → Timed es
    → Fits t k (drop (later t es) es)
    → Fits t (later t es + k) es
unfolding Timed later
Fits-later t k [] s = λ f. subst (λ i. Fits t i []) (omega arith) f
Fits-later t k (e ∷ es) s = elim (Bool-cases (ltb t e.htime)) [
  | inl b ↦
      rw (b, later)
        λ f.
          subst (λ i. Fits t i (e ∷ es)) (later_suc (later t es) k)
            (Fits-cons t (later t es + k) e es (ltb→le t e.htime b) (Fits-later t k es s.1 f))
  | inr b ↦ rw (b, later) λ f. subst (λ i. Fits t i (e ∷ es)) (omega arith) f
]

past_equal-Fits :
    (t k : ℕ) (lp : List Str) (es : Entries)
    → Timed es
    → time_at 1 es ≤ t
    → past_equal t lp es ≡ some k
    → Fits t k es
unfolding past_equal Timed time_at
past_equal-Fits t k lp [] s l q = (inl (ground (arith, q)), ground (arith, q))
past_equal-Fits t k lp (e ∷ es) s l q = elim (Bool-cases (e.htime == t)) [
  | inr b ↦ subst (λ i. Fits t i (e ∷ es)) (ground (arith, b, q)) (inl refl, l)
  | inl b ↦ elim (Bool-cases (heq e.lex lp)) [
    | inl d ↦ absurd (ground (arith, b, d, q))
    | inr d ↦ elim (Option-cases (past_equal t lp es)) [
      | inl o ↦ absurd (ground (arith, b, d, o, q))
      | inr (j, o) ↦
          subst (λ i. Fits t i (e ∷ es)) (ground (arith, b, d, o, q))
            (Fits-cons t j e es (ground (arith, b))
              (past_equal-Fits t j lp es s.1 (omega (arith, s.0, l)) o))
    ]
  ]
]

later-head : (t : ℕ) (es : Entries) → Timed es → time_at 1 (drop (later t es) es) ≤ t
unfolding later Timed time_at
later-head t [] s = omega arith
later-head t (e ∷ es) s = elim (Bool-cases (ltb t e.htime)) [
  | inl b ↦ rw (b, later) (later-head t es s.1)
  | inr b ↦ rw (b, later) (ground (arith, b))
]

Fits-merged :
    (t pp k : ℕ) (lp : List Str) (es : Entries)
    → Timed es
    → pp ≡ later t es
    → past_equal t lp (drop pp es) ≡ some k
    → Fits t (pp + k) es
Fits-merged t pp k lp es s q o = rw q (
    Fits-later t k es s (
      past_equal-Fits t k lp (drop (later t es) es) (drop-later-Timed t es s) (later-head t es s)
        (sym (ap (λ i. past_equal t lp (drop i es)) q) ∙ o)))

-- A merge leaves the list as it is, or puts the entry where it fits.
merge_in-Timed :
    (e : Entry) (hint : Option ℕ) (h : History)
    → Timed h.entries
    → Timed (merge_in e hint h).entries
unfolding hinsert
merge_in-Timed e hint h s =
    let pp = merge_point e.htime hint h in
    elim (Option-cases (past_equal e.htime e.lex (drop pp h.entries))) [
      | inl o ↦ rw (o, merge_in) s
      | inr (k, o) ↦
          rw (o, merge_in)
            (bubble-Timed (pp + k) e h.entries s
              (Fits-merged e.htime pp k e.lex h.entries s (merge_point-later e.htime hint h s) o))
    ]

abbrev TimedHistory : History → Type 0
TimedHistory h = Timed h.entries

hremove-Timed : (pp : ℕ) (h : History) → TimedHistory h → TimedHistory (hremove pp h)
unfolding hremove
hremove-Timed pp h s = remove_at-Timed pp h.entries s

enter-Timed :
    (now event : ℕ) (lp : List Str) (hint : Option ℕ) (h : History)
    → TimedHistory h
    → TimedHistory (enter now event lp true hint h)
unfolding enter
enter-Timed now event lp hint h s =
    merge_in-Timed (record { lex = lp; hnum = event; href = event; htime = time_of now h }) hint
      (record h { stamp = 0 }) s

-- The values of $histdup with which an entry that stays keeps its time.
abbrev pub keeps_times : HistDup → Bool
keeps_times dup_keep = true
keeps_times dup_erase = true
keeps_times d = false

enthist-Timed :
    (now : ℕ) (dup : HistDup) (found : Option ℕ) (event : ℕ) (lp : List Str) (h : History)
    → keeps_times dup ≡ true
    → TimedHistory h
    → TimedHistory (enthist now dup found event lp true h)
unfolding enthist
enthist-Timed now dup_keep found event lp h d s = enter-Timed now event lp none h s
enthist-Timed now dup_erase none event lp h d s = enter-Timed now event lp none h s
enthist-Timed now dup_erase (some pp) event lp h d s =
    enter-Timed now event lp (erase_hint true (erase_stamp pp h) pp h) (erase_old pp h)
      (hremove-Timed pp (record h { stamp = erase_stamp pp h }) s)
enthist-Timed now dup_all found event lp h d s = absurd (ground (arith, d))
enthist-Timed now dup_prev found event lp h d s = absurd (ground (arith, d))

-- Where commands are merged and $histdup is not set, or `erase`, the list stays in the order of its
-- times, with the latest first.
pub savehist-Timed :
    (now : ℕ) (dup : HistDup) (found : Option ℕ) (hlen : ℕ) (lp : Option (List Str)) (h : History)
    → keeps_times dup ≡ true
    → Timed h.entries
    → Timed (savehist now dup found hlen lp true h).entries
unfolding savehist
savehist-Timed now dup found hlen none h d s =
    discard_excess-Kept TimedHistory hremove-Timed hlen h s
savehist-Timed now dup found hlen (some lp) h d s = if_history TimedHistory (is_null_line lp) s (
    discard_excess-Kept TimedHistory hremove-Timed hlen _
      (enthist-Timed now dup found (suc h.eventno) lp (record h { eventno = suc h.eventno }) d s))
