-- ===== src/Hist/Distinct.antt =====
-- sh.hist.c: that no command is twice in the list, with $histdup `erase` or `all`.
use mcsh.Base.{
  ℕ, zero, suc, ◌+◌, Bool, true, false, ◌||◌, if◌then◌else◌, Option, none, some, List, [], ◌∷◌, Str,
  eq_iff, drop, ◌≡◌, refl, ◌↔◌, arith, Option-cases, inl, inr, ap, ◌∙◌,
}
use mcsh.Hist.{Entry, Entries, History, heq, insert_at, remove_at, hinsert, hremove}
use mcsh.Hist.Enter.{
  HistDup, dup_keep, dup_erase, dup_all, dup_prev, bubble, renumber, past_equal, merge_point,
  merge_in, time_of, set_time, enter, reuse, erase_hint, erase_stamp, erase_old, is_null_line,
  enthist, savehist,
}
use mcsh.Hist.Kept.{if_history, discard_excess-Kept}

abbrev pub has_words : List Str → Entries → Bool
has_words lp [] = false
has_words lp (e ∷ es) = heq lp e.lex || has_words lp es

-- The position before the first entry with the words.
abbrev pub first_equal : List Str → Entries → Option ℕ
first_equal lp [] = none
first_equal lp (e ∷ es) =
    if heq lp e.lex
    then some 0
    else elim (first_equal lp es) [ none ↦ none | some i ↦ some (suc i) ]

abbrev pub Distinct : Entries → Type 0
Distinct [] = Unit
Distinct (e ∷ es) = (has_words e.lex es ≡ false) × Distinct es

heq_iff : (a b : List Str) → (heq a b ≡ true) ↔ (a ≡ b)
heq_iff [] [] = ground arith
heq_iff [] (w ∷ b) = ground arith
heq_iff (v ∷ a) [] = ground arith
heq_iff (v ∷ a) (w ∷ b) = ground (arith, eq_iff v w, heq_iff a b)

heq_sym : (a b : List Str) → heq a b ≡ heq b a
heq_sym a b = ground (arith, heq_iff a b, heq_iff b a)

first_equal-none :
    (lp : List Str) (es : Entries) → first_equal lp es ≡ none → has_words lp es ≡ false
first_equal-none lp [] q = refl
first_equal-none lp (e ∷ es) q = ground (arith, q, first_equal-none lp es)

has_words-remove_at :
    (lp : List Str) (i : ℕ) (es : Entries)
    → has_words lp es ≡ false
    → has_words lp (remove_at i es) ≡ false
unfolding remove_at
has_words-remove_at lp i [] q = refl
has_words-remove_at lp zero (e ∷ es) q = ground (arith, q)
has_words-remove_at lp (suc i) (e ∷ es) q = ground (arith, q, has_words-remove_at lp i es)

first_here :
    (lp : List Str) (e : Entry) (es : Entries)
    → first_equal lp (e ∷ es) ≡ some 0
    → heq lp e.lex ≡ true
first_here lp e es q = ground (arith, q)

-- With the one entry that has the words gone, none has them.
has_words-removed :
    (lp : List Str) (i : ℕ) (es : Entries)
    → Distinct es
    → first_equal lp es ≡ some i
    → has_words lp (remove_at i es) ≡ false
unfolding remove_at
has_words-removed lp i [] d q = refl
has_words-removed lp zero (e ∷ es) d q =
    ap (λ w. has_words w es) ((heq_iff lp e.lex).0 (first_here lp e es q)) ∙ d.0
has_words-removed lp (suc i) (e ∷ es) d q = ground (arith, q, has_words-removed lp i es d.1)

remove_at-Distinct : (i : ℕ) (es : Entries) → Distinct es → Distinct (remove_at i es)
unfolding remove_at
remove_at-Distinct i [] d = tt
remove_at-Distinct zero (e ∷ es) d = d.1
remove_at-Distinct (suc i) (e ∷ es) d =
    (has_words-remove_at e.lex i es d.0, remove_at-Distinct i es d.1)

has_words-bubble :
    (lp : List Str) (i : ℕ) (e : Entry) (es : Entries)
    → heq lp e.lex ≡ false
    → has_words lp es ≡ false
    → (let r = bubble i e es in has_words lp (insert_at i r.0 r.1) ≡ false)
unfolding bubble insert_at
has_words-bubble lp zero e es n q = ground (arith, n, q)
has_words-bubble lp (suc i) e [] n q = ground (arith, n)
has_words-bubble lp (suc i) e (d ∷ es) n q =
    ground (arith, q, has_words-bubble lp i (renumber e d) es n)

bubble-Distinct :
    (i : ℕ) (e : Entry) (es : Entries)
    → has_words e.lex es ≡ false
    → Distinct es
    → (let r = bubble i e es in Distinct (insert_at i r.0 r.1))
unfolding bubble insert_at
bubble-Distinct zero e es q d = (q, d)
bubble-Distinct (suc i) e [] q d = (refl, tt)
bubble-Distinct (suc i) e (c ∷ es) q d = (
  has_words-bubble c.lex i (renumber e c) es (ground (arith, q, heq_sym c.lex e.lex)) d.0,
  bubble-Distinct i (renumber e c) es (ground (arith, q)) d.1,
)

merge_in-Distinct :
    (e : Entry) (hint : Option ℕ) (h : History)
    → has_words e.lex h.entries ≡ false
    → Distinct h.entries
    → Distinct (merge_in e hint h).entries
unfolding hinsert
merge_in-Distinct e hint h q d =
    let pp = merge_point e.htime hint h in
    elim (Option-cases (past_equal e.htime e.lex (drop pp h.entries))) [
      | inl o ↦ rw (o, merge_in) d
      | inr (k, o) ↦ rw (o, merge_in) (bubble-Distinct (pp + k) e h.entries q d)
    ]

abbrev DistinctHistory : History → Type 0
DistinctHistory h = Distinct h.entries

hremove-Distinct : (pp : ℕ) (h : History) → DistinctHistory h → DistinctHistory (hremove pp h)
unfolding hremove
hremove-Distinct pp h d = remove_at-Distinct pp h.entries d

insert_first-Distinct :
    (e : Entry) (h : History)
    → has_words e.lex h.entries ≡ false
    → DistinctHistory h
    → DistinctHistory (hinsert e 0 h)
unfolding hinsert insert_at
insert_first-Distinct e h q d = (q, d)

enter-Distinct :
    (now event : ℕ) (lp : List Str) (mflg : Bool) (hint : Option ℕ) (h : History)
    → has_words lp h.entries ≡ false
    → DistinctHistory h
    → DistinctHistory (enter now event lp mflg hint h)
unfolding enter
enter-Distinct now event lp mflg hint h q d =
    let e : Entry = record { lex = lp; hnum = event; href = event; htime = time_of now h } in
    if_history DistinctHistory mflg (merge_in-Distinct e hint (record h { stamp = 0 }) q d)
      (insert_first-Distinct e (record h { stamp = 0 }) q d)

has_words-set_time :
    (lp : List Str) (i t : ℕ) (es : Entries) → has_words lp (set_time i t es) ≡ has_words lp es
unfolding set_time
has_words-set_time lp i t [] = refl
has_words-set_time lp zero t (e ∷ es) = refl
has_words-set_time lp (suc i) t (e ∷ es) =
    ap (λ b. heq lp e.lex || b) (has_words-set_time lp i t es)

set_time-Distinct : (i t : ℕ) (es : Entries) → Distinct es → Distinct (set_time i t es)
unfolding set_time
set_time-Distinct i t [] d = tt
set_time-Distinct zero t (e ∷ es) d = d
set_time-Distinct (suc i) t (e ∷ es) d =
    (has_words-set_time e.lex i t es ∙ d.0, set_time-Distinct i t es d.1)

-- The values of $histdup that look a command up in the whole list.
abbrev pub looks_up : HistDup → Bool
looks_up dup_erase = true
looks_up dup_all = true
looks_up dup = false

enthist-Distinct :
    (now : ℕ) (dup : HistDup) (found : Option ℕ) (event : ℕ) (lp : List Str) (mflg : Bool)
    (h : History)
    → looks_up dup ≡ true
    → first_equal lp h.entries ≡ found
    → DistinctHistory h
    → DistinctHistory (enthist now dup found event lp mflg h)
unfolding enthist reuse hremove
enthist-Distinct now dup_erase none event lp mflg h l q d =
    enter-Distinct now event lp mflg none h (first_equal-none lp h.entries q) d
enthist-Distinct now dup_erase (some pp) event lp mflg h l q d =
    enter-Distinct now event lp mflg (erase_hint mflg (erase_stamp pp h) pp h) (erase_old pp h)
      (has_words-removed lp pp h.entries d q) (remove_at-Distinct pp h.entries d)
enthist-Distinct now dup_all none event lp mflg h l q d =
    enter-Distinct now event lp mflg none h (first_equal-none lp h.entries q) d
enthist-Distinct now dup_all (some pp) event lp mflg h l q d =
    set_time-Distinct pp (time_of now h) h.entries d
enthist-Distinct now dup_keep found event lp mflg h l q d = absurd (ground (arith, l))
enthist-Distinct now dup_prev found event lp mflg h l q d = absurd (ground (arith, l))

-- With $histdup `erase` or `all`, where the hash table finds the entry that has the words, or nothing
-- where none has them: no command comes to be in the list twice, with a merge or without.
pub savehist-Distinct :
    (now : ℕ) (dup : HistDup) (found : Option ℕ) (hlen : ℕ) (lp : List Str) (mflg : Bool)
    (h : History)
    → looks_up dup ≡ true
    → first_equal lp h.entries ≡ found
    → Distinct h.entries
    → Distinct (savehist now dup found hlen (some lp) mflg h).entries
unfolding savehist
savehist-Distinct now dup found hlen lp mflg h l q d =
    if_history DistinctHistory (is_null_line lp) d (
      discard_excess-Kept DistinctHistory hremove-Distinct hlen _ (
        enthist-Distinct now dup found (suc h.eventno) lp mflg
          (record h { eventno = suc h.eventno }) l q d))
