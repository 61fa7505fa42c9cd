-- ===== src/Sched/Order.antt =====
-- tc.sched.c: the order of the events, and their times of day.
use mcsh.Base.{
  ℕ, zero, suc, ◌+◌, ◌*◌, ◌≤◌, ◌<◌, Bool, true, false, not, ◌&&◌, Option, none, some, List, [], ◌∷◌,
  ◌==◌, leb, if◌then◌else◌, Str, All, arith, ◌≡◌, ◌⊎◌, refl, char0, ◌||◌, ℤ, pos, negsuc, is_digit,
  leb→le,
}
use mcsh.Sched.{
  Event, Events, Clock, Outcome, changed, failed, remove_at, remove_event, insert, difference,
  add_event, dosched, sched_time, sched_rel, sched_ev, sched_usage, sched_com, atoi, minutes_of,
  in_day, due, drop_until, is_half,
}

-- Every event is due no earlier than those in front of it.
unfoldable pub Sorted : Events → Type 0
Sorted [] = Unit
Sorted (e ∷ es) = All (λ d. e.when ≤ d.when) es × Sorted es

abbrev pub SortedOutcome : Outcome → Type 0
SortedOutcome (changed es) = Sorted es
SortedOutcome o = Unit

All-weaken : (m n : ℕ) (es : Events) → m ≤ n → All (λ d. n ≤ d.when) es → All (λ d. m ≤ d.when) es
All-weaken m n [] l h = tt
All-weaken m n (d ∷ es) l h = (omega (arith, h.0), All-weaken m n es l h.1)

if_events :
    (P : Events → Type 0) (b : Bool) (x y : Events)
    → (b ≡ true → P x)
    → (b ≡ false → P y)
    → P (if b then x else y)
if_events P true x y p q = p refl
if_events P false x y p q = q refl

All-insert :
    (m : ℕ) (e : Event) (es : Events)
    → m ≤ e.when
    → All (λ d. m ≤ d.when) es
    → All (λ d. m ≤ d.when) (insert e es)
unfolding insert
All-insert m e [] l h = (l, tt)
All-insert m e (d ∷ es) l h =
    if_events (All λ d. m ≤ d.when) (leb d.when e.when) (d ∷ insert e es) (e ∷ d ∷ es)
      (λ b. (h.0, All-insert m e es l h.1)) λ b. (l, h)

leb-false : (m n : ℕ) → leb m n ≡ false → n ≤ m
leb-false m n h = ground arith

insert-Sorted : (e : Event) (es : Events) → Sorted es → Sorted (insert e es)
unfolding insert Sorted
insert-Sorted e [] h = (tt, tt)
insert-Sorted e (d ∷ es) h =
    if_events Sorted (leb d.when e.when) (d ∷ insert e es) (e ∷ d ∷ es)
      (λ b. (All-insert d.when e es (leb→le d.when e.when b) h.0, insert-Sorted e es h.1))
      λ b. (
        (leb-false d.when e.when b, All-weaken e.when d.when es (leb-false d.when e.when b) h.0),
        h,
      )

abbrev SortedOption : Option Events → Type 0
SortedOption none = Unit
SortedOption (some es) = Sorted es

abbrev NoEarlier : ℕ → Option Events → Type 0
NoEarlier m none = Unit
NoEarlier m (some es) = All (λ d. m ≤ d.when) es

cons_NoEarlier :
    (m : ℕ) (e : Event) (o : Option Events)
    → m ≤ e.when
    → NoEarlier m o
    → NoEarlier m (elim o [ none ↦ none | some rest ↦ some (e ∷ rest) ])
cons_NoEarlier m e none l h = tt
cons_NoEarlier m e (some rest) l h = (l, h)

remove_at-NoEarlier :
    (m n : ℕ) (es : Events) → All (λ d. m ≤ d.when) es → NoEarlier m (remove_at n es)
unfolding remove_at
remove_at-NoEarlier m n [] h = tt
remove_at-NoEarlier m zero (e ∷ es) h = h.1
remove_at-NoEarlier m (suc n) (e ∷ es) h =
    cons_NoEarlier m e (remove_at n es) h.0 (remove_at-NoEarlier m n es h.1)

cons_SortedOption :
    (e : Event) (o : Option Events)
    → NoEarlier e.when o
    → SortedOption o
    → SortedOption (elim o [ none ↦ none | some rest ↦ some (e ∷ rest) ])
unfolding Sorted
cons_SortedOption e none l h = tt
cons_SortedOption e (some rest) l h = (l, h)

remove_at-Sorted : (n : ℕ) (es : Events) → Sorted es → SortedOption (remove_at n es)
unfolding remove_at Sorted
remove_at-Sorted n [] h = tt
remove_at-Sorted zero (e ∷ es) h = h.1
remove_at-Sorted (suc n) (e ∷ es) h =
    cons_SortedOption e (remove_at n es) (remove_at-NoEarlier e.when n es h.0)
      (remove_at-Sorted n es h.1)

remove_event-Sorted :
    (cp : Str) (v : List Str) (es : Events) → Sorted es → SortedOutcome (remove_event cp v es)
unfolding remove_event
remove_event-Sorted cp v [] h = tt
remove_event-Sorted cp (w ∷ v) (e ∷ es) h = tt
remove_event-Sorted cp [] (e ∷ es) h = go (atoi cp)
  where
    found :
        (o : Option Events)
        → SortedOption o
        → SortedOutcome (elim o [ none ↦ failed sched_ev | some rest ↦ changed rest ])
    found none p = tt
    found (some rest) p = p

    go :
        (z : ℤ)
        → SortedOutcome (elim z [
          | negsuc n ↦ failed sched_usage
          | pos zero ↦ failed sched_usage
          | pos (suc n) ↦ elim (remove_at n (e ∷ es)) [
            | none ↦ failed sched_ev
            | some rest ↦ changed rest
          ]
        ])
    go (negsuc n) = tt
    go (pos zero) = tt
    go (pos (suc n)) = found (remove_at n (e ∷ es)) (remove_at-Sorted n (e ∷ es) h)

if_outcome :
    (b : Bool) (x y : Outcome)
    → SortedOutcome x
    → SortedOutcome y
    → SortedOutcome (if b then x else y)
if_outcome true x y p q = p
if_outcome false x y p q = q

add_event-Sorted :
    (c : Clock) (relative : Bool) (cp : Str) (v : List Str) (es : Events)
    → Sorted es
    → SortedOutcome (add_event c relative cp v es)
unfolding add_event
add_event-Sorted c relative cp v es h = go (in_day (atoi cp) t.0)
  where
    t : ℤ × Str
    t = minutes_of (drop_until (λ x. x == b':' || is_half x) cp)

    half : ℕ
    half = char0 (drop_until is_half t.1)

    go :
        (o : Option (ℕ × ℕ))
        → SortedOutcome (elim o [
          | none ↦ failed sched_time
          | some (h, m) ↦
              if not (half == 0) && relative
              then failed sched_rel
              else (let hours = if half == b'p' then h + 12 else h in
                  let dif = if relative then (hours, m) else difference c hours m in
                  changed (insert (record { when = due c dif; lex = v }) es))
        ])
    go none = tt
    go (some (k, m)) = if_outcome (not (half == 0) && relative) _ _ tt (insert-Sorted _ es h)

-- `sched` keeps the events in the order of their times, whichever way it ends.
pub dosched-Sorted :
    (c : Clock) (v : List Str) (es : Events) → Sorted es → SortedOutcome (dosched c v es)
unfolding dosched
dosched-Sorted c [] es h = tt
dosched-Sorted c (cp ∷ v) es h =
    if_outcome (char0 cp == b'-') _ _ (remove_event-Sorted (elim cp [ [] ↦ [] | x ∷ s ↦ s ]) v es h)
      (go v)
  where
    go :
        (v : List Str)
        → SortedOutcome (elim v [
          | [] ↦ failed sched_com
          | w ∷ ws ↦
              if is_digit (char0 cp)
              then add_event c false cp (w ∷ ws) es
              else if char0 cp == b'+'
              then add_event c true (elim cp [ [] ↦ [] | x ∷ s ↦ s ]) (w ∷ ws) es
              else failed sched_usage
        ])
    go [] = tt
    go (w ∷ ws) = if_outcome (is_digit (char0 cp)) _ _ (add_event-Sorted c false cp (w ∷ ws) es h) (
        if_outcome (char0 cp == b'+') _ _
          (add_event-Sorted c true (elim cp [ [] ↦ [] | x ∷ s ↦ s ]) (w ∷ ws) es h) tt)

-- The hours and minutes until a time of day, for a local time and a time of day that are in their
-- ranges: with them the clock shows `hours:minutes`, today or a day later. They are below 24 hours
-- and below 60 minutes.
pub difference-clock :
    (c : Clock) (hours minutes : ℕ)
    → c.tm_hour < 24
    → c.tm_min < 60
    → hours < 24
    → minutes < 60
    → (let dif = difference c hours minutes in
        let due = c.tm_hour * 60 + c.tm_min + (dif.0 * 60 + dif.1) in
        ((due ≡ hours * 60 + minutes) ⊎ (due ≡ hours * 60 + minutes + 1440))
        × ((dif.0 < 24) × (dif.1 < 60)))
unfolding difference
difference-clock c hours minutes p q r s = ground arith
