-- ===== src/Sched.antt =====
-- tc.sched.c: the list of scheduled events, and `sched`, which lists, removes and adds them.
use mcsh.Base.{
  ℕ, zero, suc, ◌+◌, ◌-◌, ◌*◌, ◌≤◌, ◌<◌, Bool, true, false, not, ◌&&◌, ◌||◌, Option, none, some,
  List, [], ◌∷◌, ◌==◌, ltb, leb, if◌then◌else◌, Str, codes, char0, is_digit, ℤ, pos, negsuc,
}
use mcsh.Number.{is_space, read_digits}
pub mod Order
pub mod Run

pub record Event : Type 0 where
  pub when : ℕ
  pub lex : List Str

-- `sched_ptr`
abbrev pub Events : Type 0
Events = List Event

-- `time` and `localtime`: the seconds since the epoch and the parts of the local time of day.
pub record Clock : Type 0 where
  pub cur_time : ℕ
  pub tm_hour : ℕ
  pub tm_min : ℕ
  pub tm_sec : ℕ

pub data Error : Type 0 where
  no_sched sched_usage sched_ev sched_com sched_time sched_rel : Error

pub data Outcome : Type 0 where
  listed : List (ℕ × Event) → Outcome
  changed : Events → Outcome
  failed : Error → Outcome

-- The C library's `atoi` on a number that an `int` holds.
unfoldable atoi_digits : Str → ℕ
unfolding read_digits
atoi_digits s = (read_digits 10 0 s).0

unfoldable atoi_sign : Str → ℤ
unfolding atoi_digits
atoi_sign [] = pos 0
atoi_sign (c ∷ s) =
    if c == b'-'
    then (elim (atoi_digits s) [ zero ↦ pos 0 | suc n ↦ negsuc n ])
    else if c == b'+'
    then pos (atoi_digits s)
    else pos (atoi_digits (c ∷ s))

unfoldable pub atoi : Str → ℤ
unfolding atoi_sign
atoi [] = pos 0
atoi (c ∷ s) = let rest = atoi s in if is_space c then rest else atoi_sign (c ∷ s)

-- The count starts at 1.
unfoldable pub number_from : ℕ → Events → List (ℕ × Event)
number_from n [] = []
number_from n (e ∷ es) = (n, e) ∷ number_from (suc n) es

-- `while (--count)` along the list, and the event there taken out; none if it ends first.
unfoldable pub remove_at : ℕ → Events → Option Events
remove_at n [] = none
remove_at zero (e ∷ es) = some es
remove_at (suc n) (e ∷ es) = elim (remove_at n es) [ none ↦ none | some rest ↦ some (e ∷ rest) ]

unfoldable pub remove_event : Str → List Str → Events → Outcome
unfolding atoi remove_at
remove_event cp v [] = failed no_sched
remove_event cp (w ∷ v) (e ∷ es) = failed sched_usage
remove_event cp [] (e ∷ es) = elim (atoi cp) [
  | negsuc n ↦ failed sched_usage
  | pos zero ↦ failed sched_usage
  | pos (suc n) ↦ elim (remove_at n (e ∷ es)) [ none ↦ failed sched_ev | some rest ↦ changed rest ]
]

-- The event goes behind those that are due no later.
unfoldable pub insert : Event → Events → Events
insert e [] = e ∷ []
insert e (d ∷ es) = let rest = insert e es in if leb d.when e.when then d ∷ rest else e ∷ d ∷ es

-- From the time of day to the hours and minutes until `hours:minutes`.
unfoldable pub difference : Clock → ℕ → ℕ → ℕ × ℕ
difference c hours minutes =
    let dif_hour = (if ltb hours c.tm_hour then hours + 24 - c.tm_hour else hours - c.tm_hour) in
    if ltb minutes c.tm_min
    then ((if dif_hour == 0 then 23 else dif_hour - 1), minutes + 60 - c.tm_min)
    else (dif_hour, minutes - c.tm_min)

abbrev pub due : Clock → ℕ × ℕ → ℕ
due c (dif_hour, dif_min) = c.cur_time - c.tm_sec + dif_hour * 3600 + dif_min * 60

abbrev pub drop_until : (ℕ → Bool) → Str → Str
drop_until stop [] = []
drop_until stop (c ∷ s) = let rest = drop_until stop s in if stop c then c ∷ s else rest

abbrev pub is_half : ℕ → Bool
is_half c = c == b'a' || c == b'p'

-- The minutes behind a `:`, and the text from them on.
unfoldable pub minutes_of : Str → ℤ × Str
unfolding atoi
minutes_of [] = (pos 0, [])
minutes_of (c ∷ cp) = if c == b':' then (atoi cp, cp) else (pos 0, c ∷ cp)

-- Whether `hours:minutes` stands for a time of day.
abbrev pub in_day : ℤ → ℤ → Option (ℕ × ℕ)
in_day (pos h) (pos m) = if ltb 23 h || ltb 59 m then none else some (h, m)
in_day h m = none

unfoldable pub add_event : Clock → Bool → Str → List Str → Events → Outcome
unfolding atoi minutes_of difference insert
add_event c relative cp v es =
    let (minutes, rest) = minutes_of (drop_until (λ x. x == b':' || is_half x) cp) in
    let half = char0 (drop_until is_half rest) in
    elim (in_day (atoi cp) minutes) [
      | none ↦ failed sched_time
      | some (h, m) ↦
          if not (half == 0) && relative
          then failed sched_rel
          else (let hours = if half == b'p' then h + 12 else h in
              let dif = if relative then (hours, m) else difference c hours m in
              changed (insert (record { when = due c dif; lex = v }) es))
    ]

-- `sched` with the words behind its name.
unfoldable pub dosched : Clock → List Str → Events → Outcome
unfolding add_event remove_event number_from
dosched c [] es = listed (number_from 1 es)
dosched c (cp ∷ v) es =
    if char0 cp == b'-' then remove_event (elim cp [ [] ↦ [] | x ∷ s ↦ s ]) v es else elim v [
      | [] ↦ failed sched_com
      | w ∷ ws ↦
          if is_digit (char0 cp)
          then add_event c false cp (w ∷ ws) es
          else if char0 cp == b'+'
          then add_event c true (elim cp [ [] ↦ [] | x ∷ s ↦ s ]) (w ∷ ws) es
          else failed sched_usage
    ]
