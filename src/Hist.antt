-- ===== src/Hist.antt =====
-- sh.hist.c: the history list, the latest command first. A pointer to an entry is its position, from 1
-- on; position 0 is `Histlist`, whose fields are zero.
pub mod Enter
pub mod Kept
pub mod Numbered
pub mod Excess
pub mod Distinct
pub mod Hash
pub mod Merge
use mcsh.Base.{
  ℕ, zero, suc, ◌+◌, ◌-◌, ◌/◌, ◌%◌, Bool, true, false, not, ◌&&◌, ◌||◌, Option, none, some, List,
  [], ◌∷◌, ◌==◌, ltb, leb, if◌then◌else◌, Str, eq, char0, length, drop,
}

-- `struct Hist`: the words, the numbers of the event and the time.
pub record Entry : Type 0 where
  pub lex : List Str
  pub hnum : ℕ
  pub href : ℕ
  pub htime : ℕ

abbrev pub Entries : Type 0
Entries = List Entry

-- The list with `eventno`, `Htime` and `histMerg`. `histCount` is the length of the list and
-- `histTail` its last position.
pub record History : Type 0 where
  pub entries : Entries
  pub eventno : ℕ
  pub stamp : ℕ
  pub merged : Option ℕ

-- `heq`
abbrev pub heq : List Str → List Str → Bool
heq [] [] = true
heq [] (w ∷ ws) = false
heq (v ∷ vs) [] = false
heq (v ∷ vs) (w ∷ ws) = eq v w && heq vs ws

-- `Htime` of the entry at a position, and `Href` of the one behind it.
unfoldable pub time_at : ℕ → Entries → ℕ
time_at zero es = 0
time_at (suc i) [] = 0
time_at (suc zero) (e ∷ es) = e.htime
time_at (suc (suc i)) (e ∷ es) = time_at (suc i) es

unfoldable pub ref_at : ℕ → Entries → ℕ
ref_at i [] = 0
ref_at zero (e ∷ es) = e.href
ref_at (suc i) (e ∷ es) = ref_at i es

unfoldable pub insert_at : ℕ → Entry → Entries → Entries
insert_at zero e es = e ∷ es
insert_at (suc i) e [] = e ∷ []
insert_at (suc i) e (d ∷ es) = d ∷ insert_at i e es

-- The entry behind a position is taken out.
unfoldable pub remove_at : ℕ → Entries → Entries
remove_at i [] = []
remove_at zero (e ∷ es) = es
remove_at (suc i) (e ∷ es) = e ∷ remove_at i es

abbrev pub merged_inserted : ℕ → Option ℕ → Option ℕ
merged_inserted pp none = none
merged_inserted pp (some m) = some (if ltb pp m then suc m else m)

abbrev pub merged_removed : ℕ → Option ℕ → Option ℕ
merged_removed pp none = none
merged_removed pp (some m) = if m == suc pp then none else some (if ltb pp m then m - 1 else m)

unfoldable pub hinsert : Entry → ℕ → History → History
unfolding insert_at
hinsert e pp h = record h {
  entries = insert_at pp e h.entries;
  merged = merged_inserted pp h.merged;
}

-- The entry behind the position `pp` is removed.
unfoldable pub hremove : ℕ → History → History
unfolding remove_at
hremove pp h = record h { entries = remove_at pp h.entries; merged = merged_removed pp h.merged }

-- `histCount > (unsigned)hlen` and `eventno - np->Href >= hlen || hlen == 0`, for the entry behind `pp`.
abbrev pub too_long : ℕ → History → Bool
too_long hlen h = ltb hlen (length h.entries)

unfoldable pub is_excess : ℕ → ℕ → History → Bool
unfolding ref_at
is_excess hlen pp h = leb hlen (h.eventno - ref_at pp h.entries) || hlen == 0

-- The first two loops of `discardExcess`; each turn takes an entry out.
unfoldable pub prune_front : ℕ → ℕ → History → History
prune_front zero hlen h = h
prune_front (suc fuel) hlen h =
    let rest = prune_front fuel hlen (hremove 0 h) in
    if too_long hlen h && is_excess hlen 0 h then rest else h

unfoldable pub prune_back : ℕ → ℕ → History → History
prune_back zero hlen h = h
prune_back (suc fuel) hlen h =
    let last = length h.entries - 1 in
    let rest = prune_back fuel hlen (hremove last h) in
    if too_long hlen h && is_excess hlen last h then rest else h

-- The third loop, with the position of `hp`.
abbrev pub scan_entry : ℕ → ℕ → History → ℕ × History
scan_entry hlen pp h = if is_excess hlen pp h then (pp, hremove pp h) else (suc pp, h)

unfoldable pub scan : ℕ → ℕ → ℕ → History → History
scan zero hlen pp h = h
scan (suc fuel) hlen pp h =
    let rest = scan fuel hlen (scan_entry hlen pp h).0 (scan_entry hlen pp h).1 in
    if too_long hlen h && ltb pp (length h.entries) then rest else h

-- `histCount - (hlen >> 4)`, without sign.
abbrev pub over : ℕ → ℕ → ℕ
over count hlen = (count + 4294967296 - hlen / 16) % 4294967296

abbrev pub scan_excess : ℕ → History → History
scan_excess hlen h =
    if leb (over (length h.entries) hlen) hlen then h else scan (length h.entries) hlen 0 h

unfoldable pub discard_excess : ℕ → History → History
discard_excess hlen h =
    let front = prune_front (length h.entries) hlen h in
    scan_excess hlen (prune_back (length front.entries) hlen front)
