-- ===== src/Hist/Enter.antt =====
-- sh.hist.c: `enthist`, with the place where a merge inserts, and `savehist`.
use mcsh.Base.{
  ℕ, zero, suc, ◌+◌, ◌-◌, Bool, false, not, ◌&&◌, Option, none, some, List, [], ◌∷◌, ◌==◌, ltb, leb,
  if◌then◌else◌, Str, char0, length, drop,
}
use mcsh.Hist.{Entry, Entries, History, Entries, heq, time_at, hinsert, hremove, discard_excess}

-- The value of $histdup.
pub data HistDup : Type 0 where
  dup_keep dup_erase dup_all dup_prev : HistDup

-- `mergeInsertionPoint`: up the list from a hint, and down to the last later entry.
unfoldable pub search_up : ℕ → ℕ → Entries → ℕ
unfolding time_at
search_up t zero es = zero
search_up t (suc i) es =
    let rest = search_up t i es in if leb (time_at (suc i) es) t then rest else suc i

unfoldable pub later : ℕ → Entries → ℕ
later t [] = 0
later t (e ∷ es) = if ltb t e.htime then suc (later t es) else 0

abbrev pub hint_tail : ℕ → Option ℕ → Entries → Option ℕ
hint_tail t hint es = if leb t (time_at (length es) es) then some (length es) else hint

abbrev pub hint_merged : ℕ → Option ℕ → Option ℕ → Entries → Option ℕ
hint_merged t none hint es = hint
hint_merged t (some m) hint es =
    if leb m 1
    then hint
    else if leb t (time_at m es)
    then some m
    else if leb t (time_at (m - 1) es)
    then some (m - 1)
    else hint

unfoldable pub start_of : ℕ → Option ℕ → Entries → ℕ
unfolding search_up
start_of t none es = 0
start_of t (some i) es = search_up t i es

unfoldable pub merge_point : ℕ → Option ℕ → History → ℕ
unfolding later
merge_point t hint h =
    let up = start_of t (hint_merged t h.merged (hint_tail t hint h.entries) h.entries) h.entries in
    up + later t (drop up h.entries)

-- Past the entries with the same time; none where one of them has the same words.
unfoldable pub past_equal : ℕ → List Str → Entries → Option ℕ
past_equal t lp [] = some 0
past_equal t lp (e ∷ es) =
    let rest = past_equal t lp es in
    if not (e.htime == t)
    then some 0
    else if heq e.lex lp
    then none
    else elim rest [ none ↦ none | some k ↦ some (suc k) ]

-- The numbers of an entry for another's.
abbrev pub renumber : Entry → Entry → Entry
renumber e d = record e { hnum = d.hnum; href = d.href }

-- `bubbleHnumHrefDown` through as many entries, and the insertion behind them.
unfoldable pub bubble : ℕ → Entry → Entries → Entry × Entries
bubble zero e es = (e, es)
bubble (suc i) e [] = (e, [])
bubble (suc i) e (d ∷ es) = let rest = bubble i (renumber e d) es in (rest.0, renumber d e ∷ rest.1)

abbrev pub bubble_in : ℕ → Entry → History → History
bubble_in pp e h = let r = bubble pp e h.entries in hinsert r.0 pp (record h { entries = r.1 })

abbrev pub merge_in : Entry → Option ℕ → History → History
merge_in e hint h =
    let pp = merge_point e.htime hint h in
    let h = record h { merged = some pp } in
    elim (past_equal e.htime e.lex (drop pp h.entries)) [
      | none ↦ record h { eventno = h.eventno - 1 }
      | some k ↦ bubble_in (pp + k) e h
    ]

-- `Htime`, or the time that it is now.
abbrev pub time_of : ℕ → History → ℕ
time_of now h = if h.stamp == 0 then now else h.stamp

unfoldable pub set_time : ℕ → ℕ → Entries → Entries
set_time i t [] = []
set_time zero t (e ∷ es) = record e { htime = t } ∷ es
set_time (suc i) t (e ∷ es) = e ∷ set_time i t es

-- `enthist` with a new entry, and with one that is there already.
unfoldable pub enter : ℕ → ℕ → List Str → Bool → Option ℕ → History → History
unfolding hinsert merge_point past_equal bubble
enter now event lp mflg hint h =
    let e : Entry = record { lex = lp; hnum = event; href = event; htime = time_of now h } in
    let h = record h { stamp = 0 } in if mflg then merge_in e hint h else hinsert e 0 h

unfoldable pub reuse : ℕ → ℕ → History → History
unfolding set_time
reuse now pp h = record h {
  entries = set_time pp (time_of now h) h.entries;
  eventno = h.eventno - 1;
  stamp = 0;
}

-- The old entry behind `pp` is removed; a saved time that is earlier than its time becomes that, and
-- the entry before it is a hint where a merge wants the place.
abbrev pub erase_stamp : ℕ → History → ℕ
erase_stamp pp h =
    let t = time_at (suc pp) h.entries in if not (h.stamp == 0) && ltb h.stamp t then t else h.stamp

abbrev pub erase_hint : Bool → ℕ → ℕ → History → Option ℕ
erase_hint mflg stamp pp h =
    if mflg && not (stamp == 0) && leb stamp (time_at pp h.entries) then some pp else none

abbrev pub erase_old : ℕ → History → History
erase_old pp h = hremove pp (record h { stamp = erase_stamp pp h })

abbrev pub is_latest : List Str → Entries → Bool
is_latest lp [] = false
is_latest lp (e ∷ es) = heq lp e.lex

-- `found` is what `findHistHashTable` gives: the position before an entry with the same words.
unfoldable pub enthist : ℕ → HistDup → Option ℕ → ℕ → List Str → Bool → History → History
unfolding enter reuse hremove
enthist now dup_keep found event lp mflg h = enter now event lp mflg none h
enthist now dup_erase none event lp mflg h = enter now event lp mflg none h
enthist now dup_erase (some pp) event lp mflg h =
    enter now event lp mflg (erase_hint mflg (erase_stamp pp h) pp h) (erase_old pp h)
enthist now dup_all none event lp mflg h = enter now event lp mflg none h
enthist now dup_all (some pp) event lp mflg h = reuse now pp h
enthist now dup_prev found event lp mflg h =
    if is_latest lp h.entries then reuse now 0 h else enter now event lp mflg none h

-- A line with no word of its own starts with the newline.
abbrev pub is_null_line : List Str → Bool
is_null_line [] = false
is_null_line (w ∷ ws) = char0 w == 10

unfoldable pub savehist : ℕ → HistDup → Option ℕ → ℕ → Option (List Str) → Bool → History → History
unfolding enthist discard_excess
savehist now dup found hlen none mflg h = discard_excess hlen h
savehist now dup found hlen (some lp) mflg h =
    if is_null_line lp
    then h
    else discard_excess hlen
        (enthist now dup found (suc h.eventno) lp mflg (record h { eventno = suc h.eventno }))
