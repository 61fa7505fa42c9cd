-- ===== src/Hist/Merge.antt =====
-- sh.hist.c: where `mergeInsertionPoint` leads to.
pub mod Timed
use mcsh.Base.{
  ℕ, zero, suc, ◌+◌, ◌-◌, ◌<◌, ◌≤◌, Bool, true, false, ◌==◌, leb, ltb, if◌then◌else◌, Option, none,
  some, List, [], ◌∷◌, Str, length, drop, ◌≡◌, refl, ◌⊎◌, inl, inr, arith, Bool-cases, ◌∙◌,
  Option-cases, ap, leb-false→lt,
}
use mcsh.Hist.{Entry, Entries, History, time_at}
use mcsh.Hist.Enter.{search_up, later, hint_tail, hint_merged, start_of, merge_point}

-- The times do not rise from entry to entry.
unfoldable pub Timed : Entries → Type 0
Timed [] = Unit
Timed (e ∷ es) = (time_at 1 es ≤ e.htime) × Timed es

pub time_at-bound :
    (i : ℕ) (e : Entry) (es : Entries) → Timed (e ∷ es) → time_at (suc i) es ≤ e.htime
unfolding Timed time_at
time_at-bound i e [] s = omega arith
time_at-bound zero e (d ∷ es) s = s.0
time_at-bound (suc i) e (d ∷ es) s = omega (arith, s.0, time_at-bound i d es s.1)

-- An entry that is later than a time has only later ones before it.
later-drop :
    (t i : ℕ) (es : Entries)
    → Timed es
    → (i ≡ 0) ⊎ (t < time_at i es)
    → i + later t (drop i es) ≡ later t es
unfolding later time_at Timed
later-drop t zero es s p = omega arith
later-drop t (suc i) [] s p = absurd (ground (arith, p))
later-drop t (suc zero) (e ∷ es) s p = ground (arith, p)
later-drop t (suc (suc i)) (e ∷ es) s p =
    ground (arith, p, time_at-bound i e es s, later-drop t (suc i) es s.1)

search_up-later :
    (t i : ℕ) (es : Entries) → (search_up t i es ≡ 0) ⊎ (t < time_at (search_up t i es) es)
unfolding search_up
search_up-later t zero es = inl refl
search_up-later t (suc i) es = elim (Bool-cases (leb (time_at (suc i) es) t)) [
  | inl e ↦ rw (e, search_up) (search_up-later t i es)
  | inr e ↦ rw (e, search_up) (inr (leb-false→lt (time_at (suc i) es) t e))
]

start_of-later :
    (t : ℕ) (hint : Option ℕ) (es : Entries)
    → Timed es
    → (let up = start_of t hint es in up + later t (drop up es) ≡ later t es)
unfolding start_of
start_of-later t none es s = later-drop t 0 es s (inl refl)
start_of-later t (some i) es s = later-drop t (search_up t i es) es s (search_up-later t i es)

-- On a list in the order of its times, with the latest first, a merge inserts behind the entries that
-- are later, whatever hint it is given and whatever position is remembered from the last merge.
pub merge_point-later :
    (t : ℕ) (hint : Option ℕ) (h : History)
    → Timed h.entries
    → merge_point t hint h ≡ later t h.entries
unfolding merge_point
merge_point-later t hint h s =
    start_of-later t (hint_merged t h.merged (hint_tail t hint h.entries) h.entries) h.entries s
