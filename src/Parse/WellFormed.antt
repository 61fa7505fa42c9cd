-- ===== src/Parse/WellFormed.antt =====
-- sh.parse.c: well formed trees, and how a level puts them together.
use mcsh.Base.{
  ◌≢◌, pos, ℕ, suc, ◌<◌, Bool, true, false, Option, none, some, List, [], ◌∷◌, ◌==◌, if◌then◌else◌,
  Str, char0, length, ◌≡◌, refl, arith, subst, sym,
}
use mcsh.Parse.Command.{
  SynError, bad_plps, null_com, SetErr, seterror, Redirects, Command, null, command, paren, pipe,
  and, or, list,
}
use mcsh.Parse.Simple.{Loop}
use mcsh.Parse.Words.{SplitsBelow, Keeps, Keeps-seterror, AllSaved, Saves, LoopOk}
use mcsh.Parse.Depth.{Flat}
use mcsh.Parse.Syntax.{
  Run, done, astray, out_of_fuel, then_run, Split, background, list_of, skip_empty, start,
}

-- A tree that can be executed: every command has a word and all its words, and no side of a pipe,
-- `&&` or `||` and no group is missing. Either side of a list may be, and the whole if `b` is true.
unfoldable pub WellFormed : Bool → Command → Type 0
WellFormed b null = b ≡ true
WellFormed b (command r av) = (0 < length av) × AllSaved av
WellFormed b (paren r t) = WellFormed false t
WellFormed b (pipe f s t) = WellFormed false s × WellFormed false t
WellFormed b (and f s t) = WellFormed false s × WellFormed false t
WellFormed b (or f s t) = WellFormed false s × WellFormed false t
WellFormed b (list f s t) = WellFormed true s × WellFormed true t

pub WellFormed-weaken : (t : Command) → WellFormed false t → WellFormed true t
unfolding WellFormed
WellFormed-weaken null h = refl
WellFormed-weaken (command r av) h = h
WellFormed-weaken (paren r t) h = h
WellFormed-weaken (pipe f s t) h = h
WellFormed-weaken (and f s t) h = h
WellFormed-weaken (or f s t) h = h
WellFormed-weaken (list f s t) h = h

pub WellFormed-background : (t : Command) → WellFormed false t → WellFormed true (background t)
unfolding WellFormed background
WellFormed-background null h = refl
WellFormed-background (command r av) h = h
WellFormed-background (paren r t) h = h
WellFormed-background (pipe f s t) h = h
WellFormed-background (and f s t) h = h
WellFormed-background (or f s t) h = h
WellFormed-background (list f s t) h = h

pub WellFormed-list_of :
    (s t : Command) → WellFormed false s → WellFormed true t → WellFormed false (list_of s t)
unfolding WellFormed
WellFormed-list_of s null p q = (refl, WellFormed-weaken s p)
WellFormed-list_of s (command r av) p q = (WellFormed-weaken s p, q)
WellFormed-list_of s (paren r t) p q = (WellFormed-weaken s p, q)
WellFormed-list_of s (pipe f t u) p q = (WellFormed-weaken s p, q)
WellFormed-list_of s (and f t u) p q = (WellFormed-weaken s p, q)
WellFormed-list_of s (or f t u) p q = (WellFormed-weaken s p, q)
WellFormed-list_of s (list f t u) p q = (WellFormed-weaken s p, q)

-- A run does not run out of fuel. Where it ends with no error there was none at its start, and the
-- tree is well formed. It goes astray only with an error.
abbrev pub Good : Bool → SetErr → Run → Type 0
Good b d (done t none) = (d ≡ none) × WellFormed b t
Good b d (done t (some e)) = Unit
Good b d (astray e) = e ≢ none
Good b d out_of_fuel = ⊥

pub Good-error :
    (b : Bool) (d : SetErr) (t : Command) (e : SetErr) (id : SynError)
    → Good b d (done t (seterror id e))
unfolding seterror
Good-error b d t none id = tt
Good-error b d t (some e) id = tt

-- The second half of a level that builds a node from two runs.
pub Good-second :
    (b₁ b₂ b₃ : Bool) (d e₁ : SetErr) (t₁ : Command) (r₂ : Run) (node : Command → Command → Command)
    → Good b₁ d (done t₁ e₁)
    → Good b₂ e₁ r₂
    → ((s t : Command) → WellFormed b₁ s → WellFormed b₂ t → WellFormed b₃ (node s t))
    → Good b₃ d (then_run r₂ λ t₂ e₂. done (node t₁ t₂) e₂)
Good-second b₁ b₂ b₃ d none t₁ (done t₂ none) node p q k = (p.0, k t₁ t₂ p.1 q.1)
Good-second b₁ b₂ b₃ d (some x) t₁ (done t₂ none) node p q k = cc (q.0)
Good-second b₁ b₂ b₃ d e₁ t₁ (done t₂ (some x)) node p q k = tt
Good-second b₁ b₂ b₃ d e₁ t₁ (astray e) node p q k = q
Good-second b₁ b₂ b₃ d e₁ t₁ out_of_fuel node p q k = q

Good-Kept : (b : Bool) (d : SetErr) (t : Command) (e : SetErr) → Good b d (done t e) → Keeps d e
Good-Kept b d t none p = p.0
Good-Kept b d t (some x) p = tt

pub Good-both :
    (b₁ b₂ b₃ : Bool) (d : SetErr) (r₁ : Run) (r₂ : SetErr → Run)
    (node : Command → Command → Command)
    → Good b₁ d r₁
    → ((e : SetErr) → Keeps d e → Good b₂ e (r₂ e))
    → ((s t : Command) → WellFormed b₁ s → WellFormed b₂ t → WellFormed b₃ (node s t))
    → Good b₃ d (then_run r₁ λ t₁ e₁. then_run (r₂ e₁) λ t₂ e₂. done (node t₁ t₂) e₂)
Good-both b₁ b₂ b₃ d (done t₁ e₁) r₂ node p q k =
    Good-second b₁ b₂ b₃ d e₁ t₁ (r₂ e₁) node p (q e₁ (Good-Kept b₁ d t₁ e₁ p)) k
Good-both b₁ b₂ b₃ d (astray e) r₂ node p q k = p
Good-both b₁ b₂ b₃ d out_of_fuel r₂ node p q k = p

pub by_split :
    (b : Bool) (d : SetErr) (ws : List Str) (o : Split) (x : Run)
    (g : List Str → Str → List Str → Run)
    → SplitsBelow (length ws) o
    → Flat (pos 0) ws o
    → Good b d x
    → ((front : List Str) (sep : Str) (behind : List Str)
        → length front < length ws
        → length behind < length ws
        → Flat (pos 0) ws (some (front, sep, behind))
        → Good b d (g front sep behind))
    → Good b d (elim o [ none ↦ x | some (front, sep, behind) ↦ g front sep behind ])
by_split b d ws none x g s f p q = p
by_split b d ws (some (front, sep, behind)) x g s f p q = q front sep behind s.0 s.1 f

-- With `seterr` set later, there is none earlier.
pub Good-Keeps : (b : Bool) (d e : SetErr) (r : Run) → Keeps d e → Good b e r → Good b d r
Good-Keeps b d none (done t none) k g = (k, g.1)
Good-Keeps b d (some x) (done t none) k g = cc (g.0)
Good-Keeps b d e (done t (some x)) k g = tt
Good-Keeps b d e (astray x) k g = g
Good-Keeps b d e out_of_fuel k g = g

pub skip_empty-amp :
    (w : Str) (ws : List Str) → char0 w ≡ b'&' → skip_empty (w ∷ ws) ≡ skip_empty ws
unfolding skip_empty
skip_empty-amp w ws h = simp h

suc-eq-zero : (n : ℕ) → suc n == 0 ≡ false
suc-eq-zero n = ground arith

-- The end of syn3: a simple command.
pub command_ok :
    (d : SetErr) (n : ℕ) (s : Loop)
    → LoopOk d n s
    → Good false d (
        done
          (command s.redirects s.av)
          (if length s.av == 0 then seterror null_com s.err else s.err))
unfolding WellFormed
command_ok d n s h = go s.av s.err h.saves
  where
    go :
        (av : List (Option Str)) (e : SetErr)
        → Saves d e av
        → Good false d
            (done (command s.redirects av) (if length av == 0 then seterror null_com e else e))
    go [] e h = Good-error false d (command s.redirects []) e null_com
    go (w ∷ av) e h =
        subst
          (λ c.
            Good false d
              (done (command s.redirects (w ∷ av)) (if c then seterror null_com e else e)))
          (sym (suc-eq-zero (length av))) (full e h)
      where
        full :
            (e : SetErr) → Saves d e (w ∷ av) → Good false d (done (command s.redirects (w ∷ av)) e)
        full none h = (h.0, (omega arith, h.1))
        full (some e) h = tt

Saves-Keeps : (d e : SetErr) (av : List (Option Str)) → Saves d e av → Keeps d e
Saves-Keeps d none av h = h.0
Saves-Keeps d (some e) av h = tt

pub plps-Keeps :
    (d : SetErr) (n : ℕ) (s : Loop)
    → LoopOk d n s
    → Keeps d (if length s.av == 0 then s.err else seterror bad_plps s.err)
plps-Keeps d n s h = go (length s.av == 0)
  where
    go : (b : Bool) → Keeps d (if b then s.err else seterror bad_plps s.err)
    go true = Saves-Keeps d s.err s.av h.saves
    go false = Keeps-seterror bad_plps d s.err (Saves-Keeps d s.err s.av h.saves)

pub start-LoopOk : (n stop : ℕ) (e : SetErr) → LoopOk e n (start stop e)
start-LoopOk n stop none = record { saves = (refl, tt); points = tt }
start-LoopOk n stop (some x) = record { saves = tt; points = tt }

pub Good-null : (e : SetErr) → Good true e (done null e)
unfolding WellFormed
Good-null none = (refl, refl)
Good-null (some x) = tt

pub Good-weaken : (e : SetErr) (r : Run) → Good false e r → Good true e r
Good-weaken e (done t none) h = (h.0, WellFormed-weaken t h.1)
Good-weaken e (done t (some x)) h = tt
Good-weaken e (astray x) h = h
Good-weaken e out_of_fuel h = h

pub Good-paren :
    (d : SetErr) (redirects : Redirects) (r : Run)
    → Good false d r
    → Good false d (then_run r λ t e. done (paren redirects t) e)
unfolding WellFormed
Good-paren d redirects (done t none) h = h
Good-paren d redirects (done t (some x)) h = tt
Good-paren d redirects (astray x) h = h
Good-paren d redirects out_of_fuel h = h
