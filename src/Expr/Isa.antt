-- ===== src/Expr/Isa.antt =====
-- sh.exp.c: `isa`, which tells operators from operands.
use mcsh.Base.{ℕ, Bool, true, false, not, ◌&&◌, ◌||◌, List, [], ◌∷◌, ◌==◌, if◌then◌else◌, Str}

-- The masks ADDOP, MULOP, EQOP, RELOP, RESTOP and ANYOP, as the set of their bits.
pub record Mask : Type 0 where
  pub addop : Bool
  pub mulop : Bool
  pub eqop : Bool
  pub relop : Bool
  pub restop : Bool

abbrev no_op : Mask
no_op = record { addop = false; mulop = false; eqop = false; relop = false; restop = false }

abbrev pub addop : Mask
addop = record no_op { addop = true }

abbrev pub mulop : Mask
mulop = record no_op { mulop = true }

abbrev pub eqop : Mask
eqop = record no_op { eqop = true }

abbrev pub relop : Mask
relop = record no_op { relop = true }

abbrev pub anyop : Mask
anyop = record { addop = true; mulop = true; eqop = true; relop = true; restop = true }

-- EQEQ, GTR, LSS, NOTEQ, EQMATCH, NOTEQMATCH
abbrev pub eqeq : ℕ
eqeq = 1

abbrev pub gtr : ℕ
gtr = 2

abbrev pub lss : ℕ
lss = 4

abbrev pub noteq : ℕ
noteq = 6

abbrev pub eqmatch : ℕ
eqmatch = 7

abbrev pub noteqmatch : ℕ
noteqmatch = 8

abbrev rel : Mask → ℕ → ℕ
rel what c = if what.relop && c == b'<' then lss else if what.relop && c == b'>' then gtr else 0

abbrev isa_one : Mask → ℕ → ℕ
isa_one what c =
    if what.addop && (c == b'+' || c == b'-')
    then 1
    else if what.mulop && (c == b'*' || (c == b'/' || c == b'%'))
    then 1
    else if what.restop
        && (c == b'(' || (c == b')' || (c == b'!' || (c == b'~' || (c == b'^' || c == b'"')))))
    then 1
    else rel what c

abbrev isa_eqop : ℕ → ℕ → ℕ
isa_eqop c d =
    if c == b'='
    then (if d == b'=' then eqeq else if d == b'~' then eqmatch else 0)
    else if c == b'!'
    then (if d == b'=' then noteq else if d == b'~' then noteqmatch else 0)
    else 0

abbrev isa_two : Mask → ℕ → ℕ → ℕ
isa_two what c d =
    if what.restop
      && ((c == b'|' && d == b'&') || ((c == b'<' && d == b'<') || (c == b'>' && d == b'>')))
    then 1
    else if what.eqop && not (isa_eqop c d == 0)
    then isa_eqop c d
    else rel what c

-- `isa(cp, what)` of a word, 0 for no.
unfoldable pub isa : Str → Mask → ℕ
isa [] what = 0
isa (c ∷ []) what = isa_one what c
isa (c ∷ d ∷ []) what = isa_two what c d
isa (c ∷ d ∷ e ∷ s) what = rel what c

-- `isa(**vp, what)`: at the end of the words only RESTOP says yes.
unfoldable pub isa_next : List Str → Mask → ℕ
unfolding isa
isa_next [] what = if what.restop then 1 else 0
isa_next (t ∷ ts) what = isa t what
