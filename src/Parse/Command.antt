-- ===== src/Parse/Command.antt =====
-- sh.h: `struct command`. sh.err.c: `seterror`. sh.parse.c: the words that `syn3` looks for.
use mcsh.Base.{
  zero, suc, Bool, true, false, ◌||◌, Option, none, some, List, [], ◌∷◌, ◌==◌, if◌then◌else◌, Str,
  codes, eq, any, char0, ℤ, pos, negsuc,
}

pub data SynError : Type 0 where
  too_many_rp too_many_lp bad_plp bad_plps null_com mis_red out_red in_red red_par : SynError

-- `seterr`: the first error of the line.
abbrev pub SetErr : Type 0
SetErr = Option SynError

unfoldable pub seterror : SynError → SetErr → SetErr
seterror id none = some id
seterror id (some e) = some e

-- The bits of `t_dflg`.
pub record Flags : Type 0 where
  pub ampersand : Bool
  pub append : Bool
  pub nofork : Bool
  pub nointerrupt : Bool
  pub stderr : Bool
  pub overwrite : Bool
  pub read : Bool

abbrev pub no_flags : Flags
no_flags = record {
  ampersand = false;
  append = false;
  nofork = false;
  nointerrupt = false;
  stderr = false;
  overwrite = false;
  read = false;
}

-- `t_dlef`, `t_drit` and `t_dflg` of a leaf.
pub record Redirects : Type 0 where
  pub flags : Flags
  pub lef : Option Str
  pub rit : Option Str

-- `null` is the null pointer. A word that is not saved is a null pointer in `t_dcom`.
pub data Command : Type 0 where
  null : Command
  command : Redirects → List (Option Str) → Command
  paren : Redirects → Command → Command
  pipe and or list : Flags → Command → Command → Command

-- The bits P_HERE, P_IN, P_OUT and P_DIAG.
pub record Context : Type 0 where
  pub here : Bool
  pub p_in : Bool
  pub p_out : Bool
  pub p_diag : Bool

abbrev pub outside : Context
outside = record { here = false; p_in = false; p_out = false; p_diag = false }

-- The depth of parentheses, which a word changes.
abbrev pub inc : ℤ → ℤ
inc (pos n) = pos (suc n)
inc (negsuc zero) = pos 0
inc (negsuc (suc n)) = negsuc n

abbrev pub dec : ℤ → ℤ
dec (pos zero) = negsuc 0
dec (pos (suc n)) = pos n
dec (negsuc n) = negsuc (suc n)

abbrev pub is_zero : ℤ → Bool
is_zero (pos zero) = true
is_zero z = false

abbrev pub depth : Str → ℤ → ℤ
depth w l = if char0 w == b'(' then inc l else if char0 w == b')' then dec l else l

-- RELPAR
abbrev pub relpar : Str → Bool
relpar w = any (codes "<>()") (char0 w)

-- `srchx` of a word is TC_ELSE; or it is one of TC_EXIT, TC_FOREACH, TC_IF, TC_LET, TC_SET,
-- TC_SWITCH, TC_WHILE and TC_TEST.
abbrev pub is_else : Str → Bool
is_else w = eq w (codes "else")

abbrev pub is_keyword : Str → Bool
is_keyword w =
    eq w (codes "exit")
    || (eq w (codes "foreach")
        || (eq w (codes "if")
            || (eq w (codes "@")
                || (eq w (codes "set")
                    || (eq w (codes "switch") || (eq w (codes "while") || eq w (codes "test")))))))

-- `specp`: the word behind any `else` is such a keyword.
unfoldable pub specp : List Str → Bool
specp [] = false
specp (w ∷ ws) = let more = specp ws in if is_else w then more else is_keyword w
