-- ===== src/Expr/Operand.antt =====
-- sh.exp.c: `exp6`, the operands.
use mcsh.Base.{
  Bool, not, ◌&&◌, ◌||◌, [], ◌∷◌, ◌==◌, if◌then◌else◌, Str, codes, eq, any, char0, char1, ℤ, Option,
  none, some,
}
use mcsh.Number.{of_bool, putn}
use mcsh.Expr.Isa.{isa, anyop}
use mcsh.Expr.Shell.{
  bad_expression, missing_brace, Res, ok, raise, Outcome, done, raised, Shell, Ignore, Words, M,
  Level, and_then, lift, lift_state,
}
use mcsh.Expr.Arith.{exp6_not, exp6_compl}
use mcsh.Expr.FileTest.{file_tests, file_vals, filetest}

-- What `exp6` does at `{`: the words up to the `}` and those behind it.
abbrev pub in_front : Str → Option (Words × Words) → Option (Words × Words)
in_front t none = none
in_front t (some (cs, rest)) = some (t ∷ cs, rest)

unfoldable pub split_brace : Words → Option (Words × Words)
split_brace [] = none
split_brace (t ∷ ts) =
    let more = in_front t (split_brace ts) in if eq t (codes "}") then some ([], ts) else more

module _ {W : Type 0} (sh : Shell W) where
  abbrev pub run_status : Words → Outcome (Bool × W) → Res (Str × Words × W)
  run_status rest (done (success, w)) = ok (putn (of_bool success), rest, w)
  run_status rest (raised e) = raise e

  abbrev pub brace_from : Ignore → W → Option (Words × Words) → Res (Str × Words × W)
  brace_from ig w none = raise missing_brace
  brace_from ig w (some (cs, rest)) =
      if ig.skip then ok ([], rest, w) else run_status rest (sh.run cs w)

  unfoldable pub exp6_brace : Ignore → Words → W → Res (Str × Words × W)
  exp6_brace ig ts w = brace_from ig w (split_brace ts)

  abbrev pub exp6_close : ℤ → M W Str
  exp6_close ccode [] w = raise bad_expression
  exp6_close ccode (t ∷ ts) w =
      if char0 t == b')' then ok (putn ccode, ts, w) else raise bad_expression

  unfoldable pub exp6_operand : Ignore → Str → Words → W → Res (Str × Words × W)
  exp6_operand ig cp ts w =
      if char0 cp == b'-' && (any file_tests (char1 cp) || any file_vals (char1 cp))
      then filetest sh cp ig ts w
      else if ig.noglob
      then ok (cp, ts, w)
      else lift_state (sh.globone w cp) ts

  unfoldable pub exp6 : Level W ℤ → Level W Str
  exp6 exp0 ig [] w = raise bad_expression
  exp6 exp0 ig (t ∷ ts) w =
      let inner = exp6 exp0 ig ts w in
      if eq t (codes "!")
      then and_then inner (λ cp. lift (exp6_not sh cp))
      else if eq t (codes "~")
      then and_then inner (λ cp. lift (exp6_compl sh cp))
      else if eq t (codes "(")
      then and_then (exp0 ig ts w) exp6_close
      else if eq t (codes "{")
      then exp6_brace ig ts w
      else if not (isa t anyop == 0)
      then ok ([], t ∷ ts, w)
      else exp6_operand ig t ts w
