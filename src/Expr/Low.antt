-- ===== src/Expr/Low.antt =====
-- sh.exp.c: the levels `exp5` to `exp2c`, whose values are texts. A level that the source
-- enters again runs on fuel; `exp6` enters `exp0` through the argument `exp0`.
use mcsh.Base.{
  ℕ, zero, suc, ◌+◌, Bool, true, false, ◌&&◌, ◌||◌, [], ◌∷◌, ◌==◌, if◌then◌else◌, Str, codes, eq,
  any, char0, char1, ℤ, pos,
}
use mcsh.Expr.Isa.{isa, addop, mulop, eqop, relop, eqmatch, noteqmatch}
use mcsh.Expr.Shell.{
  ok, out_of_fuel, done, Shell, Ignore, Words, M, Level, and_then, ◌>>=◌, pure, lift,
}
use mcsh.Expr.Arith.{text, egetn, exp5_apply, exp4_apply, exp3a_apply, exp3_apply, exp2c_apply}
use mcsh.Expr.Operand.{exp6}
use mcsh.Expr.Loop.{Turn, stop, again, leave, loop, operand}

module _ {W : Type 0} (sh : Shell W) where
  -- The right side of `=~` and `!~` is the word itself, `*` or not.
  abbrev pub exp5_turn : Level W Str → Level W Str → Ignore → Str → Words → Turn W Str
  exp5_turn self sub ig p1 [] = stop
  exp5_turn self sub ig p1 (op ∷ ts) =
      if isa op mulop == 0
      then stop
      else if ig.noglob
      then leave ts (pure op)
      else again ts (
          operand sh self sub ig >>= λ p2.
          lift (text (if ig.skip then done (pos 0) else exp5_apply sh (char0 op) p1 p2)))

  unfoldable pub exp5 : Level W ℤ → ℕ → Level W Str
  exp5 exp0 zero ig ts w = out_of_fuel
  exp5 exp0 (suc n) ig ts w =
      and_then (exp6 sh exp0 ig ts w)
        (loop sh.compat (suc n) (exp5_turn (exp5 exp0 n) (exp6 sh exp0) ig))

  abbrev pub exp4_turn : Level W Str → Level W Str → Ignore → Str → Words → Turn W Str
  exp4_turn self sub ig p1 [] = stop
  exp4_turn self sub ig p1 (op ∷ ts) =
      if isa op addop == 0
      then stop
      else again ts (
          operand sh self sub ig >>= λ p2.
          lift (text (if ig.skip then done (pos 0) else exp4_apply sh (char0 op) p1 p2)))

  unfoldable pub exp4 : Level W ℤ → ℕ → Level W Str
  exp4 exp0 zero ig ts w = out_of_fuel
  exp4 exp0 (suc n) ig ts w =
      and_then (exp5 exp0 (suc n) ig ts w)
        (loop sh.compat (suc n) (exp4_turn (exp4 exp0 n) (exp5 exp0 (suc n)) ig))

  abbrev pub is_shift : Str → Bool
  is_shift op = any (codes "<>") (char0 op) && char0 op == char1 op

  -- An `if`, no `while`: one shift at most.
  unfoldable pub exp3a_rest : Level W Str → Level W Str → Ignore → Str → M W Str
  exp3a_rest self sub ig p1 [] w = ok (p1, [], w)
  exp3a_rest self sub ig p1 (op ∷ ts) w =
      if is_shift op
      then (and_then (operand sh self sub ig ts w)
          λ p2. lift (text (exp3a_apply sh (char0 op) p1 p2)))
      else ok (p1, op ∷ ts, w)

  unfoldable pub exp3a : Level W ℤ → ℕ → Level W Str
  exp3a exp0 zero ig ts w = out_of_fuel
  exp3a exp0 (suc n) ig ts w =
      and_then (exp4 exp0 (suc n) ig ts w) (exp3a_rest (exp3a exp0 n) (exp4 exp0 (suc n)) ig)

  abbrev pub exp3_code : ℕ → Bool → ℤ
  exp3_code i or_eq = pos (if or_eq then i + 1 else i)

  abbrev pub starts_equal : Words → Bool
  starts_equal [] = false
  starts_equal (t ∷ ts) = eq t (codes "=")

  abbrev pub rest : Words → Words
  rest [] = []
  rest (t ∷ ts) = ts

  abbrev pub exp3_turn : Level W Str → Level W Str → Ignore → Str → Words → Turn W Str
  exp3_turn self sub ig p1 [] = stop
  exp3_turn self sub ig p1 (op ∷ ts) =
      let i = isa op relop in
      let or_eq = starts_equal ts in
      if i == 0
      then stop
      else again (if or_eq then rest ts else ts) (
          operand sh self sub ig >>= λ p2.
          lift (text (if ig.skip then done (exp3_code i or_eq) else exp3_apply sh i or_eq p1 p2)))

  unfoldable pub exp3 : Level W ℤ → ℕ → Level W Str
  exp3 exp0 zero ig ts w = out_of_fuel
  exp3 exp0 (suc n) ig ts w =
      and_then (exp3a exp0 (suc n) ig ts w)
        (loop sh.compat (suc n) (exp3_turn (exp3 exp0 n) (exp3a exp0 (suc n)) ig))

  abbrev pub exp2c_ignore : ℕ → Ignore → Ignore
  exp2c_ignore i ig = if i == eqmatch || i == noteqmatch then record ig { noglob = true } else ig

  unfoldable pub exp2c_rest : Level W Str → Ignore → Str → M W ℤ
  exp2c_rest sub ig p1 [] w = lift (egetn sh p1) [] w
  exp2c_rest sub ig p1 (op ∷ ts) w =
      let i = isa op eqop in
      if i == 0
      then lift (egetn sh p1) (op ∷ ts) w
      else (and_then (sub (exp2c_ignore i ig) ts w)
          λ p2. lift (if ig.skip then done (pos i) else exp2c_apply sh i p1 p2))

  unfoldable pub exp2c : Level W ℤ → ℕ → Level W ℤ
  exp2c exp0 n ig ts w = and_then (exp3 exp0 n ig ts w) λ p1. exp2c_rest (exp3 exp0 n) ig p1
