-- ===== src/Expr/Tests.antt =====
-- sh.exp.c: runs of the evaluator.
use mcsh.Base.{ℕ, Bool, true, false, List, [], ◌∷◌, Str, codes, pos, ◌≡◌, refl, eq}
use Prim.Native.String.{String}
use mcsh.Number.{putn1, putn, of_u64, add64, sub64, getn, getn_number}
use mcsh.Expr.Shell.{raise, bad_expression, Shell, done, ok}
use mcsh.Expr.Isa.{isa}
use mcsh.Expr.Arith.{egetn, exp3a_apply, exp4_apply}
use mcsh.Expr.Operand.{exp6, exp6_operand}
use mcsh.Expr.Loop.{loop}
use mcsh.Expr.Low.{exp5, exp4, exp3a, exp3a_rest, exp3, exp2c, exp2c_rest}
use mcsh.Expr.Eval.{exp2b, exp2a, exp2x, exp1, exp0, expr}

-- A shell whose state counts the commands run.
abbrev toy : Bool → Shell ℕ
toy compat = record {
  compat = compat;
  parse_octal = false;
  globone = λ w s. done (s, w);
  gmatch = λ s p. done (eq s p);
  run = λ cs w. done (true, Prim.Native.Nat.suc w);
  stat = λ w s. false;
  file_value = λ w cp s. done [];
}

abbrev words : List String → List Str
words [] = []
words (s ∷ ss) = codes s ∷ words ss

minus_left : expr (toy false) (words ("9" ∷ "-" ∷ "3" ∷ "-" ∷ "2" ∷ [])) 0 ≡ ok (pos 4, [], 0)
unfolding expr exp0 exp1 exp2x exp2a exp2b exp2c exp2c_rest exp3 exp3a exp3a_rest exp4 exp5 exp6
    exp4_apply egetn loop putn putn1 add64 sub64 getn getn_number exp6_operand isa of_u64
minus_left = refl

-- A sum that is skipped is not computed, but a shift is.
skipped_sum : expr (toy false) (words ("0" ∷ "&&" ∷ "a" ∷ "+" ∷ "1" ∷ [])) 0 ≡ ok (pos 0, [], 0)
unfolding expr exp0 exp1 exp2x exp2a exp2b exp2c exp2c_rest exp3 exp3a exp3a_rest exp4 exp5 exp6
    exp4_apply egetn loop putn putn1 add64 sub64 getn getn_number exp6_operand isa of_u64
skipped_sum = refl

skipped_shift :
    expr (toy false) (words ("0" ∷ "&&" ∷ "a" ∷ "<<" ∷ "1" ∷ [])) 0 ≡ raise bad_expression
unfolding expr exp0 exp1 exp2x exp2a exp2b exp2c exp2c_rest exp3 exp3a exp3a_rest exp4 exp5 exp6
    exp3a_apply egetn loop putn putn1 add64 sub64 getn getn_number exp6_operand isa of_u64
skipped_shift = refl
