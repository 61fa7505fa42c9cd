-- ===== src/Expr.antt =====
-- sh.exp.c: the evaluator of `@`, `if`, `while` and `exit` expressions.
-- `Shell` is its interface to the rest of the shell, `Isa` its operator table, `Eval` the levels of
-- the grammar.
pub mod Shell
pub mod Isa
pub mod FileTest
pub mod Arith
pub mod Operand
pub mod Loop
pub mod Low
pub mod Eval
pub mod Total
pub mod Skip
mod Tests
