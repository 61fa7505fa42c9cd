-- ===== src/Expr/Shell.antt =====
-- sh.exp.c: what the evaluator needs of the rest of the shell, and the state that it passes on:
-- the words still to be read (`*vp`) and the shell's state `W`, which `{ command }` and the expansion
-- of a word change.
use mcsh.Base.{ℕ, Bool, false, List, Str}

-- The messages that `stderror` leaves by, and any other that a called part raises.
pub data Error : Type 0 where
  bad_expression bad_number div_by_zero mod_by_zero missing_brace file_inquiry file_name : Error
  other : ℕ → Error

pub data Outcome {ℓ} (A : Type ℓ) : Type ℓ where
  done : A → Outcome A
  raised : Error → Outcome A

-- `out_of_fuel` belongs to the model only.
pub data Res {ℓ} (A : Type ℓ) : Type ℓ where
  ok : A → Res A
  raise : Error → Res A
  out_of_fuel : Res A

-- `compat` is `compat_expr`, `parse_octal` is whether $parseoctal is set.
-- `globone` is sh.glob.c's, which runs the commands in backquotes; `gmatch` is its Gmatch, `run` is `evalav` with `getstatus() == 0`,
-- `stat` tells whether stat() succeeds, `file_value` is the text that a file test gives.
pub record Shell (W : Type 0) : Type 0 where
  pub compat : Bool
  pub parse_octal : Bool
  pub globone : W → Str → Outcome (Str × W)
  pub gmatch : Str → Str → Outcome Bool
  pub run : List Str → W → Outcome (Bool × W)
  pub stat : W → Str → Bool
  pub file_value : W → Str → Str → Outcome Str

-- The bits TEXP_IGNORE and TEXP_NOGLOB of `ignore`.
pub record Ignore : Type 0 where
  pub skip : Bool
  pub noglob : Bool

abbrev pub heed : Ignore
heed = record { skip = false; noglob = false }

abbrev pub Words : Type 0
Words = List Str

-- A run that reads words and ends with a value, the words left and the shell's state.
abbrev pub M : Type 0 → Type 0 → Type 0
M W A = Words → W → Res (A × Words × W)

abbrev pub Level : Type 0 → Type 0 → Type 0
Level W A = Ignore → M W A

module _ {W A B : Type 0} where
  abbrev pub and_then : Res (A × Words × W) → (A → M W B) → Res (B × Words × W)
  and_then (ok (a, ts, w)) f = f a ts w
  and_then (raise e) f = raise e
  and_then out_of_fuel f = out_of_fuel

  infixl 5 ◌>>=◌
  abbrev pub ◌>>=◌ : M W A → (A → M W B) → M W B
  ◌>>=◌ m f ts w = and_then (m ts w) f

module _ {W A : Type 0} where
  abbrev pub pure : A → M W A
  pure a ts w = ok (a, ts, w)

  abbrev pub fail : Error → M W A
  fail e ts w = raise e

  -- An outcome of another part of the shell, which leaves the words and the state alone.
  abbrev pub lift : Outcome A → M W A
  lift (done a) = pure a
  lift (raised e) = fail e

  -- An outcome that comes with the state behind it.
  abbrev pub lift_state : Outcome (A × W) → Words → Res (A × Words × W)
  lift_state (done (a, w)) ts = ok (a, ts, w)
  lift_state (raised e) ts = raise e
