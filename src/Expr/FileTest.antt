-- ===== src/Expr/FileTest.antt =====
-- sh.exp.c: `filetest` up to the test itself: the letters of the operator, the check for a missing
-- file name, and the expansion of the name.
use mcsh.Base.{ℕ, Bool, true, false, not, ◌&&◌, [], ◌∷◌, leb, ◌==◌, if◌then◌else◌, Str, codes, any}
use mcsh.Expr.Isa.{isa_next, anyop}
use mcsh.Expr.Shell.{
  Shell, Ignore, M, Level, ok, raise, and_then, lift, lift_state, file_inquiry, file_name,
}

abbrev pub file_tests : Str
file_tests = codes "erwxfdzoplstSXLbcugkmK"

abbrev pub file_vals : Str
file_vals = codes "ZAMCDIUGNFPL"

-- The letters behind the tests; `prev` is the letter in front of the text.
unfoldable pub skip_tests : ℕ → Str → Str
skip_tests prev [] = if prev == b'L' then b'L' ∷ [] else []
skip_tests prev (c ∷ s) = let more = skip_tests c s in if any file_tests c then more else c ∷ s

skip_octal : Str → Str
skip_octal [] = []
skip_octal (c ∷ s) = let more = skip_octal s in if leb b'0' c && leb c b'7' then more else c ∷ s

skip_colon : ℕ → Str → Str
skip_colon v (c ∷ []) = if c == b':' && any (codes "AMCUGP") v then [] else c ∷ []
skip_colon v s = s

-- What is left behind the value letter, its mask and its colon.
unfoldable pub skip_value : Str → Str
unfolding skip_octal skip_colon
skip_value [] = []
skip_value (v ∷ s) =
    if any file_vals v then skip_colon v (if v == b'P' then skip_octal s else s) else v ∷ s

-- The operator is well formed: nothing is left behind its letters.
unfoldable pub test_letters : Str → Bool
unfolding skip_tests skip_value
test_letters (c ∷ d ∷ s) = elim (skip_value (skip_tests c (d ∷ s))) [ [] ↦ true | _ ↦ false ]
test_letters cp = false

module _ {W : Type 0} (sh : Shell W) where
  -- `dp` on: the name is not expanded under TEXP_NOGLOB, nor looked at under TEXP_IGNORE.
  abbrev test_file : Str → Ignore → Str → M W Str
  test_file cp ig dp ts w =
      if ig.skip
      then ok ([], ts, w)
      else if ig.noglob
      then lift (sh.file_value w cp dp) ts w
      else and_then (lift_state (sh.globone w dp) ts) (λ ep ts v. lift (sh.file_value v cp ep) ts v)

  unfoldable pub filetest : Str → Level W Str
  unfolding test_letters isa_next
  filetest cp ig [] w = if not (test_letters cp) then raise file_inquiry else raise file_name
  filetest cp ig (dp ∷ ts) w =
      if not (test_letters cp)
      then raise file_inquiry
      else if not (isa_next (dp ∷ ts) anyop == 0) && not (sh.stat w dp)
      then raise file_name
      else test_file cp ig dp ts w
