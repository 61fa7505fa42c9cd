-- ===== src/Edit/Buffer.antt =====
-- ed.h: `InputBuf` and `UndoBuf`, and the loops of ed.chared.c that copy characters. A buffer also
-- holds how far it was ever written.
use mcsh.Base.{ℕ, zero, suc, ◌+◌, max, [], ◌∷◌, ◌==◌, if◌then◌else◌, Str}

pub record Buffer : Type 0 where
  pub cells : ℕ → ℕ
  pub top : ℕ

-- `buf[i] = c`
unfoldable pub put : ℕ → ℕ → Buffer → Buffer
put i c b = record { cells = λ j. if j == i then c else b.cells j; top = max b.top (suc i) }

-- `for (cp = low + k - 1; cp >= low; cp--) cp[num] = *cp;`
unfoldable pub move_up : ℕ → ℕ → ℕ → Buffer → Buffer
move_up zero low num b = b
move_up (suc k) low num b = move_up k low num (put (low + k + num) (b.cells (low + k)) b)

-- `for (cp = low; cp < low + k; cp++) *cp = cp[num];`
unfoldable pub move_down : ℕ → ℕ → ℕ → Buffer → Buffer
move_down zero low num b = b
move_down (suc k) low num b = move_down k (suc low) num (put low (b.cells (low + num)) b)

-- `for (...; k times) *dp++ = *sp++;`, from another buffer.
unfoldable pub copy : ℕ → (ℕ → ℕ) → ℕ → ℕ → Buffer → Buffer
copy zero from sp dp b = b
copy (suc k) from sp dp b = copy k from (suc sp) (suc dp) (put dp (from sp) b)

-- `while (*s) *dp++ = *s++;`
unfoldable pub write : Str → ℕ → Buffer → Buffer
write [] dp b = b
write (c ∷ s) dp b = write s (suc dp) (put dp c b)

-- The `n` characters from `i` on.
abbrev pub slice : ℕ → (ℕ → ℕ) → ℕ → Str
slice zero f i = []
slice (suc n) f i = f i ∷ slice n f (suc i)
