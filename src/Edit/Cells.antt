-- ===== src/Edit/Cells.antt =====
-- ed.chared.c: the cells of a buffer behind the loops that copy characters, and how far they write.
use mcsh.Base.{
  ℕ, zero, suc, ◌+◌, ◌-◌, ◌≤◌, max, [], ◌∷◌, ◌==◌, ltb, leb, ◌&&◌, if◌then◌else◌, Str, length,
  arith, ◌≡◌, refl,
}
use mcsh.Edit.Buffer.{Buffer, put, move_up, move_down, copy, write}

pub put-cells : (i c j : ℕ) (b : Buffer) → (put i c b).cells j ≡ (if j == i then c else b.cells j)
unfolding put
put-cells i c j b = refl

pub put-top : (i c : ℕ) (b : Buffer) → (put i c b).top ≡ max b.top (suc i)
unfolding put
put-top i c b = refl

pub move_up-cells :
    (k low num j : ℕ) (b : Buffer)
    → (move_up k low num b).cells j
      ≡ (if leb (low + num) j && ltb j (low + k + num) then b.cells (j - num) else b.cells j)
unfolding move_up
move_up-cells zero low num j b = ground arith
move_up-cells (suc k) low num j b =
    let c = b.cells (low + k) in
    ground (
      arith,
      move_up-cells k low num j (put (low + k + num) c b),
      put-cells (low + k + num) c j b,
      put-cells (low + k + num) c (j - num) b,
    )

pub move_up-top :
    (k low num : ℕ) (b : Buffer) → (move_up k low num b).top ≤ max b.top (low + k + num)
unfolding move_up
move_up-top zero low num b = omega arith
move_up-top (suc k) low num b =
    let c = b.cells (low + k) in
    omega (arith, move_up-top k low num (put (low + k + num) c b), put-top (low + k + num) c b)

pub move_down-cells :
    (k low num j : ℕ) (b : Buffer)
    → (move_down k low num b).cells j
      ≡ (if leb low j && ltb j (low + k) then b.cells (j + num) else b.cells j)
unfolding move_down
move_down-cells zero low num j b = ground arith
move_down-cells (suc k) low num j b =
    let c = b.cells (low + num) in
    ground (
      arith,
      move_down-cells k (suc low) num j (put low c b),
      put-cells low c j b,
      put-cells low c (j + num) b,
    )

pub move_down-top : (k low num : ℕ) (b : Buffer) → (move_down k low num b).top ≤ max b.top (low + k)
unfolding move_down
move_down-top zero low num b = omega arith
move_down-top (suc k) low num b =
    let c = b.cells (low + num) in
    omega (arith, move_down-top k (suc low) num (put low c b), put-top low c b)

pub copy-cells :
    (k : ℕ) (from : ℕ → ℕ) (sp dp j : ℕ) (b : Buffer)
    → (copy k from sp dp b).cells j
      ≡ (if leb dp j && ltb j (dp + k) then from (sp + (j - dp)) else b.cells j)
unfolding copy
copy-cells zero from sp dp j b = ground arith
copy-cells (suc k) from sp dp j b =
    ground (
      arith,
      copy-cells k from (suc sp) (suc dp) j (put dp (from sp) b),
      put-cells dp (from sp) j b,
    )

pub copy-top :
    (k : ℕ) (from : ℕ → ℕ) (sp dp : ℕ) (b : Buffer) → (copy k from sp dp b).top ≤ max b.top (dp + k)
unfolding copy
copy-top zero from sp dp b = omega arith
copy-top (suc k) from sp dp b =
    omega (arith, copy-top k from (suc sp) (suc dp) (put dp (from sp) b), put-top dp (from sp) b)

pub write-outside :
    (w : Str) (dp j : ℕ) (b : Buffer)
    → (if leb dp j && ltb j (dp + length w) then b.cells j else (write w dp b).cells j) ≡ b.cells j
unfolding write
write-outside [] dp j b = ground arith
write-outside (c ∷ w) dp j b =
    ground (arith, write-outside w (suc dp) j (put dp c b), put-cells dp c j b)

pub write-top : (w : Str) (dp : ℕ) (b : Buffer) → (write w dp b).top ≤ max b.top (dp + length w)
unfolding write
write-top [] dp b = omega arith
write-top (c ∷ w) dp b = omega (arith, write-top w (suc dp) (put dp c b), put-top dp c b)
