-- ===== src/Aria/Cipher.antt =====
-- `Crypt`: the rounds, in both directions. `e` is the array of round keys as its rows of 16 bytes,
-- and `e += 16` drops a row; `none` is a read past the last row.
use cds_guard.Prelude.{
  ℕ, zero, suc, ◌+◌, ◌/◌, ◌%◌, Option, none, some, List, [], ◌∷◌, Bytes, tabulate, ◌⊕◌,
}
use cds_guard.Aria.Tables.{s_at}
use cds_guard.Aria.Block.{at, copy16, xor16}
use cds_guard.Aria.Diffusion.{dl}

-- `for (j = 0; j < 16; j++) t[j] = S[(shift + j) % 4][e[j] ^ c[j]];`
unfoldable pub substitute : ℕ → Bytes → Bytes → Bytes
substitute shift e c = tabulate 16 0 (λ j. s_at ((shift + j) % 4) (at e j ⊕ at c j))

-- One turn of the loop: two rounds, with a key each.
unfoldable pub two_rounds : Bytes → Bytes → Bytes → Bytes
two_rounds e0 e1 c = dl (substitute 2 e1 (dl (substitute 0 e0 c)))

-- The loop with `turns` turns left, and the two lines after it.
unfoldable pub crypt_loop : ℕ → Bytes → List Bytes → Option Bytes
crypt_loop zero c [] = none
crypt_loop zero c (e ∷ es) = some (xor16 e (dl c))
crypt_loop (suc turns) c [] = none
crypt_loop (suc turns) c (e0 ∷ []) = none
crypt_loop (suc turns) c (e0 ∷ e1 ∷ es) = crypt_loop turns (two_rounds e0 e1 c) es

unfoldable pub crypt : Bytes → ℕ → List Bytes → Option Bytes
unfolding crypt_loop
crypt p r e = crypt_loop (r / 2) (copy16 p) e
