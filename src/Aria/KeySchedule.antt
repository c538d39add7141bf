-- ===== src/Aria/KeySchedule.antt =====
-- `RotXOR`, `EncKeySetup` and `DecKeySetup`. The array of round keys is a list of rows of 16 bytes,
-- since every access of the source is to one row; `none` is an access outside an array.
pub mod Rows
use cds_guard.Prelude.{
  ℕ, zero, suc, ◌+◌, ◌-◌, ◌*◌, ◌/◌, ◌%◌, Bool, true, false, Option, none, some, ◌>>=◌, List, [],
  ◌∷◌, ◌++◌, Bytes, u8, ◌<<<◌, ◌>>>◌, ◌⊕◌, ltb, leb, ◌==◌, if◌then◌else◌, get_elem?, set, take,
  drop, tabulate, replicate, length,
}
use cds_guard.Aria.Tables.{krk, s_at}
use cds_guard.Aria.Block.{at, xor16}
use cds_guard.Aria.Diffusion.{dl}

-- `t[k] ^= v`
unfoldable pub xor_at : Bytes → ℕ → ℕ → Bytes
xor_at t k v = set t k (at t k ⊕ v)

-- The loop of `RotXOR` from index `i`, with `left` turns left; `n` is already below 8.
unfoldable pub rot_xor_loop : ℕ → ℕ → Bytes → ℕ → ℕ → Bytes → Bytes
rot_xor_loop zero i s q n t = t
rot_xor_loop (suc left) i s q n t =
    let t' = xor_at t ((q + i) % 16) (at s i >>> n) in
    rot_xor_loop left (i + 1) s q n
      (if n == 0 then t' else xor_at t' ((q + i + 1) % 16) (u8 (at s i <<< (8 - n))))

-- `RotXOR`: the new value of the target `t`.
unfoldable pub rot_xor : Bytes → ℕ → Bytes → Bytes
unfolding rot_xor_loop xor_at
rot_xor s n t = rot_xor_loop 16 0 s (n / 8) (n % 8) t

-- `w0[off] … w0[off + n - 1]`
unfoldable pub read : ℕ → ℕ → Bytes → Option Bytes
read n off w = if leb (off + n) (length w) then some (take n (drop off w)) else none

-- `for (i = 0; i < 16; i++) t[i] = S[(shift + i) % 4][KRK[q][i] ^ w[i]]; DL (t, …);`
unfoldable pub key_layer : ℕ → Bytes → Bytes → Bytes
key_layer shift constant w =
    dl (tabulate 16 0 (λ i. s_at ((shift + i) % 4) (at constant i ⊕ at w i)))

-- `w1[i] ^= w0[16 + i]`, for the number of bytes that the count of rounds selects.
unfoldable pub add_high : ℕ → Bytes → Bytes → Option Bytes
add_high r w0 w1 =
    if r == 14
    then (read 8 16 w0 >>= λ high. some (xor16 w1 high))
    else if r == 16
    then (read 16 16 w0 >>= λ high. some (xor16 w1 high))
    else some w1

-- `RotXOR (a, 0, e + 16 * row); RotXOR (b, n, e + 16 * row);`
pub record RowStep : Type 0 where
  pub row : ℕ
  pub a : Bytes
  pub b : Bytes
  pub n : ℕ

abbrev pub row_step : ℕ → Bytes → Bytes → ℕ → RowStep
row_step row a b n = record { row = row; a = a; b = b; n = n }

-- The calls of `RotXOR`, in order; the last four rows depend on the count of rounds.
unfoldable pub row_steps : Bytes → Bytes → Bytes → Bytes → ℕ → List RowStep
row_steps w0 w1 w2 w3 r =
    (row_step 0 w0 w1 19
      ∷ row_step 1 w1 w2 19
      ∷ row_step 2 w2 w3 19
      ∷ row_step 3 w3 w0 19
      ∷ row_step 4 w0 w1 31
      ∷ row_step 5 w1 w2 31
      ∷ row_step 6 w2 w3 31
      ∷ row_step 7 w3 w0 31
      ∷ row_step 8 w0 w1 67
      ∷ row_step 9 w1 w2 67
      ∷ row_step 10 w2 w3 67
      ∷ row_step 11 w3 w0 67
      ∷ row_step 12 w0 w1 97
      ∷ [])
    ++ ((if ltb 12 r then row_step 13 w1 w2 97 ∷ row_step 14 w2 w3 97 ∷ [] else [])
        ++ (if ltb 14 r then row_step 15 w3 w0 97 ∷ row_step 16 w0 w1 109 ∷ [] else []))

unfoldable pub apply_row_steps : List RowStep → List Bytes → Option (List Bytes)
apply_row_steps [] e = some e
apply_row_steps (s ∷ ss) e = do
  t ← get_elem? e s.row
  apply_row_steps ss (set e s.row (rot_xor s.b s.n (rot_xor s.a 0 t)))

-- `q = (q==2)? 0 : (q+1);`
unfoldable pub next_constant : ℕ → ℕ
next_constant q = if q == 2 then 0 else q + 1

-- `EncKeySetup`: the round keys and the count of rounds. `(keyBits - 128) / 64` is 0 in C for the
-- lengths just below 128 where `-` stops here; the read of 16 key bytes fails for all of those.
unfoldable pub enc_key_setup : Bytes → ℕ → Option (List Bytes × ℕ)
enc_key_setup key key_bits =
    let r = (key_bits + 256) / 32 in
    let q0 = (key_bits - 128) / 64 in
    let q1 = next_constant q0 in
    let q2 = next_constant q1 in
    do
      w0 ← read 16 0 key
      k0 ← get_elem? krk q0
      w1 ← add_high r key (key_layer 0 k0 w0)
      k1 ← get_elem? krk q1
      let w2 = xor16 (key_layer 2 k1 w1) w0
      k2 ← get_elem? krk q2
      let w3 = xor16 (key_layer 0 k2 w2) w1
      e ← apply_row_steps (row_steps w0 w1 w2 w3 r) (replicate (r + 1) (replicate 16 0))
      some (e, r)

-- Swap two rows, each mapped by `f`: `t = f(d[i]); d[i] = f(d[k]); d[k] = t;`
unfoldable pub swap_rows : (Bytes → Bytes) → ℕ → ℕ → List Bytes → Option (List Bytes)
swap_rows f i k d = do di ← get_elem? d i; dk ← get_elem? d k; some (set (set d i (f dk)) k (f di))

-- The loop of `DecKeySetup` from `i`, with `left` turns left. At `i = R/2` both rows are one; what
-- the call on one buffer writes there is overwritten by the copy of `t`, as `set` does here.
unfoldable pub dec_loop : ℕ → ℕ → ℕ → List Bytes → Option (List Bytes)
unfolding swap_rows
dec_loop zero i r d = some d
dec_loop (suc left) i r d = swap_rows dl i (r - i) d >>= dec_loop left (i + 1) r

unfoldable pub dec_keys : List Bytes → ℕ → Option (List Bytes)
unfolding swap_rows dec_loop
dec_keys e r = swap_rows (λ t. t) 0 r e >>= dec_loop (r / 2) 1 r

unfoldable pub dec_key_setup : Bytes → ℕ → Option (List Bytes × ℕ)
dec_key_setup key key_bits =
    enc_key_setup key key_bits >>= λ er. dec_keys er.0 er.1 >>= λ d. some (d, er.1)
