-- ===== src/Cbc.antt =====
-- PacketProcessor/src/encryption/ARIAAlgorithm.cpp: ARIA in CBC mode with PKCS#7 padding.
-- `std::random_device` is the parameter `rd`: its `n`-th draw is `rd n`, and `pos` counts the draws
-- made so far. `none` is an access outside an array.
-- The reads of `pkcs7_unpad` come after its tests, which keep them inside.
pub mod Padding
pub mod Slices
pub mod RoundTrip
pub mod Rejection
use cds_guard.Prelude.{
  ℕ, zero, suc, ◌+◌, ◌-◌, ◌*◌, ◌/◌, ◌%◌, Bool, true, false, ◌||◌, not, Option, none, some, ◌>>=◌,
  List, [], ◌∷◌, ◌++◌, Bytes, u8, ltb, leb, ◌^◌, ◌==◌, if◌then◌else◌, length, take, tabulate,
  replicate,
}
use cds_guard.Aria.Block.{at, xor16}
use cds_guard.Aria.Cipher.{crypt}
use cds_guard.Aria.KeySchedule.{enc_key_setup, dec_key_setup}

-- `BLOCK_SIZE`
abbrev pub block_size : ℕ
block_size = 16

unfoldable pub pad_len : ℕ → ℕ
pad_len orig_len =
    let rem = orig_len % block_size in if rem == 0 then block_size else block_size - rem

unfoldable pub pkcs7_pad : Bytes → Bytes
pkcs7_pad input = input ++ replicate (pad_len (length input)) (u8 (pad_len (length input)))

-- The loop of `pkcs7_unpad` from index `i`: whether it ends without a `return {}`.
unfoldable pub padding_matches : ℕ → ℕ → ℕ → Bytes → Bool
padding_matches zero i pad_byte input = true
padding_matches (suc left) i pad_byte input =
    if at input (length input - 1 - i) == pad_byte
    then padding_matches left (i + 1) pad_byte input
    else false

unfoldable pub pkcs7_unpad : Bytes → Bytes
pkcs7_unpad input =
    let sz = length input in
    let pad_byte = at input (sz - 1) in
    if sz == 0 || not (sz % block_size == 0)
    then []
    else if pad_byte == 0 || ltb block_size pad_byte
    then []
    else if padding_matches pad_byte 0 pad_byte input
    then take (sz - pad_byte) input
    else []

-- The vector, and the count of draws after it.
unfoldable pub generate_random_iv : (ℕ → ℕ) → ℕ → Bytes × ℕ
generate_random_iv rd pos = (tabulate block_size pos (λ i. u8 (rd i)), pos + block_size)

-- The difference of two `size_t`, which wraps below 0.
abbrev pub size_sub : ℕ → ℕ → ℕ
size_sub a b = if leb b a then a - b else a + 2 ^ 64 - b

-- The 16 bytes at `p + off`, where they are inside; `read16` is the access to them.
unfoldable pub slice16 : Bytes → ℕ → Bytes
slice16 p off = tabulate block_size 0 (λ j. at p (off + j))

unfoldable pub read16 : Bytes → ℕ → Option Bytes
read16 p off = if leb (off + block_size) (length p) then some (slice16 p off) else none

-- The loop of `encrypt` from block `bi`, with `left` blocks left.
unfoldable pub encrypt_loop : ℕ → ℕ → Bytes → ℕ → List Bytes → Bytes → Bytes → Option Bytes
encrypt_loop zero bi padded r round_keys prev out = some out
encrypt_loop (suc left) bi padded r round_keys prev out =
    read16 padded (bi * block_size) >>= λ pblock.
    crypt (xor16 pblock prev) r round_keys >>= λ cipher_block.
    encrypt_loop left (bi + 1) padded r round_keys cipher_block (out ++ cipher_block)

-- `ARIAAlgorithm::encrypt`: the ciphertext, and the count of draws after it.
unfoldable pub encrypt : (ℕ → ℕ) → Bytes → Bytes → ℕ → Option (Bytes × ℕ)
encrypt rd key input pos =
    let padded = pkcs7_pad input in
    let num_blocks = length padded / block_size in
    do
      er ← enc_key_setup key (length key * 8)
      let iv = generate_random_iv rd pos
      out ← encrypt_loop num_blocks 0 padded er.1 er.0 iv.0 iv.0
      some (out, iv.1)

-- The loop of `decrypt` from block `bi`, with `left` blocks left.
unfoldable pub decrypt_loop : ℕ → ℕ → Bytes → ℕ → List Bytes → Bytes → Bytes → Option Bytes
decrypt_loop zero bi input r round_keys prev decrypted = some decrypted
decrypt_loop (suc left) bi input r round_keys prev decrypted =
    read16 input (block_size + bi * block_size) >>= λ cblock.
    crypt cblock r round_keys >>= λ interm.
    decrypt_loop left (bi + 1) input r round_keys cblock (decrypted ++ xor16 interm prev)

-- `ARIAAlgorithm::decrypt`; it returns the empty vector for what it rejects.
unfoldable pub decrypt : Bytes → Bytes → Option Bytes
decrypt key input =
    let total_size = length input in
    let cipher_len = size_sub total_size block_size in
    if ltb total_size (2 * block_size)
    then some []
    else read16 input 0 >>= λ iv. if not (cipher_len % block_size == 0) then some [] else do
      dr ← dec_key_setup key (length key * 8)
      decrypted ← decrypt_loop (cipher_len / block_size) 0 input dr.1 dr.0 iv []
      some (pkcs7_unpad decrypted)
