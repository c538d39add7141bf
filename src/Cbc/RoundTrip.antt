-- ===== src/Cbc/RoundTrip.antt =====
-- Decryption undoes encryption, for keys of 16, 24 and 32 bytes and any vector.
use native.Mathlib.Nat.{zero-add}
use cds_guard.Prelude.{
  true, false, ℕ, zero, suc, ◌+◌, ◌*◌, ◌/◌, ◌%◌, ◌≤◌, ◌<◌, ◌≡◌, refl, sym, ap, ap₂, ◌∙◌, some, List,
  [], ◌++◌, append-nil, append_assoc, arith, length, length-append, take, take-length_append,
  tabulate, drop, All-append, All-replicate, Bytes, u8, IsByte, AllBytes, IsBlock, ltb, ◌==◌,
}
use cds_guard.Aria.Block.{at, xor16, xor16-IsBlock, All-tabulate}
use cds_guard.Aria.Cipher.{crypt}
use cds_guard.Aria.KeySchedule.{dec_key_setup}
use cds_guard.Aria.KeySchedule.Rows.{IsKey}
use cds_guard.Aria.Inverse.{Inverts}
use cds_guard.Aria.RoundTrip.{key_setup-Inverts}
use cds_guard.Cbc.{
  slice16, pad_len, pkcs7_pad, pkcs7_unpad, generate_random_iv, encrypt_loop, encrypt, decrypt_loop,
  decrypt, size_sub,
}
use cds_guard.Cbc.Padding.{pad_len_bounds, length-pkcs7_pad, pkcs7_unpad-pad}
use cds_guard.Cbc.Slices.{
  drop-nil, read16-slice16, slice16-drop, slice16-IsBlock, StandsAt, slice16-StandsAt,
  StandsAt-left, StandsAt-right, xor16_twice, at-append_left, at-append_right,
}

module _ (r : ℕ) (ek dk : List Bytes) (inverts : Inverts r ek dk) (padded : Bytes)
    (padded_bytes : AllBytes padded) where
  -- The decryption loop from block `bi` takes back what the encryption loop appended as `cs`.
  abbrev Undone : ℕ → ℕ → Bytes → Bytes → Type 0
  Undone left bi prev cs =
      (input before : Bytes)
      → 16 + bi * 16 + length cs ≤ length input
      → StandsAt cs input (16 + bi * 16)
      → decrypt_loop left bi input r dk prev before ≡ some (before ++ drop (bi * 16) padded)

  abbrev Encrypted : ℕ → ℕ → Bytes → Bytes → Type 0
  Encrypted left bi prev out =
      (cs : Bytes) × (encrypt_loop left bi padded r ek prev out ≡ some (out ++ cs))
      × (length cs ≡ left * 16)
      × AllBytes cs
      × Undone left bi prev cs

  undo_block :
      (left bi : ℕ) (prev c cs : Bytes)
      → (bi + suc left) * 16 ≡ length padded
      → length c ≡ 16
      → crypt c r dk ≡ some (xor16 (slice16 padded (bi * 16)) prev)
      → Undone left (bi + 1) c cs
      → Undone (suc left) bi prev (c ++ cs)
  unfolding decrypt_loop
  undo_block left bi prev c cs size hc back undone input before inside stands =
      rw
        (
          read16-slice16 input (16 + bi * 16) (omega (arith, inside, length-append c cs)),
          slice16-StandsAt c input (16 + bi * 16) hc here,
          back,
        )
        (undone input _ (omega (arith, inside, length-append c cs)) there ∙ ap some joined)
    where
      b : Bytes
      b = slice16 padded (bi * 16)

      here : StandsAt c input (16 + bi * 16)
      here = StandsAt-left c cs input (16 + bi * 16) stands (omega (arith, length-append c cs))

      there : StandsAt cs input (16 + (bi + 1) * 16)
      there =
          StandsAt-right c cs input (16 + bi * 16) stands (16 + (bi + 1) * 16) (omega arith)
            (length-append c cs)

      joined :
          (before ++ xor16 (xor16 b prev) prev) ++ drop ((bi + 1) * 16) padded
          ≡ before ++ drop (bi * 16) padded
      joined =
          let next : (bi + 1) * 16 ≡ bi * 16 + 16 = omega arith in
          append_assoc before _ _
          ∙ ap (◌++◌ before) (
              ap₂ ◌++◌ (xor16_twice b prev (slice16-IsBlock padded (bi * 16) padded_bytes).0)
                (ap (λ k. drop k padded) next)
              ∙ sym (slice16-drop padded (bi * 16) (omega arith)))

  encrypt_loop-Encrypted :
      (left bi : ℕ) (prev out : Bytes)
      → (bi + left) * 16 ≡ length padded
      → IsBlock prev
      → Encrypted left bi prev out
  unfolding encrypt_loop decrypt_loop
  encrypt_loop-Encrypted zero bi prev out size hp = (
    [],
    ap some (sym (append-nil out)),
    refl,
    tt,
    λ input before inside _. ap some (
        sym (append-nil before) ∙ ap (◌++◌ before) (sym (drop-nil (bi * 16) padded (omega arith)))),
  )
  encrypt_loop-Encrypted (suc left) bi prev out size hp =
      let b = slice16-IsBlock padded (bi * 16) padded_bytes in
      let (c, made, hc, back) =
        inverts (xor16 (slice16 padded (bi * 16)) prev)
          (xor16-IsBlock (slice16 padded (bi * 16)) prev b.1 hp.1) in
      let (cs, rest, size', bytes, undone) =
        encrypt_loop-Encrypted left (bi + 1) c (out ++ c) (omega arith) hc in
      (
        c ++ cs,
        rw (read16-slice16 padded (bi * 16) (omega (arith, size)), made)
            (rest ∙ ap some (append_assoc out c cs)),
        omega (arith, length-append c cs, hc.0),
        All-append IsByte c cs hc.1 bytes,
        undo_block left bi prev c cs size hc.0 back undone,
      )

iv-IsBlock : (rd : ℕ → ℕ) (pos : ℕ) → IsBlock (generate_random_iv rd pos).0
unfolding generate_random_iv
iv-IsBlock rd pos = (refl, All-tabulate IsByte 16 pos (λ i. u8 (rd i)) (λ j. omega arith))

pkcs7_pad-AllBytes : (d : Bytes) → AllBytes d → AllBytes (pkcs7_pad d)
unfolding pkcs7_pad
pkcs7_pad-AllBytes d h = All-append IsByte d _ h (All-replicate IsByte _ _ (omega arith))

-- Past its guards `decrypt` runs the loop over the blocks behind the vector.
decrypt_accepts :
    (key iv cs dk_out : Bytes) (r left : ℕ) (dk : List Bytes)
    → length iv ≡ 16
    → length cs ≡ left * 16
    → 0 < left
    → dec_key_setup key (length key * 8) ≡ some (dk, r)
    → decrypt_loop left 0 (iv ++ cs) r dk iv [] ≡ some dk_out
    → decrypt key (iv ++ cs) ≡ some (pkcs7_unpad dk_out)
unfolding decrypt
decrypt_accepts key iv cs dk_out r left dk hiv hcs pos setup loop = rw (
  lt_iff,
  read16-slice16 (iv ++ cs) 0 (omega (arith, size)),
  sub_size,
  mod_iff,
  setup,
  blocks,
  first,
  loop,
)
  where
    size : length (iv ++ cs) ≡ 16 + left * 16
    size = omega (arith, length-append iv cs)

    lt_iff : ltb (length (iv ++ cs)) 32 ≡ false
    lt_iff = ground (arith, size)

    sub_size : size_sub (length (iv ++ cs)) 16 ≡ left * 16
    sub_size = ground (arith, size)

    mod_iff : ((left * 16) % 16 == 0) ≡ true
    mod_iff = ground (arith, size)

    blocks : (left * 16) / 16 ≡ left
    blocks = omega arith

    first : slice16 (iv ++ cs) 0 ≡ iv
    first =
        slice16-StandsAt iv (iv ++ cs) 0 hiv
          (λ k h. ap (at (iv ++ cs)) (zero-add k) ∙ at-append_left iv cs k h)

-- For a key of 16, 24 or 32 bytes and an input of bytes, whatever is drawn, `encrypt` succeeds and makes
-- 16 draws; its result begins with the low bytes of these 16 draws in order, behind which are as many
-- bytes as the padded input has, and `decrypt` with the key returns the input.
pub decrypt-encrypt :
    (rd : ℕ → ℕ) (key input : Bytes) (pos r : ℕ)
    → IsKey key r
    → AllBytes input
    → (out : Bytes) × (encrypt rd key input pos ≡ some (out, pos + 16))
      × (take 16 out ≡ tabulate 16 pos (λ i. u8 (rd i)))
      × (length out ≡ 16 + (length input + pad_len (length input)))
      × AllBytes out
      × (decrypt key out ≡ some input)
unfolding encrypt generate_random_iv
decrypt-encrypt rd key input pos r hk hb =
    let (ek, dk, enc, dec, inverts, _) = key_setup-Inverts key r hk in
    let iv = (generate_random_iv rd pos).0 in
    let hiv = iv-IsBlock rd pos in
    let (cs, made, size', bytes, undone) =
      encrypt_loop-Encrypted r ek dk inverts (pkcs7_pad input) (pkcs7_pad-AllBytes input hb) left 0
        iv iv blocks hiv in
    (
      iv ++ cs,
      rw (enc, made) refl,
      take-length_append iv cs,
      omega (arith, length-append iv cs, hiv.0, size', size, bound),
      All-append IsByte iv cs hiv.1 bytes,
      decrypt_accepts key iv cs _ r left dk hiv.0 size' (omega (arith, size, bound)) dec (
            undone (iv ++ cs) [] (omega (arith, length-append iv cs, hiv.0))
              (λ k h. at-append_right iv cs k (16 + k) (omega (arith, hiv.0))))
          ∙ ap some (pkcs7_unpad-pad input),
    )
  where
    left : ℕ
    left = length (pkcs7_pad input) / 16

    size : length (pkcs7_pad input) ≡ length input + pad_len (length input)
    size = length-pkcs7_pad input

    bound :
        (0 < pad_len (length input))
        × (pad_len (length input) ≤ 16)
        × ((length input + pad_len (length input)) % 16 ≡ 0)
    bound = pad_len_bounds (length input)

    blocks : (0 + left) * 16 ≡ length (pkcs7_pad input)
    blocks = omega (arith, size, bound)
