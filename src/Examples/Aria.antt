-- ===== src/Examples/Aria.antt =====
-- The ARIA cipher on the test vectors of RFC 5794, appendix A.
use cds_guard.Prelude.{
  ℕ, ◌≡◌, refl, Option, some, ◌>>=◌, List, [], ◌∷◌, Bytes, IsByte, IsBlock, length, ◌*◌, tabulate,
  replicate, inl, All-replicate, arith,
}
use cds_guard.Aria.KeySchedule.Rows.{IsKey}
use cds_guard.Aria.RoundTrip.{crypt-crypt}
use cds_guard.Aria.Tables.{s_at, krk}
use cds_guard.Aria.Block.{xor16}
use cds_guard.Aria.Diffusion.{dl}
use cds_guard.Aria.Cipher.{substitute, two_rounds, crypt}
use cds_guard.Aria.KeySchedule.{
  read, key_layer, add_high, row_steps, rot_xor, apply_row_steps, next_constant, enc_key_setup,
  dec_key_setup,
}

abbrev key_of : ℕ → Bytes
key_of n = tabulate n 0 (λ j. j)

abbrev plain : Bytes
plain = tabulate 16 0 (λ j. 17 * j)

run : (Bytes → ℕ → Option (List Bytes × ℕ)) → Bytes → Bytes → Option Bytes
run setup key p = setup key (length key * 8) >>= λ er. crypt p er.1 er.0

aria128_vector :
    run enc_key_setup (key_of 16) plain
    ≡ some (
        0xd7 ∷ 0x18 ∷ 0xfb ∷ 0xd6 ∷ 0xab ∷ 0x64 ∷ 0x4c ∷ 0x73 ∷ 0x9d ∷ 0xa9 ∷ 0x5f ∷ 0x3b ∷ 0xe6
        ∷ 0x45 ∷ 0x17 ∷ 0x78 ∷ [])
unfolding run crypt two_rounds substitute dl s_at enc_key_setup read key_layer add_high row_steps
    rot_xor apply_row_steps next_constant krk xor16
aria128_vector = refl

aria192_vector :
    run enc_key_setup (key_of 24) plain
    ≡ some (
        0x26 ∷ 0x44 ∷ 0x9c ∷ 0x18 ∷ 0x05 ∷ 0xdb ∷ 0xe7 ∷ 0xaa ∷ 0x25 ∷ 0xa4 ∷ 0x68 ∷ 0xce ∷ 0x26
        ∷ 0x3a ∷ 0x9e ∷ 0x79 ∷ [])
unfolding run crypt two_rounds substitute dl s_at enc_key_setup read key_layer add_high row_steps
    rot_xor apply_row_steps next_constant krk xor16
aria192_vector = refl

aria256_vector :
    run enc_key_setup (key_of 32) plain
    ≡ some (
        0xf9 ∷ 0x2b ∷ 0xd7 ∷ 0xc7 ∷ 0x9f ∷ 0xb7 ∷ 0x2e ∷ 0x2f ∷ 0x2b ∷ 0x8f ∷ 0x80 ∷ 0xc1 ∷ 0x97
        ∷ 0x2d ∷ 0x24 ∷ 0xfc ∷ [])
unfolding run crypt two_rounds substitute dl s_at enc_key_setup read key_layer add_high row_steps
    rot_xor apply_row_steps next_constant krk xor16
aria256_vector = refl

abbrev key16 : Bytes
key16 = replicate 16 1

key16-IsKey : IsKey key16 12
key16-IsKey = (All-replicate IsByte 16 1 (omega arith), inl (refl, refl))

abbrev block : Bytes
block = replicate 16 7

crypt-crypt_example :
    (ek : List Bytes) × (dk : List Bytes) × (c : Bytes) × (enc_key_setup key16 (length key16 * 8)
      ≡ some (ek, 12))
    × (dec_key_setup key16 (length key16 * 8) ≡ some (dk, 12))
    × (crypt block 12 ek ≡ some c)
    × IsBlock c
    × (crypt c 12 dk ≡ some block)
crypt-crypt_example =
    crypt-crypt key16 block 12 key16-IsKey (refl, All-replicate IsByte 16 7 (omega arith))
