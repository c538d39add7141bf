-- ===== src/Examples/Cbc.antt =====
-- ARIA in CBC mode on concrete inputs.
use cds_guard.Prelude.{
  ◌≡◌, ◌≢◌, ◌≤◌, refl, ap, inr, some, [], ◌∷◌, Bytes, IsByte, AllBytes, length, ◌+◌, ◌-◌, replicate,
  take, tabulate, u8, All-replicate, arith,
}
use cds_guard.Aria.KeySchedule.Rows.{IsKey}
use cds_guard.Cbc.{pad_len, pkcs7_pad, pkcs7_unpad, padding_matches, encrypt, decrypt}
use cds_guard.Cbc.RoundTrip.{decrypt-encrypt}
use cds_guard.Cbc.Rejection.{pkcs7_pad-unpad, decrypt-total}

abbrev key32 : Bytes
key32 = replicate 32 1

key32-IsKey : IsKey key32 16
key32-IsKey = (All-replicate IsByte 32 1 (omega arith), inr (inr (refl, refl)))

abbrev message : Bytes
message = 104 ∷ 105 ∷ []

decrypt-encrypt_example :
    (out : Bytes) × (encrypt (λ i. i) key32 message 0 ≡ some (out, 0 + 16))
    × (take 16 out ≡ tabulate 16 0 (λ i. u8 i))
    × (length out ≡ 16 + (length message + pad_len (length message)))
    × AllBytes out
    × (decrypt key32 out ≡ some message)
decrypt-encrypt_example =
    decrypt-encrypt (λ i. i) key32 message 0 16 key32-IsKey (omega arith, (omega arith, tt))

abbrev garbage : Bytes
garbage = replicate 48 9

decrypt-total_example :
    (out : Bytes) × (decrypt key32 garbage ≡ some out) × (length out ≤ length garbage - 16)
decrypt-total_example = decrypt-total key32 garbage 16 key32-IsKey

padded : pkcs7_unpad (5 ∷ 5 ∷ replicate 14 14) ≡ 5 ∷ 5 ∷ []
unfolding pkcs7_unpad padding_matches
padded = refl

not_empty : ◌≢◌ {A = Bytes} (5 ∷ 5 ∷ []) []
not_empty h = omega (arith, ap length h)

pkcs7_pad-unpad_example : 5 ∷ 5 ∷ replicate 14 14 ≡ pkcs7_pad (5 ∷ 5 ∷ [])
pkcs7_pad-unpad_example = pkcs7_pad-unpad (5 ∷ 5 ∷ replicate 14 14) (5 ∷ 5 ∷ []) padded not_empty
