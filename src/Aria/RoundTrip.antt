-- ===== src/Aria/RoundTrip.antt =====
-- `EncKeySetup`, `DecKeySetup` and `Crypt` together: the cipher and its inverse.
use cds_guard.Prelude.{
  ℕ, ◌*◌, ◌≡◌, ap, ◌∙◌, ◌⊎◌, inl, inr, Option, some, List, Bytes, IsBlock, length,
}
use cds_guard.Aria.Cipher.{crypt}
use cds_guard.Aria.KeySchedule.{enc_key_setup, dec_key_setup}
use cds_guard.Aria.KeySchedule.Rows.{IsKey, enc_key_setup-Returns}
use cds_guard.Aria.Inverse.{Inverts, IsTotal, dec_keys-IsInverted}

abbrev pub KeyGives : Bytes → ℕ → (Bytes → ℕ → Option (List Bytes × ℕ)) → List Bytes → Type 0
KeyGives key r setup e = setup key (length key * 8) ≡ some (e, r)

-- For a key of 16, 24 or 32 bytes both setups return the round keys of 12, 14 or 16 rounds, and on
-- every block the cipher with the second ones undoes the cipher with the first ones.
pub key_setup-Inverts :
    (key : Bytes) (r : ℕ)
    → IsKey key r
    → (ek : List Bytes) × (dk : List Bytes) × KeyGives key r enc_key_setup ek
      × KeyGives key r dec_key_setup dk
      × Inverts r ek dk
      × IsTotal r dk
unfolding dec_key_setup
key_setup-Inverts key r h =
    let (er, found, shape) = enc_key_setup-Returns key r h in
    let (dk, made, inverts, total) = dec_keys-IsInverted r er.0 (rounds_of h.1) shape.1 in
    (
      er.0,
      dk,
      found ∙ ap (λ (t : ℕ). some (er.0, t)) shape.0,
      rw (found, shape.0, made),
      inverts,
      total,
    )
  where
    rounds_of :
        ((length key ≡ 16) × (r ≡ 12))
          ⊎ (((length key ≡ 24) × (r ≡ 14)) ⊎ ((length key ≡ 32) × (r ≡ 16)))
        → (r ≡ 12) ⊎ ((r ≡ 14) ⊎ (r ≡ 16))
    rounds_of (inl g) = inl g.1
    rounds_of (inr (inl g)) = inr (inl g.1)
    rounds_of (inr (inr g)) = inr (inr g.1)

-- For a key of 16, 24 or 32 bytes both setups return round keys for 12, 14 or 16 rounds; with them
-- the cipher makes a block of any block of bytes, and the cipher with the second ones returns the
-- block that it was made of.
pub crypt-crypt :
    (key p : Bytes) (r : ℕ)
    → IsKey key r
    → IsBlock p
    → (ek : List Bytes) × (dk : List Bytes) × (c : Bytes) × (enc_key_setup key (length key * 8)
        ≡ some (ek, r))
      × (dec_key_setup key (length key * 8) ≡ some (dk, r))
      × (crypt p r ek ≡ some c)
      × IsBlock c
      × (crypt c r dk ≡ some p)
crypt-crypt key p r h hp =
    let (ek, dk, enc, dec, inverts, _) = key_setup-Inverts key r h in
    let (c, made, block, back) = inverts p hp in (ek, dk, c, enc, dec, made, block, back)
