-- ===== src/Cbc/Rejection.antt =====
-- What decryption does with bytes that no encryption made.
use cds_guard.Prelude.{
  ℕ, zero, suc, ◌+◌, ◌-◌, ◌*◌, ◌/◌, ◌%◌, ◌≤◌, ◌<◌, ◌≡◌, ◌≢◌, inl, inr, refl, sym, ap, ap₂, ◌∙◌,
  some, true, false, List, [], ◌∷◌, ◌++◌, append-nil, arith, length, length-append, length-take,
  take, take-append-drop, replicate, tabulate, Bytes, u8, ltb, ◌==◌, Bool-cases,
}
use cds_guard.Aria.Block.{at, xor16, length-xor16, tabulate-ext}
use cds_guard.Aria.KeySchedule.Rows.{IsKey}
use cds_guard.Aria.Inverse.{IsTotal}
use cds_guard.Aria.RoundTrip.{key_setup-Inverts}
use cds_guard.Cbc.{
  slice16, pad_len, pkcs7_pad, pkcs7_unpad, padding_matches, decrypt_loop, decrypt, read16,
  size_sub,
}
use cds_guard.Cbc.Padding.{pad_len_bounds}
use cds_guard.Cbc.Slices.{drop-nil, tabulate-drop, length-slice16, read16-slice16}

padding_matches_sound :
    (left i v : ℕ) (e : Bytes) (j : ℕ)
    → padding_matches left i v e ≡ true
    → i ≤ j
    → j < i + left
    → at e (length e - 1 - j) ≡ v
unfolding padding_matches
padding_matches_sound zero i v e j h p q = absurd (omega arith)
padding_matches_sound (suc left) i v e j h p q =
    ground (arith, padding_matches_sound left (i + 1) v e j)

tabulate-replicate : (n i v : ℕ) → tabulate n i (λ _. v) ≡ replicate n v
tabulate-replicate zero i v = refl
tabulate-replicate (suc n) i v = ap (◌∷◌ v) (tabulate-replicate n (suc i) v)

-- The matched bytes are the end of the vector.
padding-end :
    (n : ℕ) (e : Bytes)
    → n ≤ length e
    → padding_matches n 0 n e ≡ true
    → e ≡ take (length e - n) e ++ replicate n n
padding-end n e h matches =
    sym (take-append-drop k e)
    ∙ ap (◌++◌ (take k e)) (
        tabulate-drop n k e (omega arith)
        ∙ ap₂ ◌++◌ (tabulate-ext n k (at e) (λ _. n) same ∙ tabulate-replicate n k n)
            (drop-nil (k + n) e (omega arith))
        ∙ append-nil _)
  where
    k : ℕ
    k = length e - n

    same : (j : ℕ) → k ≤ j → j < k + n → at e j ≡ n
    same j p q =
        let place : j ≡ length e - 1 - (length e - 1 - j) = omega arith in
        ap (at e) place
        ∙ padding_matches_sound n 0 n e (length e - 1 - j) matches (omega arith) (omega arith)

-- The cases in which `pkcs7_unpad` returns bytes.
unpad-cases :
    (e d : Bytes)
    → pkcs7_unpad e ≡ d
    → d ≢ []
    → let n = at e (length e - 1) in
      (length e % 16 ≡ 0)
      × (0 < length e)
      × (0 < n)
      × (n ≤ 16)
      × (padding_matches n 0 n e ≡ true)
      × (take (length e - n) e ≡ d)
unfolding pkcs7_unpad
unpad-cases e d h ne = ground arith

pad_len_unique :
    (m n : ℕ) → 0 < n → n ≤ 16 → (m + n) % 16 ≡ 0 → (pad_len m ≡ n) × (u8 (pad_len m) ≡ n)
pad_len_unique m n pos le whole = omega (arith, pad_len_bounds m)

-- `pkcs7_unpad` returns bytes only for what `pkcs7_pad` makes of them: no other padding is accepted.
pub pkcs7_pad-unpad : (e d : Bytes) → pkcs7_unpad e ≡ d → d ≢ [] → e ≡ pkcs7_pad d
unfolding pkcs7_pad
pkcs7_pad-unpad e d h ne =
    let (whole, some_bytes, pos, le, matches, rest) = unpad-cases e d h ne in
    let n = at e (length e - 1) in
    let size : length d ≡ length e - n =
      omega (arith, ap length rest, length-take (length e - n) e) in
    let unique = pad_len_unique (length d) n pos le (omega arith) in
    padding-end n e (omega arith) matches ∙ ap₂ ◌++◌ rest (sym (ap₂ replicate unique.0 unique.1))

length-unpad : (e : Bytes) → length (pkcs7_unpad e) ≤ length e
unfolding pkcs7_unpad
length-unpad e = ground (arith, length-take (length e - at e (length e - 1)) e)

decrypt_loop-total :
    (left bi : ℕ) (input : Bytes) (r : ℕ) (dk : List Bytes) (prev before : Bytes)
    → IsTotal r dk
    → 16 + (bi + left) * 16 ≤ length input
    → (out : Bytes) × (decrypt_loop left bi input r dk prev before ≡ some out)
      × (length out ≡ length before + left * 16)
unfolding decrypt_loop
decrypt_loop-total zero bi input r dk prev before total inside = (before, refl, omega arith)
decrypt_loop-total (suc left) bi input r dk prev before total inside =
    let cblock = slice16 input (16 + bi * 16) in
    let (interm, made, _) = total cblock (length-slice16 input (16 + bi * 16)) in
    let (out, rest, size) =
      decrypt_loop-total left (bi + 1) input r dk cblock (before ++ xor16 interm prev) total
        (omega (arith, inside)) in
    (
      out,
      rw (read16-slice16 input (16 + bi * 16) (omega (arith, inside)), made) rest,
      omega (arith, size, length-append before (xor16 interm prev), length-xor16 interm prev),
    )

-- With a key of 16, 24 or 32 bytes `decrypt` succeeds on any input: the vector and every block that it
-- reads lie inside the input. What it returns is empty for an input shorter than 16 bytes, and otherwise
-- at least 16 bytes shorter than the input.
pub decrypt-total :
    (key input : Bytes) (r : ℕ)
    → IsKey key r
    → (out : Bytes) × (decrypt key input ≡ some out) × (length out ≤ length input - 16)
unfolding decrypt
decrypt-total key input r hk = elim (Bool-cases (ltb (length input) 32)) [
  | inl short ↦ ([], rw short, omega arith)
  | inr long ↦ elim (Bool-cases (size_sub (length input) 16 % 16 == 0)) [
    | inr ragged ↦ ([], rw (long, first long, ragged), omega arith)
    | inl whole ↦ accepted long whole
  ]
]
  where
    first : ltb (length input) 32 ≡ false → read16 input 0 ≡ some (slice16 input 0)
    first long = read16-slice16 input 0 (ground arith)

    accepted :
        ltb (length input) 32 ≡ false
        → (size_sub (length input) 16 % 16 == 0) ≡ true
        → (out : Bytes) × (decrypt key input ≡ some out) × (length out ≤ length input - 16)
    accepted long whole =
        let (ek, dk, _, dec, _, total) = key_setup-Inverts key r hk in
        let (raw, made, size) =
          decrypt_loop-total (size_sub (length input) 16 / 16) 0 input r dk (slice16 input 0) []
            total (omega (arith, exact)) in
        (
          pkcs7_unpad raw,
          rw (long, first long, whole, dec, made),
          omega (arith, size, exact, length-unpad raw),
        )
      where
        exact : (size_sub (length input) 16 ≡ length input - 16) × (32 ≤ length input)
        exact = ground (arith, long)
