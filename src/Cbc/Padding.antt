-- ===== src/Cbc/Padding.antt =====
-- PKCS#7: what `pkcs7_pad` adds, `pkcs7_unpad` takes away.
use native.Mathlib.Nat.{zero-add, sub-zero}
use cds_guard.Prelude.{
  ℕ, zero, suc, ◌+◌, ◌-◌, ◌%◌, ◌≤◌, ◌<◌, ◌≡◌, refl, sym, ap, ◌∙◌, true, [], ◌∷◌, ◌++◌, arith,
  length, length-append, length-replicate, take, take-length_append, replicate, Bytes, u8,
}
use cds_guard.Aria.Block.{at}
use cds_guard.Cbc.{pad_len, pkcs7_pad, pkcs7_unpad, padding_matches}

-- The padding fills the last block and is never empty.
pub pad_len_bounds : (n : ℕ) → (0 < pad_len n) × (pad_len n ≤ 16) × ((n + pad_len n) % 16 ≡ 0)
unfolding pad_len
pad_len_bounds n = ground arith

pub length-pkcs7_pad : (d : Bytes) → length (pkcs7_pad d) ≡ length d + pad_len (length d)
unfolding pkcs7_pad
length-pkcs7_pad d =
    length-append d _ ∙ ap (◌+◌ (length d)) (length-replicate (pad_len (length d)) _)

at-append_right : (d e : Bytes) (k : ℕ) → at (d ++ e) (length d + k) ≡ at e k
at-append_right [] e k = ap (at e) (zero-add k)
at-append_right (x ∷ d) e k =
    let one_less : suc (length d) + k ≡ suc (length d + k) = omega arith in
    ap (at (x ∷ d ++ e)) one_less ∙ at-append_right d e k

at-replicate : (n k v : ℕ) → k < n → at (replicate n v) k ≡ v
at-replicate zero k v h = absurd (omega arith)
at-replicate (suc n) zero v h = refl
at-replicate (suc n) (suc k) v h = at-replicate n k v (omega arith)

module _ (d : Bytes) (n v : ℕ) where
  -- The last `n` bytes of a vector that ends in `n` times `v`.
  at-padding : (i : ℕ) → i < n → at (d ++ replicate n v) (length (d ++ replicate n v) - 1 - i) ≡ v
  at-padding i h =
      ap (at (d ++ replicate n v)) place
      ∙ at-append_right d (replicate n v) (n - 1 - i)
      ∙ at-replicate n (n - 1 - i) v (omega arith)
    where
      place : length (d ++ replicate n v) - 1 - i ≡ length d + (n - 1 - i)
      place = omega (arith, length-append d (replicate n v), length-replicate n v)

  padding_matches-padding :
      (left i : ℕ) → left + i ≤ n → padding_matches left i v (d ++ replicate n v) ≡ true
  unfolding padding_matches
  padding_matches-padding zero i h = refl
  padding_matches-padding (suc left) i h =
      ground (arith, at-padding i, padding_matches-padding left (i + 1))

unpad_accepts :
    (e d : Bytes) (n : ℕ)
    → 0 < n
    → n ≤ 16
    → 0 < length e
    → length e % 16 ≡ 0
    → at e (length e - 1) ≡ n
    → padding_matches n 0 n e ≡ true
    → take (length e - n) e ≡ d
    → pkcs7_unpad e ≡ d
unfolding pkcs7_unpad
unpad_accepts e d n pos le some_bytes whole last matches rest = rw last (rw matches (ground arith))

-- Removing the padding undoes adding it, whatever the bytes.
pub pkcs7_unpad-pad : (d : Bytes) → pkcs7_unpad (pkcs7_pad d) ≡ d
unfolding pkcs7_pad
pkcs7_unpad-pad d = rw (byte n bound.1) (
    unpad_accepts (d ++ replicate n n) d n bound.0 bound.1 (omega (arith, size, bound))
      (omega (arith, size, bound)) last (padding_matches-padding d n n n 0 (omega arith)) rest)
  where
    n : ℕ
    n = pad_len (length d)

    bound : (0 < n) × (n ≤ 16) × ((length d + n) % 16 ≡ 0)
    bound = pad_len_bounds (length d)

    size : length (d ++ replicate n n) ≡ length d + n
    size = length-append d (replicate n n) ∙ ap (◌+◌ (length d)) (length-replicate n n)

    byte : (m : ℕ) → m ≤ 16 → u8 m ≡ m
    byte m h = omega arith

    last : at (d ++ replicate n n) (length (d ++ replicate n n) - 1) ≡ n
    last = ap (at (d ++ replicate n n)) (sym (sub-zero _)) ∙ at-padding d n n 0 bound.0

    rest : take (length (d ++ replicate n n) - n) (d ++ replicate n n) ≡ d
    rest = ap (λ k. take k (d ++ replicate n n)) place ∙ take-length_append d (replicate n n)
      where
        place : length (d ++ replicate n n) - n ≡ length d
        place = omega (arith, size)
