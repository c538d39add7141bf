-- ===== src/GuardL2/Crc/Detection.antt =====
-- The checksum tells apart any two messages that differ in one byte.
use cds_guard.Prelude.{
  ◌≢◌, ℕ, zero, suc, ◌/◌, ◌%◌, ◌^◌, ◌<◌, ◌≡◌, sym, ap, ap₂, ◌∙◌, bit_xor, arith, [], ◌∷◌, ◌++◌,
  Bytes, AllBytes, IsByte, ◌⊕◌, ◌==◌, if◌then◌else◌, refl,
}
use cds_guard.Prelude.Xor.{xor_comm, xor_cancel, xor-lt, xor-shift, zero-xor}
use cds_guard.GuardL2.Crc.{polynomial, crc_bit, crc_bits, compute_crc32}
use cds_guard.GuardL2.Crc.Bitwise.{tap, crc_bit-tap, crc_bitwise, crc_loop-bitwise}

tap-lt : (c : ℕ) → tap c < 2 ^ 32
tap-lt c = ground arith

crc_bit-lt : (c : ℕ) → c < 2 ^ 32 → crc_bit c < 2 ^ 32
crc_bit-lt c h =
    let r = xor-lt 32 (c / 2) (tap c) (omega arith) (tap-lt c) in omega (arith, r, crc_bit-tap c)

-- The top bit of a step tells the bit that was shifted out.
crc_bit-top : (c : ℕ) → c < 2 ^ 32 → crc_bit c / 2 ^ 31 ≡ c % 2
crc_bit-top c h =
    let no_top : c / 2 / 2 ^ 31 ≡ 0 = omega arith in
    let top : tap c / 2 ^ 31 ≡ c % 2 = ground arith in
    ap (λ (t : ℕ). t / 2 ^ 31) (crc_bit-tap c)
    ∙ xor-shift 31 (c / 2) (tap c)
    ∙ ap₂ bit_xor no_top top
    ∙ zero-xor (c % 2)

crc_bit-injective : (c d : ℕ) → c < 2 ^ 32 → d < 2 ^ 32 → crc_bit c ≡ crc_bit d → c ≡ d
crc_bit-injective c d hc hd h = omega (arith, same_low, same_high)
  where
    same_low : c % 2 ≡ d % 2
    same_low = sym (crc_bit-top c hc) ∙ ap (λ (t : ℕ). t / 2 ^ 31) h ∙ crc_bit-top d hd

    same_tap : tap c ≡ tap d
    same_tap = ap (λ (t : ℕ). if t == 1 then polynomial else 0) same_low

    same_high : c / 2 ≡ d / 2
    same_high =
        sym (xor_cancel (c / 2) (tap c))
        ∙ ap₂ bit_xor (sym (crc_bit-tap c) ∙ h ∙ crc_bit-tap d) same_tap
        ∙ xor_cancel (d / 2) (tap d)

crc_bits-lt : (n c : ℕ) → c < 2 ^ 32 → crc_bits n c < 2 ^ 32
unfolding crc_bits
crc_bits-lt zero c h = h
crc_bits-lt (suc n) c h = crc_bits-lt n (crc_bit c) (crc_bit-lt c h)

crc_bits-injective : (n c d : ℕ) → c < 2 ^ 32 → d < 2 ^ 32 → crc_bits n c ≡ crc_bits n d → c ≡ d
unfolding crc_bits
crc_bits-injective zero c d hc hd h = h
crc_bits-injective (suc n) c d hc hd h =
    crc_bit-injective c d hc hd
      (crc_bits-injective n (crc_bit c) (crc_bit d) (crc_bit-lt c hc) (crc_bit-lt d hd) h)

word_byte : (c b : ℕ) → c < 2 ^ 32 → b < 256 → c ⊕ b < 2 ^ 32
word_byte c b h k = xor-lt 32 c b h (omega arith)

crc_bitwise-lt :
    (c : ℕ) (input : Bytes) → c < 2 ^ 32 → AllBytes input → crc_bitwise c input < 2 ^ 32
unfolding crc_bitwise
crc_bitwise-lt c [] h k = h
crc_bitwise-lt c (b ∷ input) h k =
    crc_bitwise-lt (crc_bits 8 (c ⊕ b)) input (crc_bits-lt 8 (c ⊕ b) (word_byte c b h k.0)) k.1

crc_bitwise-injective :
    (c d : ℕ) (input : Bytes)
    → c < 2 ^ 32
    → d < 2 ^ 32
    → AllBytes input
    → crc_bitwise c input ≡ crc_bitwise d input
    → c ≡ d
unfolding crc_bitwise
crc_bitwise-injective c d [] hc hd k h = h
crc_bitwise-injective c d (b ∷ input) hc hd k h =
    let wc = word_byte c b hc k.0 in
    let wd = word_byte d b hd k.0 in
    let same = crc_bits-injective 8 (c ⊕ b) (d ⊕ b) wc wd (
      crc_bitwise-injective (crc_bits 8 (c ⊕ b)) (crc_bits 8 (d ⊕ b)) input
        (crc_bits-lt 8 (c ⊕ b) wc) (crc_bits-lt 8 (d ⊕ b) wd) k.1 h) in
    sym (xor_cancel c b) ∙ ap (λ (t : ℕ). t ⊕ b) same ∙ xor_cancel d b

crc_bitwise-append :
    (c : ℕ) (xs ys : Bytes) → crc_bitwise c (xs ++ ys) ≡ crc_bitwise (crc_bitwise c xs) ys
unfolding crc_bitwise
crc_bitwise-append c [] ys = refl
crc_bitwise-append c (x ∷ xs) ys = crc_bitwise-append (crc_bits 8 (c ⊕ x)) xs ys

AllBytes-parts :
    (xs : Bytes) (a : ℕ) (ys : Bytes)
    → AllBytes (xs ++ a ∷ ys)
    → AllBytes xs × IsByte a × AllBytes ys
AllBytes-parts [] a ys h = (tt, h.0, h.1)
AllBytes-parts (x ∷ xs) a ys h = let r = AllBytes-parts xs a ys h.1 in ((h.0, r.0), r.1, r.2)

-- Two messages of bytes that differ in one byte at most and have the same checksum are the same.
compute_crc32-injective :
    (xs : Bytes) (a b : ℕ) (ys : Bytes)
    → AllBytes (xs ++ a ∷ ys)
    → AllBytes (xs ++ b ∷ ys)
    → compute_crc32 (xs ++ a ∷ ys) ≡ compute_crc32 (xs ++ b ∷ ys)
    → a ≡ b
unfolding compute_crc32 crc_bitwise
compute_crc32-injective xs a b ys ha hb h =
    let (hx, byte_a, hy) = AllBytes-parts xs a ys ha in
    let (_, byte_b, _) = AllBytes-parts xs b ys hb in
    let top : 0xFFFFFFFF < 2 ^ 32 = omega arith in
    let s = crc_bitwise 0xFFFFFFFF xs in
    let hs = crc_bitwise-lt 0xFFFFFFFF xs top hx in
    let wa = word_byte s a hs byte_a in
    let wb = word_byte s b hs byte_b in
    let va = crc_bits-lt 8 (s ⊕ a) wa in
    let vb = crc_bits-lt 8 (s ⊕ b) wb in
    let after_a =
      crc_loop-bitwise 0xFFFFFFFF (xs ++ a ∷ ys) ha ∙ crc_bitwise-append 0xFFFFFFFF xs (a ∷ ys) in
    let after_b =
      crc_loop-bitwise 0xFFFFFFFF (xs ++ b ∷ ys) hb ∙ crc_bitwise-append 0xFFFFFFFF xs (b ∷ ys) in
    let same_end : crc_bitwise (crc_bits 8 (s ⊕ a)) ys ≡ crc_bitwise (crc_bits 8 (s ⊕ b)) ys =
      omega (
        arith,
        h,
        after_a,
        after_b,
        crc_bitwise-lt (crc_bits 8 (s ⊕ a)) ys va hy,
        crc_bitwise-lt (crc_bits 8 (s ⊕ b)) ys vb hy,
      ) in
    let same =
      crc_bits-injective 8 (s ⊕ a) (s ⊕ b) wa wb
        (crc_bitwise-injective (crc_bits 8 (s ⊕ a)) (crc_bits 8 (s ⊕ b)) ys va vb hy same_end) in
    sym (xor_cancel a s)
    ∙ ap (λ (t : ℕ). t ⊕ s) (xor_comm a s ∙ same ∙ xor_comm s b)
    ∙ xor_cancel b s

-- Two messages of bytes that differ in exactly one byte have different checksums.
pub compute_crc32-detects :
    (xs : Bytes) (a b : ℕ) (ys : Bytes)
    → AllBytes (xs ++ a ∷ ys)
    → AllBytes (xs ++ b ∷ ys)
    → a ≢ b
    → compute_crc32 (xs ++ a ∷ ys) ≢ compute_crc32 (xs ++ b ∷ ys)
compute_crc32-detects xs a b ys ha hb differ same =
    differ (compute_crc32-injective xs a b ys ha hb same)
