-- ===== src/GuardL2/Crc/Bitwise.antt =====
-- The table-driven checksum is the bit-by-bit one.
use native.Mathlib.Nat.{pow-suc, zero-add}
use cds_guard.Prelude.{
  ℕ, zero, suc, ◌-◌, ◌*◌, ◌/◌, ◌%◌, ◌^◌, ◌<◌, ◌≡◌, inl, inr, refl, sym, ap, ap₂, ◌∙◌, bit_xor,
  arith, [], ◌∷◌, Bytes, AllBytes, ◌⊕◌, ◌==◌, if◌then◌else◌, get_or, Bool-cases,
}
use cds_guard.Prelude.Xor.{xor_step, xor_comm, xor_assoc, xor-zero, xor-half, xor-shift, xor_fields}
use cds_guard.Aria.Block.{get_or-tabulate}
use cds_guard.GuardL2.Crc.{
  polynomial, crc_bit, crc_bits, crc32_single, generate_crc32_table, crc_byte, crc_loop,
  compute_crc32,
}

-- The lowest digit decides whether the polynomial is added.
abbrev pub tap : ℕ → ℕ
tap c = if c % 2 == 1 then polynomial else 0

pub crc_bit-tap : (c : ℕ) → crc_bit c ≡ c / 2 ⊕ tap c
unfolding crc_bit
crc_bit-tap c = elim (Bool-cases (c % 2 == 1)) [ inl e ↦ rw e | inr e ↦ rw (e, xor-zero) ]

tap-xor : (a b : ℕ) → tap (a ⊕ b) ≡ tap a ⊕ tap b
tap-xor a b = by_digits (a % 2) (b % 2) refl refl (omega arith) (omega arith)
  where
    by_digits : (x y : ℕ) → a % 2 ≡ x → b % 2 ≡ y → x < 2 → y < 2 → tap (a ⊕ b) ≡ tap a ⊕ tap b
    by_digits zero zero p q l m =
        let r : (a ⊕ b) % 2 ≡ 0 = omega (arith, xor_step a b) in rw (p, q, r)
    by_digits zero (suc zero) p q l m =
        let r : (a ⊕ b) % 2 ≡ 1 = omega (arith, xor_step a b) in rw (p, q, r)
    by_digits (suc zero) zero p q l m =
        let r : (a ⊕ b) % 2 ≡ 1 = omega (arith, xor_step a b) in rw (p, q, r)
    by_digits (suc zero) (suc zero) p q l m =
        let r : (a ⊕ b) % 2 ≡ 0 = omega (arith, xor_step a b) in rw (p, q, r)
    by_digits (suc (suc x)) y p q l m = absurd (omega arith)
    by_digits x (suc (suc y)) p q l m = absurd (omega arith)

xor_swap : (a b c d : ℕ) → a ⊕ b ⊕ (c ⊕ d) ≡ a ⊕ c ⊕ (b ⊕ d)
xor_swap a b c d =
    xor_assoc a b (c ⊕ d)
    ∙ ap (◌⊕◌ a) (sym (xor_assoc b c d) ∙ ap (λ (t : ℕ). t ⊕ d) (xor_comm b c) ∙ xor_assoc c b d)
    ∙ sym (xor_assoc a c (b ⊕ d))

crc_bit-xor : (a b : ℕ) → crc_bit (a ⊕ b) ≡ crc_bit a ⊕ crc_bit b
crc_bit-xor a b =
    crc_bit-tap (a ⊕ b)
    ∙ ap₂ bit_xor (xor-half a b) (tap-xor a b)
    ∙ xor_swap (a / 2) (b / 2) (tap a) (tap b)
    ∙ sym (ap₂ bit_xor (crc_bit-tap a) (crc_bit-tap b))

crc_bits-xor : (n a b : ℕ) → crc_bits n (a ⊕ b) ≡ crc_bits n a ⊕ crc_bits n b
unfolding crc_bits
crc_bits-xor zero a b = refl
crc_bits-xor (suc n) a b =
    ap (crc_bits n) (crc_bit-xor a b) ∙ crc_bits-xor n (crc_bit a) (crc_bit b)

crc_bit-even : (q : ℕ) → crc_bit (q * 2) ≡ q
unfolding crc_bit
crc_bit-even q = ground arith

crc_bits-high : (n q : ℕ) → crc_bits n (q * 2 ^ n) ≡ q
unfolding crc_bits
crc_bits-high zero q = omega arith
crc_bits-high (suc n) q =
    let double : q * 2 ^ suc n ≡ q * 2 ^ n * 2 =
      omega (arith, ap (λ (t : ℕ). q * t) (pow-suc 2 n)) in
    ap (crc_bits n) (ap crc_bit double ∙ crc_bit-even (q * 2 ^ n)) ∙ crc_bits-high n q

-- Eight steps at once: the low byte through the table, the others by a shift.
crc32-split : (x : ℕ) → crc_bits 8 x ≡ x / 256 ⊕ crc_bits 8 (x % 256)
crc32-split x =
    let parts : x ≡ x / 256 * 256 ⊕ x % 256 =
      sym (xor_fields 8 (x / 256) (x % 256) (omega arith) ∙ omega arith) in
    ap (crc_bits 8) parts
    ∙ crc_bits-xor 8 (x / 256 * 256) (x % 256)
    ∙ ap (λ (t : ℕ). t ⊕ crc_bits 8 (x % 256)) (crc_bits-high 8 (x / 256))

table-entry : (i : ℕ) → i < 256 → get_or generate_crc32_table i 0 ≡ crc_bits 8 i
unfolding generate_crc32_table crc32_single
table-entry i h = get_or-tabulate 256 0 i crc32_single 0 h ∙ ap (crc_bits 8) (zero-add i)

crc_byte-bits : (crc b : ℕ) → b < 256 → crc_byte crc b ≡ crc_bits 8 (crc ⊕ b)
unfolding crc_byte
crc_byte-bits crc b h =
    ap (◌⊕◌ (crc / 256)) (table-entry ((crc ⊕ b) % 256) (omega arith))
    ∙ ap (λ (t : ℕ). t ⊕ crc_bits 8 ((crc ⊕ b) % 256)) (sym high)
    ∙ sym (crc32-split (crc ⊕ b))
  where
    high : (crc ⊕ b) / 256 ≡ crc / 256
    high =
        let no_high : b / 256 ≡ 0 = omega arith in
        xor-shift 8 crc b ∙ ap (◌⊕◌ (crc / 256)) no_high ∙ xor-zero (crc / 256)

-- The checksum with one step for each bit of the message.
unfoldable pub crc_bitwise : ℕ → Bytes → ℕ
crc_bitwise crc [] = crc
crc_bitwise crc (b ∷ input) = crc_bitwise (crc_bits 8 (crc ⊕ b)) input

pub crc_loop-bitwise :
    (crc : ℕ) (input : Bytes) → AllBytes input → crc_loop crc input ≡ crc_bitwise crc input
unfolding crc_loop crc_bitwise
crc_loop-bitwise crc [] h = refl
crc_loop-bitwise crc (b ∷ input) h =
    crc_loop-bitwise (crc_byte crc b) input h.1
    ∙ ap (λ (c : ℕ). crc_bitwise c input) (crc_byte-bits crc b h.0)

-- The table gives the same checksum as the bits one by one, for every message.
pub compute_crc32-bitwise :
    (input : Bytes)
    → AllBytes input
    → compute_crc32 input ≡ 2 ^ 32 - 1 - crc_bitwise 0xFFFFFFFF input
unfolding compute_crc32
compute_crc32-bitwise input h = ap (λ (t : ℕ). 2 ^ 32 - 1 - t) (crc_loop-bitwise 0xFFFFFFFF input h)
