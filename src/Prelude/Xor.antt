-- ===== src/Prelude/Xor.antt =====
-- The laws of `^` on numbers, from its definition by binary digits.
use Prim.Native.Nat.{digits, differ, bit_xor-bitwise}
use native.Mathlib.Nat.{pow-suc, mul_comm, div-one, div-div-eq-div-mul}
use cds_guard.Prelude.{
  ℕ, zero, suc, ◌+◌, ◌*◌, ◌/◌, ◌%◌, ◌^◌, ◌≤◌, ◌<◌, bit_xor, ◌≡◌, refl, sym, ap, ap₂, ◌∙◌, arith,
  ◌⊕◌,
}

abbrev xor_digits : ℕ → ℕ → ℕ → ℕ
xor_digits n a b = digits (λ b. b) differ n a b

xor_digits_fuel : (n m a b : ℕ) → a ≤ n → a ≤ m → xor_digits n a b ≡ xor_digits m a b
xor_digits_fuel zero zero a b p q = refl
xor_digits_fuel zero (suc m) zero b p q = refl
xor_digits_fuel zero (suc m) (suc a) b p q = absurd (omega arith)
xor_digits_fuel (suc n) zero zero b p q = refl
xor_digits_fuel (suc n) zero (suc a) b p q = absurd (omega arith)
xor_digits_fuel (suc n) (suc m) zero b p q = refl
xor_digits_fuel (suc n) (suc m) (suc a) b p q =
    rw (xor_digits_fuel n m (suc a / 2) (b / 2) (omega arith) (omega arith))

differ_digits : (x y : ℕ) → x < 2 → y < 2 → differ x y ≡ (x + y) % 2
differ_digits zero y p q = omega arith
differ_digits (suc zero) zero p q = refl
differ_digits (suc zero) (suc zero) p q = refl
differ_digits (suc zero) (suc (suc y)) p q = absurd (omega arith)
differ_digits (suc (suc x)) y p q = absurd (omega arith)

pub zero-xor : (b : ℕ) → 0 ⊕ b ≡ b
zero-xor b = bit_xor-bitwise 0 b

-- One binary digit at a time.
pub xor_step : (a b : ℕ) → a ⊕ b ≡ (a / 2 ⊕ b / 2) * 2 + (a + b) % 2
xor_step zero b = omega (arith, zero-xor b, zero-xor (b / 2))
xor_step (suc a) b = omega (
  arith,
  bit_xor-bitwise (suc a) b,
  bit_xor-bitwise (suc a / 2) (b / 2),
  xor_digits_fuel a (suc a / 2) (suc a / 2) (b / 2) (omega arith) (omega arith),
  differ_digits (suc a % 2) (b % 2) (omega arith) (omega arith),
)

pub xor-half : (a b : ℕ) → (a ⊕ b) / 2 ≡ a / 2 ⊕ b / 2
xor-half a b = omega (arith, xor_step a b)

xor_comm_fuel : (n a b : ℕ) → a ≤ n → b ≤ n → a ⊕ b ≡ b ⊕ a
xor_comm_fuel zero zero zero p q = refl
xor_comm_fuel zero zero (suc b) p q = absurd (omega arith)
xor_comm_fuel zero (suc a) b p q = absurd (omega arith)
xor_comm_fuel (suc n) a b p q =
    omega (
      arith,
      xor_step a b,
      xor_step b a,
      xor_comm_fuel n (a / 2) (b / 2) (omega arith) (omega arith),
    )

pub xor_comm : (a b : ℕ) → a ⊕ b ≡ b ⊕ a
xor_comm a b = xor_comm_fuel (a + b) a b (omega arith) (omega arith)

pub xor-zero : (a : ℕ) → a ⊕ 0 ≡ a
xor-zero a = xor_comm a 0 ∙ zero-xor a

xor_assoc_fuel : (n a b c : ℕ) → a ≤ n → b ≤ n → c ≤ n → a ⊕ b ⊕ c ≡ a ⊕ (b ⊕ c)
xor_assoc_fuel zero zero b c p q r = rw (zero-xor b, zero-xor (b ⊕ c))
xor_assoc_fuel zero (suc a) b c p q r = absurd (omega arith)
xor_assoc_fuel (suc n) a b c p q r = omega (
  arith,
  xor_step (a ⊕ b) c,
  xor_step a (b ⊕ c),
  xor_step a b,
  xor_step b c,
  ap (λ (t : ℕ). t ⊕ c / 2) (xor-half a b),
  ap (λ (t : ℕ). a / 2 ⊕ t) (xor-half b c),
  xor_assoc_fuel n (a / 2) (b / 2) (c / 2) (omega arith) (omega arith) (omega arith),
)

pub xor_assoc : (a b c : ℕ) → a ⊕ b ⊕ c ≡ a ⊕ (b ⊕ c)
xor_assoc a b c = xor_assoc_fuel (a + b + c) a b c (omega arith) (omega arith) (omega arith)

xor-self_fuel : (n a : ℕ) → a ≤ n → a ⊕ a ≡ 0
xor-self_fuel zero zero p = refl
xor-self_fuel zero (suc a) p = absurd (omega arith)
xor-self_fuel (suc n) a p = omega (arith, xor_step a a, xor-self_fuel n (a / 2) (omega arith))

pub xor_self : (a : ℕ) → a ⊕ a ≡ 0
xor_self a = xor-self_fuel a a (omega arith)

-- Twice the same value gives the first one back.
pub xor_cancel : (a b : ℕ) → a ⊕ b ⊕ b ≡ a
xor_cancel a b = rw (xor_assoc, xor_self, xor-zero)

-- The result has no more digits than the operands.
pub xor-lt : (k a b : ℕ) → a < 2 ^ k → b < 2 ^ k → a ⊕ b < 2 ^ k
xor-lt zero a b p q = omega (arith, xor_step a b, ap₂ bit_xor zero_a zero_b)
  where
    zero_a : a / 2 ≡ 0
    zero_a = omega arith

    zero_b : b / 2 ≡ 0
    zero_b = omega arith
xor-lt (suc k) a b p q =
    let halves = pow-suc 2 k in
    omega (
      arith,
      halves,
      xor_step a b,
      xor-lt k (a / 2) (b / 2) (omega (arith, halves)) (omega (arith, halves)),
    )

pub xor-IsByte : (a b : ℕ) → a < 256 → b < 256 → a ⊕ b < 256
xor-IsByte a b p q = xor-lt 8 a b p q

-- Shifting goes through the operation.
pub xor-shift : (k a b : ℕ) → (a ⊕ b) / 2 ^ k ≡ a / 2 ^ k ⊕ b / 2 ^ k
xor-shift zero a b = omega (arith, ap₂ bit_xor (div-one a) (div-one b), div-one (a ⊕ b))
xor-shift (suc k) a b =
    split (a ⊕ b)
    ∙ ap (λ (t : ℕ). t / 2 ^ k) (xor-half a b)
    ∙ xor-shift k (a / 2) (b / 2)
    ∙ sym (ap₂ bit_xor (split a) (split b))
  where
    split : (x : ℕ) → x / 2 ^ suc k ≡ x / 2 / 2 ^ k
    split x =
        ap (λ (t : ℕ). x / t) (pow-suc 2 k ∙ mul_comm (2 ^ k) 2)
        ∙ sym (div-div-eq-div-mul x 2 (2 ^ k))

-- The operands of a sum without carries.
pub xor_fields : (k q r : ℕ) → r < 2 ^ k → q * 2 ^ k ⊕ r ≡ q * 2 ^ k + r
xor_fields zero q r h =
    let none_left : r ≡ 0 = omega arith in rw none_left (xor-zero (q * 1) ∙ omega arith)
xor_fields (suc k) q r h =
    let double : q * 2 ^ suc k ≡ 2 * (q * 2 ^ k) =
      omega (arith, ap (λ (t : ℕ). q * t) (pow-suc 2 k)) in
    let half : q * 2 ^ suc k / 2 ≡ q * 2 ^ k = omega (arith, double) in
    omega (
      arith,
      xor_step (q * 2 ^ suc k) r,
      ap (λ (t : ℕ). t ⊕ r / 2) half,
      xor_fields k q (r / 2) (omega (arith, pow-suc 2 k)),
      double,
    )
