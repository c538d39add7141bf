-- ===== src/Cbc/Slices.antt =====
-- The 16 bytes at an offset of a vector, what stands before them and what follows.
use cds_guard.Prelude.{
  ℕ, zero, suc, some, ◌+◌, ◌≤◌, ◌<◌, ◌≡◌, refl, ap, ◌∙◌, List, [], ◌∷◌, ◌++◌, arith, length, drop,
  tabulate, Bytes, AllBytes, IsBlock,
}
use cds_guard.Aria.Block.{
  at, at-IsByte, xor16, xor16_comm, xor16_cancel, tabulate-ext, copy16-id, tabulate-IsBlock,
}
use cds_guard.Cbc.{slice16, read16}

pub at-append_left : (d e : Bytes) (k : ℕ) → k < length d → at (d ++ e) k ≡ at d k
at-append_left [] e k h = absurd (omega arith)
at-append_left (x ∷ d) e zero h = refl
at-append_left (x ∷ d) e (suc k) h = at-append_left d e k (omega arith)

pub at-append_right : (d e : Bytes) (k n : ℕ) → n ≡ length d + k → at (d ++ e) n ≡ at e k
at-append_right [] e k n h = let same : n ≡ k = omega arith in ap (at e) same
at-append_right (x ∷ d) e k zero h = absurd (omega arith)
at-append_right (x ∷ d) e k (suc n) h = at-append_right d e k n (omega arith)

pub drop-nil : {A : Type 0} (n : ℕ) (p : List A) → length p ≤ n → drop n p ≡ []
drop-nil zero [] h = refl
drop-nil zero (x ∷ p) h = absurd (omega arith)
drop-nil (suc n) [] h = refl
drop-nil (suc n) (x ∷ p) h = drop-nil n p (omega arith)

drop-at : (off : ℕ) (p : Bytes) → off < length p → drop off p ≡ at p off ∷ drop (suc off) p
drop-at off [] h = absurd (omega arith)
drop-at zero (x ∷ p) h = refl
drop-at (suc off) (x ∷ p) h = drop-at off p (omega arith)

pub tabulate-drop :
    (n off : ℕ) (p : Bytes)
    → off + n ≤ length p
    → drop off p ≡ tabulate n off (at p) ++ drop (off + n) p
tabulate-drop zero off p h = let same : off ≡ off + 0 = omega arith in ap (λ k. drop k p) same
tabulate-drop (suc n) off p h =
    let same : suc off + n ≡ off + suc n = omega arith in
    drop-at off p (omega arith)
    ∙ ap (◌∷◌ (at p off)) (
        tabulate-drop n (suc off) p (omega arith)
        ∙ ap (λ k. tabulate n (suc off) (at p) ++ drop k p) same)

tabulate_shift :
    (n i off : ℕ) (f : ℕ → ℕ) → tabulate n (off + i) f ≡ tabulate n i (λ j. f (off + j))
tabulate_shift zero i off f = refl
tabulate_shift (suc n) i off f =
    let same : suc (off + i) ≡ off + suc i = omega arith in
    ap (◌∷◌ (f (off + i))) (ap (λ k. tabulate n k f) same ∙ tabulate_shift n (suc i) off f)

-- The block at an offset, and what follows it.
pub slice16-drop :
    (p : Bytes) (off : ℕ) → off + 16 ≤ length p → drop off p ≡ slice16 p off ++ drop (off + 16) p
unfolding slice16
slice16-drop p off h =
    let same : off ≡ off + 0 = omega arith in
    tabulate-drop 16 off p h
    ∙ ap (λ s. s ++ drop (off + 16) p)
        (ap (λ k. tabulate 16 k (at p)) same ∙ tabulate_shift 16 0 off (at p))

pub slice16-IsBlock : (p : Bytes) (off : ℕ) → AllBytes p → IsBlock (slice16 p off)
unfolding slice16
slice16-IsBlock p off h = tabulate-IsBlock _ (λ j. at-IsByte p (off + j) h)

pub length-slice16 : (p : Bytes) (off : ℕ) → length (slice16 p off) ≡ 16
unfolding slice16
length-slice16 p off = refl

pub read16-slice16 :
    (p : Bytes) (off : ℕ) → off + 16 ≤ length p → read16 p off ≡ some (slice16 p off)
unfolding read16
read16-slice16 p off h = ground arith

-- `cs` stands in `input` at the offset.
abbrev pub StandsAt : Bytes → Bytes → ℕ → Type 0
StandsAt cs input off = (k : ℕ) → k < length cs → at input (off + k) ≡ at cs k

pub slice16-StandsAt :
    (c input : Bytes) (off : ℕ) → length c ≡ 16 → StandsAt c input off → slice16 input off ≡ c
unfolding slice16
slice16-StandsAt c input off size h =
    tabulate-ext 16 0 _ (at c) (λ j p q. h j (omega arith)) ∙ copy16-id c size

module _ (c cs input : Bytes) (off : ℕ) (h : StandsAt (c ++ cs) input off) where
  pub StandsAt-left : length c ≤ length (c ++ cs) → StandsAt c input off
  StandsAt-left le k hk = h k (omega arith) ∙ at-append_left c cs k hk

  pub StandsAt-right :
      (off' : ℕ)
      → off' ≡ off + length c
      → length (c ++ cs) ≡ length c + length cs
      → StandsAt cs input off'
  StandsAt-right off' e size k hk =
      let same : off' + k ≡ off + (length c + k) = omega arith in
      ap (at input) same
      ∙ h (length c + k) (omega arith)
      ∙ at-append_right c cs k (length c + k) refl

-- Adding the previous block twice.
pub xor16_twice : (b prev : Bytes) → length b ≡ 16 → xor16 (xor16 b prev) prev ≡ b
xor16_twice b prev hb =
    xor16_comm (xor16 b prev) prev ∙ ap (xor16 prev) (xor16_comm b prev) ∙ xor16_cancel b prev hb
