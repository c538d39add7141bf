-- ===== src/Aria/KeySchedule/Rows.antt =====
-- The round keys are as many as the rounds want, and are blocks: for keys of 16, 24 and 32 bytes the
-- schedule stays inside its arrays.
use native.Mathlib.Nat.{div-le_self}
use cds_guard.Prelude.{
  ◌>>=◌, ℕ, zero, suc, ◌+◌, ◌*◌, ◌/◌, ◌%◌, ◌^◌, ◌≤◌, ◌<◌, ◌≡◌, refl, ap, ◌∙◌, ◌⊎◌, inl, inr, Option,
  some, List, [], ◌∷◌, arith, length, get_elem?, set, take, drop, replicate, All, All-take,
  All-drop, length-take, length-drop, length-replicate, All-replicate, Bytes, IsByte, AllBytes,
  IsBlock, ◌>>>◌, Bool-cases, ◌==◌,
}
use cds_guard.Prelude.Xor.{xor-IsByte}
use cds_guard.Aria.Tables.{krk}
use cds_guard.Aria.Tables.Inverse.{s_at-IsByte}
use cds_guard.Aria.Block.{at, at-IsByte, xor16, xor16-IsBlock, tabulate-IsBlock}
use cds_guard.Aria.Diffusion.Linear.{dl-IsBlock}
use cds_guard.Aria.KeySchedule.{
  xor_at, rot_xor_loop, rot_xor, read, key_layer, add_high, RowStep, row_steps, apply_row_steps,
  next_constant, enc_key_setup,
}

set-All {ℓ κ} :
    {A : Type ℓ} (P : A → Type κ) (xs : List A) (i : ℕ) (v : A)
    → All P xs
    → P v
    → All P (set xs i v)
set-All P [] i v h p = tt
set-All P (x ∷ xs) zero v h p = (p, h.1)
set-All P (x ∷ xs) (suc i) v h p = (h.0, set-All P xs i v h.1 p)

length-set {ℓ} : {A : Type ℓ} (xs : List A) (i : ℕ) (v : A) → length (set xs i v) ≡ length xs
length-set [] i v = refl
length-set (x ∷ xs) zero v = refl
length-set (x ∷ xs) (suc i) v = ap suc (length-set xs i v)

get_elem?-All {ℓ κ} :
    {A : Type ℓ} (P : A → Type κ) (xs : List A) (i : ℕ)
    → i < length xs
    → All P xs
    → (a : A) × (get_elem? xs i ≡ some a) × P a
get_elem?-All P [] i h p = absurd (omega arith)
get_elem?-All P (x ∷ xs) zero h p = (x, refl, p.0)
get_elem?-All P (x ∷ xs) (suc i) h p = get_elem?-All P xs i (omega arith) p.1

xor_at-IsBlock : (t : Bytes) (k v : ℕ) → IsBlock t → IsByte v → IsBlock (xor_at t k v)
unfolding xor_at
xor_at-IsBlock t k v h p =
    (length-set t k _ ∙ h.0, set-All IsByte t k _ h.1 (xor-IsByte (at t k) v (at-IsByte t k h.1) p))

rot_xor_loop-IsBlock :
    (left i : ℕ) (s : Bytes) (q n : ℕ) (t : Bytes)
    → AllBytes s
    → IsBlock t
    → IsBlock (rot_xor_loop left i s q n t)
unfolding rot_xor_loop
rot_xor_loop-IsBlock zero i s q n t hs ht = ht
rot_xor_loop-IsBlock (suc left) i s q n t hs ht = elim (Bool-cases (n == 0)) [
  | inl e ↦ rw e (rot_xor_loop-IsBlock left (i + 1) s q n _ hs once)
  | inr e ↦
      rw e (rot_xor_loop-IsBlock left (i + 1) s q n _ hs (xor_at-IsBlock _ _ _ once (omega arith)))
]
  where
    small : IsByte (at s i >>> n)
    small = omega (arith, at-IsByte s i hs, div-le_self (at s i) (2 ^ n))

    once : IsBlock (xor_at t ((q + i) % 16) (at s i >>> n))
    once = xor_at-IsBlock t _ _ ht small

pub rot_xor-IsBlock :
    (s : Bytes) (n : ℕ) (t : Bytes) → AllBytes s → IsBlock t → IsBlock (rot_xor s n t)
unfolding rot_xor
rot_xor-IsBlock s n t hs ht = rot_xor_loop-IsBlock 16 0 s (n / 8) (n % 8) t hs ht

-- `m` returns a value with the property.
abbrev pub Returns {ℓ κ} : {A : Type ℓ} → Option A → (A → Type κ) → Type (ℓ ⊔ κ)
Returns {A} m P = (a : A) × (m ≡ some a) × P a

-- `n` rows, each a block.
abbrev pub AreRows : ℕ → List Bytes → Type 0
AreRows n e = (length e ≡ n) × All IsBlock e

apply_row_steps-AreRows :
    (ss : List RowStep) (n : ℕ) (e : List Bytes)
    → All (λ s. s.row < n) ss
    → All (λ s. AllBytes s.a × AllBytes s.b) ss
    → AreRows n e
    → Returns (apply_row_steps ss e) (AreRows n)
unfolding apply_row_steps
apply_row_steps-AreRows [] n e hr hb he = (e, refl, he)
apply_row_steps-AreRows (s ∷ ss) n e hr hb he =
    let (t, found, ht) = get_elem?-All IsBlock e s.row (omega (arith, hr.0, he.0)) he.1 in
    let t' = rot_xor s.b s.n (rot_xor s.a 0 t) in
    let ht' = rot_xor-IsBlock s.b s.n _ hb.0.1 (rot_xor-IsBlock s.a 0 t hb.0.0 ht) in
    rw found (
      apply_row_steps-AreRows ss n (set e s.row t') hr.1 hb.1
        (length-set e s.row t' ∙ he.0, set-All IsBlock e s.row t' he.1 ht'))

read-Returns :
    (n off : ℕ) (w : Bytes)
    → off + n ≤ length w
    → AllBytes w
    → Returns (read n off w) (λ b. (length b ≡ n) × AllBytes b)
unfolding read
read-Returns n off w h hb = (
  take n (drop off w),
  ground arith,
  (
    omega (arith, length-take n (drop off w), length-drop off w),
    All-take IsByte n _ (All-drop IsByte off w hb),
  ),
)

key_layer-IsBlock :
    (shift : ℕ) (k w : Bytes) → AllBytes k → AllBytes w → IsBlock (key_layer shift k w)
unfolding key_layer
key_layer-IsBlock shift k w hk hw =
    dl-IsBlock _
      (tabulate-IsBlock _ λ j.
        s_at-IsByte ((shift + j) % 4) _ (omega arith)
          (xor-IsByte _ _ (at-IsByte k j hk) (at-IsByte w j hw))).1

pub krk-AllBytes : All (λ k. AllBytes k) krk
unfolding krk
krk-AllBytes = omega arith

zero_rows-AreRows : (n : ℕ) → AreRows n (replicate n (replicate 16 0))
zero_rows-AreRows n = (
  length-replicate n _,
  All-replicate IsBlock n _ (refl, All-replicate IsByte 16 0 (omega arith)),
)

-- The four words that the rows are made of.
abbrev Words : Bytes → Bytes → Bytes → Bytes → Type 0
Words w0 w1 w2 w3 = AllBytes w0 × AllBytes w1 × AllBytes w2 × AllBytes w3

row_steps-AllBytes :
    (w0 w1 w2 w3 : Bytes) (r : ℕ)
    → (r ≡ 12) ⊎ ((r ≡ 14) ⊎ (r ≡ 16))
    → Words w0 w1 w2 w3
    → All (λ s. AllBytes s.a × AllBytes s.b) (row_steps w0 w1 w2 w3 r)
unfolding row_steps
row_steps-AllBytes w0 w1 w2 w3 r (inl e) h = rw e (assumption)
row_steps-AllBytes w0 w1 w2 w3 r (inr (inl e)) h = rw e (assumption)
row_steps-AllBytes w0 w1 w2 w3 r (inr (inr e)) h = rw e (assumption)

row_steps-row :
    (w0 w1 w2 w3 : Bytes) (r : ℕ)
    → (r ≡ 12) ⊎ ((r ≡ 14) ⊎ (r ≡ 16))
    → All (λ s. s.row < r + 1) (row_steps w0 w1 w2 w3 r)
unfolding row_steps
row_steps-row w0 w1 w2 w3 r (inl e) = rw e (omega arith)
row_steps-row w0 w1 w2 w3 r (inr (inl e)) = rw e (omega arith)
row_steps-row w0 w1 w2 w3 r (inr (inr e)) = rw e (omega arith)

-- The count of rounds `r` that goes with a key of 16, 24 or 32 bytes.
abbrev pub IsKey : Bytes → ℕ → Type 0
IsKey key r =
    AllBytes key
    × (((length key ≡ 16) × (r ≡ 12))
        ⊎ (((length key ≡ 24) × (r ≡ 14)) ⊎ ((length key ≡ 32) × (r ≡ 16))))

-- What the setup returns.
abbrev pub IsSchedule : ℕ → List Bytes × ℕ → Type 0
IsSchedule r er = (er.1 ≡ r) × AreRows (r + 1) er.0

-- The last lines of the setup, from the four words on.
last_rows :
    (w0 w1 w2 w3 : Bytes) (r : ℕ)
    → (r ≡ 12) ⊎ ((r ≡ 14) ⊎ (r ≡ 16))
    → Words w0 w1 w2 w3
    → Returns
        (apply_row_steps (row_steps w0 w1 w2 w3 r) (replicate (r + 1) (replicate 16 0)) >>= λ e.
          some (e, r))
        (IsSchedule r)
last_rows w0 w1 w2 w3 r hr hw =
    let (e, found, he) =
      apply_row_steps-AreRows (row_steps w0 w1 w2 w3 r) (r + 1) _ (row_steps-row w0 w1 w2 w3 r hr)
        (row_steps-AllBytes w0 w1 w2 w3 r hr hw) (zero_rows-AreRows (r + 1)) in
    rw found ((e, r), refl, (refl, he))

words :
    (w0 w1 k1 k2 : Bytes)
    → AllBytes w0 × AllBytes w1 × AllBytes k1 × AllBytes k2
    → let w2 = xor16 (key_layer 2 k1 w1) w0 in
      let w3 = xor16 (key_layer 0 k2 w2) w1 in Words w0 w1 w2 w3
words w0 w1 k1 k2 h =
    let h2 = (xor16-IsBlock _ w0 (key_layer-IsBlock 2 k1 w1 h.2 h.1).1 h.0).1 in
    (h.0, h.1, h2, (xor16-IsBlock _ w1 (key_layer-IsBlock 0 k2 _ h.3 h2).1 h.1).1)

-- For the three key lengths the setup stays inside its arrays and returns the rows of the rounds.
pub enc_key_setup-Returns :
    (key : Bytes) (r : ℕ)
    → IsKey key r
    → Returns (enc_key_setup key (length key * 8)) (IsSchedule r)
unfolding enc_key_setup next_constant krk add_high
enc_key_setup-Returns key r (hb, inl (size, e)) =
    let (w0, found, hw0) = read-Returns 16 0 key (omega arith) hb in
    let hk = krk-AllBytes in
    let hw1 = (key_layer-IsBlock 0 _ w0 hk.0 hw0.1).1 in
    rw (size, found, e)
      (last_rows w0 _ _ _ 12 (inl refl) (words w0 _ _ _ (hw0.1, hw1, hk.1.0, hk.1.1.0)))
enc_key_setup-Returns key r (hb, inr (inl (size, e))) =
    let (w0, found, hw0) = read-Returns 16 0 key (omega arith) hb in
    let (high, found', hh) = read-Returns 8 16 key (omega arith) hb in
    let hk = krk-AllBytes in
    let hw1 = (xor16-IsBlock _ high (key_layer-IsBlock 0 _ w0 hk.1.0 hw0.1).1 hh.1).1 in
    rw (size, found, found', e)
      (last_rows w0 _ _ _ 14 (inr (inl refl)) (words w0 _ _ _ (hw0.1, hw1, hk.1.1.0, hk.0)))
enc_key_setup-Returns key r (hb, inr (inr (size, e))) =
    let (w0, found, hw0) = read-Returns 16 0 key (omega arith) hb in
    let (high, found', hh) = read-Returns 16 16 key (omega arith) hb in
    let hk = krk-AllBytes in
    let hw1 = (xor16-IsBlock _ high (key_layer-IsBlock 0 _ w0 hk.1.1.0 hw0.1).1 hh.1).1 in
    rw (size, found, found', e)
      (last_rows w0 _ _ _ 16 (inr (inr refl)) (words w0 _ _ _ (hw0.1, hw1, hk.0, hk.1.0)))
