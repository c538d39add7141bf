-- ===== src/Aria/Inverse.antt =====
-- `Crypt` with the round keys of `DecKeySetup` undoes `Crypt` with those of `EncKeySetup`.
use mathlib.Core.Path.{subst₂}
use cds_guard.Prelude.{
  ℕ, zero, suc, ◌+◌, ◌/◌, ◌≡◌, refl, sym, ap, ◌∙◌, ◌⊎◌, inl, inr, some, List, [], ◌∷◌, ◌++◌, ◌≤◌,
  ◌<◌, arith, length, get_or, All, tabulate, Bytes, IsBlock,
}
use cds_guard.Aria.Block.{
  xor16, length-xor16, xor16-IsBlock, xor16_cancel, copy16-id, tabulate-get_or,
}
use cds_guard.Aria.Diffusion.{dl}
use cds_guard.Aria.Diffusion.Linear.{dl-dl, dl-xor16, dl-IsBlock, length-dl}
use cds_guard.Aria.Cipher.{two_rounds, crypt}
use cds_guard.Aria.KeySchedule.{swap_rows, dec_loop, dec_keys}
use cds_guard.Aria.KeySchedule.Rows.{AreRows}
use cds_guard.Aria.Rounds.{
  Pairs, rounds, flat, reversed, ArePairs, crypt_loop-flat, rounds_undo, rounds-IsBlock,
}

length-rounds : (ks : Pairs) (c : Bytes) → length c ≡ 16 → length (rounds ks c) ≡ 16
length-rounds [] c h = h
length-rounds ((e0, e1) ∷ ks) c h = length-rounds ks _ (unfold two_rounds in length-dl _)

-- The result of the cipher whose keys are pairs and a last key.
result : Pairs → Bytes → Bytes → Bytes
result ks last c = xor16 last (dl (rounds ks c))

crypt-result :
    (ks : Pairs) (last c : Bytes) (r : ℕ)
    → r / 2 ≡ length ks
    → length c ≡ 16
    → crypt c r (flat ks last) ≡ some (result ks last c)
unfolding crypt result
crypt-result ks last c r hr hc = rw (hr, copy16-id c hc) (crypt_loop-flat ks last c)

result_undo :
    (e0 e1 : Bytes) (ks : Pairs) (last c : Bytes)
    → ArePairs ((e0, e1) ∷ ks)
    → IsBlock c
    → let all = (e0, e1) ∷ ks in result (reversed all last) e0 (result all last c) ≡ c
unfolding result
result_undo e0 e1 ks last c hk hc =
    ap (λ y. xor16 e0 (dl y)) back
    ∙ ap (xor16 e0) (
        dl-xor16 (dl e0) (dl c)
        ∙ ap (λ y. xor16 y (dl (dl c))) (dl-dl e0 hk.0.0.0)
        ∙ ap (xor16 e0) (dl-dl c hc.0))
    ∙ xor16_cancel c e0 hc.0
  where
    x : Bytes
    x = rounds (reversed ((e0, e1) ∷ ks) last) (xor16 last (dl (rounds ((e0, e1) ∷ ks) c)))

    back : x ≡ xor16 (dl e0) (dl c)
    back =
        sym (
          xor16_cancel x (dl e0)
            (length-rounds (reversed ((e0, e1) ∷ ks) last) _ (length-xor16 _ _)))
        ∙ ap (xor16 (dl e0)) (rounds_undo ((e0, e1) ∷ ks) last c hk hc)

length-append-one : (ks : Pairs) (k : Bytes × Bytes) → length (ks ++ k ∷ []) ≡ suc (length ks)
length-append-one [] k = refl
length-append-one (l ∷ ks) k = ap suc (length-append-one ks k)

length-reversed : (ks : Pairs) (last : Bytes) → length (reversed ks last) ≡ length ks
length-reversed [] last = refl
length-reversed ((e0, e1) ∷ ks) last =
    length-append-one (reversed ks last) _ ∙ ap suc (length-reversed ks last)

-- The two keys of each turn, read from the rows.
abbrev pairs_of : ℕ → ℕ → (ℕ → Bytes) → Pairs
pairs_of zero i f = []
pairs_of (suc n) i f = (f i, f (suc i)) ∷ pairs_of n (suc (suc i)) f

-- `crypt` with the keys `ek` takes blocks to blocks, and with `dk` takes them back.
abbrev pub Inverts : ℕ → List Bytes → List Bytes → Type 0
Inverts r ek dk =
    (p : Bytes)
    → IsBlock p
    → (c : Bytes) × (crypt p r ek ≡ some c) × IsBlock c × (crypt c r dk ≡ some p)

-- `crypt` with the keys `dk` returns 16 bytes for any 16 bytes.
abbrev pub IsTotal : ℕ → List Bytes → Type 0
IsTotal r dk = (c : Bytes) → length c ≡ 16 → (p : Bytes) × (crypt c r dk ≡ some p) × (length p ≡ 16)

pairs-Inverts :
    (r : ℕ) (e0 e1 : Bytes) (ks : Pairs) (last : Bytes)
    → r / 2 ≡ suc (length ks)
    → ArePairs ((e0, e1) ∷ ks)
    → IsBlock last
    → Inverts r (flat ((e0, e1) ∷ ks) last) (flat (reversed ((e0, e1) ∷ ks) last) e0)
pairs-Inverts r e0 e1 ks last hr hk hl p hp = (
  c,
  crypt-result all last p r hr hp.0,
  c-IsBlock,
  crypt-result (reversed all last) e0 c r (hr ∙ sym (length-reversed all last)) c-IsBlock.0
      ∙ ap some (result_undo e0 e1 ks last p hk hp),
)
  where
    all : Pairs
    all = (e0, e1) ∷ ks

    c : Bytes
    c = result all last p

    c-IsBlock : IsBlock c
    c-IsBlock =
        unfold result in xor16-IsBlock _ _ hl.1 (dl-IsBlock _ (rounds-IsBlock all p hk hp).1).1

pairs_of-ArePairs :
    (n i m : ℕ) (f : ℕ → Bytes)
    → i + (n + n) ≤ m
    → ((k : ℕ) → k < m → IsBlock (f k))
    → ArePairs (pairs_of n i f)
pairs_of-ArePairs zero i m f h hf = tt
pairs_of-ArePairs (suc n) i m f h hf = (
  (hf i (omega arith), hf (suc i) (omega arith)),
  pairs_of-ArePairs n (suc (suc i)) m f (omega arith) hf,
)

reversed-IsTotal :
    (r : ℕ) (ks : Pairs) (first last : Bytes)
    → r / 2 ≡ length ks
    → IsTotal r (flat (reversed ks last) first)
reversed-IsTotal r ks first last hr c hc = (
  result (reversed ks last) first c,
  crypt-result (reversed ks last) first c r (hr ∙ sym (length-reversed ks last)) hc,
  unfold result in length-xor16 _ _,
)

-- `dec_keys` succeeds on the rows, and its result inverts them.
abbrev pub IsInverted : ℕ → List Bytes → Type 0
IsInverted r e = (d : List Bytes) × (dec_keys e r ≡ some d) × Inverts r e d × IsTotal r d

module _ (f : ℕ → Bytes) where
  abbrev AreBlocks : ℕ → Type 0
  AreBlocks m = (k : ℕ) → k < m → IsBlock (f k)

  IsInverted-12 : AreBlocks 13 → IsInverted 12 (tabulate 13 0 f)
  unfolding dec_keys dec_loop swap_rows
  IsInverted-12 h = (
    _,
    refl,
    pairs-Inverts 12 (f 0) (f 1) (pairs_of 5 2 f) (f 12) (omega arith)
        (pairs_of-ArePairs 6 0 13 f (omega arith) h) (h 12 (omega arith)),
    reversed-IsTotal 12 (pairs_of 6 0 f) (f 0) (f 12) (omega arith),
  )

  IsInverted-14 : AreBlocks 15 → IsInverted 14 (tabulate 15 0 f)
  unfolding dec_keys dec_loop swap_rows
  IsInverted-14 h = (
    _,
    refl,
    pairs-Inverts 14 (f 0) (f 1) (pairs_of 6 2 f) (f 14) (omega arith)
        (pairs_of-ArePairs 7 0 15 f (omega arith) h) (h 14 (omega arith)),
    reversed-IsTotal 14 (pairs_of 7 0 f) (f 0) (f 14) (omega arith),
  )

  IsInverted-16 : AreBlocks 17 → IsInverted 16 (tabulate 17 0 f)
  unfolding dec_keys dec_loop swap_rows
  IsInverted-16 h = (
    _,
    refl,
    pairs-Inverts 16 (f 0) (f 1) (pairs_of 7 2 f) (f 16) (omega arith)
        (pairs_of-ArePairs 8 0 17 f (omega arith) h) (h 16 (omega arith)),
    reversed-IsTotal 16 (pairs_of 8 0 f) (f 0) (f 16) (omega arith),
  )

get_or-All : (e : List Bytes) (k : ℕ) → k < length e → All IsBlock e → IsBlock (get_or e k [])
get_or-All [] k h p = absurd (omega arith)
get_or-All (x ∷ e) zero h p = p.0
get_or-All (x ∷ e) (suc k) h p = get_or-All e k (omega arith) p.1

-- The rows that the encryption wants are inverted by those that `dec_keys` makes of them.
pub dec_keys-IsInverted :
    (r : ℕ) (e : List Bytes) → (r ≡ 12) ⊎ ((r ≡ 14) ⊎ (r ≡ 16)) → AreRows (r + 1) e → IsInverted r e
dec_keys-IsInverted r e h (size, blocks) = by_rounds h
  where
    row : ℕ → Bytes
    row k = get_or e k []

    are_blocks : (m : ℕ) → m ≡ length e → AreBlocks row m
    are_blocks m hm k hk = get_or-All e k (omega arith) blocks

    by_rounds : (r ≡ 12) ⊎ ((r ≡ 14) ⊎ (r ≡ 16)) → IsInverted r e
    by_rounds (inl h) =
        subst₂ IsInverted (sym h) (tabulate-get_or 13 e [] (omega arith))
          (IsInverted-12 row (are_blocks 13 (omega arith)))
    by_rounds (inr (inl h)) =
        subst₂ IsInverted (sym h) (tabulate-get_or 15 e [] (omega arith))
          (IsInverted-14 row (are_blocks 15 (omega arith)))
    by_rounds (inr (inr h)) =
        subst₂ IsInverted (sym h) (tabulate-get_or 17 e [] (omega arith))
          (IsInverted-16 row (are_blocks 17 (omega arith)))
