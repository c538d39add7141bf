-- ===== src/Trie/Place/Enough.antt =====
-- `get_proper_base` ends: after three times `reserve_trie` it finds a place in blocks that are new.
use cds_guard.Prelude.{
  ℕ, zero, suc, ◌+◌, ◌*◌, ◌^◌, ◌/◌, ◌≤◌, ◌<◌, ◌≡◌, ◌≢◌, inl, inr, true, false, Bool-cases, some,
  Option-cases, List, [], ◌∷◌, ◌++◌, take, leb, u32, All, All-append, arith,
}
use cds_guard.Trie.Code.{k_max_val_of_char_code}
use cds_guard.Trie.State.{Dat, empty_node, sparse_block, increase_block_fail_count, k_block_size}
use cds_guard.Trie.Place.{Placed, found, tried, fault, min_code, base_for, all_empty, scan_chain}
use cds_guard.Trie.Place.Room.{HasRoom, IsCode, All-imp, All-both, below_min, empty_node_some}
use cds_guard.Trie.Place.Scans.{candidate_some}
use cds_guard.Trie.Place.Steps.{scan_chain_used, scan_chain_full, scan_chain_fits, scan_chain_taken}

-- From block `q` on nothing is used and no search has failed; the chain ends inside the vectors.
pub record IsUnused (q : ℕ) (d : Dat) : Type 0 where
  pub checks : (i : ℕ) → q * k_block_size ≤ i → d.vectors.check i ≡ 0
  pub sizes : (b : ℕ) → q ≤ b → d.block_used_size b ≡ 0
  pub fails : (b : ℕ) → q ≤ b → d.block_fail_count b ≡ 0
  pub last : d.max_chain_node_index + k_max_val_of_char_code ≤ d.vectors.element_capacity

-- A search that finds nothing has seen no index from block `q` on, and leaves the blocks unused.
abbrev pub Unseen : ℕ → List ℕ → Placed → Type 0
Unseen q queue (found base d) = Unit {0}
Unseen q queue (tried d) = IsUnused q d × All (λ i. i < q * k_block_size) queue
Unseen q queue fault = Unit {0}

Unseen-imp :
    (q : ℕ) (xs ys : List ℕ) (p : Placed)
    → (All (λ i. i < q * k_block_size) xs → All (λ i. i < q * k_block_size) ys)
    → Unseen q xs p
    → Unseen q ys p
Unseen-imp q xs ys (found base d) f h = tt
Unseen-imp q xs ys (tried d) f h = (h.0, f h.1)
Unseen-imp q xs ys fault f h = tt

All-take_append :
    (P : ℕ → Type 0) (n : ℕ) (xs ys : List ℕ) → All P (take n (xs ++ ys)) → All P (take n xs)
All-take_append P zero xs ys h = tt
All-take_append P (suc n) [] ys h = tt
All-take_append P (suc n) (x ∷ xs) ys h = (h.0, All-take_append P n xs ys h.1)

all_empty_unused :
    (d : Dat) (base : ℕ) (codes : List ℕ)
    → All (λ c. d.vectors.check (u32 (base + c)) ≡ 0) codes
    → all_empty d base codes ≢ some false
unfolding all_empty empty_node
all_empty_unused d base [] h = cc
all_empty_unused d base (c ∷ codes) h = ground (arith, all_empty_unused d base codes h.1)

sparse_unused :
    (q : ℕ) (d : Dat) (i : ℕ) → IsUnused q d → q * k_block_size ≤ i → sparse_block d i ≡ true
sparse_unused q d i u h = ground (arith, u.sizes (i / k_block_size), u.fails (i / k_block_size))

not_used :
    (q : ℕ) (d : Dat) (i : ℕ) → IsUnused q d → q * k_block_size ≤ i → empty_node d i ≢ some false
unfolding empty_node
not_used q d i u h = ground (arith, u.checks i)

increase-IsUnused :
    (q : ℕ) (d : Dat) (i : ℕ)
    → i < q * k_block_size
    → IsUnused q d
    → IsUnused q (increase_block_fail_count d i)
increase-IsUnused q d i h u = record {
  checks = u.checks;
  sizes = u.sizes;
  fails = λ b k. ground (arith, u.fails b k);
  last = u.last;
}

module _ (c : ℕ) (codes : List ℕ) (are_codes : All IsCode (c ∷ codes)) (q : ℕ) where
  candidate_unused :
      (d : Dat) (i : ℕ)
      → IsUnused q d
      → d.vectors.element_capacity < 2 ^ 32
      → HasRoom d.vectors.element_capacity i
      → q * k_block_size ≤ i
      → all_empty d (base_for i (min_code (c ∷ codes))) (c ∷ codes) ≢ some false
  candidate_unused d i u small room h = all_empty_unused d (base_for i m) (c ∷ codes) (
      All-imp (λ x. (m ≤ x) × IsCode x) (λ x. d.vectors.check (u32 (base_for i m + x)) ≡ 0)
        (c ∷ codes) (λ x r. u.checks (u32 (base_for i m + x)) (omega arith))
        (All-both (λ x. m ≤ x) IsCode (c ∷ codes) (below_min m (c ∷ codes) (omega arith))
          are_codes))
    where
      m : ℕ
      m = min_code (c ∷ codes)

  pub scan_chain-Unseen :
      (turns : ℕ) (d : Dat) (queue : List ℕ)
      → IsUnused q d
      → d.vectors.element_capacity < 2 ^ 32
      → All (HasRoom d.vectors.element_capacity) queue
      → Unseen q (take turns queue) (scan_chain turns (c ∷ codes) d queue)
  scan_chain-Unseen zero d queue u small room =
      unfold scan_chain in
      (record { checks = u.checks; sizes = u.sizes; fails = u.fails; last = u.last }, tt)
  scan_chain-Unseen (suc turns) d [] u small room = unfold scan_chain in tt
  scan_chain-Unseen (suc turns) d (i ∷ queue) u small room = elim (Option-cases (empty_node d i)) [
    | inl beyond ↦ absurd (empty_node_some d i (omega arith) beyond)
    | inr (false, used) ↦ rw (scan_chain_used turns (c ∷ codes) d i queue used) (
        Unseen-imp q (take turns queue) (i ∷ take turns queue)
          (scan_chain turns (c ∷ codes) d queue) (old (λ h. not_used q d i u h used))
          (scan_chain-Unseen turns d queue u small room.1))
    | inr (true, free) ↦ elim (Bool-cases (sparse_block d i)) [
      | inr full ↦ rw (scan_chain_full turns (c ∷ codes) d i queue free full) (
          Unseen-imp q (take turns queue) (i ∷ take turns queue)
            (scan_chain turns (c ∷ codes)
              (record d { dense_chain_queue = d.dense_chain_queue ++ i ∷ [] }) queue)
            (old (λ h. cc (sparse_unused q d i u h)))
            (scan_chain-Unseen turns
              (record d { dense_chain_queue = d.dense_chain_queue ++ i ∷ [] }) queue
              (record { checks = u.checks; sizes = u.sizes; fails = u.fails; last = u.last }) small
              room.1))
      | inl sparse ↦
          elim (Option-cases (all_empty d (base_for i (min_code (c ∷ codes))) (c ∷ codes))) [
            | inl beyond ↦ absurd (candidate_some c codes are_codes d i small room.0 beyond)
            | inr (true, fits) ↦
                rw (scan_chain_fits turns (c ∷ codes) d i queue free sparse fits) tt
            | inr (false, taken) ↦
                rw (scan_chain_taken turns (c ∷ codes) d i queue free sparse taken) (
                  Unseen-imp q (take turns (queue ++ i ∷ [])) (i ∷ take turns queue)
                    (scan_chain turns (c ∷ codes) (increase_block_fail_count d i) (queue ++ i ∷ []))
                    (λ h.
                      old (λ k. candidate_unused d i u small room.0 k taken)
                        (All-take_append _ turns queue (i ∷ []) h))
                    (scan_chain-Unseen turns (increase_block_fail_count d i) (queue ++ i ∷ [])
                      (increase-IsUnused q d i
                        (below (λ k. candidate_unused d i u small room.0 k taken)) u)
                      small (All-append _ queue (i ∷ []) room.1 (room.0, tt))))
          ]
    ]
  ]
    where
      below : (q * k_block_size ≤ i → ⊥) → i < q * k_block_size
      below h = elim (Bool-cases (leb (q * k_block_size) i)) [
        | inl k ↦ absurd (h (ground arith))
        | inr k ↦ ground arith
      ]

      old :
          (q * k_block_size ≤ i → ⊥)
          → All (λ j. j < q * k_block_size) (take turns queue)
          → All (λ j. j < q * k_block_size) (i ∷ take turns queue)
      old h rest = (below h, rest)
