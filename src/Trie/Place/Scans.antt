-- ===== src/Trie/Place/Scans.antt =====
-- The loops of `get_proper_base` over the two queues.
use cds_guard.Prelude.{
  ℕ, zero, suc, ◌+◌, ◌^◌, ◌≤◌, ◌<◌, ◌≡◌, ◌≢◌, refl, inl, inr, true, false, Bool-cases, none, some,
  Option-cases, List, [], ◌∷◌, ◌++◌, length, length-append, u32, All, All-append, arith,
}
use cds_guard.Trie.Code.{k_max_val_of_char_code}
use cds_guard.Trie.State.{Dat, empty_node, sparse_block, increase_block_fail_count}
use cds_guard.Trie.Place.Steps.{scan_chain_used, scan_chain_full, scan_chain_fits, scan_chain_taken}
use cds_guard.Trie.Place.{found, min_code, base_for, all_empty, scan_dense, scan_chain}
use cds_guard.Trie.Place.Room.{
  HasRoom, IsCode, Fits, Outcome, free_in_range, empty_node_some, all_empty-Fits, all_empty_some,
  All-imp, All-both, below_min, min_code_pos, in_range,
}

module _ (c : ℕ) (codes : List ℕ) (are_codes : All IsCode (c ∷ codes)) where
  pub candidate_some :
      (d : Dat) (i : ℕ)
      → d.vectors.element_capacity < 2 ^ 32
      → HasRoom d.vectors.element_capacity i
      → all_empty d (base_for i (min_code (c ∷ codes))) (c ∷ codes) ≢ none
  candidate_some d i h room = all_empty_some d (base_for i m) (c ∷ codes) (
      All-imp (λ x. (m ≤ x) × IsCode x) (λ x. u32 (base_for i m + x) < d.vectors.element_capacity)
        (c ∷ codes)
        (λ x. in_range d.vectors.element_capacity i m x h room (min_code_pos c codes are_codes))
        (All-both (λ x. m ≤ x) IsCode (c ∷ codes) (below_min m (c ∷ codes) (omega arith))
          are_codes))
    where
      m : ℕ
      m = min_code (c ∷ codes)

  pub scan_chain-Outcome :
      (turns : ℕ) (d : Dat) (queue : List ℕ)
      → d.vectors.element_capacity < 2 ^ 32
      → All (HasRoom d.vectors.element_capacity) queue
      → All (HasRoom d.vectors.element_capacity) d.dense_chain_queue
      → turns ≤ length queue
      → Outcome d.vectors (c ∷ codes) (scan_chain turns (c ∷ codes) d queue)
  unfolding scan_chain
  scan_chain-Outcome zero d queue small room dense h =
      (record { chain = room; dense = dense }, refl, refl)
  scan_chain-Outcome (suc turns) d [] small room dense h = elim h [ ]
  scan_chain-Outcome (suc turns) d (i ∷ queue) small room dense h =
      elim (Option-cases (empty_node d i)) [
        | inl beyond ↦ absurd (empty_node_some d i (omega arith) beyond)
        | inr (false, used) ↦
            rw (scan_chain_used turns (c ∷ codes) d i queue used)
              (scan_chain-Outcome turns d queue small room.1 dense (omega arith))
        | inr (true, free) ↦ elim (Bool-cases (sparse_block d i)) [
          | inr full ↦ rw (scan_chain_full turns (c ∷ codes) d i queue free full) (
              scan_chain-Outcome turns
                (record d { dense_chain_queue = d.dense_chain_queue ++ i ∷ [] }) queue small room.1
                (All-append _ d.dense_chain_queue (i ∷ []) dense (room.0, tt)) (omega arith))
          | inl sparse ↦
              elim (Option-cases (all_empty d (base_for i (min_code (c ∷ codes))) (c ∷ codes))) [
                | inl beyond ↦ absurd (candidate_some d i small room.0 beyond)
                | inr (true, fits) ↦
                    rw (scan_chain_fits turns (c ∷ codes) d i queue free sparse fits) (
                      all_empty-Fits d (base_for i (min_code (c ∷ codes))) (c ∷ codes) fits,
                      record { chain = room.1; dense = dense },
                      refl,
                    )
                | inr (false, taken) ↦
                    rw (scan_chain_taken turns (c ∷ codes) d i queue free sparse taken) (
                      scan_chain-Outcome turns (increase_block_fail_count d i) (queue ++ i ∷ [])
                        small (All-append _ queue (i ∷ []) room.1 (room.0, tt)) dense
                        (omega (arith, length-append queue (i ∷ []))))
              ]
        ]
      ]

scan_dense_used :
    (least : ℕ) (d : Dat) (i : ℕ) (queue : List ℕ)
    → empty_node d i ≡ some false
    → scan_dense least d (i ∷ queue) ≡ scan_dense least d queue
unfolding scan_dense
scan_dense_used least d i queue e = ground arith

scan_dense_free :
    (least : ℕ) (d : Dat) (i : ℕ) (queue : List ℕ)
    → empty_node d i ≡ some true
    → scan_dense least d (i ∷ queue)
      ≡ found (base_for i least) (record d { dense_chain_queue = queue })
unfolding scan_dense
scan_dense_free least d i queue e = ground arith

base_back : (i c : ℕ) → i < 2 ^ 32 → c < 2 ^ 32 → u32 (base_for i c + c) ≡ i
base_back i c h k = omega arith

free_entry :
    (least : ℕ) (d : Dat) (i : ℕ)
    → d.vectors.element_capacity < 2 ^ 32
    → least ≤ k_max_val_of_char_code
    → HasRoom d.vectors.element_capacity i
    → empty_node d i ≡ some true
    → Fits d (base_for i least) (least ∷ [])
free_entry least d i small h room free =
    rw (base_back i least (omega arith) (omega arith)) (free_in_range d i free, tt)

pub scan_dense-Outcome :
    (least : ℕ) (d : Dat) (queue : List ℕ)
    → d.vectors.element_capacity < 2 ^ 32
    → least ≤ k_max_val_of_char_code
    → All (HasRoom d.vectors.element_capacity) d.chain_queue
    → All (HasRoom d.vectors.element_capacity) queue
    → Outcome d.vectors (least ∷ []) (scan_dense least d queue)
unfolding scan_dense
scan_dense-Outcome least d [] small h chain room =
    (record { chain = chain; dense = tt }, refl, refl)
scan_dense-Outcome least d (i ∷ queue) small h chain room = elim (Option-cases (empty_node d i)) [
  | inl beyond ↦ absurd (empty_node_some d i (omega arith) beyond)
  | inr (false, used) ↦
      rw (scan_dense_used least d i queue used)
        (scan_dense-Outcome least d queue small h chain room.1)
  | inr (true, free) ↦
      rw (scan_dense_free least d i queue free)
        (free_entry least d i small h room.0 free, record { chain = chain; dense = room.1 }, refl)
]
