-- ===== src/Trie/Place/Steps.antt =====
-- The turns of the loop over the chain queue, one equation for each way through its body.
use cds_guard.Prelude.{ℕ, suc, ◌≡◌, true, false, some, List, [], ◌∷◌, ◌++◌, arith}
use cds_guard.Trie.State.{
  Dat, empty_node, sparse_block, increase_block_fail_count, reset_block_fail_count,
}
use cds_guard.Trie.Place.{found, min_code, base_for, all_empty, scan_chain}

module _ (turns : ℕ) (codes : List ℕ) (d : Dat) (i : ℕ) (queue : List ℕ) where
  pub scan_chain_used :
      empty_node d i ≡ some false
      → scan_chain (suc turns) codes d (i ∷ queue) ≡ scan_chain turns codes d queue
  unfolding scan_chain
  scan_chain_used e = ground arith

  module _ (free : empty_node d i ≡ some true) where
    pub scan_chain_full :
        sparse_block d i ≡ false
        → scan_chain (suc turns) codes d (i ∷ queue)
          ≡ scan_chain turns codes
              (record d { dense_chain_queue = d.dense_chain_queue ++ i ∷ [] })
              queue
    unfolding scan_chain
    scan_chain_full full = ground (arith)

    pub scan_chain_fits :
        sparse_block d i ≡ true
        → all_empty d (base_for i (min_code codes)) codes ≡ some true
        → scan_chain (suc turns) codes d (i ∷ queue)
          ≡ found
              (base_for i (min_code codes))
              (record (reset_block_fail_count d i) { chain_queue = queue })
    unfolding scan_chain
    scan_chain_fits sparse fits = ground (arith)

    pub scan_chain_taken :
        sparse_block d i ≡ true
        → all_empty d (base_for i (min_code codes)) codes ≡ some false
        → scan_chain (suc turns) codes d (i ∷ queue)
          ≡ scan_chain turns codes (increase_block_fail_count d i) (queue ++ i ∷ [])
    unfolding scan_chain
    scan_chain_taken sparse taken = ground (arith)
