-- ===== src/Trie/Place.antt =====
-- `get_proper_base`: the search for a place for the children of a node.
pub mod Steps
pub mod Room
pub mod Scans
pub mod Sound
pub mod Enough
pub mod Total
use cds_guard.Prelude.{
  ℕ, zero, suc, ◌+◌, ◌-◌, ◌*◌, ◌^◌, ◌≤◌, ◌<◌, ◌≡◌, min, Bool, true, false, ◌&&◌, ◌||◌, Option, none,
  some, ◌>>=◌, List, [], ◌∷◌, ◌++◌, length, ltb, leb, ◌==◌, u32, if◌then◌else◌,
}
use cds_guard.Trie.State.{
  Dat, empty_node, sparse_block, increase_block_fail_count, reset_block_fail_count, reserve_trie,
}

-- How a search ends: with a base, with nothing found, or with the exception of `at` or an access to the
-- front of an empty queue.
pub data Placed : Type 0 where
  found : ℕ → Dat → Placed
  tried : Dat → Placed
  fault : Placed

-- `*std::min_element`
unfoldable pub min_code : List ℕ → ℕ
min_code [] = 0
min_code (c ∷ []) = c
min_code (c ∷ d ∷ codes) = min c (min_code (d ∷ codes))

-- `index - code` in 32 bits.
abbrev pub base_for : ℕ → ℕ → ℕ
base_for index code = u32 (index + 2 ^ 32 - code)

-- The loop over the codes with its `break`.
unfoldable pub all_empty : Dat → ℕ → List ℕ → Option Bool
all_empty d base [] = some true
all_empty d base (c ∷ codes) =
    let rest = all_empty d base codes in
    empty_node d (u32 (base + c)) >>= λ free. if free then rest else some false

-- The loop over the dense queue, which stands apart here; it gives up what it passes.
unfoldable pub scan_dense : ℕ → Dat → List ℕ → Placed
scan_dense least d [] = tried (record d { dense_chain_queue = [] })
scan_dense least d (i ∷ queue) = elim (empty_node d i) [
  | none ↦ fault
  | some true ↦ found (base_for i least) (record d { dense_chain_queue = queue })
  | some false ↦ scan_dense least d queue
]

-- The `for` loop for as many turns as the queue had entries; the chain queue stands apart here.
unfoldable pub scan_chain : ℕ → List ℕ → Dat → List ℕ → Placed
scan_chain zero codes d queue = tried (record d { chain_queue = queue })
scan_chain (suc turns) codes d [] = fault
scan_chain (suc turns) codes d (i ∷ queue) = elim (empty_node d i) [
  | none ↦ fault
  | some false ↦ scan_chain turns codes d queue
  | some true ↦ elim (sparse_block d i) [
    | false ↦
        scan_chain turns codes (record d { dense_chain_queue = d.dense_chain_queue ++ i ∷ [] })
          queue
    | true ↦ elim (all_empty d (base_for i (min_code codes)) codes) [
      | none ↦ fault
      | some true ↦
          found (base_for i (min_code codes))
            (record (reset_block_fail_count d i) { chain_queue = queue })
      | some false ↦ scan_chain turns codes (increase_block_fail_count d i) (queue ++ i ∷ [])
    ]
  ]
]

-- What follows the loop over the dense queue.
unfoldable pub after_dense : List ℕ → Placed → Placed
after_dense codes (found base d) = found base d
after_dense codes (tried d) = scan_chain (length d.chain_queue) codes d d.chain_queue
after_dense codes fault = fault

-- One turn of `while (true)`, without `reserve_trie`. The loop over the dense queue leaves the chain queue
-- as it is, so that its length may be read after it.
unfoldable pub one_turn : List ℕ → Dat → Placed
one_turn codes d =
    after_dense codes
      (if length codes == 1 then scan_dense (min_code codes) d d.dense_chain_queue else tried d)

unfoldable pub get_proper_base : ℕ → List ℕ → Dat → Placed
get_proper_base zero codes d = tried d
get_proper_base (suc fuel) codes d = elim (one_turn codes d) [
  | found base d' ↦ found base d'
  | tried d' ↦ get_proper_base fuel codes (reserve_trie d')
  | fault ↦ fault
]
