-- ===== src/Trie/State.antt =====
-- A `DoubleArrayTrie` and the operations on its vectors, blocks and queues. A `std::queue` is a list with
-- its front first. What a test reads beyond the end of a vector, `at` refuses with an exception: `none`.
use cds_guard.Prelude.{
  ℕ, zero, suc, ◌+◌, ◌-◌, ◌*◌, ◌/◌, Bool, ◌&&◌, Option, none, some, List, [], ◌∷◌, ◌++◌, ltb, ◌==◌,
  if◌then◌else◌, tabulate,
}
use cds_guard.Trie.Array.{Vectors, put}
use cds_guard.Trie.Code.{k_max_val_of_char_code}

pub record Dat : Type 0 where
  pub ignore_case_flag : Bool
  pub vectors : Vectors
  pub chain_queue : List ℕ
  pub dense_chain_queue : List ℕ
  pub block_used_size : ℕ → ℕ
  pub block_fail_count : ℕ → ℕ
  pub map_size : ℕ
  pub max_chain_node_index : ℕ

abbrev pub k_block_size : ℕ
k_block_size = 1024

abbrev pub k_block_threshold_size : ℕ
k_block_threshold_size = k_block_size / 2

abbrev pub k_block_threshold_fail_conut : ℕ
k_block_threshold_fail_conut = k_block_size / 2

abbrev pub k_map_increase_size : ℕ
k_map_increase_size = 4

abbrev pub get_block_index : ℕ → ℕ
get_block_index node = node / k_block_size

unfoldable pub empty_node : Dat → ℕ → Option Bool
empty_node d index =
    if ltb index d.vectors.element_capacity then some (d.vectors.check index == 0) else none

abbrev pub sparse_block : Dat → ℕ → Bool
sparse_block d node =
    ltb (d.block_used_size (get_block_index node)) k_block_threshold_size
    && ltb (d.block_fail_count (get_block_index node)) k_block_threshold_fail_conut

abbrev pub increase_block_used_count : Dat → ℕ → Dat
increase_block_used_count d node = record d {
  block_used_size =
      put d.block_used_size (get_block_index node) (d.block_used_size (get_block_index node) + 1);
}

abbrev pub increase_block_fail_count : Dat → ℕ → Dat
increase_block_fail_count d node =
    let count = d.block_fail_count (get_block_index node) in
    record d {
      block_fail_count =
          put d.block_fail_count (get_block_index node)
            (if ltb count k_block_threshold_fail_conut then count + 1 else count);
    }

abbrev pub reset_block_fail_count : Dat → ℕ → Dat
reset_block_fail_count d node = record d {
  block_fail_count = put d.block_fail_count (get_block_index node) 0;
}

-- `max_chain_node_index` for a capacity.
abbrev pub max_chain : ℕ → ℕ
max_chain capacity =
    if ltb k_max_val_of_char_code capacity then capacity - k_max_val_of_char_code else 0

-- The `do` loop of `reserve_trie`, for `fuel` turns at most.
unfoldable pub grow : ℕ → ℕ × ℕ → ℕ × ℕ
grow zero (map, capacity) = (map, capacity)
grow (suc fuel) (map, capacity) =
    let map' = map + k_map_increase_size in
    let capacity' = capacity + k_map_increase_size * k_block_size in
    let more = grow fuel (map', capacity') in
    if max_chain capacity' == 0 then more else (map', capacity')

-- Three turns are enough from any capacity: 3 * 4 blocks are more than the largest code. A new entry of a
-- vector is 0, as an entry beyond its end is here. The last index of the old chain is queued again.
unfoldable pub reserve_trie : Dat → Dat
reserve_trie d =
    let grown = grow 3 (d.map_size, d.vectors.element_capacity) in
    record d {
      map_size = grown.0;
      vectors = record d.vectors { element_capacity = grown.1 };
      max_chain_node_index = max_chain grown.1;
      chain_queue =
          d.chain_queue
          ++ tabulate (max_chain grown.1 + 1 - d.max_chain_node_index) d.max_chain_node_index
              (λ i. i);
      block_fail_count = λ i. d.block_fail_count i / 2;
    }

abbrev no_entries : ℕ → ℕ
no_entries i = 0

-- `pop`
abbrev pub pop_chain : Dat → Dat
pop_chain d = record d { chain_queue = elim (d.chain_queue) [ [] ↦ [] | i ∷ queue ↦ queue ] }

-- The constructor without the call of `build`.
unfoldable pub fresh : Bool → Dat
fresh ignore_case = pop_chain (
    reserve_trie (record {
      ignore_case_flag = ignore_case;
      vectors = record {
        base = no_entries;
        check = no_entries;
        fail = no_entries;
        output_size = no_entries;
        element_capacity = 0;
      };
      chain_queue = [];
      dense_chain_queue = [];
      block_used_size = no_entries;
      block_fail_count = no_entries;
      map_size = 0;
      max_chain_node_index = 0;
    }))

unfoldable pub erase_all : Dat → Dat
erase_all d = pop_chain (record d {
  vectors = record d.vectors {
    base = no_entries;
    check = no_entries;
    fail = no_entries;
    output_size = no_entries;
  };
  block_used_size = no_entries;
  block_fail_count = no_entries;
  chain_queue = d.chain_queue ++ tabulate (d.max_chain_node_index + 1) 0 (λ i. i);
})
