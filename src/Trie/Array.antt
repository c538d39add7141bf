-- ===== src/Trie/Array.antt =====
-- The vectors of `DoubleArrayTrie`, which all have `element_capacity` entries: functions from an index,
-- with 0 for what is not set. An `s_index_type` is its bit pattern, a number below 2 ^ 32.
use cds_guard.Prelude.{ℕ, ◌+◌, Bool, ◌&&◌, u32, ltb, ◌==◌, if◌then◌else◌}

pub record Vectors : Type 0 where
  pub base : ℕ → ℕ
  pub check : ℕ → ℕ
  pub fail : ℕ → ℕ
  pub output_size : ℕ → ℕ
  pub element_capacity : ℕ

abbrev pub k_root_index : ℕ
k_root_index = 1

abbrev pub next_node_index : Vectors → ℕ → ℕ → ℕ
next_node_index v node code = u32 (v.base node + code)

-- `next_node_index < check_vec_.size() && check_vec_[next_node_index] == curr_node_index`
unfoldable pub has_child : Vectors → ℕ → ℕ → Bool
has_child v node code =
    ltb (next_node_index v node code) v.element_capacity
    && v.check (next_node_index v node code) == node

-- `v[index] = value`
abbrev pub put : (ℕ → ℕ) → ℕ → ℕ → ℕ → ℕ
put v index value i = if i == index then value else v i
