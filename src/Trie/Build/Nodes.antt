-- ===== src/Trie/Build/Nodes.antt =====
-- The nodes of the trie that `build` allocates: a list in the order of their allocation, where a pointer
-- is a place, the root is at 0, and a map of children is a list of codes and places.
pub mod Find
pub mod Added
pub mod Insert
use cds_guard.Prelude.{
  ℕ, zero, suc, ◌+◌, ◌≤◌, ◌<◌, ◌≡◌, refl, ap, ◌∙◌, Bool, true, false, Option, none, some, List, [],
  ◌∷◌, ◌++◌, length, get_or, set, ◌==◌, if◌then◌else◌, arith,
}

-- `Trie`; the null pointer of the root's `fail_node_` is 0, and is not read.
pub record Node : Type 0 where
  pub ch_code : ℕ
  pub matched_size : ℕ
  pub dat_index : ℕ
  pub fail_node : ℕ
  pub children : List (ℕ × ℕ)

unfoldable pub new_node : ℕ → Node
new_node code = record {
  ch_code = code;
  matched_size = 0;
  dat_index = 0;
  fail_node = 0;
  children = [];
}

abbrev pub node_at : List Node → ℕ → Node
node_at nodes i =
    get_or nodes i
      (record { ch_code = 0; matched_size = 0; dat_index = 0; fail_node = 0; children = [] })

-- `child_node_map_.at`, with `none` where there is no child.
unfoldable pub child_of : List (ℕ × ℕ) → ℕ → Option ℕ
child_of [] code = none
child_of ((c, i) ∷ children) code = if c == code then some i else child_of children code

-- The child for a code, which is allocated if it is not there.
unfoldable pub next_node : List Node → ℕ → ℕ → List Node × ℕ
next_node nodes i code = elim (child_of (node_at nodes i).children code) [
  | some j ↦ (nodes, j)
  | none ↦ (
    set nodes i (record (node_at nodes i) {
      children = (node_at nodes i).children ++ (code, length nodes) ∷ [];
    })
        ++ new_node code ∷ [],
    length nodes,
  )
]

unfoldable pub insert_codes : List Node → ℕ → List ℕ → List Node × ℕ
insert_codes nodes i [] = (nodes, i)
insert_codes nodes i (c ∷ codes) =
    insert_codes (next_node nodes i c).0 (next_node nodes i c).1 codes

unfoldable pub insert_pattern : List Node → List ℕ → ℕ → List Node
insert_pattern nodes codes size =
    let (nodes', i) = insert_codes nodes 0 codes in
    set nodes' i (record (node_at nodes' i) { matched_size = size })
