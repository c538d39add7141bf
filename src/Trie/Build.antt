-- ===== src/Trie/Build.antt =====
-- `build`: the trie of the patterns, its failure links, and its nodes placed in the vectors.
pub mod Nodes
pub mod Links
pub mod Indices
use cds_guard.Prelude.{ℕ, ◌+◌, Bool, Option, none, some, ◌>>=◌, List, [], ◌∷◌, Bytes, length}
use cds_guard.Trie.Chars.{pattern_codes}
use cds_guard.Trie.Array.{Vectors}
use cds_guard.Trie.State.{Dat, fresh, erase_all}
use cds_guard.Trie.Build.Nodes.{Node, new_node, insert_pattern}
use cds_guard.Trie.Build.Links.{set_links}
use cds_guard.Trie.Build.Indices.{set_indices, set_fails}

-- The patterns one after the other; none of the vectors is written before all are read.
unfoldable pub read_patterns : Bool → List Node → List Bytes → Option (List Node)
read_patterns ignore_case nodes [] = some nodes
read_patterns ignore_case nodes (p ∷ ps) = pattern_codes ignore_case 0 p >>= λ codes.
    read_patterns ignore_case (insert_pattern nodes codes (length p)) ps

-- The queues are cleared between the placing and the failure links.
unfoldable pub build : List Bytes → Dat → Option Dat
build ps d = read_patterns d.ignore_case_flag (new_node 0 ∷ []) ps >>= λ nodes.
    set_indices (set_links nodes) d >>= λ placed.
    some (set_fails placed.0 (record placed.1 { chain_queue = []; dense_chain_queue = [] }))

-- The constructor.
unfoldable pub make : Bool → List Bytes → Option Dat
make ignore_case ps = build ps (fresh ignore_case)

unfoldable pub rebuild : List Bytes → Bool → Dat → Option Dat
rebuild ps ignore_case d = build ps (record (erase_all d) { ignore_case_flag = ignore_case })
