-- ===== src/Trie/Build/Links.antt =====
-- The failure links: a search of the trie by breadth.
use cds_guard.Prelude.{
  ℕ, zero, suc, true, false, none, some, List, [], ◌∷◌, ◌++◌, map, length, set, leb, ◌==◌,
  if◌then◌else◌,
}
use cds_guard.Trie.Build.Nodes.{Node, node_at, child_of}

-- `std::max`
abbrev pub max : ℕ → ℕ → ℕ
max a b = if leb b a then a else b

-- The `while` loop that looks for a node with a child for the code, and what follows it.
unfoldable pub link_from : ℕ → List Node → ℕ → ℕ → ℕ
link_from zero nodes i code = i
link_from (suc fuel) nodes i code = elim (child_of (node_at nodes i).children code) [
  | some j ↦ j
  | none ↦ elim (i == 0) [
    | true ↦ 0
    | false ↦ link_from fuel nodes (node_at nodes i).fail_node code
  ]
]

-- The body of the loop over the children of node `i`. A chain of links is shorter than the nodes are many.
unfoldable pub link_child : ℕ → List Node → ℕ × ℕ → List Node
link_child i nodes (code, j) =
    let dest = link_from (length nodes) nodes (node_at nodes i).fail_node code in
    set nodes j (record (node_at nodes j) {
      fail_node = dest;
      matched_size = max (node_at nodes j).matched_size (node_at nodes dest).matched_size;
    })

unfoldable pub link_children : ℕ → List Node → List (ℕ × ℕ) → List Node
link_children i nodes [] = nodes
link_children i nodes (c ∷ children) = link_children i (link_child i nodes c) children

unfoldable pub link_loop : ℕ → List Node → List ℕ → List Node
link_loop zero nodes queue = nodes
link_loop (suc fuel) nodes [] = nodes
link_loop (suc fuel) nodes (i ∷ queue) =
    let children = (node_at nodes i).children in
    link_loop fuel (link_children i nodes children) (queue ++ map (λ c. c.1) children)

-- The children of the root have the root for their link; a place not yet written is 0 already. Every node
-- is queued once.
unfoldable pub set_links : List Node → List Node
set_links nodes = link_loop (length nodes) nodes (map (λ c. c.1) (node_at nodes 0).children)
