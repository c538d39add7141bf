-- ===== src/Trie/Build/Indices.antt =====
-- The places of the nodes in the vectors: a search of the trie by depth, with an explicit stack.
use cds_guard.Prelude.{
  ℕ, zero, suc, ◌+◌, ◌*◌, Option, none, some, ◌>>=◌, List, [], ◌∷◌, ◌++◌, map, length, get_or, set,
  leb, ◌==◌, u32, if◌then◌else◌,
}
use cds_guard.Trie.Array.{put, k_root_index}
use cds_guard.Trie.State.{Dat, increase_block_used_count}
use cds_guard.Trie.Place.{found, tried, fault, get_proper_base}
use cds_guard.Trie.Build.Nodes.{Node, node_at}

-- `SetIndexEntry`
pub record Entry : Type 0 where
  pub node : ℕ
  pub child_index : ℕ
  pub child_vec : List (ℕ × ℕ)

unfoldable pub insert_sorted : ℕ × ℕ → List (ℕ × ℕ) → List (ℕ × ℕ)
insert_sorted p [] = p ∷ []
insert_sorted p (q ∷ qs) = if leb p.0 q.0 then p ∷ q ∷ qs else q ∷ insert_sorted p qs

-- `std::sort` by the codes.
unfoldable pub sort : List (ℕ × ℕ) → List (ℕ × ℕ)
sort [] = []
sort (p ∷ ps) = insert_sorted p (sort ps)

-- The loop that writes the children of the node at `index`.
unfoldable pub put_children : ℕ → ℕ → List (ℕ × ℕ) → List Node → Dat → List Node × Dat
put_children index base [] nodes d = (nodes, d)
put_children index base ((code, j) ∷ children) nodes d =
    let i = u32 (base + code) in
    put_children index base children (set nodes j (record (node_at nodes j) { dat_index = i })) (
      increase_block_used_count
        (record d {
          vectors = record d.vectors {
            check = put d.vectors.check i index;
            output_size = put d.vectors.output_size i (node_at nodes j).matched_size;
          };
        })
        i)

-- The vectors grow three times at most before a base is found.
unfoldable pub place_children : ℕ → List (ℕ × ℕ) → List Node → Dat → Option (List Node × Dat)
place_children index children nodes d = elim (get_proper_base 4 (map (λ c. c.0) children) d) [
  | found base d' ↦ some (
      put_children index base children nodes
        (record d' { vectors = record d'.vectors { base = put d'.vectors.base index base } }))
  | tried d' ↦ none
  | fault ↦ none
]

-- The stack, the nodes and the trie.
pub record Walk : Type 0 where
  pub stack : List Entry
  pub nodes : List Node
  pub dat : Dat

-- The entry on top of the stack goes on to its next child, which is pushed.
unfoldable pub descend : Entry → List Entry → List Node → Dat → Walk
descend e stack nodes d = record {
  stack =
      record { node = (get_or e.child_vec e.child_index (0, 0)).1; child_index = 0; child_vec = [] }
      ∷ record e { child_index = e.child_index + 1 }
      ∷ stack;
  nodes = nodes;
  dat = d;
}

-- A turn of the loop with `e` on top of the stack.
unfoldable pub walk_turn : Entry → List Entry → List Node → Dat → Option Walk
walk_turn e stack nodes d =
    let node = node_at nodes e.node in
    let children = sort (e.child_vec ++ node.children) in
    if e.child_index == length node.children
    then some (record { stack = stack; nodes = nodes; dat = d })
    else if d.vectors.base node.dat_index == 0
    then (place_children node.dat_index children nodes d >>= λ placed.
        some (descend (record e { child_vec = children }) stack placed.0 placed.1))
    else some (descend e stack nodes d)

unfoldable pub walk : ℕ → Walk → Option Walk
walk zero w = some w
walk (suc fuel) w = elim (w.stack) [
  | [] ↦ some w
  | e ∷ stack ↦ elim (walk_turn e stack w.nodes w.dat) [ none ↦ none | some w' ↦ walk fuel w' ]
]

abbrev pub place_root : Dat → Dat
place_root d = record d {
  vectors = record d.vectors {
    check = put d.vectors.check k_root_index 1;
    fail = put d.vectors.fail k_root_index 0;
  };
  block_used_size = put d.block_used_size 0 (d.block_used_size 0 + 1);
}

-- An entry has a turn for each child and one at which it is popped.
unfoldable pub set_indices : List Node → Dat → Option (List Node × Dat)
set_indices nodes d =
    walk (2 * length nodes) (record {
      stack = record { node = 0; child_index = 0; child_vec = [] } ∷ [];
      nodes = set nodes 0 (record (node_at nodes 0) { dat_index = k_root_index });
      dat = place_root d;
    })
    >>= λ w. some (w.nodes, w.dat)

unfoldable pub fail_children : List Node → List (ℕ × ℕ) → (ℕ → ℕ) → ℕ → ℕ
fail_children nodes [] fail = fail
fail_children nodes ((code, j) ∷ children) fail =
    fail_children nodes children
      (put fail (node_at nodes j).dat_index (node_at nodes (node_at nodes j).fail_node).dat_index)

unfoldable pub fail_loop : ℕ → List Node → List ℕ → (ℕ → ℕ) → ℕ → ℕ
fail_loop zero nodes queue fail = fail
fail_loop (suc fuel) nodes [] fail = fail
fail_loop (suc fuel) nodes (i ∷ queue) fail =
    let children = (node_at nodes i).children in
    fail_loop fuel nodes (queue ++ map (λ c. c.1) children) (fail_children nodes children fail)

unfoldable pub set_fails : List Node → Dat → Dat
set_fails nodes d = record d {
  vectors = record d.vectors { fail = fail_loop (length nodes) nodes (0 ∷ []) d.vectors.fail };
}
