-- ===== src/Trie/Build/Nodes/Insert.antt =====
-- The insertion of a pattern into the trie, and the walk from the root that finds it again.
use cds_guard.Prelude.{
  ℕ, ◌<◌, ◌≡◌, ◌≢◌, refl, ap, ◌∙◌, inl, inr, none, some, Option-cases, List, [], ◌∷◌, length, set,
  ◌==◌, if◌then◌else◌, arith,
}
use cds_guard.Trie.Build.Nodes.{Node, node_at, child_of, next_node, insert_codes, insert_pattern}
use cds_guard.Trie.Build.Nodes.Find.{
  find, IsTrie, length-set, get_or-set, child_of_lt, Extends, Extends-refl, Extends-trans,
  find_step, Keeps, find-Keeps,
}
use cds_guard.Trie.Build.Nodes.Added.{added, length-added, added-Extends, added-IsTrie, added_child}

-- The nodes after a code at node `i`.
record Inserted (nodes : List Node) (i : ℕ) (codes : List ℕ) (r : List Node × ℕ) : Type 0 where
  pub extends : Extends nodes r.0
  pub is_trie : IsTrie r.0
  pub in_range : r.1 < length r.0
  pub leads : find r.0 i codes ≡ some r.1

next_node_old :
    (nodes : List Node) (i code j : ℕ)
    → child_of (node_at nodes i).children code ≡ some j
    → next_node nodes i code ≡ (nodes, j)
unfolding next_node
next_node_old nodes i code j e = ground arith

next_node_new :
    (nodes : List Node) (i code : ℕ)
    → child_of (node_at nodes i).children code ≡ none
    → next_node nodes i code ≡ (added nodes i code, length nodes)
unfolding next_node
next_node_new nodes i code e = ground arith

next_node-Inserted :
    (nodes : List Node) (i code : ℕ)
    → i < length nodes
    → IsTrie nodes
    → Inserted nodes i (code ∷ []) (next_node nodes i code)
next_node-Inserted nodes i code h t =
    elim (Option-cases (child_of (node_at nodes i).children code)) [
      | inr (j, there) ↦ rw (next_node_old nodes i code j there) (record {
        extends = Extends-refl nodes;
        is_trie = t;
        in_range =
            child_of_lt (node_at nodes i).children code j (length nodes) (t.children i) there;
        leads = find_step nodes i code j [] there ∙ found_end nodes j;
      })
      | inl missing ↦ rw (next_node_new nodes i code missing) (record {
        extends = added-Extends nodes i code h missing;
        is_trie = added-IsTrie nodes i code h missing t;
        in_range = omega (arith, length-added nodes i code h missing);
        leads =
            find_step (added nodes i code) i code (length nodes) []
              (added_child nodes i code h missing)
            ∙ found_end (added nodes i code) (length nodes);
      })
    ]
  where
    found_end : (ns : List Node) (j : ℕ) → find ns j [] ≡ some j
    found_end ns j = unfold find in refl

find_from :
    (nodes : List Node) (i c k : ℕ) (codes : List ℕ)
    → find nodes i (c ∷ []) ≡ some k
    → find nodes i (c ∷ codes) ≡ find nodes k codes
unfolding find
find_from nodes i c k codes e = ground arith

Inserted-trans :
    (nodes : List Node) (i c : ℕ) (codes : List ℕ) (n r : List Node × ℕ)
    → Inserted nodes i (c ∷ []) n
    → Inserted n.0 n.1 codes r
    → Inserted nodes i (c ∷ codes) r
Inserted-trans nodes i c codes n r first rest = record {
  extends = Extends-trans first.extends rest.extends;
  is_trie = rest.is_trie;
  in_range = rest.in_range;
  leads =
      find_from r.0 i c n.1 codes (find-Keeps n.0 r.0 rest.extends.kept (c ∷ []) i n.1 first.leads)
      ∙ rest.leads;
}

insert_codes-Inserted :
    (nodes : List Node) (i : ℕ) (codes : List ℕ)
    → i < length nodes
    → IsTrie nodes
    → Inserted nodes i codes (insert_codes nodes i codes)
unfolding insert_codes
insert_codes-Inserted nodes i [] h t = record {
  extends = Extends-refl nodes;
  is_trie = t;
  in_range = h;
  leads = unfold find in refl;
}
insert_codes-Inserted nodes i (c ∷ codes) h t =
    let first = next_node-Inserted nodes i c h t in
    Inserted-trans nodes i c codes (next_node nodes i c) (insert_codes nodes i (c ∷ codes)) first (
      insert_codes-Inserted (next_node nodes i c).0 (next_node nodes i c).1 codes first.in_range
        first.is_trie)

-- What the trie of `nodes` becomes when a pattern of `size` bytes is inserted.
pub record Holds (nodes new : List Node) (codes : List ℕ) (size : ℕ) : Type 0 where
  pub at_node : ℕ
  pub is_trie : IsTrie new
  pub found : find new 0 codes ≡ some at_node
  pub sized : (node_at new at_node).matched_size ≡ size
  pub others :
      (codes' : List ℕ) (j : ℕ)
      → find nodes 0 codes' ≡ some j
      → (find new 0 codes' ≡ some j)
        × (j ≢ at_node → (node_at new j).matched_size ≡ (node_at nodes j).matched_size)

abbrev resized : List Node → ℕ → ℕ → List Node
resized nodes i size = set nodes i (record (node_at nodes i) { matched_size = size })

module _ (nodes : List Node) (i size : ℕ) (h : i < length nodes) where
  node_at-resized :
      (k : ℕ)
      → node_at (resized nodes i size) k
        ≡ (if k == i then record (node_at nodes i) { matched_size = size } else node_at nodes k)
  node_at-resized k = get_or-set nodes i k (record (node_at nodes i) { matched_size = size }) _ h

  resized_children :
      (k : ℕ) → (node_at (resized nodes i size) k).children ≡ (node_at nodes k).children
  resized_children k = ground (arith, node_at-resized k)

  resized-Keeps : Keeps nodes (resized nodes i size)
  resized-Keeps k c j e = ap (λ l. child_of l c) (resized_children k) ∙ e

  resized-IsTrie : IsTrie nodes → IsTrie (resized nodes i size)
  resized-IsTrie t = record {
    root = rw (length-set nodes i (record (node_at nodes i) { matched_size = size })) t.root;
    children = λ k.
        rw
          (
            length-set nodes i (record (node_at nodes i) { matched_size = size }),
            resized_children k,
          )
          (t.children k);
  }

-- After a pattern is inserted into a trie, its codes lead from the root to a node with its size; all codes
-- that led to a node before lead to the same node, and each other node keeps its size.
pub insert_pattern-Holds :
    (nodes : List Node) (codes : List ℕ) (size : ℕ)
    → IsTrie nodes
    → Holds nodes (insert_pattern nodes codes size) codes size
unfolding insert_pattern
insert_pattern-Holds nodes codes size t =
    let r = insert_codes-Inserted nodes 0 codes t.root t in
    let new = (insert_codes nodes 0 codes).0 in
    let i = (insert_codes nodes 0 codes).1 in
    record {
      at_node = i;
      is_trie = resized-IsTrie new i size r.in_range r.is_trie;
      found =
          find-Keeps new (resized new i size) (resized-Keeps new i size r.in_range) codes 0 i
            r.leads;
      sized = ground (arith, node_at-resized new i size r.in_range i);
      others = λ codes' j e. (
        find-Keeps new (resized new i size) (resized-Keeps new i size r.in_range) codes' 0 j
            (find-Keeps nodes new r.extends.kept codes' 0 j e),
        λ other. ground (arith, node_at-resized new i size r.in_range j, r.extends.sizes j),
      );
    }
