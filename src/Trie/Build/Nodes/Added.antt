-- ===== src/Trie/Build/Nodes/Added.antt =====
-- The trie with one node more.
use cds_guard.Prelude.{
  ℕ, zero, suc, ◌+◌, ◌≤◌, ◌<◌, ◌≡◌, refl, sym, ap, ◌∙◌, none, some, List, [], ◌∷◌, ◌++◌, length,
  length-append, set, ◌==◌, if◌then◌else◌, if-elim, All, All-append, arith,
}
use mathlib.Core.Path.{subst}
use cds_guard.Trie.Build.Nodes.{Node, new_node, node_at, child_of}
use cds_guard.Trie.Build.Nodes.Find.{
  IsTrie, length-set, get_or-set, get_or-append_one, child_of-append, Extends,
}

abbrev pub with_child : List Node → ℕ → ℕ → Node
with_child nodes i code = record (node_at nodes i) {
  children = (node_at nodes i).children ++ (code, length nodes) ∷ [];
}

-- The nodes with one allocated for a code at node `i`.
abbrev pub added : List Node → ℕ → ℕ → List Node
added nodes i code = set nodes i (with_child nodes i code) ++ new_node code ∷ []

pub node_at-added :
    (nodes : List Node) (i code k : ℕ)
    → i < length nodes
    → node_at (added nodes i code) k ≡ (
        if k == length nodes
        then new_node code
        else if k == i
        then with_child nodes i code
        else node_at nodes k)
node_at-added nodes i code k h =
    get_or-append_one (set nodes i (with_child nodes i code)) k _ _
    ∙ ap (λ n. if k == n then new_node code else node_at (set nodes i (with_child nodes i code)) k)
        (length-set nodes i (with_child nodes i code))
    ∙ ap (λ n. if k == length nodes then new_node code else n)
        (get_or-set nodes i k (with_child nodes i code) _ h)

pub node_at_beyond : (nodes : List Node) (k : ℕ) → length nodes ≤ k → node_at nodes k ≡ node_at [] 0
node_at_beyond [] k h = refl
node_at_beyond (n ∷ nodes) zero h = elim h [ ]
node_at_beyond (n ∷ nodes) (suc k) h = node_at_beyond nodes k (omega arith)

abbrev pub Below : ℕ → ℕ × ℕ → Type 0
Below bound c = c.1 < bound

pub All-Below :
    (a b : ℕ) (children : List (ℕ × ℕ)) → a ≤ b → All (Below a) children → All (Below b) children
All-Below a b [] h t = tt
All-Below a b (c ∷ children) h t = (omega arith, All-Below a b children h t.1)

module _ (nodes : List Node) (i code : ℕ) (h : i < length nodes)
    (missing : child_of (node_at nodes i).children code ≡ none) where
  pub length-added : length (added nodes i code) ≡ suc (length nodes)
  length-added =
      length-append (set nodes i (with_child nodes i code)) (new_node code ∷ [])
      ∙ ap (λ n. n + 1) (length-set nodes i (with_child nodes i code))
      ∙ omega arith

  pub added-Extends : Extends nodes (added nodes i code)
  unfolding new_node child_of
  added-Extends = record {
    longer = omega (arith, length-added);
    kept = λ k c j e. ground (
      arith,
      node_at-added nodes i code k h,
      node_at_beyond nodes k,
      child_of-append (node_at nodes i).children code (length nodes) c missing,
    );
    sizes = λ k. ground (arith, node_at-added nodes i code k h, node_at_beyond nodes k);
  }

  pub added-IsTrie : IsTrie nodes → IsTrie (added nodes i code)
  unfolding new_node
  added-IsTrie t = record {
    root = omega (arith, length-added);
    children = λ k.
        subst (λ n. All (Below (length (added nodes i code))) n.children)
          (sym (node_at-added nodes i code k h)) (all_below_added k);
  }
    where
      older : (k : ℕ) → All (Below (length (added nodes i code))) (node_at nodes k).children
      older k =
          All-Below (length nodes) _ (node_at nodes k).children (omega (arith, length-added))
            (t.children k)

      all_below_added :
          (k : ℕ)
          → All
              (Below (length (added nodes i code)))
              (if k == length nodes
                then new_node code
                else if k == i
                then with_child nodes i code
                else node_at nodes k).children
      all_below_added k =
          if-elim {A = Node} (λ n. All (Below (length (added nodes i code))) n.children)
            (k == length nodes) (λ _. tt)
            (λ _.
              if-elim {A = Node} (λ n. All (Below (length (added nodes i code))) n.children)
                (k == i)
                (λ _.
                  All-append _ (node_at nodes i).children ((code, length nodes) ∷ []) (older i)
                    (omega (arith, length-added), tt))
                (λ _. older k))

  pub added_child : child_of (node_at (added nodes i code) i).children code ≡ some (length nodes)
  added_child = ground (
    arith,
    node_at-added nodes i code i h,
    child_of-append (node_at nodes i).children code (length nodes) code missing,
  )
