-- ===== src/Examples/Trie.antt =====
-- The keyword search on concrete patterns and texts.
use cds_guard.Prelude.{
  ℕ, zero, suc, ◌+◌, ◌-◌, ◌^◌, ◌≤◌, ◌<◌, ◌≡◌, ◌⊎◌, inl, inr, refl, Bool, true, false, ◌&&◌, List,
  [], ◌∷◌, length, Bool-cases, ◌==◌, if◌then◌else◌, All, u32, arith,
}
use cds_guard.Trie.Code.{k_max_val_of_char_code}
use cds_guard.Trie.Array.{Vectors, has_child, next_node_index}
use cds_guard.Trie.Search.Automaton.{Pattern, begins, longest_match, longest_node, Represents}
use cds_guard.Trie.Build.Nodes.{new_node, node_at, insert_pattern}
use cds_guard.Trie.Build.Nodes.Find.{IsTrie}
use cds_guard.Trie.Build.Nodes.Insert.{Holds, insert_pattern-Holds}

-- What `make` gives for the pattern "ab", at the entries that are set.
abbrev pub ab : Vectors
ab = record {
  base = λ i. if i == 1 then u32 (2 + 2 ^ 32 - 97) else if i == 2 then u32 (3 + 2 ^ 32 - 98) else 0;
  check = λ i. if i == 1 then 1 else if i == 2 then 1 else if i == 3 then 2 else 0;
  fail = λ i. if i == 2 then 1 else if i == 3 then 1 else 0;
  output_size = λ i. if i == 3 then 2 else 0;
  element_capacity = 12288;
}

abbrev pub ab_node : List ℕ → Bool
ab_node [] = true
ab_node (c ∷ []) = c == 97
ab_node (d ∷ c ∷ []) = c == 97 && d == 98
ab_node (e ∷ d ∷ c ∷ w) = false

abbrev pub ab_index : List ℕ → ℕ
ab_index w = length w + 1

abbrev pub ab_patterns : List Pattern
ab_patterns = record { codes = 98 ∷ 97 ∷ []; size = 2 } ∷ []

ab_prefixes : (c : ℕ) (w : List ℕ) → ab_node (c ∷ w) ≡ true → ab_node w ≡ true
ab_prefixes c [] h = refl
ab_prefixes d (c ∷ []) h = ground arith
ab_prefixes e (d ∷ c ∷ []) h = ground arith
ab_prefixes f (e ∷ d ∷ c ∷ w) h = ground arith

ab_child :
    (c : ℕ) (w : List ℕ)
    → c ≤ k_max_val_of_char_code
    → ab_node (c ∷ w) ≡ true
    → (has_child ab (ab_index w) c ≡ true) × (next_node_index ab (ab_index w) c ≡ ab_index (c ∷ w))
unfolding has_child
ab_child c [] k h = ground arith
ab_child c (d ∷ []) k h = ground arith
ab_child c (d ∷ e ∷ w) k h = absurd (cc)

ab_no_child :
    (c d : ℕ) (w : List ℕ)
    → c ≤ k_max_val_of_char_code
    → ab_node (d ∷ w) ≡ true
    → ab_node (c ∷ d ∷ w) ≡ false
    → has_child ab (ab_index (d ∷ w)) c ≡ false
unfolding has_child
ab_no_child c d [] k h n = ground arith
ab_no_child c d (e ∷ []) k h n = ground arith
ab_no_child c d (e ∷ f ∷ w) k h n = absurd (cc)

ab_root_child :
    (c : ℕ)
    → c ≤ k_max_val_of_char_code
    → ab_node (c ∷ []) ≡ false
    → (has_child ab 1 c ≡ false) ⊎ (next_node_index ab 1 c ≡ 1)
unfolding has_child
ab_root_child c k n = elim (Bool-cases (c == 96)) [
  | inl e ↦ inr (ground arith)
  | inr e ↦ inl (ground arith)
]

ab_fails :
    (c : ℕ) (w : List ℕ)
    → ab_node (c ∷ w) ≡ true
    → ab.fail (ab_index (c ∷ w)) ≡ ab_index (longest_node ab_node (length w) (c ∷ w))
unfolding longest_node
ab_fails c [] h = refl
ab_fails c (d ∷ []) h = ground arith
ab_fails c (d ∷ e ∷ w) h = absurd (cc)

ab_outputs :
    (w : List ℕ) → ab_node w ≡ true → ab.output_size (ab_index w) ≡ longest_match ab_patterns w
unfolding longest_match begins
ab_outputs [] h = refl
ab_outputs (c ∷ []) h = ground arith
ab_outputs (d ∷ c ∷ []) h = ground arith
ab_outputs (e ∷ d ∷ c ∷ w) h = absurd (cc)

pub ab-Represents : Represents ab_patterns ab ab_node ab_index
ab-Represents = record {
  root_node = refl;
  root = refl;
  prefixes = ab_prefixes;
  patterns = (refl, tt);
  not_root = λ c w h e. absurd (omega arith);
  child = ab_child;
  no_child = ab_no_child;
  root_child = ab_root_child;
  fails = ab_fails;
  outputs = ab_outputs;
}

-- The pattern "ab" in a trie that holds the root only.
root_IsTrie : IsTrie (new_node 0 ∷ [])
unfolding new_node
root_IsTrie = record { root = omega arith; children = λ i. no_children i }
  where
    no_children : (i : ℕ) → All (λ c. c.1 < 1) (node_at (new_node 0 ∷ []) i).children
    no_children zero = tt
    no_children (suc i) = tt

insert_pattern-Holds_example :
    Holds (new_node 0 ∷ []) (insert_pattern (new_node 0 ∷ []) (97 ∷ 98 ∷ []) 2) (97 ∷ 98 ∷ []) 2
insert_pattern-Holds_example = insert_pattern-Holds (new_node 0 ∷ []) (97 ∷ 98 ∷ []) 2 root_IsTrie
