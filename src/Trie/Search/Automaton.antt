-- ===== src/Trie/Search/Automaton.antt =====
-- The double array as the automaton of Aho and Corasick: what it has to hold for a list of patterns, and
-- the search for every pattern at every place that `search` is compared with. What was read is a list of
-- codes with the last one first, so the ends of what was read are the beginnings of the list.
pub mod Longest
pub mod Goto
pub mod Refines
use cds_guard.Prelude.{
  ℕ, zero, suc, ◌≤◌, ◌≡◌, ◌≢◌, ◌⊎◌, Bool, true, false, ◌&&◌, List, [], ◌∷◌, Bytes, length, take,
  leb, ◌==◌, if◌then◌else◌, All,
}
use mathlib.Core.List.{reverse}
use cds_guard.Trie.Array.{Vectors, k_root_index, next_node_index, has_child}
use cds_guard.Trie.Code.{k_max_val_of_char_code}
use cds_guard.Trie.Chars.{Char, chars}
use cds_guard.Trie.Search.{MatchedInfo, matched}

-- A pattern: its codes, last one first, and its size in bytes.
pub record Pattern : Type 0 where
  pub codes : List ℕ
  pub size : ℕ

-- `xs` is the beginning of `ys`.
unfoldable pub begins : List ℕ → List ℕ → Bool
begins [] ys = true
begins (x ∷ xs) [] = false
begins (x ∷ xs) (y ∷ ys) = x == y && begins xs ys

-- The size of the longest pattern that what was read ends with; 0 for none.
unfoldable pub longest_match : List Pattern → List ℕ → ℕ
longest_match [] history = 0
longest_match (p ∷ ps) history =
    let rest = longest_match ps history in
    if begins p.codes history && leb rest p.size then p.size else rest

-- The longest of the beginnings of `history` with at most `n` codes that is a node.
unfoldable pub longest_node : (List ℕ → Bool) → ℕ → List ℕ → List ℕ
longest_node node zero history = []
longest_node node (suc n) history =
    let shorter = longest_node node n history in
    if node (take (suc n) history) then take (suc n) history else shorter

-- The search for the patterns without the double array: at each character the longest pattern that
-- ends there.
unfoldable pub naive_loop : List Pattern → List Char → List ℕ → List MatchedInfo → List MatchedInfo
naive_loop ps [] history found = found
naive_loop ps (c ∷ cs) history found =
    naive_loop ps cs (c.code ∷ history) (matched c (longest_match ps (c.code ∷ history)) found)

unfoldable pub naive_search : Bool → List Pattern → Bytes → List MatchedInfo
naive_search ignore_case ps text = reverse (naive_loop ps (chars ignore_case 0 0 text) [] [])

-- The vectors hold the trie of the patterns, whose nodes are the words of `node`, each at its index. The
-- root may have an entry that leads back to it, since its own entry of `check_vec_` is the root.
pub record Represents (ps : List Pattern) (v : Vectors) (node : List ℕ → Bool) (index : List ℕ → ℕ)
    : Type 0 where
  pub root_node : node [] ≡ true
  pub root : index [] ≡ k_root_index
  pub prefixes : (c : ℕ) (w : List ℕ) → node (c ∷ w) ≡ true → node w ≡ true
  pub patterns : All (λ p. node p.codes ≡ true) ps
  pub not_root : (c : ℕ) (w : List ℕ) → node (c ∷ w) ≡ true → index (c ∷ w) ≢ k_root_index
  pub child :
      (c : ℕ) (w : List ℕ)
      → c ≤ k_max_val_of_char_code
      → node (c ∷ w) ≡ true
      → (has_child v (index w) c ≡ true) × (next_node_index v (index w) c ≡ index (c ∷ w))
  pub no_child :
      (c d : ℕ) (w : List ℕ)
      → c ≤ k_max_val_of_char_code
      → node (d ∷ w) ≡ true
      → node (c ∷ d ∷ w) ≡ false
      → has_child v (index (d ∷ w)) c ≡ false
  pub root_child :
      (c : ℕ)
      → c ≤ k_max_val_of_char_code
      → node (c ∷ []) ≡ false
      → (has_child v k_root_index c ≡ false) ⊎ (next_node_index v k_root_index c ≡ k_root_index)
  pub fails :
      (c : ℕ) (w : List ℕ)
      → node (c ∷ w) ≡ true
      → v.fail (index (c ∷ w)) ≡ index (longest_node node (length w) (c ∷ w))
  pub outputs : (w : List ℕ) → node w ≡ true → v.output_size (index w) ≡ longest_match ps w
