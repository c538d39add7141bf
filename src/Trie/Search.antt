-- ===== src/Trie/Search.antt =====
-- `search`: the characters of the text (Chars) one after the other.
pub mod Automaton
pub mod Bounds
use mathlib.Core.List.{reverse}
use cds_guard.Prelude.{
  ℕ, zero, suc, ◌+◌, ◌-◌, ◌^◌, Bool, ◌&&◌, ◌||◌, not, List, [], ◌∷◌, Bytes, u64, length, leb, ◌==◌,
  if◌then◌else◌,
}
use cds_guard.Trie.Array.{Vectors, k_root_index, next_node_index, has_child}
use cds_guard.Trie.Chars.{Char, chars}

-- `MatchedInfo`
pub record MatchedInfo : Type 0 where
  pub index : ℕ
  pub size : ℕ

-- The `while` loop that goes along the failure links, for `fuel` turns at most.
unfoldable pub follow : ℕ → Vectors → ℕ → ℕ → ℕ
follow zero v node code = node
follow (suc fuel) v node code =
    let next = follow fuel v (v.fail node) code in
    if node == k_root_index || has_child v node code then node else next

unfoldable pub advance : ℕ → Vectors → ℕ → ℕ → ℕ
advance fuel v node code =
    let reached = follow fuel v node code in
    if has_child v reached code then next_node_index v reached code else reached

-- The place where a match of `size` bytes that ends with the character begins, in `size_t`.
abbrev pub match_start : Char → ℕ → ℕ
match_start c size = u64 (c.index + (c.size - 1) + 2 ^ 64 - (size - 1))

-- The result vector with its last entry first, and the match of `size` bytes that ends with the character.
unfoldable pub report : Char → ℕ → List MatchedInfo → List MatchedInfo
report c size [] = record { index = match_start c size; size = size } ∷ []
report c size (m ∷ ms) =
    if leb (match_start c size) m.index && leb (m.index + (m.size - 1)) c.index
    then record { index = match_start c size; size = size } ∷ ms
    else record { index = match_start c size; size = size } ∷ m ∷ ms

-- One turn of the loop after the character is read: what the node says of matches.
unfoldable pub matched : Char → ℕ → List MatchedInfo → List MatchedInfo
matched c size found = if size == 0 then found else report c size found

unfoldable pub search_loop : ℕ → Vectors → List Char → ℕ → List MatchedInfo → List MatchedInfo
search_loop fuel v [] node found = found
search_loop fuel v (c ∷ cs) node found =
    let reached = advance fuel v node c.code in
    search_loop fuel v cs reached (matched c (v.output_size reached) found)

-- The failure links lead from a node to one that stands for fewer characters, so no more turns are
-- needed than the text has bytes.
unfoldable pub search : Bool → Vectors → Bytes → List MatchedInfo
search ignore_case v text =
    reverse (search_loop (length text) v (chars ignore_case 0 0 text) k_root_index [])
