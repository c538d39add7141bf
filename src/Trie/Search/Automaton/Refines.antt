-- ===== src/Trie/Search/Automaton/Refines.antt =====
-- `search` is the search for every pattern at every place, in any double array that represents them.
use cds_guard.Prelude.{
  ℕ, zero, suc, ◌+◌, ◌-◌, ◌≤◌, ◌≡◌, refl, sym, ap, ◌∙◌, Bool, true, false, ◌||◌, List, [], ◌∷◌,
  Bytes, length, ltb, ◌==◌, if◌then◌else◌, All, arith,
}
use mathlib.Core.List.{reverse}
use cds_guard.Trie.Utf8.{get_utf8_char_length, decode_char}
use cds_guard.Trie.Array.{Vectors}
use cds_guard.Trie.Code.{k_max_val_of_char_code, char_code_bounded}
use cds_guard.Trie.Chars.{Char, chars}
use cds_guard.Trie.Search.{MatchedInfo, matched, search_loop, search}
use cds_guard.Trie.Search.Automaton.{
  Pattern, longest_match, longest_node, naive_loop, naive_search, Represents,
}
use cds_guard.Trie.Search.Automaton.Longest.{node-longest_node, longest_match-longest_node}
use cds_guard.Trie.Search.Automaton.Goto.{advance-longest_node}

bounded_after :
    (passed : Bool) (c : Char) (cs : List Char)
    → c.code ≤ k_max_val_of_char_code
    → All (λ d. d.code ≤ k_max_val_of_char_code) cs
    → All (λ d. d.code ≤ k_max_val_of_char_code) (if passed then cs else c ∷ cs)
bounded_after true c cs h hs = hs
bounded_after false c cs h hs = (h, hs)

-- What the turn at a byte that begins a character skips.
abbrev skipped : Bytes → ℕ → ℕ
skipped text size = if size == 0 || ltb (length text) size then 0 else size - 1

chars_bounded :
    (ignore_case : Bool) (skip i : ℕ) (text : Bytes)
    → All (λ c. c.code ≤ k_max_val_of_char_code) (chars ignore_case skip i text)
unfolding chars
chars_bounded ignore_case skip i [] = tt
chars_bounded ignore_case (suc skip) i (b ∷ text) = chars_bounded ignore_case skip (i + 1) text
chars_bounded ignore_case zero i (b ∷ text) =
    bounded_after _ _ _
      (char_code_bounded ignore_case (decode_char (get_utf8_char_length b) (b ∷ text)))
      (chars_bounded ignore_case (skipped (b ∷ text) (get_utf8_char_length b)) (i + 1) text)

length-chars :
    (ignore_case : Bool) (skip i : ℕ) (text : Bytes)
    → length (chars ignore_case skip i text) ≤ length text
unfolding chars
length-chars ignore_case skip i [] = omega arith
length-chars ignore_case (suc skip) i (b ∷ text) =
    omega (arith, length-chars ignore_case skip (i + 1) text)
length-chars ignore_case zero i (b ∷ text) =
    ground
      (arith, length-chars ignore_case (skipped (b ∷ text) (get_utf8_char_length b)) (i + 1) text)

module _ {ps : List Pattern} {v : Vectors} {node : List ℕ → Bool} {index : List ℕ → ℕ}
    (r : Represents ps v node index) where
  search_loop-naive_loop :
      (fuel : ℕ) (cs : List Char) (u : List ℕ) (found : List MatchedInfo)
      → All (λ c. c.code ≤ k_max_val_of_char_code) cs
      → length u + length cs ≤ fuel
      → search_loop fuel v cs (index (longest_node node (length u) u)) found
        ≡ naive_loop ps cs u found
  unfolding search_loop naive_loop
  search_loop-naive_loop fuel [] u found b h = refl
  search_loop-naive_loop fuel (c ∷ cs) u found b h =
      rw
        (
          advance-longest_node r (length u) fuel c.code u b.0 (omega arith) (omega arith),
          r.outputs (longest_node node (suc (length u)) (c.code ∷ u))
              (node-longest_node node (suc (length u)) (c.code ∷ u) r.root_node),
          longest_match-longest_node node ps (c.code ∷ u) r.patterns,
        )
        (search_loop-naive_loop fuel cs (c.code ∷ u)
          (matched c (longest_match ps (c.code ∷ u)) found) b.1 (omega arith))

pub search-naive_search :
    (ignore_case : Bool) (ps : List Pattern) (v : Vectors) (node : List ℕ → Bool)
    (index : List ℕ → ℕ)
    → Represents ps v node index
    → (text : Bytes) → search ignore_case v text ≡ naive_search ignore_case ps text
unfolding search naive_search longest_node
search-naive_search ignore_case ps v node index r text =
    ap (λ i. reverse (search_loop (length text) v (chars ignore_case 0 0 text) i [])) (sym r.root)
    ∙ ap reverse (
        search_loop-naive_loop r (length text) (chars ignore_case 0 0 text) [] []
          (chars_bounded ignore_case 0 0 text) (omega (arith, length-chars ignore_case 0 0 text)))
