-- ===== src/Examples/Keywords.antt =====
-- The double array that is built for a few keywords, and searched.
use cds_guard.Prelude.{
  ℕ, ◌≡◌, refl, true, Option, none, some, ◌>>=◌, List, [], ◌∷◌, ◌++◌, map, replicate, Bytes,
}
use cds_guard.Trie.Utf8.{
  get_utf8_char_length, decode_utf8_2b, decode_utf8_3b, decode_utf8_4b, decode_char,
}
use cds_guard.Trie.Code.{code_of, char_code, get_char_language_type}
use cds_guard.Trie.Array.{has_child}
use cds_guard.Trie.Chars.{chars, pattern_codes}
use cds_guard.Trie.Search.{follow, advance, report, matched, search_loop, search}
use cds_guard.Trie.State.{empty_node, grow, reserve_trie, fresh}
use cds_guard.Trie.Place.{
  min_code, all_empty, scan_dense, scan_chain, after_dense, one_turn, get_proper_base,
}
use cds_guard.Trie.Build.{read_patterns, build, make}
use cds_guard.Trie.Build.Nodes.{new_node, child_of, next_node, insert_codes, insert_pattern}
use cds_guard.Trie.Build.Links.{link_from, link_child, link_children, link_loop, set_links}
use cds_guard.Trie.Build.Indices.{
  insert_sorted, sort, put_children, place_children, descend, walk_turn, walk, set_indices,
  fail_children, fail_loop, set_fails,
}

-- The places and sizes of the matches.
found_in : List Bytes → Bytes → Option (List (ℕ × ℕ))
unfolding get_utf8_char_length decode_utf8_2b decode_utf8_3b decode_utf8_4b decode_char code_of
    char_code get_char_language_type has_child chars pattern_codes follow advance report matched
    search_loop search empty_node grow reserve_trie fresh min_code all_empty scan_dense scan_chain
    after_dense one_turn get_proper_base read_patterns build make new_node child_of next_node
    insert_codes insert_pattern link_from link_child link_children link_loop set_links insert_sorted
    sort put_children place_children descend walk_turn walk set_indices fail_children fail_loop
    set_fails
found_in ps text =
    make true ps >>= λ d. some (map (λ m. (m.index, m.size)) (search true d.vectors text))

abbrev he : Bytes
he = b'h' ∷ b'e' ∷ []

abbrev she : Bytes
she = b's' ∷ he

abbrev his : Bytes
his = b'h' ∷ b'i' ∷ b's' ∷ []

abbrev hers : Bytes
hers = he ++ b'r' ∷ b's' ∷ []

-- In "usheRs" a longer match takes the place of what it covers.
ushers :
    found_in (he ∷ she ∷ his ∷ hers ∷ []) (b'u' ∷ b's' ∷ b'h' ∷ b'e' ∷ b'R' ∷ b's' ∷ [])
    ≡ some ((1, 3) ∷ (2, 4) ∷ [])
unfolding found_in
ushers = refl

-- A syllable of Hangul among letters.
hangul :
    found_in ((0xEA ∷ 0xB0 ∷ 0x80 ∷ b'x' ∷ []) ∷ []) (b'a' ∷ 0xEA ∷ 0xB0 ∷ 0x80 ∷ b'X' ∷ b'y' ∷ [])
    ≡ some ((1, 4) ∷ [])
unfolding found_in
hangul = refl

-- A keyword with a character that has no code is refused.
no_code : found_in ((0xC3 ∷ 0xA9 ∷ []) ∷ []) [] ≡ none
unfolding found_in
no_code = refl

abbrev zeros : ℕ → Bytes
zeros n = replicate n b'0'

-- Where the first free index is the smallest code of a node's children, the base is 0, which `build` reads
-- as not yet placed: a second keyword below that node is lost.
lost :
    found_in
      ((zeros 47 ++ b'a' ∷ []) ∷ (zeros 46 ++ b'1' ∷ b'b' ∷ []) ∷ [])
      (zeros 46 ++ b'1' ∷ b'b' ∷ [])
    ≡ some []
unfolding found_in
lost = refl

-- With one character less in front both are found.
kept :
    found_in
      ((zeros 46 ++ b'a' ∷ []) ∷ (zeros 45 ++ b'1' ∷ b'b' ∷ []) ∷ [])
      (zeros 45 ++ b'1' ∷ b'b' ∷ [])
    ≡ some ((0, 47) ∷ [])
unfolding found_in
kept = refl
