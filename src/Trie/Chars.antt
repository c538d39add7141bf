-- ===== src/Trie/Chars.antt =====
-- The reading of a text by characters: the loops over `search_ch_i` of `search` and over `ch_i` of
-- `build`. A turn that moves on by several bytes skips all but the first of them.
use cds_guard.Prelude.{
  ℕ, zero, suc, ◌+◌, ◌-◌, Bool, ◌||◌, Option, none, some, List, [], ◌∷◌, Bytes, length, ltb, ◌==◌,
  if◌then◌else◌,
}
use cds_guard.Trie.Utf8.{get_utf8_char_length, decode_char}
use cds_guard.Trie.Code.{char_code}

-- A character that `search` looks at: its place, its size in bytes, its code.
pub record Char : Type 0 where
  pub index : ℕ
  pub size : ℕ
  pub code : ℕ

-- The characters of a text from place `i` on. A byte that begins no character, or one that the text
-- ends in, is passed over.
unfoldable pub chars : Bool → ℕ → ℕ → Bytes → List Char
chars ignore_case skip i [] = []
chars ignore_case (suc skip) i (b ∷ text) = chars ignore_case skip (i + 1) text
chars ignore_case zero i (b ∷ text) =
    let size = get_utf8_char_length b in
    let passed = size == 0 || ltb (length (b ∷ text)) size in
    let rest = chars ignore_case (if passed then 0 else size - 1) (i + 1) text in
    if passed
    then rest
    else record {
      index = i;
      size = size;
      code = char_code ignore_case (decode_char size (b ∷ text));
    }
      ∷ rest

-- The codes of a pattern. A pattern that ends inside a character, or has one without a code, is refused
-- with an exception.
unfoldable pub pattern_codes : Bool → ℕ → Bytes → Option (List ℕ)
pattern_codes ignore_case skip [] = some []
pattern_codes ignore_case (suc skip) (b ∷ text) = pattern_codes ignore_case skip text
pattern_codes ignore_case zero (b ∷ text) =
    let size = get_utf8_char_length b in
    let code = char_code ignore_case (decode_char size (b ∷ text)) in
    let rest = pattern_codes ignore_case (size - 1) text in
    if ltb (length (b ∷ text)) size
    then none
    else if size == 0
    then rest
    else if code == 0
    then none
    else elim rest [ none ↦ none | some codes ↦ some (code ∷ codes) ]
