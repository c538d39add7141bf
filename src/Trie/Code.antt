-- ===== src/Trie/Code.antt =====
-- The codes of characters in the double array.
use cds_guard.Prelude.{
  ℕ, ◌+◌, ◌-◌, ◌≤◌, ◌<◌, ◌≡◌, Bool, true, false, ◌&&◌, ◌||◌, leb, ltb, if◌then◌else◌, arith,
}

-- The values of `LanguageType` that `get_char_language_type` returns.
pub data LanguageType : Type 0 where
  upper_alphabet lower_alphabet ascii_without_alphabet hangul_jamo hangul_syllable undefined :
      LanguageType

unfoldable pub get_char_language_type : ℕ → LanguageType
get_char_language_type ch =
    if ltb ch 128
    then if leb 65 ch && leb ch 90
      then upper_alphabet
      else if leb 97 ch && leb ch 122
      then lower_alphabet
      else ascii_without_alphabet
    else if leb 0x1100 ch && leb ch 0x11FF
    then hangul_jamo
    else if leb 0xAC00 ch && leb ch 0xD7A3
    then hangul_syllable
    else undefined

-- The tests of the flags, by cases on the value.
unfoldable pub code_of : Bool → ℕ → LanguageType → ℕ
code_of ignore_case ch upper_alphabet = if ignore_case then ch + 32 else ch
code_of ignore_case ch lower_alphabet = ch
code_of ignore_case ch ascii_without_alphabet = ch
code_of ignore_case ch hangul_jamo = ch - 0x1100 + 0x0100
code_of ignore_case ch hangul_syllable = ch - 0xAC00 + 0x0200
code_of ignore_case ch undefined = 0

unfoldable pub char_code : Bool → ℕ → ℕ
char_code ignore_case ch = code_of ignore_case ch (get_char_language_type ch)

abbrev pub k_max_val_of_char_code : ℕ
k_max_val_of_char_code = 0x02DA3

abbrev pub is_korean_char : ℕ → Bool
is_korean_char ch = leb 0x1100 ch && leb ch 0x11FF || leb 0xAC00 ch && leb ch 0xD7A3

-- Every code fits the room that the double array keeps for a node's children.
pub char_code_bounded :
    (ignore_case : Bool) (ch : ℕ) → char_code ignore_case ch ≤ k_max_val_of_char_code
unfolding char_code code_of get_char_language_type
char_code_bounded ignore_case ch = ground arith

-- With the case kept, two characters that have a code have different codes unless they are the same.
pub char_code-injective :
    (a b : ℕ) → 0 < char_code false a → char_code false a ≡ char_code false b → a ≡ b
unfolding char_code code_of get_char_language_type
char_code-injective a b pos e = ground arith

-- With the case ignored a capital letter has the code of its small letter, and every other character
-- keeps the code it has with the case kept.
pub char_code_folds :
    (ch : ℕ)
    → char_code true ch
      ≡ (if leb 65 ch && leb ch 90 then char_code false (ch + 32) else char_code false ch)
unfolding char_code code_of get_char_language_type
char_code_folds ch = ground arith
