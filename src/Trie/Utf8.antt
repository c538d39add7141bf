-- ===== src/Trie/Utf8.antt =====
-- UTF-8: the length of a character from its first byte and the decoding of 2 to 4 bytes. `&` with a
-- mask of low bits is a remainder, and a test of high bits is one of the quotient.
use cds_guard.Prelude.{
  ℕ, ◌+◌, ◌*◌, ◌/◌, ◌%◌, ◌≤◌, ◌≡◌, ap, ◌∙◌, bit_or, ◌&&◌, [], ◌∷◌, ◌++◌, Bytes, length, leb, ltb,
  ◌==◌, if◌then◌else◌, ◌<<<◌, arith,
}
use cds_guard.Prelude.Or.{or_fields}
use cds_guard.Aria.Block.{at}

unfoldable pub get_utf8_char_length : ℕ → ℕ
get_utf8_char_length byte =
    if byte / 128 == 0
    then 1
    else if byte / 32 == 6
    then 2
    else if byte / 16 == 14
    then 3
    else if byte / 8 == 30
    then 4
    else 0

unfoldable pub decode_utf8_2b : ℕ → ℕ → ℕ
decode_utf8_2b byte1 byte2 = bit_or ((byte1 % 32) <<< 6) (byte2 % 64)

unfoldable pub decode_utf8_3b : ℕ → ℕ → ℕ → ℕ
decode_utf8_3b byte1 byte2 byte3 =
    bit_or (bit_or ((byte1 % 16) <<< 12) ((byte2 % 64) <<< 6)) (byte3 % 64)

unfoldable pub decode_utf8_4b : ℕ → ℕ → ℕ → ℕ → ℕ
decode_utf8_4b byte1 byte2 byte3 byte4 =
    bit_or (bit_or (bit_or ((byte1 % 8) <<< 18) ((byte2 % 64) <<< 12)) ((byte3 % 64) <<< 6))
      (byte4 % 64)

-- The `switch` of `search` and `build` on a character of `size` bytes, at the front of the text.
unfoldable pub decode_char : ℕ → Bytes → ℕ
decode_char size text =
    if size == 1
    then at text 0
    else if size == 2
    then decode_utf8_2b (at text 0) (at text 1)
    else if size == 3
    then decode_utf8_3b (at text 0) (at text 1) (at text 2)
    else decode_utf8_4b (at text 0) (at text 1) (at text 2) (at text 3)

-- `decode_utf8` on what an iterator has before its end; it reads the first byte before it tests that
-- there is one. The length 0 stands for what it does not decode.
unfoldable pub decode_utf8 : Bytes → ℕ × ℕ
decode_utf8 text =
    if at text 0 / 128 == 0 && leb 1 (length text)
    then (1, at text 0)
    else if at text 0 / 32 == 6 && leb 2 (length text)
    then (2, decode_utf8_2b (at text 0) (at text 1))
    else if at text 0 / 16 == 14 && leb 3 (length text)
    then (3, decode_utf8_3b (at text 0) (at text 1) (at text 2))
    else if at text 0 / 8 == 30 && leb 4 (length text)
    then (4, decode_utf8_4b (at text 0) (at text 1) (at text 2) (at text 3))
    else (0, 0)

-- The encoding of a code point, as the standard has it.
unfoldable pub encode : ℕ → Bytes
encode c =
    if ltb c 0x80
    then c ∷ []
    else if ltb c 0x800
    then (0xC0 + c / 64) ∷ (0x80 + c % 64) ∷ []
    else if ltb c 0x10000
    then (0xE0 + c / 4096) ∷ (0x80 + c / 64 % 64) ∷ (0x80 + c % 64) ∷ []
    else (0xF0 + c / 262144) ∷ (0x80 + c / 4096 % 64) ∷ (0x80 + c / 64 % 64) ∷ (0x80 + c % 64) ∷ []

pub two_bytes : (a b : ℕ) → decode_utf8_2b a b ≡ a % 32 * 64 + b % 64
unfolding decode_utf8_2b
two_bytes a b = or_fields 6 (a % 32) (b % 64) (omega arith)

three_bytes : (a b c : ℕ) → decode_utf8_3b a b c ≡ a % 16 * 4096 + b % 64 * 64 + c % 64
unfolding decode_utf8_3b
three_bytes a b c =
    ap (λ (t : ℕ). bit_or t (c % 64)) (or_fields 12 (a % 16) (b % 64 * 64) (omega arith) ∙ front)
    ∙ or_fields 6 (a % 16 * 64 + b % 64) (c % 64) (omega arith)
    ∙ omega arith
  where
    front : a % 16 * 4096 + b % 64 * 64 ≡ (a % 16 * 64 + b % 64) * 64
    front = omega arith

four_bytes :
    (a b c d : ℕ) → decode_utf8_4b a b c d ≡ a % 8 * 262144 + b % 64 * 4096 + c % 64 * 64 + d % 64
unfolding decode_utf8_4b
four_bytes a b c d =
    ap (λ (t : ℕ). bit_or (bit_or t (c % 64 * 64)) (d % 64))
      (or_fields 18 (a % 8) (b % 64 * 4096) (omega arith) ∙ front)
    ∙ ap (λ (t : ℕ). bit_or t (d % 64))
        (or_fields 12 (a % 8 * 64 + b % 64) (c % 64 * 64) (omega arith) ∙ middle)
    ∙ or_fields 6 ((a % 8 * 64 + b % 64) * 64 + c % 64) (d % 64) (omega arith)
    ∙ omega arith
  where
    front : a % 8 * 262144 + b % 64 * 4096 ≡ (a % 8 * 64 + b % 64) * 4096
    front = omega arith

    middle : (a % 8 * 64 + b % 64) * 4096 + c % 64 * 64 ≡ ((a % 8 * 64 + b % 64) * 64 + c % 64) * 64
    middle = omega arith

-- Each code point up to U+10FFFF is decoded from its encoding, with the length of the encoding, whatever
-- follows it in the text.
pub decode_utf8-encode :
    (c : ℕ) (rest : Bytes) → c ≤ 0x10FFFF → decode_utf8 (encode c ++ rest) ≡ (length (encode c), c)
unfolding decode_utf8 encode
decode_utf8-encode c rest h = ground (
  arith,
  two_bytes (0xC0 + c / 64) (0x80 + c % 64),
  three_bytes (0xE0 + c / 4096) (0x80 + c / 64 % 64) (0x80 + c % 64),
  four_bytes (0xF0 + c / 262144) (0x80 + c / 4096 % 64) (0x80 + c / 64 % 64) (0x80 + c % 64),
)
