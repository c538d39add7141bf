-- ===== src/Trie/Search/Bounds.antt =====
-- The matches of the keyword search lie inside the text, so that `censor` writes inside it.
use cds_guard.Prelude.{
  ℕ, zero, suc, ◌+◌, ◌-◌, ◌^◌, ◌≤◌, ◌<◌, ◌≡◌, ◌≢◌, refl, sym, Bool, true, false, ◌&&◌, ◌||◌, List,
  [], ◌∷◌, Bytes, length, get_or, leb, ltb, ◌==◌, if◌then◌else◌, if-elim, All, All-append, arith,
}
use mathlib.Core.Path.{subst}
use mathlib.Core.List.{reverse, reverse-cons}
use cds_guard.Trie.Utf8.{get_utf8_char_length, decode_char, decode_utf8_2b, two_bytes}
use cds_guard.Trie.Code.{char_code, code_of, get_char_language_type}
use cds_guard.Trie.Chars.{Char, chars}
use cds_guard.Trie.Array.{Vectors}
use cds_guard.Trie.Search.{MatchedInfo, match_start, report, matched, search}
use cds_guard.Trie.Search.Automaton.{
  Pattern, begins, longest_match, naive_loop, naive_search, Represents,
}
use cds_guard.Trie.Search.Automaton.Refines.{search-naive_search}

-- The fewest bytes that a character with the code has.
abbrev pub code_size : ℕ → ℕ
code_size code = if ltb code 0x100 then 1 else 3

abbrev pub weight : List ℕ → ℕ
weight [] = 0
weight (c ∷ codes) = code_size c + weight codes

-- The size of each pattern is that of a text with its codes.
abbrev pub AreSized : List Pattern → Type 0
AreSized = All (λ p. p.size ≤ weight p.codes)

abbrev pub IsInside : ℕ → MatchedInfo → Type 0
IsInside bound m = m.index + m.size ≤ bound

-- The characters lie between two places, one behind the other.
abbrev InOrder : ℕ → ℕ → List Char → Type 0
InOrder low high [] = Unit {0}
InOrder low high (c ∷ cs) =
    (low ≤ c.index)
    × (code_size c.code ≤ c.size)
    × (1 ≤ c.size)
    × (c.index + c.size ≤ high)
    × InOrder (c.index + c.size) high cs

InOrder-le :
    (low low' high high' : ℕ) (cs : List Char)
    → low' ≤ low
    → high ≤ high'
    → InOrder low high cs
    → InOrder low' high' cs
InOrder-le low low' high high' [] h k o = tt
InOrder-le low low' high high' (c ∷ cs) h k o = (
  omega arith,
  o.1,
  o.2,
  omega arith,
  InOrder-le (c.index + c.size) (c.index + c.size) high high' cs (omega arith) k o.4,
)

small_code : (ignore_case : Bool) (ch : ℕ) → ch < 0x1100 → code_size (char_code ignore_case ch) ≡ 1
unfolding char_code code_of get_char_language_type
small_code ignore_case ch h = ground arith

decoded_size :
    (ignore_case : Bool) (b : ℕ) (text : Bytes)
    → get_utf8_char_length b ≢ 0
    → code_size (char_code ignore_case (decode_char (get_utf8_char_length b) (b ∷ text)))
      ≤ get_utf8_char_length b
unfolding get_utf8_char_length decode_char
decoded_size ignore_case b text h = ground (
  arith,
  small_code ignore_case b,
  small_code ignore_case (decode_utf8_2b b (get_or text 0 0)),
  two_bytes b (get_or text 0 0),
)

module _ (i code size : ℕ) (text : Bytes) (next : ℕ → List Char) where
  -- The turn at a byte that is passed over, or begins a character.
  turn-InOrder :
      (passed : Bool)
      → (passed ≡ false → (1 ≤ size) × (size ≤ suc (length text)) × (code_size code ≤ size))
      → InOrder
          (i + 1 + (if passed then 0 else size - 1))
          (i + 1 + length text)
          (next (if passed then 0 else size - 1))
      → InOrder (i + 0) (i + suc (length text)) (
          if passed
          then next (if passed then 0 else size - 1)
          else record { index = i; size = size; code = code }
            ∷ next (if passed then 0 else size - 1))
  turn-InOrder true read rest =
      InOrder-le (i + 1 + 0) (i + 0) (i + 1 + length text) (i + suc (length text)) (next 0)
        (omega arith) (omega arith) rest
  turn-InOrder false read rest =
      let facts = read refl in
      (
        omega arith,
        facts.2,
        facts.0,
        omega arith,
        InOrder-le (i + 1 + (size - 1)) (i + size) (i + 1 + length text) (i + suc (length text))
            (next (size - 1)) (omega arith) (omega arith) rest,
      )

chars-InOrder :
    (ignore_case : Bool) (skip i : ℕ) (text : Bytes)
    → InOrder (i + skip) (i + length text) (chars ignore_case skip i text)
unfolding chars
chars-InOrder ignore_case skip i [] = tt
chars-InOrder ignore_case (suc skip) i (b ∷ text) =
    InOrder-le (i + 1 + skip) (i + suc skip) (i + 1 + length text) (i + suc (length text)) _
      (omega arith) (omega arith) (chars-InOrder ignore_case skip (i + 1) text)
chars-InOrder ignore_case zero i (b ∷ text) =
    turn-InOrder i (char_code ignore_case (decode_char (get_utf8_char_length b) (b ∷ text)))
      (get_utf8_char_length b) text (λ skip. chars ignore_case skip (i + 1) text)
      (get_utf8_char_length b == 0 || ltb (suc (length text)) (get_utf8_char_length b))
      (λ read. (ground arith, ground arith, decoded_size ignore_case b text (λ none. ground arith)))
      (chars-InOrder ignore_case
        (if get_utf8_char_length b == 0 || ltb (suc (length text)) (get_utf8_char_length b)
          then 0
          else get_utf8_char_length b - 1)
        (i + 1) text)

begins-weight : (xs ys : List ℕ) → begins xs ys ≡ true → weight xs ≤ weight ys
unfolding begins
begins-weight [] ys h = omega arith
begins-weight (x ∷ xs) [] h = absurd (cc)
begins-weight (x ∷ xs) (y ∷ ys) h = ground (arith, begins-weight xs ys)

longest_match-weight :
    (ps : List Pattern) (history : List ℕ) → AreSized ps → longest_match ps history ≤ weight history
unfolding longest_match
longest_match-weight [] history h = omega arith
longest_match-weight (p ∷ ps) history h =
    ground (arith, begins-weight p.codes history, longest_match-weight ps history h.1)

match_start-IsInside :
    (bound : ℕ) (c : Char) (size : ℕ)
    → bound < 2 ^ 64
    → 1 ≤ c.size
    → size ≤ c.index + c.size
    → c.index + c.size ≤ bound
    → 1 ≤ size
    → match_start c size + size ≤ bound
match_start-IsInside bound c size small one h k some_match = omega arith

matched-IsInside :
    (bound : ℕ) (c : Char) (size : ℕ) (found : List MatchedInfo)
    → bound < 2 ^ 64
    → 1 ≤ c.size
    → size ≤ c.index + c.size
    → c.index + c.size ≤ bound
    → All (IsInside bound) found
    → All (IsInside bound) (matched c size found)
unfolding matched report
matched-IsInside bound c size [] small one h k f =
    if-elim (All (IsInside bound)) (size == 0) (λ _. tt)
      (λ some_match. (match_start-IsInside bound c size small one h k (ground arith), tt))
matched-IsInside bound c size (m ∷ ms) small one h k f =
    if-elim (All (IsInside bound)) (size == 0) (λ _. f)
      (λ some_match.
        if-elim (All (IsInside bound))
          (leb (match_start c size) m.index && leb (m.index + (m.size - 1)) c.index)
          (λ _. (match_start-IsInside bound c size small one h k (ground arith), f.1))
          (λ _. (match_start-IsInside bound c size small one h k (ground arith), f)))

naive_loop-IsInside :
    (bound low : ℕ) (ps : List Pattern) (cs : List Char) (history : List ℕ)
    (found : List MatchedInfo)
    → bound < 2 ^ 64
    → AreSized ps
    → weight history ≤ low
    → InOrder low bound cs
    → All (IsInside bound) found
    → All (IsInside bound) (naive_loop ps cs history found)
unfolding naive_loop
naive_loop-IsInside bound low ps [] history found small sized w o f = f
naive_loop-IsInside bound low ps (c ∷ cs) history found small sized w o f =
    naive_loop-IsInside bound (c.index + c.size) ps cs (c.code ∷ history) _ small sized
      (omega (arith, o)) o.4
      (matched-IsInside bound c (longest_match ps (c.code ∷ history)) found small o.2
        (omega (arith, o, longest_match-weight ps (c.code ∷ history) sized)) o.3 f)

All-reverse : (P : MatchedInfo → Type 0) (xs : List MatchedInfo) → All P xs → All P (reverse xs)
All-reverse P [] h = tt
All-reverse P (x ∷ xs) h =
    subst (All P) (sym (reverse-cons x xs))
      (All-append P (reverse xs) (x ∷ []) (All-reverse P xs h.1) (h.0, tt))

-- Where the vectors represent patterns whose sizes are those of texts with their codes, every match that
-- `search` gives for a text lies inside it, also where the start of the match is computed in `size_t`.
pub search-IsInside :
    (ignore_case : Bool) (ps : List Pattern) (v : Vectors) (node : List ℕ → Bool)
    (index : List ℕ → ℕ)
    → Represents ps v node index
    → AreSized ps
    → (text : Bytes) → length text < 2 ^ 64
    → All (IsInside (length text)) (search ignore_case v text)
search-IsInside ignore_case ps v node index r sized text small =
    subst (All (IsInside (length text)))
      (sym (search-naive_search ignore_case ps v node index r text)) inside
  where
    inside : All (IsInside (length text)) (naive_search ignore_case ps text)
    inside =
        unfold naive_search in
        All-reverse (IsInside (length text)) (naive_loop ps (chars ignore_case 0 0 text) [] []) (
          naive_loop-IsInside (length text) 0 ps (chars ignore_case 0 0 text) [] [] small sized
            (omega arith)
            (InOrder-le (0 + 0) 0 (0 + length text) (length text) (chars ignore_case 0 0 text)
              (omega arith) (omega arith) (chars-InOrder ignore_case 0 0 text))
            tt)
