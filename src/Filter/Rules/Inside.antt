-- ===== src/Filter/Rules/Inside.antt =====
-- The matches of the rules lie inside the text, and the loop over matches of the regular expression that
-- are not empty ends.
use cds_guard.Prelude.{
  ℕ, zero, suc, ◌+◌, ◌≤◌, ◌<◌, ◌≡◌, refl, ap, Option, none, some, List, ◌∷◌, Bytes, length,
  length-drop, drop, arith,
}
use cds_guard.Trie.Search.{MatchedInfo}
use cds_guard.Filter.Rules.{Regex, at_match, regex_loop, Rules}

-- A match lies in the text that is searched.
abbrev pub IsProper : Regex → Type 0
IsProper r =
    (text : Bytes) (position len : ℕ)
    → r.regex_search text ≡ some (position, len)
    → position + len ≤ length text

-- No match is empty.
abbrev pub IsNonEmpty : Regex → Type 0
IsNonEmpty r =
    (text : Bytes) (position len : ℕ) → r.regex_search text ≡ some (position, len) → 1 ≤ len

module _ (r : Regex) (proper : IsProper r) (text : Bytes) where
  at_match_same :
      IsNonEmpty r
      → (start : ℕ) (f g : ℕ → List MatchedInfo) (o : Option (ℕ × ℕ))
      → r.regex_search (drop start text) ≡ o
      → start ≤ length text
      → ((p : ℕ) → start < p → p ≤ length text → f p ≡ g p)
      → at_match start f o ≡ at_match start g o
  unfolding at_match
  at_match_same more start f g none e h same = refl
  at_match_same more start f g (some (position, len)) e h same =
      let m = proper (drop start text) position len e in
      let n = more (drop start text) position len e in
      let k = length-drop start text in
      ap (λ ms. record { index = position + start; size = len } ∷ ms)
        (same (start + (position + len)) (omega (arith, m, n)) (omega (arith, m, k)))

  -- Where no match is empty, the loop over the matches ends by itself: more turns than the text has bytes
  -- find no more.
  pub regex_loop_enough :
      IsNonEmpty r
      → (m n start : ℕ) → start ≤ length text
      → length text < start + m
      → length text < start + n
      → regex_loop m r text start ≡ regex_loop n r text start
  unfolding regex_loop
  regex_loop_enough more zero n start h k l = absurd (omega arith)
  regex_loop_enough more (suc m) zero start h k l = absurd (omega arith)
  regex_loop_enough more (suc m) (suc n) start h k l =
      at_match_same more start (regex_loop m r text) (regex_loop n r text)
        (r.regex_search (drop start text)) refl h
        (λ p past inside. regex_loop_enough more m n p inside (omega arith) (omega arith))
