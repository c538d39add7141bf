-- ===== src/Filter/Rules.antt =====
-- What a text is matched with: `RegexSearch` and `get_string_matched_info_by_rule`, and what rebuilds it.
-- `std::regex` is a library: `mark_count` and `regex_search` stand for what a regular expression says of a
-- text, the place and the length of the first match.
pub mod Inside
use cds_guard.Prelude.{
  ℕ, zero, suc, ◌+◌, ◌≤◌, ◌<◌, ◌≡◌, Bool, true, false, Option, none, some, ◌>>=◌, List, [], ◌∷◌,
  ◌++◌, Bytes, length, drop, ◌==◌, if◌then◌else◌,
}
use cds_guard.Trie.Search.{MatchedInfo, search}
use cds_guard.Trie.State.{Dat}
use cds_guard.Trie.Build.{rebuild}

pub record Regex : Type 0 where
  pub mark_count : ℕ
  pub regex_search : Bytes → Option (ℕ × ℕ)

-- The end of a turn, where `rest` is the loop from a place on.
unfoldable pub at_match : ℕ → (ℕ → List MatchedInfo) → Option (ℕ × ℕ) → List MatchedInfo
at_match start rest none = []
at_match start rest (some (position, len)) =
    record { index = position + start; size = len } ∷ rest (start + (position + len))

-- The `while` loop with `begin` at place `start`, for `fuel` turns at most. An empty match where the search
-- begins is found again and again: the program never leaves the loop, and this function stops after `fuel`
-- turns.
unfoldable pub regex_loop : ℕ → Regex → Bytes → ℕ → List MatchedInfo
regex_loop zero r text start = []
regex_loop (suc fuel) r text start =
    at_match start (regex_loop fuel r text) (r.regex_search (drop start text))

unfoldable pub regex_matches : Regex → Bytes → List MatchedInfo
regex_matches r text = if r.mark_count == 0 then [] else regex_loop (suc (length text)) r text 0

-- `filtering_regex_`, `double_array_trie_` and `build_flag_`.
pub record Rules : Type 0 where
  pub filtering_regex : Regex
  pub double_array_trie : Dat
  pub build_flag : Bool

unfoldable pub get_string_matched_info_by_rule : Rules → Bytes → List MatchedInfo
get_string_matched_info_by_rule r text =
    regex_matches r.filtering_regex text
    ++ search r.double_array_trie.ignore_case_flag r.double_array_trie.vectors text

-- The `for` loop over the chosen expressions.
unfoldable pub add_all : List Bytes → Bytes
add_all [] = []
add_all (r ∷ rs) = r ++ (b'|' ∷ add_all rs)

unfoldable pub pop_back : Bytes → Bytes
pop_back [] = []
pop_back (b ∷ []) = []
pop_back (b ∷ c ∷ bytes) = b ∷ pop_back (c ∷ bytes)

-- The text of the regular expression that `build_regex` and `build_all` make.
unfoldable pub regex_string : List Bytes → Bytes
regex_string rs = pop_back (add_all rs)

-- `build_trie`, `build_regex` and `build_all`, the last without the images. The flag is cleared first, and
-- an exception leaves it so. `compile` is the constructor of `std::regex`.
unfoldable pub build_trie : List Bytes → Rules → Rules
build_trie patterns r = elim (rebuild patterns false r.double_array_trie) [
  | none ↦ record r { build_flag = false }
  | some d ↦ record r { double_array_trie = d; build_flag = true }
]

unfoldable pub build_regex : (Bytes → Option Regex) → List Bytes → Rules → Rules
build_regex compile regexes r = elim (compile (regex_string regexes)) [
  | none ↦ record r { build_flag = false }
  | some x ↦ record r { filtering_regex = x; build_flag = true }
]

unfoldable pub build_all : (Bytes → Option Regex) → List Bytes → List Bytes → Rules → Rules
build_all compile patterns regexes r = elim (rebuild patterns false r.double_array_trie) [
  | none ↦ record r { build_flag = false }
  | some d ↦ build_regex compile regexes (record r { double_array_trie = d })
]

-- `enqueue_censor_string` goes on when the flag is set.
unfoldable pub may_enqueue : Rules → Bool
may_enqueue r = r.build_flag
