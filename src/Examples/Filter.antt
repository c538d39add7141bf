-- ===== src/Examples/Filter.antt =====
-- The filter on concrete texts and documents.
use cds_guard.Prelude.{
  ℕ, zero, suc, ◌<◌, ◌≡◌, refl, true, false, Option, none, some, List, [], ◌∷◌, ◌++◌, Bytes, length,
  get_or, replicate, if◌then◌else◌, arith,
}
use cds_guard.Trie.Search.{MatchedInfo}
use cds_guard.Trie.Search.Automaton.{begins}
use cds_guard.Filter.Censor.{censor, censor_range, covered, censor-covered}
use cds_guard.Filter.Documents.{
  Tags, index_of, find, at_close, at_tag, split_tags, text_spans, at_end, at_start, tagged_spans,
  document_spans,
}
use cds_guard.Filter.Documents.Spread.{IsSpread, IsApart, document_spans-IsSpread}
use cds_guard.Trie.Utf8.{get_utf8_char_length, decode_utf8_2b, decode_char}
use cds_guard.Trie.Code.{code_of, char_code, get_char_language_type}
use cds_guard.Trie.Chars.{pattern_codes}
use cds_guard.Trie.State.{fresh}
use cds_guard.Trie.Build.{read_patterns, build, rebuild}
use cds_guard.Examples.Trie.{ab}
use cds_guard.Filter.Rules.{Rules, add_all, pop_back, regex_string, build_trie, may_enqueue}
use cds_guard.Filter.Workers.{Queues, is_nil}
use cds_guard.Filter.Workers.Fairness.{turns, has_image, Waits, turns-has_image}

abbrev call_me : Bytes
call_me = b'c' ∷ b'a' ∷ b'l' ∷ b'l' ∷ b' ' ∷ b'm' ∷ b'e' ∷ []

-- Two matches that overlap.
abbrev two_matches : List MatchedInfo
two_matches = record { index = 1; size = 2 } ∷ record { index = 2; size = 2 } ∷ []

stars : censor call_me two_matches ≡ b'c' ∷ b'*' ∷ b'*' ∷ b'*' ∷ b' ' ∷ b'm' ∷ b'e' ∷ []
unfolding censor censor_range
stars = refl

censor-covered_example :
    (length (censor call_me two_matches) ≡ length call_me)
    × ((k : ℕ)
        → k < length call_me
        → get_or (censor call_me two_matches) k 0
          ≡ (if covered two_matches k then b'*' else get_or call_me k 0))
censor-covered_example = censor-covered call_me two_matches

-- "<hp:t>" and "</hp:t>"
abbrev hwpx : Tags
hwpx = record {
  start_tag = b'<' ∷ b'h' ∷ b'p' ∷ b':' ∷ b't' ∷ b'>' ∷ [];
  end_tag = b'<' ∷ b'/' ∷ b'h' ∷ b'p' ∷ b':' ∷ b't' ∷ b'>' ∷ [];
  is_hwpx = true;
}

-- "<hp:t>ab<hp:x/>c</hp:t>"
abbrev page : Bytes
page =
    hwpx.start_tag
    ++ b'a' ∷ b'b' ∷ b'<' ∷ b'h' ∷ b'p' ∷ b':' ∷ b'x' ∷ b'/' ∷ b'>' ∷ b'c' ∷ []
    ++ hwpx.end_tag

two_spans :
    document_spans hwpx page ≡ record { start = 6; size = 2 } ∷ record { start = 15; size = 1 } ∷ []
unfolding document_spans tagged_spans at_start at_end text_spans split_tags at_tag at_close find
    index_of begins
two_spans = refl

hwpx-IsApart : IsApart hwpx
unfolding begins
hwpx-IsApart k ([]) h l = absurd (ground arith)
hwpx-IsApart k (a ∷ []) h l = absurd (ground arith)
hwpx-IsApart k (a ∷ b ∷ []) h l = absurd (ground arith)
hwpx-IsApart k (a ∷ b ∷ c ∷ []) h l = absurd (ground arith)
hwpx-IsApart k (a ∷ b ∷ c ∷ d ∷ []) h l = absurd (ground arith)
hwpx-IsApart k (a ∷ b ∷ c ∷ d ∷ e ∷ []) h l = absurd (ground arith)
hwpx-IsApart zero (a ∷ b ∷ c ∷ d ∷ e ∷ f ∷ text) h l = ground arith
hwpx-IsApart (suc zero) (a ∷ b ∷ c ∷ d ∷ e ∷ f ∷ text) h l = ground arith
hwpx-IsApart (suc (suc zero)) (a ∷ b ∷ c ∷ d ∷ e ∷ f ∷ text) h l = ground arith
hwpx-IsApart (suc (suc (suc zero))) (a ∷ b ∷ c ∷ d ∷ e ∷ f ∷ text) h l = ground arith
hwpx-IsApart (suc (suc (suc (suc zero)))) (a ∷ b ∷ c ∷ d ∷ e ∷ f ∷ text) h l = ground arith
hwpx-IsApart (suc (suc (suc (suc (suc zero))))) (a ∷ b ∷ c ∷ d ∷ e ∷ f ∷ text) h l = ground arith
hwpx-IsApart (suc (suc (suc (suc (suc (suc k)))))) (a ∷ b ∷ c ∷ d ∷ e ∷ f ∷ text) h l =
    absurd (omega arith)

document_spans-IsSpread_example : IsSpread 0 (length page) (document_spans hwpx page)
document_spans-IsSpread_example = document_spans-IsSpread hwpx page hwpx-IsApart

-- A text and an image at every turn.
abbrev busy : List Queues
busy = replicate 11 (record { string_tasks = call_me ∷ []; image_tasks = (1 ∷ []) ∷ [] })

busy-Waits : Waits busy
unfolding is_nil
busy-Waits =
    (refl, (refl, (refl, (refl, (refl, (refl, (refl, (refl, (refl, (refl, (refl, tt)))))))))))

turns-has_image_example : has_image (turns 3 busy) ≡ true
turns-has_image_example = turns-has_image 3 busy busy-Waits refl

-- An expression that matches each byte.
abbrev first_byte : Bytes → Option (ℕ × ℕ)
first_byte [] = none
first_byte (b ∷ text) = some (0, 1)

abbrev rules : Rules
rules = record {
  filtering_regex = record { mark_count = 1; regex_search = first_byte };
  double_array_trie = record (fresh true) { vectors = ab };
  build_flag = true;
}

-- A keyword that has no code leaves the flag cleared, and whoever enqueues a text waits.
no_more : may_enqueue (build_trie ((0xC3 ∷ 0xA9 ∷ []) ∷ []) rules) ≡ false
unfolding may_enqueue build_trie rebuild build read_patterns pattern_codes get_utf8_char_length
    decode_char decode_utf8_2b char_code code_of get_char_language_type
no_more = refl

-- "a|b"
joined : regex_string ((b'a' ∷ []) ∷ (b'b' ∷ []) ∷ []) ≡ b'a' ∷ b'|' ∷ b'b' ∷ []
unfolding regex_string add_all pop_back
joined = refl
