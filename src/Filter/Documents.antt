-- ===== src/Filter/Documents.antt =====
-- The texts of a document that `enqueue_censor_document_file` hands to the workers: parts of the XML text
-- between the tags of its type, in a .hwpx file those outside inner tags.
pub mod Occurs
pub mod Spread
pub mod Enough
use cds_guard.Prelude.{
  ℕ, zero, suc, ◌+◌, ◌-◌, ◌≤◌, ◌<◌, ◌≡◌, Bool, true, false, ◌&&◌, ◌||◌, Option, none, some, List,
  [], ◌∷◌, ◌++◌, Bytes, length, drop, leb, ltb, if◌then◌else◌,
}
use cds_guard.Trie.Search.Automaton.{begins}

-- A `std::span` into the text: where it begins, and its size.
pub record Span : Type 0 where
  pub start : ℕ
  pub size : ℕ

-- The tags of a document's type.
pub record Tags : Type 0 where
  pub start_tag : Bytes
  pub end_tag : Bytes
  pub is_hwpx : Bool

unfoldable pub index_of : Bytes → Bytes → ℕ → Option ℕ
index_of pattern [] i = if begins pattern [] then some i else none
index_of pattern (b ∷ text) i =
    let later = index_of pattern text (i + 1) in if begins pattern (b ∷ text) then some i else later

-- `std::string::find`, with `none` for `npos`.
unfoldable pub find : Bytes → Bytes → ℕ → Option ℕ
find text pattern pos = if ltb (length text) pos then none else index_of pattern (drop pos text) pos

abbrev pub inner_tag : Bytes
inner_tag = b'<' ∷ b'h' ∷ b'p' ∷ b':' ∷ []

abbrev span_between : ℕ → ℕ → Span
span_between first last = record { start = first; size = last - first }

-- The end of a turn, where the inner tag is closed; `rest` is the loop from a place on.
unfoldable pub at_close : ℕ → List Span → (ℕ → List Span) → Option ℕ → List Span
at_close last front rest none = front
at_close last front rest (some tag_close) =
    if leb last tag_close then front else front ++ rest (tag_close + 1)

-- The rest of a turn after the search for an inner tag.
unfoldable pub at_tag : Bytes → ℕ → ℕ → (ℕ → List Span) → Option ℕ → List Span
at_tag text last abs_pos rest none = span_between abs_pos last ∷ []
at_tag text last abs_pos rest (some hp_pos) =
    if leb last hp_pos
    then span_between abs_pos last ∷ []
    else at_close last (if ltb abs_pos hp_pos then span_between abs_pos hp_pos ∷ [] else []) rest
        (find text (b'>' ∷ []) hp_pos)

-- The loop over a text of a .hwpx file, which ends at `last`, from `abs_pos` on.
unfoldable pub split_tags : ℕ → Bytes → ℕ → ℕ → List Span
split_tags zero text last abs_pos = []
split_tags (suc fuel) text last abs_pos =
    let turn = at_tag text last abs_pos (split_tags fuel text last) (find text inner_tag abs_pos) in
    if ltb abs_pos last then turn else []

unfoldable pub text_spans : Tags → Bytes → ℕ → ℕ → List Span
text_spans tags text first last =
    if tags.is_hwpx then split_tags (length text) text last first else span_between first last ∷ []

-- The end of a turn, with the place of the end tag.
unfoldable pub at_end : Tags → Bytes → ℕ → (ℕ → List Span) → Option ℕ → List Span
at_end tags text curr_pos rest none = []
at_end tags text curr_pos rest (some next_pos) =
    text_spans tags text (curr_pos + length tags.start_tag) next_pos
    ++ rest (next_pos + length tags.end_tag)

unfoldable pub at_start : Tags → Bytes → (ℕ → List Span) → Option ℕ → List Span
at_start tags text rest none = []
at_start tags text rest (some curr_pos) =
    at_end tags text curr_pos rest (find text tags.end_tag curr_pos)

-- The loop over the texts between the tags.
unfoldable pub tagged_spans : ℕ → Tags → Bytes → ℕ → List Span
tagged_spans zero tags text pos = []
tagged_spans (suc fuel) tags text pos =
    at_start tags text (tagged_spans fuel tags text) (find text tags.start_tag pos)

-- A turn goes on behind the end tag it found, so the size of the text is turns enough.
unfoldable pub document_spans : Tags → Bytes → List Span
document_spans tags text = tagged_spans (suc (length text)) tags text 0
