-- ===== src/Filter/Documents/Enough.antt =====
-- The loops over a document end before their turns are used up.
use cds_guard.Prelude.{
  ℕ, zero, suc, ◌+◌, ◌≤◌, ◌<◌, ◌≡◌, refl, ap, inl, inr, Option, none, some, Option-cases, List, [],
  ◌∷◌, ◌++◌, Bytes, length, leb, ltb, if◌then◌else◌, arith,
}
use cds_guard.Filter.Documents.{
  Span, Tags, find, inner_tag, span_between, at_close, at_tag, split_tags, text_spans, at_end,
  at_start, tagged_spans, document_spans,
}
use cds_guard.Filter.Documents.Occurs.{find-Occurs}

find_beyond : (text pattern : Bytes) (pos : ℕ) → length text < pos → find text pattern pos ≡ none
unfolding find
find_beyond text pattern pos h = ground arith

module _ (text : Bytes) (last low : ℕ) (f g : ℕ → List Span)
    (same : (p : ℕ) → low < p → f p ≡ g p) where
  at_close_same :
      (front : List Span) (o : Option ℕ)
      → ((i : ℕ) → o ≡ some i → low ≤ i)
      → at_close last front f o ≡ at_close last front g o
  unfolding at_close
  at_close_same front none later = refl
  at_close_same front (some i) later =
      ap (λ xs. if leb last i then front else front ++ xs)
        (same (i + 1) (omega (arith, later i refl)))

  at_tag_same :
      (o : Option ℕ)
      → ((i : ℕ) → o ≡ some i → low ≤ i)
      → at_tag text last low f o ≡ at_tag text last low g o
  unfolding at_tag
  at_tag_same none later = refl
  at_tag_same (some i) later =
      ap (λ xs. if leb last i then span_between low last ∷ [] else xs)
        (at_close_same (if ltb low i then span_between low i ∷ [] else []) (find text (b'>' ∷ []) i)
          (λ j e. omega (arith, later i refl, (find-Occurs text (b'>' ∷ []) i j e).place)))

-- So do the turns over one text, which are as many as the document has bytes.
pub split_tags_same :
    (m n : ℕ) (text : Bytes) (last pos : ℕ)
    → last ≤ pos + m
    → last ≤ pos + n
    → split_tags m text last pos ≡ split_tags n text last pos
unfolding split_tags
split_tags_same zero zero text last pos h k = refl
split_tags_same zero (suc n) text last pos h k = ground arith
split_tags_same (suc m) zero text last pos h k = ground arith
split_tags_same (suc m) (suc n) text last pos h k =
    ap (λ xs. if ltb pos last then xs else [])
      (at_tag_same text last pos (split_tags m text last) (split_tags n text last)
        (λ p l. split_tags_same m n text last p (omega arith) (omega arith))
        (find text inner_tag pos)
        (λ i e. omega (arith, (find-Occurs text inner_tag pos i e).place)))

module _ (tags : Tags) (some_end : 0 < length tags.end_tag) (text : Bytes) where
  at_start_same :
      (low : ℕ) (f g : ℕ → List Span) (o : Option ℕ)
      → ((p : ℕ) → low < p → f p ≡ g p)
      → ((i : ℕ) → o ≡ some i → low ≤ i)
      → at_start tags text f o ≡ at_start tags text g o
  unfolding at_start at_end
  at_start_same low f g none same later = refl
  at_start_same low f g (some i) same later = elim (Option-cases (find text tags.end_tag i)) [
    | inl missing ↦ rw missing refl
    | inr (j, there) ↦ rw there (
        ap (λ xs. text_spans tags text (i + length tags.start_tag) j ++ xs)
          (same (j + length tags.end_tag)
            (omega (arith, later i refl, (find-Occurs text tags.end_tag i j there).place))))
  ]

  tagged_spans_same :
      (m n pos : ℕ)
      → length text < pos + m
      → length text < pos + n
      → tagged_spans m tags text pos ≡ tagged_spans n tags text pos
  unfolding tagged_spans at_start
  tagged_spans_same zero zero pos h k = refl
  tagged_spans_same zero (suc n) pos h k =
      rw (find_beyond text tags.start_tag pos (omega arith)) refl
  tagged_spans_same (suc m) zero pos h k =
      rw (find_beyond text tags.start_tag pos (omega arith)) refl
  tagged_spans_same (suc m) (suc n) pos h k =
      at_start_same pos (tagged_spans m tags text) (tagged_spans n tags text)
        (find text tags.start_tag pos) (λ p l. tagged_spans_same m n p (omega arith) (omega arith))
        (λ i e. omega (arith, (find-Occurs text tags.start_tag pos i e).place))

-- More turns than the text has bytes do not find more texts, so no text is left out for want of turns.
pub document_spans_enough :
    (tags : Tags) (text : Bytes) (fuel : ℕ)
    → 0 < length tags.end_tag
    → length text < fuel
    → tagged_spans fuel tags text 0 ≡ document_spans tags text
unfolding document_spans
document_spans_enough tags text fuel some_end h =
    tagged_spans_same tags some_end text fuel (suc (length text)) 0 (omega arith) (omega arith)
