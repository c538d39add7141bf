-- ===== src/Filter/Documents/Spread.antt =====
-- The texts of a document do not overlap, so that workers may censor them at the same time.
use cds_guard.Prelude.{
  ℕ, zero, suc, ◌+◌, ◌≤◌, ◌<◌, ◌≡◌, refl, sym, ap, ◌∙◌, inl, inr, true, false, Bool-cases, Option,
  none, some, List, [], ◌∷◌, ◌++◌, Bytes, length, drop, leb, ltb, if◌then◌else◌, if-elim, arith,
}
use cds_guard.Trie.Search.Automaton.{begins}
use cds_guard.Filter.Documents.{
  Span, Tags, find, inner_tag, span_between, at_close, at_tag, split_tags, text_spans, at_end,
  at_start, tagged_spans, document_spans,
}
use cds_guard.Filter.Documents.Occurs.{drop-drop, Occurs, find-Occurs}

-- The spans lie between `low` and `high`, each behind the one before it.
abbrev pub IsSpread : ℕ → ℕ → List Span → Type 0
IsSpread low high [] = Unit {0}
IsSpread low high (s ∷ spans) =
    (low ≤ s.start) × (s.start + s.size ≤ high) × IsSpread (s.start + s.size) high spans

-- No end tag begins inside a start tag.
abbrev pub IsApart : Tags → Type 0
IsApart tags =
    (k : ℕ) (text : Bytes)
    → begins tags.start_tag text ≡ true
    → k < length tags.start_tag
    → begins tags.end_tag (drop k text) ≡ false

IsSpread-append :
    (low mid high : ℕ) (xs ys : List Span)
    → low ≤ mid
    → mid ≤ high
    → IsSpread low mid xs
    → IsSpread mid high ys
    → IsSpread low high (xs ++ ys)
IsSpread-append low mid high [] [] h k x y = tt
IsSpread-append low mid high [] (s ∷ ys) h k x y = (omega arith, y.1, y.2)
IsSpread-append low mid high (s ∷ xs) ys h k x y =
    (x.0, omega arith, IsSpread-append (s.start + s.size) mid high xs ys x.1 k x.2 y)

IsSpread-one :
    (low first last : ℕ)
    → low ≤ first
    → first ≤ last
    → IsSpread low last (span_between first last ∷ [])
IsSpread-one low first last h k = (h, omega arith, tt)

IsSpread-between :
    (low low' high high' : ℕ) (xs : List Span)
    → low' ≤ low
    → high ≤ high'
    → IsSpread low high xs
    → IsSpread low' high' xs
IsSpread-between low low' high high' [] h k x = tt
IsSpread-between low low' high high' (s ∷ xs) h k x = (
  omega arith,
  omega arith,
  IsSpread-between (s.start + s.size) (s.start + s.size) high high' xs (omega arith) k x.2,
)

module _ (text : Bytes) (last : ℕ) (rest : ℕ → List Span)
    (spread : (p : ℕ) → IsSpread p last (rest p)) where
  front-IsSpread :
      (abs_pos hp_pos : ℕ)
      → IsSpread abs_pos hp_pos
          (if ltb abs_pos hp_pos then span_between abs_pos hp_pos ∷ [] else [])
  front-IsSpread abs_pos hp_pos =
      if-elim (IsSpread abs_pos hp_pos) (ltb abs_pos hp_pos)
        (λ h. IsSpread-one abs_pos abs_pos hp_pos (omega arith) (ground arith)) (λ h. tt)

  at_close-IsSpread :
      (abs_pos hp_pos : ℕ) (front : List Span) (o : Option ℕ)
      → abs_pos ≤ hp_pos
      → hp_pos < last
      → IsSpread abs_pos hp_pos front
      → ((i : ℕ) → o ≡ some i → hp_pos ≤ i)
      → IsSpread abs_pos last (at_close last front rest o)
  unfolding at_close
  at_close-IsSpread abs_pos hp_pos front none h k f later =
      IsSpread-between abs_pos abs_pos hp_pos last front (omega arith) (omega arith) f
  at_close-IsSpread abs_pos hp_pos front (some tag_close) h k f later =
      if-elim (IsSpread abs_pos last) (leb last tag_close)
        (λ _. IsSpread-between abs_pos abs_pos hp_pos last front (omega arith) (omega arith) f)
        (λ inside.
          IsSpread-append abs_pos (tag_close + 1) last front (rest (tag_close + 1))
            (omega (arith, later tag_close refl)) (ground arith)
            (IsSpread-between abs_pos abs_pos hp_pos (tag_close + 1) front (omega arith)
              (omega (arith, later tag_close refl)) f)
            (spread (tag_close + 1)))

  at_tag-IsSpread :
      (abs_pos : ℕ) (o : Option ℕ)
      → abs_pos < last
      → ((i : ℕ) → o ≡ some i → abs_pos ≤ i)
      → IsSpread abs_pos last (at_tag text last abs_pos rest o)
  unfolding at_tag
  at_tag-IsSpread abs_pos none h later =
      IsSpread-one abs_pos abs_pos last (omega arith) (omega arith)
  at_tag-IsSpread abs_pos (some hp_pos) h later =
      if-elim (IsSpread abs_pos last) (leb last hp_pos)
        (λ _. IsSpread-one abs_pos abs_pos last (omega arith) (omega arith))
        (λ inside.
          at_close-IsSpread abs_pos hp_pos _ (find text (b'>' ∷ []) hp_pos) (later hp_pos refl)
            (ground arith) (front-IsSpread abs_pos hp_pos)
            (λ i e. omega (arith, (find-Occurs text (b'>' ∷ []) hp_pos i e).place)))

split_tags-IsSpread :
    (fuel : ℕ) (text : Bytes) (last abs_pos : ℕ)
    → IsSpread abs_pos last (split_tags fuel text last abs_pos)
unfolding split_tags
split_tags-IsSpread zero text last abs_pos = tt
split_tags-IsSpread (suc fuel) text last abs_pos =
    if-elim (IsSpread abs_pos last) (ltb abs_pos last)
      (λ h.
        at_tag-IsSpread text last (split_tags fuel text last) (split_tags-IsSpread fuel text last)
          abs_pos (find text inner_tag abs_pos) (ground arith)
          (λ i e. omega (arith, (find-Occurs text inner_tag abs_pos i e).place)))
      (λ h. tt)

text_spans-IsSpread :
    (tags : Tags) (text : Bytes) (first last : ℕ)
    → first ≤ last
    → IsSpread first last (text_spans tags text first last)
unfolding text_spans
text_spans-IsSpread tags text first last h =
    if-elim (IsSpread first last) tags.is_hwpx
      (λ _. split_tags-IsSpread (length text) text last first)
      (λ _. IsSpread-one first first last (omega arith) h)

module _ (tags : Tags) (apart : IsApart tags) (text : Bytes) where
  -- The end tag that is found begins behind the start tag.
  behind :
      (pos curr_pos next_pos : ℕ)
      → Occurs text tags.start_tag pos curr_pos
      → Occurs text tags.end_tag curr_pos next_pos
      → curr_pos + length tags.start_tag ≤ next_pos
  behind pos curr_pos next_pos s e = elim (Bool-cases (ltb e.offset (length tags.start_tag))) [
    | inr outside ↦ omega (arith, e.place, not_ltb e.offset (length tags.start_tag) outside)
    | inl inner ↦ absurd (
        cc (
          sym e.there
          ∙ ap (λ k. begins tags.end_tag (drop k text)) e.place
          ∙ ap (begins tags.end_tag) (sym (drop-drop curr_pos e.offset text))
          ∙ apart e.offset (drop curr_pos text) s.there (ground arith)))
  ]
    where
      not_ltb : (a b : ℕ) → ltb a b ≡ false → b ≤ a
      not_ltb a b h = ground arith

  at_end-IsSpread :
      (pos curr_pos : ℕ) (rest : ℕ → List Span) (o : Option ℕ)
      → Occurs text tags.start_tag pos curr_pos
      → ((p : ℕ) → p ≤ length text → IsSpread p (length text) (rest p))
      → ((i : ℕ) → o ≡ some i → Occurs text tags.end_tag curr_pos i)
      → IsSpread pos (length text) (at_end tags text curr_pos rest o)
  unfolding at_end
  at_end-IsSpread pos curr_pos rest none s spread later = tt
  at_end-IsSpread pos curr_pos rest (some next_pos) s spread later =
      let e = later next_pos refl in
      let past = behind pos curr_pos next_pos s e in
      IsSpread-append pos (next_pos + length tags.end_tag) (length text)
        (text_spans tags text (curr_pos + length tags.start_tag) next_pos)
        (rest (next_pos + length tags.end_tag)) (omega (arith, s.place, past)) e.inside
        (IsSpread-between (curr_pos + length tags.start_tag) pos next_pos
          (next_pos + length tags.end_tag) _ (omega (arith, s.place)) (omega arith)
          (text_spans-IsSpread tags text (curr_pos + length tags.start_tag) next_pos past))
        (spread (next_pos + length tags.end_tag) e.inside)

  at_start-IsSpread :
      (pos : ℕ) (rest : ℕ → List Span) (o : Option ℕ)
      → ((p : ℕ) → p ≤ length text → IsSpread p (length text) (rest p))
      → ((i : ℕ) → o ≡ some i → Occurs text tags.start_tag pos i)
      → IsSpread pos (length text) (at_start tags text rest o)
  unfolding at_start
  at_start-IsSpread pos rest none spread later = tt
  at_start-IsSpread pos rest (some curr_pos) spread later =
      at_end-IsSpread pos curr_pos rest (find text tags.end_tag curr_pos) (later curr_pos refl)
        spread (λ i e. find-Occurs text tags.end_tag curr_pos i e)

  tagged_spans-IsSpread :
      (fuel pos : ℕ) → IsSpread pos (length text) (tagged_spans fuel tags text pos)
  unfolding tagged_spans
  tagged_spans-IsSpread zero pos = tt
  tagged_spans-IsSpread (suc fuel) pos =
      at_start-IsSpread pos (tagged_spans fuel tags text) (find text tags.start_tag pos)
        (λ p h. tagged_spans-IsSpread fuel p) (λ i e. find-Occurs text tags.start_tag pos i e)

-- Where no end tag begins inside a start tag, the texts of a document that are handed to the workers lie
-- inside it, each behind the end of the one before.
pub document_spans-IsSpread :
    (tags : Tags) (text : Bytes)
    → IsApart tags
    → IsSpread 0 (length text) (document_spans tags text)
unfolding document_spans
document_spans-IsSpread tags text apart =
    tagged_spans-IsSpread tags apart text (suc (length text)) 0
