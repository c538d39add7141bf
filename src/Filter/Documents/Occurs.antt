-- ===== src/Filter/Documents/Occurs.antt =====
-- What a place that `std::string::find` gives says of the text.
use cds_guard.Prelude.{
  ℕ, zero, suc, ◌+◌, ◌≤◌, ◌≡◌, refl, sym, ap, ◌∙◌, inl, inr, true, Bool-cases, some, List, [], ◌∷◌,
  Bytes, length, length-drop, drop, arith,
}
use cds_guard.Trie.Search.Automaton.{begins}
use cds_guard.Filter.Documents.{index_of, find}

length-begins : (xs ys : List ℕ) → begins xs ys ≡ true → length xs ≤ length ys
unfolding begins
length-begins [] ys h = omega arith
length-begins (x ∷ xs) [] h = absurd (cc)
length-begins (x ∷ xs) (y ∷ ys) h = ground (arith, length-begins xs ys)

drop_nil : (n : ℕ) → drop {A = ℕ} n [] ≡ []
drop_nil zero = refl
drop_nil (suc n) = refl

zero_add : (m : ℕ) → m ≡ 0 + m
zero_add m = omega arith

suc_add : (n m : ℕ) → suc (n + m) ≡ suc n + m
suc_add n m = omega arith

pub drop-drop : (n m : ℕ) (xs : Bytes) → drop m (drop n xs) ≡ drop (n + m) xs
drop-drop zero m xs = ap (λ k. drop k xs) (zero_add m)
drop-drop (suc n) m [] = drop_nil m ∙ sym (drop_nil (suc n + m))
drop-drop (suc n) m (x ∷ xs) = drop-drop n m xs ∙ ap (λ k. drop k (x ∷ xs)) (suc_add n m)

-- What a place that `find` gives says of the text.
pub record Occurs (text pattern : Bytes) (pos i : ℕ) : Type 0 where
  pub offset : ℕ
  pub place : i ≡ pos + offset
  pub inside : i + length pattern ≤ length text
  pub there : begins pattern (drop i text) ≡ true

index_of-some :
    (pattern text : Bytes) (base i : ℕ)
    → index_of pattern text base ≡ some i
    → (k : ℕ) × (i ≡ base + k) × (k ≤ length text) × (begins pattern (drop k text) ≡ true)
unfolding index_of
index_of-some pattern [] base i h = (0, ground arith, omega arith, ground arith)
index_of-some pattern (b ∷ text) base i h = elim (Bool-cases (begins pattern (b ∷ text))) [
  | inl here ↦ (0, ground arith, omega arith, here)
  | inr not_here ↦
      let later = index_of-some pattern text (base + 1) i (ground arith) in
      (suc later.0, omega (arith, later.1), omega (arith, later.2), later.3)
]

pub find-Occurs :
    (text pattern : Bytes) (pos i : ℕ) → find text pattern pos ≡ some i → Occurs text pattern pos i
unfolding find
find-Occurs text pattern pos i h = record {
  offset = later.0;
  place = later.1;
  inside = omega (
    arith,
    fits,
    later.1,
    later.2,
    below,
    length-drop pos text,
    length-drop later.0 (drop pos text),
  );
  there =
      ap (λ k. begins pattern (drop k text)) later.1
      ∙ ap (begins pattern) (sym (drop-drop pos later.0 text))
      ∙ later.3;
}
  where
    below : pos ≤ length text
    below = ground arith

    later :
        (k : ℕ) × (i ≡ pos + k)
        × (k ≤ length (drop pos text))
        × (begins pattern (drop k (drop pos text)) ≡ true)
    later = index_of-some pattern (drop pos text) pos i (ground arith)

    fits : length pattern ≤ length (drop later.0 (drop pos text))
    fits = length-begins pattern (drop later.0 (drop pos text)) later.3
