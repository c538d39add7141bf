-- ===== src/Trie/Search/Automaton/Longest.antt =====
-- The longest node at the end of what was read, and the patterns that end there.
use cds_guard.Prelude.{
  ℕ, zero, suc, ◌≤◌, ◌<◌, ◌≡◌, refl, sym, ap, ◌∙◌, inl, inr, Bool, true, false, ◌&&◌, List, [], ◌∷◌,
  length, take, leb, ◌==◌, Bool-cases, All, arith,
}
use cds_guard.Trie.Search.Automaton.{Pattern, begins, longest_match, longest_node}

begins-take :
    (xs : List ℕ) (n : ℕ) (ys : List ℕ) → length xs ≤ n → begins xs (take n ys) ≡ begins xs ys
unfolding begins
begins-take [] n ys h = refl
begins-take (x ∷ xs) zero ys h = absurd (omega arith)
begins-take (x ∷ xs) (suc n) [] h = refl
begins-take (x ∷ xs) (suc n) (y ∷ ys) h = ap (λ b. x == y && b) (begins-take xs n ys (omega arith))

begins_longer : (xs ys : List ℕ) → length ys < length xs → begins xs ys ≡ false
unfolding begins
begins_longer [] ys h = elim h [ ]
begins_longer (x ∷ xs) [] h = refl
begins_longer (x ∷ xs) (y ∷ ys) h = ground (arith, begins_longer xs ys)

begins→take : (xs ys : List ℕ) → begins xs ys ≡ true → take (length xs) ys ≡ xs
unfolding begins
begins→take [] ys h = refl
begins→take (x ∷ xs) [] h = absurd (cc)
begins→take (x ∷ xs) (y ∷ ys) h = ground (arith, begins→take xs ys)

length-take_le : (n : ℕ) (u : List ℕ) → length (take n u) ≤ n
length-take_le zero u = omega arith
length-take_le (suc n) [] = omega arith
length-take_le (suc n) (x ∷ u) = omega (arith, length-take_le n u)

-- The two outcomes of a further code.
pub longest_node-hit :
    (node : List ℕ → Bool) (n : ℕ) (u : List ℕ)
    → node (take (suc n) u) ≡ true
    → longest_node node (suc n) u ≡ take (suc n) u
unfolding longest_node
longest_node-hit node n u h = rw h

pub longest_node-miss :
    (node : List ℕ → Bool) (n : ℕ) (u : List ℕ)
    → node (take (suc n) u) ≡ false
    → longest_node node (suc n) u ≡ longest_node node n u
unfolding longest_node
longest_node-miss node n u h = rw h

length-longest_node :
    (node : List ℕ → Bool) (n : ℕ) (u : List ℕ) → length (longest_node node n u) ≤ n
unfolding longest_node
length-longest_node node zero u = omega arith
length-longest_node node (suc n) u = elim (Bool-cases (node (take (suc n) u))) [
  | inl h ↦ rw (longest_node-hit node n u h) (length-take_le (suc n) u)
  | inr h ↦ rw (longest_node-miss node n u h) (omega (arith, length-longest_node node n u))
]

take-take : (m n : ℕ) (u : List ℕ) → m ≤ n → take m (take n u) ≡ take m u
take-take zero n u h = refl
take-take (suc m) zero u h = elim h [ ]
take-take (suc m) (suc n) [] h = refl
take-take (suc m) (suc n) (x ∷ u) h = ap (◌∷◌ x) (take-take m n u (omega arith))

-- It depends on the codes that it looks at only.
pub longest_node-take :
    (node : List ℕ → Bool) (m n : ℕ) (u : List ℕ)
    → m ≤ n
    → longest_node node m (take n u) ≡ longest_node node m u
unfolding longest_node
longest_node-take node zero n u h = refl
longest_node-take node (suc m) n u h =
    rw (take-take (suc m) n u h, longest_node-take node m n u (omega arith))

pub node-longest_node :
    (node : List ℕ → Bool) (n : ℕ) (u : List ℕ)
    → node [] ≡ true
    → node (longest_node node n u) ≡ true
unfolding longest_node
node-longest_node node zero u root = root
node-longest_node node (suc n) u root = elim (Bool-cases (node (take (suc n) u))) [
  | inl h ↦ rw (longest_node-hit node n u h) h
  | inr h ↦ rw (longest_node-miss node n u h) (node-longest_node node n u root)
]

module _ (node : List ℕ → Bool) (codes : List ℕ) (is_node : node codes ≡ true) where
  begins_missed :
      (n : ℕ) (u : List ℕ)
      → length codes ≡ suc n
      → node (take (suc n) u) ≡ false
      → begins codes u ≡ false
  begins_missed n u e h = elim (Bool-cases (begins codes u)) [
    | inl b ↦ cc (begins→take codes u b)
    | inr b ↦ b
  ]

  begins-longest_node :
      (n : ℕ) (u : List ℕ)
      → length codes ≤ n
      → begins codes (longest_node node n u) ≡ begins codes u
  unfolding longest_node
  begins-longest_node zero u h = begins-take codes 0 u h
  begins-longest_node (suc n) u h = elim (Bool-cases (node (take (suc n) u))) [
    | inl hit ↦ rw (longest_node-hit node n u hit) (begins-take codes (suc n) u h)
    | inr miss ↦ rw (longest_node-miss node n u miss) (elim (Bool-cases (leb (length codes) n)) [
      | inl short ↦ begins-longest_node n u (ground arith)
      | inr long ↦
          begins_longer codes (longest_node node n u) (ground (arith, length-longest_node node n u))
          ∙ sym (begins_missed n u (ground arith) miss)
    ])
  ]

  begins_any : (u : List ℕ) → begins codes (longest_node node (length u) u) ≡ begins codes u
  begins_any u = elim (Bool-cases (leb (length codes) (length u))) [
    | inl short ↦ begins-longest_node (length u) u (ground arith)
    | inr long ↦
        begins_longer codes (longest_node node (length u) u)
          (ground (arith, length-longest_node node (length u) u))
        ∙ sym (begins_longer codes u (ground arith))
  ]

-- The patterns that end at the longest node are those that end at what was read.
pub longest_match-longest_node :
    (node : List ℕ → Bool) (ps : List Pattern) (u : List ℕ)
    → All (λ p. node p.codes ≡ true) ps
    → longest_match ps (longest_node node (length u) u) ≡ longest_match ps u
unfolding longest_match
longest_match-longest_node node [] u h = refl
longest_match-longest_node node (p ∷ ps) u h =
    rw (begins_any node p.codes h.0 u, longest_match-longest_node node ps u h.1)
