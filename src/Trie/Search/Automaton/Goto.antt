-- ===== src/Trie/Search/Automaton/Goto.antt =====
-- A turn of `search` in an automaton: it goes to the longest node at the end of what was read.
use cds_guard.Prelude.{
  ℕ, zero, suc, ◌≤◌, ◌≡◌, ◌≢◌, inl, inr, refl, sym, ap, ◌∙◌, Bool, true, false, List, [], ◌∷◌,
  length, take, if◌then◌else◌, Bool-cases, arith,
}
use cds_guard.Trie.Array.{Vectors, k_root_index, next_node_index, has_child}
use cds_guard.Trie.Code.{k_max_val_of_char_code}
use cds_guard.Trie.Search.{follow, advance}
use cds_guard.Trie.Search.Automaton.{Pattern, longest_node, Represents}
use cds_guard.Trie.Search.Automaton.Longest.{longest_node-hit, longest_node-miss, longest_node-take}

advance_child :
    (fuel : ℕ) (v : Vectors) (i c : ℕ)
    → has_child v i c ≡ true
    → advance fuel v i c ≡ next_node_index v i c
unfolding advance follow
advance_child zero v i c h = rw h
advance_child (suc fuel) v i c h = ground arith

advance_root :
    (fuel : ℕ) (v : Vectors) (c : ℕ)
    → advance fuel v 1 c ≡ (if has_child v 1 c then next_node_index v 1 c else 1)
unfolding advance follow
advance_root zero v c = refl
advance_root (suc fuel) v c = refl

advance_fail :
    (fuel : ℕ) (v : Vectors) (i c : ℕ)
    → i ≢ k_root_index
    → has_child v i c ≡ false
    → advance (suc fuel) v i c ≡ advance fuel v (v.fail i) c
unfolding advance follow
advance_fail fuel v i c n h = ground arith

length-take_of_le : (n : ℕ) (u : List ℕ) → n ≤ length u → length (take n u) ≡ n
length-take_of_le zero u h = refl
length-take_of_le (suc n) [] h = elim h [ ]
length-take_of_le (suc n) (x ∷ u) h = ap suc (length-take_of_le n u (omega arith))

module _ {ps : List Pattern} {v : Vectors} {node : List ℕ → Bool} {index : List ℕ → ℕ}
    (r : Represents ps v node index) where
  advance_from_root :
      (fuel c : ℕ) (u : List ℕ)
      → c ≤ k_max_val_of_char_code
      → advance fuel v (index []) c ≡ index (longest_node node 1 (c ∷ u))
  unfolding longest_node
  advance_from_root fuel c u h =
      rw (r.root, advance_root fuel v c)
        (elim (Bool-cases (node (c ∷ []))) [
          | inl hit ↦
              rw (longest_node-hit node 0 (c ∷ u) hit, ← r.root, (r.child c [] h hit).0)
                ((r.child c [] h hit).1)
          | inr miss ↦ rw (longest_node-miss node 0 (c ∷ u) miss) (stays miss ∙ sym (r.root))
        ])
    where
      stays : node (c ∷ []) ≡ false → (if has_child v 1 c then next_node_index v 1 c else 1) ≡ 1
      stays miss = elim (r.root_child c h miss) [
        | inl none ↦ rw none refl
        | inr back ↦ ground (arith)
      ]

  -- The turn at a node of `n + 1` codes, when the failure link leads where the rest of the proof says.
  advance_from_node :
      (n fuel c d : ℕ) (w : List ℕ)
      → c ≤ k_max_val_of_char_code
      → length w ≡ n
      → node (d ∷ w) ≡ true
      → node (c ∷ d ∷ w) ≡ false
      → advance (suc fuel) v (index (d ∷ w)) c
        ≡ advance fuel v (index (longest_node node n (d ∷ w))) c
  advance_from_node n fuel c d w h l is_node missing =
      advance_fail fuel v (index (d ∷ w)) c (r.not_root d w is_node)
        (r.no_child c d w h is_node missing)
      ∙ ap (λ i. advance fuel v i c)
          (r.fails d w is_node ∙ ap (λ k. index (longest_node node k (d ∷ w))) l)

  -- From the longest node of at most `n` codes the next code leads to that of at most `n + 1`.
  pub advance-longest_node :
      (n fuel c : ℕ) (u : List ℕ)
      → c ≤ k_max_val_of_char_code
      → n ≤ fuel
      → n ≤ length u
      → advance fuel v (index (longest_node node n u)) c ≡ index (longest_node node (suc n) (c ∷ u))
  advance-longest_node zero fuel c u h f l = unfold longest_node in advance_from_root fuel c u h
  advance-longest_node (suc n) zero c u h f l = elim f [ ]
  advance-longest_node (suc n) (suc fuel) c [] h f l = elim l [ ]
  advance-longest_node (suc n) (suc fuel) c (d ∷ u) h f l =
      elim (Bool-cases (node (d ∷ take n u))) [
        | inl here ↦
            rw (longest_node-hit node n (d ∷ u) here) (elim (Bool-cases (node (c ∷ d ∷ take n u))) [
              | inl hit ↦
                  advance_child (suc fuel) v (index (d ∷ take n u)) c
                    (r.child c (d ∷ take n u) h hit).0
                  ∙ (r.child c (d ∷ take n u) h hit).1
                  ∙ ap index (sym (longest_node-hit node (suc n) (c ∷ d ∷ u) hit))
              | inr miss ↦
                  advance_from_node n fuel c d (take n u) h (length-take_of_le n u (omega arith))
                    here miss
                  ∙ ap (λ w. advance fuel v (index w) c)
                      (longest_node-take node n (suc n) (d ∷ u) (omega arith))
                  ∙ advance-longest_node n fuel c (d ∷ u) h (omega arith) (omega arith)
                  ∙ ap index (sym (longest_node-miss node (suc n) (c ∷ d ∷ u) miss))
            ])
        | inr elsewhere ↦ rw (longest_node-miss node n (d ∷ u) elsewhere) (
            advance-longest_node n (suc fuel) c (d ∷ u) h (omega arith) (omega arith)
            ∙ ap index (sym (longest_node-miss node (suc n) (c ∷ d ∷ u) (no_longer elsewhere))))
      ]
    where
      no_longer : node (d ∷ take n u) ≡ false → node (c ∷ d ∷ take n u) ≡ false
      no_longer elsewhere = elim (Bool-cases (node (c ∷ d ∷ take n u))) [
        | inl hit ↦ cc (r.prefixes c (d ∷ take n u) hit)
        | inr miss ↦ miss
      ]
