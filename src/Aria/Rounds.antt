-- ===== src/Aria/Rounds.antt =====
-- Pairs of rounds of `Crypt`, and the pairs that undo them: the keys in reverse order, those between
-- the first and the last under the diffusion layer.
use cds_guard.Prelude.{
  ℕ, ◌+◌, ◌%◌, ◌<◌, ◌≡◌, refl, sym, ap, ◌∙◌, some, List, [], ◌∷◌, ◌++◌, arith, length, All,
  tabulate, Bytes, AllBytes, IsBlock, ◌⊕◌,
}
use cds_guard.Prelude.Xor.{xor-IsByte}
use cds_guard.Aria.Tables.{s_at}
use cds_guard.Aria.Tables.Inverse.{s_at-IsByte, s_at-inverse}
use cds_guard.Aria.Block.{
  at, at-IsByte, at-tabulate, xor16, xor16_cancel, tabulate-IsBlock, tabulate-ext,
}
use cds_guard.Aria.Diffusion.{dl}
use cds_guard.Aria.Diffusion.Linear.{dl-dl, dl-xor16, dl-IsBlock, length-dl}
use cds_guard.Aria.Cipher.{substitute, two_rounds, crypt_loop}

substitute-IsBlock :
    (shift : ℕ) (e c : Bytes) → AllBytes e → AllBytes c → IsBlock (substitute shift e c)
unfolding substitute
substitute-IsBlock shift e c he hc = tabulate-IsBlock _ λ j.
    s_at-IsByte ((shift + j) % 4) _ (omega arith)
      (xor-IsByte _ _ (at-IsByte e j he) (at-IsByte c j hc))

-- The substitution of a block that already holds the key.
layer : ℕ → Bytes → Bytes
layer shift y = tabulate 16 0 (λ j. s_at ((shift + j) % 4) (at y j))

substitute-layer : (s : ℕ) (e c : Bytes) → substitute s e c ≡ layer s (xor16 e c)
unfolding substitute layer xor16
substitute-layer s e c =
    tabulate-ext 16 0 _ _
      λ j p q. ap (s_at ((s + j) % 4)) (sym (at-tabulate (λ k. at e k ⊕ at c k) j (omega arith)))

-- Each substitution undoes the other one.
layer-substitute :
    (s t : ℕ) (e c : Bytes)
    → s < 4
    → t ≡ (2 + s) % 4
    → AllBytes e
    → AllBytes c
    → layer t (substitute s e c) ≡ xor16 e c
unfolding substitute layer xor16
layer-substitute s t e c hs ht he hc = tabulate-ext 16 0 _ _ λ j p q.
    ap (s_at ((t + j) % 4))
      (at-tabulate (λ j. s_at ((s + j) % 4) (at e j ⊕ at c j)) j (omega arith))
    ∙ ap (λ (k : ℕ). s_at k (s_at ((s + j) % 4) (at e j ⊕ at c j))) (place j)
    ∙ s_at-inverse ((s + j) % 4) (at e j ⊕ at c j) (omega arith)
        (xor-IsByte _ _ (at-IsByte e j he) (at-IsByte c j hc))
  where
    place : (j : ℕ) → (t + j) % 4 ≡ (2 + (s + j) % 4) % 4
    place j = rw ht (omega arith)

pub two_rounds-IsBlock :
    (e0 e1 c : Bytes) → AllBytes e0 → AllBytes e1 → AllBytes c → IsBlock (two_rounds e0 e1 c)
unfolding two_rounds
two_rounds-IsBlock e0 e1 c h0 h1 hc =
    let inner = dl-IsBlock _ (substitute-IsBlock 0 e0 c h0 hc).1 in
    dl-IsBlock _ (substitute-IsBlock 2 e1 _ h1 inner.1).1

-- Two rounds undone, under the key additions that stand between the pairs of rounds.
two_rounds_undo :
    (e0 e1 c k x : Bytes)
    → IsBlock e0
    → IsBlock e1
    → IsBlock c
    → xor16 k x ≡ dl (two_rounds e0 e1 c)
    → xor16 (dl e0) (two_rounds k (dl e1) x) ≡ dl c
unfolding two_rounds
two_rounds_undo e0 e1 c k x h0 h1 hc h =
    ap (λ y. xor16 (dl e0) (dl y)) second
    ∙ ap (xor16 (dl e0)) (dl-xor16 e0 c)
    ∙ xor16_cancel (dl c) (dl e0) (length-dl c)
  where
    mid : Bytes
    mid = dl (substitute 0 e0 c)

    mid-IsBlock : IsBlock mid
    mid-IsBlock = dl-IsBlock _ (substitute-IsBlock 0 e0 c h0.1 hc.1).1

    first : substitute 0 k x ≡ xor16 e1 mid
    first =
        substitute-layer 0 k x
        ∙ ap (layer 0)
            (h ∙ dl-dl (substitute 2 e1 mid) (substitute-IsBlock 2 e1 mid h1.1 mid-IsBlock.1).0)
        ∙ layer-substitute 2 0 e1 mid (omega arith) refl h1.1 mid-IsBlock.1

    between : dl (substitute 0 k x) ≡ xor16 (dl e1) (substitute 0 e0 c)
    between =
        ap dl first
        ∙ dl-xor16 e1 mid
        ∙ ap (xor16 (dl e1)) (dl-dl (substitute 0 e0 c) (substitute-IsBlock 0 e0 c h0.1 hc.1).0)

    second : substitute 2 (dl e1) (dl (substitute 0 k x)) ≡ xor16 e0 c
    second =
        substitute-layer 2 (dl e1) _
        ∙ ap (λ y. layer 2 (xor16 (dl e1) y)) between
        ∙ ap (layer 2)
            (xor16_cancel (substitute 0 e0 c) (dl e1) (substitute-IsBlock 0 e0 c h0.1 hc.1).0)
        ∙ layer-substitute 0 2 e0 c (omega arith) refl h0.1 hc.1

-- The loop as a fold over the keys, taken in pairs.
abbrev pub Pairs : Type 0
Pairs = List (Bytes × Bytes)

abbrev pub rounds : Pairs → Bytes → Bytes
rounds [] c = c
rounds ((e0, e1) ∷ ks) c = rounds ks (two_rounds e0 e1 c)

abbrev pub flat : Pairs → Bytes → List Bytes
flat [] last = last ∷ []
flat ((e0, e1) ∷ ks) last = e0 ∷ e1 ∷ flat ks last

pub crypt_loop-flat :
    (ks : Pairs) (last c : Bytes)
    → crypt_loop (length ks) c (flat ks last) ≡ some (xor16 last (dl (rounds ks c)))
unfolding crypt_loop
crypt_loop-flat [] last c = refl
crypt_loop-flat ((e0, e1) ∷ ks) last c = crypt_loop-flat ks last (two_rounds e0 e1 c)

rounds-append : (ks ls : Pairs) (c : Bytes) → rounds (ks ++ ls) c ≡ rounds ls (rounds ks c)
rounds-append [] ls c = refl
rounds-append ((e0, e1) ∷ ks) ls c = rounds-append ks ls (two_rounds e0 e1 c)

-- The key with which the inverse comes to a pair, and the pairs of the inverse.
abbrev pub entry : Pairs → Bytes → Bytes
entry [] last = last
entry ((e0, e1) ∷ ks) last = dl e0

abbrev pub reversed : Pairs → Bytes → Pairs
reversed [] last = []
reversed ((e0, e1) ∷ ks) last = reversed ks last ++ (entry ks last, dl e1) ∷ []

abbrev pub ArePairs : Pairs → Type 0
ArePairs = All (λ k. IsBlock k.0 × IsBlock k.1)

pub rounds-IsBlock : (ks : Pairs) (c : Bytes) → ArePairs ks → IsBlock c → IsBlock (rounds ks c)
rounds-IsBlock [] c hk hc = hc
rounds-IsBlock ((e0, e1) ∷ ks) c hk hc =
    rounds-IsBlock ks _ hk.1 (two_rounds-IsBlock e0 e1 c hk.0.0.1 hk.0.1.1 hc.1)

-- Before the last key addition the inverse rounds are back at the start.
pub rounds_undo :
    (ks : Pairs) (last c : Bytes)
    → ArePairs ks
    → IsBlock c
    → xor16 (entry ks last) (rounds (reversed ks last) (xor16 last (dl (rounds ks c)))) ≡ dl c
rounds_undo [] last c hk hc = xor16_cancel (dl c) last (length-dl c)
rounds_undo ((e0, e1) ∷ ks) last c hk hc =
    ap (xor16 (dl e0)) (rounds-append (reversed ks last) ((entry ks last, dl e1) ∷ []) _)
    ∙ two_rounds_undo e0 e1 c (entry ks last) _ hk.0.0 hk.0.1 hc (
        rounds_undo ks last (two_rounds e0 e1 c) hk.1
          (two_rounds-IsBlock e0 e1 c hk.0.0.1 hk.0.1.1 hc.1))
