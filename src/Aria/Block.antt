-- ===== src/Aria/Block.antt =====
-- 16-byte blocks, `Byte [16]` in ARIAReference.cpp, as lists read at an index.
use cds_guard.Prelude.{
  ℕ, zero, suc, ◌+◌, ◌≤◌, ◌<◌, ◌≡◌, refl, ap, ap₂, ◌∙◌, List, [], ◌∷◌, arith, length, get_or, All,
  tabulate, Bytes, IsByte, AllBytes, IsBlock, ◌⊕◌,
}
use cds_guard.Prelude.Xor.{xor-IsByte, xor_comm, xor_cancel}

-- `b[j]`.
abbrev pub at : Bytes → ℕ → ℕ
at b j = get_or b j 0

-- `for (j = 0; j < 16; j++) c[j] = p[j];`
abbrev pub copy16 : Bytes → Bytes
copy16 p = tabulate 16 0 (at p)

-- `for (j = 0; j < 16; j++) c[j] = e[j] ^ t[j];`
unfoldable pub xor16 : Bytes → Bytes → Bytes
xor16 e t = tabulate 16 0 (λ j. at e j ⊕ at t j)

pub at-IsByte : (b : Bytes) (j : ℕ) → AllBytes b → IsByte (at b j)
at-IsByte [] j h = omega arith
at-IsByte (x ∷ b) zero h = h.0
at-IsByte (x ∷ b) (suc j) h = at-IsByte b j h.1

module _ {ℓ} {A : Type ℓ} where
  pub tabulate-ext :
      (n i : ℕ) (f g : ℕ → A)
      → ((j : ℕ) → i ≤ j → j < i + n → f j ≡ g j)
      → tabulate n i f ≡ tabulate n i g
  tabulate-ext zero i f g h = refl
  tabulate-ext (suc n) i f g h =
      ap₂ ◌∷◌ (h i (omega arith) (omega arith))
        (tabulate-ext n (suc i) f g (λ j p q. h j (omega arith) (omega arith)))

  pub All-tabulate {κ} :
      (P : A → Type κ) (n i : ℕ) (f : ℕ → A) → ((j : ℕ) → P (f j)) → All P (tabulate n i f)
  All-tabulate P zero i f h = tt
  All-tabulate P (suc n) i f h = (h i, All-tabulate P n (suc i) f h)

  pub get_or-tabulate :
      (n i j : ℕ) (f : ℕ → A) (d : A) → j < n → get_or (tabulate n i f) j d ≡ f (i + j)
  get_or-tabulate zero i j f d h = absurd (omega arith)
  get_or-tabulate (suc n) i zero f d h = ap f (omega arith)
  get_or-tabulate (suc n) i (suc j) f d h =
      get_or-tabulate n (suc i) j f d (omega arith) ∙ ap f (omega arith)

  tabulate_shift :
      (n i : ℕ) (f g : ℕ → A) → ((j : ℕ) → f (suc j) ≡ g j) → tabulate n (suc i) f ≡ tabulate n i g
  tabulate_shift zero i f g h = refl
  tabulate_shift (suc n) i f g h = ap₂ ◌∷◌ (h i) (tabulate_shift n (suc i) f g h)

  -- A list of known length is the list of its elements.
  pub tabulate-get_or :
      (n : ℕ) (xs : List A) (d : A) → length xs ≡ n → tabulate n 0 (λ j. get_or xs j d) ≡ xs
  tabulate-get_or zero [] d h = refl
  tabulate-get_or zero (x ∷ xs) d h = absurd (omega arith)
  tabulate-get_or (suc n) [] d h = absurd (omega arith)
  tabulate-get_or (suc n) (x ∷ xs) d h = ap (◌∷◌ x) (
      tabulate_shift n 0 (λ j. get_or (x ∷ xs) j d) (λ j. get_or xs j d) (λ j. refl)
      ∙ tabulate-get_or n xs d (omega arith))

pub copy16-id : (b : Bytes) → length b ≡ 16 → copy16 b ≡ b
copy16-id b h = tabulate-get_or 16 b 0 h

pub tabulate-IsBlock : (f : ℕ → ℕ) → ((j : ℕ) → IsByte (f j)) → IsBlock (tabulate 16 0 f)
tabulate-IsBlock f h = (refl, All-tabulate IsByte 16 0 f h)

pub xor16-IsBlock : (a b : Bytes) → AllBytes a → AllBytes b → IsBlock (xor16 a b)
unfolding xor16
xor16-IsBlock a b p q =
    tabulate-IsBlock _ (λ j. xor-IsByte (at a j) (at b j) (at-IsByte a j p) (at-IsByte b j q))

pub length-xor16 : (a b : Bytes) → length (xor16 a b) ≡ 16
unfolding xor16
length-xor16 a b = refl

-- The operation at an index, and the laws that the indices inherit.
pub at-tabulate : (f : ℕ → ℕ) (j : ℕ) → j < 16 → at (tabulate 16 0 f) j ≡ f j
at-tabulate f j h = get_or-tabulate 16 0 j f 0 h ∙ ap f (omega arith)

pub xor16_comm : (a b : Bytes) → xor16 a b ≡ xor16 b a
unfolding xor16
xor16_comm a b = tabulate-ext 16 0 _ _ (λ j p q. xor_comm (at a j) (at b j))

-- Adding the same block twice gives the first one back.
pub xor16_cancel : (a b : Bytes) → length a ≡ 16 → xor16 b (xor16 b a) ≡ a
unfolding xor16
xor16_cancel a b h =
    tabulate-ext 16 0 _ (at a) (λ j p q.
      ap (◌⊕◌ (at b j)) (at-tabulate (λ k. at b k ⊕ at a k) j (omega arith))
      ∙ xor_comm (at b j) (at b j ⊕ at a j)
      ∙ ap (λ (t : ℕ). t ⊕ at b j) (xor_comm (at b j) (at a j))
      ∙ xor_cancel (at a j) (at b j))
    ∙ copy16-id a h
