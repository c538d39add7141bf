-- ===== src/Trie/Place/Room.antt =====
-- The indices from which every code stays inside the vectors, and how a search for a place may end.
use cds_guard.Prelude.{
  ℕ, ◌+◌, ◌^◌, ◌≤◌, ◌<◌, ◌≡◌, ◌≢◌, true, none, some, List, [], ◌∷◌, u32, All, arith,
}
use cds_guard.Trie.Array.{Vectors}
use cds_guard.Trie.Code.{k_max_val_of_char_code}
use cds_guard.Trie.State.{Dat, empty_node}
use cds_guard.Trie.Place.{Placed, found, tried, fault, min_code, base_for, all_empty}

-- An index from which every code stays inside the vectors.
abbrev pub HasRoom : ℕ → ℕ → Type 0
HasRoom capacity i = i + k_max_val_of_char_code ≤ capacity

abbrev pub IsCode : ℕ → Type 0
IsCode c = (1 ≤ c) × (c ≤ k_max_val_of_char_code)

pub record IsReady (d : Dat) : Type 0 where
  pub chain : All (HasRoom d.vectors.element_capacity) d.chain_queue
  pub dense : All (HasRoom d.vectors.element_capacity) d.dense_chain_queue

-- The children with these codes have free entries inside the vectors.
abbrev pub Fits : Dat → ℕ → List ℕ → Type 0
Fits d base codes =
    All
      (λ c. (u32 (base + c) < d.vectors.element_capacity) × (d.vectors.check (u32 (base + c)) ≡ 0))
      codes

-- How a search with the vectors `v` may end: a base that is found has room for the children, the nodes
-- that are there are kept, and no access fails.
abbrev pub Outcome : Vectors → List ℕ → Placed → Type 0
Outcome v codes (found base d) = Fits d base codes × IsReady d × (d.vectors.check ≡ v.check)
Outcome v codes (tried d) =
    IsReady d × (d.vectors.check ≡ v.check) × (d.vectors.element_capacity ≡ v.element_capacity)
Outcome v codes fault = ⊥

pub free_in_range :
    (d : Dat) (i : ℕ)
    → empty_node d i ≡ some true
    → (i < d.vectors.element_capacity) × (d.vectors.check i ≡ 0)
unfolding empty_node
free_in_range d i h = ground arith

pub empty_node_some : (d : Dat) (i : ℕ) → i < d.vectors.element_capacity → empty_node d i ≢ none
unfolding empty_node
empty_node_some d i h = ground arith

pub all_empty-Fits :
    (d : Dat) (base : ℕ) (codes : List ℕ) → all_empty d base codes ≡ some true → Fits d base codes
unfolding all_empty
all_empty-Fits d base [] h = tt
all_empty-Fits d base (c ∷ codes) h =
    (free_in_range d (u32 (base + c)) (ground arith), all_empty-Fits d base codes (ground arith))

pub all_empty_some :
    (d : Dat) (base : ℕ) (codes : List ℕ)
    → All (λ c. u32 (base + c) < d.vectors.element_capacity) codes
    → all_empty d base codes ≢ none
unfolding all_empty
all_empty_some d base [] h = cc
all_empty_some d base (c ∷ codes) h =
    ground (arith, empty_node_some d (u32 (base + c)) h.0, all_empty_some d base codes h.1)

pub All-imp : (P Q : ℕ → Type 0) (xs : List ℕ) → ((x : ℕ) → P x → Q x) → All P xs → All Q xs
All-imp P Q [] f h = tt
All-imp P Q (x ∷ xs) f h = (f x h.0, All-imp P Q xs f h.1)

pub All-both : (P Q : ℕ → Type 0) (xs : List ℕ) → All P xs → All Q xs → All (λ x. P x × Q x) xs
All-both P Q [] g h = tt
All-both P Q (x ∷ xs) g h = ((g.0, h.0), All-both P Q xs g.1 h.1)

pub below_min : (m : ℕ) (codes : List ℕ) → m ≤ min_code codes → All (λ c. m ≤ c) codes
unfolding min_code
below_min m [] h = tt
below_min m (c ∷ []) h = omega arith
below_min m (c ∷ d ∷ codes) h = (omega arith, below_min m (d ∷ codes) (omega arith))

pub min_code_pos : (c : ℕ) (codes : List ℕ) → All IsCode (c ∷ codes) → 1 ≤ min_code (c ∷ codes)
unfolding min_code
min_code_pos c [] h = h.0.0
min_code_pos c (d ∷ codes) h = omega (arith, min_code_pos d codes h.1)

-- With room at the index no access for a code is out of range.
pub in_range :
    (capacity i m c : ℕ)
    → capacity < 2 ^ 32
    → HasRoom capacity i
    → 1 ≤ m
    → (m ≤ c) × IsCode c
    → u32 (base_for i m + c) < capacity
in_range capacity i m c h room pos r = omega arith
