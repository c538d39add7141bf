-- ===== src/Trie/Place/Sound.antt =====
-- What `get_proper_base` finds is free, and nothing on the way is read out of range.
use cds_guard.Prelude.{
  ℕ, zero, suc, ◌+◌, ◌-◌, ◌*◌, ◌^◌, ◌≤◌, ◌<◌, ◌≡◌, refl, ◌∙◌, Bool, false, List, [], ◌∷◌, length,
  ◌==◌, tabulate, All, All-append, arith,
}
use cds_guard.Trie.Array.{Vectors}
use cds_guard.Trie.Code.{k_max_val_of_char_code}
use cds_guard.Trie.State.{Dat, grow, reserve_trie, fresh}
use cds_guard.Trie.Place.{
  Placed, found, tried, fault, min_code, scan_dense, scan_chain, after_dense, one_turn,
  get_proper_base,
}
use cds_guard.Trie.Place.Room.{HasRoom, IsCode, IsReady, Fits, Outcome, All-imp}
use cds_guard.Trie.Place.Scans.{scan_chain-Outcome, scan_dense-Outcome}

module _ (c : ℕ) (codes : List ℕ) (are_codes : All IsCode (c ∷ codes)) where
  Outcome-same :
      (v w : Vectors) (p : Placed)
      → v.check ≡ w.check
      → v.element_capacity ≡ w.element_capacity
      → Outcome v (c ∷ codes) p
      → Outcome w (c ∷ codes) p
  Outcome-same v w (found base d) e f h = (h.0, h.1, h.2 ∙ e)
  Outcome-same v w (tried d) e f h = (h.0, h.1 ∙ e, h.2 ∙ f)
  Outcome-same v w fault e f h = h

  after_dense-Outcome :
      (v : Vectors) (p : Placed)
      → v.element_capacity < 2 ^ 32
      → Outcome v (c ∷ codes) p
      → Outcome v (c ∷ codes) (after_dense (c ∷ codes) p)
  unfolding after_dense
  after_dense-Outcome v (found base d) small h = h
  after_dense-Outcome v fault small h = h
  after_dense-Outcome v (tried d) small h =
      Outcome-same d.vectors v (scan_chain (length d.chain_queue) (c ∷ codes) d d.chain_queue) h.1
        h.2
        (scan_chain-Outcome c codes are_codes (length d.chain_queue) d d.chain_queue (omega arith)
          h.0.chain h.0.dense (omega arith))

pub one_turn-Outcome :
    (c : ℕ) (codes : List ℕ) (d : Dat)
    → All IsCode (c ∷ codes)
    → d.vectors.element_capacity < 2 ^ 32
    → IsReady d
    → Outcome d.vectors (c ∷ codes) (one_turn (c ∷ codes) d)
unfolding one_turn min_code
one_turn-Outcome c [] d are_codes small r =
    after_dense-Outcome c [] are_codes d.vectors (scan_dense c d d.dense_chain_queue) small
      (scan_dense-Outcome c d d.dense_chain_queue small are_codes.0.1 r.chain r.dense)
one_turn-Outcome c (e ∷ codes) d are_codes small r =
    rw (several (length codes))
      (after_dense-Outcome c (e ∷ codes) are_codes d.vectors (tried d) small (r, refl, refl))
  where
    several : (n : ℕ) → (suc (suc n) == 1) ≡ false
    several n = ground arith

All-HasRoom :
    (k capacity : ℕ) (xs : List ℕ) → k ≤ capacity → All (HasRoom k) xs → All (HasRoom capacity) xs
All-HasRoom k capacity xs h = All-imp (HasRoom k) (HasRoom capacity) xs (λ i r. omega arith)

tabulate-HasRoom :
    (capacity n i : ℕ)
    → (0 < n → i + n ≤ capacity - k_max_val_of_char_code + 1)
    → k_max_val_of_char_code ≤ capacity
    → All (HasRoom capacity) (tabulate n i (λ j. j))
tabulate-HasRoom capacity zero i h k = tt
tabulate-HasRoom capacity (suc n) i h k = (
  omega (arith, h (omega arith)),
  tabulate-HasRoom capacity n (suc i) (λ _. omega (arith, h (omega arith))) k,
)

pub grow_lem :
    (map capacity : ℕ)
    → (k_max_val_of_char_code < (grow 3 (map, capacity)).1)
      × (capacity + 4096 ≤ (grow 3 (map, capacity)).1)
      × ((grow 3 (map, capacity)).1 ≤ capacity + 12288)
unfolding grow
grow_lem map capacity = ground arith

pub reserve_trie-IsReady : (d : Dat) → IsReady d → IsReady (reserve_trie d)
unfolding reserve_trie
reserve_trie-IsReady d r = record {
  chain =
      All-append (HasRoom capacity) d.chain_queue _
        (All-HasRoom d.vectors.element_capacity capacity d.chain_queue (omega (arith, grown))
          r.chain)
        (tabulate-HasRoom capacity _ d.max_chain_node_index (λ some. ground (arith, grown))
          (omega (arith, grown)));
  dense =
      All-HasRoom d.vectors.element_capacity capacity d.dense_chain_queue (omega (arith, grown))
        r.dense;
}
  where
    capacity : ℕ
    capacity = (grow 3 (d.map_size, d.vectors.element_capacity)).1

    grown :
        (k_max_val_of_char_code < capacity)
        × (d.vectors.element_capacity + 4096 ≤ capacity)
        × (capacity ≤ d.vectors.element_capacity + 12288)
    grown = grow_lem d.map_size d.vectors.element_capacity

All-tail :
    (P : ℕ → Type 0) (xs : List ℕ)
    → All P xs
    → All P (elim xs as (λ _. List ℕ) [ [] ↦ [] | x ∷ rest ↦ rest ])
All-tail P [] h = tt
All-tail P (x ∷ rest) h = h.1

-- The queue of a new trie has room.
pub fresh-IsReady : (ignore_case : Bool) → IsReady (fresh ignore_case)
unfolding fresh
fresh-IsReady ignore_case = record {
  chain = All-tail _ _ (reserve_trie-IsReady _ (record { chain = tt; dense = tt })).chain;
  dense = (reserve_trie-IsReady _ (record { chain = tt; dense = tt })).dense;
}

reserve_trie-check : (d : Dat) → (reserve_trie d).vectors.check ≡ d.vectors.check
unfolding reserve_trie
reserve_trie-check d = refl

pub reserve_trie_capacity :
    (d : Dat) → (reserve_trie d).vectors.element_capacity ≤ d.vectors.element_capacity + 12288
unfolding reserve_trie
reserve_trie_capacity d = omega (arith, grow_lem d.map_size d.vectors.element_capacity)

-- How `get_proper_base` may end: fuel apart, with a base where the children have free entries.
abbrev pub Ends : Vectors → List ℕ → Placed → Type 0
Ends v codes (found base d) = Fits d base codes × IsReady d × (d.vectors.check ≡ v.check)
Ends v codes (tried d) = Unit {0}
Ends v codes fault = ⊥

Ends-same :
    (v w : Vectors) (codes : List ℕ) (p : Placed)
    → v.check ≡ w.check
    → Ends v codes p
    → Ends w codes p
Ends-same v w codes (found base d) e h = (h.0, h.1, h.2 ∙ e)
Ends-same v w codes (tried d) e h = tt
Ends-same v w codes fault e h = h

-- Where the queued indices have room for every code, a base that is found has a free entry inside the
-- vectors for each child, the nodes that are there stay as they are, the queues keep their room, and no
-- access is out of range, however often the vectors grow.
pub get_proper_base-Ends :
    (fuel : ℕ) (d : Dat) (c : ℕ) (codes : List ℕ)
    → All IsCode (c ∷ codes)
    → d.vectors.element_capacity + fuel * 12288 < 2 ^ 32
    → IsReady d
    → Ends d.vectors (c ∷ codes) (get_proper_base fuel (c ∷ codes) d)
unfolding get_proper_base
get_proper_base-Ends zero d c codes are_codes small r = tt
get_proper_base-Ends (suc fuel) d c codes are_codes small r =
    elim (one_turn (c ∷ codes) d)
        as (λ p.
          Outcome d.vectors (c ∷ codes) p
          → Ends d.vectors (c ∷ codes) (elim p [
            | found base d' ↦ found base d'
            | tried d' ↦ get_proper_base fuel (c ∷ codes) (reserve_trie d')
            | fault ↦ fault
          ])) [
            | found base d' ↦ λ h. h
            | tried d' ↦ λ h.
                Ends-same (reserve_trie d').vectors d.vectors (c ∷ codes)
                  (get_proper_base fuel (c ∷ codes) (reserve_trie d')) (reserve_trie-check d' ∙ h.1)
                  (get_proper_base-Ends fuel (reserve_trie d') c codes are_codes
                    (omega (arith, reserve_trie_capacity d', h.2)) (reserve_trie-IsReady d' h.0))
            | fault ↦ λ h. h
          ]
      (one_turn-Outcome c codes d are_codes (omega arith) r)
