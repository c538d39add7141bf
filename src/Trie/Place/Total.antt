-- ===== src/Trie/Place/Total.antt =====
-- Four turns of `get_proper_base` are enough, from any state that the trie can be in.
use cds_guard.Prelude.{ℕ, ◌+◌, ◌*◌, ◌≤◌, ◌<◌, ◌≡◌, refl, ◌⊎◌, Bool, [], All, arith}
use cds_guard.Trie.Code.{k_max_val_of_char_code}
use cds_guard.Trie.State.{Dat, grow, reserve_trie, fresh, k_block_size}
use cds_guard.Trie.Place.{Placed, found, tried, fault}
use cds_guard.Trie.Place.Enough.{IsUnused}

-- The loop over the dense queue changes nothing but that queue.
abbrev Kept : Dat → Placed → Type 0
Kept d (found base d') = Unit {0}
Kept d (tried d') = d' ≡ record d { dense_chain_queue = [] }
Kept d fault = Unit {0}

-- What is still to be waited for, with `fuel` turns of growth left: an index of an unused block in the
-- queue, or vectors that grow far enough for one.
abbrev Due : ℕ → ℕ → Dat → Type 0
Due q fuel d =
    (All (λ i. i < q * k_block_size) d.chain_queue → ⊥)
    ⊎ ((1 ≤ fuel)
        × (q * k_block_size + k_max_val_of_char_code ≤ d.vectors.element_capacity + fuel * 4096))

abbrev IsNotTried : Placed → Type 0
IsNotTried (found base d) = Unit {0}
IsNotTried (tried d) = ⊥
IsNotTried fault = Unit {0}

-- A new trie has all its blocks unused.
pub fresh-IsUnused :
    (ignore_case : Bool) → IsUnused (fresh ignore_case).map_size (fresh ignore_case)
unfolding fresh reserve_trie grow
fresh-IsUnused ignore_case = record {
  checks = λ i h. refl;
  sizes = λ b h. refl;
  fails = λ b h. refl;
  last = omega arith;
}
