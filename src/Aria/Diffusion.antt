-- ===== src/Aria/Diffusion.antt =====
-- `DL`, the diffusion layer. The source writes the sixteen bytes of `o` in the order of its four
-- temporaries `T`; here they stand in the order of the array.
pub mod Linear
use cds_guard.Prelude.{◌∷◌, [], Bytes, ◌⊕◌}
use cds_guard.Aria.Block.{at}

unfoldable pub dl : Bytes → Bytes
dl i =
    let t1 = at i 3 ⊕ at i 4 ⊕ at i 9 ⊕ at i 14 in
    let t2 = at i 2 ⊕ at i 5 ⊕ at i 8 ⊕ at i 15 in
    let t3 = at i 1 ⊕ at i 6 ⊕ at i 11 ⊕ at i 12 in
    let t4 = at i 0 ⊕ at i 7 ⊕ at i 10 ⊕ at i 13 in
    (at i 6 ⊕ at i 8 ⊕ at i 13 ⊕ t1)
    ∷ (at i 7 ⊕ at i 9 ⊕ at i 12 ⊕ t2)
    ∷ (at i 4 ⊕ at i 10 ⊕ at i 15 ⊕ t3)
    ∷ (at i 5 ⊕ at i 11 ⊕ at i 14 ⊕ t4)
    ∷ (at i 0 ⊕ at i 11 ⊕ at i 14 ⊕ t2)
    ∷ (at i 1 ⊕ at i 10 ⊕ at i 15 ⊕ t1)
    ∷ (at i 2 ⊕ at i 9 ⊕ at i 12 ⊕ t4)
    ∷ (at i 3 ⊕ at i 8 ⊕ at i 13 ⊕ t3)
    ∷ (at i 1 ⊕ at i 4 ⊕ at i 15 ⊕ t4)
    ∷ (at i 0 ⊕ at i 5 ⊕ at i 14 ⊕ t3)
    ∷ (at i 3 ⊕ at i 6 ⊕ at i 13 ⊕ t2)
    ∷ (at i 2 ⊕ at i 7 ⊕ at i 12 ⊕ t1)
    ∷ (at i 2 ⊕ at i 7 ⊕ at i 9 ⊕ t3)
    ∷ (at i 3 ⊕ at i 6 ⊕ at i 8 ⊕ t4)
    ∷ (at i 0 ⊕ at i 5 ⊕ at i 11 ⊕ t1)
    ∷ (at i 1 ⊕ at i 4 ⊕ at i 10 ⊕ t2)
    ∷ []
