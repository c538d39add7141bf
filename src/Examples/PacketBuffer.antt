-- ===== src/Examples/PacketBuffer.antt =====
-- The packet buffer on a concrete history of calls.
use cds_guard.Prelude.{
  ◌≡◌, ◌≤◌, refl, false, Option, some, Bytes, List, [], ◌∷◌, ◌++◌, length, arith,
}
use cds_guard.PacketBuffer.{PacketBuffer, add_packet}
use cds_guard.PacketBuffer.Fifo.{Call, adds, reads, clears, run, run-fifo, run_bounded}

abbrev buffer : PacketBuffer
buffer = record { buffer = []; max_size = 1 }

abbrev calls : List Call
calls =
    adds (some (1 ∷ 2 ∷ [])) 2
    ∷ adds (some (3 ∷ [])) 1
    ∷ reads
    ∷ adds (some (4 ∷ [])) 1
    ∷ clears
    ∷ []

run-fifo_example :
    [] ++ (run buffer calls).accepted
    ≡ (run buffer calls).removed ++ (run buffer calls).after.buffer
run-fifo_example = run-fifo buffer calls

run_bounded_example :
    ((run buffer calls).after.max_size ≡ 1) × (length (run buffer calls).after.buffer ≤ 1)
run_bounded_example = run_bounded buffer calls (omega arith)

abbrev full_buffer : PacketBuffer
full_buffer = record { buffer = record { bytes = 1 ∷ []; size = 1 } ∷ []; max_size = 1 }

abbrev input : Option Bytes
input = some (3 ∷ [])

refused : (add_packet full_buffer input 1).1 ≡ false
unfolding add_packet
refused = refl
