-- ===== src/PacketBuffer/Fifo.antt =====
-- The buffer as a queue: what is accepted is read, once each, in the order of acceptance.
use cds_guard.Prelude.{
  ℕ, ◌≤◌, ◌≡◌, refl, sym, ap, ◌∙◌, Bool, true, false, Option, none, some, List, [], ◌∷◌, ◌++◌,
  append-nil, append_assoc, arith, ◌⊎◌, inl, Bytes, length, length-append, take,
}
use cds_guard.PacketBuffer.{Packet, PacketBuffer, full, add_packet, read_packet, clear}

-- A call of one of the methods that change the buffer.
pub data Call : Type 0 where
  adds : Option Bytes → ℕ → Call
  reads clears : Call

-- The buffer after a call; what the call accepted, what it handed out and what it threw away.
pub record Effect : Type 0 where
  pub after : PacketBuffer
  pub accepted : List Packet
  pub removed : List Packet

one : Option Packet → List Packet
one none = []
one (some p) = p ∷ []

new_packet : Bool → Option Bytes → ℕ → List Packet
new_packet false input n = []
new_packet true none n = []
new_packet true (some input) n = record { bytes = take n input; size = n } ∷ []

unfoldable pub step : PacketBuffer → Call → Effect
unfolding one new_packet
step b (adds input n) =
    let r = add_packet b input n in
    record { after = r.0; accepted = new_packet r.1 input n; removed = [] }
step b reads = let r = read_packet b in record { after = r.0; accepted = []; removed = one r.1 }
step b clears = record { after = clear b; accepted = []; removed = b.buffer }

unfoldable pub run : PacketBuffer → List Call → Effect
run b [] = record { after = b; accepted = []; removed = [] }
run b (c ∷ cs) =
    let e = step b c in
    let r = run e.after cs in
    record {
      after = r.after;
      accepted = e.accepted ++ r.accepted;
      removed = e.removed ++ r.removed;
    }

step-fifo :
    (b : PacketBuffer) (c : Call)
    → b.buffer ++ (step b c).accepted ≡ (step b c).removed ++ (step b c).after.buffer
unfolding step add_packet read_packet clear
step-fifo b (adds none n) = append-nil b.buffer
step-fifo b (adds (some input) n) = ground (arith, append-nil b.buffer)
step-fifo b reads = ground (arith, append-nil b.buffer)
step-fifo b clears = refl

-- Over any history of calls: what was there and what is accepted is, in this order, what is handed
-- out or cleared away and then what is left.
pub run-fifo :
    (b : PacketBuffer) (cs : List Call)
    → b.buffer ++ (run b cs).accepted ≡ (run b cs).removed ++ (run b cs).after.buffer
unfolding run
run-fifo b [] = append-nil b.buffer
run-fifo b (c ∷ cs) =
    let e = step b c in
    let r = run e.after cs in
    sym (append_assoc b.buffer e.accepted r.accepted)
    ∙ ap (λ l. l ++ r.accepted) (step-fifo b c)
    ∙ append_assoc e.removed e.after.buffer r.accepted
    ∙ ap (◌++◌ e.removed) (run-fifo e.after cs)
    ∙ sym (append_assoc e.removed r.removed r.after.buffer)

step_bounded :
    (b : PacketBuffer) (c : Call)
    → length b.buffer ≤ b.max_size
    → ((step b c).after.max_size ≡ b.max_size) × (length (step b c).after.buffer ≤ b.max_size)
unfolding step add_packet read_packet clear
step_bounded b (adds none n) h = (refl, h)
step_bounded b (adds (some input) n) h =
    ground (arith, length-append b.buffer (record { bytes = take n input; size = n } ∷ []))
step_bounded b reads h = ground arith
step_bounded b clears h = omega arith

-- The buffer never holds more than `max_size` packets, which no call changes.
pub run_bounded :
    (b : PacketBuffer) (cs : List Call)
    → length b.buffer ≤ b.max_size
    → ((run b cs).after.max_size ≡ b.max_size) × (length (run b cs).after.buffer ≤ b.max_size)
unfolding run
run_bounded b [] h = (refl, h)
run_bounded b (c ∷ cs) h =
    let (same, fits) = step_bounded b c h in
    let (same', fits') = run_bounded (step b c).after cs (omega arith) in
    (same' ∙ same, omega arith)

-- A packet is refused for three reasons, and then the buffer is as before: there is no data, the size
-- is 0, or the buffer is full.
pub add_packet-refused :
    (b : PacketBuffer) (input : Option Bytes) (n : ℕ)
    → (add_packet b input n).1 ≡ false
    → ((add_packet b input n).0 ≡ b) × ((input ≡ none) ⊎ ((n ≡ 0) ⊎ (full b ≡ true)))
unfolding add_packet full
add_packet-refused b none n h = (refl, inl refl)
add_packet-refused b (some input) n h = ground arith
