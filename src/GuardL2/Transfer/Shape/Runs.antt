-- ===== src/GuardL2/Transfer/Shape/Runs.antt =====
-- The window has its shape in every run, as long as data is sent.
use cds_guard.Prelude.{
  ℕ, ◌+◌, ◌^◌, ◌<◌, ◌≤◌, ◌≡◌, refl, sym, true, Option, none, some, List, [], ◌∷◌, Bytes, All,
  length, u32, leb, ◌==◌, if-elim, arith,
}
use mathlib.Core.Path.{subst}
use cds_guard.GuardL2.Frame.{Mac}
use cds_guard.GuardL2.Receiver.Packets.{sent_chunk}
use cds_guard.GuardL2.Receiver.Arrivals.{frame_of}
use cds_guard.GuardL2.Sender.Frames.{Outgoing, frames_to_send-frame_of}
use cds_guard.GuardL2.Sender.Acks.{parse_ack}
use cds_guard.GuardL2.Sender.Rtt.{Rtt}
use cds_guard.GuardL2.Transfer.{
  SentPacketInfo, Phase, ready, waiting, threw, starting, windowed, sending, ending, finished,
  Sender, total_packets_of, take_ack, on_parsed_ack, begin, handshake, begin_end, send_window, turn,
  Action, hears, turns, step, run, start,
}
use cds_guard.GuardL2.Transfer.Shape.{
  IsWindow, take_ack-IsWindow, after_wait-IsWindow, send_frames-IsWindow,
}

-- Until END is sent.
abbrev pub InShape : ℕ → Phase → Sender → Type 0
InShape total (ending tries) st = Unit
InShape total (finished result) st = Unit
InShape total threw st = Unit
InShape total (starting tries) st = IsWindow total st
InShape total ready st = IsWindow total st
InShape total (windowed cwnd) st = IsWindow total st
InShape total (sending w) st = IsWindow total st
InShape total waiting st = IsWindow total st

shape : (total : ℕ) (phase : Phase) (st : Sender) → IsWindow total st → InShape total phase st
shape total (ending tries) st w = tt
shape total (finished result) st w = tt
shape total threw st w = tt
shape total (starting tries) st w = w
shape total ready st w = w
shape total (windowed cwnd) st w = w
shape total (sending k) st w = w
shape total waiting st w = w

-- What leaves the phase alone and keeps the window keeps the shape.
keep :
    (total : ℕ) (phase : Phase) (st now : Sender)
    → (IsWindow total st → IsWindow total now)
    → InShape total phase st
    → InShape total phase now
keep total (ending tries) st now f h = tt
keep total (finished result) st now f h = tt
keep total threw st now f h = tt
keep total (starting tries) st now f h = f h
keep total ready st now f h = f h
keep total (windowed cwnd) st now f h = f h
keep total (sending w) st now f h = f h
keep total waiting st now f h = f h

module _ (src dst : Mac) (sid : ℕ) (bytes : Bytes)
    (fits : total_packets_of bytes + 1 < 2 ^ 32) where
  abbrev total : ℕ
  total = total_packets_of bytes

  abbrev Kept : Sender → Type 0
  Kept = IsWindow (total_packets_of bytes)

  -- Only the place and what was sent change.
  moved :
      (st : Sender) (phase : Phase) (out : List Bytes)
      → Kept st
      → Kept (record st { phase = phase; out = out })
  moved st phase out w = record { low = w.low; order = w.order; high = w.high; unused = w.unused }

  send_window-IsWindow :
      (clock : ℕ → ℕ) (k : ℕ) (st : Sender)
      → Kept st
      → Kept (send_window src dst sid bytes clock k st)
  unfolding send_window
  send_window-IsWindow clock k st w =
      send_frames-IsWindow (total_packets_of bytes) clock _ (record st { phase = waiting }) fits
        (within (u32 (st.send_window_base + k)) _ (
          frames_to_send-frame_of src dst sid bytes (u32 (st.send_window_base + k))
            (total_packets_of bytes) fits (total_packets_of bytes + 1) st.next_seq_num))
        (moved st waiting st.out w)
    where
      within :
          (limit : ℕ) (os : List Outgoing)
          → All
              (λ (o : Outgoing).
                (st.next_seq_num ≤ o.seq)
                × (o.seq < limit)
                × (o.seq ≤ total_packets_of bytes)
                × (o.frame ≡ frame_of dst src sid bytes (sent_chunk o.seq)))
              os
          → All (λ (o : Outgoing). o.seq ≤ total_packets_of bytes) os
      within limit [] h = tt
      within limit (o ∷ os) h = (h.0.2, within limit os h.1)

  abbrev Shaped : Sender → Type 0
  Shaped st = InShape (total_packets_of bytes) st.phase st

  handshake-Shaped :
      (o : Option SentPacketInfo) (success : Phase) (again : ℕ → Phase) (tries : ℕ) (st : Sender)
      → ((phase : Phase) (out : List Bytes)
          → InShape total success (record st { phase = phase; out = out }))
      → ((i : ℕ) (phase : Phase) (out : List Bytes)
          → InShape total (again i) (record st { phase = phase; out = out }))
      → Shaped (handshake o success again tries st)
  unfolding handshake
  handshake-Shaped none success again tries st s a = tt
  handshake-Shaped (some info) success again tries st s a =
      if-elim Shaped info.acked (λ t. s success st.out)
        (λ f. if-elim Shaped (tries == 5) (λ t. tt) (λ g. a (tries + 1) _ _))

  turn-Shaped :
      (now : ℕ) (clock : ℕ → ℕ) (phase : Phase) (st : Sender)
      → st.phase ≡ phase
      → InShape total phase st
      → Shaped (turn src dst sid bytes now clock phase st)
  unfolding turn begin_end begin
  turn-Shaped now clock (starting tries) st e w =
      handshake-Shaped (st.send_buffer 0) ready starting tries st (λ p out. moved st p out w)
        (λ i p out. moved st p out w)
  turn-Shaped now clock ready st e w =
      if-elim Shaped (leb st.send_window_base (total_packets_of bytes)) (λ t. moved st _ st.out w)
        (λ f. tt)
  turn-Shaped now clock (windowed cwnd) st e w = moved st _ st.out w
  turn-Shaped now clock (sending k) st e w = shape total _ _ (send_window-IsWindow clock k st w)
  turn-Shaped now clock waiting st e w =
      shape total _ _ (after_wait-IsWindow (total_packets_of bytes) now clock st fits w).0
  turn-Shaped now clock (ending tries) st e w =
      handshake-Shaped (st.send_buffer (u32 (total_packets_of bytes + 1))) (finished true) ending
        tries st (λ p out. tt) (λ i p out. tt)
  turn-Shaped now clock (finished result) st e w = subst (λ p. InShape total p st) (sym e) tt
  turn-Shaped now clock threw st e w = subst (λ p. InShape total p st) (sym e) tt

  take_ack-phase :
      (now seq advertised : ℕ) (o : Option SentPacketInfo) (st : Sender)
      → (take_ack (length bytes) now seq advertised o st).phase ≡ st.phase
  unfolding take_ack
  take_ack-phase now seq advertised none st = refl
  take_ack-phase now seq advertised (some info) st =
      if-elim (λ (r : Sender). r.phase ≡ st.phase) info.acked (λ t. refl) (λ f. refl)

  take_ack-Shaped :
      (now seq advertised : ℕ) (st : Sender)
      → Shaped st
      → Shaped (take_ack (length bytes) now seq advertised (st.send_buffer seq) st)
  take_ack-Shaped now seq advertised st h =
      let taken = take_ack (length bytes) now seq advertised (st.send_buffer seq) st in
      subst (λ p. InShape total p taken)
        (sym (take_ack-phase now seq advertised (st.send_buffer seq) st))
        (keep total st.phase st taken
          (take_ack-IsWindow (total_packets_of bytes) (length bytes) now seq advertised
            (st.send_buffer seq) st refl)
          h)

  on_parsed_ack-Shaped :
      (now : ℕ) (o : Option (ℕ × ℕ)) (st : Sender)
      → Shaped st
      → Shaped (on_parsed_ack (length bytes) now o st)
  on_parsed_ack-Shaped now none st h = h
  on_parsed_ack-Shaped now (some (seq, advertised)) st h = take_ack-Shaped now seq advertised st h

  run-Shaped :
      (actions : List Action) (st : Sender) → Shaped st → Shaped (run src dst sid bytes actions st)
  unfolding run step
  run-Shaped [] st h = h
  run-Shaped (hears now buffer n ∷ more) st h =
      run-Shaped more _ (on_parsed_ack-Shaped now (parse_ack src sid buffer n) st h)
  run-Shaped (turns now clock ∷ more) st h =
      run-Shaped more _ (turn-Shaped now clock st.phase st refl h)

  -- In every run, until END is sent, the window starts at 1 or later, its start is not behind the next
  -- number, which is at most one more than the count of packets, and the map holds nothing from the next
  -- number on, if the count and one more fit in 32 bits.
  pub run_shape :
      (now : ℕ) (rtt : Rtt) (actions : List Action)
      → InShape
          (total_packets_of bytes)
          (run src dst sid bytes actions (start src dst sid bytes now rtt)).phase
          (run src dst sid bytes actions (start src dst sid bytes now rtt))
  unfolding start begin
  run_shape now rtt actions = run-Shaped actions _ (record {
    low = omega arith;
    order = omega arith;
    high = omega arith;
    unused = λ k low. ground arith;
  })
