-- ===== src/GuardL2/Receiver/Arrivals.antt =====
-- The frames of a session as they arrive: those of `build_frame`, padded, and stray ones.
use cds_guard.Prelude.{ℕ, zero, suc, ◌≤◌, List, [], ◌∷◌, ◌++◌, length, min, Bytes}
use cds_guard.GuardL2.Frame.{Mac, parse_frame, build_frame, recv_buffer_size}
use cds_guard.GuardL2.Receiver.{Event, received, overlay}
use cds_guard.GuardL2.Receiver.Packets.{
  Sent, sent_end, sent_chunk, kind_of, seq_of, payload_of, IsSent, IsStray,
}

-- A frame of the session, with the padding that the link adds, or any other frame.
pub data Arrival : Type 0 where
  sent : Sent → Bytes → Arrival
  stray : Bytes → Arrival

module _ (my_mac sender : Mac) (sid : ℕ) (bytes : Bytes) where
  abbrev pub frame_of : Sent → Bytes
  frame_of s =
      build_frame sender my_mac sid (length bytes) (kind_of s) (seq_of bytes s) (payload_of bytes s)

  abbrev pub event_of : Arrival → Event
  event_of (sent s padding) = received (frame_of s ++ padding)
  event_of (stray frame) = received frame

  abbrev pub events_of : List Arrival → List Event
  events_of [] = []
  events_of (a ∷ more) = event_of a ∷ events_of more

  -- A packet of the session with at most 21 bytes of padding, which make a short frame one of 60 bytes,
  -- or a stray frame, whatever the buffer held before.
  abbrev pub Arrives : Arrival → Type 0
  Arrives (sent s padding) = IsSent bytes s × (length padding ≤ 21)
  Arrives (stray frame) =
      (buffer : Bytes)
      → IsStray sid
          (parse_frame my_mac (overlay frame buffer) (min recv_buffer_size (length frame)))

  -- Packets `k` to `k + n - 1` in order, then END.
  abbrev pub in_order : (ℕ → Bytes) → ℕ → ℕ → List Arrival
  in_order padding zero k = sent sent_end (padding k) ∷ []
  in_order padding (suc n) k = sent (sent_chunk k) (padding k) ∷ in_order padding n (suc k)
