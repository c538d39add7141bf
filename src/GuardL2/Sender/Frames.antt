-- ===== src/GuardL2/Sender/Frames.antt =====
-- The frames of the data that the first part of the sending loop makes, and the frames that the
-- receiver's theorems are about.
use cds_guard.Prelude.{
  ℕ, zero, suc, ◌+◌, ◌-◌, ◌*◌, ◌^◌, ◌<◌, ◌≤◌, ◌≡◌, ap, ◌∙◌, ◌&&◌, List, [], ◌∷◌, Bytes, length,
  length-drop, take, drop, min, u32, ltb, leb, if◌then◌else◌, if-elim, All, arith,
}
use mathlib.Core.Path.{subst}
use cds_guard.GuardL2.Frame.{Mac, build_frame, type_data}
use cds_guard.GuardL2.Receiver.Session.{chunk}
use cds_guard.GuardL2.Receiver.Packets.{sent_chunk}
use cds_guard.GuardL2.Receiver.Arrivals.{frame_of}

-- `data.subspan(offset, chunk_size)` for packet `seq`.
unfoldable pub payload_at : Bytes → ℕ → Bytes
payload_at bytes seq =
    let offset = (seq - 1) * 1400 in
    let chunk_size = min 1400 (length bytes - offset) in take chunk_size (drop offset bytes)

-- A frame to send, with its sequence number.
pub record Outgoing : Type 0 where
  pub seq : ℕ
  pub frame : Bytes

-- The loop that fills `frames_to_send` from `seq` on, with `fuel` turns at most. `limit` is
-- `send_window_base + effective_window`.
unfoldable pub frames_to_send : Mac → Mac → ℕ → Bytes → ℕ → ℕ → ℕ → ℕ → List Outgoing
frames_to_send src dst sid bytes limit total_packets zero seq = []
frames_to_send src dst sid bytes limit total_packets (suc fuel) seq =
    let rest = frames_to_send src dst sid bytes limit total_packets fuel (u32 (seq + 1)) in
    if ltb seq limit && leb seq total_packets
    then record {
      seq = seq;
      frame = build_frame src dst sid (length bytes) type_data seq (payload_at bytes seq);
    }
      ∷ rest
    else []

min-suc : (a b : ℕ) → min (suc a) (suc b) ≡ suc (min a b)
min-suc a b = omega arith

-- Not more can be taken than there is.
take-min : (n : ℕ) (xs : Bytes) (l : ℕ) → length xs ≡ l → take (min n l) xs ≡ take n xs
take-min zero xs l e = let none_taken : min 0 l ≡ 0 = omega arith in ap (λ j. take j xs) none_taken
take-min (suc n) [] l e =
    let none_there : min (suc n) l ≡ 0 = omega (arith, e) in ap (λ j. take j []) none_there
take-min (suc n) (x ∷ xs) zero e = absurd (omega (arith, e))
take-min (suc n) (x ∷ xs) (suc l) e =
    ap (λ j. take j (x ∷ xs)) (min-suc n l) ∙ ap (◌∷◌ x) (take-min n xs l (omega (arith, e)))

payload_at-chunk : (bytes : Bytes) (seq : ℕ) → payload_at bytes seq ≡ chunk bytes seq
unfolding payload_at
payload_at-chunk bytes seq =
    take-min 1400 (drop ((seq - 1) * 1400) bytes) (length bytes - (seq - 1) * 1400)
      (length-drop ((seq - 1) * 1400) bytes)

module _ (src dst : Mac) (sid : ℕ) (bytes : Bytes) (limit total_packets : ℕ)
    (fits : total_packets + 1 < 2 ^ 32) where
  abbrev IsOutgoing : ℕ → Outgoing → Type 0
  IsOutgoing first o =
      (first ≤ o.seq)
      × (o.seq < limit)
      × (o.seq ≤ total_packets)
      × (o.frame ≡ frame_of dst src sid bytes (sent_chunk o.seq))

  weaken :
      (first : ℕ) (os : List Outgoing) → All (IsOutgoing (first + 1)) os → All (IsOutgoing first) os
  weaken first [] h = tt
  weaken first (o ∷ os) h = ((omega (arith, h.0.0), h.0.1, h.0.2, h.0.3), weaken first os h.1)

  -- Each frame that the loop makes is the frame of its part of the data that the receiver's theorems
  -- take, and its number lies in the window, from the first number on, and among the packets, if their
  -- count and one more fit in 32 bits.
  pub frames_to_send-frame_of :
      (fuel seq : ℕ)
      → All
          (λ (o : Outgoing).
            (seq ≤ o.seq)
            × (o.seq < limit)
            × (o.seq ≤ total_packets)
            × (o.frame ≡ frame_of dst src sid bytes (sent_chunk o.seq)))
          (frames_to_send src dst sid bytes limit total_packets fuel seq)
  unfolding frames_to_send
  frames_to_send-frame_of zero seq = tt
  frames_to_send-frame_of (suc fuel) seq =
      if-elim (All (IsOutgoing seq)) (ltb seq limit && leb seq total_packets)
        (λ t. (
          (
            omega arith,
            ground arith,
            ground arith,
            ap (build_frame src dst sid (length bytes) type_data seq) (payload_at-chunk bytes seq),
          ),
          weaken seq _ (
              subst
                (λ k.
                  All (IsOutgoing k)
                    (frames_to_send src dst sid bytes limit total_packets fuel (u32 (seq + 1))))
                (no_wrap (ground arith)) (frames_to_send-frame_of fuel (u32 (seq + 1)))),
        ))
        (λ f. tt)
    where
      no_wrap : seq ≤ total_packets → u32 (seq + 1) ≡ seq + 1
      no_wrap h = omega arith

  -- With a turn for each packet that is left, the loop makes a frame for every number from the first
  -- one to the end of the window or of the data, if the count of packets and one more fit in 32 bits.
  pub length-frames_to_send :
      (fuel seq : ℕ)
      → total_packets + 1 - seq ≤ fuel
      → length (frames_to_send src dst sid bytes limit total_packets fuel seq)
        ≡ min limit (total_packets + 1) - seq
  unfolding frames_to_send
  length-frames_to_send zero seq h = omega arith
  length-frames_to_send (suc fuel) seq h =
      if-elim (λ (os : List Outgoing). length os ≡ min limit (total_packets + 1) - seq)
        (ltb seq limit && leb seq total_packets)
        (λ t.
          counted (ground arith) (ground arith)
            (λ h'. length-frames_to_send fuel (u32 (seq + 1)) h'))
        (λ f. ground arith)
    where
      rest : ℕ
      rest = length (frames_to_send src dst sid bytes limit total_packets fuel (u32 (seq + 1)))

      counted :
          seq < limit
          → seq ≤ total_packets
          → (total_packets + 1 - u32 (seq + 1) ≤ fuel
              → rest ≡ min limit (total_packets + 1) - u32 (seq + 1))
          → suc rest ≡ min limit (total_packets + 1) - seq
      counted a b more = omega (arith, more (omega arith))
