-- ===== src/GuardL2/Receiver/Handed.antt =====
-- A frame of the sender, padded by the wire, reaches the cases of `receive_reliable_data`.
use cds_guard.Prelude.{
  ℕ, ◌+◌, ◌-◌, ◌*◌, ◌^◌, ◌<◌, ◌≤◌, ◌≡◌, sym, ap, ◌∙◌, ◌++◌, append_assoc, length, length-append,
  length-take, drop, take_all, min, Bytes, arith,
}
use mathlib.Core.Path.{subst}
use cds_guard.GuardL2.Frame.{Mac, Parsed, parse_frame, accepted, build_frame, recv_buffer_size}
use cds_guard.GuardL2.Frame.RoundTrip.{parse_frame-build_frame}
use cds_guard.GuardL2.Receiver.{Receiver, Outcome, overlay, on_parsed, handle, step}
use cds_guard.GuardL2.Receiver.Session.{max_bytes, count-fits}
use cds_guard.GuardL2.Receiver.Arrivals.{sent, frame_of, event_of}
use cds_guard.GuardL2.Receiver.Packets.{
  Sent, sent_start, sent_end, sent_chunk, kind_of, seq_of, payload_of, packet_of, IsSent,
}

length-build_frame :
    (src dst : Mac) (sid total kind seq : ℕ) (payload : Bytes)
    → length (build_frame src dst sid total kind seq payload) ≡ 39 + length payload
unfolding build_frame
length-build_frame src dst sid total kind seq payload = omega arith

length-payload_of : (bytes : Bytes) (s : Sent) → length (payload_of bytes s) ≤ 1400
length-payload_of bytes sent_start = omega arith
length-payload_of bytes sent_end = omega arith
length-payload_of bytes (sent_chunk k) =
    omega (arith, length-take 1400 (drop ((k - 1) * 1400) bytes))

module _ (reserve_limit : ℕ) (my_mac sender : Mac) (sid : ℕ) (bytes : Bytes)
    (sid_fits : sid < 2 ^ 32) (small : length bytes ≤ max_bytes)
    (reservable : length bytes ≤ reserve_limit) where
  seq_fits : (s : Sent) → IsSent bytes s → seq_of bytes s < 2 ^ 32
  seq_fits sent_start h = omega arith
  seq_fits sent_end h = count-fits sid bytes small
  seq_fits (sent_chunk k) h = omega (arith, h.1, count-fits sid bytes small)

  parse_sent :
      (s : Sent) (padding buffer : Bytes)
      → IsSent bytes s
      → length padding ≤ 21
      → parse_frame my_mac
          (overlay (frame_of my_mac sender sid bytes s ++ padding) buffer)
          (min recv_buffer_size (length (frame_of my_mac sender sid bytes s ++ padding)))
        ≡ accepted (packet_of sid bytes sender s)
  parse_sent s padding buffer h hp =
      ap (λ (b : Bytes). parse_frame my_mac b n) laid_out
      ∙ parse_frame-build_frame sender my_mac sid (length bytes) (kind_of s) (seq_of bytes s)
          (payload_of bytes s) (padding ++ drop n buffer) n sid_fits (seq_fits s h) (omega arith)
          (omega (arith, length-payload_of bytes s))
          (omega (arith, size, length-payload_of bytes s))
    where
      frame : Bytes
      frame = frame_of my_mac sender sid bytes s

      n : ℕ
      n = min recv_buffer_size (length (frame ++ padding))

      size : length (frame ++ padding) ≡ 39 + length (payload_of bytes s) + length padding
      size =
          length-append frame padding
          ∙ ap (λ l. l + length padding)
              (length-build_frame sender my_mac sid (length bytes) (kind_of s) (seq_of bytes s)
                (payload_of bytes s))

      laid_out : overlay (frame ++ padding) buffer ≡ frame ++ (padding ++ drop n buffer)
      laid_out =
          ap (λ (b : Bytes). b ++ drop n buffer)
            (take_all recv_buffer_size (frame ++ padding)
              (omega (arith, size, length-payload_of bytes s)))
          ∙ append_assoc frame padding (drop n buffer)

  pub step-sent :
      (P : Outcome → Type 0) (s : Sent) (padding : Bytes) (st : Receiver)
      → IsSent bytes s
      → length padding ≤ 21
      → ((buffer : Bytes)
          → P (
              handle reserve_limit my_mac
                (packet_of sid bytes sender s)
                (record st { recv_buffer = buffer })))
      → P (step reserve_limit my_mac (event_of my_mac sender sid bytes (sent s padding)) st)
  unfolding step on_parsed
  step-sent P s padding st h hp p =
      subst
        (λ (r : Parsed). P (
          on_parsed reserve_limit my_mac
            (record st {
              recv_buffer = overlay (frame_of my_mac sender sid bytes s ++ padding) st.recv_buffer;
            })
            r))
        (sym (parse_sent s padding st.recv_buffer h hp))
        (p (overlay (frame_of my_mac sender sid bytes s ++ padding) st.recv_buffer))
