-- ===== src/GuardL2/Transfer.antt =====
-- `GuardL2Sender::send_reliable_data` and `ack_listener_thread` as one machine. A step is what one thread
-- does while it holds a mutex, so that every interleaving of the two threads is a list of actions: a
-- frame that the listener receives, or a turn of the sending thread, with the times that it reads.
pub mod Timeouts
pub mod Sliding
pub mod Invariant
pub mod Completion
pub mod Silence
pub mod Shape
pub mod Progress
use cds_guard.Prelude.{
  ℕ, zero, suc, ◌+◌, ◌-◌, ◌*◌, ◌/◌, Bool, true, false, not, ◌&&◌, Option, none, some, List, [], ◌∷◌,
  Bytes, length, min, u32, u64, ltb, leb, ◌==◌, if◌then◌else◌,
}
use cds_guard.GuardL2.Frame.{Mac, build_frame, type_start, type_end}
use cds_guard.GuardL2.Sender.Window.{Window, start_window, on_ack_received, on_packet_loss}
use cds_guard.GuardL2.Sender.Rtt.{Rtt, update_rtt, get_rto}
use cds_guard.GuardL2.Sender.Frames.{Outgoing, frames_to_send}
use cds_guard.GuardL2.Sender.Acks.{parse_ack}

-- `SentPacketInfo`. Times are in nanoseconds.
pub record SentPacketInfo : Type 0 where
  pub frame_data : Bytes
  pub time_sent : ℕ
  pub acked : Bool

-- `std::map<uint32_t, SentPacketInfo>`
abbrev pub SendBuffer : Type 0
SendBuffer = ℕ → Option SentPacketInfo

abbrev pub put_info : ℕ → Option SentPacketInfo → SendBuffer → SendBuffer
put_info seq info buffer k = if k == seq then info else buffer k

-- Where the sending thread is: it waits for the acknowledgement of START after so many tries, is at the
-- top of the loop, has read `cwnd_`, has the effective window, waits in the loop, waits for the
-- acknowledgement of END, or is done. `threw` is `at` of a number that is not in the map.
pub data Phase : Type 0 where
  ready waiting threw : Phase
  starting windowed sending ending : ℕ → Phase
  finished : Bool → Phase

pub record Sender : Type 0 where
  pub send_buffer : SendBuffer
  pub window : Window
  pub rtt : Rtt
  pub send_window_base : ℕ
  pub next_seq_num : ℕ
  pub phase : Phase
  -- the frames that were sent, the last one first
  pub out : List Bytes

-- The timeout, in nanoseconds.
abbrev pub rto : Sender → ℕ
rto st = get_rto st.rtt * 1000000

abbrev pub total_packets_of : Bytes → ℕ
total_packets_of bytes = u32 (u64 (length bytes + 1400 - 1) / 1400)

-- The test of the second and the third loop over the window.
unfoldable pub is_outstanding : Option SentPacketInfo → Bool
is_outstanding none = false
is_outstanding (some info) = not info.acked

unfoldable pub is_expired : ℕ → ℕ → Option SentPacketInfo → Bool
is_expired timeout now none = false
is_expired timeout now (some info) = not info.acked && leb (info.time_sent + timeout) now

abbrev pub earlier : ℕ → Option ℕ → Option ℕ
earlier t none = some t
earlier t (some u) = some (min u t)

abbrev pub time_of : Option SentPacketInfo → ℕ
time_of none = 0
time_of (some info) = info.time_sent

-- Step B, from number `i` on: when the first of the packets without acknowledgement times out, or
-- `none` if there is no such packet and `is_waiting_for_ack` stays false.
unfoldable pub next_timeout : SendBuffer → ℕ → ℕ → ℕ → Option ℕ
next_timeout buffer timeout zero i = none
next_timeout buffer timeout (suc fuel) i =
    let rest = next_timeout buffer timeout fuel (u32 (i + 1)) in
    if is_outstanding (buffer i) then earlier (time_of (buffer i) + timeout) rest else rest

-- Step C, from number `i` on.
unfoldable pub retransmit_seqs : SendBuffer → ℕ → ℕ → ℕ → ℕ → List ℕ
retransmit_seqs buffer timeout now zero i = []
retransmit_seqs buffer timeout now (suc fuel) i =
    let rest = retransmit_seqs buffer timeout now fuel (u32 (i + 1)) in
    if is_expired timeout now (buffer i) then i ∷ rest else rest

-- One more sending of what the map holds for a number.
unfoldable pub resend : ℕ → ℕ → Option SentPacketInfo → Sender → Sender
resend seq now none st = record st { phase = threw }
resend seq now (some info) st = record st {
  send_buffer = put_info seq (some (record info { time_sent = now })) st.send_buffer;
  out = info.frame_data ∷ st.out;
}

unfoldable pub retransmit : (ℕ → ℕ) → List ℕ → Sender → Sender
retransmit clock [] st = st
retransmit clock (seq ∷ more) st =
    retransmit clock more (resend seq (clock seq) (st.send_buffer seq) st)

unfoldable pub on_timeouts : (ℕ → ℕ) → List ℕ → Sender → Sender
on_timeouts clock [] st = st
on_timeouts clock (seq ∷ more) st =
    retransmit clock (seq ∷ more) (record st { window = on_packet_loss st.window })

abbrev pub is_acked : Option SentPacketInfo → Bool
is_acked none = false
is_acked (some info) = info.acked

-- Step D; each turn passes a packet of the window, whose size is therefore enough fuel.
unfoldable pub slide : ℕ → Sender → Sender
slide zero st = st
slide (suc fuel) st =
    let rest = slide fuel (record st {
      send_buffer = put_info st.send_window_base none st.send_buffer;
      send_window_base = u32 (st.send_window_base + 1);
    }) in
    if is_acked (st.send_buffer st.send_window_base) then rest else st

-- Steps C and D, with the mutex held since the wait.
unfoldable pub after_wait : ℕ → (ℕ → ℕ) → Sender → Sender
after_wait now clock st =
    let in_flight = st.next_seq_num - st.send_window_base in
    let seqs = retransmit_seqs st.send_buffer (rto st) now in_flight st.send_window_base in
    slide in_flight (on_timeouts clock seqs (record st { phase = ready }))

-- Step A: what was built is kept and sent.
unfoldable pub send_frames : (ℕ → ℕ) → List Outgoing → Sender → Sender
send_frames clock [] st = st
send_frames clock (o ∷ os) st = send_frames clock os (record st {
  send_buffer =
      put_info o.seq
        (some (record { frame_data = o.frame; time_sent = clock o.seq; acked = false }))
        st.send_buffer;
  next_seq_num = if leb st.next_seq_num o.seq then u32 (o.seq + 1) else st.next_seq_num;
  out = o.frame ∷ st.out;
})

-- The listener, once a frame of 39 bytes or more is an acknowledgement of the session.
unfoldable pub take_ack : ℕ → ℕ → ℕ → ℕ → Option SentPacketInfo → Sender → Sender
take_ack total_size now seq advertised none st = st
take_ack total_size now seq advertised (some info) st = if info.acked then st else record st {
  send_buffer = put_info seq (some (record info { acked = true })) st.send_buffer;
  rtt = update_rtt (now - info.time_sent) st.rtt;
  window = on_ack_received total_size seq advertised st.window;
}

abbrev pub on_parsed_ack : ℕ → ℕ → Option (ℕ × ℕ) → Sender → Sender
on_parsed_ack total_size now none st = st
on_parsed_ack total_size now (some (seq, advertised)) st =
    take_ack total_size now seq advertised (st.send_buffer seq) st

-- A handshake's first sending.
unfoldable pub begin : ℕ → ℕ → Bytes → Phase → Sender → Sender
begin seq now frame phase st = record st {
  send_buffer =
      put_info seq (some (record { frame_data = frame; time_sent = now; acked = false }))
        st.send_buffer;
  phase = phase;
  out = frame ∷ st.out;
}

-- The wait of a handshake ends after `tries` sendings: the acknowledgement came, or the frame is sent
-- again unless this was the fifth try. The time of sending is not renewed.
unfoldable pub handshake : Option SentPacketInfo → Phase → (ℕ → Phase) → ℕ → Sender → Sender
handshake none success again tries st = record st { phase = threw }
handshake (some info) success again tries st =
    if info.acked
    then record st { phase = success }
    else if tries == 5
    then record st { phase = finished false }
    else record st { phase = again (tries + 1); out = info.frame_data ∷ st.out }

-- What happens next: the listener has `n` bytes in its buffer at time `now`, or the sending thread goes on.
-- `clock` is the time that it reads for a number.
pub data Action : Type 0 where
  hears : ℕ → Bytes → ℕ → Action
  turns : ℕ → (ℕ → ℕ) → Action

module _ (src dst : Mac) (sid : ℕ) (bytes : Bytes) where
  unfoldable pub begin_end : ℕ → Sender → Sender
  begin_end now st =
      let end_seq = u32 (total_packets_of bytes + 1) in
      begin end_seq now (build_frame src dst sid (length bytes) type_end end_seq []) (ending 1) st

  unfoldable pub send_window : (ℕ → ℕ) → ℕ → Sender → Sender
  send_window clock effective_window st =
      let total = total_packets_of bytes in
      send_frames clock
        (frames_to_send src dst sid bytes (u32 (st.send_window_base + effective_window)) total
          (total + 1) st.next_seq_num)
        (record st { phase = waiting })

  -- A turn of the sending thread.
  unfoldable pub turn : ℕ → (ℕ → ℕ) → Phase → Sender → Sender
  turn now clock (starting tries) st = handshake (st.send_buffer 0) ready starting tries st
  turn now clock ready st =
      if leb st.send_window_base (total_packets_of bytes)
      then record st { phase = windowed (u32 st.window.cwnd) }
      else begin_end now st
  turn now clock (windowed cwnd) st = record st { phase = sending (min cwnd st.window.rwnd) }
  turn now clock (sending effective_window) st = send_window clock effective_window st
  turn now clock waiting st = after_wait now clock st
  turn now clock (ending tries) st =
      handshake (st.send_buffer (u32 (total_packets_of bytes + 1))) (finished true) ending tries st
  turn now clock (finished result) st = st
  turn now clock threw st = st

  unfoldable pub step : Action → Sender → Sender
  step (hears now buffer n) st = on_parsed_ack (length bytes) now (parse_ack src sid buffer n) st
  step (turns now clock) st = turn now clock st.phase st

  unfoldable pub run : List Action → Sender → Sender
  run [] st = st
  run (a ∷ more) st = run more (step a st)

  -- Up to the wait for the acknowledgement of START. The estimate of the round trip is the one of
  -- the sender's earlier transfers.
  unfoldable pub start : ℕ → Rtt → Sender
  start now rtt =
      begin 0 now (build_frame src dst sid (length bytes) type_start 0 []) (starting 1) (record {
        send_buffer = λ k. none;
        window = start_window;
        rtt = rtt;
        send_window_base = 1;
        next_seq_num = 1;
        phase = finished false;
        out = [];
      })
