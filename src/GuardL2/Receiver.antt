-- ===== src/GuardL2/Receiver.antt =====
-- `GuardL2Receiver::receive_reliable_data`: a session of the receiver as a loop over what `select` and
-- `recv` report. `reserve_limit` is the largest capacity that `reserve` grants; above it, it throws.
pub mod Buffer
pub mod Session
pub mod Packets
pub mod Arrivals
pub mod Handed
pub mod Transfer
pub mod Acks
use cds_guard.Prelude.{
  ℕ, zero, suc, ◌+◌, ◌-◌, ◌*◌, ◌/◌, ◌^◌, Bool, true, false, not, ◌&&◌, ◌||◌, List, [], ◌∷◌, ◌++◌,
  Bytes, u32, u64, ltb, leb, ◌==◌, if◌then◌else◌, length, take, drop, min,
}
use cds_guard.GuardL2.Frame.{
  Mac, Packet, Parsed, dropped, overrun, accepted, parse_frame, ack_frame, recv_buffer_size,
  type_start, type_data, type_end,
}

-- An entry of `out_of_order_buffer_`, a map from sequence numbers to payloads.
pub record Entry : Type 0 where
  pub seq : ℕ
  pub payload : Bytes

unfoldable pub contains : ℕ → List Entry → Bool
contains k [] = false
contains k (e ∷ es) = k == e.seq || contains k es

unfoldable pub lookup : ℕ → List Entry → Bytes
lookup k [] = []
lookup k (e ∷ es) = if k == e.seq then e.payload else lookup k es

unfoldable pub erase : ℕ → List Entry → List Entry
erase k [] = []
erase k (e ∷ es) = let rest = erase k es in if k == e.seq then rest else e ∷ rest

-- The local variables of the session, with the members that it changes and the frames it has sent.
pub record Receiver : Type 0 where
  pub recv_buffer : Bytes
  pub reassembled_data : Bytes
  pub current_session_id : ℕ
  pub session_active : Bool
  pub total_data_size : ℕ
  pub total_packets : ℕ
  pub receive_window_base : ℕ
  pub end_packet_received : Bool
  pub out_of_order_buffer : List Entry
  pub sent : List Bytes

-- How a turn of the loop ends: in the next turn, with a result, with an exception of `reserve`, or
-- with an access outside the receive buffer.
pub data Outcome : Type 0 where
  running : Receiver → Outcome
  returned : Bytes → Outcome
  threw outside : Outcome

abbrev pub new_session : Bytes → List Entry → Receiver
new_session recv_buffer out_of_order_buffer = record {
  recv_buffer = recv_buffer;
  reassembled_data = [];
  current_session_id = 0;
  session_active = false;
  total_data_size = 0;
  total_packets = 0;
  receive_window_base = 0;
  end_packet_received = false;
  out_of_order_buffer = out_of_order_buffer;
  sent = [];
}

abbrev pub packets_of : ℕ → ℕ
packets_of total_data_size =
    if total_data_size == 0 then 0 else u32 (u64 (total_data_size + 1400 - 1) / 1400)

unfoldable pub send_ack : Mac → Mac → ℕ → Receiver → Receiver
send_ack my_mac dst_mac seq_num st =
    let ack =
      ack_frame my_mac dst_mac st.current_session_id seq_num (length st.out_of_order_buffer) in
    record st { sent = ack ∷ st.sent }

-- The body of the inner loop, for a sequence number that the map contains.
unfoldable pub take_buffered : Receiver → Receiver
take_buffered st = record st {
  reassembled_data = st.reassembled_data ++ lookup st.receive_window_base st.out_of_order_buffer;
  out_of_order_buffer = erase st.receive_window_base st.out_of_order_buffer;
  receive_window_base = u32 (st.receive_window_base + 1);
}

-- The inner loop; each turn takes an entry out of the map, whose size is therefore enough fuel.
unfoldable pub drain : ℕ → Receiver → Receiver
drain zero st = st
drain (suc fuel) st =
    let rest = drain fuel (take_buffered st) in
    if contains st.receive_window_base st.out_of_order_buffer then rest else st

unfoldable pub deliver : Bytes → Receiver → Receiver
deliver payload st = drain (length st.out_of_order_buffer) (record st {
  reassembled_data = st.reassembled_data ++ payload;
  receive_window_base = u32 (st.receive_window_base + 1);
})

unfoldable pub buffer_packet : ℕ → Bytes → Receiver → Receiver
buffer_packet seq_num payload st =
    if contains seq_num st.out_of_order_buffer then st else record st {
      out_of_order_buffer = record { seq = seq_num; payload = payload } ∷ st.out_of_order_buffer;
    }

-- The test after each packet.
unfoldable pub finish : Receiver → Outcome
finish st =
    if st.session_active
      && (st.end_packet_received && st.receive_window_base == u32 (st.total_packets + 1))
    then if length st.reassembled_data == st.total_data_size
      then returned st.reassembled_data
      else returned []
    else running st

unfoldable pub on_start : ℕ → Mac → Packet → Receiver → Outcome
on_start reserve_limit my_mac p st =
    if not (p.seq_num == 0)
    then finish st
    else if ltb reserve_limit p.total_size
    then threw
    else finish (
        send_ack my_mac p.sender_mac p.seq_num (record {
          recv_buffer = st.recv_buffer;
          reassembled_data = [];
          current_session_id = p.session_id;
          session_active = true;
          total_data_size = p.total_size;
          total_packets = packets_of p.total_size;
          receive_window_base = 1;
          end_packet_received = false;
          out_of_order_buffer = [];
          sent = st.sent;
        }))

unfoldable pub on_data : Mac → Packet → Receiver → Outcome
on_data my_mac p st =
    let acked = send_ack my_mac p.sender_mac p.seq_num st in
    if not st.session_active || not (st.current_session_id == p.session_id)
    then running st
    else if leb st.receive_window_base p.seq_num && ltb p.seq_num (st.receive_window_base + 512)
    then finish (
        if p.seq_num == st.receive_window_base
        then deliver p.payload acked
        else buffer_packet p.seq_num p.payload acked)
    else if ltb p.seq_num st.receive_window_base
    then finish acked
    else finish st

unfoldable pub on_end : Mac → Packet → Receiver → Outcome
on_end my_mac p st =
    if st.session_active
      && (st.current_session_id == p.session_id && p.seq_num == u32 (st.total_packets + 1))
    then finish (record (send_ack my_mac p.sender_mac p.seq_num st) { end_packet_received = true })
    else finish st

unfoldable pub handle : ℕ → Mac → Packet → Receiver → Outcome
handle reserve_limit my_mac p st =
    if p.kind == type_start
    then on_start reserve_limit my_mac p st
    else if p.kind == type_data
    then on_data my_mac p st
    else if p.kind == type_end
    then on_end my_mac p st
    else finish st

unfoldable pub on_parsed : ℕ → Mac → Receiver → Parsed → Outcome
on_parsed reserve_limit my_mac st dropped = running st
on_parsed reserve_limit my_mac st overrun = outside
on_parsed reserve_limit my_mac st (accepted p) = handle reserve_limit my_mac p st

-- What `select` and `recv` report; a failed `recv` leaves the buffer, and its -1 is compared as 2^64 - 1.
pub data Event : Type 0 where
  timed_out select_failed recv_failed : Event
  received : Bytes → Event

abbrev pub overlay : Bytes → Bytes → Bytes
overlay frame buffer =
    take recv_buffer_size frame ++ drop (min recv_buffer_size (length frame)) buffer

unfoldable pub step : ℕ → Mac → Event → Receiver → Outcome
step reserve_limit my_mac timed_out st = returned []
step reserve_limit my_mac select_failed st = returned []
step reserve_limit my_mac recv_failed st =
    on_parsed reserve_limit my_mac st (parse_frame my_mac st.recv_buffer (2 ^ 64 - 1))
step reserve_limit my_mac (received frame) st =
    let buffer = overlay frame st.recv_buffer in
    on_parsed reserve_limit my_mac (record st { recv_buffer = buffer })
      (parse_frame my_mac buffer (min recv_buffer_size (length frame)))

unfoldable pub receive_reliable_data : ℕ → Mac → List Event → Outcome → Outcome
receive_reliable_data reserve_limit my_mac [] o = o
receive_reliable_data reserve_limit my_mac (e ∷ es) (running st) =
    receive_reliable_data reserve_limit my_mac es (step reserve_limit my_mac e st)
receive_reliable_data reserve_limit my_mac (e ∷ es) o = o
