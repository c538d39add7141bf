-- ===== src/GuardL2/Frame.antt =====
-- The frames: an Ethernet header, the packed `GuardL2Header` and the payload. The header is the bytes
-- that the packed structure has in memory, from offset 14 of a frame.
pub mod RoundTrip
use cds_guard.Prelude.{
  ℕ, ◌+◌, ◌-◌, ◌*◌, ◌%◌, ◌^◌, Bool, true, false, not, ◌&&◌, List, [], ◌∷◌, ◌++◌, Bytes, u16, u64,
  ltb, ◌==◌, if◌then◌else◌, length, take, drop,
}
use cds_guard.GuardL2.Wire.{
  store16, store32, store64, load16, load32, load64, htons, htonl, htonll, ntohll,
}
use cds_guard.GuardL2.Crc.{compute_crc32}
use cds_guard.Aria.Block.{at}

abbrev pub ethertype_guard_l2 : ℕ
ethertype_guard_l2 = 0x88B5

-- `GuardL2Header::FrameType`
abbrev pub type_start : ℕ
type_start = 1

abbrev pub type_data : ℕ
type_data = 2

abbrev pub type_ack : ℕ
type_ack = 3

abbrev pub type_end : ℕ
type_end = 4

-- `std::array<uint8_t, 6>`
pub record Mac : Type 0 where
  pub m0 : ℕ
  pub m1 : ℕ
  pub m2 : ℕ
  pub m3 : ℕ
  pub m4 : ℕ
  pub m5 : ℕ

abbrev pub mac_bytes : Mac → Bytes
mac_bytes m = m.m0 ∷ m.m1 ∷ m.m2 ∷ m.m3 ∷ m.m4 ∷ m.m5 ∷ []

abbrev pub mac_at : Bytes → ℕ → Mac
mac_at b o = record {
  m0 = at b o;
  m1 = at b (o + 1);
  m2 = at b (o + 2);
  m3 = at b (o + 3);
  m4 = at b (o + 4);
  m5 = at b (o + 5);
}

-- `std::memcmp(a, b, 6) == 0`
unfoldable pub mac_eq : Mac → Mac → Bool
mac_eq a b =
    a.m0 == b.m0
    && (a.m1 == b.m1 && (a.m2 == b.m2 && (a.m3 == b.m3 && (a.m4 == b.m4 && a.m5 == b.m5))))

abbrev pub ether_header : Mac → Mac → Bytes
ether_header dst src = mac_bytes dst ++ (mac_bytes src ++ store16 (htons ethertype_guard_l2))

-- The fields of `GuardL2Header`, as they stand in memory.
pub record Header : Type 0 where
  pub kind : ℕ
  pub session_id : ℕ
  pub sequence_number : ℕ
  pub total_size : ℕ
  pub payload_length : ℕ
  pub receive_window : ℕ

abbrev pub header_bytes : Header → ℕ → Bytes
header_bytes h crc32 =
    (h.kind ∷ [])
    ++ (store32 h.session_id
        ++ (store32 h.sequence_number
            ++ (store64 h.total_size
                ++ (store16 h.payload_length ++ (store16 h.receive_window ++ store32 crc32)))))

-- The bytes that the checksum covers: the header with the checksum's field 0, and the payload.
abbrev pub checked_bytes : Header → Bytes → Bytes
checked_bytes h payload = header_bytes h 0 ++ payload

abbrev pub assemble : Mac → Mac → Header → Bytes → Bytes
assemble dst src h payload =
    ether_header dst src
    ++ (header_bytes h (htonl (compute_crc32 (checked_bytes h payload))) ++ payload)

-- `GuardL2Sender::build_frame`; the last three fields of the sender are its arguments.
unfoldable pub build_frame : Mac → Mac → ℕ → ℕ → ℕ → ℕ → Bytes → Bytes
build_frame src_mac dst_mac session_id total_data_size kind seq_num payload =
    let h : Header = record {
      kind = kind;
      session_id = htonl session_id;
      sequence_number = htonl seq_num;
      total_size = htonll total_data_size;
      payload_length = htons (u16 (length payload));
      receive_window = 0;
    } in
    assemble dst_mac src_mac h payload

-- `GuardL2Receiver::send_ack`: the frame that it sends, with `used_buffer_slots` slots in use.
unfoldable pub ack_frame : Mac → Mac → ℕ → ℕ → ℕ → Bytes
ack_frame my_mac dst_mac session_id seq_num used_buffer_slots =
    let available_window = if ltb used_buffer_slots 512 then 512 - used_buffer_slots else 0 in
    let h : Header = record {
      kind = type_ack;
      session_id = htonl session_id;
      sequence_number = htonl seq_num;
      total_size = 0;
      payload_length = 0;
      receive_window = htons available_window;
    } in
    assemble dst_mac my_mac h []

pub record Packet : Type 0 where
  pub kind : ℕ
  pub session_id : ℕ
  pub seq_num : ℕ
  pub total_size : ℕ
  pub payload : Bytes
  pub sender_mac : Mac

-- What the receiver makes of the bytes that it has read: it drops them, reads past its buffer
-- (`overrun`), or goes on with a packet.
pub data Parsed : Type 0 where
  dropped overrun : Parsed
  accepted : Packet → Parsed

abbrev pub recv_buffer_size : ℕ
recv_buffer_size = 2048

-- The bytes of the buffer that the checksum covers.
unfoldable pub received_bytes : Bytes → ℕ → Bytes
received_bytes buffer payload_len =
    take 21 (drop 14 buffer) ++ (store32 0 ++ take payload_len (drop 39 buffer))

unfoldable pub check_crc : Bytes → ℕ → Parsed
check_crc buffer payload_len =
    if htonl (load32 buffer 35) == compute_crc32 (received_bytes buffer payload_len)
    then accepted (record {
      kind = at buffer 14;
      session_id = htonl (load32 buffer 15);
      seq_num = htonl (load32 buffer 19);
      total_size = ntohll (load64 buffer 23);
      payload = take payload_len (drop 39 buffer);
      sender_mac = mac_at buffer 6;
    })
    else dropped

-- The checks of `receive_reliable_data` on `bytes_received` bytes in the buffer.
unfoldable pub parse_frame : Mac → Bytes → ℕ → Parsed
parse_frame my_mac buffer bytes_received =
    let payload_len = htons (load16 buffer 31) in
    if ltb bytes_received 39
    then dropped
    else if not (mac_eq (mac_at buffer 0) my_mac)
    then dropped
    else if not (htons (load16 buffer 12) == ethertype_guard_l2)
    then dropped
    else if ltb bytes_received (39 + payload_len)
    then dropped
    else if ltb recv_buffer_size (39 + payload_len)
    then overrun
    else check_crc buffer payload_len
