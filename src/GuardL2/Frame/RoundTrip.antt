-- ===== src/GuardL2/Frame/RoundTrip.antt =====
-- A frame of the sender is what the receiver makes of it: `build_frame` against the checks of
-- `receive_reliable_data`.
use cds_guard.Prelude.{
  ℕ, ◌+◌, ◌^◌, ◌<◌, ◌≤◌, ◌≡◌, refl, ap, ◌∙◌, true, false, ◌++◌, Bytes, u16, ltb, ◌==◌, ==-self,
  length, take-length_append, arith,
}
use cds_guard.GuardL2.Wire.{
  store16, store32, store64, load16, load32, load64, htons, htonl, htonll, ntohll, ntohs-htons,
  htons-lt, ntohl-htonl, htonl-lt, htonll-lt, ntohll-htonll, load-store16, load-store32,
  load-store64,
}
use cds_guard.GuardL2.Crc.{compute_crc32}
use cds_guard.GuardL2.Frame.{
  Mac, mac_at, mac_eq, Header, header_bytes, checked_bytes, assemble, build_frame, accepted,
  received_bytes, check_crc, parse_frame, ethertype_guard_l2, recv_buffer_size,
}

pub mac_eq_self : (m : Mac) → mac_eq m m ≡ true
unfolding mac_eq
mac_eq_self m =
    simp (==-self m.m0, ==-self m.m1, ==-self m.m2, ==-self m.m3, ==-self m.m4, ==-self m.m5)

compute_crc32-lt : (b : Bytes) → compute_crc32 b < 2 ^ 32
unfolding compute_crc32
compute_crc32-lt b = omega arith

htons_back : (v w : ℕ) → v ≡ htons w → w < 2 ^ 16 → htons v ≡ w
htons_back v w e h = ap htons e ∙ ntohs-htons w h

pub ethertype_back :
    (htons (load16 (store16 (htons ethertype_guard_l2)) 0) == ethertype_guard_l2) ≡ true
unfolding htons
ethertype_back = refl

-- The frame that carries the fields of `h`, with whatever follows it in the buffer.
abbrev pub buffer_of : Mac → Mac → Header → Bytes → Bytes → Bytes
buffer_of dst src h payload rest = assemble dst src h payload ++ rest

module _ (dst src : Mac) (h : Header) (payload rest : Bytes) where
  received_bytes-frame :
      received_bytes (buffer_of dst src h payload rest) (length payload) ≡ checked_bytes h payload
  unfolding received_bytes
  received_bytes-frame = ap (λ (p : Bytes). header_bytes h 0 ++ p) (take-length_append payload rest)

  crc-frame :
      htonl (load32 (buffer_of dst src h payload rest) 35) ≡ compute_crc32 (checked_bytes h payload)
  crc-frame =
      ap htonl (load-store32 (htonl (compute_crc32 (checked_bytes h payload))) (htonl-lt _))
      ∙ ntohl-htonl (compute_crc32 (checked_bytes h payload))
          (compute_crc32-lt (checked_bytes h payload))

  -- The checks pass on a frame whose length field is that of its payload.
  parse_frame-frame :
      (n : ℕ)
      → htons (load16 (store16 h.payload_length) 0) ≡ length payload
      → 39 + length payload ≤ recv_buffer_size
      → 39 + length payload ≤ n
      → parse_frame dst (buffer_of dst src h payload rest) n
        ≡ check_crc (buffer_of dst src h payload rest) (length payload)
  unfolding parse_frame
  parse_frame-frame n hl hb hn = simp (hl, to_me, short, enough, fits, ethertype_back)
    where
      to_me : mac_eq (mac_at (buffer_of dst src h payload rest) 0) dst ≡ true
      to_me = mac_eq_self dst

      short : ltb n 39 ≡ false
      short = ground arith

      enough : ltb n (39 + length payload) ≡ false
      enough = ground arith

      fits : ltb recv_buffer_size (39 + length payload) ≡ false
      fits = ground arith

module _ (src_mac my_mac : Mac) (session_id total_data_size kind seq_num : ℕ)
    (payload rest : Bytes) where
  -- A frame that the sender builds for the receiver's address, with fields that fit their widths and a
  -- payload of at most 2009 bytes, is accepted from a buffer that holds it and anything after it, when
  -- at least as many bytes were received as the frame has; the packet has the sender's fields, address
  -- and payload.
  pub parse_frame-build_frame :
      (n : ℕ)
      → session_id < 2 ^ 32
      → seq_num < 2 ^ 32
      → total_data_size < 2 ^ 64
      → length payload ≤ 2009
      → 39 + length payload ≤ n
      → parse_frame my_mac
          (build_frame src_mac my_mac session_id total_data_size kind seq_num payload ++ rest)
          n
        ≡ accepted (record {
          kind = kind;
          session_id = session_id;
          seq_num = seq_num;
          total_size = total_data_size;
          payload = payload;
          sender_mac = src_mac;
        })
  unfolding build_frame check_crc
  parse_frame-build_frame n hs hq ht hp hn =
      parse_frame-frame my_mac src_mac h payload rest n len_ok (omega arith) hn
      ∙ simp (
        crc-frame my_mac src_mac h payload rest,
        received_bytes-frame my_mac src_mac h payload rest,
        ==-self (compute_crc32 (checked_bytes h payload)),
        sid,
        sq,
        total,
        take-length_append payload rest,
      )
    where
      h : Header
      h = record {
        kind = kind;
        session_id = htonl session_id;
        sequence_number = htonl seq_num;
        total_size = htonll total_data_size;
        payload_length = htons (u16 (length payload));
        receive_window = 0;
      }

      len_ok : htons (load16 (store16 (htons (u16 (length payload)))) 0) ≡ length payload
      len_ok =
          ap htons (load-store16 (htons (u16 (length payload))) (htons-lt _))
          ∙ ntohs-htons (u16 (length payload)) (omega arith)
          ∙ omega arith

      sid : htonl (load32 (store32 (htonl session_id)) 0) ≡ session_id
      sid = ap htonl (load-store32 (htonl session_id) (htonl-lt _)) ∙ ntohl-htonl session_id hs

      sq : htonl (load32 (store32 (htonl seq_num)) 0) ≡ seq_num
      sq = ap htonl (load-store32 (htonl seq_num) (htonl-lt _)) ∙ ntohl-htonl seq_num hq

      total : ntohll (load64 (store64 (htonll total_data_size)) 0) ≡ total_data_size
      total =
          ap ntohll (load-store64 (htonll total_data_size) (htonll-lt _))
          ∙ ntohll-htonll total_data_size ht
