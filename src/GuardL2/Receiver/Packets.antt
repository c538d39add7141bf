-- ===== src/GuardL2/Receiver/Packets.antt =====
-- The packets of one session, and of none, in `handle`.
use cds_guard.Prelude.{
  ℕ, suc, ◌+◌, ◌<◌, ◌≤◌, ◌≢◌, ◌⊎◌, refl, true, not, ◌&&◌, ◌||◌, [], ltb, ◌==◌, ==→≡, if-elim,
  length, u32, Bytes, arith,
}
use cds_guard.GuardL2.Frame.{
  Mac, Packet, Parsed, dropped, overrun, accepted, type_start, type_data, type_end,
}
use cds_guard.GuardL2.Receiver.{
  Receiver, Outcome, send_ack, finish, on_start, on_data, on_end, handle, on_parsed,
}
use cds_guard.GuardL2.Receiver.Session.{
  chunk, count, IsProgress, IsSession, Reaches, is_complete, max_bytes, count-fits, finish-Reaches,
  on_data-Reaches,
}

-- What the sender sends: START, packet `k` of the data, END.
pub data Sent : Type 0 where
  sent_start sent_end : Sent
  sent_chunk : ℕ → Sent

abbrev pub kind_of : Sent → ℕ
kind_of sent_start = type_start
kind_of sent_end = type_end
kind_of (sent_chunk k) = type_data

abbrev pub seq_of : Bytes → Sent → ℕ
seq_of bytes sent_start = 0
seq_of bytes sent_end = count bytes + 1
seq_of bytes (sent_chunk k) = k

abbrev pub payload_of : Bytes → Sent → Bytes
payload_of bytes sent_start = []
payload_of bytes sent_end = []
payload_of bytes (sent_chunk k) = chunk bytes k

abbrev pub packet_of : ℕ → Bytes → Mac → Sent → Packet
packet_of sid bytes sender s = record {
  kind = kind_of s;
  session_id = sid;
  seq_num = seq_of bytes s;
  total_size = length bytes;
  payload = payload_of bytes s;
  sender_mac = sender;
}

abbrev pub IsSent : Bytes → Sent → Type 0
IsSent bytes sent_start = Unit
IsSent bytes sent_end = Unit
IsSent bytes (sent_chunk k) = (1 ≤ k) × (k ≤ count bytes)

-- A frame that is dropped, or a packet of another session that does not start one.
abbrev pub IsStray : ℕ → Parsed → Type 0
IsStray sid dropped = Unit
IsStray sid overrun = ⊥
IsStray sid (accepted p) = (p.kind ≢ type_start) × (p.session_id ≢ sid)

module _ (reserve_limit : ℕ) (my_mac sender : Mac) (sid : ℕ) (bytes : Bytes)
    (small : length bytes ≤ max_bytes) (reservable : length bytes ≤ reserve_limit) where
  kept :
      (m : ℕ) (r : Receiver)
      → IsSession sid bytes r
      → m ≤ r.receive_window_base
      → Reaches sid bytes m (finish r)
  kept m r g h = finish-Reaches sid bytes small m r g (λ _. h)

  -- START begins the session, whatever the state.
  pub start-Reaches :
      (st : Receiver)
      → Reaches sid bytes 1 (handle reserve_limit my_mac (packet_of sid bytes sender sent_start) st)
  unfolding handle on_start send_ack
  start-Reaches st =
      if-elim (Reaches sid bytes 1) (ltb reserve_limit (length bytes)) (λ t. absurd (ground arith))
        (λ f. kept 1 _ fresh one)
    where
      one : 1 ≤ 1
      one = omega arith

      fresh : IsProgress sid bytes true sid (length bytes) (count bytes) 1 [] []
      fresh = record {
        is_active = refl;
        has_id = refl;
        has_total = refl;
        has_packets = refl;
        low = one;
        high = omega arith;
        assembled = refl;
        buffered = tt;
      }

  -- Packet `k` leaves in place what is there, and is in place when all before it were.
  pub chunk-Reaches :
      (m k : ℕ) (st : Receiver)
      → IsSession sid bytes st
      → IsSent bytes (sent_chunk k)
      → m ≤ suc st.receive_window_base
      → (k < st.receive_window_base ⊎ st.receive_window_base < k → m ≤ st.receive_window_base)
      → Reaches sid bytes m
          (handle reserve_limit my_mac (packet_of sid bytes sender (sent_chunk k)) st)
  unfolding handle
  chunk-Reaches m k st g c h stays =
      on_data-Reaches sid bytes small m my_mac (packet_of sid bytes sender (sent_chunk k)) st g refl
        (c.0, c.1, refl) h stays

  -- END leaves in place what is there, and ends the session when all is.
  pub end-Reaches :
      (m : ℕ) (st : Receiver)
      → IsSession sid bytes st
      → (st.receive_window_base ≤ count bytes → m ≤ st.receive_window_base)
      → Reaches sid bytes m (handle reserve_limit my_mac (packet_of sid bytes sender sent_end) st)
  unfolding handle on_end send_ack is_complete
  end-Reaches m st g h =
      if-elim (Reaches sid bytes m)
        (st.session_active
          && (st.current_session_id == sid && count bytes + 1 == u32 (st.total_packets + 1)))
        (λ t.
          finish-Reaches sid bytes small m _ g (λ f.
            ground (arith, g.is_active, g.has_packets, g.high, h, count-fits sid bytes small)))
        (λ f.
          absurd (ground (arith, g.is_active, g.has_id, g.has_packets, count-fits sid bytes small)))

  -- A stray frame changes nothing that is in place.
  pub stray-Reaches :
      (m : ℕ) (parsed : Parsed) (st : Receiver)
      → IsStray sid parsed
      → IsSession sid bytes st
      → m ≤ st.receive_window_base
      → Reaches sid bytes m (on_parsed reserve_limit my_mac st parsed)
  unfolding on_parsed handle on_data on_end
  stray-Reaches m dropped st s g h = (g, h)
  stray-Reaches m overrun st s g h = absurd s
  stray-Reaches m (accepted p) st s g h =
      if-elim R (p.kind == type_start) (λ t. absurd (s.0 (==→≡ _ _ t)))
        (λ _.
          if-elim R (p.kind == type_data)
            (λ _.
              if-elim R (not st.session_active || not (st.current_session_id == p.session_id))
                (λ _. (g, h)) (λ f. absurd (s.1 (ground (arith, g.is_active, g.has_id)))))
            (λ _.
              if-elim R (p.kind == type_end)
                (λ _.
                  if-elim R
                    (st.session_active
                      && (st.current_session_id == p.session_id
                          && p.seq_num == u32 (st.total_packets + 1)))
                    (λ t. absurd (s.1 (ground (arith, g.is_active, g.has_id))))
                    (λ _. kept m st g h))
                (λ _. kept m st g h)))
    where
      R : Outcome → Type 0
      R = Reaches sid bytes m
