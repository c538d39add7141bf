-- ===== src/GuardL2/Receiver/Session.antt =====
-- A session in which the receiver is sent one piece of data: the state that it is in, and what each
-- packet of the session does to it.
use cds_guard.Prelude.{
  ℕ, zero, suc, ◌+◌, ◌-◌, ◌*◌, ◌/◌, ◌^◌, ◌<◌, ◌≤◌, ◌≡◌, ◌⊎◌, inl, inr, sym, ap, ap₂, ◌∙◌, Bool,
  true, false, not, ◌&&◌, ◌||◌, List, ◌∷◌, ◌++◌, ltb, leb, ◌==◌, ==→≡, if-elim, length, take, drop,
  take_all, take_add, All, u32, Bytes, arith,
}
use mathlib.Core.Path.{subst}
use cds_guard.GuardL2.Frame.{Mac, Packet}
use cds_guard.GuardL2.Receiver.{
  Entry, Receiver, Outcome, running, returned, threw, outside, contains, lookup, packets_of,
  send_ack, take_buffered, drain, deliver, buffer_packet, finish, on_data,
}
use cds_guard.GuardL2.Receiver.Buffer.{lookup-All, erase-All}

-- Packet `k` of the data carries this part of it: `data.subspan((k - 1) * 1400, ...)`.
abbrev pub chunk : Bytes → ℕ → Bytes
chunk bytes k = take 1400 (drop ((k - 1) * 1400) bytes)

abbrev pub count : Bytes → ℕ
count bytes = packets_of (length bytes)

abbrev pub IsChunk : Bytes → ℕ → Bytes → Type 0
IsChunk bytes k payload = (1 ≤ k) × (k ≤ count bytes) × (payload ≡ chunk bytes k)

-- The session's variables when the receiver is in session `sid` and has put together a beginning of
-- the data.
pub record IsProgress (sid : ℕ) (bytes : Bytes) (active : Bool) (id total packets base : ℕ)
    (result : Bytes) (buffer : List Entry) : Type 0 where
  pub is_active : active ≡ true
  pub has_id : id ≡ sid
  pub has_total : total ≡ length bytes
  pub has_packets : packets ≡ count bytes
  pub low : 1 ≤ base
  pub high : base ≤ count bytes + 1
  pub assembled : result ≡ take ((base - 1) * 1400) bytes
  pub buffered : All (λ (e : Entry). IsChunk bytes e.seq e.payload) buffer

abbrev pub IsSession : ℕ → Bytes → Receiver → Type 0
IsSession sid bytes st =
    IsProgress sid bytes st.session_active st.current_session_id st.total_data_size st.total_packets
      st.receive_window_base st.reassembled_data st.out_of_order_buffer

-- The session goes on, with every packet below `m` in place, or the data is returned.
abbrev pub Reaches : ℕ → Bytes → ℕ → Outcome → Type 0
Reaches sid bytes m (running st) = IsSession sid bytes st × (m ≤ st.receive_window_base)
Reaches sid bytes m (returned result) = result ≡ bytes
Reaches sid bytes m threw = ⊥
Reaches sid bytes m outside = ⊥

-- The test of `finish`.
unfoldable pub is_complete : Receiver → Bool
is_complete st =
    st.session_active
    && (st.end_packet_received && st.receive_window_base == u32 (st.total_packets + 1))

-- The most bytes whose packets have sequence numbers of 32 bits, that of END included.
abbrev pub max_bytes : ℕ
max_bytes = 1400 * (2 ^ 32 - 2)

packets_of-ceil : (n : ℕ) → n ≤ max_bytes → packets_of n ≡ (n + 1399) / 1400
packets_of-ceil n h =
    if-elim (λ (p : ℕ). p ≡ (n + 1399) / 1400) (n == 0) (λ t. omega (arith, ==→≡ n 0 t))
      (λ f. omega arith)

module _ (sid : ℕ) (bytes : Bytes) (small : length bytes ≤ max_bytes) where
  count-covers : length bytes ≤ count bytes * 1400
  count-covers = omega (arith, packets_of-ceil (length bytes) small)

  pub count-fits : count bytes + 1 < 2 ^ 32
  count-fits = omega (arith, packets_of-ceil (length bytes) small)

  -- The next packet extends what has been put together.
  extend :
      (base : ℕ)
      → 1 ≤ base
      → take ((base - 1) * 1400) bytes ++ chunk bytes base ≡ take ((base + 1 - 1) * 1400) bytes
  extend base h = take_add ((base - 1) * 1400) 1400 bytes ∙ ap (λ n. take n bytes) (omega arith)

  complete_base :
      (st : Receiver)
      → IsSession sid bytes st
      → is_complete st ≡ true
      → st.receive_window_base ≡ count bytes + 1
  unfolding is_complete
  complete_base st g t =
      ==→≡ st.receive_window_base (u32 (st.total_packets + 1)) (ground arith)
      ∙ omega (arith, g.has_packets, count-fits)

  whole :
      (st : Receiver) → IsSession sid bytes st → is_complete st ≡ true → st.reassembled_data ≡ bytes
  whole st g t =
      g.assembled
      ∙ take_all ((st.receive_window_base - 1) * 1400) bytes
          (omega (arith, count-covers, complete_base st g t))

  pub finish-Reaches :
      (m : ℕ) (st : Receiver)
      → IsSession sid bytes st
      → (is_complete st ≡ false → m ≤ st.receive_window_base)
      → Reaches sid bytes m (finish st)
  unfolding finish is_complete
  finish-Reaches m st g h =
      if-elim (Reaches sid bytes m) (is_complete st)
        (λ t.
          if-elim (Reaches sid bytes m) (length st.reassembled_data == st.total_data_size)
            (λ l. whole st g t)
            (λ l. absurd (ground (arith, ap length (whole st g t), g.has_total))))
        (λ f. (g, h f))

  buffered-IsChunk :
      (st : Receiver)
      → IsSession sid bytes st
      → contains st.receive_window_base st.out_of_order_buffer ≡ true
      → IsChunk bytes st.receive_window_base (lookup st.receive_window_base st.out_of_order_buffer)
  buffered-IsChunk st g c =
      lookup-All (IsChunk bytes) st.receive_window_base st.out_of_order_buffer c g.buffered

  -- The session with the next packet behind what has been put together, and with another map.
  advance :
      (st : Receiver) (payload : Bytes) (buffer : List Entry)
      → IsSession sid bytes st
      → IsChunk bytes st.receive_window_base payload
      → All (λ (e : Entry). IsChunk bytes e.seq e.payload) buffer
      → IsSession sid bytes (record st {
        reassembled_data = st.reassembled_data ++ payload;
        receive_window_base = u32 (st.receive_window_base + 1);
        out_of_order_buffer = buffer;
      })
        × (u32 (st.receive_window_base + 1) ≡ st.receive_window_base + 1)
  advance st payload buffer g c b = (
    record {
      is_active = g.is_active;
      has_id = g.has_id;
      has_total = g.has_total;
      has_packets = g.has_packets;
      low = omega (arith, next);
      high = omega (arith, next, c.1);
      assembled =
          ap₂ ◌++◌ g.assembled c.2
          ∙ extend st.receive_window_base g.low
          ∙ ap (λ n. take ((n - 1) * 1400) bytes) (sym next);
      buffered = b;
    },
    next,
  )
    where
      next : u32 (st.receive_window_base + 1) ≡ st.receive_window_base + 1
      next = omega (arith, g.high, count-fits, c.1)

  add_entry :
      (st : Receiver) (e : Entry)
      → IsSession sid bytes st
      → IsChunk bytes e.seq e.payload
      → IsSession sid bytes (record st { out_of_order_buffer = e ∷ st.out_of_order_buffer })
  add_entry st e g c = record {
    is_active = g.is_active;
    has_id = g.has_id;
    has_total = g.has_total;
    has_packets = g.has_packets;
    low = g.low;
    high = g.high;
    assembled = g.assembled;
    buffered = (c, g.buffered);
  }

  drain-IsSession :
      (m fuel : ℕ) (st : Receiver)
      → IsSession sid bytes st
      → m ≤ st.receive_window_base
      → IsSession sid bytes (drain fuel st) × (m ≤ (drain fuel st).receive_window_base)
  unfolding drain take_buffered
  drain-IsSession m zero st g h = (g, h)
  drain-IsSession m (suc fuel) st g h =
      if-elim (λ (r : Receiver). IsSession sid bytes r × (m ≤ r.receive_window_base))
        (contains st.receive_window_base st.out_of_order_buffer)
        (λ c.
          drain-IsSession m fuel (take_buffered st) (advanced c).0 (omega (arith, (advanced c).1)))
        (λ c. (g, h))
    where
      advanced :
          contains st.receive_window_base st.out_of_order_buffer ≡ true
          → IsSession sid bytes (take_buffered st)
            × (u32 (st.receive_window_base + 1) ≡ st.receive_window_base + 1)
      advanced c = advance st _ _ g (buffered-IsChunk st g c) (
          erase-All (λ (e : Entry). IsChunk bytes e.seq e.payload) st.receive_window_base
            st.out_of_order_buffer g.buffered)

  deliver-IsSession :
      (m : ℕ) (st : Receiver) (payload : Bytes)
      → IsSession sid bytes st
      → IsChunk bytes st.receive_window_base payload
      → m ≤ suc st.receive_window_base
      → IsSession sid bytes (deliver payload st) × (m ≤ (deliver payload st).receive_window_base)
  unfolding deliver
  deliver-IsSession m st payload g c h =
      drain-IsSession m _ _ (advance st payload st.out_of_order_buffer g c g.buffered).0
        (omega (arith, (advance st payload st.out_of_order_buffer g c g.buffered).1))

  -- A packet of the data leaves in place what is there, and is in place when all before it were.
  pub on_data-Reaches :
      (m : ℕ) (my_mac : Mac) (p : Packet) (st : Receiver)
      → IsSession sid bytes st
      → p.session_id ≡ sid
      → IsChunk bytes p.seq_num p.payload
      → m ≤ suc st.receive_window_base
      → (p.seq_num < st.receive_window_base ⊎ st.receive_window_base < p.seq_num
          → m ≤ st.receive_window_base)
      → Reaches sid bytes m (on_data my_mac p st)
  unfolding on_data send_ack buffer_packet
  on_data-Reaches m my_mac p st g hs c h stays =
      if-elim R (not st.session_active || not (st.current_session_id == p.session_id))
        (λ t. absurd (ground (arith, g.is_active, g.has_id)))
        (λ ours.
          if-elim R
            (leb st.receive_window_base p.seq_num && ltb p.seq_num (st.receive_window_base + 512))
            (λ in_window.
              if-elim (λ (r : Receiver). R (finish r)) (p.seq_num == st.receive_window_base)
                (λ next. finished _ (
                  deliver-IsSession m _ p.payload g
                    (subst (λ j. IsChunk bytes j p.payload) (==→≡ _ _ next) c) h))
                (λ later.
                  if-elim (λ (r : Receiver). R (finish r))
                    (contains p.seq_num st.out_of_order_buffer)
                    (λ twice. finished _ (g, stays (inr (ground arith))))
                    (λ new. finished _ (add_entry st _ g c, stays (inr (ground arith))))))
            (λ outside_window.
              if-elim R (ltb p.seq_num st.receive_window_base)
                (λ old. finished _ (g, stays (inl (ground arith))))
                (λ ahead. finished _ (g, stays (inr (ground arith))))))
    where
      R : Outcome → Type 0
      R = Reaches sid bytes m

      finished : (r : Receiver) → IsSession sid bytes r × (m ≤ r.receive_window_base) → R (finish r)
      finished r gh = finish-Reaches m r gh.0 (λ _. gh.1)
