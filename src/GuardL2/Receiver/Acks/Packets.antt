-- ===== src/GuardL2/Receiver/Acks/Packets.antt =====
-- The packets of a session, and stray ones, keep the invariant of the acknowledgements.
use cds_guard.Prelude.{
  ℕ, ◌+◌, ◌^◌, ◌<◌, ◌≤◌, ◌≡◌, refl, sym, true, false, not, ◌&&◌, ◌||◌, some, List, [], ◌∷◌, ◌++◌,
  ltb, leb, ◌==◌, ==→≡, if-elim, length, All, u32, Bytes, arith,
}
use mathlib.Core.Path.{subst}
use cds_guard.GuardL2.Frame.{
  Mac, Parsed, dropped, overrun, accepted, ack_frame, type_start, type_data, type_end,
}
use cds_guard.GuardL2.Receiver.{
  Entry, Receiver, Outcome, contains, deliver, buffer_packet, send_ack, finish, on_start, on_data,
  on_end, handle, on_parsed,
}
use cds_guard.GuardL2.Receiver.Session.{count, IsSession, max_bytes, count-fits}
use cds_guard.GuardL2.Receiver.Packets.{
  sent_start, sent_end, sent_chunk, packet_of, IsSent, IsStray,
}
use cds_guard.GuardL2.Receiver.Acks.{has}
use cds_guard.GuardL2.Receiver.Acks.Session.{
  Tells, IsFair, Fair, Grows, ack-Tells, finish-Fair, acked-Fair, same-Fair, deliver-Fair, sent_ack,
}
use cds_guard.GuardL2.Sender.Acks.{parse_ack}

-- What was acknowledged before is START.
abbrev pub IsEarlier : Mac → ℕ → Bytes → Type 0
IsEarlier sender sid f =
    (rest : Bytes) (n k advertised : ℕ)
    → parse_ack sender sid (f ++ rest) n ≡ some (k, advertised)
    → k ≡ 0

module _ (my_mac sender : Mac) (sid : ℕ) (bytes : Bytes) (sid_fits : sid < 2 ^ 32)
    (small : length bytes ≤ max_bytes) where
  abbrev Good : Outcome → Type 0
  Good = Fair sender sid bytes

  abbrev GoodState : Receiver → Type 0
  GoodState = IsFair sender sid bytes

  fits : count bytes + 1 < 2 ^ 32
  fits = count-fits sid bytes small

  contains_head : (e : Entry) (es : List Entry) → contains e.seq (e ∷ es) ≡ true
  unfolding contains
  contains_head e es = ground arith

  contains_tail :
      (k : ℕ) (e : Entry) (es : List Entry) → contains k es ≡ true → contains k (e ∷ es) ≡ true
  unfolding contains
  contains_tail k e es h = ground arith

  contains_other :
      (k : ℕ) (e : Entry) (es : List Entry)
      → (k == e.seq) ≡ false
      → contains k es ≡ false
      → contains k (e ∷ es) ≡ false
  unfolding contains
  contains_other k e es n h = ground arith

  -- Packet `k`.
  pub data-Fair :
      (k : ℕ) (st : Receiver)
      → IsSent bytes (sent_chunk k)
      → IsSession sid bytes st
      → GoodState st
      → Good (on_data my_mac (packet_of sid bytes sender (sent_chunk k)) st)
  unfolding on_data send_ack buffer_packet
  data-Fair k st s g v =
      if-elim Good (not st.session_active || not (st.current_session_id == sid)) (λ t. v)
        (λ ours.
          if-elim Good (leb st.receive_window_base k && ltb k (st.receive_window_base + 512))
            (λ in_window.
              if-elim (λ (r : Receiver). Good (finish r)) (k == st.receive_window_base)
                (λ next.
                  subst (λ j. Good (finish (deliver entry.payload (acked j))))
                    (sym (==→≡ k st.receive_window_base next))
                    (deliver-Fair my_mac sender sid bytes sid_fits small st entry.payload
                      st.current_session_id (length st.out_of_order_buffer) g.has_id g
                      (subst (λ j. j ≤ count bytes) (==→≡ k st.receive_window_base next) s.1) v))
                (λ later.
                  if-elim (λ (r : Receiver). Good (finish r)) (contains k st.out_of_order_buffer)
                    (λ twice. kept _ (λ j h. h) (ground arith) v.gap)
                    (λ new.
                      kept _ (λ j h. ground (arith, contains_tail j entry st.out_of_order_buffer))
                        (ground (arith, contains_head entry st.out_of_order_buffer))
                        (contains_other st.receive_window_base entry st.out_of_order_buffer
                          (ground arith) v.gap))))
            (λ outside_window.
              if-elim Good (ltb k st.receive_window_base)
                (λ old. kept _ (λ j h. h) (ground arith) v.gap)
                (λ ahead. same-Fair my_mac sender sid bytes sid_fits small st v)))
    where
      entry : Entry
      entry = record { seq = k; payload = (packet_of sid bytes sender (sent_chunk k)).payload }

      acked : ℕ → Receiver
      acked j = record st {
        sent =
            ack_frame my_mac sender st.current_session_id j (length st.out_of_order_buffer)
            ∷ st.sent;
      }

      kept :
          (buffer : List Entry)
          → Grows bytes st (record st { out_of_order_buffer = buffer })
          → has bytes k (record st { out_of_order_buffer = buffer }) ≡ true
          → contains st.receive_window_base buffer ≡ false
          → Good (
              finish (record st {
                out_of_order_buffer = buffer;
                sent =
                    ack_frame my_mac sender st.current_session_id k (length st.out_of_order_buffer)
                    ∷ st.sent;
              }))
      kept buffer grows there gap =
          acked-Fair my_mac sender sid bytes sid_fits small st _ k (length st.out_of_order_buffer) v
            (omega (arith, s.1, fits))
            (sent_ack my_mac sender sid bytes sid_fits small k (length st.out_of_order_buffer) st
              g.has_id)
            grows there gap

  -- END.
  pub end-Fair :
      (st : Receiver)
      → IsSession sid bytes st
      → GoodState st
      → Good (on_end my_mac (packet_of sid bytes sender sent_end) st)
  unfolding on_end send_ack
  end-Fair st g v =
      if-elim Good
        (st.session_active
          && (st.current_session_id == sid && count bytes + 1 == u32 (st.total_packets + 1)))
        (λ t.
          acked-Fair my_mac sender sid bytes sid_fits small st _ (count bytes + 1)
            (length st.out_of_order_buffer) v fits
            (sent_ack my_mac sender sid bytes sid_fits small (count bytes + 1)
              (length st.out_of_order_buffer) st g.has_id)
            (λ k h. ground arith) (ground arith) v.gap)
        (λ f. same-Fair my_mac sender sid bytes sid_fits small st v)

  earlier-Tells :
      (now : Receiver) (fs : List Bytes)
      → All (IsEarlier sender sid) fs
      → All (Tells sender sid bytes now) fs
  earlier-Tells now [] e = tt
  earlier-Tells now (f ∷ fs) e =
      ((λ rest n k w q. zero_has k (e.0 rest n k w q)), earlier-Tells now fs e.1)
    where
      zero_has : (k : ℕ) → k ≡ 0 → has bytes k now ≡ true
      zero_has k z = ground arith

  fresh-Fair :
      (now : Receiver) (fs : List Bytes)
      → contains now.receive_window_base now.out_of_order_buffer ≡ false
      → now.sent ≡ ack_frame my_mac sender sid 0 0 ∷ fs
      → All (IsEarlier sender sid) fs
      → Good (finish now)
  fresh-Fair now fs gap e h = finish-Fair my_mac sender sid bytes sid_fits small now (λ c. record {
    gap = gap;
    tells = subst (All (Tells sender sid bytes now)) (sym e) (
      ack-Tells my_mac sender sid bytes sid_fits small 0 0 now (omega arith) refl,
      earlier-Tells now fs h,
    );
    going = c;
  })

  -- START, whatever the state.
  pub start-Fair :
      (reserve_limit : ℕ) (st : Receiver)
      → All (IsEarlier sender sid) st.sent
      → Good (on_start reserve_limit my_mac (packet_of sid bytes sender sent_start) st)
  unfolding on_start send_ack contains
  start-Fair reserve_limit st h =
      if-elim Good (ltb reserve_limit (length bytes)) (λ t. tt)
        (λ f. fresh-Fair _ st.sent refl refl h)

  -- Stray frames.
  pub stray-Fair :
      (reserve_limit : ℕ) (parsed : Parsed) (st : Receiver)
      → IsStray sid parsed
      → IsSession sid bytes st
      → GoodState st
      → Good (on_parsed reserve_limit my_mac st parsed)
  unfolding on_parsed handle on_data on_end
  stray-Fair reserve_limit dropped st s g v = v
  stray-Fair reserve_limit overrun st s g v = tt
  stray-Fair reserve_limit (accepted p) st s g v =
      if-elim Good (p.kind == type_start) (λ t. absurd (s.0 (==→≡ _ _ t)))
        (λ _.
          if-elim Good (p.kind == type_data)
            (λ _.
              if-elim Good (not st.session_active || not (st.current_session_id == p.session_id))
                (λ _. v) (λ f. absurd (s.1 (ground (arith, g.is_active, g.has_id)))))
            (λ _.
              if-elim Good (p.kind == type_end)
                (λ _.
                  if-elim Good
                    (st.session_active
                      && (st.current_session_id == p.session_id
                          && p.seq_num == u32 (st.total_packets + 1)))
                    (λ t. absurd (s.1 (ground (arith, g.is_active, g.has_id)))) (λ _. same))
                (λ _. same)))
    where
      same : Good (finish st)
      same = same-Fair my_mac sender sid bytes sid_fits small st v
