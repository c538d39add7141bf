-- ===== src/GuardL2/Receiver/Transfer.antt =====
-- A whole transfer: the frames of the sender's `build_frame`, with duplicates, losses and stray
-- frames, through the loop of `receive_reliable_data`.
use cds_guard.Prelude.{
  ℕ, zero, suc, ◌+◌, ◌-◌, ◌*◌, ◌^◌, ◌<◌, ◌≤◌, ◌≡◌, ◌⊎◌, inl, inr, refl, ap, List, [], ◌∷◌, ◌++◌,
  length, take, All, Bytes, arith,
}
use cds_guard.GuardL2.Frame.{Mac}
use cds_guard.GuardL2.Receiver.{
  Receiver, Outcome, running, returned, threw, outside, step, receive_reliable_data,
}
use cds_guard.GuardL2.Receiver.Session.{count, IsSession, Reaches, max_bytes}
use cds_guard.GuardL2.Receiver.Arrivals.{
  Arrival, sent, stray, event_of, events_of, Arrives, in_order,
}
use cds_guard.GuardL2.Receiver.Packets.{
  sent_start, sent_end, sent_chunk, start-Reaches, chunk-Reaches, end-Reaches, stray-Reaches,
}
use cds_guard.GuardL2.Receiver.Handed.{step-sent}

module _ (reserve_limit : ℕ) (my_mac sender : Mac) (sid : ℕ) (bytes : Bytes)
    (sid_fits : sid < 2 ^ 32) (small : length bytes ≤ max_bytes)
    (reservable : length bytes ≤ reserve_limit) where
  pub keeps :
      (a : Arrival) (st : Receiver)
      → Arrives my_mac sender sid bytes a
      → IsSession sid bytes st
      → Reaches sid bytes 1 (step reserve_limit my_mac (event_of my_mac sender sid bytes a) st)
  unfolding step
  keeps (sent sent_start padding) st h g =
      step-sent reserve_limit my_mac sender sid bytes sid_fits small reservable
        (Reaches sid bytes 1) sent_start padding st h.0 h.1
        (λ buffer. start-Reaches reserve_limit my_mac sender sid bytes small reservable _)
  keeps (sent sent_end padding) st h g =
      step-sent reserve_limit my_mac sender sid bytes sid_fits small reservable
        (Reaches sid bytes 1) sent_end padding st h.0 h.1
        (λ buffer.
          end-Reaches reserve_limit my_mac sender sid bytes small reservable 1 _ g (λ _. g.low))
  keeps (sent (sent_chunk k) padding) st h g =
      step-sent reserve_limit my_mac sender sid bytes sid_fits small reservable
        (Reaches sid bytes 1) (sent_chunk k) padding st h.0 h.1
        (λ buffer.
          chunk-Reaches reserve_limit my_mac sender sid bytes small reservable 1 k _ g h.0
            (omega (arith, g.low)) (λ _. g.low))
  keeps (stray frame) st h g =
      stray-Reaches reserve_limit my_mac sender sid bytes small reservable 1 _ _ (h st.recv_buffer)
        g g.low

  receive-keeps :
      (arrivals : List Arrival) (o : Outcome)
      → All (Arrives my_mac sender sid bytes) arrivals
      → Reaches sid bytes 1 o
      → Reaches sid bytes 1 (
          receive_reliable_data reserve_limit my_mac (events_of my_mac sender sid bytes arrivals) o)
  unfolding receive_reliable_data
  receive-keeps [] o h r = r
  receive-keeps (a ∷ more) (running st) h r =
      receive-keeps more (step reserve_limit my_mac (event_of my_mac sender sid bytes a) st) h.1
        (keeps a st h.0 r.0)
  receive-keeps (a ∷ more) (returned b) h r = r
  receive-keeps (a ∷ more) threw h r = absurd r
  receive-keeps (a ∷ more) outside h r = absurd r

  all_in_place : (o : Outcome) → Reaches sid bytes (count bytes + 2) o → o ≡ returned bytes
  all_in_place (running st) r = absurd (omega (arith, r.0.high, r.1))
  all_in_place (returned b) r = ap returned r
  all_in_place threw r = absurd r
  all_in_place outside r = absurd r

  in_order-returns :
      (padding : ℕ → Bytes) (n k : ℕ) (o : Outcome)
      → ((j : ℕ) → length (padding j) ≤ 21)
      → 1 ≤ k
      → k + n ≡ count bytes + 1
      → Reaches sid bytes k o
      → receive_reliable_data reserve_limit my_mac
          (events_of my_mac sender sid bytes (in_order my_mac sender sid bytes padding n k))
          o
        ≡ returned bytes
  unfolding receive_reliable_data
  in_order-returns padding zero k (running st) hp low e r = all_in_place _ (
      step-sent reserve_limit my_mac sender sid bytes sid_fits small reservable
        (Reaches sid bytes (count bytes + 2)) sent_end (padding k) st tt (hp k)
        (λ buffer.
          end-Reaches reserve_limit my_mac sender sid bytes small reservable (count bytes + 2) _ r.0
            (λ behind. absurd (omega (arith, r.1, e)))))
  in_order-returns padding (suc n) k (running st) hp low e r =
      in_order-returns padding n (suc k) _ hp (omega arith) (omega (arith, e)) (
        step-sent reserve_limit my_mac sender sid bytes sid_fits small reservable
          (Reaches sid bytes (suc k)) (sent_chunk k) (padding k) st (low, omega (arith, e)) (hp k)
          (λ buffer.
            chunk-Reaches reserve_limit my_mac sender sid bytes small reservable (suc k) k _ r.0
              (low, omega (arith, e)) (omega (arith, r.1)) (λ apart. omega (arith, apart, r.1))))
  in_order-returns padding zero k (returned b) hp low e r = ap returned r
  in_order-returns padding (suc n) k (returned b) hp low e r = ap returned r
  in_order-returns padding zero k threw hp low e r = absurd r
  in_order-returns padding (suc n) k threw hp low e r = absurd r
  in_order-returns padding zero k outside hp low e r = absurd r
  in_order-returns padding (suc n) k outside hp low e r = absurd r

  then_in_order :
      (padding : ℕ → Bytes) (arrivals : List Arrival) (o : Outcome)
      → ((j : ℕ) → length (padding j) ≤ 21)
      → All (Arrives my_mac sender sid bytes) arrivals
      → Reaches sid bytes 1 o
      → receive_reliable_data reserve_limit my_mac
          (events_of my_mac sender sid bytes
            (arrivals ++ in_order my_mac sender sid bytes padding (count bytes) 1))
          o
        ≡ returned bytes
  unfolding receive_reliable_data
  then_in_order padding [] o hp h r =
      in_order-returns padding (count bytes) 1 o hp (omega arith) (omega arith) r
  then_in_order padding (a ∷ more) (running st) hp h r =
      then_in_order padding more _ hp h.1 (keeps a st h.0 r.0)
  then_in_order padding (a ∷ more) (returned b) hp h r = ap returned r
  then_in_order padding (a ∷ more) threw hp h r = absurd r
  then_in_order padding (a ∷ more) outside hp h r = absurd r

  pub started :
      (padding : Bytes) (st : Receiver)
      → length padding ≤ 21
      → Reaches sid bytes 1 (
          step reserve_limit my_mac (event_of my_mac sender sid bytes (sent sent_start padding)) st)
  started padding st hp =
      step-sent reserve_limit my_mac sender sid bytes sid_fits small reservable
        (Reaches sid bytes 1) sent_start padding st tt hp
        (λ buffer. start-Reaches reserve_limit my_mac sender sid bytes small reservable _)

  -- From any state of the receiver, after START of a session and any frames of it (in any order, with
  -- any losses and repetitions, a START again included) and stray frames (ones that are dropped, or
  -- packets of another session that start none), sending every packet once more in order and then END
  -- makes the receiver return the data. The session's id has 32 bits, the data at most
  -- 1400 * (2^32 - 2) bytes, all of which can be reserved, and padding at most 21 bytes.
  pub receive_reliable_data-completes :
      (first : Bytes) (padding : ℕ → Bytes) (arrivals : List Arrival) (st : Receiver)
      → length first ≤ 21
      → ((j : ℕ) → length (padding j) ≤ 21)
      → All (Arrives my_mac sender sid bytes) arrivals
      → receive_reliable_data reserve_limit my_mac
          (events_of my_mac sender sid bytes (
            sent sent_start first
            ∷ (arrivals ++ in_order my_mac sender sid bytes padding (count bytes) 1)))
          (running st)
        ≡ returned bytes
  unfolding receive_reliable_data
  receive_reliable_data-completes first padding arrivals st hf hp h =
      then_in_order padding arrivals _ hp h (started first st hf)

  -- From any state of the receiver, after START of a session and any frames of it (in any order, with
  -- any losses and repetitions) and stray frames (ones that are dropped, or packets of another session
  -- that start none), either the receiver has returned exactly the data, or it is still in the session
  -- and what it has put together is the data up to a packet's end. The session's id has 32 bits, the
  -- data at most 1400 * (2^32 - 2) bytes, all of which can be reserved, and padding at most 21 bytes.
  pub receive_reliable_data-safe :
      (first : Bytes) (arrivals : List Arrival) (st : Receiver)
      → length first ≤ 21
      → All (Arrives my_mac sender sid bytes) arrivals
      → (receive_reliable_data reserve_limit my_mac
            (events_of my_mac sender sid bytes (sent sent_start first ∷ arrivals))
            (running st)
          ≡ returned bytes)
        ⊎ ((now : Receiver) × (receive_reliable_data reserve_limit my_mac
                (events_of my_mac sender sid bytes (sent sent_start first ∷ arrivals))
                (running st)
              ≡ running now)
            × (now.current_session_id ≡ sid)
            × (now.reassembled_data ≡ take ((now.receive_window_base - 1) * 1400) bytes))
  unfolding receive_reliable_data
  receive_reliable_data-safe first arrivals st hf h =
      outcome _ (receive-keeps arrivals _ h (started first st hf))
    where
      outcome :
          (o : Outcome)
          → Reaches sid bytes 1 o
          → (o ≡ returned bytes)
            ⊎ ((now : Receiver) × (o ≡ running now)
                × (now.current_session_id ≡ sid)
                × (now.reassembled_data ≡ take ((now.receive_window_base - 1) * 1400) bytes))
      outcome (running now) r = inr (now, refl, r.0.has_id, r.0.assembled)
      outcome (returned b) r = inl (ap returned r)
      outcome threw r = absurd r
      outcome outside r = absurd r
