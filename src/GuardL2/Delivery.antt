-- ===== src/GuardL2/Delivery.antt =====
-- The sender's `send_reliable_data` and the receiver's `receive_reliable_data` together: what the
-- listener hears of the session are acknowledgements that the receiver has sent.
use cds_guard.Prelude.{
  ℕ, ◌+◌, ◌^◌, ◌<◌, ◌≤◌, ◌≡◌, ◌≢◌, refl, sym, ap, true, some, List, [], ◌∷◌, ◌++◌, length, min, All,
  Bytes, arith,
}
use mathlib.Core.Path.{subst}
use mathlib.Core.List.{Memᴰ}
use cds_guard.GuardL2.Frame.{Mac, parse_frame, recv_buffer_size}
use cds_guard.GuardL2.Receiver.{
  Receiver, Outcome, running, returned, threw, outside, handle, overlay, step,
  receive_reliable_data,
}
use cds_guard.GuardL2.Receiver.Session.{
  count, is_complete, IsSession, Reaches, max_bytes, count-fits,
}
use cds_guard.GuardL2.Receiver.Packets.{sent_start, sent_end, sent_chunk}
use cds_guard.GuardL2.Receiver.Arrivals.{Arrival, sent, stray, event_of, events_of, Arrives}
use cds_guard.GuardL2.Receiver.Handed.{step-sent}
use cds_guard.GuardL2.Receiver.Transfer.{keeps, started}
use cds_guard.GuardL2.Receiver.Acks.{has, contains-le}
use cds_guard.GuardL2.Receiver.Acks.Session.{Tells, IsFair, Fair, small_entries}
use cds_guard.GuardL2.Receiver.Acks.Packets.{IsEarlier, start-Fair, data-Fair, end-Fair, stray-Fair}
use cds_guard.GuardL2.Sender.Acks.{parse_ack}
use cds_guard.GuardL2.Sender.Rtt.{Rtt}
use cds_guard.GuardL2.Transfer.{finished, Action, hears, turns, run, start}
use cds_guard.GuardL2.Transfer.Invariant.Turns.{Hears}
use cds_guard.GuardL2.Transfer.Completion.{run-finished}

-- Any frame but a START.
abbrev pub IsLater : Arrival → Type 0
IsLater (sent s padding) = s ≢ sent_start
IsLater (stray frame) = Unit

-- What the listener takes for an acknowledgement of the session is a frame that the receiver has sent,
-- with whatever follows it in the listener's buffer.
abbrev pub IsHeard : Mac → ℕ → List Bytes → Action → Type 0
IsHeard sender sid frames (hears now buffer n) =
    (seq advertised : ℕ)
    → parse_ack sender sid buffer n ≡ some (seq, advertised)
    → (f : Bytes) × (rest : Bytes) × Memᴰ f frames × (buffer ≡ f ++ rest)
IsHeard sender sid frames (turns now clock) = Unit

module _ (reserve_limit : ℕ) (my_mac sender : Mac) (sid : ℕ) (bytes : Bytes)
    (sid_fits : sid < 2 ^ 32) (small : length bytes ≤ max_bytes)
    (reservable : length bytes ≤ reserve_limit) where
  abbrev Good : Outcome → Type 0
  Good = Fair sender sid bytes

  abbrev GoodState : Receiver → Type 0
  GoodState = IsFair sender sid bytes

  in_buffer :
      (st : Receiver) (buffer : Bytes)
      → GoodState st
      → GoodState (record st { recv_buffer = buffer })
  unfolding is_complete
  in_buffer st buffer v = record { gap = v.gap; tells = v.tells; going = v.going }

  keeps-Fair :
      (a : Arrival) (st : Receiver)
      → IsLater a
      → Arrives my_mac sender sid bytes a
      → IsSession sid bytes st
      → GoodState st
      → Good (step reserve_limit my_mac (event_of my_mac sender sid bytes a) st)
  unfolding step handle
  keeps-Fair (sent sent_start padding) st l h g v = absurd (l refl)
  keeps-Fair (sent sent_end padding) st l h g v =
      step-sent reserve_limit my_mac sender sid bytes sid_fits small reservable Good sent_end
        padding st h.0 h.1
        (λ buffer. end-Fair my_mac sender sid bytes sid_fits small _ g (in_buffer st buffer v))
  keeps-Fair (sent (sent_chunk k) padding) st l h g v =
      step-sent reserve_limit my_mac sender sid bytes sid_fits small reservable Good (sent_chunk k)
        padding st h.0 h.1
        (λ buffer.
          data-Fair my_mac sender sid bytes sid_fits small k _ h.0 g (in_buffer st buffer v))
  keeps-Fair (stray frame) st l h g v =
      stray-Fair my_mac sender sid bytes sid_fits small reserve_limit
        (parse_frame my_mac (overlay frame st.recv_buffer) (min recv_buffer_size (length frame)))
        (record st { recv_buffer = overlay frame st.recv_buffer }) (h st.recv_buffer) g
        (in_buffer st _ v)

  receive-Fair :
      (arrivals : List Arrival) (o : Outcome)
      → All IsLater arrivals
      → All (Arrives my_mac sender sid bytes) arrivals
      → Reaches sid bytes 1 o
      → Good o
      → let last =
          receive_reliable_data reserve_limit my_mac
            (events_of my_mac sender sid bytes arrivals)
            o in
        Reaches sid bytes 1 last × Good last
  unfolding receive_reliable_data
  receive-Fair [] o l h r v = (r, v)
  receive-Fair (a ∷ more) (running st) l h r v =
      receive-Fair more (step reserve_limit my_mac (event_of my_mac sender sid bytes a) st) l.1 h.1
        (keeps reserve_limit my_mac sender sid bytes sid_fits small reservable a st h.0 r.0)
        (keeps-Fair a st l.0 h.0 r.0 v)
  receive-Fair (a ∷ more) (returned b) l h r v = (r, v)
  receive-Fair (a ∷ more) threw l h r v = absurd r
  receive-Fair (a ∷ more) outside l h r v = absurd r

  started-Fair :
      (padding : Bytes) (st : Receiver)
      → length padding ≤ 21
      → All (IsEarlier sender sid) st.sent
      → Good (
          step reserve_limit my_mac (event_of my_mac sender sid bytes (sent sent_start padding)) st)
  unfolding handle
  started-Fair padding st hp h =
      step-sent reserve_limit my_mac sender sid bytes sid_fits small reservable Good sent_start
        padding st tt hp
        (λ buffer. start-Fair my_mac sender sid bytes sid_fits small reserve_limit _ h)

  -- A receiver that still runs has not all numbers.
  not_all :
      (st : Receiver)
      → IsSession sid bytes st
      → GoodState st
      → ((k : ℕ) → k ≤ count bytes + 1 → has bytes k st ≡ true)
      → ⊥
  unfolding is_complete
  not_all st g v all = ground (
    arith,
    all st.receive_window_base,
    all (count bytes + 1),
    contains-le (count bytes) (count bytes + 1) st.out_of_order_buffer
        (small_entries my_mac sender sid bytes sid_fits small st.out_of_order_buffer g.buffered),
    count-fits sid bytes small,
  )

  told :
      (st : Receiver) (f : Bytes) (fs : List Bytes)
      → All (Tells sender sid bytes st) fs
      → Memᴰ f fs
      → Tells sender sid bytes st f
  told st f [] h m = elim m [ ]
  told st f (g ∷ fs) h (Memᴰ.head e) = subst (Tells sender sid bytes st) (sym e) h.0
  told st f (g ∷ fs) h (Memᴰ.tail m) = told st f fs h.1 m

  heard-Hears :
      (st : Receiver) (actions : List Action)
      → GoodState st
      → All (IsHeard sender sid st.sent) actions
      → All (Hears sender sid (λ k. has bytes k st ≡ true)) actions
  heard-Hears st [] v h = tt
  heard-Hears st (turns now clock ∷ more) v h = (tt, heard-Hears st more v h.1)
  heard-Hears st (hears now buffer n ∷ more) v h = (
    λ seq w e.
        let (f, rest, m, b) = h.0 seq w e in
        told st f st.sent v.tells m rest n seq w
          (subst (λ x. parse_ack sender sid x n ≡ some (seq, w)) b e),
    heard-Hears st more v h.1,
  )

  -- For a session of 32 bits and data of at most 1400 * (2 ^ 32 - 2) bytes that the receiver can reserve,
  -- with padding of at most 21 bytes, and a receiver that has sent nothing that the listener reads as an
  -- acknowledgement of this session: let the receiver get START and then any frames of the session but START, in any order and with any
  -- losses and repetitions, and stray frames, let the sender run with any interleaving of its threads and
  -- any times, and let the acknowledgements that its listener takes be ones that the receiver has sent.
  -- When `send_reliable_data` has returned true, `receive_reliable_data` has returned the data.
  pub delivered :
      (first : Bytes) (arrivals : List Arrival) (st : Receiver) (now : ℕ) (rtt : Rtt)
      (actions : List Action)
      → length first ≤ 21
      → All IsLater arrivals
      → All (Arrives my_mac sender sid bytes) arrivals
      → All (IsEarlier sender sid) st.sent
      → ((last : Receiver)
          → receive_reliable_data reserve_limit my_mac
              (events_of my_mac sender sid bytes (sent sent_start first ∷ arrivals))
              (running st)
            ≡ running last
          → All (IsHeard sender sid last.sent) actions)
      → (run sender my_mac sid bytes actions (start sender my_mac sid bytes now rtt)).phase
        ≡ finished true
      → receive_reliable_data reserve_limit my_mac
          (events_of my_mac sender sid bytes (sent sent_start first ∷ arrivals))
          (running st)
        ≡ returned bytes
  unfolding receive_reliable_data
  delivered first arrivals st now rtt actions hf later h earlier heard done = outcome _ refl (
      receive-Fair arrivals _ later h
        (started reserve_limit my_mac sender sid bytes sid_fits small reservable first st hf)
        (started-Fair first st hf earlier))
    where
      result : Outcome
      result =
          receive_reliable_data reserve_limit my_mac
            (events_of my_mac sender sid bytes (sent sent_start first ∷ arrivals)) (running st)

      outcome : (o : Outcome) → result ≡ o → Reaches sid bytes 1 o × Good o → o ≡ returned bytes
      outcome (running last) e r = absurd (
          not_all last r.0.0 r.1 (
            run-finished sender my_mac sid bytes small now rtt (λ k. has bytes k last ≡ true)
              actions (heard-Hears last actions r.1 (heard last e)) done))
      outcome (returned b) e r = ap returned r.0
      outcome threw e r = absurd r.0
      outcome outside e r = absurd r.0
