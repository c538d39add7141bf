-- ===== src/GuardL2/Receiver/Acks/Session.antt =====
-- The invariant of the acknowledgements, and the packet that the receiver waits for.
use cds_guard.Prelude.{
  ℕ, ◌+◌, ◌^◌, ◌<◌, ◌≤◌, ◌≡◌, refl, sym, ap, ◌∙◌, true, false, none, some, List, [], ◌∷◌, ◌++◌, ltb,
  ◌==◌, if-elim, Bool-cases, inl, inr, length, All, u32, Bytes, arith,
}
use mathlib.Core.Path.{subst}
use cds_guard.GuardL2.Frame.{Mac, ack_frame}
use cds_guard.GuardL2.Receiver.{
  Entry, Receiver, Outcome, running, returned, threw, outside, contains, deliver, finish,
}
use cds_guard.GuardL2.Receiver.Buffer.{drain_done}
use cds_guard.GuardL2.Receiver.Session.{
  count, is_complete, IsSession, IsChunk, max_bytes, count-fits,
}
use cds_guard.GuardL2.Receiver.Acks.{has, IsSmall, drain-has, drain-sent}
use cds_guard.GuardL2.Sender.Acks.{parse_ack, parse_ack-ack_frame}

parse_ack_short :
    (sender : Mac) (sid : ℕ) (buffer : Bytes) (n : ℕ)
    → ltb n 39 ≡ true
    → parse_ack sender sid buffer n ≡ none
unfolding parse_ack
parse_ack_short sender sid buffer n h = rw h refl

abbrev pub Grows : Bytes → Receiver → Receiver → Type 0
Grows bytes st now = (k : ℕ) → has bytes k st ≡ true → has bytes k now ≡ true

module _ (sender : Mac) (sid : ℕ) (bytes : Bytes) where
  -- What the sender's listener reads in a frame of the receiver, whatever follows it in the buffer, is
  -- the number of something that is there.
  abbrev pub Tells : Receiver → Bytes → Type 0
  Tells st f =
      (rest : Bytes) (n k advertised : ℕ)
      → parse_ack sender sid (f ++ rest) n ≡ some (k, advertised)
      → has bytes k st ≡ true

  pub record IsFair (st : Receiver) : Type 0 where
    pub gap : contains st.receive_window_base st.out_of_order_buffer ≡ false
    pub tells : All (Tells st) st.sent
    pub going : is_complete st ≡ false

  abbrev pub Fair : Outcome → Type 0
  Fair (running st) = IsFair st
  Fair (returned b) = Unit
  Fair threw = Unit
  Fair outside = Unit

module _ (my_mac sender : Mac) (sid : ℕ) (bytes : Bytes) (sid_fits : sid < 2 ^ 32)
    (small : length bytes ≤ max_bytes) where
  abbrev Is : Receiver → Type 0
  Is = IsFair sender sid bytes

  abbrev Good : Outcome → Type 0
  Good = Fair sender sid bytes

  Tells-more :
      (st now : Receiver) (fs : List Bytes)
      → Grows bytes st now
      → All (Tells sender sid bytes st) fs
      → All (Tells sender sid bytes now) fs
  Tells-more st now [] g h = tt
  Tells-more st now (f ∷ fs) g h =
      ((λ rest n k w e. g k (h.0 rest n k w e)), Tells-more st now fs g h.1)

  -- The acknowledgement of a number that is there.
  pub ack-Tells :
      (seq used : ℕ) (now : Receiver)
      → seq < 2 ^ 32
      → has bytes seq now ≡ true
      → Tells sender sid bytes now (ack_frame my_mac sender sid seq used)
  ack-Tells seq used now hs h rest n k w e = elim (Bool-cases (ltb n 39)) [
    | inl t ↦ absurd (
        let no = parse_ack_short sender sid (ack_frame my_mac sender sid seq used ++ rest) n t in
        cc)
    | inr f ↦
        let read =
          parse_ack-ack_frame my_mac sender sid seq used n rest sid_fits hs (ground arith) in
        let same : seq ≡ k = cc in subst (λ j. has bytes j now ≡ true) same h
  ]

  pub finish-Fair : (st : Receiver) → (is_complete st ≡ false → Is st) → Good (finish st)
  unfolding finish is_complete
  finish-Fair st h =
      if-elim Good (is_complete st)
        (λ t. if-elim Good (length st.reassembled_data == st.total_data_size) (λ l. tt) (λ l. tt))
        (λ f. h f)

  -- A state that has what there was and is not complete is fair with one more acknowledgement.
  pub acked-Fair :
      (st now : Receiver) (seq used : ℕ)
      → Is st
      → seq < 2 ^ 32
      → now.sent ≡ ack_frame my_mac sender sid seq used ∷ st.sent
      → Grows bytes st now
      → has bytes seq now ≡ true
      → contains now.receive_window_base now.out_of_order_buffer ≡ false
      → Good (finish now)
  acked-Fair st now seq used v hs e g h gap = finish-Fair now (λ c. record {
    gap = gap;
    tells =
        subst (All (Tells sender sid bytes now)) (sym e)
          (ack-Tells seq used now hs h, Tells-more st now st.sent g v.tells);
    going = c;
  })

  pub same-Fair : (st : Receiver) → Is st → Good (finish st)
  same-Fair st v = finish-Fair st (λ c. v)

  pub small_entries :
      (es : List Entry)
      → All (λ (e : Entry). IsChunk bytes e.seq e.payload) es
      → All (λ (e : Entry). e.seq ≤ count bytes) es
  small_entries [] h = tt
  small_entries (e ∷ es) h = (h.0.1, small_entries es h.1)

  pub sent_ack :
      {id : ℕ} (seq used : ℕ) (st : Receiver)
      → id ≡ sid
      → ack_frame my_mac sender id seq used ∷ st.sent
        ≡ ack_frame my_mac sender sid seq used ∷ st.sent
  sent_ack seq used st own = ap (λ i. ack_frame my_mac sender i seq used ∷ st.sent) own

  -- The next packet of the data.
  pub deliver-Fair :
      (st : Receiver) (payload : Bytes) (id used : ℕ)
      → id ≡ sid
      → IsSession sid bytes st
      → st.receive_window_base ≤ count bytes
      → Is st
      → Good (
          finish (
            deliver payload (record st {
              sent = ack_frame my_mac sender id st.receive_window_base used ∷ st.sent;
            })))
  unfolding deliver
  deliver-Fair st payload id used own g low v =
      acked-Fair st _ st.receive_window_base used v (omega (arith, low, fits))
        (drain-sent (length st.out_of_order_buffer) moved
          ∙ sent_ack st.receive_window_base used st own)
        (λ k h.
          drain-has bytes fits k (length st.out_of_order_buffer) moved entries
            (ground (arith, next)))
        (drain-has bytes fits st.receive_window_base (length st.out_of_order_buffer) moved entries
          (ground (arith, next)))
        (drain_done (length st.out_of_order_buffer) moved (omega arith))
    where
      fits : count bytes + 1 < 2 ^ 32
      fits = count-fits sid bytes small

      moved : Receiver
      moved = record st {
        sent = ack_frame my_mac sender id st.receive_window_base used ∷ st.sent;
        reassembled_data = st.reassembled_data ++ payload;
        receive_window_base = u32 (st.receive_window_base + 1);
      }

      entries : IsSmall bytes moved
      entries = small_entries st.out_of_order_buffer g.buffered

      next : u32 (st.receive_window_base + 1) ≡ st.receive_window_base + 1
      next = omega (arith, low, fits)
