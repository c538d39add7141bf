-- ===== src/GuardL2/Transfer/Invariant/Steps.antt =====
-- The parts of a turn keep the invariant: what is sent again, what the window passes, what is sent first.
use cds_guard.Prelude.{
  ℕ, zero, suc, ◌+◌, ◌-◌, ◌^◌, ◌<◌, ◌≤◌, ◌≡◌, ◌≢◌, refl, sym, true, false, Option, none, some, List,
  [], ◌∷◌, Bytes, All, length, u32, leb, ◌==◌, ==→≡, if◌then◌else◌, if-elim, Bool-cases, inl, inr,
  arith,
}
use mathlib.Core.Path.{subst}
use cds_guard.GuardL2.Frame.{Mac}
use cds_guard.GuardL2.Receiver.Session.{count, max_bytes, count-fits}
use cds_guard.GuardL2.Receiver.Packets.{sent_chunk}
use cds_guard.GuardL2.Receiver.Arrivals.{frame_of}
use cds_guard.GuardL2.Sender.Frames.{Outgoing}
use cds_guard.GuardL2.Sender.Window.{on_packet_loss}
use cds_guard.GuardL2.Transfer.{
  SentPacketInfo, SendBuffer, put_info, Phase, ready, Sender, rto, total_packets_of, is_expired,
  retransmit_seqs, resend, retransmit, on_timeouts, is_acked, slide, after_wait, send_frames,
}
use cds_guard.GuardL2.Transfer.Invariant.{
  IsThere, put_info-IsThere, IsFrameAt, IsInfo, Knows, IsSender, put_info-IsBuffer, put_info-Knows,
}

not_expired : (timeout now : ℕ) → is_expired timeout now none ≢ true
unfolding is_expired
not_expired timeout now h = cc

-- The list of step C holds numbers of the map.
retransmit_seqs-IsThere :
    (buffer : SendBuffer) (timeout now fuel i : ℕ)
    → All (λ k. IsThere (buffer k)) (retransmit_seqs buffer timeout now fuel i)
unfolding retransmit_seqs
retransmit_seqs-IsThere buffer timeout now zero i = tt
retransmit_seqs-IsThere buffer timeout now (suc fuel) i =
    if-elim (All (λ k. IsThere (buffer k))) (is_expired timeout now (buffer i))
      (λ t. (there (buffer i) t, retransmit_seqs-IsThere buffer timeout now fuel (u32 (i + 1))))
      (λ f. retransmit_seqs-IsThere buffer timeout now fuel (u32 (i + 1)))
  where
    there : (o : Option SentPacketInfo) → is_expired timeout now o ≡ true → IsThere o
    there none h = not_expired timeout now h
    there (some info) h = tt

pub total_packets_of-count : (bytes : Bytes) → total_packets_of bytes ≡ count bytes
total_packets_of-count bytes =
    if-elim (λ (n : ℕ). total_packets_of bytes ≡ n) (length bytes == 0)
      (λ t. omega (arith, ==→≡ (length bytes) 0 t)) (λ f. refl)

pub total_packets_of-fits :
    (bytes : Bytes) → length bytes ≤ max_bytes → total_packets_of bytes + 1 < 2 ^ 32
total_packets_of-fits bytes small =
    omega (arith, total_packets_of-count bytes, count-fits 0 bytes small)

-- What the loop makes: packets of the data.
abbrev pub IsNew : Mac → Mac → ℕ → Bytes → Outgoing → Type 0
IsNew src dst sid bytes o =
    (1 ≤ o.seq)
    × (o.seq ≤ total_packets_of bytes)
    × (o.frame ≡ frame_of dst src sid bytes (sent_chunk o.seq))

module _ (src dst : Mac) (sid : ℕ) (bytes : Bytes) (small : length bytes ≤ max_bytes)
    (P : ℕ → Type 0) where
  abbrev Inv : Sender → Type 0
  Inv = IsSender src dst sid bytes P

  resend-IsSender :
      (seq now : ℕ) (o : Option SentPacketInfo) (st : Sender)
      → IsThere o
      → IsInfo src dst sid bytes P seq o
      → Inv st
      → Inv (resend seq now o st)
  unfolding resend
  resend-IsSender seq now none st t h v = absurd t
  resend-IsSender seq now (some info) st t h v = record {
    buffered =
        put_info-IsBuffer src dst sid bytes P seq (some (record info { time_sent = now }))
          st.send_buffer h v.buffered;
    below = v.below;
    first = v.first;
    sent_only = ((h.0.0, h.0.1, h.0.2), v.sent_only);
    known =
        put_info-Knows src dst sid bytes P seq (record info { time_sent = now }) st.send_buffer
          st.phase v.known;
  }

  resend-IsThere :
      (seq now : ℕ) (o : Option SentPacketInfo) (st : Sender) (ks : List ℕ)
      → IsThere o
      → All (λ k. IsThere (st.send_buffer k)) ks
      → All (λ k. IsThere ((resend seq now o st).send_buffer k)) ks
  unfolding resend
  resend-IsThere seq now none st ks t h = absurd t
  resend-IsThere seq now (some info) st [] t h = tt
  resend-IsThere seq now (some info) st (k ∷ ks) t h = (
    put_info-IsThere k seq (record info { time_sent = now }) st.send_buffer h.0,
    resend-IsThere seq now (some info) st ks t h.1,
  )

  retransmit-IsSender :
      (clock : ℕ → ℕ) (seqs : List ℕ) (st : Sender)
      → All (λ k. IsThere (st.send_buffer k)) seqs
      → Inv st
      → Inv (retransmit clock seqs st)
  unfolding retransmit
  retransmit-IsSender clock [] st h v = v
  retransmit-IsSender clock (seq ∷ more) st h v =
      retransmit-IsSender clock more (resend seq (clock seq) (st.send_buffer seq) st)
        (resend-IsThere seq (clock seq) (st.send_buffer seq) st more h.0 h.1)
        (resend-IsSender seq (clock seq) (st.send_buffer seq) st h.0 (v.buffered seq) v)

  on_timeouts-IsSender :
      (clock : ℕ → ℕ) (seqs : List ℕ) (st : Sender)
      → All (λ k. IsThere (st.send_buffer k)) seqs
      → Inv st
      → Inv (on_timeouts clock seqs st)
  unfolding on_timeouts
  on_timeouts-IsSender clock [] st h v = v
  on_timeouts-IsSender clock (seq ∷ more) st h v =
      retransmit-IsSender clock (seq ∷ more) (record st { window = on_packet_loss st.window }) h
        (record {
          buffered = v.buffered;
          below = v.below;
          first = v.first;
          sent_only = v.sent_only;
          known = v.known;
        })

  -- What a place knows without the map.
  abbrev IsKnown : Phase → Type 0
  IsKnown phase = (buffer : SendBuffer) → Knows src dst sid bytes P buffer phase

  resend-IsKnown :
      (seq now : ℕ) (o : Option SentPacketInfo) (st : Sender)
      → IsThere o
      → IsKnown st.phase
      → IsKnown (resend seq now o st).phase
  unfolding resend
  resend-IsKnown seq now none st t h = absurd t
  resend-IsKnown seq now (some info) st t h = h

  retransmit-IsKnown :
      (clock : ℕ → ℕ) (seqs : List ℕ) (st : Sender)
      → All (λ k. IsThere (st.send_buffer k)) seqs
      → IsKnown st.phase
      → IsKnown (retransmit clock seqs st).phase
  unfolding retransmit
  retransmit-IsKnown clock [] st h k = k
  retransmit-IsKnown clock (seq ∷ more) st h k =
      retransmit-IsKnown clock more (resend seq (clock seq) (st.send_buffer seq) st)
        (resend-IsThere seq (clock seq) (st.send_buffer seq) st more h.0 h.1)
        (resend-IsKnown seq (clock seq) (st.send_buffer seq) st h.0 k)

  on_timeouts-IsKnown :
      (clock : ℕ → ℕ) (seqs : List ℕ) (st : Sender)
      → All (λ k. IsThere (st.send_buffer k)) seqs
      → IsKnown st.phase
      → IsKnown (on_timeouts clock seqs st).phase
  unfolding on_timeouts
  on_timeouts-IsKnown clock [] st h k = k
  on_timeouts-IsKnown clock (seq ∷ more) st h k =
      retransmit-IsKnown clock (seq ∷ more) (record st { window = on_packet_loss st.window }) h k

  acked_known :
      (k : ℕ) (o : Option SentPacketInfo) → IsInfo src dst sid bytes P k o → is_acked o ≡ true → P k
  acked_known k none h a = cc
  acked_known k (some info) h a = h.1 a

  passed :
      (base : ℕ)
      → ((k : ℕ) → 1 ≤ k → k < base → P k)
      → P base
      → (k : ℕ) → 1 ≤ k
      → k < u32 (base + 1)
      → P k
  passed base h p k low high = elim (Bool-cases (k == base)) [
    | inl t ↦ subst P (sym (==→≡ k base t)) p
    | inr f ↦ h k low (ground arith)
  ]

  slide-IsSender : (fuel : ℕ) (st : Sender) → IsKnown st.phase → Inv st → Inv (slide fuel st)
  unfolding slide
  slide-IsSender zero st k v = v
  slide-IsSender (suc fuel) st k v =
      if-elim Inv (is_acked (st.send_buffer st.send_window_base))
        (λ t. slide-IsSender fuel _ k (record {
          buffered =
              put_info-IsBuffer src dst sid bytes P st.send_window_base none st.send_buffer tt
                v.buffered;
          below =
              passed st.send_window_base v.below
                (acked_known st.send_window_base _ (v.buffered st.send_window_base) t);
          first = v.first;
          sent_only = v.sent_only;
          known = k (put_info st.send_window_base none st.send_buffer);
        }))
        (λ f. v)

  pub after_wait-IsSender :
      (now : ℕ) (clock : ℕ → ℕ) (st : Sender) → P 0 → Inv st → Inv (after_wait now clock st)
  unfolding after_wait
  after_wait-IsSender now clock st p v =
      let in_flight = st.next_seq_num - st.send_window_base in
      let seqs = retransmit_seqs st.send_buffer (rto st) now in_flight st.send_window_base in
      let there =
        retransmit_seqs-IsThere st.send_buffer (rto st) now in_flight st.send_window_base in
      let woken : Sender = record st { phase = ready } in
      slide-IsSender in_flight (on_timeouts clock seqs woken)
        (on_timeouts-IsKnown clock seqs woken there (λ b. p))
        (on_timeouts-IsSender clock seqs woken there (record {
          buffered = v.buffered;
          below = v.below;
          first = v.first;
          sent_only = v.sent_only;
          known = p;
        }))

  new-IsFrameAt :
      (o : Outgoing) → IsNew src dst sid bytes o → IsFrameAt src dst sid bytes o.seq o.frame
  new-IsFrameAt o h =
      (sent_chunk o.seq, (h.0, omega (arith, h.1, total_packets_of-count bytes)), h.2, refl)

  pub send_frames-IsSender :
      (clock : ℕ → ℕ) (os : List Outgoing) (st : Sender)
      → All (IsNew src dst sid bytes) os
      → Inv st
      → Inv (send_frames clock os st)
  unfolding send_frames
  send_frames-IsSender clock [] st h v = v
  send_frames-IsSender clock (o ∷ os) st h v =
      let info : SentPacketInfo = record {
        frame_data = o.frame;
        time_sent = clock o.seq;
        acked = false;
      } in
      let f = new-IsFrameAt o h.0 in
      send_frames-IsSender clock os _ h.1 (record {
        buffered =
            put_info-IsBuffer src dst sid bytes P o.seq (some info) st.send_buffer
              (f, λ a. absurd (not_acked a)) v.buffered;
        below = v.below;
        first = next_first;
        sent_only = ((f.0, f.1, f.2), v.sent_only);
        known = put_info-Knows src dst sid bytes P o.seq info st.send_buffer st.phase v.known;
      })
    where
      not_acked : false ≢ true
      not_acked a = cc

      next_first : 1 ≤ (if leb st.next_seq_num o.seq then u32 (o.seq + 1) else st.next_seq_num)
      next_first =
          if-elim (λ (n : ℕ). 1 ≤ n) (leb st.next_seq_num o.seq)
            (λ t. omega (arith, h.0.1, total_packets_of-fits bytes small)) (λ f. v.first)
