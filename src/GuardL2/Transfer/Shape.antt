-- ===== src/GuardL2/Transfer/Shape.antt =====
-- The shape of the window: its two ends, and that the map holds nothing behind it.
pub mod Runs
use cds_guard.Prelude.{
  ℕ, zero, suc, ◌+◌, ◌-◌, ◌^◌, ◌<◌, ◌≤◌, ◌≡◌, ◌≢◌, refl, sym, ap, ◌∙◌, Bool, true, false, Option,
  none, some, List, [], ◌∷◌, Bytes, All, length, min, u32, leb, ltb, ◌==◌, ==→≡, if◌then◌else◌,
  if-elim, Bool-cases, inl, inr, arith,
}
use mathlib.Core.Path.{subst}
use cds_guard.GuardL2.Sender.Window.{on_packet_loss}
use cds_guard.GuardL2.Sender.Frames.{Outgoing}
use cds_guard.GuardL2.Transfer.{
  SentPacketInfo, SendBuffer, put_info, ready, threw, Sender, rto, retransmit_seqs, resend,
  retransmit, on_timeouts, is_acked, slide, after_wait, send_frames, take_ack,
}
use cds_guard.GuardL2.Transfer.Sliding.{slide_enough}

-- The map holds no number from `next` on.
abbrev pub IsEmptyFrom : ℕ → SendBuffer → Type 0
IsEmptyFrom next buffer = (k : ℕ) → next ≤ k → buffer k ≡ none

put_info-IsEmptyFrom :
    (next seq : ℕ) (info : Option SentPacketInfo) (buffer : SendBuffer)
    → seq < next
    → IsEmptyFrom next buffer
    → IsEmptyFrom next (put_info seq info buffer)
put_info-IsEmptyFrom next seq info buffer h e k low =
    if-elim (λ (o : Option SentPacketInfo). o ≡ none) (k == seq) (λ t. absurd (ground arith))
      (λ f. e k low)

-- What the map holds lies before `next`.
held-lt :
    (next seq : ℕ) (info : SentPacketInfo) (buffer : SendBuffer)
    → buffer seq ≡ some info
    → IsEmptyFrom next buffer
    → seq < next
held-lt next seq info buffer h e = elim (Bool-cases (leb next seq)) [
  | inl t ↦ absurd (let gone = e seq (ground arith) in cc)
  | inr f ↦ ground arith
]

-- `total` packets of data.
pub record IsWindow (total : ℕ) (st : Sender) : Type 0 where
  pub low : 1 ≤ st.send_window_base
  pub order : st.send_window_base ≤ st.next_seq_num
  pub high : st.next_seq_num ≤ total + 1
  pub unused : IsEmptyFrom st.next_seq_num st.send_buffer

pub take_ack-IsWindow :
    (total size now seq advertised : ℕ) (o : Option SentPacketInfo) (st : Sender)
    → st.send_buffer seq ≡ o
    → IsWindow total st
    → IsWindow total (take_ack size now seq advertised o st)
unfolding take_ack
take_ack-IsWindow total size now seq advertised none st e w = w
take_ack-IsWindow total size now seq advertised (some info) st e w =
    if-elim (IsWindow total) info.acked (λ t. w)
      (λ f. record {
        low = w.low;
        order = w.order;
        high = w.high;
        unused =
            put_info-IsEmptyFrom _ seq _ st.send_buffer
              (held-lt _ seq info st.send_buffer e w.unused) w.unused;
      })

-- Sending again moves neither end.
abbrev Stays : ℕ → Sender → Sender → Type 0
Stays total st now =
    IsWindow total now
    × (now.send_window_base ≡ st.send_window_base)
    × (now.next_seq_num ≡ st.next_seq_num)

resend-Stays :
    (total seq t : ℕ) (o : Option SentPacketInfo) (st : Sender)
    → st.send_buffer seq ≡ o
    → IsWindow total st
    → Stays total st (resend seq t o st)
unfolding resend
resend-Stays total seq t none st e w =
    (record { low = w.low; order = w.order; high = w.high; unused = w.unused }, refl, refl)
resend-Stays total seq t (some info) st e w = (
  record {
    low = w.low;
    order = w.order;
    high = w.high;
    unused =
        put_info-IsEmptyFrom _ seq _ st.send_buffer (held-lt _ seq info st.send_buffer e w.unused)
          w.unused;
  },
  refl,
  refl,
)

retransmit-Stays :
    (total : ℕ) (clock : ℕ → ℕ) (seqs : List ℕ) (st : Sender)
    → IsWindow total st
    → Stays total st (retransmit clock seqs st)
unfolding retransmit
retransmit-Stays total clock [] st w = (w, refl, refl)
retransmit-Stays total clock (seq ∷ more) st w =
    let one = resend-Stays total seq (clock seq) (st.send_buffer seq) st refl w in
    let rest =
      retransmit-Stays total clock more (resend seq (clock seq) (st.send_buffer seq) st) one.0 in
    (rest.0, rest.1 ∙ one.1, rest.2 ∙ one.2)

on_timeouts-Stays :
    (total : ℕ) (clock : ℕ → ℕ) (seqs : List ℕ) (st : Sender)
    → IsWindow total st
    → Stays total st (on_timeouts clock seqs st)
unfolding on_timeouts
on_timeouts-Stays total clock [] st w = (w, refl, refl)
on_timeouts-Stays total clock (seq ∷ more) st w =
    retransmit-Stays total clock (seq ∷ more) (record st { window = on_packet_loss st.window })
      (record { low = w.low; order = w.order; high = w.high; unused = w.unused })

slide-IsWindow :
    (total fuel : ℕ) (st : Sender)
    → total + 1 < 2 ^ 32
    → IsWindow total st
    → IsWindow total (slide fuel st)
unfolding slide
slide-IsWindow total zero st fits w = w
slide-IsWindow total (suc fuel) st fits w =
    if-elim (IsWindow total) (is_acked (st.send_buffer st.send_window_base))
      (λ t.
        let before = held (st.send_buffer st.send_window_base) refl t in
        slide-IsWindow total fuel _ fits (record {
          low = omega (arith, before, w.high);
          order = omega (arith, before, w.high);
          high = w.high;
          unused = put_info-IsEmptyFrom _ st.send_window_base none st.send_buffer before w.unused;
        }))
      (λ f. w)
  where
    held :
        (o : Option SentPacketInfo)
        → st.send_buffer st.send_window_base ≡ o
        → is_acked o ≡ true
        → st.send_window_base < st.next_seq_num
    held none e a = cc
    held (some info) e a = held-lt _ st.send_window_base info st.send_buffer e w.unused

-- If the count of packets and one more fit in 32 bits and the window has its shape, then it has it after
-- the wait, the sendings and the move of the window, and the number that it then starts with is not
-- acknowledged: the loop that moves it ended by its test, not for want of turns.
pub after_wait-IsWindow :
    (total now : ℕ) (clock : ℕ → ℕ) (st : Sender)
    → total + 1 < 2 ^ 32
    → IsWindow total st
    → IsWindow total (after_wait now clock st)
      × (is_acked ((after_wait now clock st).send_buffer (after_wait now clock st).send_window_base)
          ≡ false)
unfolding after_wait
after_wait-IsWindow total now clock st fits w = (
  slide-IsWindow total in_flight sent fits stays.0,
  (slide_enough sent.next_seq_num in_flight sent (omega (arith, stays.0.high, fits)) stays.0.order
      (omega (arith, stays.1, stays.2))
      (ap is_acked (stays.0.unused sent.next_seq_num (omega arith)))).0,
)
  where
    in_flight : ℕ
    in_flight = st.next_seq_num - st.send_window_base

    seqs : List ℕ
    seqs = retransmit_seqs st.send_buffer (rto st) now in_flight st.send_window_base

    woken : Sender
    woken = record st { phase = ready }

    sent : Sender
    sent = on_timeouts clock seqs woken

    stays : Stays total woken sent
    stays =
        on_timeouts-Stays total clock seqs woken
          (record { low = w.low; order = w.order; high = w.high; unused = w.unused })

pub send_frames-IsWindow :
    (total : ℕ) (clock : ℕ → ℕ) (os : List Outgoing) (st : Sender)
    → total + 1 < 2 ^ 32
    → All (λ (o : Outgoing). o.seq ≤ total) os
    → IsWindow total st
    → IsWindow total (send_frames clock os st)
unfolding send_frames
send_frames-IsWindow total clock [] st fits h w = w
send_frames-IsWindow total clock (o ∷ os) st fits h w =
    send_frames-IsWindow total clock os _ fits h.1 (record {
      low = w.low;
      order = omega (arith, w.order, moved.0);
      high = moved.2;
      unused =
          put_info-IsEmptyFrom next o.seq _ st.send_buffer moved.1
            (λ k low. w.unused k (omega (arith, moved.0)));
    })
  where
    next : ℕ
    next = if leb st.next_seq_num o.seq then u32 (o.seq + 1) else st.next_seq_num

    moved : (st.next_seq_num ≤ next) × (o.seq < next) × (next ≤ total + 1)
    moved =
        if-elim (λ (n : ℕ). (st.next_seq_num ≤ n) × (o.seq < n) × (n ≤ total + 1))
          (leb st.next_seq_num o.seq) (λ t. ground (arith, h.0, fits)) (λ f. ground (arith, w.high))
