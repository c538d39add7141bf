-- ===== src/GuardL2/Transfer/Progress.antt =====
-- The parts of a round in which every packet in flight is acknowledged.
pub mod Sends
pub mod Replies
pub mod Rounds
pub mod Completes
use cds_guard.Prelude.{
  ℕ, zero, suc, ◌+◌, ◌-◌, ◌^◌, ◌<◌, ◌≤◌, ◌≡◌, refl, sym, ap, ◌∙◌, Bool, true, false, ◌&&◌, Option,
  none, some, List, [], ◌∷◌, ◌++◌, Bytes, All, length, min, u32, leb, ltb, ◌==◌, ==→≡,
  if◌then◌else◌, if-elim, Bool-cases, inl, inr, arith,
}
use mathlib.Core.Path.{subst}
use cds_guard.GuardL2.Frame.{Mac, ack_frame}
use cds_guard.GuardL2.Sender.Window.{Window, on_ack_received, grow}
use cds_guard.GuardL2.Sender.Frames.{Outgoing, frames_to_send}
use cds_guard.GuardL2.Transfer.{
  SentPacketInfo, SendBuffer, put_info, Sender, is_acked, is_expired, retransmit_seqs, slide,
  send_frames, take_ack,
}
use cds_guard.GuardL2.Transfer.Invariant.{IsThere, put_info-IsThere}

-- What an acknowledgement leaves and lets grow.
pub record Grown (n : ℕ) (st now : Sender) : Type 0 where
  pub base_is : now.send_window_base ≡ st.send_window_base
  pub next_is : now.next_seq_num ≡ st.next_seq_num
  pub phase_is : now.phase ≡ st.phase
  pub acked_stays :
      (k : ℕ) → is_acked (st.send_buffer k) ≡ true → is_acked (now.send_buffer k) ≡ true
  pub there_stays : (k : ℕ) → IsThere (st.send_buffer k) → IsThere (now.send_buffer k)
  pub cwnd_low : 1 ≤ st.window.cwnd → 1 ≤ now.window.cwnd
  pub cwnd_high : now.window.cwnd ≤ st.window.cwnd + n
  pub rwnd_in :
      (1 ≤ st.window.rwnd) × (st.window.rwnd ≤ 512)
      → (1 ≤ now.window.rwnd) × (now.window.rwnd ≤ 512)

pub Grown-same : (st : Sender) → Grown 0 st st
Grown-same st = record {
  base_is = refl;
  next_is = refl;
  phase_is = refl;
  acked_stays = λ k h. h;
  there_stays = λ k h. h;
  cwnd_low = λ h. h;
  cwnd_high = omega arith;
  rwnd_in = λ h. h;
}

pub Grown-then : (m n : ℕ) (a b c : Sender) → Grown m a b → Grown n b c → Grown (m + n) a c
Grown-then m n a b c f g = record {
  base_is = g.base_is ∙ f.base_is;
  next_is = g.next_is ∙ f.next_is;
  phase_is = g.phase_is ∙ f.phase_is;
  acked_stays = λ k h. g.acked_stays k (f.acked_stays k h);
  there_stays = λ k h. g.there_stays k (f.there_stays k h);
  cwnd_low = λ h. g.cwnd_low (f.cwnd_low h);
  cwnd_high = omega (arith, f.cwnd_high, g.cwnd_high);
  rwnd_in = λ h. g.rwnd_in (f.rwnd_in h);
}

on_ack_received_grown :
    (size seq advertised : ℕ) (w : Window)
    → (1 ≤ w.cwnd → 1 ≤ (on_ack_received size seq advertised w).cwnd)
      × ((on_ack_received size seq advertised w).cwnd ≤ w.cwnd + 1)
      × ((on_ack_received size seq advertised w).rwnd ≡ advertised)
unfolding on_ack_received grow
on_ack_received_grown size seq advertised w = (λ h. ground arith, ground arith, ground arith)

put_info_acked :
    (seq : ℕ) (info : SentPacketInfo) (buffer : SendBuffer) (k : ℕ)
    → info.acked ≡ true
    → is_acked (buffer k) ≡ true
    → is_acked (put_info seq (some info) buffer k) ≡ true
put_info_acked seq info buffer k a h =
    if-elim (λ (o : Option SentPacketInfo). is_acked o ≡ true) (k == seq) (λ t. a) (λ f. h)

pub put_info_self :
    (seq : ℕ) (info : SentPacketInfo) (buffer : SendBuffer)
    → put_info seq (some info) buffer seq ≡ some info
put_info_self seq info buffer =
    if-elim (λ (o : Option SentPacketInfo). o ≡ some info) (seq == seq) (λ t. refl)
      (λ f. absurd (ground arith))

-- One acknowledgement that advertises the receiver's whole window.
pub take_ack-Grown :
    (size seq : ℕ) (o : Option SentPacketInfo) (st : Sender)
    → st.send_buffer seq ≡ o
    → IsThere o
    → Grown 1 st (take_ack size 0 seq 512 o st)
      × (is_acked ((take_ack size 0 seq 512 o st).send_buffer seq) ≡ true)
unfolding take_ack
take_ack-Grown size seq none st e t = absurd t
take_ack-Grown size seq (some info) st e t =
    if-elim (λ (r : Sender). Grown 1 st r × (is_acked (r.send_buffer seq) ≡ true)) info.acked
      (λ a. (wider (Grown-same st), ap is_acked e ∙ a))
      (λ a. (
        record {
          base_is = refl;
          next_is = refl;
          phase_is = refl;
          acked_stays =
              λ k h. put_info_acked seq (record info { acked = true }) st.send_buffer k refl h;
          there_stays =
              λ k h. put_info-IsThere k seq (record info { acked = true }) st.send_buffer h;
          cwnd_low = (on_ack_received_grown size seq 512 st.window).0;
          cwnd_high = (on_ack_received_grown size seq 512 st.window).1;
          rwnd_in = λ h. (
            omega (arith, (on_ack_received_grown size seq 512 st.window).2),
            omega (arith, (on_ack_received_grown size seq 512 st.window).2),
          );
        },
        ap is_acked (put_info_self seq (record info { acked = true }) st.send_buffer),
      ))
  where
    wider : Grown 0 st st → Grown 1 st st
    wider g = record {
      base_is = refl;
      next_is = refl;
      phase_is = refl;
      acked_stays = λ k h. h;
      there_stays = λ k h. h;
      cwnd_low = λ h. h;
      cwnd_high = omega arith;
      rwnd_in = λ h. h;
    }

-- Numbers `i` to `i + n - 1` are acknowledged.
abbrev pub AckedFrom : ℕ → ℕ → SendBuffer → Type 0
AckedFrom i n buffer = (k : ℕ) → i ≤ k → k < i + n → is_acked (buffer k) ≡ true

not_expired :
    (timeout now : ℕ) (o : Option SentPacketInfo)
    → is_acked o ≡ true
    → is_expired timeout now o ≡ false
unfolding is_expired
not_expired timeout now none h = cc
not_expired timeout now (some info) h = ground arith

-- Nothing is sent again.
pub retransmit_seqs-acked :
    (buffer : SendBuffer) (timeout now n i : ℕ)
    → i + n < 2 ^ 32
    → AckedFrom i n buffer
    → retransmit_seqs buffer timeout now n i ≡ []
unfolding retransmit_seqs
retransmit_seqs-acked buffer timeout now zero i small h = refl
retransmit_seqs-acked buffer timeout now (suc n) i small h =
    let next : u32 (i + 1) ≡ i + 1 = omega arith in
    rw (not_expired timeout now (buffer i) (h i (omega arith) (omega arith))) (
      retransmit_seqs-acked buffer timeout now n (u32 (i + 1)) (omega (arith, next))
        (λ k a b. h k (omega (arith, next)) (omega (arith, next))))

behind :
    (base k : ℕ) (buffer : SendBuffer)
    → base < k
    → is_acked (buffer k) ≡ true
    → is_acked (put_info base none buffer k) ≡ true
behind base k buffer h a =
    if-elim (λ (o : Option SentPacketInfo). is_acked o ≡ true) (k == base)
      (λ t. absurd (ground arith)) (λ f. a)

-- The window moves over all of them.
pub slide-acked :
    (n : ℕ) (st : Sender)
    → st.send_window_base + n < 2 ^ 32
    → AckedFrom st.send_window_base n st.send_buffer
    → ((slide n st).send_window_base ≡ st.send_window_base + n)
      × ((slide n st).next_seq_num ≡ st.next_seq_num)
      × ((slide n st).phase ≡ st.phase)
      × ((slide n st).window ≡ st.window)
unfolding slide
slide-acked zero st small h = (omega arith, refl, refl, refl)
slide-acked (suc n) st small h =
    let now : Sender = record st {
      send_buffer = put_info st.send_window_base none st.send_buffer;
      send_window_base = u32 (st.send_window_base + 1);
    } in
    let next : u32 (st.send_window_base + 1) ≡ st.send_window_base + 1 = omega arith in
    let rest = slide-acked n now (omega (arith, next)) (λ k a b.
      behind st.send_window_base k st.send_buffer (omega (arith, next))
        (h k (omega (arith, next)) (omega (arith, next)))) in
    rw (h st.send_window_base (omega arith) (omega arith))
      (omega (arith, next, rest.0), rest.1, rest.2, rest.3)
