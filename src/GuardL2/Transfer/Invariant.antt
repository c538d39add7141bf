-- ===== src/GuardL2/Transfer/Invariant.antt =====
-- What holds of the sender between two actions. `P` stands for any property of the numbers that are
-- acknowledged.
pub mod Steps
pub mod Moves
pub mod Turns
use cds_guard.Prelude.{
  ℕ, ◌+◌, ◌<◌, ◌≤◌, ◌≡◌, refl, sym, Bool, true, false, Option, none, some, List, Bytes, All, length,
  u32, ◌==◌, ==→≡, if◌then◌else◌, if-elim, arith,
}
use mathlib.Core.Path.{subst}
use cds_guard.GuardL2.Frame.{Mac}
use cds_guard.GuardL2.Receiver.Session.{count}
use cds_guard.GuardL2.Receiver.Packets.{Sent, seq_of, IsSent}
use cds_guard.GuardL2.Receiver.Arrivals.{frame_of}
use cds_guard.GuardL2.Transfer.{
  SentPacketInfo, SendBuffer, put_info, Phase, ready, waiting, threw, starting, windowed, sending,
  ending, finished, Sender, total_packets_of,
}

abbrev pub IsThere : Option SentPacketInfo → Type 0
IsThere none = ⊥
IsThere (some info) = Unit

pub put_info-IsThere :
    (k seq : ℕ) (info : SentPacketInfo) (buffer : SendBuffer)
    → IsThere (buffer k)
    → IsThere (put_info seq (some info) buffer k)
put_info-IsThere k seq info buffer h = if-elim IsThere (k == seq) (λ t. tt) (λ f. h)

pub put_info-IsThere_self :
    (seq : ℕ) (info : SentPacketInfo) (buffer : SendBuffer)
    → IsThere (put_info seq (some info) buffer seq)
put_info-IsThere_self seq info buffer =
    if-elim IsThere (seq == seq) (λ t. tt) (λ f. absurd (ground arith))

module _ (src dst : Mac) (sid : ℕ) (bytes : Bytes) where
  -- A frame of the session as the receiver's theorems take them.
  abbrev pub IsFrame : Bytes → Type 0
  IsFrame f = (s : Sent) × IsSent bytes s × (f ≡ frame_of dst src sid bytes s)

  abbrev pub IsFrameAt : ℕ → Bytes → Type 0
  IsFrameAt k f =
      (s : Sent) × IsSent bytes s × (f ≡ frame_of dst src sid bytes s) × (seq_of bytes s ≡ k)

  module _ (P : ℕ → Type 0) where
    abbrev pub IsInfo : ℕ → Option SentPacketInfo → Type 0
    IsInfo k none = Unit
    IsInfo k (some info) = IsFrameAt k info.frame_data × (info.acked ≡ true → P k)

    abbrev pub IsBuffer : SendBuffer → Type 0
    IsBuffer buffer = (k : ℕ) → IsInfo k (buffer k)

    abbrev pub Data : Type 0
    Data = (k : ℕ) → 1 ≤ k → k ≤ count bytes → P k

    -- What the place of the sending thread says.
    abbrev pub Knows : SendBuffer → Phase → Type 0
    Knows buffer ready = P 0
    Knows buffer (windowed cwnd) = P 0
    Knows buffer (sending w) = P 0
    Knows buffer waiting = P 0
    Knows buffer threw = ⊥
    Knows buffer (starting tries) = IsThere (buffer 0)
    Knows buffer (ending tries) = IsThere (buffer (u32 (total_packets_of bytes + 1))) × P 0 × Data
    Knows buffer (finished true) = (k : ℕ) → k ≤ count bytes + 1 → P k
    Knows buffer (finished false) = Unit

    pub record IsSender (st : Sender) : Type 0 where
      pub buffered : IsBuffer st.send_buffer
      pub below : (k : ℕ) → 1 ≤ k → k < st.send_window_base → P k
      pub first : 1 ≤ st.next_seq_num
      pub sent_only : All IsFrame st.out
      pub known : Knows st.send_buffer st.phase

    pub put_info-IsBuffer :
        (seq : ℕ) (info : Option SentPacketInfo) (buffer : SendBuffer)
        → IsInfo seq info
        → IsBuffer buffer
        → IsBuffer (put_info seq info buffer)
    put_info-IsBuffer seq info buffer h b k =
        if-elim (IsInfo k) (k == seq) (λ t. subst (λ j. IsInfo j info) (sym (==→≡ k seq t)) h)
          (λ f. b k)

    -- A new entry of the map changes nothing that is known.
    pub put_info-Knows :
        (seq : ℕ) (info : SentPacketInfo) (buffer : SendBuffer) (phase : Phase)
        → Knows buffer phase
        → Knows (put_info seq (some info) buffer) phase
    put_info-Knows seq info buffer ready h = h
    put_info-Knows seq info buffer (windowed cwnd) h = h
    put_info-Knows seq info buffer (sending w) h = h
    put_info-Knows seq info buffer waiting h = h
    put_info-Knows seq info buffer threw h = h
    put_info-Knows seq info buffer (starting tries) h = put_info-IsThere 0 seq info buffer h
    put_info-Knows seq info buffer (ending tries) h =
        (put_info-IsThere (u32 (total_packets_of bytes + 1)) seq info buffer h.0, h.1, h.2)
    put_info-Knows seq info buffer (finished true) h = h
    put_info-Knows seq info buffer (finished false) h = h
