-- ===== src/GuardL2/Transfer/Progress/Sends.antt =====
-- The frames that a turn of the loop sends, one for each number.
use cds_guard.Prelude.{
  ℕ, zero, suc, ◌+◌, ◌^◌, ◌<◌, ◌≤◌, ◌≡◌, refl, sym, false, ◌&&◌, some, List, [], ◌∷◌, Bytes, length,
  u32, leb, ltb, ◌==◌, if◌then◌else◌, if-elim, arith,
}
use mathlib.Core.Path.{subst}
use cds_guard.GuardL2.Frame.{Mac}
use cds_guard.GuardL2.Sender.Frames.{Outgoing, frames_to_send}
use cds_guard.GuardL2.Transfer.{put_info, Sender, send_frames}
use cds_guard.GuardL2.Transfer.Invariant.{IsThere}

-- The frames have the numbers from `next` on.
abbrev pub IsConsecutive : ℕ → List Outgoing → Type 0
IsConsecutive next [] = Unit
IsConsecutive next (o ∷ os) = (o.seq ≡ next) × (next + 1 < 2 ^ 32) × IsConsecutive (next + 1) os

pub frames_to_send-IsConsecutive :
    (src dst : Mac) (sid : ℕ) (bytes : Bytes) (limit total fuel seq : ℕ)
    → total + 1 < 2 ^ 32
    → IsConsecutive seq (frames_to_send src dst sid bytes limit total fuel seq)
unfolding frames_to_send
frames_to_send-IsConsecutive src dst sid bytes limit total zero seq fits = tt
frames_to_send-IsConsecutive src dst sid bytes limit total (suc fuel) seq fits =
    if-elim (IsConsecutive seq) (ltb seq limit && leb seq total)
      (λ t. (
        refl,
        ground arith,
        subst
            (λ k.
              IsConsecutive k (frames_to_send src dst sid bytes limit total fuel (u32 (seq + 1))))
            (no_wrap (ground arith))
            (frames_to_send-IsConsecutive src dst sid bytes limit total fuel (u32 (seq + 1)) fits),
      ))
      (λ f. tt)
  where
    no_wrap : seq ≤ total → u32 (seq + 1) ≡ seq + 1
    no_wrap h = omega arith

-- The map holds what lies between the ends of the window.
abbrev pub IsFull : Sender → Type 0
IsFull st = (k : ℕ) → st.send_window_base ≤ k → k < st.next_seq_num → IsThere (st.send_buffer k)

pub send_frames-IsFull :
    (clock : ℕ → ℕ) (os : List Outgoing) (st : Sender)
    → IsConsecutive st.next_seq_num os
    → IsFull st
    → IsFull (send_frames clock os st)
      × ((send_frames clock os st).send_window_base ≡ st.send_window_base)
      × ((send_frames clock os st).next_seq_num ≡ st.next_seq_num + length os)
      × ((send_frames clock os st).phase ≡ st.phase)
      × ((send_frames clock os st).window ≡ st.window)
unfolding send_frames
send_frames-IsFull clock [] st c h = (h, refl, omega arith, refl, refl)
send_frames-IsFull clock (o ∷ os) st c h =
    let rest =
      send_frames-IsFull clock os now (subst (λ k. IsConsecutive k os) (sym moved) c.2) full in
    (rest.0, rest.1, omega (arith, rest.2, moved), rest.3, rest.4)
  where
    now : Sender
    now = record st {
      send_buffer =
          put_info o.seq
            (some (record { frame_data = o.frame; time_sent = clock o.seq; acked = false }))
            st.send_buffer;
      next_seq_num = if leb st.next_seq_num o.seq then u32 (o.seq + 1) else st.next_seq_num;
      out = o.frame ∷ st.out;
    }

    moved : now.next_seq_num ≡ st.next_seq_num + 1
    moved =
        if-elim (λ (n : ℕ). n ≡ st.next_seq_num + 1) (leb st.next_seq_num o.seq)
          (λ t. omega (arith, c.0, c.1)) (λ f. absurd (ground (arith, c.0)))

    full : IsFull now
    full k low high =
        if-elim IsThere (k == o.seq) (λ t. tt) (λ f. h k low (ground (arith, moved, c.0)))
