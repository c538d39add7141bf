-- ===== src/GuardL2/Transfer/Invariant/Turns.antt =====
-- Each action keeps the invariant, and so does every run.
use cds_guard.Prelude.{
  ℕ, ◌+◌, ◌<◌, ◌≤◌, ◌≡◌, refl, sym, ap, ◌∙◌, true, false, none, some, List, [], ◌∷◌, Bytes, All,
  length, u32, min, leb, leb→le, ◌==◌, ==→≡, if-elim, Bool-cases, inl, inr, arith,
}
use mathlib.Core.Path.{subst}
use cds_guard.GuardL2.Frame.{Mac, build_frame, type_start, type_end}
use cds_guard.GuardL2.Receiver.Session.{count, max_bytes}
use cds_guard.GuardL2.Receiver.Packets.{sent_start, sent_end, sent_chunk}
use cds_guard.GuardL2.Receiver.Arrivals.{frame_of}
use cds_guard.GuardL2.Sender.Rtt.{Rtt}
use cds_guard.GuardL2.Sender.Frames.{Outgoing, frames_to_send-frame_of}
use cds_guard.GuardL2.Sender.Acks.{parse_ack}
use cds_guard.GuardL2.Transfer.{
  SendBuffer, Phase, ready, waiting, threw, starting, windowed, sending, ending, finished, Sender,
  total_packets_of, begin_end, send_window, turn, Action, hears, turns, step, run, start,
}
use cds_guard.GuardL2.Transfer.Invariant.{IsFrameAt, Data, Knows, IsSender, put_info-IsThere_self}
use cds_guard.GuardL2.Transfer.Invariant.Steps.{
  IsNew, total_packets_of-count, total_packets_of-fits, after_wait-IsSender, send_frames-IsSender,
}
use cds_guard.GuardL2.Transfer.Invariant.Moves.{
  move, on_parsed_ack-IsSender, handshake-IsSender, begin-IsSender,
}

-- Each acknowledgement that the listener takes is of a number with `P`.
abbrev pub Hears : Mac → ℕ → (ℕ → Type 0) → Action → Type 0
Hears src sid P (hears now buffer n) =
    (seq advertised : ℕ) → parse_ack src sid buffer n ≡ some (seq, advertised) → P seq
Hears src sid P (turns now clock) = Unit

module _ (src dst : Mac) (sid : ℕ) (bytes : Bytes) (small : length bytes ≤ max_bytes)
    (P : ℕ → Type 0) where
  abbrev Is : Sender → Type 0
  Is = IsSender src dst sid bytes P

  abbrev At : SendBuffer → Phase → Type 0
  At = Knows src dst sid bytes P

  end_seq : u32 (total_packets_of bytes + 1) ≡ count bytes + 1
  end_seq = omega (arith, total_packets_of-count bytes, total_packets_of-fits bytes small)

  end-IsFrameAt :
      IsFrameAt src dst sid bytes
        (u32 (total_packets_of bytes + 1))
        (build_frame src dst sid (length bytes) type_end (u32 (total_packets_of bytes + 1)) [])
  end-IsFrameAt = (
    sent_end,
    tt,
    ap (λ k. build_frame src dst sid (length bytes) type_end k []) end_seq,
    sym end_seq,
  )

  begin_end-IsSender :
      (now : ℕ) (st : Sender)
      → P 0
      → Data src dst sid bytes P
      → Is st
      → Is (begin_end src dst sid bytes now st)
  unfolding begin_end
  begin_end-IsSender now st p d v =
      begin-IsSender src dst sid bytes P (u32 (total_packets_of bytes + 1)) now _ (ending 1) st
        end-IsFrameAt
        (λ info.
          (put_info-IsThere_self (u32 (total_packets_of bytes + 1)) info st.send_buffer, p, d))
        v

  -- What the loop makes from a number that is not 0 are new packets of the data.
  All-IsNew :
      (first limit : ℕ) (os : List Outgoing)
      → 1 ≤ first
      → All
          (λ (o : Outgoing).
            (first ≤ o.seq)
            × (o.seq < limit)
            × (o.seq ≤ total_packets_of bytes)
            × (o.frame ≡ frame_of dst src sid bytes (sent_chunk o.seq)))
          os
      → All (IsNew src dst sid bytes) os
  All-IsNew first limit [] f h = tt
  All-IsNew first limit (o ∷ os) f h =
      ((omega (arith, h.0.0), h.0.2, h.0.3), All-IsNew first limit os f h.1)

  send_window-IsSender :
      (clock : ℕ → ℕ) (w : ℕ) (st : Sender)
      → P 0
      → Is st
      → Is (send_window src dst sid bytes clock w st)
  unfolding send_window
  send_window-IsSender clock w st p v =
      let limit = u32 (st.send_window_base + w) in
      let total = total_packets_of bytes in
      send_frames-IsSender src dst sid bytes small P clock _ (record st { phase = waiting })
        (All-IsNew st.next_seq_num limit _ v.first (
          frames_to_send-frame_of src dst sid bytes limit total (total_packets_of-fits bytes small)
            (total + 1) st.next_seq_num))
        (move src dst sid bytes P st waiting p v)

  all_data :
      (st : Sender)
      → leb st.send_window_base (total_packets_of bytes) ≡ false
      → Is st
      → Data src dst sid bytes P
  all_data st f v k low high = v.below k low (ground (arith, total_packets_of-count bytes))

  -- With END acknowledged all numbers are.
  all_numbers :
      P 0
      → Data src dst sid bytes P
      → P (u32 (total_packets_of bytes + 1))
      → (k : ℕ) → k ≤ count bytes + 1
      → P k
  all_numbers p d e k h = elim (Bool-cases (k == 0)) [
    | inl t ↦ subst P (sym (==→≡ k 0 t)) p
    | inr f ↦ elim (Bool-cases (leb k (count bytes))) [
      | inl t ↦ d k (ground arith) (leb→le k (count bytes) t)
      | inr g ↦ subst P (end_seq ∙ ground arith) e
    ]
  ]

  turn-IsSender :
      (now : ℕ) (clock : ℕ → ℕ) (phase : Phase) (st : Sender)
      → At st.send_buffer phase
      → Is st
      → Is (turn src dst sid bytes now clock phase st)
  unfolding turn
  turn-IsSender now clock (starting tries) st k v =
      handshake-IsSender src dst sid bytes P (st.send_buffer 0) 0 ready starting tries st k
        (v.buffered 0) (λ p. p) k v
  turn-IsSender now clock ready st k v =
      if-elim Is (leb st.send_window_base (total_packets_of bytes))
        (λ t. move src dst sid bytes P st (windowed (u32 st.window.cwnd)) k v)
        (λ f. begin_end-IsSender now st k (all_data st f v) v)
  turn-IsSender now clock (windowed cwnd) st k v =
      move src dst sid bytes P st (sending (min cwnd st.window.rwnd)) k v
  turn-IsSender now clock (sending w) st k v = send_window-IsSender clock w st k v
  turn-IsSender now clock waiting st k v =
      after_wait-IsSender src dst sid bytes small P now clock st k v
  turn-IsSender now clock (ending tries) st k v =
      handshake-IsSender src dst sid bytes P (st.send_buffer (u32 (total_packets_of bytes + 1)))
        (u32 (total_packets_of bytes + 1)) (finished true) ending tries st k.0
        (v.buffered (u32 (total_packets_of bytes + 1))) (all_numbers k.1 k.2) k v
  turn-IsSender now clock (finished result) st k v = v
  turn-IsSender now clock threw st k v = v

  step-IsSender :
      (a : Action) (st : Sender) → Hears src sid P a → Is st → Is (step src dst sid bytes a st)
  unfolding step
  step-IsSender (hears now buffer n) st h v =
      on_parsed_ack-IsSender src dst sid bytes P now (parse_ack src sid buffer n) st h v
  step-IsSender (turns now clock) st h v = turn-IsSender now clock st.phase st v.known v

  run-IsSender :
      (actions : List Action) (st : Sender)
      → All (Hears src sid P) actions
      → Is st
      → Is (run src dst sid bytes actions st)
  unfolding run
  run-IsSender [] st h v = v
  run-IsSender (a ∷ more) st h v =
      run-IsSender more (step src dst sid bytes a st) h.1 (step-IsSender a st h.0 v)

  -- Every run of a transfer keeps the invariant.
  pub run-start :
      (now : ℕ) (rtt : Rtt) (actions : List Action)
      → All (Hears src sid P) actions
      → Is (run src dst sid bytes actions (start src dst sid bytes now rtt))
  unfolding start
  run-start now rtt actions h = run-IsSender actions _ h (
      begin-IsSender src dst sid bytes P 0 now
        (build_frame src dst sid (length bytes) type_start 0 []) (starting 1) _
        (sent_start, tt, refl, refl) (λ info. put_info-IsThere_self 0 info (λ k. none))
        (record {
          buffered = λ k. tt;
          below = λ k low high. absurd (omega arith);
          first = omega arith;
          sent_only = tt;
          known = tt;
        }))
