-- ===== src/GuardL2/Transfer/Progress/Replies.antt =====
-- The receiver's acknowledgements of what is in flight, and the wait after them.
use cds_guard.Prelude.{
  ℕ, zero, suc, ◌+◌, ◌-◌, ◌^◌, ◌<◌, ◌≤◌, ◌≡◌, refl, sym, ap, ◌∙◌, true, some, List, [], ◌∷◌, ◌++◌,
  append-nil, Bytes, All, length, ◌==◌, ==→≡, Bool-cases, inl, inr, arith,
}
use mathlib.Core.Path.{subst}
use cds_guard.GuardL2.Frame.{Mac, ack_frame}
use cds_guard.GuardL2.Sender.Acks.{parse_ack, parse_ack-ack_frame}
use cds_guard.GuardL2.Transfer.{
  ready, Sender, rto, total_packets_of, is_acked, on_timeouts, after_wait, take_ack, on_parsed_ack,
  Action, hears, turns, step, run,
}
use cds_guard.GuardL2.Transfer.Invariant.{IsThere}
use cds_guard.GuardL2.Transfer.Progress.{
  Grown, Grown-same, Grown-then, take_ack-Grown, AckedFrom, retransmit_seqs-acked, slide-acked,
}

abbrev pub go : Action
go = turns 0 (λ k. 0)

module _ (src dst : Mac) (sid : ℕ) (bytes : Bytes) where
  abbrev pub reply : ℕ → Action
  reply k = hears 0 (ack_frame dst src sid k 0) 39

  -- Every frame that the listener hears is an acknowledgement of the receiver, of one of the session's numbers.
  abbrev pub IsReply : Action → Type 0
  IsReply (hears now buffer n) =
      (k : ℕ) × (k ≤ total_packets_of bytes + 1) × (buffer ≡ ack_frame dst src sid k 0)
  IsReply (turns now clock) = Unit

  abbrev pub runs : List Action → Sender → Sender
  runs = run src dst sid bytes

  pub runs-append : (xs ys : List Action) (st : Sender) → runs (xs ++ ys) st ≡ runs ys (runs xs st)
  unfolding run
  runs-append [] ys st = refl
  runs-append (a ∷ xs) ys st = runs-append xs ys (step src dst sid bytes a st)

  unfoldable pub replies : ℕ → ℕ → List Action
  replies k zero = []
  replies k (suc n) = reply k ∷ replies (k + 1) n

  pub replies-IsReply : (k n : ℕ) → k + n ≤ total_packets_of bytes + 2 → All IsReply (replies k n)
  unfolding replies
  replies-IsReply k zero h = tt
  replies-IsReply k (suc n) h =
      ((k, omega (arith, h), refl), replies-IsReply (k + 1) n (omega (arith, h)))

  -- Between two rounds: everything before `b` is acknowledged, and nothing is in flight.
  pub record IsReady (b : ℕ) (st : Sender) : Type 0 where
    pub at_top : st.phase ≡ ready
    pub base_is : st.send_window_base ≡ b
    pub next_is : st.next_seq_num ≡ b
    pub cwnd_low : 1 ≤ st.window.cwnd
    pub cwnd_high : st.window.cwnd ≤ b + 1
    pub rwnd_in : (1 ≤ st.window.rwnd) × (st.window.rwnd ≤ 512)

  module _ (sid_fits : sid < 2 ^ 32) (fits : total_packets_of bytes + 513 < 2 ^ 32) where
    step-reply :
        (k : ℕ) (st : Sender)
        → k < 2 ^ 32
        → step src dst sid bytes (reply k) st
          ≡ take_ack (length bytes) 0 k 512 (st.send_buffer k) st
    unfolding step
    step-reply k st h =
        ap (λ o. on_parsed_ack (length bytes) 0 o st)
          (subst (λ f. parse_ack src sid f 39 ≡ some (k, 512))
            (append-nil (ack_frame dst src sid k 0))
            (parse_ack-ack_frame dst src sid k 0 39 [] sid_fits h (omega arith)))

    pub reply-Grown :
        (k : ℕ) (st : Sender)
        → k < 2 ^ 32
        → IsThere (st.send_buffer k)
        → Grown 1 st (step src dst sid bytes (reply k) st)
          × (is_acked ((step src dst sid bytes (reply k) st).send_buffer k) ≡ true)
    reply-Grown k st h t =
        subst (λ (r : Sender). Grown 1 st r × (is_acked (r.send_buffer k) ≡ true))
          (sym (step-reply k st h)) (take_ack-Grown (length bytes) k (st.send_buffer k) st refl t)

    pub replies-Grown :
        (n k : ℕ) (st : Sender)
        → k + n < 2 ^ 32
        → ((j : ℕ) → k ≤ j → j < k + n → IsThere (st.send_buffer j))
        → Grown n st (runs (replies k n) st) × AckedFrom k n (runs (replies k n) st).send_buffer
    unfolding replies run
    replies-Grown zero k st h t = (Grown-same st, λ j a b. absurd (omega arith))
    replies-Grown (suc n) k st h t =
        let one = reply-Grown k st (omega arith) (t k (omega arith) (omega arith)) in
        let st' = step src dst sid bytes (reply k) st in
        let rest =
          replies-Grown n (k + 1) st' (omega arith)
            (λ j a b. one.0.there_stays j (t j (omega arith) (omega arith))) in
        let both = Grown-then 1 n st st' (runs (replies (k + 1) n) st') one.0 rest.0 in
        let sum : 1 + n ≡ suc n = omega arith in
        (
          subst (λ m. Grown m st (runs (replies (k + 1) n) st')) sum both,
          λ j a b. elim (Bool-cases (j == k)) [
            | inl e ↦
                subst (λ i. is_acked ((runs (replies (k + 1) n) st').send_buffer i) ≡ true)
                  (sym (==→≡ j k e)) (rest.0.acked_stays k one.1)
            | inr e ↦ rest.1 j (ground arith) (omega arith)
          ],
        )

    -- The wait of a window whose packets are all acknowledged.
    pub after_wait-acked :
        (n : ℕ) (st : Sender)
        → st.next_seq_num ≡ st.send_window_base + n
        → st.send_window_base + n < 2 ^ 32
        → AckedFrom st.send_window_base n st.send_buffer
        → ((after_wait 0 (λ k. 0) st).send_window_base ≡ st.next_seq_num)
          × ((after_wait 0 (λ k. 0) st).next_seq_num ≡ st.next_seq_num)
          × ((after_wait 0 (λ k. 0) st).phase ≡ ready)
          × ((after_wait 0 (λ k. 0) st).window ≡ st.window)
    unfolding after_wait on_timeouts
    after_wait-acked n st e small h =
        let count : st.next_seq_num - st.send_window_base ≡ n = omega (arith, e) in
        let moved = slide-acked n (record st { phase = ready }) small h in
        rw (count, retransmit_seqs-acked st.send_buffer (rto st) 0 n st.send_window_base small h)
          (moved.0 ∙ sym e, moved.1, moved.2, moved.3)
