-- ===== src/GuardL2/Transfer/Progress/Completes.antt =====
-- From the start of a transfer to its end.
use cds_guard.Prelude.{
  ℕ, zero, suc, ◌+◌, ◌-◌, ◌^◌, ◌<◌, ◌≤◌, ◌≡◌, refl, sym, ap, ◌∙◌, true, Option, none, some, List,
  [], ◌∷◌, ◌++◌, Bytes, All, All-append, u32, leb, if-elim, Bool-cases, inl, inr, arith,
}
use mathlib.Core.Path.{subst}
use cds_guard.GuardL2.Frame.{Mac}
use cds_guard.GuardL2.Sender.Rtt.{Rtt}
use cds_guard.GuardL2.Transfer.{
  SentPacketInfo, Phase, ready, starting, ending, finished, Sender, total_packets_of, is_acked,
  begin, handshake, begin_end, turn, Action, step, run, start,
}
use cds_guard.GuardL2.Transfer.Invariant.{IsThere, put_info-IsThere_self}
use cds_guard.GuardL2.Transfer.Progress.{Grown}
use cds_guard.GuardL2.Transfer.Progress.Replies.{
  go, reply, IsReply, runs, runs-append, replies, replies-IsReply, IsReady, reply-Grown,
}
use cds_guard.GuardL2.Transfer.Progress.Rounds.{size_of, size_bounds, round, round-IsReady}

handshake_acked :
    (o : Option SentPacketInfo) (success : Phase) (again : ℕ → Phase) (tries : ℕ) (st : Sender)
    → is_acked o ≡ true
    → handshake o success again tries st ≡ record st { phase = success }
unfolding handshake
handshake_acked none success again tries st h = cc
handshake_acked (some info) success again tries st h = rw h

module _ (src dst : Mac) (sid : ℕ) (bytes : Bytes) (sid_fits : sid < 2 ^ 32)
    (fits : total_packets_of bytes + 513 < 2 ^ 32) where
  abbrev total : ℕ
  total = total_packets_of bytes

  abbrev Ready : ℕ → Sender → Type 0
  Ready b st = IsReady src dst sid bytes b st

  abbrev Reply : Action → Type 0
  Reply = IsReply src dst sid bytes

  round-IsReply :
      (b : ℕ) (st : Sender)
      → Ready b st
      → b ≤ total
      → All Reply (round src dst sid bytes sid_fits fits b st)
  unfolding round
  round-IsReply b st r h = (
    tt,
    (
      tt,
      (
        tt,
        All-append Reply (replies src dst sid bytes b (size_of src dst sid bytes sid_fits fits st))
            (go ∷ [])
            (replies-IsReply src dst sid bytes b (size_of src dst sid bytes sid_fits fits st)
              (omega (arith, (size_bounds src dst sid bytes sid_fits fits b st r h).1)))
            (tt, tt),
      ),
    ),
  )

  -- Rounds to the last packet.
  rounds :
      (fuel b : ℕ) (st : Sender)
      → Ready b st
      → b ≤ total + 1
      → total + 1 - b ≤ fuel
      → (xs : List Action) × All Reply xs × Ready (total + 1) (runs src dst sid bytes xs st)
  unfolding run
  rounds zero b st r h f = ([], tt, subst (λ k. Ready k st) (omega (arith, h, f)) r)
  rounds (suc fuel) b st r h f = elim (Bool-cases (leb b total)) [
    | inl t ↦
        let low : b ≤ total = ground arith in
        let now = round src dst sid bytes sid_fits fits b st in
        let bounds = size_bounds src dst sid bytes sid_fits fits b st r low in
        let (xs, replied, last) =
          rounds fuel (b + size_of src dst sid bytes sid_fits fits st)
            (runs src dst sid bytes now st)
            (round-IsReady src dst sid bytes sid_fits fits b st r low) bounds.1
            (omega (arith, bounds.0, f)) in
        (
          now ++ xs,
          All-append Reply now xs (round-IsReply b st r low) replied,
          subst (Ready (total + 1)) (sym (runs-append src dst sid bytes now xs st)) last,
        )
    | inr e ↦ ([], tt, subst (λ k. Ready k st) (ground arith) r)
  ]

  answer_to : ℕ → Sender → Sender
  answer_to k st = step src dst sid bytes (reply src dst sid bytes k) st

  -- The first acknowledgement and the turn after it.
  begun : Sender → Sender
  unfolding answer_to
  begun st = record (answer_to 0 st) { phase = ready }

  start_turn :
      (st : Sender)
      → st.phase ≡ starting 1
      → is_acked (st.send_buffer 0) ≡ true
      → step src dst sid bytes go st ≡ record st { phase = ready }
  unfolding step turn
  start_turn st e h =
      ap (λ p. turn src dst sid bytes 0 (λ k. 0) p st) e
      ∙ handshake_acked (st.send_buffer 0) ready starting 1 st h

  first_answer :
      (now : ℕ) (rtt : Rtt)
      → Grown 1 (start src dst sid bytes now rtt) (answer_to 0 (start src dst sid bytes now rtt))
        × (is_acked ((answer_to 0 (start src dst sid bytes now rtt)).send_buffer 0) ≡ true)
  unfolding answer_to start begin
  first_answer now rtt =
      reply-Grown src dst sid bytes sid_fits fits 0 (start src dst sid bytes now rtt) (omega arith)
        tt

  begun-IsReady : (now : ℕ) (rtt : Rtt) → Ready 1 (begun (start src dst sid bytes now rtt))
  unfolding begun start begin
  begun-IsReady now rtt =
      let g = (first_answer now rtt).0 in
      record {
        at_top = refl;
        base_is = g.base_is;
        next_is = g.next_is;
        cwnd_low = g.cwnd_low (omega arith);
        cwnd_high = g.cwnd_high;
        rwnd_in = g.rwnd_in (omega arith, omega arith);
      }

  started : (now : ℕ) (rtt : Rtt) → (start src dst sid bytes now rtt).phase ≡ starting 1
  unfolding start begin
  started now rtt = refl

  begun_lem :
      (now : ℕ) (rtt : Rtt)
      → runs src dst sid bytes
          (reply src dst sid bytes 0 ∷ go ∷ [])
          (start src dst sid bytes now rtt)
        ≡ begun (start src dst sid bytes now rtt)
  unfolding run begun
  begun_lem now rtt =
      let f = first_answer now rtt in
      start_turn (answer_to 0 (start src dst sid bytes now rtt)) (f.0.phase_is ∙ started now rtt)
        f.1

  -- The END handshake of a sender that is ready behind the last packet.
  end_turn :
      (st : Sender)
      → st.phase ≡ ready
      → st.send_window_base ≡ total + 1
      → step src dst sid bytes go st ≡ begin_end src dst sid bytes 0 st
  unfolding step turn
  end_turn st e h =
      ap (λ p. turn src dst sid bytes 0 (λ k. 0) p st) e
      ∙ if-elim (λ (r : Sender). r ≡ begin_end src dst sid bytes 0 st)
          (leb st.send_window_base total) (λ t. absurd (ground (arith, h))) (λ f. refl)

  last_turn :
      (st : Sender)
      → st.phase ≡ ending 1
      → is_acked (st.send_buffer (u32 (total + 1))) ≡ true
      → (step src dst sid bytes go st).phase ≡ finished true
  unfolding step turn
  last_turn st e h =
      ap (λ p. (turn src dst sid bytes 0 (λ k. 0) p st).phase) e
      ∙ ap (λ (r : Sender). r.phase)
          (handshake_acked (st.send_buffer (u32 (total + 1))) (finished true) ending 1 st h)

  in_map :
      (st : Sender) → IsThere ((begin_end src dst sid bytes 0 st).send_buffer (u32 (total + 1)))
  unfolding begin_end begin
  in_map st = put_info-IsThere_self (u32 (total + 1)) _ st.send_buffer

  begin_end-ending : (st : Sender) → (begin_end src dst sid bytes 0 st).phase ≡ ending 1
  unfolding begin_end begin
  begin_end-ending st = refl

  ends :
      (st : Sender)
      → Ready (total + 1) st
      → (runs src dst sid bytes (go ∷ reply src dst sid bytes (u32 (total + 1)) ∷ go ∷ []) st).phase
        ≡ finished true
  unfolding run answer_to
  ends st r =
      let shut = begin_end src dst sid bytes 0 st in
      let answered =
        reply-Grown src dst sid bytes sid_fits fits (u32 (total + 1)) shut (omega arith)
          (in_map st) in
      ap (λ (s : Sender). (step src dst sid bytes go (answer_to (u32 (total + 1)) s)).phase)
        (end_turn st r.at_top r.base_is)
      ∙ last_turn (answer_to (u32 (total + 1)) shut) (answered.0.phase_is ∙ begin_end-ending st)
          answered.1

  -- For a session of 32 bits and data of fewer than 2 ^ 32 - 513 packets, from any estimate of the round
  -- trip: there is a run in which all that the listener hears are acknowledgements that the receiver makes
  -- of START, of the packets and of END, and at whose end `send_reliable_data` has returned true.
  pub run_completes :
      (now : ℕ) (rtt : Rtt)
      → (xs : List Action) × All (IsReply src dst sid bytes) xs
        × ((run src dst sid bytes xs (start src dst sid bytes now rtt)).phase ≡ finished true)
  run_completes now rtt =
      let first = reply src dst sid bytes 0 ∷ go ∷ [] in
      let last = go ∷ reply src dst sid bytes (u32 (total + 1)) ∷ go ∷ [] in
      let begin_state = start src dst sid bytes now rtt in
      let (xs, replied, done) =
        rounds (total + 1) 1 (begun begin_state) (begun-IsReady now rtt) (omega arith)
          (omega arith) in
      (
        first ++ (xs ++ last),
        (
          (0, omega arith, refl),
          (
            tt,
            All-append Reply xs last replied (tt, ((u32 (total + 1), omega arith, refl), (tt, tt))),
          ),
        ),
        ap (λ (st : Sender). st.phase)
              (runs-append src dst sid bytes first (xs ++ last) begin_state
                ∙ ap (runs src dst sid bytes (xs ++ last)) (begun_lem now rtt)
                ∙ runs-append src dst sid bytes xs last (begun begin_state))
            ∙ ends (runs src dst sid bytes xs (begun begin_state)) done,
      )
