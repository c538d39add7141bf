-- ===== src/Examples/Delivery.antt =====
-- A transfer of three bytes on concrete inputs: the sender's machine alone and with the receiver.
use cds_guard.Prelude.{
  ℕ, ◌≡◌, ◌<◌, ◌*◌, ◌≢◌, refl, true, false, none, some, List, [], ◌∷◌, Bytes, All, ap, append-nil,
  replicate, arith,
}
use cds_guard.GuardL2.Wire.{htons, htonl}
use cds_guard.GuardL2.Sender.Frames.{frames_to_send}
use cds_guard.GuardL2.Sender.Window.{start_window, on_ack_received}
use cds_guard.GuardL2.Frame.{Mac, mac_eq, ack_frame, build_frame}
use cds_guard.GuardL2.Receiver.{Receiver, new_session, running, returned, receive_reliable_data}
use cds_guard.GuardL2.Receiver.Packets.{sent_start, sent_chunk, sent_end}
use cds_guard.GuardL2.Receiver.Arrivals.{Arrival, sent, events_of, Arrives}
use cds_guard.GuardL2.Receiver.Transfer.{receive_reliable_data-completes}
use cds_guard.GuardL2.Sender.Rtt.{start_rtt}
use cds_guard.GuardL2.Sender.Acks.{parse_ack, parse_ack-ack_frame}
use cds_guard.GuardL2.Transfer.{
  SendBuffer, put_info, waiting, next_timeout, is_acked, threw, finished, Sender, Action, hears,
  turns, run, start, total_packets_of, step, turn, begin, begin_end, handshake, send_window,
  send_frames, take_ack, after_wait, slide, on_timeouts, retransmit_seqs, is_expired,
}
use cds_guard.GuardL2.Transfer.Completion.{run-finished, run-sends}
use cds_guard.GuardL2.Transfer.Silence.{start_frame, run-unanswered}
use cds_guard.GuardL2.Transfer.Timeouts.{
  is_never, none_waits, is_due, is_some_seq, retransmit_seqs-next_timeout,
}
use cds_guard.GuardL2.Transfer.Shape.{IsWindow, after_wait-IsWindow}
use cds_guard.GuardL2.Transfer.Shape.Runs.{InShape, run_shape}
use cds_guard.GuardL2.Transfer.Invariant.{IsFrame}
use cds_guard.GuardL2.Transfer.Invariant.Turns.{Hears}
use cds_guard.GuardL2.Transfer.Progress.Replies.{IsReply}
use cds_guard.GuardL2.Transfer.Progress.Completes.{run_completes}
use cds_guard.GuardL2.Delivery.{delivered}

abbrev guard : Mac
guard = record { m0 = 2; m1 = 0; m2 = 0; m3 = 0; m4 = 0; m5 = 1 }

abbrev gateway : Mac
gateway = record { m0 = 2; m1 = 0; m2 = 0; m3 = 0; m4 = 0; m5 = 2 }

abbrev text : Bytes
text = 1 ∷ 2 ∷ 3 ∷ []

abbrev ack : ℕ → Action
ack k = hears (1000 * k) (ack_frame guard gateway 7 k 0) 39

abbrev go : Action
go = turns 5000 (λ k. 5000)

abbrev answered : List Action
answered = ack 0 ∷ go ∷ go ∷ go ∷ go ∷ ack 1 ∷ go ∷ go ∷ ack 2 ∷ go ∷ []

run-answered :
    (run gateway guard 7 text answered (start gateway guard 7 text 0 start_rtt)).phase
    ≡ finished true
unfolding run start step turn begin begin_end handshake send_window send_frames take_ack after_wait
    slide on_timeouts retransmit_seqs is_expired parse_ack ack_frame build_frame mac_eq htons htonl
    frames_to_send on_ack_received
run-answered = refl

abbrev idle : Receiver
idle = new_session [] []

abbrev arrivals : List Arrival
arrivals = sent (sent_chunk 1) [] ∷ sent sent_end [] ∷ []

arrivals-Arrives : All (Arrives guard gateway 7 text) arrivals
arrivals-Arrives = (((omega arith, omega arith), omega arith), ((tt, omega arith), tt))

received :
    receive_reliable_data 4096 guard
      (events_of guard gateway 7 text (sent sent_start [] ∷ arrivals))
      (running idle)
    ≡ returned text
received =
    receive_reliable_data-completes 4096 guard gateway 7 text (omega arith) (omega arith)
      (omega arith) [] (λ j. []) [] idle (omega arith) (λ j. omega arith) tt

delivered_example :
    receive_reliable_data 4096 guard
      (events_of guard gateway 7 text (sent sent_start [] ∷ arrivals))
      (running idle)
    ≡ returned text
delivered_example =
    delivered 4096 guard gateway 7 text (omega arith) (omega arith) (omega arith) [] arrivals idle 0
      start_rtt answered (omega arith) ((λ e. cc e), ((λ e. cc e), tt)) arrivals-Arrives tt
      (λ last e. absurd (let r = received in cc)) run-answered

ack-Hears : (k : ℕ) → k < 3 → Hears gateway 7 (λ j. j < 3) (ack k)
ack-Hears k h seq w e =
    let read =
      parse_ack-ack_frame guard gateway 7 k 0 39 [] (omega arith) (omega arith) (omega arith) in
    let plain = ap (λ f. parse_ack gateway 7 f 39) (append-nil (ack_frame guard gateway 7 k 0)) in
    let same : k ≡ seq = cc in omega arith

answered-Hears : All (Hears gateway 7 (λ j. j < 3)) answered
answered-Hears = (
  ack-Hears 0 (omega arith),
  (
    tt,
    (
      tt,
      (tt, (tt, (ack-Hears 1 (omega arith), (tt, (tt, (ack-Hears 2 (omega arith), (tt, tt))))))),
    ),
  ),
)

run-finished_example : 2 < 3
run-finished_example =
    run-finished gateway guard 7 text (omega arith) 0 start_rtt (λ k. k < 3) answered answered-Hears
      run-answered 2 (omega arith)

run-sends_example :
    ((run gateway guard 7 text answered (start gateway guard 7 text 0 start_rtt)).phase ≢ threw)
    × All
        (IsFrame gateway guard 7 text)
        (run gateway guard 7 text answered (start gateway guard 7 text 0 start_rtt)).out
run-sends_example = run-sends gateway guard 7 text (omega arith) 0 start_rtt answered

abbrev silent : List Action
silent = go ∷ hears 9 (5 ∷ []) 1 ∷ go ∷ go ∷ go ∷ go ∷ go ∷ []

run-unanswered_example :
    ((run gateway guard 7 text silent (start gateway guard 7 text 0 start_rtt)).phase
      ≡ finished false)
    × ((run gateway guard 7 text silent (start gateway guard 7 text 0 start_rtt)).out
        ≡ replicate 5 (start_frame gateway guard 7 text 0 start_rtt))
unfolding parse_ack
run-unanswered_example =
    run-unanswered gateway guard 7 text 0 start_rtt silent
      (tt, (refl, (tt, (tt, (tt, (tt, (tt, tt))))))) (omega arith)

run_shape_example :
    InShape
      (total_packets_of text)
      (run gateway guard 7 text answered (start gateway guard 7 text 0 start_rtt)).phase
      (run gateway guard 7 text answered (start gateway guard 7 text 0 start_rtt))
run_shape_example = run_shape gateway guard 7 text (omega arith) 0 start_rtt answered

-- Two frames in flight, of which the first is acknowledged.
abbrev flight : SendBuffer
flight =
    put_info 1 (some (record { frame_data = []; time_sent = 100; acked = true }))
      (put_info 2 (some (record { frame_data = []; time_sent = 200; acked = false })) (λ k. none))

abbrev in_flight : Sender
in_flight = record {
  send_buffer = flight;
  window = start_window;
  rtt = start_rtt;
  send_window_base = 1;
  next_seq_num = 3;
  phase = waiting;
  out = [];
}

retransmit_seqs-next_timeout_example :
    (is_never (next_timeout flight 40 2 1) ≡ none_waits flight 2 1)
    × (is_due 250 (next_timeout flight 40 2 1) ≡ is_some_seq (retransmit_seqs flight 40 250 2 1))
retransmit_seqs-next_timeout_example = retransmit_seqs-next_timeout flight 40 250 2 1

due_then : retransmit_seqs flight 40 250 2 1 ≡ 2 ∷ []
unfolding retransmit_seqs is_expired
due_then = refl

after_wait-IsWindow_example :
    IsWindow 4 (after_wait 150 (λ k. 150) in_flight)
    × (is_acked (
          (after_wait 150 (λ k. 150) in_flight).send_buffer
            (after_wait 150 (λ k. 150) in_flight).send_window_base)
        ≡ false)
after_wait-IsWindow_example =
    after_wait-IsWindow 4 150 (λ k. 150) in_flight (omega arith)
      (record {
        low = omega arith;
        order = omega arith;
        high = omega arith;
        unused = λ k low. ground arith;
      })

run_completes_example :
    (xs : List Action) × All (IsReply gateway guard 7 text) xs
    × ((run gateway guard 7 text xs (start gateway guard 7 text 0 start_rtt)).phase ≡ finished true)
run_completes_example = run_completes gateway guard 7 text (omega arith) (omega arith) 0 start_rtt
