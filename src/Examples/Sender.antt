-- ===== src/Examples/Sender.antt =====
-- The sender's windows, timeout, frames and acknowledgements on concrete inputs.
use cds_guard.Prelude.{
  ℕ, ◌≡◌, ◌≤◌, ◌<◌, ◌+◌, ◌-◌, some, List, [], ◌∷◌, ◌++◌, Bytes, All, length, replicate, arith,
}
use cds_guard.GuardL2.Frame.{Mac, ack_frame}
use cds_guard.GuardL2.Receiver.Packets.{sent_chunk}
use cds_guard.GuardL2.Receiver.Arrivals.{frame_of}
use cds_guard.GuardL2.Sender.Window.{Window, WindowEvent, acked, lost, start_window, run_window}
use cds_guard.GuardL2.Sender.Window.Growth.{run_window_bounded}
use cds_guard.GuardL2.Sender.Rtt.{start_rtt, get_rto, update_all, get_rto_bounded}
use cds_guard.GuardL2.Sender.Frames.{Outgoing, frames_to_send, frames_to_send-frame_of}
use cds_guard.GuardL2.Sender.Acks.{parse_ack, parse_ack-ack_frame}

abbrev here : Mac
here = record { m0 = 2; m1 = 0; m2 = 0; m3 = 0; m4 = 0; m5 = 1 }

abbrev there : Mac
there = record { m0 = 2; m1 = 0; m2 = 0; m3 = 0; m4 = 0; m5 = 2 }

abbrev events : List WindowEvent
events = acked 0 512 ∷ acked 1 511 ∷ lost ∷ acked 2 512 ∷ []

run_window_bounded_example :
    (1 ≤ (run_window 4000 events start_window).cwnd)
    × ((run_window 4000 events start_window).cwnd ≤ 1 + length events)
    × (2 ≤ (run_window 4000 events start_window).ssthresh)
    × ((run_window 4000 events start_window).ack_count < (run_window 4000 events start_window).cwnd)
run_window_bounded_example = run_window_bounded 4000 events (omega arith)

abbrev steady : Window
steady = record { cwnd = 4; ssthresh = 2; ack_count = 1; rwnd = 64 }

abbrev samples : List ℕ
samples = 900000 ∷ 40000000 ∷ 0 ∷ []

get_rto_bounded_example :
    (200 ≤ get_rto (update_all samples start_rtt))
    × (get_rto (update_all samples start_rtt) ≤ 3000)
    × ((update_all samples start_rtt).srtt ≤ 40000)
    × ((update_all samples start_rtt).rttvar ≤ 40000)
get_rto_bounded_example =
    get_rto_bounded 40000 samples (omega arith, (omega arith, (omega arith, tt)))

abbrev long_data : Bytes
long_data = replicate 3000 7

frames_to_send-frame_of_example :
    All
      (λ (o : Outgoing).
        (2 ≤ o.seq)
        × (o.seq < 9)
        × (o.seq ≤ 3)
        × (o.frame ≡ frame_of here there 5 long_data (sent_chunk o.seq)))
      (frames_to_send there here 5 long_data 9 3 4 2)
frames_to_send-frame_of_example =
    frames_to_send-frame_of there here 5 long_data 9 3 (omega arith) 4 2

parse_ack-ack_frame_example :
    parse_ack there 5 (ack_frame here there 5 2 10 ++ replicate 21 0) 60 ≡ some (2, 512 - 10)
parse_ack-ack_frame_example =
    parse_ack-ack_frame here there 5 2 10 60 (replicate 21 0) (omega arith) (omega arith)
      (omega arith)
