-- ===== src/Examples/Transfer.antt =====
-- A transfer of three bytes, with a repeated packet and a stray frame.
use cds_guard.Prelude.{◌≡◌, ◌*◌, ◌-◌, ◌⊎◌, false, List, [], ◌∷◌, ◌++◌, Bytes, take, All, arith}
use cds_guard.GuardL2.Frame.{Mac, parse_frame}
use cds_guard.GuardL2.Receiver.{
  Receiver, running, returned, new_session, contains, drain, receive_reliable_data,
}
use cds_guard.GuardL2.Receiver.Session.{count}
use cds_guard.GuardL2.Receiver.Packets.{sent_start, sent_chunk}
use cds_guard.GuardL2.Receiver.Buffer.{drain_done}
use cds_guard.GuardL2.Receiver.Arrivals.{Arrival, sent, stray, Arrives, events_of, in_order}
use cds_guard.GuardL2.Receiver.Transfer.{
  receive_reliable_data-completes, receive_reliable_data-safe,
}

abbrev here : Mac
here = record { m0 = 2; m1 = 0; m2 = 0; m3 = 0; m4 = 0; m5 = 1 }

abbrev there : Mac
there = record { m0 = 2; m1 = 0; m2 = 0; m3 = 0; m4 = 0; m5 = 2 }

abbrev three_bytes : Bytes
three_bytes = 1 ∷ 2 ∷ 3 ∷ []

abbrev arrivals : List Arrival
arrivals = sent (sent_chunk 1) (0 ∷ []) ∷ stray (9 ∷ []) ∷ sent (sent_chunk 1) [] ∷ []

arrivals-Arrives : All (Arrives here there 7 three_bytes) arrivals
unfolding parse_frame
arrivals-Arrives = (
  ((omega arith, omega arith), omega arith),
  ((λ buffer. tt), (((omega arith, omega arith), omega arith), tt)),
)

abbrev idle : Receiver
idle = new_session [] []

receive_reliable_data-completes_example :
    receive_reliable_data 4096 here
      (events_of here there 7 three_bytes (
        sent sent_start []
        ∷ (arrivals ++ in_order here there 7 three_bytes (λ j. []) (count three_bytes) 1)))
      (running idle)
    ≡ returned three_bytes
receive_reliable_data-completes_example =
    receive_reliable_data-completes 4096 here there 7 three_bytes (omega arith) (omega arith)
      (omega arith) [] (λ j. []) arrivals idle (omega arith) (λ j. omega arith) arrivals-Arrives

receive_reliable_data-safe_example :
    (receive_reliable_data 4096 here
        (events_of here there 7 three_bytes (sent sent_start [] ∷ arrivals))
        (running idle)
      ≡ returned three_bytes)
    ⊎ ((now : Receiver) × (receive_reliable_data 4096 here
            (events_of here there 7 three_bytes (sent sent_start [] ∷ arrivals))
            (running idle)
          ≡ running now)
        × (now.current_session_id ≡ 7)
        × (now.reassembled_data ≡ take ((now.receive_window_base - 1) * 1400) three_bytes))
receive_reliable_data-safe_example =
    receive_reliable_data-safe 4096 here there 7 three_bytes (omega arith) (omega arith)
      (omega arith) [] arrivals idle (omega arith) arrivals-Arrives

abbrev waiting : Receiver
waiting = record idle {
  receive_window_base = 2;
  out_of_order_buffer = record { seq = 2; payload = 5 ∷ [] } ∷ [];
}

drain_done_example :
    contains (drain 1 waiting).receive_window_base (drain 1 waiting).out_of_order_buffer ≡ false
drain_done_example = drain_done 1 waiting (omega arith)
