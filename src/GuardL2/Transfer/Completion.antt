-- ===== src/GuardL2/Transfer/Completion.antt =====
-- What a transfer promises, whatever the two threads do.
use cds_guard.Prelude.{ℕ, ◌+◌, ◌≤◌, ◌≡◌, ◌≢◌, true, List, [], ◌∷◌, Bytes, All, length}
use mathlib.Core.Path.{subst}
use cds_guard.GuardL2.Frame.{Mac}
use cds_guard.GuardL2.Receiver.Session.{count, max_bytes}
use cds_guard.GuardL2.Sender.Rtt.{Rtt}
use cds_guard.GuardL2.Transfer.{threw, finished, Action, hears, turns, run, start}
use cds_guard.GuardL2.Transfer.Invariant.{IsFrame, Knows}
use cds_guard.GuardL2.Transfer.Invariant.Turns.{Hears, run-start}

module _ (src dst : Mac) (sid : ℕ) (bytes : Bytes) (small : length bytes ≤ max_bytes) (now : ℕ)
    (rtt : Rtt) where
  -- For data of at most 1400 * (2 ^ 32 - 2) bytes: when `send_reliable_data` has returned true, whatever
  -- holds of each number of which the listener took an acknowledgement holds of START's, of each
  -- packet's and of END's; so each of them was acknowledged, in whatever order the threads ran.
  pub run-finished :
      (P : ℕ → Type 0) (actions : List Action)
      → All (Hears src sid P) actions
      → (run src dst sid bytes actions (start src dst sid bytes now rtt)).phase ≡ finished true
      → (k : ℕ) → k ≤ count bytes + 1
      → P k
  run-finished P actions h e =
      let v = run-start src dst sid bytes small P now rtt actions h in
      subst
        (Knows src dst sid bytes P
          (run src dst sid bytes actions (start src dst sid bytes now rtt)).send_buffer)
        e v.known

  always : (actions : List Action) → All (Hears src sid (λ k. Unit)) actions
  always [] = tt
  always (hears now buffer n ∷ more) = ((λ seq advertised e. tt), always more)
  always (turns now clock ∷ more) = (tt, always more)

  -- For data of at most 1400 * (2 ^ 32 - 2) bytes the sender looks up no number that its map has not, and
  -- all that it sends are frames of the session: START, packets of the data with their parts, and END.
  pub run-sends :
      (actions : List Action)
      → ((run src dst sid bytes actions (start src dst sid bytes now rtt)).phase ≢ threw)
        × All
            (IsFrame src dst sid bytes)
            (run src dst sid bytes actions (start src dst sid bytes now rtt)).out
  run-sends actions =
      let v = run-start src dst sid bytes small (λ k. Unit) now rtt actions (always actions) in
      (
        λ e.
            subst
              (Knows src dst sid bytes (λ k. Unit)
                (run src dst sid bytes actions (start src dst sid bytes now rtt)).send_buffer)
              e v.known,
        v.sent_only,
      )
