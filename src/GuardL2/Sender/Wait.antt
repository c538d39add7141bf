-- ===== src/GuardL2/Sender/Wait.antt =====
-- `wait_for_ack`, which nothing calls any more, and the checks of the listener, which took its place.
use cds_guard.Prelude.{
  ℕ, ◌≡◌, Bool, true, false, not, ◌&&◌, Option, none, some, List, [], ◌∷◌, Bytes, ltb, ◌==◌,
  if◌then◌else◌, arith,
}
use cds_guard.Aria.Block.{at}
use cds_guard.GuardL2.Wire.{load16, load32, htons, htonl}
use cds_guard.GuardL2.Frame.{Mac, mac_at, mac_eq, ethertype_guard_l2, type_ack}
use cds_guard.GuardL2.Sender.Acks.{parse_ack}

-- What `select` and `recv` report: nothing in time, an error, or `n` bytes in the buffer.
pub data Report : Type 0 where
  timed_out select_failed : Report
  readable : Bytes → ℕ → Report

unfoldable pub is_expected_ack : Mac → ℕ → ℕ → Bytes → ℕ → Bool
is_expected_ack src_mac session_id expected buffer n =
    if ltb n 39
    then false
    else if not (htons (load16 buffer 12) == ethertype_guard_l2)
    then false
    else if not (mac_eq (mac_at buffer 0) src_mac)
    then false
    else if not (htonl (load32 buffer 15) == session_id)
    then false
    else at buffer 14 == type_ack && htonl (load32 buffer 19) == expected

-- The result, or `none` while the loop goes on.
unfoldable pub wait_for_ack : Mac → ℕ → ℕ → List Report → Option Bool
wait_for_ack src_mac session_id expected [] = none
wait_for_ack src_mac session_id expected (timed_out ∷ more) = some false
wait_for_ack src_mac session_id expected (select_failed ∷ more) = some false
wait_for_ack src_mac session_id expected (readable buffer n ∷ more) =
    let rest = wait_for_ack src_mac session_id expected more in
    if is_expected_ack src_mac session_id expected buffer n then some true else rest

abbrev pub acks_number : ℕ → Option (ℕ × ℕ) → Bool
acks_number expected none = false
acks_number expected (some (seq, advertised)) = seq == expected

-- `wait_for_ack` takes exactly the frames in which the listener reads the number that is waited for.
pub is_expected_ack-parse_ack :
    (src_mac : Mac) (session_id expected : ℕ) (buffer : Bytes) (n : ℕ)
    → is_expected_ack src_mac session_id expected buffer n
      ≡ acks_number expected (parse_ack src_mac session_id buffer n)
unfolding is_expected_ack parse_ack
is_expected_ack-parse_ack src_mac session_id expected buffer n = ground arith
