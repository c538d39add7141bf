-- ===== src/GuardL2/Sender/Acks.antt =====
-- What `ack_listener_thread` makes of a received frame, and the receiver's acknowledgements.
use cds_guard.Prelude.{
  ℕ, ◌-◌, ◌^◌, ◌<◌, ◌≤◌, ◌≡◌, ap, ◌∙◌, true, false, not, ◌||◌, Option, none, some, ◌++◌, Bytes, ltb,
  ◌==◌, ==-self, if◌then◌else◌, arith,
}
use cds_guard.Aria.Block.{at}
use cds_guard.GuardL2.Wire.{
  store16, store32, load16, load32, htons, htonl, htons-lt, htonl-lt, ntohs-htons, ntohl-htonl,
  load-store16, load-store32,
}
use cds_guard.GuardL2.Frame.{Mac, mac_at, mac_eq, ack_frame, ethertype_guard_l2, type_ack}
use cds_guard.GuardL2.Frame.RoundTrip.{mac_eq_self, ethertype_back}

-- The checks of the listener on `bytes` bytes in its buffer: the acknowledged number and the window
-- of the receiver, or `none` for a frame that it passes over.
unfoldable pub parse_ack : Mac → ℕ → Bytes → ℕ → Option (ℕ × ℕ)
parse_ack src_mac session_id buffer bytes =
    if ltb bytes 39
    then none
    else if not (mac_eq (mac_at buffer 0) src_mac)
        || not (htons (load16 buffer 12) == ethertype_guard_l2)
    then none
    else if not (htonl (load32 buffer 15) == session_id) || not (at buffer 14 == type_ack)
    then none
    else some (htonl (load32 buffer 19), htons (load16 buffer 33))

-- The listener takes the receiver's acknowledgement of its own session from a buffer that holds it and
-- anything after it, and reads the number and the count of free slots out of 512, for a session and a
-- number of 32 bits.
pub parse_ack-ack_frame :
    (my_mac src_mac : Mac) (session_id seq_num used n : ℕ) (rest : Bytes)
    → session_id < 2 ^ 32
    → seq_num < 2 ^ 32
    → 39 ≤ n
    → parse_ack src_mac session_id (ack_frame my_mac src_mac session_id seq_num used ++ rest) n
      ≡ some (seq_num, 512 - used)
unfolding parse_ack ack_frame
parse_ack-ack_frame my_mac src_mac session_id seq_num used n rest hs hq hn =
    simp (long, to_me, ethertype_back, sid, ==-self session_id, number, window)
  where
    free : ℕ
    free = if ltb used 512 then 512 - used else 0

    long : ltb n 39 ≡ false
    long = ground arith

    to_me :
        mac_eq (mac_at (ack_frame my_mac src_mac session_id seq_num used ++ rest) 0) src_mac ≡ true
    to_me = mac_eq_self src_mac

    sid : htonl (load32 (store32 (htonl session_id)) 0) ≡ session_id
    sid = ap htonl (load-store32 (htonl session_id) (htonl-lt _)) ∙ ntohl-htonl session_id hs

    number : htonl (load32 (store32 (htonl seq_num)) 0) ≡ seq_num
    number = ap htonl (load-store32 (htonl seq_num) (htonl-lt _)) ∙ ntohl-htonl seq_num hq

    available : free ≡ 512 - used
    available = ground arith

    window : htons (load16 (store16 (htons free)) 0) ≡ 512 - used
    window =
        ap htons (load-store16 (htons free) (htons-lt _))
        ∙ ntohs-htons free (omega (arith, available))
        ∙ available
