-- ===== src/GuardL2/Transfer/Timeouts.antt =====
-- The wait of the sending loop and the packets that are sent again after it.
use cds_guard.Prelude.{
  ℕ, zero, suc, ◌+◌, ◌≡◌, refl, Bool, true, false, not, ◌&&◌, ◌||◌, Option, none, some, List, [],
  ◌∷◌, u32, leb, if◌then◌else◌, arith,
}
use cds_guard.GuardL2.Transfer.{
  SentPacketInfo, SendBuffer, is_outstanding, is_expired, earlier, time_of, next_timeout,
  retransmit_seqs,
}

-- The time has come.
abbrev pub is_due : ℕ → Option ℕ → Bool
is_due now none = false
is_due now (some t) = leb t now

abbrev pub is_some_seq : List ℕ → Bool
is_some_seq [] = false
is_some_seq (seq ∷ more) = true

is_due-earlier : (now t : ℕ) (o : Option ℕ) → is_due now (earlier t o) ≡ (leb t now || is_due now o)
is_due-earlier now t none = ground arith
is_due-earlier now t (some u) = ground arith

-- The packet was sent and no acknowledgement of it has come.
abbrev pub is_waiting : Option SentPacketInfo → Bool
is_waiting none = false
is_waiting (some info) = if info.acked then false else true

-- Of the numbers of the window from `i` on no packet waits for its acknowledgement.
abbrev pub none_waits : SendBuffer → ℕ → ℕ → Bool
none_waits buffer zero i = true
none_waits buffer (suc fuel) i = not (is_waiting (buffer i)) && none_waits buffer fuel (u32 (i + 1))

abbrev pub is_never : Option ℕ → Bool
is_never none = true
is_never (some t) = false

is_never-earlier : (t : ℕ) (o : Option ℕ) → is_never (earlier t o) ≡ false
is_never-earlier t none = refl
is_never-earlier t (some u) = refl

waits_one :
    (timeout : ℕ) (o : Option SentPacketInfo) (rest : Option ℕ) (others : Bool)
    → is_never rest ≡ others
    → is_never (if is_outstanding o then earlier (time_of o + timeout) rest else rest)
      ≡ (not (is_waiting o) && others)
unfolding is_outstanding
waits_one timeout none rest others h = h
waits_one timeout (some info) rest others h =
    ground (arith, is_never-earlier (info.time_sent + timeout) rest)

next_timeout-none_waits :
    (buffer : SendBuffer) (timeout fuel i : ℕ)
    → is_never (next_timeout buffer timeout fuel i) ≡ none_waits buffer fuel i
unfolding next_timeout
next_timeout-none_waits buffer timeout zero i = refl
next_timeout-none_waits buffer timeout (suc fuel) i =
    waits_one timeout (buffer i) (next_timeout buffer timeout fuel (u32 (i + 1)))
      (none_waits buffer fuel (u32 (i + 1)))
      (next_timeout-none_waits buffer timeout fuel (u32 (i + 1)))

-- One packet of the two loops.
due_one :
    (timeout now i : ℕ) (o : Option SentPacketInfo) (rest : Option ℕ) (seqs : List ℕ)
    → is_due now rest ≡ is_some_seq seqs
    → is_due now (if is_outstanding o then earlier (time_of o + timeout) rest else rest)
      ≡ is_some_seq (if is_expired timeout now o then i ∷ seqs else seqs)
unfolding is_outstanding is_expired
due_one timeout now i none rest seqs h = h
due_one timeout now i (some info) rest seqs h =
    ground (arith, is_due-earlier now (info.time_sent + timeout) rest)

next_timeout-is_due :
    (buffer : SendBuffer) (timeout now fuel i : ℕ)
    → is_due now (next_timeout buffer timeout fuel i)
      ≡ is_some_seq (retransmit_seqs buffer timeout now fuel i)
unfolding next_timeout retransmit_seqs
next_timeout-is_due buffer timeout now zero i = refl
next_timeout-is_due buffer timeout now (suc fuel) i =
    due_one timeout now i (buffer i) (next_timeout buffer timeout fuel (u32 (i + 1)))
      (retransmit_seqs buffer timeout now fuel (u32 (i + 1)))
      (next_timeout-is_due buffer timeout now fuel (u32 (i + 1)))

-- Over any packets of the window, `next_timeout` gives a time for the wait exactly when a packet that was
-- sent still waits for its acknowledgement, and this time has come exactly when the loop after the wait
-- finds a packet to send again; so where every packet is acknowledged none is sent again.
pub retransmit_seqs-next_timeout :
    (buffer : SendBuffer) (timeout now fuel i : ℕ)
    → (is_never (next_timeout buffer timeout fuel i) ≡ none_waits buffer fuel i)
      × (is_due now (next_timeout buffer timeout fuel i)
          ≡ is_some_seq (retransmit_seqs buffer timeout now fuel i))
retransmit_seqs-next_timeout buffer timeout now fuel i =
    (next_timeout-none_waits buffer timeout fuel i, next_timeout-is_due buffer timeout now fuel i)
