-- ===== src/GuardL2/Receiver/Acks.antt =====
-- What the receiver has when it acknowledges a number: in a session, the acknowledgements that it has
-- sent are of packets that are in place or in the map.
pub mod Session
pub mod Packets
use cds_guard.Prelude.{
  ℕ, zero, suc, ◌+◌, ◌-◌, ◌^◌, ◌<◌, ◌≤◌, ◌≡◌, refl, sym, ap, ◌∙◌, Bool, true, false, not, ◌&&◌,
  ◌||◌, some, List, [], ◌∷◌, ◌++◌, ltb, leb, ◌==◌, ==→≡, if◌then◌else◌, if-elim, Bool-cases, inl,
  inr, length, All, u32, Bytes, arith,
}
use mathlib.Core.Path.{subst}
use cds_guard.GuardL2.Frame.{Mac, ack_frame}
use cds_guard.GuardL2.Receiver.{
  Entry, Receiver, Outcome, running, returned, threw, outside, contains, erase, take_buffered,
  drain, finish,
}
use cds_guard.GuardL2.Receiver.Buffer.{erase-All, drain_done}
use cds_guard.GuardL2.Receiver.Session.{count, is_complete}
use cds_guard.GuardL2.Sender.Acks.{parse_ack, parse_ack-ack_frame}

-- Number `k` is START's, is below the base, is in the map, or is END's and END has come.
abbrev pub has : Bytes → ℕ → Receiver → Bool
has bytes k st =
    k == 0
    || (ltb k st.receive_window_base
        || (contains k st.out_of_order_buffer || (k == count bytes + 1 && st.end_packet_received)))

contains-erase :
    (j k : ℕ) (es : List Entry)
    → contains k es ≡ true
    → (k == j) ≡ false
    → contains k (erase j es) ≡ true
unfolding contains erase
contains-erase j k [] h n = h
contains-erase j k (e ∷ es) h n =
    if-elim (λ (r : List Entry). contains k r ≡ true) (j == e.seq)
      (λ t. contains-erase j k es (ground arith) n) (λ f. ground (arith, contains-erase j k es))

pub contains-le :
    (bound k : ℕ) (es : List Entry)
    → All (λ (e : Entry). e.seq ≤ bound) es
    → contains k es ≡ true
    → k ≤ bound
unfolding contains
contains-le bound k [] a h = absurd (ground arith)
contains-le bound k (e ∷ es) a h = ground (arith, contains-le bound k es a.1, a.0)

abbrev pub IsSmall : Bytes → Receiver → Type 0
IsSmall bytes st = All (λ (e : Entry). e.seq ≤ count bytes) st.out_of_order_buffer

module _ (bytes : Bytes) (fits : count bytes + 1 < 2 ^ 32) where
  -- What the inner loop takes out of the map is below the base.
  drain-has :
      (k fuel : ℕ) (st : Receiver)
      → IsSmall bytes st
      → has bytes k st ≡ true
      → has bytes k (drain fuel st) ≡ true
  unfolding drain take_buffered
  drain-has k zero st a h = h
  drain-has k (suc fuel) st a h =
      if-elim (λ (r : Receiver). has bytes k r ≡ true)
        (contains st.receive_window_base st.out_of_order_buffer)
        (λ c.
          drain-has k fuel (take_buffered st)
            (erase-All (λ (e : Entry). e.seq ≤ count bytes) st.receive_window_base
              st.out_of_order_buffer a)
            (taken c))
        (λ c. h)
    where
      taken :
          contains st.receive_window_base st.out_of_order_buffer ≡ true
          → has bytes k (take_buffered st) ≡ true
      taken c = ground (
        arith,
        contains-le (count bytes) st.receive_window_base st.out_of_order_buffer a c,
        contains-erase st.receive_window_base k st.out_of_order_buffer,
      )

drain-sent : (fuel : ℕ) (st : Receiver) → (drain fuel st).sent ≡ st.sent
unfolding drain take_buffered
drain-sent zero st = refl
drain-sent (suc fuel) st =
    if-elim (λ (r : Receiver). r.sent ≡ st.sent)
      (contains st.receive_window_base st.out_of_order_buffer)
      (λ c. drain-sent fuel (take_buffered st)) (λ c. refl)
