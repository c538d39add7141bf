-- ===== src/GuardL2/Sender/Rtt.antt =====
-- `update_rtt` and `get_rto`. Times are counts of microseconds, which are not negative on a steady
-- clock; `sample_rtt` is one of nanoseconds.
use Prim.Native.Nat.{max}
use cds_guard.Prelude.{
  ℕ, ◌+◌, ◌-◌, ◌*◌, ◌/◌, ◌≤◌, List, [], ◌∷◌, All, min, ◌==◌, if◌then◌else◌, arith,
}

pub record Rtt : Type 0 where
  pub srtt : ℕ
  pub rttvar : ℕ
  pub rto : ℕ

abbrev pub start_rtt : Rtt
start_rtt = record { srtt = 0; rttvar = 0; rto = 200000 }

abbrev pub rto_min : ℕ
rto_min = 200000

abbrev pub rto_max : ℕ
rto_max = 3000000

-- `std::abs` of the difference.
abbrev pub distance : ℕ → ℕ → ℕ
distance a b = a - b + (b - a)

-- `std::clamp(new_rto, RTO_MIN, RTO_MAX)`
abbrev pub clamp : ℕ → ℕ
clamp new_rto = min (max new_rto rto_min) rto_max

unfoldable pub estimate : ℕ → Rtt → Rtt
estimate samp r = if r.srtt == 0 then record r { srtt = samp; rttvar = samp / 2 } else record r {
  rttvar = (3 * r.rttvar + distance r.srtt samp) / 4;
  srtt = (7 * r.srtt + samp) / 8;
}

unfoldable pub update_rtt : ℕ → Rtt → Rtt
update_rtt sample_rtt r =
    let e = estimate (sample_rtt / 1000) r in record e { rto = clamp (e.srtt + e.rttvar * 4) }

-- In milliseconds.
unfoldable pub get_rto : Rtt → ℕ
get_rto r = r.rto / 1000

unfoldable pub update_all : List ℕ → Rtt → Rtt
update_all [] r = r
update_all (sample ∷ more) r = update_all more (update_rtt sample r)

record IsRtt (bound : ℕ) (r : Rtt) : Type 0 where
  srtt_ok : r.srtt ≤ bound
  rttvar_ok : r.rttvar ≤ bound
  low : rto_min ≤ r.rto
  high : r.rto ≤ rto_max

update_rtt-IsRtt :
    (bound sample : ℕ) (r : Rtt)
    → sample / 1000 ≤ bound
    → IsRtt bound r
    → IsRtt bound (update_rtt sample r)
unfolding update_rtt estimate
update_rtt-IsRtt bound sample r h g = record {
  srtt_ok = ground (arith, g.srtt_ok);
  rttvar_ok = ground (arith, g.srtt_ok, g.rttvar_ok);
  low = omega arith;
  high = omega arith;
}

update_all-IsRtt :
    (bound : ℕ) (samples : List ℕ) (r : Rtt)
    → All (λ (s : ℕ). s / 1000 ≤ bound) samples
    → IsRtt bound r
    → IsRtt bound (update_all samples r)
unfolding update_all
update_all-IsRtt bound [] r h g = g
update_all-IsRtt bound (sample ∷ more) r h g =
    update_all-IsRtt bound more (update_rtt sample r) h.1 (update_rtt-IsRtt bound sample r h.0 g)

-- Whatever round trips are measured in a sender's life, the timeout lies between 200 and 3000 ms; the
-- estimate and its variation exceed no bound in microseconds that every sample keeps to.
pub get_rto_bounded :
    (bound : ℕ) (samples : List ℕ)
    → All (λ (s : ℕ). s / 1000 ≤ bound) samples
    → (200 ≤ get_rto (update_all samples start_rtt))
      × (get_rto (update_all samples start_rtt) ≤ 3000)
      × ((update_all samples start_rtt).srtt ≤ bound)
      × ((update_all samples start_rtt).rttvar ≤ bound)
unfolding get_rto
get_rto_bounded bound samples h =
    (omega (arith, g.low), omega (arith, g.high), g.srtt_ok, g.rttvar_ok)
  where
    g : IsRtt bound (update_all samples start_rtt)
    g = update_all-IsRtt bound samples start_rtt h (record {
      srtt_ok = omega arith;
      rttvar_ok = omega arith;
      low = omega arith;
      high = omega arith;
    })
