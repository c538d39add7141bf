-- ===== src/Gateway/GuardEndpoint/Connection.antt =====
-- The loop of DispatchFilteredPayloadTcp ends connected, and the gateway keeps that guard.
use cds_guard.Prelude.{
  ℕ, zero, suc, ◌≡◌, refl, Bool, true, false, none, some, List, [], ◌∷◌, ◌++◌, replicate, arith,
}
use cds_guard.Gateway.Discovery.Exchange.{same_bytes_self}
use cds_guard.Gateway.GuardEndpoint.{
  GuardAddress, same_endpoint, Cache, invalidate_guard_endpoint, get_current_guard_endpoint,
  connect, connect_guard,
}

-- A discovery that succeeds after some that do not.
pub record Search : Type 0 where
  pub misses : ℕ
  pub guard : GuardAddress

abbrev pub found_of : List Search → List Cache → List Cache
found_of [] more = more
found_of (s ∷ ss) more = replicate s.misses none ++ (some s.guard ∷ found_of ss more)

-- A connection that fails for each search, and one that does not.
abbrev pub results_of : List Search → List Bool → List Bool
results_of [] more = true ∷ more
results_of (s ∷ ss) more = false ∷ results_of ss more

abbrev pub last_guard : GuardAddress → List Search → GuardAddress
last_guard g [] = g
last_guard g (s ∷ ss) = last_guard s.guard ss

same_endpoint_self : (g : GuardAddress) → same_endpoint g g ≡ true
same_endpoint_self g = ground (arith, same_bytes_self g.address)

-- The endpoint that failed is not kept.
invalidated : (g : GuardAddress) → invalidate_guard_endpoint g (some g) ≡ none
unfolding invalidate_guard_endpoint
invalidated g = rw (same_endpoint_self g)

searched :
    (misses : ℕ) (g : GuardAddress) (more : List Cache)
    → get_current_guard_endpoint none (replicate misses none ++ (some g ∷ more)) ≡ some (g, more)
unfolding get_current_guard_endpoint
searched zero g more = refl
searched (suc n) g more = searched n g more

connect-last_guard :
    (g : GuardAddress) (ss : List Search) (results : List Bool) (more : List Cache)
    → connect (results_of ss results) (found_of ss more) (some g) g
      ≡ some (last_guard g ss, some (last_guard g ss))
unfolding connect
connect-last_guard g [] results more = refl
connect-last_guard g (s ∷ ss) results more =
    rw (invalidated g, searched s.misses s.guard (found_of ss more))
      (connect-last_guard s.guard ss results more)

-- With no other thread between: when each connection that fails is followed by a discovery that
-- succeeds, after however many that do not, and one connection succeeds, the loop ends with the guard that
-- was discovered last, and this is the one that the gateway keeps; it does so from a kept endpoint and from none.
pub connect_guard-last_guard :
    (misses : ℕ) (g : GuardAddress) (ss : List Search) (results : List Bool) (more : List Cache)
    → (connect_guard (results_of ss results) (found_of ss more) (some g)
        ≡ some (last_guard g ss, some (last_guard g ss)))
      × (connect_guard
            (results_of ss results)
            (replicate misses none ++ (some g ∷ found_of ss more))
            none
          ≡ some (last_guard g ss, some (last_guard g ss)))
unfolding connect_guard get_current_guard_endpoint
connect_guard-last_guard misses g ss results more = (
  connect-last_guard g ss results more,
  rw (searched misses g (found_of ss more)) (connect-last_guard g ss results more),
)
