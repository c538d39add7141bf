-- ===== src/Gateway/GuardEndpoint.antt =====
-- The guard's endpoint that the gateway keeps: CdsGatewayDiscorverGuard, GetCurrentGuardEndpoint and
-- InvalidateGuardEndpoint, and the loop of DispatchFilteredPayloadTcp that connects, with no other thread
-- between.
pub mod Connection
use cds_guard.Prelude.{
  ℕ, Bool, true, false, ◌&&◌, Option, none, some, List, [], ◌∷◌, Bytes, ◌==◌, if◌then◌else◌, ◌>>=◌,
}
use cds_guard.Gateway.FileSink.{same_bytes}
use cds_guard.Gateway.Discovery.{guard_dialect, handle_pong}

-- `asio::ip::tcp::endpoint`
pub record GuardAddress : Type 0 where
  pub address : Bytes
  pub port : ℕ

abbrev pub same_endpoint : GuardAddress → GuardAddress → Bool
same_endpoint a b = same_bytes a.address b.address && a.port == b.port

-- How the wait for an answer of a guard ends.
pub data Answer : Type 0 where
  timed_out receive_error : Answer
  from : Bytes → Bytes → Answer

-- `result_endpoint`, of the request with `nonce`.
unfoldable pub discover_guard : (Bytes → Bytes) → Bytes → Answer → Option GuardAddress
discover_guard hmac nonce timed_out = none
discover_guard hmac nonce receive_error = none
discover_guard hmac nonce (from address packet) =
    handle_pong guard_dialect hmac nonce packet >>= λ port.
    some (record { address = address; port = port })

abbrev pub Cache : Type 0
Cache = Option GuardAddress

unfoldable pub invalidate_guard_endpoint : GuardAddress → Cache → Cache
invalidate_guard_endpoint failed none = none
invalidate_guard_endpoint failed (some kept) = if same_endpoint kept failed then none else some kept

-- What is returned, which the cache then holds, and the discoveries that are left; `none` while the loop
-- still searches.
unfoldable pub get_current_guard_endpoint : Cache → List Cache → Option (GuardAddress × List Cache)
get_current_guard_endpoint (some kept) found = some (kept, found)
get_current_guard_endpoint none [] = none
get_current_guard_endpoint none (some new ∷ more) = some (new, more)
get_current_guard_endpoint none (none ∷ more) = get_current_guard_endpoint none more

-- The loop over the results of `connect`, with the cache: the endpoint that is connected and the cache then.
-- `none` while the loop goes on.
unfoldable pub connect :
    List Bool → List Cache → Cache → GuardAddress → Option (GuardAddress × Cache)
connect [] found cache guard = none
connect (true ∷ results) found cache guard = some (guard, cache)
connect (false ∷ results) found cache guard =
    get_current_guard_endpoint (invalidate_guard_endpoint guard cache) found >>= λ r.
    connect results r.1 (some r.0) r.0

-- From the first look at the cache on.
unfoldable pub connect_guard : List Bool → List Cache → Cache → Option (GuardAddress × Cache)
connect_guard results found cache =
    get_current_guard_endpoint cache found >>= λ r. connect results r.1 (some r.0) r.0
