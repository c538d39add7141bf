-- ===== src/Protocol.antt =====
-- PacketProcessor/src/protocol: the modules behind `IProtocolModule` and the engine that chains them.
-- A module's `process` may draw random bytes, so it takes and returns the count of draws (Cbc).
pub mod RoundTrip
use mathlib.Core.List.{reverse}
use cds_guard.Prelude.{
  ℕ, ◌+◌, ◌-◌, ◌^◌, Bool, true, false, ◌&&◌, Option, none, some, ◌>>=◌, List, [], ◌∷◌, ◌++◌, map,
  Bytes, u8, leb, ◌==◌, if◌then◌else◌, length, drop, replicate,
}
use cds_guard.Cbc

-- The classes that implement `IProtocolModule`, with their fields. The `int` of the first is its
-- bit pattern, a number below 2 ^ 32.
pub data ProtocolModule : Type 0 where
  shift_module : ℕ → ProtocolModule
  encryption_module : Bytes → ProtocolModule
  padding_module : Bytes → ProtocolModule

unfoldable pub shift_process : ℕ → Bytes → Bytes
shift_process offset = map (λ b. u8 (b + offset))

unfoldable pub shift_reverse : ℕ → Bytes → Bytes
shift_reverse offset = map (λ b. u8 (b + 2 ^ 32 - offset))

-- `out.insert(out.begin(), pad.begin(), pad.end())`
unfoldable pub padding_process : Bytes → Bytes → Bytes
padding_process pad input = pad ++ input

-- `std::equal(pad.begin(), pad.end(), out.begin())`, for an `out` that is no shorter than `pad`.
unfoldable pub equal_prefix : Bytes → Bytes → Bool
equal_prefix [] out = true
equal_prefix (p ∷ pad) [] = false
equal_prefix (p ∷ pad) (x ∷ out) = p == x && equal_prefix pad out

unfoldable pub padding_reverse : Bytes → Bytes → Bytes
padding_reverse pad input =
    if leb (length pad) (length input) && equal_prefix pad input
    then drop (length pad) input
    else input

unfoldable pub process : (ℕ → ℕ) → ProtocolModule → Bytes → ℕ → Option (Bytes × ℕ)
process rd (shift_module offset) input pos = some (shift_process offset input, pos)
process rd (encryption_module key) input pos = Cbc.encrypt rd key input pos
process rd (padding_module pad) input pos = some (padding_process pad input, pos)

unfoldable pub undo : ProtocolModule → Bytes → Option Bytes
undo (shift_module offset) input = some (shift_reverse offset input)
undo (encryption_module key) input = Cbc.decrypt key input
undo (padding_module pad) input = some (padding_reverse pad input)

pub record ProtocolEngine : Type 0 where
  pub modules : List ProtocolModule

unfoldable pub add_module : ProtocolEngine → ProtocolModule → ProtocolEngine
add_module engine m = record { modules = engine.modules ++ m ∷ [] }

-- `for (auto& mod : modules_) tmp = mod->process(tmp);`
unfoldable pub process_loop : (ℕ → ℕ) → List ProtocolModule → Bytes → ℕ → Option (Bytes × ℕ)
process_loop rd [] tmp pos = some (tmp, pos)
process_loop rd (m ∷ ms) tmp pos = process rd m tmp pos >>= λ r. process_loop rd ms r.0 r.1

-- The same loop from `rbegin` to `rend`, over the reversed list.
unfoldable pub undo_loop : List ProtocolModule → Bytes → Option Bytes
undo_loop [] tmp = some tmp
undo_loop (m ∷ ms) tmp = undo m tmp >>= undo_loop ms

unfoldable pub encrypt : (ℕ → ℕ) → ProtocolEngine → Bytes → ℕ → Option (Bytes × ℕ)
encrypt rd engine input pos = process_loop rd engine.modules input pos

unfoldable pub decrypt : ProtocolEngine → Bytes → Option Bytes
decrypt engine input = undo_loop (reverse engine.modules) input

-- `GetProtocolEngine` of CDSGuardSub/src/RecvMode.cpp and CDSGateway/src/main.cpp.
unfoldable pub get_protocol_engine : ProtocolEngine
unfolding add_module
get_protocol_engine =
    let engine : ProtocolEngine = record { modules = [] } in
    let engine = add_module engine (shift_module 8) in
    let engine = add_module engine (encryption_module (replicate 32 1)) in
    add_module engine (padding_module (replicate 4 0))
