-- ===== src/Gateway/Discovery.antt =====
-- How a client finds the gateway and the gateway a guard: `CdsGatewayFinder` of FileTransferAppSub/include and the responder of
-- `CdsGatewayStartDiscoveryResponder`, CdsGatewayDiscorverGuard and CdsGuardStartDiscoveryResponder. `hmac` stands for hmacPsk, which is a call of a library.
pub mod Exchange
use cds_guard.Prelude.{
  ◌%◌, ◌<<<◌, ◌>>>◌, u16, bit_or, ℕ, ◌+◌, ◌≤◌, ◌<◌, ◌≡◌, Bool, true, false, not, ◌&&◌, ◌||◌, Option,
  none, some, List, [], ◌∷◌, ◌++◌, Bytes, length, take, drop, ltb, ◌==◌, if◌then◌else◌,
}
use cds_guard.GuardL2.Wire.{store16, load16, htons}
use cds_guard.Aria.Block.{at}
use cds_guard.Gateway.FileSink.{same_bytes}

-- Four letters.
pub record Tag : Type 0 where
  pub c0 : ℕ
  pub c1 : ℕ
  pub c2 : ℕ
  pub c3 : ℕ

abbrev pub letters : Tag → Bytes
letters t = t.c0 ∷ t.c1 ∷ t.c2 ∷ t.c3 ∷ []

-- What differs between the two discoveries: the letters of the request and of the answer, the two bytes
-- of a port in the answer, and what is read from them.
pub record Dialect : Type 0 where
  pub ask : Tag
  pub back : Tag
  pub first : ℕ → ℕ
  pub second : ℕ → ℕ
  pub read_port : ℕ → ℕ → ℕ

-- A client looks for the gateway. Both take the port as it lies in memory.
abbrev pub gateway_dialect : Dialect
gateway_dialect = record {
  ask = record { c0 = b'P'; c1 = b'I'; c2 = b'N'; c3 = b'G' };
  back = record { c0 = b'P'; c1 = b'O'; c2 = b'N'; c3 = b'G' };
  first = λ port. at (store16 port) 0;
  second = λ port. at (store16 port) 1;
  read_port = λ low high. load16 (low ∷ high ∷ []) 0;
}

-- The gateway looks for a guard.
abbrev pub guard_dialect : Dialect
guard_dialect = record {
  ask = record { c0 = b'G'; c1 = b'U'; c2 = b'A'; c3 = b'R' };
  back = record { c0 = b'R'; c1 = b'A'; c2 = b'U'; c3 = b'G' };
  first = λ port. (htons port >>> 8) % 256;
  second = λ port. htons port % 256;
  read_port = λ high low. htons (u16 (bit_or (high <<< 8) low));
}

abbrev pub answer_port : Dialect → ℕ → Bytes
answer_port d port = d.first port ∷ d.second port ∷ []

-- The array of 64 bytes after a packet that fits: what the packet does not reach stays as it was.
unfoldable pub receive_from : Bytes → Bytes → Bytes
receive_from buf packet = packet ++ drop (length packet) buf

module _ (d : Dialect) (hmac : Bytes → Bytes) where
  -- The packet that `discover` sends.
  unfoldable pub request : Bytes → Bytes
  request nonce = letters d.ask ++ (nonce ++ hmac (letters d.ask ++ nonce))

  -- The answer that is signed: the port and the nonce of the request.
  unfoldable pub pong_body : ℕ → Bytes → Bytes
  pong_body port buf = letters d.back ++ (answer_port d port ++ take 12 (drop 4 buf))

  -- The answer to a packet of `n` bytes in the array, or none.
  unfoldable pub answer : ℕ → ℕ → Bytes → Option Bytes
  answer port n buf =
      if ltb n 4 || not (same_bytes (take 4 buf) (letters d.ask))
      then none
      else if not (same_bytes (hmac (take 16 buf)) (take 32 (drop 16 buf)))
      then none
      else some (pong_body port buf ++ hmac (pong_body port buf))

  -- `handlePong`: the port, if the answer is taken.
  unfoldable pub handle_pong : Bytes → Bytes → Option ℕ
  handle_pong nonce packet =
      if not (length packet == 50)
      then none
      else if not (same_bytes (take 4 packet) (letters d.back))
      then none
      else if not (same_bytes (take 12 (drop 6 packet)) nonce)
      then none
      else if not (same_bytes (hmac (take 18 packet)) (take 32 (drop 18 packet)))
      then none
      else some (d.read_port (at packet 4) (at packet 5))
