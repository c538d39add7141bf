-- ===== src/Gateway/Dispatch.antt =====
-- `DispatchFilteredPayloadTcp` of CDSGateway/src/main.cpp, which lays out a payload for the guard, and the
-- reading of it in `run_recv_mode` of CDSGuardSub/src/RecvMode.cpp, behind the transfer between the guards.
pub mod Delivery
use cds_guard.Prelude.{
  ℕ, ◌+◌, ◌*◌, ◌/◌, ◌%◌, ◌^◌, bit_or, Bool, Option, none, some, ◌>>=◌, List, [], ◌∷◌, ◌++◌, Bytes,
  length, take, drop, get_elem?, leb, ◌==◌, u8, u16, u32, ◌<<<◌, ◌>>>◌, if◌then◌else◌,
}
use cds_guard.GuardL2.Wire.{store32, store64}
use cds_guard.Protocol.{ProtocolEngine, encrypt, decrypt}
use cds_guard.Gateway.FileSink.{Endpoint, Payload, file_tag, text_tag}

unfoldable pub endpoint_header : Endpoint → Bytes
endpoint_header e = u8 e.ip_ver ∷ (take e.ip_len e.ip ++ ((e.port >>> 8) % 256 ∷ e.port % 256 ∷ []))

-- `new_payload_vec` before it is encrypted.
unfoldable pub new_payload : Payload → Bytes
new_payload p =
    if p.is_file
    then file_tag
      ++ (store32 (u32 (length p.file_name))
          ++ (p.file_name ++ (store64 (length p.content) ++ p.content)))
    else text_tag ++ (store64 (length p.content) ++ p.content)

-- What is written to the socket. `rd` and `pos` are the draws of random bytes (Cbc).
unfoldable pub dispatch : (ℕ → ℕ) → ProtocolEngine → Payload → ℕ → Option (Bytes × ℕ)
dispatch rd engine p pos = encrypt rd engine (new_payload p) pos >>= λ r.
    some (endpoint_header p.src ++ (endpoint_header p.dest ++ r.0), r.1)

-- `n` elements from `i` on; `none` where one is beyond the end, which the program does not test.
unfoldable pub bytes_at : Bytes → ℕ → ℕ → Option Bytes
bytes_at recv_data i n =
    if leb (i + n) (length recv_data) then some (take n (drop i recv_data)) else none

-- The version, the address and the port that stand at `base`.
unfoldable pub endpoint_at : Bytes → ℕ → Option Endpoint
endpoint_at recv_data base = get_elem? recv_data base >>= λ ip_ver.
    let ip_len = if ip_ver == 4 then 4 else 16 in
    bytes_at recv_data (base + 1) ip_len >>= λ ip.
    get_elem? recv_data (base + 1 + ip_len) >>= λ high.
    get_elem? recv_data (base + 1 + ip_len + 1) >>= λ low.
    some
      (record { ip_ver = ip_ver; ip_len = ip_len; ip = ip; port = u16 (bit_or (high <<< 8) low) })

-- `asio::ip::address`: made of 4 bytes, of 16, or by the constructor without arguments.
pub data Address : Type 0 where
  address_v4 : Bytes → Address
  address_v6 : Bytes → Address
  unset : Address

-- What is read of an endpoint; the address stays unset for a version that is neither 4 nor 6.
pub record Peer : Type 0 where
  pub address : Address
  pub port : ℕ

unfoldable pub peer_of : Endpoint → Peer
peer_of e = record {
  address =
      if e.ip_ver == 4 then address_v4 e.ip else if e.ip_ver == 6 then address_v6 e.ip else unset;
  port = e.port;
}

-- What the guard makes of the data that it has received: the source, the destination and what it writes to
-- the destination.
pub record Delivered : Type 0 where
  pub src : Peer
  pub dest : Peer
  pub bytes : Bytes

abbrev pub info_size : Endpoint → ℕ
info_size e = 1 + e.ip_len + 2

unfoldable pub relay : ProtocolEngine → Bytes → Option Delivered
relay engine recv_data = endpoint_at recv_data 0 >>= λ src.
    endpoint_at recv_data (info_size src) >>= λ dest.
    decrypt engine (drop (info_size src + info_size dest) recv_data) >>= λ bytes.
    some (record { src = peer_of src; dest = peer_of dest; bytes = bytes })
