-- ===== src/Gateway/ProxyHeader.antt =====
-- `make_proxy_header` on address bytes: the copy in FileTransferAppSub/include/ProxyProtocol.hpp, which
-- clients use, and the one in CDSGateway/include/ProxyProtocol.hpp.
use cds_guard.GuardL2.Wire.{store32, store64}
use cds_guard.Prelude.{
  ℕ, u32, ◌-◌, ◌/◌, ◌%◌, ◌^◌, Bool, not, ◌||◌, ◌&&◌, [], ◌∷◌, ◌++◌, Bytes, length, replicate, ◌==◌,
  if◌then◌else◌,
}

-- A 16-byte array that begins with the address.
abbrev pub ip_field : Bytes → Bytes
ip_field ip = ip ++ replicate (16 - length ip) 0

-- `src_ip.size()` is neither 4 nor 16.
abbrev pub is_no_ip : Bytes → Bool
is_no_ip ip = not (length ip == 4) && not (length ip == 16)

abbrev pub ip_version : Bytes → ℕ
ip_version ip = if length ip == 4 then 4 else 6

-- `kMagic`, first byte first.
abbrev pub magic_bytes : Bytes
magic_bytes = 0x50 ∷ 0x52 ∷ 0x47 ∷ 0x32 ∷ []

abbrev pub port_bytes : ℕ → Bytes
port_bytes port = port / 2 ^ 8 ∷ port % 256 ∷ []

abbrev pub endpoint_bytes : Bytes → ℕ → Bytes
endpoint_bytes ip port = ip_version ip ∷ (ip_field ip ++ port_bytes port)

unfoldable pub client_proxy_header : Bytes → ℕ → Bytes → ℕ → Bytes
client_proxy_header src_ip src_port dest_ip dest_port =
    if is_no_ip src_ip || is_no_ip dest_ip
    then []
    else magic_bytes ++ (endpoint_bytes src_ip src_port ++ endpoint_bytes dest_ip dest_port)

-- This copy leaves the ports of the header at 0.
unfoldable pub gateway_proxy_header : Bytes → ℕ → Bytes → ℕ → Bytes
gateway_proxy_header src_ip src_port dest_ip dest_port =
    if is_no_ip src_ip || is_no_ip dest_ip
    then []
    else magic_bytes ++ (endpoint_bytes src_ip 0 ++ endpoint_bytes dest_ip 0)

-- What the client sends of a file behind the header: tag, length of the name, name, size, contents.
unfoldable pub client_file : Bytes → Bytes → Bytes
client_file name content =
    (70 ∷ 73 ∷ 76 ∷ 69 ∷ 0 ∷ [])
    ++ (store32 (u32 (length name)) ++ (name ++ (store64 (length content) ++ content)))
