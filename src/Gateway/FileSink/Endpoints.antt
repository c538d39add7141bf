-- ===== src/Gateway/FileSink/Endpoints.antt =====
-- `read_endpoint` on the bytes that `endpoint_bytes` makes.
use cds_guard.Prelude.{
  ℕ, ◌-◌, ◌^◌, ◌<◌, ◌≡◌, ◌⊎◌, inl, inr, refl, sym, ap, ap₂, ◌∙◌, Bool, true, [], ◌∷◌, ◌++◌,
  append_assoc, Bytes, length, length-append, length-replicate, take, drop, take-length_append,
  drop-length_append, replicate, leb, ◌==◌, if◌then◌else◌, arith,
}
use cds_guard.Aria.Block.{at}
use cds_guard.GuardL2.Wire.{load16, htons}
use cds_guard.Gateway.ProxyHeader.{ip_field, ip_version, port_bytes, endpoint_bytes}
use cds_guard.Gateway.FileSink.{Endpoint, Reading, read_then, read_endpoint}

pub read_then-append :
    (n : ℕ) (xs rest : Bytes) (k : Bytes → Bytes → Reading)
    → length xs ≡ n
    → read_then n (xs ++ rest) k ≡ k xs rest
unfolding read_then
read_then-append n xs rest k e =
    ap (λ (b : Bool). if b then k (take n (xs ++ rest)) (drop n (xs ++ rest)) else Reading.failed)
      enough
    ∙ ap₂ k (ap (λ j. take j (xs ++ rest)) (sym e) ∙ take-length_append xs rest)
        (ap (λ j. drop j (xs ++ rest)) (sym e) ∙ drop-length_append xs rest)
  where
    enough : leb n (length (xs ++ rest)) ≡ true
    enough = let total = length-append xs rest in ground arith

pub read_then-at :
    (n : ℕ) (stream xs rest : Bytes) (k : Bytes → Bytes → Reading)
    → stream ≡ xs ++ rest
    → length xs ≡ n
    → read_then n stream k ≡ k xs rest
read_then-at n stream xs rest k at_front e =
    ap (λ (s : Bytes). read_then n s k) at_front ∙ read_then-append n xs rest k e

port_back : (p : ℕ) → p < 2 ^ 16 → htons (load16 (port_bytes p) 0) ≡ p
unfolding htons
port_back p h = omega arith

-- An address of 4 or of 16 bytes.
abbrev pub IsIp : Bytes → Type 0
IsIp ip = (length ip ≡ 4) ⊎ (length ip ≡ 16)

length-ip_field : (ip : Bytes) → IsIp ip → length (ip_field ip) ≡ 16
length-ip_field ip (inl e) = omega (
  arith,
  e,
  length-append ip (replicate (16 - length ip) 0),
  length-replicate {A = ℕ} (16 - length ip) 0,
)
length-ip_field ip (inr e) = omega (
  arith,
  e,
  length-append ip (replicate (16 - length ip) 0),
  length-replicate {A = ℕ} (16 - length ip) 0,
)

abbrev pub endpoint_of : Bytes → ℕ → Endpoint
endpoint_of ip port = record { ip_ver = ip_version ip; ip_len = length ip; ip = ip; port = port }

ip_len_of : (ip : Bytes) → IsIp ip → (if ip_version ip == 4 then 4 else 16) ≡ length ip
ip_len_of ip (inl e) = ground arith
ip_len_of ip (inr e) = ground arith

pub read_endpoint-bytes :
    (ip : Bytes) (port : ℕ) (rest : Bytes) (k : Endpoint → Bytes → Reading)
    → IsIp ip
    → port < 2 ^ 16
    → read_endpoint (endpoint_bytes ip port ++ rest) k ≡ k (endpoint_of ip port) rest
unfolding read_endpoint
read_endpoint-bytes ip port rest k h hp =
    read_then-append 1 (ip_version ip ∷ []) ((ip_field ip ++ port_bytes port) ++ rest) after_version
      refl
    ∙ read_then-at 16 ((ip_field ip ++ port_bytes port) ++ rest) (ip_field ip)
        (port_bytes port ++ rest) after_ip (append_assoc (ip_field ip) (port_bytes port) rest)
        (length-ip_field ip h)
    ∙ read_then-append 2 (port_bytes port) rest (after_port (ip_field ip)) refl
    ∙ ap (λ (e : Endpoint). k e rest) fields
  where
    len : ℕ
    len = if ip_version ip == 4 then 4 else 16

    after_port : Bytes → Bytes → Bytes → Reading
    after_port field port s3 =
        k
          (record {
            ip_ver = ip_version ip;
            ip_len = len;
            ip = take len field;
            port = htons (load16 port 0);
          })
          s3

    after_ip : Bytes → Bytes → Reading
    after_ip field s2 = read_then 2 s2 (after_port field)

    after_version : Bytes → Bytes → Reading
    after_version ver s1 = read_then 16 s1 (λ field s2. read_then 2 s2 (λ port s3.
        let ip_len = if at ver 0 == 4 then 4 else 16 in
        k
          (record {
            ip_ver = at ver 0;
            ip_len = ip_len;
            ip = take ip_len field;
            port = htons (load16 port 0);
          })
          s3))

    fields :
        record {
          ip_ver = ip_version ip;
          ip_len = if ip_version ip == 4 then 4 else 16;
          ip = take (if ip_version ip == 4 then 4 else 16) (ip_field ip);
          port = htons (load16 (port_bytes port) 0);
        }
        ≡ endpoint_of ip port
    fields =
        ap
          (λ (l : ℕ). record {
            ip_ver = ip_version ip;
            ip_len = l;
            ip = take l (ip_field ip);
            port = htons (load16 (port_bytes port) 0);
          })
          (ip_len_of ip h)
        ∙ ap₂
            (λ (i : Bytes) (p : ℕ). record {
              ip_ver = ip_version ip;
              ip_len = length ip;
              ip = i;
              port = p;
            })
            (take-length_append ip (replicate (16 - length ip) 0)) (port_back port hp)
