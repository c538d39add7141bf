-- ===== src/Gateway/Dispatch/Delivery.antt =====
-- What the gateway dispatches comes out of the guard at its destination.
use cds_guard.Prelude.{
  ℕ, zero, suc, ◌+◌, ◌%◌, ◌^◌, ◌<◌, ◌≡◌, refl, sym, ap, ◌∙◌, bit_or, true, some, [], ◌∷◌, ◌++◌,
  append_assoc, Bytes, IsByte, AllBytes, All-append, length, length-append, take,
  take-length_append, take_all, drop, drop-length_append, get_elem?, leb, ◌==◌, u8, u16, u32, ◌<<<◌,
  ◌>>>◌, if◌then◌else◌, if-elim, All, arith,
}
use cds_guard.Prelude.Or.{or_fields}
use cds_guard.GuardL2.Wire.{store32, store64}
use cds_guard.Protocol.{ProtocolEngine, decrypt}
use cds_guard.Protocol.RoundTrip.{IsModule, decrypt-encrypt_engine}
use cds_guard.Gateway.ProxyHeader.{client_file}
use cds_guard.Gateway.FileSink.{Endpoint, Payload, file_tag, text_tag}
use cds_guard.Gateway.Dispatch.{
  endpoint_header, new_payload, dispatch, bytes_at, endpoint_at, info_size, relay, peer_of, Peer,
  address_v4, address_v6, unset,
}

-- An address as a session leaves it, of whatever version.
pub record IsEndpoint (e : Endpoint) : Type 0 where
  pub version : e.ip_ver < 256
  pub len : e.ip_len ≡ (if e.ip_ver == 4 then 4 else 16)
  pub size : length e.ip ≡ e.ip_len
  pub port : e.port < 2 ^ 16

get_elem?-append_at :
    (pre : Bytes) (i b : ℕ) (post : Bytes)
    → i ≡ length pre
    → get_elem? (pre ++ (b ∷ post)) i ≡ some b
get_elem?-append_at [] zero b post h = refl
get_elem?-append_at [] (suc i) b post h = absurd (omega arith)
get_elem?-append_at (x ∷ pre) zero b post h = absurd (omega arith)
get_elem?-append_at (x ∷ pre) (suc i) b post h = get_elem?-append_at pre i b post (omega arith)

bytes_at-append :
    (pre bytes post : Bytes) (i n : ℕ)
    → i ≡ length pre
    → n ≡ length bytes
    → bytes_at (pre ++ (bytes ++ post)) i n ≡ some bytes
unfolding bytes_at
bytes_at-append pre bytes post i n h k =
    rw (h, k, inside, drop-length_append pre (bytes ++ post), take-length_append bytes post) refl
  where
    inside : leb (length pre + length bytes) (length (pre ++ (bytes ++ post))) ≡ true
    inside = ground (arith, length-append pre (bytes ++ post), length-append bytes post)

port_back : (p : ℕ) → p < 2 ^ 16 → u16 (bit_or (((p >>> 8) % 256) <<< 8) (p % 256)) ≡ p
port_back p h = omega (arith, or_fields 8 ((p >>> 8) % 256) (p % 256) (omega arith))

module _ (pre : Bytes) (v : ℕ) (ip : Bytes) (high low : ℕ) (post : Bytes) where
  abbrev laid : Bytes
  laid = pre ++ (v ∷ (ip ++ (high ∷ (low ∷ post))))

  address_at : bytes_at laid (length pre + 1) (length ip) ≡ some ip
  address_at =
      ap (λ l. bytes_at l (length pre + 1) (length ip))
        (sym (append_assoc pre (v ∷ []) (ip ++ (high ∷ (low ∷ post)))))
      ∙ bytes_at-append (pre ++ v ∷ []) ip (high ∷ (low ∷ post)) (length pre + 1) (length ip)
          (omega (arith, length-append pre (v ∷ []))) refl

  high_at : get_elem? laid (length pre + 1 + length ip) ≡ some high
  high_at =
      ap (λ l. get_elem? l (length pre + 1 + length ip))
        (sym (append_assoc pre (v ∷ ip) (high ∷ (low ∷ post))))
      ∙ get_elem?-append_at (pre ++ (v ∷ ip)) (length pre + 1 + length ip) high (low ∷ post)
          (omega (arith, length-append pre (v ∷ ip)))

  low_at : get_elem? laid (length pre + 1 + length ip + 1) ≡ some low
  low_at =
      ap (λ l. get_elem? l (length pre + 1 + length ip + 1))
        (ap (λ l. pre ++ (v ∷ l)) (sym (append_assoc ip (high ∷ []) (low ∷ post)))
          ∙ sym (append_assoc pre (v ∷ (ip ++ high ∷ [])) (low ∷ post)))
      ∙ get_elem?-append_at (pre ++ (v ∷ (ip ++ high ∷ []))) (length pre + 1 + length ip + 1) low
          post
          (omega (arith, length-append pre (v ∷ (ip ++ high ∷ [])), length-append ip (high ∷ [])))

  endpoint_at-laid :
      length ip ≡ (if v == 4 then 4 else 16)
      → endpoint_at laid (length pre)
        ≡ some (record {
          ip_ver = v;
          ip_len = length ip;
          ip = ip;
          port = u16 (bit_or (high <<< 8) low);
        })
  unfolding endpoint_at
  endpoint_at-laid e =
      rw
        (
          get_elem?-append_at pre (length pre) v (ip ++ (high ∷ (low ∷ post))) refl,
          ← e,
          address_at,
          high_at,
          low_at,
        )
        refl

module _ (e : Endpoint) (ok : IsEndpoint e) (pre post : Bytes) where
  endpoint_header-laid :
      endpoint_header e ++ post
      ≡ e.ip_ver ∷ (e.ip ++ ((e.port >>> 8) % 256 ∷ (e.port % 256 ∷ post)))
  unfolding endpoint_header
  endpoint_header-laid =
      ap (λ v. v ∷ ((take e.ip_len e.ip ++ ((e.port >>> 8) % 256 ∷ (e.port % 256 ∷ []))) ++ post))
        (small_version e.ip_ver ok.version)
      ∙ ap (λ ip. e.ip_ver ∷ ((ip ++ ((e.port >>> 8) % 256 ∷ (e.port % 256 ∷ []))) ++ post))
          (take_all e.ip_len e.ip (omega (arith, ok.size)))
      ∙ ap (λ l. e.ip_ver ∷ l) (append_assoc e.ip ((e.port >>> 8) % 256 ∷ (e.port % 256 ∷ [])) post)
    where
      small_version : (v : ℕ) → v < 256 → u8 v ≡ v
      small_version v h = omega arith

  endpoint_at-endpoint_header :
      endpoint_at (pre ++ (endpoint_header e ++ post)) (length pre) ≡ some e
  endpoint_at-endpoint_header =
      ap (λ l. endpoint_at (pre ++ l) (length pre)) endpoint_header-laid
      ∙ endpoint_at-laid pre e.ip_ver e.ip ((e.port >>> 8) % 256) (e.port % 256) post
          (ok.size ∙ ok.len)
      ∙ ap some (λ i. record {
        ip_ver = e.ip_ver;
        ip_len = ok.size i;
        ip = e.ip;
        port = port_back e.port ok.port i;
      })

length-endpoint_header : (e : Endpoint) → IsEndpoint e → length (endpoint_header e) ≡ info_size e
unfolding endpoint_header
length-endpoint_header e ok = omega (
  arith,
  length-append (take e.ip_len e.ip) ((e.port >>> 8) % 256 ∷ (e.port % 256 ∷ [])),
  ap length (take_all e.ip_len e.ip (omega (arith, ok.size))),
  ok.size,
)

store32-AllBytes : (v : ℕ) → AllBytes (store32 v)
store32-AllBytes v = (omega arith, (omega arith, (omega arith, (omega arith, tt))))

store64-AllBytes : (v : ℕ) → AllBytes (store64 v)
store64-AllBytes v = (
  omega arith,
  (
    omega arith,
    (omega arith, (omega arith, (omega arith, (omega arith, (omega arith, (omega arith, tt)))))),
  ),
)

file_tag-AllBytes : AllBytes file_tag
file_tag-AllBytes = (omega arith, (omega arith, (omega arith, (omega arith, (omega arith, tt)))))

text_tag-AllBytes : AllBytes text_tag
text_tag-AllBytes = (omega arith, (omega arith, (omega arith, (omega arith, (omega arith, tt)))))

new_payload-AllBytes :
    (p : Payload) → AllBytes p.file_name → AllBytes p.content → AllBytes (new_payload p)
unfolding new_payload
new_payload-AllBytes p name content = if-elim AllBytes p.is_file (λ _. as_file) (λ _. as_text)
  where
    sized : AllBytes (store64 (length p.content) ++ p.content)
    sized =
        All-append IsByte (store64 (length p.content)) p.content
          (store64-AllBytes (length p.content)) content

    as_text : AllBytes (text_tag ++ (store64 (length p.content) ++ p.content))
    as_text =
        All-append IsByte text_tag (store64 (length p.content) ++ p.content) text_tag-AllBytes sized

    as_file : AllBytes (
        file_tag
        ++ (store32 (u32 (length p.file_name))
            ++ (p.file_name ++ (store64 (length p.content) ++ p.content))))
    as_file =
        All-append IsByte file_tag
          (store32 (u32 (length p.file_name))
            ++ (p.file_name ++ (store64 (length p.content) ++ p.content)))
          file_tag-AllBytes
          (All-append IsByte (store32 (u32 (length p.file_name)))
            (p.file_name ++ (store64 (length p.content) ++ p.content))
            (store32-AllBytes (u32 (length p.file_name)))
            (All-append IsByte p.file_name (store64 (length p.content) ++ p.content) name sized))

-- The address and the port that belong to an endpoint.
abbrev pub expected : Endpoint → Peer
expected e = record {
  address =
      if e.ip_ver == 4 then address_v4 e.ip else if e.ip_ver == 6 then address_v6 e.ip else unset;
  port = e.port;
}

module _ (engine : ProtocolEngine) (p : Payload) (src : IsEndpoint p.src)
    (dest : IsEndpoint p.dest) where
  relay-headers :
      (out : Bytes)
      → decrypt engine out ≡ some (new_payload p)
      → relay engine (endpoint_header p.src ++ (endpoint_header p.dest ++ out))
        ≡ some (record { src = expected p.src; dest = expected p.dest; bytes = new_payload p })
  unfolding relay peer_of
  relay-headers out e = rw (at_src, at_dest, behind, e) refl
    where
      laid : Bytes
      laid = endpoint_header p.src ++ (endpoint_header p.dest ++ out)

      at_src : endpoint_at laid 0 ≡ some p.src
      at_src = endpoint_at-endpoint_header p.src src [] (endpoint_header p.dest ++ out)

      at_dest : endpoint_at laid (info_size p.src) ≡ some p.dest
      at_dest =
          ap (endpoint_at laid) (sym (length-endpoint_header p.src src))
          ∙ endpoint_at-endpoint_header p.dest dest (endpoint_header p.src) out

      behind : drop (info_size p.src + info_size p.dest) laid ≡ out
      behind =
          ap (λ n. drop n laid)
            (omega (
              arith,
              length-append (endpoint_header p.src) (endpoint_header p.dest),
              length-endpoint_header p.src src,
              length-endpoint_header p.dest dest,
            ))
          ∙ ap (drop (length (endpoint_header p.src ++ endpoint_header p.dest)))
              (sym (append_assoc (endpoint_header p.src) (endpoint_header p.dest) out))
          ∙ drop-length_append (endpoint_header p.src ++ endpoint_header p.dest) out

-- For a payload of bytes whose endpoints are as a session leaves them (a version of 8 bits, an address of 4
-- bytes for version 4 and of 16 otherwise, a port of 16 bits), and an engine of modules whose shifts have 32
-- bits, whose keys have 16, 24 or 32 bytes and whose pads are bytes, whatever is drawn: the gateway's
-- dispatch succeeds, and from exactly its bytes the guard reads both ports, and both addresses where their
-- versions are 4 or 6 (for another version it leaves the address unset), and the bytes that it writes are
-- those that were encrypted.
pub relay-dispatch :
    (rd : ℕ → ℕ) (engine : ProtocolEngine) (p : Payload) (pos : ℕ)
    → All IsModule engine.modules
    → IsEndpoint p.src
    → IsEndpoint p.dest
    → AllBytes p.file_name
    → AllBytes p.content
    → (sent : Bytes) × (pos' : ℕ) × (dispatch rd engine p pos ≡ some (sent, pos'))
      × (relay engine sent
          ≡ some (record { src = expected p.src; dest = expected p.dest; bytes = new_payload p }))
unfolding dispatch
relay-dispatch rd engine p pos modules src dest name content =
    let r =
      decrypt-encrypt_engine rd engine (new_payload p) pos modules
        (new_payload-AllBytes p name content) in
    (
      endpoint_header p.src ++ (endpoint_header p.dest ++ r.0),
      r.1,
      rw (r.2) refl,
      relay-headers engine p src dest r.0 r.4,
    )

-- What is encrypted of a file is what the client sent of it.
pub new_payload-client_file :
    (p : Payload) → p.is_file ≡ true → new_payload p ≡ client_file p.file_name p.content
unfolding new_payload client_file
new_payload-client_file p h = rw h refl
