-- ===== src/Gateway/Discovery/Exchange.antt =====
-- A request is answered, and the answer gives the client the gateway's port.
use cds_guard.Prelude.{
  ◌%◌, ◌>>>◌, u16, ℕ, suc, ◌+◌, ◌^◌, ◌<◌, ◌≡◌, refl, sym, ap, ◌∙◌, true, false, some, [], ◌∷◌, ◌++◌,
  append_assoc, append-nil, ◌>>=◌, Bytes, length, length-append, take, take-length_append, drop,
  drop-length_append, ltb, arith,
}
use cds_guard.GuardL2.Wire.{load-store16, htons, htons-lt, ntohs-htons}
use cds_guard.Prelude.Or.{or_fields}
use cds_guard.Gateway.FileSink.{same_bytes}
use cds_guard.Gateway.Discovery.{
  Dialect, letters, answer_port, gateway_dialect, guard_dialect, request, receive_from, pong_body,
  answer, handle_pong,
}

pub same_bytes_self : (xs : Bytes) → same_bytes xs xs ≡ true
unfolding same_bytes
same_bytes_self [] = refl
same_bytes_self (x ∷ xs) = ground (arith, same_bytes_self xs)

take-exact : (n : ℕ) (xs ys : Bytes) → length xs ≡ n → take n (xs ++ ys) ≡ xs
take-exact n xs ys h = ap (λ k. take k (xs ++ ys)) (sym h) ∙ take-length_append xs ys

drop-exact : (n : ℕ) (xs ys : Bytes) → length xs ≡ n → drop n (xs ++ ys) ≡ ys
drop-exact n xs ys h = ap (λ k. drop k (xs ++ ys)) (sym h) ∙ drop-length_append xs ys

module _ (d : Dialect) (hmac : Bytes → Bytes) (sized : (bytes : Bytes) → length (hmac bytes) ≡ 32)
    (nonce : Bytes) (twelve : length nonce ≡ 12) where
  abbrev ask : Bytes
  ask = letters d.ask

  abbrev back : Bytes
  back = letters d.back

  request-append :
      (rest : Bytes)
      → request d hmac nonce ++ rest ≡ (ask ++ nonce) ++ (hmac (ask ++ nonce) ++ rest)
  unfolding request
  request-append rest = ap (λ l. ask ++ l) (append_assoc nonce (hmac (ask ++ nonce)) rest)

  take4 : (rest : Bytes) → take 4 ((ask ++ nonce) ++ rest) ≡ ask
  take4 rest = ap (take 4) (append_assoc ask nonce rest) ∙ take-exact 4 ask (nonce ++ rest) refl

  drop4 : (rest : Bytes) → drop 4 ((ask ++ nonce) ++ rest) ≡ nonce ++ rest
  drop4 rest = ap (drop 4) (append_assoc ask nonce rest) ∙ drop-exact 4 ask (nonce ++ rest) refl

  length-ask : length (ask ++ nonce) ≡ 16
  length-ask = length-append ask nonce ∙ ap (λ k. 4 + k) twelve

  pong_body-request :
      (port : ℕ) (rest : Bytes)
      → pong_body d hmac port (request d hmac nonce ++ rest) ≡ back ++ (answer_port d port ++ nonce)
  unfolding pong_body
  pong_body-request port rest =
      rw
        (
          request-append rest,
          drop4 (hmac (ask ++ nonce) ++ rest),
          take-exact 12 nonce (hmac (ask ++ nonce) ++ rest) twelve,
        )
        refl

  answer-request :
      (port : ℕ) (n : ℕ) (rest : Bytes)
      → ltb n 4 ≡ false
      → answer d hmac port n (request d hmac nonce ++ rest)
        ≡ some (
            (back ++ (answer_port d port ++ nonce)) ++ hmac (back ++ (answer_port d port ++ nonce)))
  unfolding answer
  answer-request port n rest h =
      rw
        (
          pong_body-request port rest,
          request-append rest,
          take4 (hmac (ask ++ nonce) ++ rest),
          take-exact 16 (ask ++ nonce) (hmac (ask ++ nonce) ++ rest) length-ask,
          drop-exact 16 (ask ++ nonce) (hmac (ask ++ nonce) ++ rest) length-ask,
          take-exact 32 (hmac (ask ++ nonce)) rest (sized (ask ++ nonce)),
          same_bytes_self (hmac (ask ++ nonce)),
          same_bytes_self ask,
          h,
        )
        refl

  length-back : (port : ℕ) → length (back ++ (answer_port d port ++ nonce)) ≡ 18
  length-back port = ap (λ k. suc (suc (suc (suc (suc (suc k)))))) twelve

  take6 :
      (port : ℕ) (rest : Bytes)
      → take 12 (drop 6 ((back ++ (answer_port d port ++ nonce)) ++ rest)) ≡ nonce
  take6 port rest = take-exact 12 nonce rest twelve

  length-answer :
      (port : ℕ)
      → length
          ((back ++ (answer_port d port ++ nonce)) ++ hmac (back ++ (answer_port d port ++ nonce)))
        ≡ 50
  length-answer port =
      rw
        (
          length-append (back ++ (answer_port d port ++ nonce))
              (hmac (back ++ (answer_port d port ++ nonce))),
          length-back port,
          sized (back ++ (answer_port d port ++ nonce)),
        )
        refl

  take4-back :
      (port : ℕ) (rest : Bytes) → take 4 ((back ++ (answer_port d port ++ nonce)) ++ rest) ≡ back
  take4-back port rest = refl

  take32 : (bytes : Bytes) → take 32 (hmac bytes) ≡ hmac bytes
  take32 bytes =
      ap (take 32) (sym (append-nil (hmac bytes))) ∙ take-exact 32 (hmac bytes) [] (sized bytes)

  handle_pong-pong :
      (port : ℕ)
      → d.read_port (d.first port) (d.second port) ≡ port
      → handle_pong d hmac nonce
          ((back ++ (answer_port d port ++ nonce)) ++ hmac (back ++ (answer_port d port ++ nonce)))
        ≡ some port
  unfolding handle_pong
  handle_pong-pong port reads =
      let body = back ++ (answer_port d port ++ nonce) in
      let mac = hmac body in
      rw
        (
          length-answer port,
          take4-back port mac,
          take6 port mac,
          drop-exact 18 body mac (length-back port),
          take32 body,
          same_bytes_self mac,
          same_bytes_self nonce,
          same_bytes_self back,
          reads,
        )
        refl

  length-request : length (request d hmac nonce) ≡ 48
  unfolding request
  length-request =
      ap (λ k. suc (suc (suc (suc k))))
        (rw (length-append nonce (hmac (ask ++ nonce)), twelve, sized (ask ++ nonce)) refl)

  -- Where the answer's port is read as it was written, a request is answered, whatever the array held before,
  -- and the answer gives the port.
  exchange :
      (port : ℕ) (buf : Bytes)
      → d.read_port (d.first port) (d.second port) ≡ port
      → (answer d hmac port
            (length (request d hmac nonce))
            (receive_from buf (request d hmac nonce))
          >>= handle_pong d hmac nonce)
        ≡ some port
  unfolding receive_from
  exchange port buf reads =
      rw
        (answer-request port (length (request d hmac nonce))
          (drop (length (request d hmac nonce)) buf) (ap (λ k. ltb k 4) length-request))
        (handle_pong-pong port reads)

gateway_reads :
    (port : ℕ)
    → port < 2 ^ 16
    → gateway_dialect.read_port (gateway_dialect.first port) (gateway_dialect.second port) ≡ port
gateway_reads port h = load-store16 port h

guard_reads :
    (port : ℕ)
    → port < 2 ^ 16
    → guard_dialect.read_port (guard_dialect.first port) (guard_dialect.second port) ≡ port
guard_reads port h =
    ap (λ x. htons (u16 x))
      (or_fields 8 ((htons port >>> 8) % 256) (htons port % 256) (omega arith))
    ∙ ap htons (omega (arith, htons-lt port))
    ∙ ntohs-htons port h

module _ (hmac : Bytes → Bytes) (sized : (bytes : Bytes) → length (hmac bytes) ≡ 32) (nonce : Bytes)
    (twelve : length nonce ≡ 12) (port : ℕ) (buf : Bytes) (small : port < 2 ^ 16) where
  -- Where the code of a message has 32 bytes, the nonce 12 and the port fits in 16 bits, the gateway answers
  -- a client's request and a guard the gateway's, whatever the responder's array held before, and the one
  -- that asked takes from the answer the port.
  pub handle_pong-answer :
      ((answer gateway_dialect hmac port
            (length (request gateway_dialect hmac nonce))
            (receive_from buf (request gateway_dialect hmac nonce))
          >>= handle_pong gateway_dialect hmac nonce)
        ≡ some port)
      × ((answer guard_dialect hmac port
              (length (request guard_dialect hmac nonce))
              (receive_from buf (request guard_dialect hmac nonce))
            >>= handle_pong guard_dialect hmac nonce)
          ≡ some port)
  handle_pong-answer = (
    exchange gateway_dialect hmac sized nonce twelve port buf (gateway_reads port small),
    exchange guard_dialect hmac sized nonce twelve port buf (guard_reads port small),
  )
