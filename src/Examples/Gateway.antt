-- ===== src/Examples/Gateway.antt =====
-- Uploads to the gateway on concrete inputs.
use cds_guard.Prelude.{
  ◌≡◌, ◌≤◌, ◌+◌, ◌⊎◌, ℕ, inl, refl, true, false, none, some, List, [], ◌∷◌, Bytes, length, min,
  replicate, ◌>>=◌, arith,
}
use cds_guard.GuardL2.Wire.{htonl}
use cds_guard.Protocol.{get_protocol_engine}
use cds_guard.Protocol.RoundTrip.{get_protocol_engine-IsModule}
use cds_guard.Gateway.Processing.{document_future, done_with}
use cds_guard.Gateway.Dispatch.{new_payload, dispatch, relay}
use cds_guard.Gateway.Dispatch.Delivery.{expected, relay-dispatch}
use cds_guard.Gateway.GuardEndpoint.{GuardAddress, invalidate_guard_endpoint, connect_guard}
use cds_guard.Gateway.GuardEndpoint.Connection.{
  Search, found_of, results_of, connect_guard-last_guard,
}
use cds_guard.Gateway.Discovery.{
  gateway_dialect, guard_dialect, request, receive_from, answer, handle_pong,
}
use cds_guard.Gateway.Discovery.Exchange.{handle_pong-answer}
use cds_guard.Gateway.FileSink.{
  Payload, Gateway, bad_magic, bad_tag, read_then, read_session, is_txt, extension, same_bytes,
  max_tasks,
}
use cds_guard.Gateway.FileSink.Sessions.{
  max_connections, IsHistory, accept, is_full, connects, ends, run_sink, one_by_one,
  run_sink_bounded, run_sink-IsRejected,
}

abbrev client_ip : Bytes
client_ip = 10 ∷ 0 ∷ 0 ∷ 7 ∷ []

abbrev server_ip : Bytes
server_ip = replicate 16 9

-- "a.txt"
abbrev name : Bytes
name = 97 ∷ 46 ∷ 116 ∷ 120 ∷ 116 ∷ []

dot_txt : is_txt name ≡ true
unfolding is_txt extension same_bytes
dot_txt = refl

abbrev contents : Bytes
contents = 1 ∷ 2 ∷ 3 ∷ []

abbrev idle : Gateway
idle = record { receive_task_list = []; active_connections = 0 }

two_connect : IsHistory (connects ∷ connects ∷ ends contents ∷ []) idle 0
unfolding accept is_full
two_connect = (omega arith, tt)

run_sink_bounded_example :
    (length (run_sink (connects ∷ connects ∷ ends contents ∷ []) idle).receive_task_list
      ≤ max_tasks)
    × ((run_sink (connects ∷ connects ∷ ends contents ∷ []) idle).active_connections
        ≤ max_connections)
run_sink_bounded_example =
    run_sink_bounded (connects ∷ connects ∷ ends contents ∷ []) idle 0 (omega arith) (omega arith)
      (omega arith) two_connect

abbrev zeros : Bytes
zeros = 0 ∷ 0 ∷ 0 ∷ 0 ∷ []

zeros_rejected : (read_session zeros ≡ bad_magic) ⊎ (read_session zeros ≡ bad_tag)
unfolding read_session read_then htonl
zeros_rejected = inl refl

run_sink-IsRejected_example :
    (run_sink (one_by_one (zeros ∷ zeros ∷ [])) idle).active_connections
    ≡ min max_connections (0 + 2)
run_sink-IsRejected_example =
    run_sink-IsRejected (zeros ∷ zeros ∷ []) idle (zeros_rejected, (zeros_rejected, tt))
      (omega arith) (omega arith)

-- An upload of "a.txt" that has been read, and one of a document.
abbrev text_file : Payload
text_file = record {
  src = record { ip_ver = 4; ip_len = 4; ip = client_ip; port = 50000 };
  dest = record { ip_ver = 6; ip_len = 16; ip = server_ip; port = 80 };
  is_file = true;
  is_txt_file = true;
  file_name = name;
  content = contents;
}

abbrev document : Payload
document = record text_file { is_txt_file = false }

relay-dispatch_example :
    (sent : Bytes) × (pos : ℕ) × (dispatch (λ i. i) get_protocol_engine text_file 0
      ≡ some (sent, pos))
    × (relay get_protocol_engine sent
        ≡ some (record {
          src = expected text_file.src;
          dest = expected text_file.dest;
          bytes = new_payload text_file;
        }))
relay-dispatch_example =
    relay-dispatch (λ i. i) get_protocol_engine text_file 0 get_protocol_engine-IsModule
      (record { version = omega arith; len = refl; size = refl; port = omega arith })
      (record { version = omega arith; len = refl; size = refl; port = omega arith })
      (omega arith, (omega arith, (omega arith, (omega arith, (omega arith, tt)))))
      (omega arith, (omega arith, (omega arith, tt)))

-- The payload of a document that could not be censored is passed on as it came.
uncensored : done_with document (document_future (some 0)) ≡ some document
unfolding done_with
uncensored = refl

-- A code of 32 bytes that depends on the message.
abbrev hmac : Bytes → Bytes
hmac bytes = replicate 32 (length bytes)

abbrev nonce : Bytes
nonce = replicate 12 7

handle_pong-answer_example :
    ((answer gateway_dialect hmac 15051
          (length (request gateway_dialect hmac nonce))
          (receive_from (replicate 64 0) (request gateway_dialect hmac nonce))
        >>= handle_pong gateway_dialect hmac nonce)
      ≡ some 15051)
    × ((answer guard_dialect hmac 15051
            (length (request guard_dialect hmac nonce))
            (receive_from (replicate 64 0) (request guard_dialect hmac nonce))
          >>= handle_pong guard_dialect hmac nonce)
        ≡ some 15051)
handle_pong-answer_example =
    handle_pong-answer hmac (λ bytes. refl) nonce refl 15051 (replicate 64 0) (omega arith)

-- Four bytes are answered as the request that the array still holds.
stale_request :
    answer gateway_dialect hmac 15051 4
      (receive_from (request gateway_dialect hmac nonce) (80 ∷ 73 ∷ 78 ∷ 71 ∷ []))
    ≡ answer gateway_dialect hmac 15051 48 (request gateway_dialect hmac nonce)
unfolding answer receive_from request
stale_request = refl

abbrev old_guard : GuardAddress
old_guard = record { address = client_ip; port = 4000 }

abbrev new_guard : GuardAddress
new_guard = record { address = client_ip; port = 4001 }

abbrev one_search : List Search
one_search = record { misses = 2; guard = new_guard } ∷ []

connect_guard-last_guard_example :
    (connect_guard (results_of one_search []) (found_of one_search []) (some old_guard)
      ≡ some (new_guard, some new_guard))
    × (connect_guard (results_of one_search []) (some old_guard ∷ found_of one_search []) none
        ≡ some (new_guard, some new_guard))
connect_guard-last_guard_example = connect_guard-last_guard 0 old_guard one_search [] []

another_guard_stays : invalidate_guard_endpoint old_guard (some new_guard) ≡ some new_guard
unfolding invalidate_guard_endpoint same_bytes
another_guard_stays = refl
