-- ===== src/Examples/Protocol.antt =====
-- The engine of the two programs on a concrete input.
use cds_guard.Prelude.{ℕ, ◌≡◌, some, [], ◌∷◌, Bytes, AllBytes, arith}
use cds_guard.Protocol.{encrypt, decrypt, get_protocol_engine}
use cds_guard.Protocol.RoundTrip.{decrypt-encrypt_engine, get_protocol_engine-IsModule}

decrypt-encrypt_engine_example :
    (out : Bytes) × (pos' : ℕ) × (encrypt (λ i. i) get_protocol_engine (72 ∷ 255 ∷ []) 0
      ≡ some (out, pos'))
    × AllBytes out
    × (decrypt get_protocol_engine out ≡ some (72 ∷ 255 ∷ []))
decrypt-encrypt_engine_example =
    decrypt-encrypt_engine (λ i. i) get_protocol_engine (72 ∷ 255 ∷ []) 0
      get_protocol_engine-IsModule (omega arith, (omega arith, tt))
