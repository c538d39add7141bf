-- ===== src/Protocol/RoundTrip.antt =====
-- An engine's `decrypt` undoes its `encrypt`.
use mathlib.Core.Path.{fun_ext}
use mathlib.Core.List.{reverse, reverse-cons}
use cds_guard.Prelude.{
  ℕ, ◌+◌, ◌^◌, ◌<◌, ◌≡◌, refl, sym, ap, ap₂, ◌∙◌, true, some, ◌>>=◌, List, [], ◌∷◌, ◌++◌, arith,
  Bytes, IsByte, AllBytes, All, All-append, leb, ==-self, length, length-append, drop-length_append,
  bind_assoc, bind-some, inr,
}
use cds_guard.Cbc.RoundTrip.{decrypt-encrypt as cbc_round_trip}
use cds_guard.Aria.KeySchedule.Rows.{IsKey}
use cds_guard.Protocol.{
  ProtocolModule, shift_module, encryption_module, padding_module, shift_process, shift_reverse,
  padding_process, equal_prefix, padding_reverse, process, undo, ProtocolEngine, process_loop,
  undo_loop, encrypt, decrypt, get_protocol_engine,
}

-- What a module needs: an `int`, a key of a length that ARIA has, bytes.
abbrev pub IsModule : ProtocolModule → Type 0
IsModule (shift_module offset) = offset < 2 ^ 32
IsModule (encryption_module key) = (r : ℕ) × IsKey key r
IsModule (padding_module pad) = AllBytes pad

shift_undo :
    (offset : ℕ) (b : Bytes)
    → offset < 2 ^ 32
    → AllBytes b
    → shift_reverse offset (shift_process offset b) ≡ b
unfolding shift_reverse shift_process
shift_undo offset [] h hb = refl
shift_undo offset (x ∷ b) h hb = ap₂ ◌∷◌ (omega arith) (shift_undo offset b h hb.1)

shift-AllBytes : (offset : ℕ) (b : Bytes) → AllBytes (shift_process offset b)
unfolding shift_process
shift-AllBytes offset [] = tt
shift-AllBytes offset (x ∷ b) = (omega arith, shift-AllBytes offset b)

equal_prefix-append : (pad b : Bytes) → equal_prefix pad (pad ++ b) ≡ true
unfolding equal_prefix
equal_prefix-append [] b = refl
equal_prefix-append (p ∷ pad) b = rw (==-self p) (equal_prefix-append pad b)

padding_undo : (pad b : Bytes) → padding_reverse pad (padding_process pad b) ≡ b
unfolding padding_reverse padding_process
padding_undo pad b = rw (longer, equal_prefix-append pad b) (drop-length_append pad b)
  where
    longer : leb (length pad) (length (pad ++ b)) ≡ true
    longer = ground (arith, length-append pad b)

abbrev Undone : (ℕ → ℕ) → ProtocolModule → Bytes → ℕ → Type 0
Undone rd m input pos =
    (out : Bytes) × (pos' : ℕ) × (process rd m input pos ≡ some (out, pos'))
    × AllBytes out
    × (undo m out ≡ some input)

process-Undone :
    (rd : ℕ → ℕ) (m : ProtocolModule) (input : Bytes) (pos : ℕ)
    → IsModule m
    → AllBytes input
    → Undone rd m input pos
unfolding process undo padding_process
process-Undone rd (shift_module offset) input pos h hb = (
  shift_process offset input,
  pos,
  refl,
  shift-AllBytes offset input,
  ap some (shift_undo offset input h hb),
)
process-Undone rd (encryption_module key) input pos (r, hk) hb =
    let (out, made, _, _, bytes, back) = cbc_round_trip rd key input pos r hk hb in
    (out, pos + 16, made, bytes, back)
process-Undone rd (padding_module pad) input pos h hb =
    (pad ++ input, pos, refl, All-append IsByte pad input h hb, ap some (padding_undo pad input))

undo_loop-append :
    (ms : List ProtocolModule) (m : ProtocolModule) (b : Bytes)
    → undo_loop (ms ++ m ∷ []) b ≡ (undo_loop ms b >>= undo m)
unfolding undo_loop
undo_loop-append [] m b = bind-some (undo m b)
undo_loop-append (n ∷ ms) m b =
    ap (λ k. undo n b >>= k) (fun_ext (undo_loop-append ms m))
    ∙ sym (bind_assoc (undo n b) (undo_loop ms) (undo m))

process_loop-undo :
    (rd : ℕ → ℕ) (ms : List ProtocolModule) (input : Bytes) (pos : ℕ)
    → All IsModule ms
    → AllBytes input
    → (out : Bytes) × (pos' : ℕ) × (process_loop rd ms input pos ≡ some (out, pos'))
      × AllBytes out
      × (undo_loop (reverse ms) out ≡ some input)
unfolding process_loop undo_loop
process_loop-undo rd [] input pos h hb = (input, pos, refl, hb, refl)
process_loop-undo rd (m ∷ ms) input pos h hb =
    let (mid, pos1, made, mid_bytes, back) = process-Undone rd m input pos h.0 hb in
    let (out, pos2, rest, bytes, undone) = process_loop-undo rd ms mid pos1 h.1 mid_bytes in
    (
      out,
      pos2,
      rw made rest,
      bytes,
      ap (λ l. undo_loop l out) (reverse-cons m ms)
          ∙ undo_loop-append (reverse ms) m out
          ∙ rw undone back,
    )

-- An engine may chain any number of modules in any order, whose shifts have 32 bits, whose keys have 16, 24
-- or 32 bytes and whose pads are bytes. Whatever is drawn, its `encrypt` of bytes succeeds with bytes, and
-- its `decrypt` of the result returns them.
pub decrypt-encrypt_engine :
    (rd : ℕ → ℕ) (engine : ProtocolEngine) (input : Bytes) (pos : ℕ)
    → All IsModule engine.modules
    → AllBytes input
    → (out : Bytes) × (pos' : ℕ) × (encrypt rd engine input pos ≡ some (out, pos'))
      × AllBytes out
      × (decrypt engine out ≡ some input)
unfolding encrypt decrypt
decrypt-encrypt_engine rd engine input pos h hb = process_loop-undo rd engine.modules input pos h hb

-- The engine of the two programs is one of those.
pub get_protocol_engine-IsModule : All IsModule get_protocol_engine.modules
unfolding get_protocol_engine
get_protocol_engine-IsModule =
    (omega arith, ((16, (omega arith, inr (inr (refl, refl)))), (omega arith, tt)))
