-- ===== src/Examples/Wire.antt =====
-- The checksum, the byte order and the frames of GuardL2 on concrete inputs.
use cds_guard.Prelude.{◌≡◌, ◌≢◌, ◌-◌, ◌^◌, refl, [], ◌∷◌, ◌++◌, Bytes, AllBytes, arith}
use cds_guard.GuardL2.Crc.{
  compute_crc32, crc_loop, crc_byte, generate_crc32_table, crc32_single, crc_bits, crc_bit,
}
use cds_guard.GuardL2.Crc.Bitwise.{crc_bitwise, compute_crc32-bitwise}
use cds_guard.GuardL2.Crc.Detection.{compute_crc32-detects}
use cds_guard.GuardL2.Frame.{Mac, accepted, build_frame, parse_frame, type_data}
use cds_guard.GuardL2.Frame.RoundTrip.{parse_frame-build_frame}

-- "123456789"
abbrev digits : Bytes
digits = 49 ∷ 50 ∷ 51 ∷ 52 ∷ 53 ∷ 54 ∷ 55 ∷ 56 ∷ 57 ∷ []

digits-AllBytes : AllBytes digits
digits-AllBytes = (
  omega arith,
  (
    omega arith,
    (
      omega arith,
      (omega arith, (omega arith, (omega arith, (omega arith, (omega arith, (omega arith, tt)))))),
    ),
  ),
)

check_value : compute_crc32 digits ≡ 0xCBF43926
unfolding compute_crc32 crc_loop crc_byte generate_crc32_table crc32_single crc_bits crc_bit
check_value = refl

compute_crc32-bitwise_example : compute_crc32 digits ≡ 2 ^ 32 - 1 - crc_bitwise 0xFFFFFFFF digits
compute_crc32-bitwise_example = compute_crc32-bitwise digits digits-AllBytes

compute_crc32-detects_example :
    compute_crc32 (49 ∷ 50 ∷ 51 ∷ []) ≢ compute_crc32 (49 ∷ 54 ∷ 51 ∷ [])
compute_crc32-detects_example =
    compute_crc32-detects (49 ∷ []) 50 54 (51 ∷ []) (omega arith, (omega arith, (omega arith, tt)))
      (omega arith, (omega arith, (omega arith, tt))) (λ h. omega (arith, h))

abbrev here : Mac
here = record { m0 = 2; m1 = 0; m2 = 0; m3 = 0; m4 = 0; m5 = 1 }

abbrev there : Mac
there = record { m0 = 2; m1 = 0; m2 = 0; m3 = 0; m4 = 0; m5 = 2 }

parse_frame-build_frame_example :
    parse_frame here (build_frame there here 7 9 type_data 1 digits ++ 0 ∷ []) 48
    ≡ accepted (record {
      kind = type_data;
      session_id = 7;
      seq_num = 1;
      total_size = 9;
      payload = digits;
      sender_mac = there;
    })
parse_frame-build_frame_example =
    parse_frame-build_frame there here 7 9 type_data 1 digits (0 ∷ []) 48 (omega arith)
      (omega arith) (omega arith) (omega arith) (omega arith)
