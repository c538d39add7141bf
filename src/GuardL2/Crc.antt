-- ===== src/GuardL2/Crc.antt =====
-- `compute_crc32` and its table. `& 1` and `& 0xFF` are written as remainders.
pub mod Bitwise
pub mod Detection
use cds_guard.Prelude.{
  ℕ, zero, suc, ◌+◌, ◌-◌, ◌/◌, ◌%◌, ◌^◌, List, [], ◌∷◌, Bytes, ◌⊕◌, ◌>>>◌, ◌==◌, if◌then◌else◌,
  get_or, tabulate,
}

abbrev pub polynomial : ℕ
polynomial = 0xEDB88320

-- The body of the loop of `crc32_single`.
unfoldable pub crc_bit : ℕ → ℕ
crc_bit c = if c % 2 == 1 then c >>> 1 ⊕ polynomial else c >>> 1

-- The loop, with `left` turns left.
unfoldable pub crc_bits : ℕ → ℕ → ℕ
unfolding crc_bit
crc_bits zero c = c
crc_bits (suc left) c = crc_bits left (crc_bit c)

unfoldable pub crc32_single : ℕ → ℕ
crc32_single i = crc_bits 8 i

unfoldable pub generate_crc32_table : List ℕ
generate_crc32_table = tabulate 256 0 crc32_single

-- The body of the loop of `compute_crc32`.
unfoldable pub crc_byte : ℕ → ℕ → ℕ
crc_byte crc b = crc >>> 8 ⊕ get_or generate_crc32_table ((crc ⊕ b) % 256) 0

unfoldable pub crc_loop : ℕ → Bytes → ℕ
crc_loop crc [] = crc
crc_loop crc (b ∷ input) = crc_loop (crc_byte crc b) input

-- The last line is `~crc` on 32 bits.
unfoldable pub compute_crc32 : Bytes → ℕ
compute_crc32 input = 2 ^ 32 - 1 - crc_loop 0xFFFFFFFF input
