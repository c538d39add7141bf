-- ===== src/PacketBuffer.antt =====
-- PacketProcessor/src/PacketBuffer.cpp: the bounded queue of packets. Each method holds the mutex
-- throughout, so concurrent use is a sequence of calls.
pub mod Fifo
use cds_guard.Prelude.{
  ℕ, Bool, true, false, Option, none, some, List, [], ◌∷◌, ◌++◌, Bytes, leb, ltb, ◌==◌,
  if◌then◌else◌, length, take,
}

pub record Packet : Type 0 where
  pub bytes : Bytes
  pub size : ℕ

pub record PacketBuffer : Type 0 where
  pub buffer : List Packet
  pub max_size : ℕ

unfoldable pub new : ℕ → PacketBuffer
new max_size = record { buffer = []; max_size = max_size }

unfoldable pub full : PacketBuffer → Bool
full b = leb b.max_size (length b.buffer)

unfoldable pub empty : PacketBuffer → Bool
empty b = length b.buffer == 0

unfoldable pub size : PacketBuffer → ℕ
size b = length b.buffer

-- Copies `n` bytes behind the pointer; `none` is the null pointer. What can be read behind it is the
-- list, and the caller says no more than that.
unfoldable pub add_packet : PacketBuffer → Option Bytes → ℕ → PacketBuffer × Bool
add_packet b none n = (b, false)
add_packet b (some input) n =
    if n == 0
    then (b, false)
    else if leb b.max_size (length b.buffer)
    then (b, false)
    else (record b { buffer = b.buffer ++ record { bytes = take n input; size = n } ∷ [] }, true)

-- The packet at the front, `none` for the null pointer.
unfoldable pub read_packet : PacketBuffer → PacketBuffer × Option Packet
read_packet b = elim b.buffer [ [] ↦ (b, none) | p ∷ rest ↦ (record b { buffer = rest }, some p) ]

unfoldable pub clear : PacketBuffer → PacketBuffer
clear b = record b { buffer = [] }
