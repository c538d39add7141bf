-- ===== src/Examples.antt =====
-- Tests of the definitions on concrete inputs, and each theorem at one of them.
mod Aria
mod Cbc
mod Protocol
mod PacketBuffer
mod Wire
mod Transfer
mod Delivery
mod Sender
mod Gateway
mod Trie
mod Keywords
mod Filter
