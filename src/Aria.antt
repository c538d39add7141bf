-- ===== src/Aria.antt =====
-- PacketProcessor/src/encryption/ARIAReference.cpp: the ARIA block cipher. The tables, the layers
-- and the round keys are each a child; `Inverse` proves that the two directions undo each other.
pub mod Tables
pub mod Block
pub mod Diffusion
pub mod Cipher
pub mod KeySchedule
pub mod Rounds
pub mod Inverse
pub mod RoundTrip
