-- ===== src/GuardL2/Sender.antt =====
-- `GuardL2Sender`: the congestion window, the estimate of the round trip, the frames of the data, and the
-- acknowledgements that it takes.
pub mod Window
pub mod Rtt
pub mod Frames
pub mod Acks
pub mod Wait
