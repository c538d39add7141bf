-- ===== src/GuardL2.antt =====
-- CDSGuardSub/src/GuardL2.cpp and include/GuardL2.hpp: the reliable protocol over raw Ethernet
-- frames. The host is little-endian.
pub mod Crc
pub mod Wire
pub mod Frame
pub mod Receiver
pub mod Sender
pub mod Transfer
pub mod Delivery
