-- ===== src/Filter.antt =====
-- CDSGateway/include/FilteringInterface.hpp and src/FilteringInterface.cpp: what the gateway takes out of
-- texts and documents.
pub mod Censor
pub mod Documents
pub mod Workers
pub mod Rules
pub mod CharPlaces
