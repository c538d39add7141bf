-- ===== src/Gateway.antt =====
-- CDSGateway/src/CdsGateway.cpp: the service that takes files from clients.
pub mod ProxyHeader
pub mod FileSink
pub mod Processing
pub mod Dispatch
pub mod Discovery
pub mod GuardEndpoint
