-- ===== src/Grpc.antt =====
-- grpcidem/: the gRPC integration.
pub mod Payload
pub mod Key
pub mod Call
pub mod Intercept
mod Tests
