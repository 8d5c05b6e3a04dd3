-- ===== src/Transport.antt =====
-- internal/transport: the messages of internal/raft as RPCs of gRPC. What gRPC does is a parameter.
pub mod Proto
pub mod Client
pub mod Server
pub mod Calls
pub mod Connections
