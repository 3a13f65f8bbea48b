-- ===== src/Tunnel.antt =====
-- tuctl-server/src/main.rs and tuctl-client/src/main.rs: remote control over encrypted datagrams.
pub mod Clock
pub mod Replay
pub mod Packet
pub mod Padding
pub mod Server
pub mod RateLimiter
pub mod Dsl
pub mod Client
pub mod EndToEnd
