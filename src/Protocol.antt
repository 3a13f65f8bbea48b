-- ===== src/Protocol.antt =====
-- ktuctl-rs/src/config.rs: the constants and the structs that are shared with the kernel module.
pub mod Layout
pub mod Constants
pub mod Structs
pub mod Image
pub mod RoundTrip
