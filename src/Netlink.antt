-- ===== src/Netlink.antt =====
-- ktuctl-rs/src/netlink.rs: the generic netlink client.
pub mod Attr
pub mod Message
pub mod Loop
pub mod Datagram
pub mod Refinement
pub mod Progress
pub mod Answers
pub mod Request
pub mod Delivery
pub mod Replies
pub mod Dumps
pub mod Kernel
pub mod Closed
pub mod Queries
pub mod Termination
pub mod Socket
pub mod Exchange
