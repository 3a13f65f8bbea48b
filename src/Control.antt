-- ===== src/Control.antt =====
-- ktuctl-rs/src/helper.rs, ktuctl-rs/src/uid_map.rs and the commands of ktuctl-rs/src/commands.rs.
pub mod UidMap
pub mod XorKey
pub mod Comment
pub mod Names
pub mod Options
pub mod Edit
pub mod AddressText
pub mod Listing
pub mod Script
pub mod Main
pub mod Ends
