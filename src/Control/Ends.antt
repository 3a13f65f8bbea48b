-- ===== src/Control/Ends.antt =====
-- The commands of ktuctl-rs/src/commands.rs and `main` of ktuctl-rs/src/main.rs end on whatever the
-- kernel answers.
pub mod Arguments
pub mod Edits
pub mod Listings
pub mod Programs
