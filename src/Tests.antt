-- ===== src/Tests.antt =====
-- The theorems at concrete inputs, and runs of the programs' functions.
mod Setup
mod Netlink
mod Control
mod Edit
mod Script
mod Users
mod Main
mod Tunnel
mod Server
mod Client
mod EndToEnd
