-- ===== src/Address.antt =====
-- `std::net::IpAddr`, which ktuctl-rs/src/helper.rs and tuctl-client/src/main.rs use: the bytes of an
-- address, 4 or 16.
use ktuctl_rs.Bytes.{Bytes}

pub data IpAddr : Type 0 where
  v4 v6 : Bytes → IpAddr
