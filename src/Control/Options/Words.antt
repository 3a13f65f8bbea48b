-- ===== src/Control/Options/Words.antt =====
-- The words of the commands' arguments in ktuctl-rs/src/commands.rs.
use ktuctl_rs.Prelude.{[], ◌∷◌}
use ktuctl_rs.Bytes.{Bytes}

abbrev pub address : Bytes
address = b'a' ∷ b'd' ∷ b'd' ∷ b'r' ∷ b'e' ∷ b's' ∷ b's' ∷ []

abbrev pub addr : Bytes
addr = b'a' ∷ b'd' ∷ b'd' ∷ b'r' ∷ []

abbrev pub port : Bytes
port = b'p' ∷ b'o' ∷ b'r' ∷ b't' ∷ []

abbrev pub icmp_id : Bytes
icmp_id = b'i' ∷ b'c' ∷ b'm' ∷ b'p' ∷ b'-' ∷ b'i' ∷ b'd' ∷ []

abbrev pub uid : Bytes
uid = b'u' ∷ b'i' ∷ b'd' ∷ []

abbrev pub user : Bytes
user = b'u' ∷ b's' ∷ b'e' ∷ b'r' ∷ []

abbrev pub comment : Bytes
comment = b'c' ∷ b'o' ∷ b'm' ∷ b'm' ∷ b'e' ∷ b'n' ∷ b't' ∷ []

abbrev pub xor : Bytes
xor = b'x' ∷ b'o' ∷ b'r' ∷ []

abbrev pub max_age : Bytes
max_age = b'm' ∷ b'a' ∷ b'x' ∷ b'-' ∷ b'a' ∷ b'g' ∷ b'e' ∷ []

abbrev pub iface : Bytes
iface = b'i' ∷ b'f' ∷ b'a' ∷ b'c' ∷ b'e' ∷ []
