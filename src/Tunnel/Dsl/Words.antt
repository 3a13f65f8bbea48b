-- ===== src/Tunnel/Dsl/Words.antt =====
-- The keywords of `parse_dsl_args` in tuctl-client/src/main.rs.
use ktuctl_rs.Prelude.{[], ◌∷◌}
use ktuctl_rs.Bytes.{Bytes}

abbrev pub server : Bytes
server = b's' ∷ b'e' ∷ b'r' ∷ b'v' ∷ b'e' ∷ b'r' ∷ []

abbrev pub server_port : Bytes
server_port = b's' ∷ b'e' ∷ b'r' ∷ b'v' ∷ b'e' ∷ b'r' ∷ b'-' ∷ b'p' ∷ b'o' ∷ b'r' ∷ b't' ∷ []

abbrev pub script : Bytes
script = b's' ∷ b'c' ∷ b'r' ∷ b'i' ∷ b'p' ∷ b't' ∷ []

abbrev pub psk : Bytes
psk = b'p' ∷ b's' ∷ b'k' ∷ []

abbrev pub window : Bytes
window = b'w' ∷ b'i' ∷ b'n' ∷ b'd' ∷ b'o' ∷ b'w' ∷ []

abbrev pub max_retries : Bytes
max_retries = b'm' ∷ b'a' ∷ b'x' ∷ b'-' ∷ b'r' ∷ b'e' ∷ b't' ∷ b'r' ∷ b'i' ∷ b'e' ∷ b's' ∷ []

abbrev pub inet4 : Bytes
inet4 = b'-' ∷ b'4' ∷ []

abbrev pub inet6 : Bytes
inet6 = b'-' ∷ b'6' ∷ []
