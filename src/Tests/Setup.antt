-- ===== src/Tests/Setup.antt =====
-- A record, a cipher and a packet for the tests of tuctl-server/src/main.rs and
-- tuctl-client/src/main.rs.
use ktuctl_rs.Prelude.{
  ℕ, ◌+◌, ◌-◌, ◌≡◌, refl, ap, [], ◌∷◌, ◌++◌, arith, length, length-append, take, subst, take-append,
  replicate, some, true,
}
use mathlib.Core.Option.{some-injective}
use ktuctl_rs.Bytes.{Bytes, to_be_bytes}
use ktuctl_rs.Tunnel.Replay.{ReplayWindow}
use ktuctl_rs.Tunnel.Packet.{Crypto, ok, psk2key, encrypt_packet}

abbrev pub window : ReplayWindow
window = record { window = 30; max_size = 2; entries = record { ts = 100; nonce = 7 ∷ [] } ∷ [] }

abbrev pub zeros : Bytes
zeros = replicate 16 0

untag : (msg : Bytes) → take (length (msg ++ zeros) - 16) (msg ++ zeros) ≡ msg
untag msg =
    take-append (length (msg ++ zeros) - 16) msg zeros (omega (arith, length-append msg zeros))

-- What the cipher below gave is the message and the tag.
pub opened :
    (msg ct : Bytes) → some (msg ++ zeros) ≡ some ct → some (take (length ct - 16) ct) ≡ some msg
opened msg ct e =
    subst (λ x. some (take (length x - 16) x) ≡ some msg) (some-injective _ _ e)
      (ap some (untag msg))

pub longer : (msg ct : Bytes) → some (msg ++ zeros) ≡ some ct → length ct ≡ length msg + 16
longer msg ct e =
    subst (λ x. length x ≡ length msg + 16) (some-injective _ _ e) (length-append msg zeros)

-- A cipher that adds an empty tag.
abbrev pub crypto : Crypto
crypto = record {
  params_ok = λ m. true;
  hash_password = λ p s m. some [];
  encrypt = λ k n m a. some (m ++ zeros);
  decrypt = λ k n ct a. some (take (length ct - 16) ct);
  decrypt-encrypt = λ k n m a ct e. opened m ct e;
  length-encrypt = λ k n m a ct e. longer m ct e;
}

abbrev pub salt : Bytes
salt = replicate 16 1

abbrev pub nonce : Bytes
nonce = replicate 24 2

-- "id"
abbrev pub script_text : Bytes
script_text = b'i' ∷ b'd' ∷ []

-- What `encrypt_packet` gives for a payload at this salt.
abbrev pub packet_with : Bytes → Bytes → ℕ → Bytes
packet_with nonce' payload ts = salt ++ (to_be_bytes 8 ts ++ (nonce' ++ (payload ++ zeros)))

abbrev pub packet : Bytes → ℕ → Bytes
packet payload ts = packet_with nonce payload ts

pub sealed_with :
    (psk : Bytes) (memlimit : ℕ) (nonce' payload : Bytes) (ts : ℕ)
    → encrypt_packet crypto psk memlimit payload ts salt nonce'
      ≡ ok (packet_with nonce' payload ts, nonce', ts)
unfolding encrypt_packet psk2key
sealed_with psk memlimit nonce' payload ts = refl

pub sealed :
    (payload : Bytes) (ts : ℕ)
    → encrypt_packet crypto [] 1024 payload ts salt nonce ≡ ok (packet payload ts, nonce, ts)
sealed payload ts = sealed_with [] 1024 nonce payload ts
