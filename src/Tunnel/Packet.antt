-- ===== src/Tunnel/Packet.antt =====
-- The encrypted datagrams of tuctl-server/src/main.rs: `psk2key`, `encrypt_packet`,
-- `decrypt_packet`. Argon2 and XChaCha20-Poly1305 are crates, and a parameter, `Crypto`. The time,
-- the salt and the nonce are arguments.
pub mod RoundTrip
use ktuctl_rs.Prelude.{
  ℕ, ◌+◌, ◌/◌, ◌%◌, ◌^◌, ◌≡◌, List, [], ◌∷◌, ◌++◌, Option, none, some, Bool, not, ltb, ◌==◌,
  if◌then◌else◌, length, take, drop, slice,
}
use ktuctl_rs.Bytes.{Bytes, to_be_bytes, from_be_bytes}

abbrev pub salt_len : ℕ
salt_len = 16

abbrev pub ts_len : ℕ
ts_len = 8

abbrev pub nonce_len : ℕ
nonce_len = 24

abbrev pub tag : ℕ
tag = 16

abbrev pub max_pt_size : ℕ
max_pt_size = 4096

abbrev pub max_ct_size : ℕ
max_ct_size = salt_len + ts_len + nonce_len + max_pt_size + tag

abbrev pub min_len : ℕ
min_len = salt_len + ts_len + nonce_len + tag

-- What the crates do: `Params::new(m, 2, 1, Some(32))` accepts `m` or not, `hash_password_into`
-- gives a key or fails, and the cipher encrypts and decrypts under a key, a nonce and associated
-- data. The laws are the cipher's contract: what it encrypted it decrypts, and a ciphertext has a
-- tag of 16 bytes.
pub record Crypto : Type 0 where
  pub params_ok : ℕ → Bool
  pub hash_password : Bytes → Bytes → ℕ → Option Bytes
  pub encrypt : Bytes → Bytes → Bytes → Bytes → Option Bytes
  pub decrypt : Bytes → Bytes → Bytes → Bytes → Option Bytes
  pub decrypt-encrypt :
      (key nonce msg aad ct : Bytes)
      → encrypt key nonce msg aad ≡ some ct
      → decrypt key nonce ct aad ≡ some msg
  pub length-encrypt :
      (key nonce msg aad ct : Bytes)
      → encrypt key nonce msg aad ≡ some ct
      → length ct ≡ length msg + tag

-- The texts of the errors.
pub data Failure : Type 0 where
  invalid_salt_length argon2_params derive_key : Failure
  encryption_failed short_packet decrypt_auth_fail replay_window sendto : Failure

pub data Result (A : Type 0) : Type 0 where
  ok : A → Result A
  err : Failure → Result A

infixl 5 ◌>>=◌
abbrev pub ◌>>=◌ : {A B : Type 0} → Result A → (A → Result B) → Result B
ok a >>= f = f a
err e >>= f = err e

-- `.map_err(…)?`
abbrev pub or_fail : {A : Type 0} → Failure → Option A → Result A
or_fail e none = err e
or_fail e (some a) = ok a

-- The four fields of a packet.
abbrev pub salt_of : Bytes → Bytes
salt_of pkt = slice pkt 0 salt_len

abbrev pub ts_b_of : Bytes → Bytes
ts_b_of pkt = slice pkt salt_len (salt_len + ts_len)

abbrev pub nonce_of : Bytes → Bytes
nonce_of pkt = slice pkt (salt_len + ts_len) (salt_len + ts_len + nonce_len)

abbrev pub ct_of : Bytes → Bytes
ct_of pkt = drop (salt_len + ts_len + nonce_len) pkt

module _ (c : Crypto) (psk : Bytes) (memlimit : ℕ) where
  -- The memory is in KiB, as a `u32`.
  unfoldable pub psk2key : Bytes → Result Bytes
  psk2key salt =
      if not (length salt == salt_len)
      then err Failure.invalid_salt_length
      else (if not (c.params_ok (memlimit / 1024 % 2 ^ 32))
          then err Failure.argon2_params
          else or_fail Failure.derive_key (c.hash_password psk salt (memlimit / 1024 % 2 ^ 32)))

  -- The packet, the nonce and the time.
  unfoldable pub encrypt_packet : Bytes → ℕ → Bytes → Bytes → Result (Bytes × Bytes × ℕ)
  encrypt_packet payload ts salt nonce = do
    key_bytes ← psk2key salt
    let aad = salt ++ to_be_bytes 8 ts
    ct ← or_fail Failure.encryption_failed (c.encrypt key_bytes nonce payload aad)
    ok (salt ++ (to_be_bytes 8 ts ++ (nonce ++ ct)), nonce, ts)

  -- The plaintext, the nonce and the time.
  unfoldable pub decrypt_packet : Bytes → Result (Bytes × Bytes × ℕ)
  decrypt_packet pkt_in = if ltb (length pkt_in) min_len then err Failure.short_packet else (do
    let ts = from_be_bytes (ts_b_of pkt_in)
    key_bytes ← psk2key (salt_of pkt_in)
    let aad = salt_of pkt_in ++ ts_b_of pkt_in
    pt ←
        or_fail Failure.decrypt_auth_fail (c.decrypt key_bytes (nonce_of pkt_in) (ct_of pkt_in) aad)
    ok (pt, nonce_of pkt_in, ts))
