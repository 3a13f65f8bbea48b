-- ===== src/Tunnel/Packet/RoundTrip.antt =====
-- A packet of tuctl-server/src/main.rs is decrypted to what was encrypted.
use ktuctl_rs.Prelude.{
  ℕ, ◌+◌, ◌^◌, ◌≤◌, ◌<◌, ◌≡◌, ◌⊎◌, refl, sym, ap, ◌∙◌, ◌++◌, arith, some, Option-cases, inl, inr,
  length, length-append, take, drop, take-append, drop-append, drop-drop, ltb-false,
}
use ktuctl_rs.Bytes.{Bytes, to_be_bytes, length-to_be_bytes, from_be_bytes-to_be_bytes}
use ktuctl_rs.Tunnel.Packet.{
  Crypto, Failure, Result, ok, err, psk2key, encrypt_packet, decrypt_packet, salt_of, ts_b_of,
  nonce_of, ct_of,
}

pub Result-cases :
    {A : Type 0} (r : Result A) → ((a : A) × (r ≡ ok a)) ⊎ ((e : Failure) × (r ≡ err e))
Result-cases (ok a) = inl (a, refl)
Result-cases (err e) = inr (e, refl)

module _ (salt nonce ct : Bytes) (ts : ℕ) (hs : length salt ≡ 16) (hn : length nonce ≡ 24) where
  abbrev packet : Bytes
  packet = salt ++ (to_be_bytes 8 ts ++ (nonce ++ ct))

  salt_of-packet : salt_of packet ≡ salt
  salt_of-packet = take-append 16 salt _ (sym hs)

  behind_salt : drop 16 packet ≡ to_be_bytes 8 ts ++ (nonce ++ ct)
  behind_salt = drop-append 16 salt _ (sym hs)

  ts_b_of-packet : ts_b_of packet ≡ to_be_bytes 8 ts
  ts_b_of-packet =
      ap (take 8) behind_salt ∙ take-append 8 (to_be_bytes 8 ts) _ (sym (length-to_be_bytes 8 ts))

  behind_ts : drop 24 packet ≡ nonce ++ ct
  behind_ts =
      drop-drop 24 16 8 packet refl
      ∙ ap (drop 8) behind_salt
      ∙ drop-append 8 (to_be_bytes 8 ts) _ (sym (length-to_be_bytes 8 ts))

  nonce_of-packet : nonce_of packet ≡ nonce
  nonce_of-packet = ap (take 24) behind_ts ∙ take-append 24 nonce ct (sym hn)

  ct_of-packet : ct_of packet ≡ ct
  ct_of-packet =
      drop-drop 48 24 24 packet refl ∙ ap (drop 24) behind_ts ∙ drop-append 24 nonce ct (sym hn)

  length-packet : length packet ≡ 48 + length ct
  length-packet = omega (
    arith,
    length-append salt (to_be_bytes 8 ts ++ (nonce ++ ct)),
    length-append (to_be_bytes 8 ts) (nonce ++ ct),
    length-append nonce ct,
    length-to_be_bytes 8 ts,
  )

module _ (c : Crypto) (psk : Bytes) (memlimit : ℕ) where
  decrypt_packet_of_parts :
      (payload salt nonce ct key : Bytes) (ts : ℕ) (hs : length salt ≡ 16) (hn : length nonce ≡ 24)
      → ts < 2 ^ 64
      → 16 ≤ length ct
      → psk2key c psk memlimit salt ≡ ok key
      → c.decrypt key nonce ct (salt ++ to_be_bytes 8 ts) ≡ some payload
      → decrypt_packet c psk memlimit (packet salt nonce ct ts hs hn) ≡ ok (payload, nonce, ts)
  unfolding decrypt_packet
  decrypt_packet_of_parts payload salt nonce ct key ts hs hn ht hc derived opened = rw (
    ltb-false (length (packet salt nonce ct ts hs hn)) 64
        (omega (arith, length-packet salt nonce ct ts hs hn)),
    salt_of-packet salt nonce ct ts hs hn,
    derived,
    ts_b_of-packet salt nonce ct ts hs hn,
    nonce_of-packet salt nonce ct ts hs hn,
    ct_of-packet salt nonce ct ts hs hn,
    opened,
    from_be_bytes-to_be_bytes 8 ts (omega arith),
  )

  packet_of_encrypt :
      (payload salt nonce pkt n : Bytes) (ts t : ℕ)
      → encrypt_packet c psk memlimit payload ts salt nonce ≡ ok (pkt, n, t)
      → (key ct : Bytes) × (psk2key c psk memlimit salt ≡ ok key)
        × (c.encrypt key nonce payload (salt ++ to_be_bytes 8 ts) ≡ some ct)
        × (pkt ≡ salt ++ (to_be_bytes 8 ts ++ (nonce ++ ct)))
  unfolding encrypt_packet
  packet_of_encrypt payload salt nonce pkt n ts t e =
      elim (Result-cases (psk2key c psk memlimit salt)) [
        | inr (x, failed) ↦ cc (rw failed at e)
        | inl (key, derived) ↦
            elim (Option-cases (c.encrypt key nonce payload (salt ++ to_be_bytes 8 ts))) [
              | inl failed ↦ cc (rw (derived, failed) at e)
              | inr (ct, sealed) ↦ (key, ct, derived, sealed, ground (arith, e, derived, sealed))
            ]
      ]

  -- With the same key phrase and memory limit, `decrypt_packet` gives back the payload, the nonce
  -- and the time of every packet that `encrypt_packet` makes from a salt of 16 bytes, a nonce of 24
  -- and a 64-bit time, by the cipher's contract; and the packet is 64 bytes longer than the payload.
  pub decrypt_packet-encrypt_packet :
      (payload salt nonce pkt n : Bytes) (ts t : ℕ)
      → length salt ≡ 16
      → length nonce ≡ 24
      → ts < 2 ^ 64
      → encrypt_packet c psk memlimit payload ts salt nonce ≡ ok (pkt, n, t)
      → (decrypt_packet c psk memlimit pkt ≡ ok (payload, nonce, ts))
        × (length pkt ≡ length payload + 64)
  decrypt_packet-encrypt_packet payload salt nonce pkt n ts t hs hn ht e =
      let (key, ct, derived, sealed, is_packet) =
        packet_of_encrypt payload salt nonce pkt n ts t e in
      let longer : length ct ≡ length payload + 16 =
        c.length-encrypt key nonce payload (salt ++ to_be_bytes 8 ts) ct sealed in
      (
        rw is_packet (
            decrypt_packet_of_parts payload salt nonce ct key ts hs hn ht (omega arith) derived
              (c.decrypt-encrypt key nonce payload (salt ++ to_be_bytes 8 ts) ct sealed)),
        rw is_packet (omega (arith, length-packet salt nonce ct ts hs hn)),
      )
