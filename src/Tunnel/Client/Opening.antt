-- ===== src/Tunnel/Client/Opening.antt =====
-- What `decrypt_and_validate_packet` opens and what it refuses (tuctl-client/src/main.rs).
use ktuctl_rs.Prelude.{
  ℕ, ◌^◌, ◌≤◌, ◌<◌, ◌≡◌, refl, List, ◌++◌, true, false, ltb, ltb-false, length, arith, Bool-cases,
  Option-cases, inl, inr,
}
use ktuctl_rs.Bytes.{Bytes, from_be_bytes}
use ktuctl_rs.Tunnel.Replay.{ReplayWindow, replay_check}
use ktuctl_rs.Tunnel.Replay.Window.{IsTime}
use ktuctl_rs.Tunnel.Replay.Once.{Turn, turns, adds, Until, replay_add-once}
use ktuctl_rs.Tunnel.Packet.{
  Crypto, Failure, Result, ok, err, psk2key, encrypt_packet, decrypt_packet, min_len, ts_b_of,
  nonce_of, salt_of, ct_of,
}
use ktuctl_rs.Tunnel.Packet.RoundTrip.{Result-cases, decrypt_packet-encrypt_packet}
use ktuctl_rs.Tunnel.Client.{encrypt_and_send_packet, decrypt_and_validate_packet, open_packet}
use ktuctl_rs.Tunnel.Client.Rounds.{encrypt_and_send_packet_ok}

module _ (c : Crypto) (psk : Bytes) (memlimit : ℕ) where
  -- What `decrypt_packet` of the server opens, `open_packet` opens.
  pub opened :
      (pkt pt nonce : Bytes) (ts : ℕ) (rwin : ReplayWindow)
      → decrypt_packet c psk memlimit pkt ≡ ok (pt, nonce, ts)
      → (min_len ≤ length pkt)
        × (from_be_bytes (ts_b_of pkt) ≡ ts)
        × (nonce_of pkt ≡ nonce)
        × ((open_packet c psk memlimit pkt rwin).0 ≡ ok pt)
  unfolding decrypt_packet open_packet
  opened pkt pt nonce ts rwin e = elim (Bool-cases (ltb (length pkt) min_len)) [
    | inl short ↦ cc (rw short at e)
    | inr long ↦ elim (Result-cases (psk2key c psk memlimit (salt_of pkt))) [
      | inr (x, failed) ↦ cc (rw (long, failed) at e)
      | inl (key, derived) ↦
          elim (Option-cases
            (c.decrypt key (nonce_of pkt) (ct_of pkt) (salt_of pkt ++ ts_b_of pkt))) [
              | inl failed ↦ cc (rw (long, derived, failed) at e)
              | inr (plain, decrypted) ↦
                  let same : ◌≡◌ {A = Result (Bytes × Bytes × ℕ)}
                      (ok (plain, nonce_of pkt, from_be_bytes (ts_b_of pkt))) (ok (pt, nonce, ts)) =
                    rw (long, derived, decrypted) at e in
                  (ground (arith, long), (cc), (cc), rw (derived, open_packet) (rw decrypted (cc)))
            ]
    ]
  ]

  -- A packet made with the same key phrase, in time and not on record, is opened.
  pub decrypt_and_validate_packet-good :
      (now : ℕ) (pkt pt nonce : Bytes) (ts : ℕ) (rwin : ReplayWindow)
      → decrypt_packet c psk memlimit pkt ≡ ok (pt, nonce, ts)
      → (replay_check now ts nonce rwin).0 ≡ true
      → (decrypt_and_validate_packet c psk memlimit now pkt rwin).0 ≡ ok pt
  unfolding decrypt_and_validate_packet
  decrypt_and_validate_packet-good now pkt pt nonce ts rwin e good =
      let (long, is_ts, is_nonce, plain) =
        opened pkt pt nonce ts (replay_check now ts nonce rwin).1 e in
      rw (ltb-false (length pkt) min_len long, is_ts, is_nonce, good) plain

  -- A packet that is on record is refused before it is decrypted.
  decrypt_and_validate_packet-bad :
      (now : ℕ) (pkt pt nonce : Bytes) (ts : ℕ) (rwin : ReplayWindow)
      → decrypt_packet c psk memlimit pkt ≡ ok (pt, nonce, ts)
      → (replay_check now ts nonce rwin).0 ≡ false
      → (decrypt_and_validate_packet c psk memlimit now pkt rwin).0 ≡ err Failure.replay_window
  unfolding decrypt_and_validate_packet
  decrypt_and_validate_packet-bad now pkt pt nonce ts rwin e bad =
      let (long, is_ts, is_nonce, plain) = opened pkt pt nonce ts rwin e in
      rw (ltb-false (length pkt) min_len long, is_ts, is_nonce, bad) refl

-- A packet that comes back to its sender is refused, so that nobody can answer a client with the
-- client's own command: `encrypt_and_send_packet` puts its packet on record, and until the record has
-- been filled by others (`max_size`) `decrypt_and_validate_packet` drops it without decrypting it,
-- whatever was checked and added in between at times not behind the present. Times are below 2 ^ 62
-- and the window is below 2 ^ 32.
pub decrypt_and_validate_packet-reflected :
    (c : Crypto) (psk : Bytes) (memlimit : ℕ) (payload salt nonce packet : Bytes) (ts now : ℕ)
    (w : ReplayWindow) (between : List Turn)
    → length salt ≡ 16
    → length nonce ≡ 24
    → IsTime ts
    → IsTime now
    → w.window < 2 ^ 32
    → Until now between
    → adds between < w.max_size
    → encrypt_packet c psk memlimit payload ts salt nonce ≡ ok (packet, nonce, ts)
    → (decrypt_and_validate_packet c psk memlimit now packet
        (turns between (encrypt_and_send_packet c psk memlimit payload ts salt nonce true w).1)).0
      ≡ err Failure.replay_window
decrypt_and_validate_packet-reflected c psk memlimit payload salt nonce packet ts now w between hs
      hn ht hnow hw hu hk sealed =
    let recorded =
      encrypt_and_send_packet_ok c psk memlimit payload ts salt nonce packet true w sealed refl in
    let read =
      (decrypt_packet-encrypt_packet c psk memlimit payload salt nonce packet nonce ts ts hs hn
        (omega arith) sealed).0 in
    rw recorded (
      decrypt_and_validate_packet-bad c psk memlimit now packet payload nonce ts _ read
        (replay_add-once ts nonce now hnow ht between w hw hu hk))
