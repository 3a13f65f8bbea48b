-- ===== src/Tunnel/Client/Alike.antt =====
-- tuctl-client/src/main.rs checks a packet before it opens it, tuctl-server/src/main.rs after.
use ktuctl_rs.Prelude.{
  ℕ, ◌≡◌, ◌⊎◌, refl, true, false, ltb, length, Bool-cases, Option-cases, inl, inr, if◌then◌else◌,
  ◌++◌,
}
use ktuctl_rs.Bytes.{Bytes, from_be_bytes}
use ktuctl_rs.Tunnel.Replay.{ReplayWindow, replay_check, replay_add}
use ktuctl_rs.Tunnel.Packet.{
  Crypto, Failure, Result, ok, err, psk2key, decrypt_packet, min_len, ts_b_of, nonce_of, salt_of,
  ct_of,
}
use ktuctl_rs.Tunnel.Packet.RoundTrip.{Result-cases}
use ktuctl_rs.Tunnel.Client.{decrypt_and_validate_packet, open_packet}
use ktuctl_rs.Tunnel.Server.{accept}
use ktuctl_rs.Tunnel.Server.Once.{accept_err, accept_good, accept_bad}

-- Both fail, or both give the same text and the same record.
abbrev pub Alike : Result Bytes × ReplayWindow → Result Bytes × ReplayWindow → Type 0
Alike (ok p, v) (ok q, w) = (p ≡ q) × (v ≡ w)
Alike (err d, v) (err e, w) = Unit {0}
Alike (ok p, v) (err e, w) = ⊥
Alike (err d, v) (ok q, w) = ⊥

module _ (c : Crypto) (psk : Bytes) (memlimit : ℕ) (pkt : Bytes) where
  abbrev ts_of : ℕ
  ts_of = from_be_bytes (ts_b_of pkt)

  abbrev Fails : Type 0
  Fails =
      (e : Failure) × (decrypt_packet c psk memlimit pkt ≡ err e)
      × ((ltb (length pkt) min_len ≡ true)
          ⊎ ((ltb (length pkt) min_len ≡ false)
              × ((w : ReplayWindow) → open_packet c psk memlimit pkt w ≡ (err e, w))))

  abbrev OpensTo : Type 0
  OpensTo =
      (pt : Bytes) × (decrypt_packet c psk memlimit pkt ≡ ok (pt, nonce_of pkt, ts_of))
      × (ltb (length pkt) min_len ≡ false)
      × ((w : ReplayWindow)
          → open_packet c psk memlimit pkt w ≡ (ok pt, replay_add ts_of (nonce_of pkt) w))

  open_packet-cases : Fails ⊎ OpensTo
  unfolding decrypt_packet open_packet
  open_packet-cases = elim (Bool-cases (ltb (length pkt) min_len)) [
    | inl short ↦ inl (Failure.short_packet, rw short refl, inl short)
    | inr long ↦ elim (Result-cases (psk2key c psk memlimit (salt_of pkt))) [
      | inr (x, failed) ↦
          inl (x, rw (long, failed) refl, inr (long, λ w. rw (failed, open_packet) refl))
      | inl (key, derived) ↦
          elim (Option-cases
            (c.decrypt key (nonce_of pkt) (ct_of pkt) (salt_of pkt ++ ts_b_of pkt))) [
              | inl failed ↦ inl (
                Failure.decrypt_auth_fail,
                rw (long, derived, failed) refl,
                inr (long, λ w. rw (derived, open_packet) (rw failed refl)),
              )
              | inr (pt, plain) ↦ inr (
                pt,
                rw (long, derived, plain) refl,
                long,
                λ w. rw (derived, open_packet) (rw plain refl),
              )
            ]
    ]
  ]

  client_short :
      (now : ℕ) (w : ReplayWindow)
      → ltb (length pkt) min_len ≡ true
      → decrypt_and_validate_packet c psk memlimit now pkt w ≡ (err Failure.short_packet, w)
  unfolding decrypt_and_validate_packet
  client_short now w short = rw (short, if◌then◌else◌) refl

  client_bad :
      (now : ℕ) (w : ReplayWindow)
      → ltb (length pkt) min_len ≡ false
      → (replay_check now ts_of (nonce_of pkt) w).0 ≡ false
      → decrypt_and_validate_packet c psk memlimit now pkt w
        ≡ (err Failure.replay_window, (replay_check now ts_of (nonce_of pkt) w).1)
  unfolding decrypt_and_validate_packet
  client_bad now w long bad = rw (long, bad) refl

  client_good :
      (now : ℕ) (w : ReplayWindow)
      → ltb (length pkt) min_len ≡ false
      → (replay_check now ts_of (nonce_of pkt) w).0 ≡ true
      → decrypt_and_validate_packet c psk memlimit now pkt w
        ≡ open_packet c psk memlimit pkt (replay_check now ts_of (nonce_of pkt) w).1
  unfolding decrypt_and_validate_packet
  client_good now w long good = rw (long, good) refl

  -- At the same time, with the same key phrase and record, `decrypt_and_validate_packet` of the client
  -- and the acceptance under the lock of the server's `process_packet` take the same packets, with the
  -- same text, and leave the same record behind; for the others, both fail.
  pub decrypt_and_validate_packet-accept :
      (now : ℕ) (w : ReplayWindow)
      → Alike
          (decrypt_and_validate_packet c psk memlimit now pkt w)
          (accept c psk memlimit now pkt w)
  decrypt_and_validate_packet-accept now w = elim open_packet-cases [
    | inl (e, d, inl short) ↦
        rw (client_short now w short, accept_err c psk memlimit now pkt w e d) tt
    | inl (e, d, inr (long, opens)) ↦
        elim (Bool-cases (replay_check now ts_of (nonce_of pkt) w).0) [
          | inl good ↦
              rw (client_good now w long good, opens, accept_err c psk memlimit now pkt w e d) tt
          | inr bad ↦ rw (client_bad now w long bad, accept_err c psk memlimit now pkt w e d) tt
        ]
    | inr (pt, d, long, opens) ↦ elim (Bool-cases (replay_check now ts_of (nonce_of pkt) w).0) [
      | inl good ↦
          rw
            (
              client_good now w long good,
              opens,
              accept_good c psk memlimit now pkt pt (nonce_of pkt) ts_of w d good,
            )
            (refl, refl)
      | inr bad ↦
          rw
            (
              client_bad now w long bad,
              accept_bad c psk memlimit now pkt pt (nonce_of pkt) ts_of w d bad,
            )
            tt
    ]
  ]
