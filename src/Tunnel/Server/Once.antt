-- ===== src/Tunnel/Server/Once.antt =====
-- No packet is run twice (tuctl-server/src/main.rs).
use ktuctl_rs.Prelude.{ℕ, ◌^◌, ◌<◌, ◌≡◌, ap, List, [], true, false, Bool-cases, inl, inr, arith}
use ktuctl_rs.Bytes.{Bytes}
use ktuctl_rs.Tunnel.Replay.{ReplayWindow, replay_check, replay_add}
use ktuctl_rs.Tunnel.Replay.Window.{IsTime}
use ktuctl_rs.Tunnel.Replay.Once.{Turn, turns, adds, Until, check_limits, replay_add-once}
use ktuctl_rs.Tunnel.Packet.{Crypto, Failure, ok, err, decrypt_packet}
use ktuctl_rs.Tunnel.Server.{accept, process_packet, Env, Word, Child, Chance}

module _ (c : Crypto) (psk : Bytes) (memlimit : ℕ) where
  -- `accept` by what `decrypt_packet` gave.
  pub accept_err :
      (now : ℕ) (packet : Bytes) (w : ReplayWindow) (e : Failure)
      → decrypt_packet c psk memlimit packet ≡ err e
      → accept c psk memlimit now packet w ≡ (err e, w)
  unfolding accept
  accept_err now packet w e d = rw (d, accept)

  pub accept_good :
      (now : ℕ) (packet pt nonce : Bytes) (ts : ℕ) (w : ReplayWindow)
      → decrypt_packet c psk memlimit packet ≡ ok (pt, nonce, ts)
      → (replay_check now ts nonce w).0 ≡ true
      → accept c psk memlimit now packet w
        ≡ (ok pt, replay_add ts nonce (replay_check now ts nonce w).1)
  unfolding accept
  accept_good now packet pt nonce ts w d good = rw (d, accept) (rw good)

  pub accept_bad :
      (now : ℕ) (packet pt nonce : Bytes) (ts : ℕ) (w : ReplayWindow)
      → decrypt_packet c psk memlimit packet ≡ ok (pt, nonce, ts)
      → (replay_check now ts nonce w).0 ≡ false
      → accept c psk memlimit now packet w
        ≡ (err Failure.replay_window, (replay_check now ts nonce w).1)
  unfolding accept
  accept_bad now packet pt nonce ts w d bad = rw (d, accept) (rw bad)

  process_packet_err :
      (env : Env) (child : List Word → Bytes → Child) (chance : Chance) (packet : Bytes)
      (w : ReplayWindow) (e : Failure)
      → (accept c psk memlimit chance.now packet w).0 ≡ err e
      → ((process_packet c psk memlimit env child chance packet w).executed ≡ [])
        × ((process_packet c psk memlimit env child chance packet w).sent ≡ [])
  unfolding process_packet
  process_packet_err env child chance packet w e h =
      (rw (h, process_packet), rw (h, process_packet))

  -- A packet that was accepted once, at whatever time, is later dropped: at the time of the new
  -- attempt nothing is run and nothing is sent. In between the other tasks may check and add
  -- packets in any order, if they add fewer than the record holds (`max_size`) and check none at a
  -- time behind that of the new attempt. Times are below 2 ^ 62 and the window is below 2 ^ 32.
  pub process_packet-once :
      (env : Env) (child : List Word → Bytes → Child) (chance : Chance) (packet pt nonce : Bytes)
      (ts first : ℕ) (w : ReplayWindow) (between : List Turn)
      → decrypt_packet c psk memlimit packet ≡ ok (pt, nonce, ts)
      → IsTime ts
      → IsTime chance.now
      → w.window < 2 ^ 32
      → (accept c psk memlimit first packet w).0 ≡ ok pt
      → Until chance.now between
      → adds between < w.max_size
      → ((process_packet c psk memlimit env child chance packet
            (turns between (accept c psk memlimit first packet w).1)).executed
          ≡ [])
        × ((process_packet c psk memlimit env child chance packet
              (turns between (accept c psk memlimit first packet w).1)).sent
            ≡ [])
  process_packet-once env child chance packet pt nonce ts first w between d ht hl hw e hu hk =
      process_packet_err env child chance packet
        (turns between (accept c psk memlimit first packet w).1) Failure.replay_window
        (elim (Bool-cases (replay_check first ts nonce w).0) [
          | inr bad ↦ cc (rw (accept_bad first packet pt nonce ts w d bad) at e)
          | inl good ↦ rw (accept_good first packet pt nonce ts w d good) (
              ap (λ r. r.0)
                (accept_bad chance.now packet pt nonce ts _ d (
                  replay_add-once ts nonce chance.now hl ht between
                    (replay_check first ts nonce w).1 (omega (arith, check_limits first ts nonce w))
                    hu (omega (arith, check_limits first ts nonce w)))))
        ])
