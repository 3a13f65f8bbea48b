-- ===== src/Tunnel/Client/Rounds.antt =====
-- The rounds of `run` and its loop, by what their parts gave (tuctl-client/src/main.rs).
use ktuctl_rs.Prelude.{ℕ, zero, suc, ◌≡◌, refl, ap, ◌∙◌, List, [], ◌∷◌, ◌++◌, some, Bool, true}
use ktuctl_rs.Bytes.{Bytes}
use ktuctl_rs.Tunnel.Replay.{ReplayWindow, replay_add}
use ktuctl_rs.Tunnel.Packet.{Crypto, ok, encrypt_packet}
use ktuctl_rs.Tunnel.Padding.{build_padded_cmd}
use ktuctl_rs.Tunnel.Dsl.{Args, Code}
use ktuctl_rs.Tunnel.Client.{
  IpAddr, Round, Ran, Step, Reply, fail, resolve_ip_addr, encrypt_and_send_packet, receive,
  exchange, round, retry_loop,
}

module _ (c : Crypto) (psk : Bytes) (memlimit : ℕ) where
  -- A round by what its parts gave.
  pub encrypt_and_send_packet_ok :
      (payload : Bytes) (ts : ℕ) (salt nonce packet : Bytes) (delivered : Bool)
      (rwin : ReplayWindow)
      → encrypt_packet c psk memlimit payload ts salt nonce ≡ ok (packet, nonce, ts)
      → delivered ≡ true
      → encrypt_and_send_packet c psk memlimit payload ts salt nonce delivered rwin
        ≡ (ok packet, replay_add ts nonce rwin)
  unfolding encrypt_and_send_packet
  encrypt_and_send_packet_ok payload ts salt nonce packet delivered rwin e d =
      rw (e, encrypt_and_send_packet) (rw d refl)

  pub exchange_received :
      (a : Args) (r : Round) (ip : IpAddr) (rwin : ReplayWindow) (packet : Bytes)
      → (encrypt_and_send_packet c psk memlimit
          (build_padded_cmd a.script r.random)
          r.ts
          r.salt
          r.nonce
          r.delivered
          rwin).0
        ≡ ok packet
      → r.timeout_set ≡ true
      → exchange c psk memlimit a r ip rwin
        ≡ receive c psk memlimit r
            ((ip, packet) ∷ [])
            (encrypt_and_send_packet c psk memlimit
              (build_padded_cmd a.script r.random)
              r.ts
              r.salt
              r.nonce
              r.delivered
              rwin).1
  unfolding exchange
  exchange_received a r ip rwin packet e t = rw (e, exchange) (rw t refl)

  -- The round up to the reception, when all went well: the packet is on record.
  pub round_received :
      (a : Args) (r : Round) (rwin : ReplayWindow) (ip : IpAddr) (packet : Bytes)
      → r.socket ≡ true
      → resolve_ip_addr a.family r.literal r.addrs ≡ some ip
      → encrypt_packet c psk memlimit (build_padded_cmd a.script r.random) r.ts r.salt r.nonce
        ≡ ok (packet, r.nonce, r.ts)
      → r.delivered ≡ true
      → r.timeout_set ≡ true
      → round c psk memlimit a r rwin
        ≡ receive c psk memlimit r ((ip, packet) ∷ []) (replay_add r.ts r.nonce rwin)
  unfolding round
  round_received a r rwin ip packet s found sealed d t =
      let e = encrypt_and_send_packet_ok _ r.ts r.salt r.nonce packet r.delivered rwin sealed d in
      rw (found, round) (rw s refl)
      ∙ exchange_received a r ip rwin packet (ap (λ x. x.0) e) t
      ∙ ap (λ x. receive c psk memlimit r ((ip, packet) ∷ []) x.1) e

  -- `retry_loop` by what its first round gave.
  pub retry_loop_stop :
      (a : Args) (rounds : ℕ → Round) (left retries : ℕ) (rwin : ReplayWindow) (ran : Ran)
      → round c psk memlimit a (rounds retries) rwin ≡ Step.stop ran
      → retry_loop c psk memlimit a rounds left retries rwin ≡ ran
  unfolding retry_loop
  retry_loop_stop a rounds zero retries rwin ran e = rw (e, retry_loop)
  retry_loop_stop a rounds (suc left) retries rwin ran e = rw (e, retry_loop)

  pub retry_loop_last :
      (a : Args) (rounds : ℕ → Round) (retries : ℕ) (rwin rwin' : ReplayWindow)
      (sent : List (IpAddr × Bytes))
      → round c psk memlimit a (rounds retries) rwin ≡ Step.retry sent rwin'
      → retry_loop c psk memlimit a rounds 0 retries rwin ≡ fail Code.minus_1 sent
  unfolding retry_loop
  retry_loop_last a rounds retries rwin rwin' sent e = rw (e, retry_loop)

  pub retry_loop_more :
      (a : Args) (rounds : ℕ → Round) (left retries : ℕ) (rwin rwin' : ReplayWindow)
      (sent : List (IpAddr × Bytes))
      → round c psk memlimit a (rounds retries) rwin ≡ Step.retry sent rwin'
      → retry_loop c psk memlimit a rounds (suc left) retries rwin
        ≡ record (retry_loop c psk memlimit a rounds left (suc retries) rwin') {
          sent = sent ++ (retry_loop c psk memlimit a rounds left (suc retries) rwin').sent;
        }
  unfolding retry_loop
  retry_loop_more a rounds left retries rwin rwin' sent e = rw (e, retry_loop)

  -- A round in which all goes well up to the reception.
  abbrev pub Sends : Args → Round → Type 0
  Sends a r =
      (r.socket ≡ true)
      × ((ip : IpAddr) × (resolve_ip_addr a.family r.literal r.addrs ≡ some ip))
      × ((packet : Bytes) × (encrypt_packet c psk memlimit (build_padded_cmd a.script r.random) r.ts
              r.salt r.nonce
            ≡ ok (packet, r.nonce, r.ts)))
      × (r.delivered ≡ true)
      × (r.timeout_set ≡ true)

  -- A round that sends its packet and then times out.
  abbrev pub TimesOut : Args → Round → Type 0
  TimesOut a r = Sends a r × (r.reply ≡ Reply.timed_out)

  receive_timed_out :
      (r : Round) (sent : List (IpAddr × Bytes)) (rwin : ReplayWindow)
      → r.reply ≡ Reply.timed_out
      → receive c psk memlimit r sent rwin ≡ Step.retry sent rwin
  unfolding receive
  receive_timed_out r sent rwin e = rw (e, receive)

  -- The packet of such a round is on record afterwards.
  pub round_timeout :
      (a : Args) (r : Round) (rwin : ReplayWindow)
      → TimesOut a r
      → (ip : IpAddr) × (packet : Bytes) × (round c psk memlimit a r rwin
          ≡ Step.retry ((ip, packet) ∷ []) (replay_add r.ts r.nonce rwin))
  round_timeout a r rwin ((s, (ip, found), (packet, sealed), d, t), reply) = (
    ip,
    packet,
    round_received a r rwin ip packet s found sealed d t
        ∙ receive_timed_out r ((ip, packet) ∷ []) (replay_add r.ts r.nonce rwin) reply,
  )
