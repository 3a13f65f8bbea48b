-- ===== src/Tunnel/Client/Retries.antt =====
-- The retries of `run` (tuctl-client/src/main.rs).
use ktuctl_rs.Prelude.{
  ℕ, zero, suc, ◌≤◌, ◌≡◌, refl, ap, List, [], ◌∷◌, Option, none, ltb, length, length-append, take,
  arith, Bool-cases, Option-cases, ◌⊎◌, inl, inr,
}
use ktuctl_rs.Bytes.{Bytes}
use ktuctl_rs.Tunnel.Replay.{ReplayWindow, new}
use ktuctl_rs.Tunnel.Packet.{Crypto, max_ct_size, min_len}
use ktuctl_rs.Tunnel.Packet.RoundTrip.{Result-cases}
use ktuctl_rs.Tunnel.Padding.{build_padded_cmd}
use ktuctl_rs.Tunnel.Dsl.{Args, Code}
use ktuctl_rs.Tunnel.Client.{
  IpAddr, Round, Ran, Step, Reply, resolve_ip_addr, encrypt_and_send_packet,
  decrypt_and_validate_packet, receive, exchange, round, retry_loop, run, setup_pwhash_memlimit,
  default_replay_max,
}
use ktuctl_rs.Tunnel.Client.Rounds.{
  TimesOut, exchange_received, round_timeout, retry_loop_stop, retry_loop_last, retry_loop_more,
}

abbrev pub sent_of : Step → List (IpAddr × Bytes)
sent_of (Step.stop ran) = ran.sent
sent_of (Step.retry sent rwin) = sent

pub Reply-cases :
    (r : Reply)
    → (r ≡ Reply.timed_out) ⊎ ((r ≡ Reply.recv_error) ⊎ ((bs : Bytes) × (r ≡ Reply.datagram bs)))
Reply-cases Reply.timed_out = inl refl
Reply-cases Reply.recv_error = inr (inl refl)
Reply-cases (Reply.datagram bs) = inr (inr (bs, refl))

pub Step-cases :
    (s : Step)
    → ((ran : Ran) × (s ≡ Step.stop ran))
      ⊎ ((sent : List (IpAddr × Bytes)) × (rwin : ReplayWindow) × (s ≡ Step.retry sent rwin))
Step-cases (Step.stop ran) = inl (ran, refl)
Step-cases (Step.retry sent rwin) = inr (sent, rwin, refl)

module _ (c : Crypto) (psk : Bytes) (memlimit : ℕ) where
  receive-sent :
      (r : Round) (sent : List (IpAddr × Bytes)) (rwin : ReplayWindow)
      → sent_of (receive c psk memlimit r sent rwin) ≡ sent
  unfolding receive
  receive-sent r sent rwin = elim (Reply-cases r.reply) [
    | inl e ↦ rw e refl
    | inr (inl e) ↦ rw e refl
    | inr (inr (bs, e)) ↦ elim (Bool-cases (ltb (length (take max_ct_size bs)) min_len)) [
      | inl short ↦ rw (e, short) refl
      | inr long ↦
          elim (Result-cases
            (decrypt_and_validate_packet c psk memlimit r.now (take max_ct_size bs) rwin).0) [
              | inl (pt, opened) ↦ rw (e, long, opened) refl
              | inr (x, closed) ↦ rw (e, long, closed) refl
            ]
    ]
  ]

  exchange-sent :
      (a : Args) (r : Round) (ip : IpAddr) (rwin : ReplayWindow)
      → length (sent_of (exchange c psk memlimit a r ip rwin)) ≤ 1
  unfolding exchange
  exchange-sent a r ip rwin =
      elim (Result-cases
        (encrypt_and_send_packet c psk memlimit (build_padded_cmd a.script r.random) r.ts r.salt
          r.nonce r.delivered rwin).0) [
            | inr (x, e) ↦ rw (e, exchange) (omega arith)
            | inl (packet, e) ↦ elim (Bool-cases r.timeout_set) [
              | inl t ↦
                  rw
                    (
                      exchange_received c psk memlimit a r ip rwin packet e t,
                      receive-sent r ((ip, packet) ∷ []),
                    )
                    (omega arith)
              | inr t ↦ rw (e, exchange) (rw t (omega arith))
            ]
          ]

  round-sent :
      (a : Args) (r : Round) (rwin : ReplayWindow)
      → length (sent_of (round c psk memlimit a r rwin)) ≤ 1
  unfolding round
  round-sent a r rwin = elim (Bool-cases r.socket) [
    | inr s ↦ rw s (omega arith)
    | inl s ↦ elim (Option-cases (resolve_ip_addr a.family r.literal r.addrs)) [
      | inl e ↦ rw (s, e) (omega arith)
      | inr (ip, e) ↦ rw (s, e) (exchange-sent a r ip rwin)
    ]
  ]

  retry_loop-sent :
      (a : Args) (rounds : ℕ → Round) (left retries : ℕ) (rwin : ReplayWindow)
      → length (retry_loop c psk memlimit a rounds left retries rwin).sent ≤ suc left
  retry_loop-sent a rounds zero retries rwin =
      let one = round-sent a (rounds retries) rwin in
      elim (Step-cases (round c psk memlimit a (rounds retries) rwin)) [
        | inl (ran, e) ↦
            rw (retry_loop_stop c psk memlimit a rounds 0 retries rwin ran e) (rw e at one)
        | inr (sent, rwin', e) ↦
            rw (retry_loop_last c psk memlimit a rounds retries rwin rwin' sent e) (rw e at one)
      ]
  retry_loop-sent a rounds (suc left) retries rwin =
      let one = round-sent a (rounds retries) rwin in
      elim (Step-cases (round c psk memlimit a (rounds retries) rwin)) [
        | inl (ran, e) ↦
            let one' : length ran.sent ≤ 1 = rw e at one in
            rw (retry_loop_stop c psk memlimit a rounds (suc left) retries rwin ran e)
              (omega (arith, one'))
        | inr (sent, rwin', e) ↦
            let one' : length sent ≤ 1 = rw e at one in
            let later = retry_loop-sent a rounds left (suc retries) rwin' in
            rw
              (
                retry_loop_more c psk memlimit a rounds left retries rwin rwin' sent e,
                length-append,
              )
              (omega (arith, one', later))
      ]

  retry_loop-exhausted :
      (a : Args) (rounds : ℕ → Round) (left retries : ℕ) (rwin : ReplayWindow)
      → ((n : ℕ) → TimesOut c psk memlimit a (rounds n))
      → ((retry_loop c psk memlimit a rounds left retries rwin).code ≡ Code.minus_1)
        × ((retry_loop c psk memlimit a rounds left retries rwin).response ≡ none)
        × (length (retry_loop c psk memlimit a rounds left retries rwin).sent ≡ suc left)
  retry_loop-exhausted a rounds zero retries rwin h =
      let (ip, packet, e) = round_timeout c psk memlimit a (rounds retries) rwin (h retries) in
      rw (retry_loop_last c psk memlimit a rounds retries rwin _ _ e) (refl, refl, refl)
  retry_loop-exhausted a rounds (suc left) retries rwin h =
      let (ip, packet, e) = round_timeout c psk memlimit a (rounds retries) rwin (h retries) in
      let (code, response, sent) = retry_loop-exhausted a rounds left (suc retries) _ h in
      rw (retry_loop_more c psk memlimit a rounds left retries rwin _ _ e)
        (code, response, ap suc sent)

-- `run` ends after at most `max_retries` retries, whatever each round finds: it sends at most one
-- packet more than that.
pub run-sent :
    (c : Crypto) (limit : Option Bytes) (a : Args) (rounds : ℕ → Round)
    → length (run c limit a rounds).sent ≤ suc a.max_retries
unfolding run
run-sent c limit a rounds =
    retry_loop-sent c a.psk (setup_pwhash_memlimit limit) a rounds a.max_retries 0
      (new a.window default_replay_max)

-- If every round sends its packet and then times out, `run` uses all its retries, sending one packet
-- more than `max_retries`, and ends with the code -1 and without a response.
pub run-exhausted :
    (c : Crypto) (limit : Option Bytes) (a : Args) (rounds : ℕ → Round)
    → ((n : ℕ) → TimesOut c a.psk (setup_pwhash_memlimit limit) a (rounds n))
    → ((run c limit a rounds).code ≡ Code.minus_1)
      × ((run c limit a rounds).response ≡ none)
      × (length (run c limit a rounds).sent ≡ suc a.max_retries)
unfolding run
run-exhausted c limit a rounds =
    retry_loop-exhausted c a.psk (setup_pwhash_memlimit limit) a rounds a.max_retries 0
      (new a.window default_replay_max)
