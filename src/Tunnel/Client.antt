-- ===== src/Tunnel/Client.antt =====
-- tuctl-client/src/main.rs: `setup_pwhash_memlimit`, `resolve_ip_addr`, `encrypt_and_send_packet`,
-- `decrypt_and_validate_packet` and `run`. What a round of `run` finds outside is a `Round`.
pub mod Rounds
pub mod Retries
pub mod Opening
pub mod Answer
pub mod Alike
pub mod Main
use ktuctl_rs.Prelude.{
  ℕ, zero, suc, ◌+◌, ◌*◌, List, [], ◌∷◌, ◌++◌, Option, none, some, Bool, true, false, not, ltb,
  if◌then◌else◌, length, take,
}
use ktuctl_rs.Bytes.{Bytes, from_be_bytes}
pub use ktuctl_rs.Address.{IpAddr, v4, v6}
use ktuctl_rs.Text.{from_utf8_lossy}
use ktuctl_rs.Number.{parse_unsigned, u32_max}
use ktuctl_rs.Tunnel.Replay.{ReplayWindow, new, replay_check, replay_add}
use ktuctl_rs.Tunnel.Packet.{
  Crypto, Failure, Result, ok, err, psk2key, encrypt_packet, min_len, max_ct_size, salt_of, ts_b_of,
  nonce_of, ct_of,
}
use ktuctl_rs.Tunnel.Padding.{remove_padding, build_padded_cmd}
use ktuctl_rs.Tunnel.Dsl.{Family, Args, Code}

abbrev pub default_replay_max : ℕ
default_replay_max = 1024

-- The variable of the environment, where it is set.
unfoldable pub setup_pwhash_memlimit : Option Bytes → ℕ
setup_pwhash_memlimit none = 64 * 1024 * 1024
setup_pwhash_memlimit (some v) = elim (parse_unsigned u32_max v) [
  | none ↦ 64 * 1024 * 1024
  | some out ↦ out
]

abbrev suits : Family → IpAddr → Bool
suits Family.inet4 (v4 a) = true
suits Family.inet6 (v6 a) = true
suits Family.unspec ip = true
suits _ _ = false

abbrev first_suitable : Family → List IpAddr → Option IpAddr
first_suitable family [] = none
first_suitable family (ip ∷ ips) = if suits family ip then some ip else first_suitable family ips

-- `literal` is the address that the server's name is by itself, `addrs` what the resolver found.
unfoldable pub resolve_ip_addr : Family → Option IpAddr → Option (List IpAddr) → Option IpAddr
resolve_ip_addr family (some ip) addrs = if suits family ip then some ip else none
resolve_ip_addr family none none = none
resolve_ip_addr family none (some addrs) = first_suitable family addrs

-- What came of `recv_from`.
pub data Reply : Type 0 where
  timed_out recv_error : Reply
  datagram : Bytes → Reply

pub record Round : Type 0 where
  pub random : ℕ
  pub socket : Bool
  pub literal : Option IpAddr
  pub addrs : Option (List IpAddr)
  pub ts : ℕ
  pub salt : Bytes
  pub nonce : Bytes
  pub delivered : Bool
  pub timeout_set : Bool
  pub reply : Reply
  pub now : ℕ

-- The exit code, the packets that were sent with their addresses, the response that is shown.
pub record Ran : Type 0 where
  pub code : Code
  pub sent : List (IpAddr × Bytes)
  pub response : Option Bytes

pub data Step : Type 0 where
  stop : Ran → Step
  retry : List (IpAddr × Bytes) → ReplayWindow → Step

abbrev pub fail : Code → List (IpAddr × Bytes) → Ran
fail code sent = record { code = code; sent = sent; response = none }

module _ (c : Crypto) (psk : Bytes) (memlimit : ℕ) where
  -- The packet on success. It is made as `encrypt_packet` of the server makes it.
  unfoldable pub encrypt_and_send_packet :
      Bytes → ℕ → Bytes → Bytes → Bool → ReplayWindow → Result Bytes × ReplayWindow
  encrypt_and_send_packet payload ts salt nonce delivered rwin =
      elim (encrypt_packet c psk memlimit payload ts salt nonce) [
        | err e ↦ (err e, rwin)
        | ok (packet, nonce', ts') ↦
            if not delivered
            then (err Failure.sendto, rwin)
            else (ok packet, replay_add ts nonce rwin)
      ]

  -- What follows the check of the record.
  unfoldable pub open_packet : Bytes → ReplayWindow → Result Bytes × ReplayWindow
  open_packet pkt_in rwin = elim (psk2key c psk memlimit (salt_of pkt_in)) [
    | err e ↦ (err e, rwin)
    | ok key_bytes ↦
        elim (c.decrypt key_bytes (nonce_of pkt_in) (ct_of pkt_in)
          (salt_of pkt_in ++ ts_b_of pkt_in)) [
            | none ↦ (err Failure.decrypt_auth_fail, rwin)
            | some pt ↦ (ok pt, replay_add (from_be_bytes (ts_b_of pkt_in)) (nonce_of pkt_in) rwin)
          ]
  ]

  unfoldable pub decrypt_and_validate_packet :
      ℕ → Bytes → ReplayWindow → Result Bytes × ReplayWindow
  unfolding open_packet
  decrypt_and_validate_packet now pkt_in rwin =
      if ltb (length pkt_in) min_len
      then (err Failure.short_packet, rwin)
      else (let (good, rwin') =
            replay_check now (from_be_bytes (ts_b_of pkt_in)) (nonce_of pkt_in) rwin in
          if not good then (err Failure.replay_window, rwin') else open_packet pkt_in rwin')

  -- A round from the reception on. A datagram is cut to the buffer.
  unfoldable pub receive : Round → List (IpAddr × Bytes) → ReplayWindow → Step
  receive r sent rwin = elim r.reply [
    | timed_out ↦ Step.retry sent rwin
    | recv_error ↦ Step.stop (fail Code.minus_1 sent)
    | datagram bytes ↦
        let buf = take max_ct_size bytes in
        if ltb (length buf) min_len
        then Step.stop (fail Code.minus_22 sent)
        else elim (decrypt_and_validate_packet r.now buf rwin).0 [
          | err e ↦ Step.stop (fail Code.minus_1 sent)
          | ok pt ↦ Step.stop (record {
            code = Code.zero;
            sent = sent;
            response = some (from_utf8_lossy (remove_padding pt));
          })
        ]
  ]

  -- A round from the encryption on.
  unfoldable pub exchange : Args → Round → IpAddr → ReplayWindow → Step
  exchange a r ip rwin =
      let (packet, rwin') =
        encrypt_and_send_packet (build_padded_cmd a.script r.random) r.ts r.salt r.nonce r.delivered
          rwin in
      elim packet [
        | err e ↦ Step.stop (fail Code.minus_1 [])
        | ok packet' ↦
            if not r.timeout_set
            then Step.stop (fail Code.minus_1 ((ip, packet') ∷ []))
            else receive r ((ip, packet') ∷ []) rwin'
      ]

  unfoldable pub round : Args → Round → ReplayWindow → Step
  round a r rwin =
      if not r.socket
      then Step.stop (fail Code.minus_1 [])
      else elim (resolve_ip_addr a.family r.literal r.addrs) [
        | none ↦ Step.stop (fail Code.minus_1 [])
        | some ip ↦ exchange a r ip rwin
      ]

  -- The loop with the retries that are left and those that are done, which add up to `max_retries`.
  unfoldable pub retry_loop : Args → (ℕ → Round) → ℕ → ℕ → ReplayWindow → Ran
  retry_loop a rounds zero retries rwin = elim (round a (rounds retries) rwin) [
    | stop ran ↦ ran
    | retry sent rwin' ↦ fail Code.minus_1 sent
  ]
  retry_loop a rounds (suc left) retries rwin = elim (round a (rounds retries) rwin) [
    | stop ran ↦ ran
    | retry sent rwin' ↦
        let later = retry_loop a rounds left (suc retries) rwin' in
        record later { sent = sent ++ later.sent }
  ]

-- After the arguments. The key phrase is the arguments'.
unfoldable pub run : Crypto → Option Bytes → Args → (ℕ → Round) → Ran
unfolding setup_pwhash_memlimit
run c limit a rounds =
    retry_loop c a.psk (setup_pwhash_memlimit limit) a rounds a.max_retries 0
      (new a.window default_replay_max)
