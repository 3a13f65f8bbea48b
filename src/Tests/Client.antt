-- ===== src/Tests/Client.antt =====
-- tuctl-client/src/main.rs: runs, and the theorems at inputs.
use ktuctl_rs.Prelude.{
  ℕ, zero, suc, ◌*◌, ◌≤◌, ◌<◌, ◌≡◌, ◌≢◌, refl, [], ◌∷◌, arith, length, replicate, some, none, true,
}
use ktuctl_rs.Bytes.{Bytes}
use ktuctl_rs.Text.{from_utf8_lossy}
use ktuctl_rs.Tunnel.Replay.Once.{add, turns}
use ktuctl_rs.Tunnel.Packet.{Failure, err}
use ktuctl_rs.Tunnel.Padding.{build_padded_cmd, remove_padding}
use ktuctl_rs.Tunnel.Dsl.{
  Family, Args, Code, Parsed, keyword, set, parse_loop, finish, parse_dsl_args,
}
use ktuctl_rs.Tunnel.Dsl.RoundTrip.{command_words, parse_dsl_args-command_words}
use ktuctl_rs.Tunnel.Client.{
  IpAddr, Round, Reply, resolve_ip_addr, run, setup_pwhash_memlimit, encrypt_and_send_packet,
  decrypt_and_validate_packet,
}
use ktuctl_rs.Tunnel.Client.Rounds.{Sends, TimesOut}
use ktuctl_rs.Tunnel.Client.Retries.{run-sent, run-exhausted}
use ktuctl_rs.Tunnel.Client.Answer.{run-answered}
use ktuctl_rs.Tunnel.Client.Main.{client_main, Tells, client_main-Tells}
use ktuctl_rs.Tunnel.Client.Opening.{decrypt_and_validate_packet-reflected}
use ktuctl_rs.Tests.Setup.{
  window, crypto, salt, nonce, script_text, packet_with, packet, sealed_with, sealed,
}

abbrev pub args : Args
args = record {
  script = script_text;
  psk = replicate 8 b'k';
  server = b'h' ∷ [];
  server_port = 7000;
  family = Family.inet6;
  window = 30;
  max_retries = 3;
}

parse_dsl_args-command_words_example :
    parse_dsl_args (some script_text) (λ path. none) (command_words (b'-' ∷ []) args)
    ≡ Parsed.parsed args
parse_dsl_args-command_words_example =
    parse_dsl_args-command_words (some script_text) (λ path. none) (b'-' ∷ []) args (omega arith)
      (omega arith) (omega arith) (omega arith) (omega arith) (omega arith) refl

-- A key phrase of two bytes.
parsed_short_psk :
    parse_dsl_args
      (some script_text)
      (λ path. none)
      ((b'p' ∷ b's' ∷ b'k' ∷ []) ∷ (b'k' ∷ b'k' ∷ []) ∷ [])
    ≡ Parsed.failed Code.minus_22
unfolding parse_dsl_args parse_loop keyword set finish
parsed_short_psk = refl

-- What a round of the client finds, but for the reply.
abbrev pub round_with : Reply → Round
round_with reply = record {
  random = 3;
  socket = true;
  literal = some (IpAddr.v6 (replicate 16 0));
  addrs = none;
  ts = 100;
  salt = salt;
  nonce = nonce;
  delivered = true;
  timeout_set = true;
  reply = reply;
  now = 104;
}

abbrev pub answer_nonce : Bytes
answer_nonce = replicate 24 9

-- The output "0" of the other end.
abbrev answer : Bytes
answer = packet_with answer_nonce (b'0' ∷ []) 103

-- The second round is answered.
abbrev rounds : ℕ → Round
rounds zero = round_with Reply.timed_out
rounds (suc n) = round_with (Reply.datagram answer)

pub sends : (r : Reply) → Sends crypto args.psk (64 * 1024 * 1024) args (round_with r)
unfolding resolve_ip_addr
sends r = (
  refl,
  (IpAddr.v6 (replicate 16 0), refl),
  (
    packet (build_padded_cmd script_text 3) 100,
    sealed_with args.psk (64 * 1024 * 1024) nonce (build_padded_cmd script_text 3) 100,
  ),
  refl,
  refl,
)

run-sent_example : length (run crypto none args rounds).sent ≤ 4
run-sent_example = run-sent crypto none args rounds

-- Every round times out.
abbrev silence : ℕ → Round
silence n = round_with Reply.timed_out

silent : (n : ℕ) → TimesOut crypto args.psk (setup_pwhash_memlimit none) args (silence n)
unfolding setup_pwhash_memlimit
silent n = (sends Reply.timed_out, refl)

run-exhausted_example :
    ((run crypto none args silence).code ≡ Code.minus_1)
    × ((run crypto none args silence).response ≡ none)
    × (length (run crypto none args silence).sent ≡ 4)
run-exhausted_example = run-exhausted crypto none args silence silent

rounds-send : (n : ℕ) → Sends crypto args.psk (setup_pwhash_memlimit none) args (rounds n)
unfolding setup_pwhash_memlimit
rounds-send zero = sends Reply.timed_out
rounds-send (suc n) = sends (Reply.datagram answer)

rounds-wait : (n : ℕ) → n < 1 → (rounds n).reply ≡ Reply.timed_out
rounds-wait zero h = refl
rounds-wait (suc n) h = absurd (omega arith)

pub other_nonce : nonce ≢ answer_nonce
other_nonce e = ground (arith, e)

rounds-differ : (n : ℕ) → (rounds n).nonce ≢ answer_nonce
rounds-differ zero = other_nonce
rounds-differ (suc n) = other_nonce

run-answered_example :
    ((run crypto none args rounds).code ≡ Code.zero)
    × ((run crypto none args rounds).response ≡ some (from_utf8_lossy (remove_padding (b'0' ∷ []))))
    × (length (run crypto none args rounds).sent ≡ 2)
run-answered_example =
    run-answered crypto none args rounds 1 (b'0' ∷ []) salt answer_nonce answer 103 refl refl
      (omega arith) (omega arith)
      (sealed_with args.psk (setup_pwhash_memlimit none) answer_nonce (b'0' ∷ []) 103) (omega arith)
      (λ n h. rounds-send n) rounds-wait (λ n h. rounds-differ n) refl (omega arith) (omega arith)
      (omega arith) (omega arith)

decrypt_and_validate_packet-reflected_example :
    (decrypt_and_validate_packet crypto [] 1024 104 (packet script_text 100) (
      turns
        (add 103 answer_nonce ∷ [])
        (encrypt_and_send_packet crypto [] 1024 script_text 100 salt nonce true window).1)).0
    ≡ err Failure.replay_window
decrypt_and_validate_packet-reflected_example =
    decrypt_and_validate_packet-reflected crypto [] 1024 script_text salt nonce
      (packet script_text 100) 100 104 window (add 103 answer_nonce ∷ []) refl refl (omega arith)
      (omega arith) (omega arith) tt (omega arith) (sealed script_text 100)

client_main-Tells_example :
    Tells
      (client_main crypto none
        (some script_text)
        (λ path. none)
        (command_words (b'-' ∷ []) args)
        rounds).0
      (client_main crypto none
        (some script_text)
        (λ path. none)
        (command_words (b'-' ∷ []) args)
        rounds).1
client_main-Tells_example =
    client_main-Tells crypto none (some script_text) (λ path. none) (command_words (b'-' ∷ []) args)
      rounds
