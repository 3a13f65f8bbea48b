-- ===== src/Tests/EndToEnd.antt =====
-- A run of tuctl-client/src/main.rs against tuctl-server/src/main.rs: the theorem at an input.
use ktuctl_rs.Prelude.{ℕ, zero, suc, ◌<◌, ◌≡◌, ◌≢◌, refl, [], ◌∷◌, some, none, arith, take}
use ktuctl_rs.Bytes.{Bytes}
use ktuctl_rs.Text.{from_utf8_lossy}
use ktuctl_rs.Tunnel.Replay.{ReplayWindow}
use ktuctl_rs.Tunnel.Packet.{max_ct_size}
use ktuctl_rs.Tunnel.Padding.{build_padded_cmd, remove_padding, pad_response}
use ktuctl_rs.Tunnel.Dsl.{Code}
use ktuctl_rs.Tunnel.Server.{Chance, process_packet}
use ktuctl_rs.Tunnel.Server.Remote.{output}
use ktuctl_rs.Tunnel.Client.{Round, Reply, run, setup_pwhash_memlimit}
use ktuctl_rs.Tunnel.Client.Rounds.{Sends}
use ktuctl_rs.Tunnel.EndToEnd.{run-process_packet}
use ktuctl_rs.Tests.Setup.{crypto, nonce, salt, packet, packet_with, script_text, sealed_with}
use ktuctl_rs.Tests.Tunnel.{env, child}
use ktuctl_rs.Tests.Client.{args, round_with, sends, answer_nonce, other_nonce}

abbrev chance : Chance
chance = record { now = 101; random = 3; ts = 103; salt = salt; nonce = answer_nonce }

-- The response of the server to the packet of the second round.
abbrev response : Bytes
response = packet_with answer_nonce (pad_response (output (b'0' ∷ []) []) 3) 103

abbrev rounds : ℕ → Round
rounds zero = round_with Reply.timed_out
rounds (suc n) = round_with (Reply.datagram response)

abbrev record_of_server : ReplayWindow
record_of_server = record { window = 30; max_size = 1024; entries = [] }

rounds-send : (n : ℕ) → Sends crypto args.psk (setup_pwhash_memlimit none) args (rounds n)
unfolding setup_pwhash_memlimit
rounds-send zero = sends Reply.timed_out
rounds-send (suc n) = sends (Reply.datagram response)

rounds-wait : (n : ℕ) → n < 1 → (rounds n).reply ≡ Reply.timed_out
rounds-wait zero h = refl
rounds-wait (suc n) h = absurd (omega arith)

rounds-differ : (n : ℕ) → (rounds n).nonce ≢ answer_nonce
rounds-differ zero = other_nonce
rounds-differ (suc n) = other_nonce

run-process_packet_example :
    ((process_packet crypto args.psk
        (setup_pwhash_memlimit none)
        env
        child
        chance
        (take max_ct_size (packet (build_padded_cmd script_text 3) 100))
        record_of_server).executed
      ≡ script_text ∷ [])
    × ((process_packet crypto args.psk
          (setup_pwhash_memlimit none)
          env
          child
          chance
          (take max_ct_size (packet (build_padded_cmd script_text 3) 100))
          record_of_server).sent
        ≡ response ∷ [])
    × ((run crypto none args rounds).code ≡ Code.zero)
    × ((run crypto none args rounds).response
        ≡ some (from_utf8_lossy (remove_padding (output (b'0' ∷ []) []))))
run-process_packet_example =
    run-process_packet crypto none args rounds 1 env child chance record_of_server
      (packet (build_padded_cmd script_text 3) 100) response (b'0' ∷ []) [] (b'i' ∷ []) b'd' refl
      (omega arith) (omega arith) (omega arith) (λ n h. rounds-send n) rounds-wait
      (λ n h. rounds-differ n) (refl, refl, omega arith) (refl, refl, omega arith)
      (sealed_with args.psk (setup_pwhash_memlimit none) nonce (build_padded_cmd script_text 3) 100)
      (omega arith) (omega arith) (omega arith, omega arith) (λ r. r) refl
      (sealed_with args.psk (setup_pwhash_memlimit none) answer_nonce
        (pad_response (output (b'0' ∷ []) []) 3) 103)
      refl (omega arith) (omega arith) (omega arith, omega arith)
