-- ===== src/Tests/Tunnel.antt =====
-- tuctl-server/src/main.rs and tuctl-client/src/main.rs: runs, and the theorems at inputs.
use ktuctl_rs.Prelude.{
  ℕ, ◌+◌, ◌-◌, ◌*◌, ◌/◌, ◌^◌, ◌≤◌, ◌≡◌, ◌↔◌, refl, List, [], ◌∷◌, arith, length, none, true, false,
  ltb, leb, inl, inr, take,
}
use ktuctl_rs.Bytes.{Bytes, to_be_bytes, from_be_bytes}
use ktuctl_rs.Number.{parse_unsigned, parse_digits, u16_max}
use ktuctl_rs.Tunnel.Replay.{seen, new, replay_check, replay_add}
use ktuctl_rs.Tunnel.Replay.Window.{Recorded, replay_check-accepts}
use ktuctl_rs.Tunnel.Replay.Once.{check, add, turns, replay_add-once}
use ktuctl_rs.Tunnel.Replay.Overflow.{replay_check-overflow}
use ktuctl_rs.Tunnel.Packet.{ok, psk2key, decrypt_packet, max_ct_size}
use ktuctl_rs.Tunnel.Packet.RoundTrip.{decrypt_packet-encrypt_packet}
use ktuctl_rs.Tunnel.Padding.{remove_padding, build_padded_cmd, pad_response}
use ktuctl_rs.Tunnel.Server.{Env, Word, Child, exited, Chance, accept, process_packet}
use ktuctl_rs.Tunnel.Server.Once.{process_packet-once}
use ktuctl_rs.Tunnel.Server.Remote.{output, process_packet-remote}
use ktuctl_rs.Tunnel.RateLimiter.{Float, AsyncRateLimiter, allow, get, retain}
use ktuctl_rs.Tunnel.RateLimiter.Fair.{IsFair, allow-IsFair, get-allow_other, allow_new}
use ktuctl_rs.Tests.Setup.{window, crypto, salt, nonce, script_text, packet, sealed}

parsed_too_large : parse_unsigned u16_max (b'6' ∷ b'5' ∷ b'5' ∷ b'3' ∷ b'6' ∷ []) ≡ none
unfolding parse_unsigned parse_digits
parsed_too_large = refl

replay_check-accepts_example :
    ((replay_check 120 100 (8 ∷ []) window).0 ≡ true)
    ↔ ((120 ≤ 130) × (100 ≤ 150) × (¬ Recorded 100 (8 ∷ []) window.entries))
replay_check-accepts_example =
    replay_check-accepts 100 (8 ∷ []) 120 window (omega arith) (omega arith) (omega arith)

replay_add-once_at_once :
    (replay_check 130 105
      (8 ∷ [])
      (turns (check 125 105 (9 ∷ []) ∷ add 105 (9 ∷ []) ∷ []) (replay_add 105 (8 ∷ []) window))).0
    ≡ false
replay_add-once_at_once =
    replay_add-once 105 (8 ∷ []) 130 (omega arith) (omega arith)
      (check 125 105 (9 ∷ []) ∷ add 105 (9 ∷ []) ∷ []) window (omega arith) (omega arith, tt)
      (omega arith)

replay_check-overflow_example : (replay_check 120 (120 + 2 ^ 63) (7 ∷ []) (new 30 2)).0 ≡ true
replay_check-overflow_example = replay_check-overflow 120 30 2 (7 ∷ []) (omega arith) (omega arith)

unsealed :
    (decrypt_packet crypto [] 1024 (packet script_text 100) ≡ ok (script_text, nonce, 100))
    × (length (packet script_text 100) ≡ length script_text + 64)
unsealed =
    decrypt_packet-encrypt_packet crypto [] 1024 script_text salt nonce (packet script_text 100)
      nonce 100 100 refl refl (omega arith) (sealed script_text 100)

-- The child prints "0" and ends.
abbrev pub env : Env
env = record { use_ktuctl = none; disable_sudo = none; module_exists = true }

abbrev pub child : List Word → Bytes → Child
child words cmd = exited (b'0' ∷ []) []

abbrev pub chance : Chance
chance = record { now = 120; random = 3; ts = 121; salt = salt; nonce = nonce }

accepted : (accept crypto [] 1024 110 (packet script_text 100) window).0 ≡ ok script_text
unfolding accept decrypt_packet psk2key replay_check retain seen to_be_bytes from_be_bytes
accepted = refl

fresh : ¬ Recorded 100 nonce window.entries
fresh (inl h) = ground (arith, h.1)
fresh (inr h) = elim h [ ]

process_packet-once_example :
    ((process_packet crypto [] 1024 env child chance
        (packet script_text 100)
        (turns [] (accept crypto [] 1024 110 (packet script_text 100) window).1)).executed
      ≡ [])
    × ((process_packet crypto [] 1024 env child chance
          (packet script_text 100)
          (turns [] (accept crypto [] 1024 110 (packet script_text 100) window).1)).sent
        ≡ [])
process_packet-once_example =
    process_packet-once crypto [] 1024 env child chance (packet script_text 100) script_text nonce
      100 110 window [] (unsealed.0) (omega arith) (omega arith) (omega arith) accepted tt
      (omega arith)

abbrev response : Bytes
response = packet (pad_response (output (b'0' ∷ []) []) 3) 121

process_packet-remote_example :
    ((process_packet crypto [] 1024 env child chance
        (take max_ct_size (packet (build_padded_cmd script_text 3) 100))
        window).executed
      ≡ script_text ∷ [])
    × ((process_packet crypto [] 1024 env child chance
          (take max_ct_size (packet (build_padded_cmd script_text 3) 100))
          window).sent
        ≡ response ∷ [])
    × (decrypt_packet crypto [] 1024 response
        ≡ ok (pad_response (output (b'0' ∷ []) []) 3, nonce, 121))
    × (remove_padding (pad_response (output (b'0' ∷ []) []) 3)
        ≡ remove_padding (output (b'0' ∷ []) []))
process_packet-remote_example =
    process_packet-remote crypto [] 1024 env child chance (b'i' ∷ []) b'd' 3 100 100 121 salt nonce
      nonce (packet (build_padded_cmd script_text 3) 100) (b'0' ∷ []) [] response nonce window
      (omega arith) (omega arith) refl refl (sealed (build_padded_cmd script_text 3) 100)
      (omega arith) (omega arith) (omega arith) (omega arith) (omega arith) fresh refl refl refl
      (omega arith) (sealed (pad_response (output (b'0' ∷ []) []) 3) 121)

pub ge_of_not_gt : (a b : ℕ) → ltb b a ≡ false → leb a b ≡ true
ge_of_not_gt a b h = ground arith

pub ge_refl : (a : ℕ) → leb a a ≡ true
ge_refl a = ground arith

pub ge_minus_one : (a b : ℕ) → leb b a ≡ true → leb (b - 1) a ≡ true
ge_minus_one a b h = ground arith

-- Numbers without a fraction.
abbrev pub float : Float
float = record {
  F = ℕ;
  zero = 0;
  one = 1;
  secs = λ n. n / 10 ^ 9;
  plus = λ a b. a + b;
  times = λ a b. a * b;
  minus = λ a b. a - b;
  gt = λ a b. ltb b a;
  ge = λ a b. leb b a;
  ge_of_not_gt = ge_of_not_gt;
  ge_refl = ge_refl;
  ge_minus_one = ge_minus_one;
  secs_0 = refl;
}

abbrev pub home : Bytes
home = 127 ∷ 0 ∷ 0 ∷ 1 ∷ []

abbrev limiter : AsyncRateLimiter float
limiter = record {
  map = (home, record { tokens = 1; last_refill = 0; last_seen = 0 }) ∷ [];
  burst_tokens = 2;
  refill_rate = 1;
  idle_evict_sec = 60;
}

allow-IsFair_example : IsFair float 10 2 60 (allow float 10 home limiter).1.map
allow-IsFair_example = allow-IsFair float 10 home limiter (refl, tt)

abbrev other_host : Bytes
other_host = 10 ∷ 0 ∷ 0 ∷ 1 ∷ []

get-allow_other_example :
    get float home (allow float 10 other_host limiter).1.map
    ≡ get float home (retain float 10 60 limiter.map)
get-allow_other_example = get-allow_other float 10 other_host home limiter (λ e. ground (arith, e))

allow_new_example : (allow float 10 other_host limiter).0 ≡ true
allow_new_example = allow_new float 10 other_host limiter (unfold get in unfold retain in refl) refl
