-- ===== src/Tunnel/Replay/Overflow.antt =====
-- The arithmetic of `replay_check` at its limit (tuctl-server/src/main.rs, tuctl-client/src/main.rs).
use ktuctl_rs.Prelude.{ℕ, ◌+◌, ◌^◌, ◌<◌, ◌≡◌, true, false, arith}
use ktuctl_rs.Bytes.{Bytes}
use ktuctl_rs.Tunnel.Clock.{sub_i64, abs_i64, lt_i64}
use ktuctl_rs.Tunnel.Replay.{replay_check, new}

distance_wraps :
    (now window : ℕ)
    → now < 2 ^ 63
    → window < 2 ^ 32
    → lt_i64 window (abs_i64 (sub_i64 now (now + 2 ^ 63))) ≡ false
distance_wraps now window hn hw = ground arith

-- At every time `now` and for every window, an empty record accepts the packet whose timestamp has
-- the bits of now + 2 ^ 63, which as an `i64` lies 2 ^ 63 seconds before now: the difference wraps
-- to the least `i64`, whose `abs` wraps to itself, and that is not greater than the window.
pub replay_check-overflow :
    (now window max_size : ℕ) (nonce : Bytes)
    → now < 2 ^ 63
    → window < 2 ^ 32
    → (replay_check now (now + 2 ^ 63) nonce (new window max_size)).0 ≡ true
unfolding replay_check new
replay_check-overflow now window max_size nonce hn hw = rw (distance_wraps now window hn hw)
