-- ===== src/Tunnel/Clock.antt =====
-- `i64` arithmetic as the release build of tuctl-server/src/main.rs and tuctl-client/src/main.rs
-- does it: on bit patterns below 2 ^ 64, with wrap-around.
use ktuctl_rs.Prelude.{ℕ, ◌+◌, ◌-◌, ◌%◌, ◌^◌, Bool, ltb, if◌then◌else◌}

abbrev pub sub_i64 : ℕ → ℕ → ℕ
sub_i64 a b = (a + 2 ^ 64 - b) % 2 ^ 64

abbrev pub add_i64 : ℕ → ℕ → ℕ
add_i64 a b = (a + b) % 2 ^ 64

abbrev pub abs_i64 : ℕ → ℕ
abs_i64 a = if ltb a (2 ^ 63) then a else (2 ^ 64 - a) % 2 ^ 64

-- `a < b`: the order of the patterns with the sign bit turned round.
abbrev pub lt_i64 : ℕ → ℕ → Bool
lt_i64 a b = ltb ((a + 2 ^ 63) % 2 ^ 64) ((b + 2 ^ 63) % 2 ^ 64)
