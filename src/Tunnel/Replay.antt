-- ===== src/Tunnel/Replay.antt =====
-- `ReplayEntry` and `ReplayWindow` of tuctl-server/src/main.rs, which tuctl-client/src/main.rs has
-- too. The time is an argument, as the `i64` that `current_unix_time` returns.
pub mod Window
pub mod Once
pub mod Overflow
use ktuctl_rs.Prelude.{
  ℕ, ◌+◌, List, [], ◌∷◌, ◌++◌, Bool, true, false, not, ◌&&◌, ltb, ◌==◌, ◌=b◌, if◌then◌else◌, length,
}
use ktuctl_rs.Bytes.{Bytes}
use ktuctl_rs.Tunnel.Clock.{sub_i64, add_i64, abs_i64, lt_i64}

pub record ReplayEntry : Type 0 where
  pub ts : ℕ
  pub nonce : Bytes

-- The deque, oldest entry first.
pub record ReplayWindow : Type 0 where
  pub window : ℕ
  pub max_size : ℕ
  pub entries : List ReplayEntry

unfoldable pub new : ℕ → ℕ → ReplayWindow
new window max_size = record { window = window; max_size = max_size; entries = [] }

-- The test of `retain`: `e.ts + self.window as i64 >= now`.
abbrev pub is_live : ℕ → ℕ → ReplayEntry → Bool
is_live window now e = not (lt_i64 (add_i64 e.ts window) now)

unfoldable pub retain : (ReplayEntry → Bool) → List ReplayEntry → List ReplayEntry
retain keep [] = []
retain keep (e ∷ es) = if keep e then e ∷ retain keep es else retain keep es

-- `e.ts == ts && &e.nonce == nonce`
abbrev pub same : ℕ → Bytes → ReplayEntry → Bool
same ts nonce e = e.ts == ts && e.nonce =b nonce

unfoldable pub seen : ℕ → Bytes → List ReplayEntry → Bool
seen ts nonce [] = false
seen ts nonce (e ∷ es) = if same ts nonce e then true else seen ts nonce es

unfoldable pub replay_check : ℕ → ℕ → Bytes → ReplayWindow → Bool × ReplayWindow
unfolding retain seen
replay_check now ts nonce w =
    if lt_i64 w.window (abs_i64 (sub_i64 now ts))
    then (false, w)
    else (let live = retain (is_live w.window now) w.entries in
        (not (seen ts nonce live), record w { entries = live }))

-- `while self.entries.len() > self.max_size as usize { self.entries.pop_front(); }`
unfoldable pub trim : ℕ → List ReplayEntry → List ReplayEntry
trim max [] = []
trim max (e ∷ es) = if ltb max (length (e ∷ es)) then trim max es else e ∷ es

unfoldable pub replay_add : ℕ → Bytes → ReplayWindow → ReplayWindow
unfolding trim
replay_add ts nonce w = record w {
  entries = trim w.max_size (w.entries ++ (record { ts = ts; nonce = nonce } ∷ []));
}
