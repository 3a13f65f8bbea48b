-- ===== src/Tunnel/Server.antt =====
-- tuctl-server/src/main.rs: `detect_ktuctl`, `sudo_enabled`, `execute_command` and
-- `process_packet`. The environment and the child process are outside: an `Env`, and a function from
-- the command line and the standard input to what became of the child.
pub mod Once
pub mod Remote
pub mod System
use ktuctl_rs.Prelude.{
  ℕ, ◌+◌, List, [], ◌∷◌, ◌++◌, Option, none, some, Bool, true, false, not, ltb, ◌==◌, if◌then◌else◌,
  length, take,
}
use ktuctl_rs.Bytes.{Bytes}
use ktuctl_rs.Number.{parse_unsigned, u32_max}
use ktuctl_rs.Tunnel.Replay.{ReplayWindow, replay_check, replay_add}
use ktuctl_rs.Tunnel.Packet.{
  Crypto, Failure, Result, ok, err, encrypt_packet, decrypt_packet, max_pt_size,
}
use ktuctl_rs.Tunnel.Padding.{remove_padding, pad_response}

-- The two variables of the environment, and whether /sys/module/tutuicmptunnel exists.
pub record Env : Type 0 where
  pub use_ktuctl : Option Bytes
  pub disable_sudo : Option Bytes
  pub module_exists : Bool

-- A variable that is set to a number other than 0.
abbrev pub is_on : Option Bytes → Bool
is_on none = false
is_on (some v) = elim (parse_unsigned u32_max v) [ none ↦ false | some n ↦ not (n == 0) ]

unfoldable pub detect_ktuctl : Env → Bool
unfolding parse_unsigned
detect_ktuctl env = if is_on env.use_ktuctl then true else env.module_exists

unfoldable pub sudo_enabled : Env → Bool
unfolding parse_unsigned
sudo_enabled env = not (is_on env.disable_sudo)

-- "sudo", "ktuctl", "tuctl", "script" and "-".
pub data Word : Type 0 where
  sudo ktuctl tuctl script dash : Word

unfoldable pub command_line : Env → List Word
unfolding detect_ktuctl sudo_enabled
command_line env =
    let tuctl_prog = if detect_ktuctl env then Word.ktuctl else Word.tuctl in
    let rest = tuctl_prog ∷ Word.script ∷ Word.dash ∷ [] in
    if sudo_enabled env then Word.sudo ∷ rest else rest

-- What became of the child: its two outputs, or the step that failed.
pub data Child : Type 0 where
  spawn_failed write_failed wait_failed : Child
  exited : Bytes → Bytes → Child

unfoldable pub execute_command : Env → (List Word → Bytes → Child) → Bytes → Option Bytes
unfolding command_line
execute_command env child cmd = elim (child (command_line env) cmd) [
  | exited stdout stderr ↦
      let resp = stdout ++ stderr in
      some (if ltb max_pt_size (length resp) then take max_pt_size resp else resp)
  | _ ↦ none
]

-- What a packet finds by chance: the time at the check, the random byte, and the time, salt and
-- nonce of the response.
pub record Chance : Type 0 where
  pub now : ℕ
  pub random : ℕ
  pub ts : ℕ
  pub salt : Bytes
  pub nonce : Bytes

-- What the handling of a packet did: the record, the commands that were handed to a
-- child, the packets sent.
pub record Handled : Type 0 where
  pub replay : ReplayWindow
  pub executed : List Bytes
  pub sent : List Bytes

module _ (c : Crypto) (psk : Bytes) (memlimit : ℕ) where
  -- Under the lock: decrypt, check, add.
  unfoldable pub accept : ℕ → Bytes → ReplayWindow → Result Bytes × ReplayWindow
  accept now packet rw = elim (decrypt_packet c psk memlimit packet) [
    | err e ↦ (err e, rw)
    | ok (pt, nonce, ts) ↦
        let (good, rw') = replay_check now ts nonce rw in
        if not good then (err Failure.replay_window, rw') else (ok pt, replay_add ts nonce rw')
  ]

  -- The command, its response, and the record with the response's nonce.
  unfoldable pub respond :
      Env → (List Word → Bytes → Child) → Chance → Bytes → ReplayWindow → Handled
  respond env child chance pt rw =
      let cmd = remove_padding pt in
      elim (execute_command env child cmd) [
        | none ↦ record { replay = rw; executed = cmd ∷ []; sent = [] }
        | some resp ↦
            elim (encrypt_packet c psk memlimit (pad_response resp chance.random) chance.ts
              chance.salt chance.nonce) [
                | err e ↦ record { replay = rw; executed = cmd ∷ []; sent = [] }
                | ok (enc, nonce2, ts2) ↦ record {
                  replay = replay_add ts2 nonce2 rw;
                  executed = cmd ∷ [];
                  sent = enc ∷ [];
                }
              ]
      ]

  unfoldable pub process_packet :
      Env → (List Word → Bytes → Child) → Chance → Bytes → ReplayWindow → Handled
  process_packet env child chance packet rw =
      let (accepted, rw') = accept chance.now packet rw in
      elim accepted [
        | err e ↦ record { replay = rw'; executed = []; sent = [] }
        | ok pt ↦ respond env child chance pt rw'
      ]
