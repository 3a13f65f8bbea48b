-- ===== src/Control/Script.antt =====
-- `cmd_script` of ktuctl-rs/src/commands.rs.
pub mod Solid
pub mod OneLine
pub mod DumpLine
pub mod Restore
pub mod Whole
pub mod Users
pub mod Reload
use ktuctl_rs.Prelude.{
  ℕ, zero, suc, ◌+◌, List, [], ◌∷◌, ◌++◌, Option, none, some, Bool, true, false, ◌=b◌, ◌==◌,
  if◌then◌else◌,
}
use ktuctl_rs.Bytes.{Endian, Bytes}
use ktuctl_rs.Text.{utf8}
use ktuctl_rs.Text.Whitespace.{trim, split_at}
use ktuctl_rs.Address.{IpAddr}
use ktuctl_rs.Outcome.{Outcome, ok, err, panic, blocked, stuck, Error}
use ktuctl_rs.World.{World, Net, ◌>>=◌, ◌>>◌, pure, lift}
use ktuctl_rs.Control.UidMap.{UidMap}
use ktuctl_rs.Control.Names.{GlobalFlags}
use ktuctl_rs.Control.Edit.{
  cmd_server, cmd_client, cmd_client_add, cmd_client_del, cmd_server_add, cmd_server_del,
}
use ktuctl_rs.Control.Listing.{cmd_load, cmd_unload, cmd_status, cmd_dump, cmd_version}

-- What the commands use of the outside, at any point of a run: the resolver, the local time, the texts
-- of errors, `shlex::split` of the crate shlex, and the lines of standard input and of files, where
-- `none` is a line that cannot be read.
pub record Outside : Type 0 where
  pub lookup : World → Bytes → Option (List IpAddr)
  pub time : World → Bytes
  pub show : Error → Bytes
  pub shlex : Bytes → Option (List Bytes)
  pub stdin : List (Option Bytes)
  pub open_file : Bytes → Option (List (Option Bytes))

-- `bail!` with the place of a command around the error.
abbrev pub in_place : ℕ → ℕ → Bytes → Outcome (Unit {0}) × World → Outcome (Unit {0}) × World
in_place line sub cmd (ok a, w) = (ok a, w)
in_place line sub cmd (err e, w) = (err (Error.in_line line sub cmd e), w)
in_place line sub cmd (panic, w) = (panic, w)
in_place line sub cmd (blocked, w) = (blocked, w)
in_place line sub cmd (stuck, w) = (stuck, w)

module _ (en : Endian) (flags : GlobalFlags) (m : UidMap) (o : Outside) where
  -- The `match` on the name of a command; four of them use no resolver. "reaper" and an unknown name are only logged.
  unfoldable pub script_command : Bytes → List Bytes → Net (Unit {0})
  script_command cmd args =
      if cmd =b utf8 "load"
      then cmd_load en args
      else if cmd =b utf8 "unload"
      then cmd_unload en o.show args
      else if cmd =b utf8 "server"
      then cmd_server en flags m (λ name. none) args
      else if cmd =b utf8 "client"
      then cmd_client en flags m (λ name. none) args
      else if cmd =b utf8 "client-add"
      then (λ w. cmd_client_add en flags m (o.lookup w) args w)
      else if cmd =b utf8 "client-del"
      then (λ w. cmd_client_del en flags m (o.lookup w) args w)
      else if cmd =b utf8 "server-add"
      then (λ w. cmd_server_add en flags m (o.lookup w) args w)
      else if cmd =b utf8 "server-del"
      then cmd_server_del en flags m (λ name. none) args
      else if cmd =b utf8 "status"
      then cmd_status en flags m args
      else if cmd =b utf8 "dump"
      then (λ w. cmd_dump en flags m (o.time w) args w)
      else if cmd =b utf8 "version"
      then cmd_version en args
      else pure tt

  -- The words of a command, if there are any.
  unfoldable pub run_words : ℕ → ℕ → List Bytes → Net (Unit {0})
  unfolding script_command
  run_words line sub [] = pure tt
  run_words line sub (cmd ∷ args) = λ w. in_place line sub cmd (script_command cmd args w)

  unfoldable pub run_sub : ℕ → ℕ → Bytes → Net (Unit {0})
  unfolding run_words
  run_sub line sub [] = pure tt
  run_sub line sub (b ∷ text) = elim (o.shlex (b ∷ text)) [
    | none ↦ lift (err Error.parse_error)
    | some words ↦ run_words line sub words
  ]

  -- The commands of a line, from the number `sub` on.
  unfoldable pub run_subs : ℕ → ℕ → List Bytes → Net (Unit {0})
  unfolding run_sub trim
  run_subs line sub [] = pure tt
  run_subs line sub (text ∷ texts) = do run_sub line sub (trim text); run_subs line (suc sub) texts

  unfoldable pub run_line : ℕ → Bytes → Net (Unit {0})
  unfolding run_subs split_at
  run_line line [] = pure tt
  run_line line (b ∷ text) =
      if b == b'#' then pure tt else run_subs line 1 (split_at b';' [] (b ∷ text))

  -- The lines from the number `line` on.
  unfoldable pub run_lines : ℕ → List (Option Bytes) → Net (Unit {0})
  unfolding run_line trim
  run_lines line [] = pure tt
  run_lines line (none ∷ lines) = lift (err Error.read_failed)
  run_lines line (some text ∷ lines) = do run_line line (trim text); run_lines (suc line) lines

  unfoldable pub run_file : Option (List (Option Bytes)) → Net (Unit {0})
  unfolding run_lines
  run_file none = lift (err Error.open_failed)
  run_file (some lines) = run_lines 1 lines

  unfoldable pub cmd_script : List Bytes → Net (Unit {0})
  unfolding run_file
  cmd_script [] = lift (err Error.script_usage)
  cmd_script (path ∷ args) = run_file (if path =b utf8 "-" then some o.stdin else o.open_file path)
