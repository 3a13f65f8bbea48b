-- ===== src/Control/Main.antt =====
-- ktuctl-rs/src/main.rs and ktuctl-rs/src/cli.rs. What clap reads from the command line is a `Cli`.
pub mod Agree
use ktuctl_rs.Prelude.{
  ℕ, List, [], ◌∷◌, ◌++◌, Option, none, some, Bool, true, false, ◌=b◌, if◌then◌else◌,
}
use ktuctl_rs.Bytes.{Endian, Bytes}
use ktuctl_rs.Text.{utf8}
use ktuctl_rs.World.{World, Net, pure, println}
use ktuctl_rs.Control.UidMap.{UidMap, File, load as load_uids}
use ktuctl_rs.Control.Names.{GlobalFlags, IpFamily}
use ktuctl_rs.Control.Edit.{
  cmd_server, cmd_client, cmd_client_add, cmd_client_del, cmd_server_add, cmd_server_del,
}
use ktuctl_rs.Control.Listing.{cmd_load, cmd_unload, cmd_status, cmd_dump, cmd_version}
use ktuctl_rs.Control.Script.{Outside, cmd_script}

-- The subcommands, less their arguments.
pub data Commands : Type 0 where
  load unload server client client_add client_del server_add server_del : Commands
  status dump reaper version script : Commands

pub record Cli : Type 0 where
  pub numeric : Bool
  pub debug : Bool
  pub ipv4 : Bool
  pub ipv6 : Bool
  pub command : Option (Commands × List Bytes)
  pub args : List Bytes

-- `ipv6` is the last to be stored.
unfoldable pub flags_of : Cli → GlobalFlags
flags_of cli = record {
  numeric = cli.numeric;
  debug = cli.debug;
  ip_family = if cli.ipv6 then some IpFamily.ip6 else if cli.ipv4 then some IpFamily.ip4 else none;
}

module _ (en : Endian) (flags : GlobalFlags) (m : UidMap) (o : Outside) where
  -- The `match` on a subcommand; some commands use no resolver.
  unfoldable pub subcommand : Commands → List Bytes → Net (Unit {0})
  subcommand Commands.load args = cmd_load en args
  subcommand Commands.unload args = cmd_unload en o.show args
  subcommand Commands.server args = cmd_server en flags m (λ name. none) args
  subcommand Commands.client args = cmd_client en flags m (λ name. none) args
  subcommand Commands.client_add args = λ w. cmd_client_add en flags m (o.lookup w) args w
  subcommand Commands.client_del args = λ w. cmd_client_del en flags m (o.lookup w) args w
  subcommand Commands.server_add args = λ w. cmd_server_add en flags m (o.lookup w) args w
  subcommand Commands.server_del args = cmd_server_del en flags m (λ name. none) args
  subcommand Commands.status args = cmd_status en flags m args
  subcommand Commands.dump args = λ w. cmd_dump en flags m (o.time w) args w
  subcommand Commands.reaper args = cmd_script en flags m o args
  subcommand Commands.version args = cmd_version en args
  subcommand Commands.script args = cmd_script en flags m o args

  -- The `match` on the first argument. "reaper" and an unknown name are only logged.
  unfoldable pub word_command : Bytes → List Bytes → Net (Unit {0})
  word_command cmd args =
      if cmd =b utf8 "load"
      then cmd_load en args
      else if cmd =b utf8 "unload"
      then cmd_unload en o.show args
      else if cmd =b utf8 "server"
      then cmd_server en flags m (λ name. none) args
      else if cmd =b utf8 "client"
      then cmd_client en flags m (λ name. none) args
      else if cmd =b utf8 "client-add"
      then (λ w. cmd_client_add en flags m (o.lookup w) args w)
      else if cmd =b utf8 "client-del"
      then (λ w. cmd_client_del en flags m (o.lookup w) args w)
      else if cmd =b utf8 "server-add"
      then (λ w. cmd_server_add en flags m (o.lookup w) args w)
      else if cmd =b utf8 "server-del"
      then cmd_server_del en flags m (λ name. none) args
      else if cmd =b utf8 "status"
      then cmd_status en flags m args
      else if cmd =b utf8 "dump"
      then (λ w. cmd_dump en flags m (o.time w) args w)
      else if cmd =b utf8 "version"
      then cmd_version en args
      else if cmd =b utf8 "script"
      then cmd_script en flags m o args
      else if cmd =b utf8 "tui"
      then println (utf8 "TUI not implemented in Rust port")
      else pure tt

  -- Without arguments, the status.
  unfoldable pub words_command : List Bytes → Net (Unit {0})
  unfolding word_command
  words_command [] = word_command (utf8 "status") []
  words_command (cmd ∷ args) = word_command cmd args

  -- A subcommand takes precedence over the other arguments.
  unfoldable pub run_command : Option (Commands × List Bytes) → List Bytes → Net (Unit {0})
  unfolding subcommand words_command
  run_command none args = words_command args
  run_command (some (cmd, cmd_args)) args = subcommand cmd cmd_args

-- The file of users is loaded into an empty map; if a line cannot be read, the lines before it stay.
unfoldable pub run_main : Endian → File → Outside → Cli → Net (Unit {0})
unfolding flags_of run_command load_uids
run_main en uids o cli = run_command en (flags_of cli) (load_uids uids []).1 o cli.command cli.args
