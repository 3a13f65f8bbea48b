-- ===== src/Control/Main/Agree.antt =====
-- The two tables of commands in ktuctl-rs/src/main.rs and the one of scripts in
-- ktuctl-rs/src/commands.rs agree.
use ktuctl_rs.Prelude.{List, ◌∷◌, ◌≡◌, ◌≢◌, refl, sym, none, some, false, ◌=b◌}
use ktuctl_rs.Bytes.{Endian, Bytes}
use ktuctl_rs.Text.{utf8}
use ktuctl_rs.Control.UidMap.{UidMap, File}
use ktuctl_rs.Control.Names.{GlobalFlags}
use ktuctl_rs.Control.Script.{Outside, script_command}
use ktuctl_rs.Control.Main.{
  Commands, Cli, flags_of, subcommand, word_command, words_command, run_command, run_main,
}

-- The name that clap gives a subcommand: its words in lower case, joined by dashes.
unfoldable pub name_of : Commands → Bytes
name_of Commands.load = utf8 "load"
name_of Commands.unload = utf8 "unload"
name_of Commands.server = utf8 "server"
name_of Commands.client = utf8 "client"
name_of Commands.client_add = utf8 "client-add"
name_of Commands.client_del = utf8 "client-del"
name_of Commands.server_add = utf8 "server-add"
name_of Commands.server_del = utf8 "server-del"
name_of Commands.status = utf8 "status"
name_of Commands.dump = utf8 "dump"
name_of Commands.reaper = utf8 "reaper"
name_of Commands.version = utf8 "version"
name_of Commands.script = utf8 "script"

module _ (en : Endian) (flags : GlobalFlags) (m : UidMap) (o : Outside) where
  word_command-name_of :
      (c : Commands) (args : List Bytes)
      → c ≢ Commands.reaper
      → word_command en flags m o (name_of c) args ≡ subcommand en flags m o c args
  unfolding word_command name_of subcommand
  word_command-name_of Commands.load args h = refl
  word_command-name_of Commands.unload args h = refl
  word_command-name_of Commands.server args h = refl
  word_command-name_of Commands.client args h = refl
  word_command-name_of Commands.client_add args h = refl
  word_command-name_of Commands.client_del args h = refl
  word_command-name_of Commands.server_add args h = refl
  word_command-name_of Commands.server_del args h = refl
  word_command-name_of Commands.status args h = refl
  word_command-name_of Commands.dump args h = refl
  word_command-name_of Commands.reaper args h = absurd (h refl)
  word_command-name_of Commands.version args h = refl
  word_command-name_of Commands.script args h = refl

  script_command-word_command :
      (cmd : Bytes) (args : List Bytes)
      → (cmd =b utf8 "script") ≡ false
      → (cmd =b utf8 "tui") ≡ false
      → script_command en flags m o cmd args ≡ word_command en flags m o cmd args
  unfolding script_command word_command
  script_command-word_command cmd args hs ht = rw (hs, ht) refl

-- A subcommand does what its name does as the first of the plain arguments, for all subcommands but
-- `reaper`: the same answers of the kernel give the same result, datagrams and lines.
pub run_main-name_of :
    (en : Endian) (uids : File) (o : Outside) (cli : Cli) (c : Commands) (args : List Bytes)
    → c ≢ Commands.reaper
    → run_main en uids o (record cli { command = some (c, args) })
      ≡ run_main en uids o (record cli { command = none; args = name_of c ∷ args })
unfolding run_main run_command words_command flags_of
run_main-name_of en uids o cli c args h = sym (word_command-name_of en _ _ o c args h)
