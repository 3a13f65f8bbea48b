-- ===== src/Control/Ends/Programs.antt =====
-- Scripts and `main` end (ktuctl-rs/src/commands.rs, ktuctl-rs/src/main.rs).
use ktuctl_rs.Prelude.{
  ℕ, suc, ◌≢◌, refl, List, [], ◌∷◌, Option, none, some, ◌=b◌, ◌==◌, if◌then◌else◌,
}
use ktuctl_rs.Bytes.{Endian, Bytes}
use ktuctl_rs.Text.{utf8}
use ktuctl_rs.Text.Whitespace.{trim, split_at}
use ktuctl_rs.Outcome.{Outcome, ok, err, panic, blocked, stuck}
use ktuctl_rs.World.{World}
use ktuctl_rs.Netlink.Progress.{Runs}
use ktuctl_rs.Netlink.Termination.{if_Runs, pure-Runs, err-Runs, bind-Runs, Option-Runs}
use ktuctl_rs.Control.UidMap.{UidMap, File, load as load_uids}
use ktuctl_rs.Control.Names.{GlobalFlags}
use ktuctl_rs.Control.Ends.Edits.{
  cmd_server-Runs, cmd_client-Runs, cmd_client_add-Runs, cmd_client_del-Runs, cmd_server_add-Runs,
  cmd_server_del-Runs,
}
use ktuctl_rs.Control.Ends.Listings.{
  cmd_load-Runs, cmd_unload-Runs, cmd_status-Runs, cmd_dump-Runs, cmd_version-Runs,
}
use ktuctl_rs.Control.Script.{
  Outside, in_place, script_command, run_words, run_sub, run_subs, run_line, run_lines, run_file,
  cmd_script,
}
use ktuctl_rs.Control.Main.{
  Commands, Cli, flags_of, subcommand, word_command, words_command, run_command, run_main,
}

in_place-ne-stuck :
    (line sub : ℕ) (cmd : Bytes) (r : Outcome (Unit {0}) × World)
    → r.0 ≢ stuck
    → (in_place line sub cmd r).0 ≢ stuck
in_place-ne-stuck line sub cmd (ok a, w) h e = cc
in_place-ne-stuck line sub cmd (err x, w) h e = cc
in_place-ne-stuck line sub cmd (panic, w) h e = cc
in_place-ne-stuck line sub cmd (blocked, w) h e = cc
in_place-ne-stuck line sub cmd (stuck, w) h e = h refl

module _ (en : Endian) (flags : GlobalFlags) (m : UidMap) (o : Outside) where
  script_command-Runs :
      (cmd : Bytes) (args : List Bytes) → Runs (script_command en flags m o cmd args)
  unfolding script_command
  script_command-Runs cmd args = if_Runs (cmd =b utf8 "load") _ _ (cmd_load-Runs en args) (
      if_Runs (cmd =b utf8 "unload") _ _ (cmd_unload-Runs en o.show args) (
        if_Runs (cmd =b utf8 "server") _ _ (cmd_server-Runs en flags m (λ name. none) args) (
          if_Runs (cmd =b utf8 "client") _ _ (cmd_client-Runs en flags m (λ name. none) args) (
            if_Runs (cmd =b utf8 "client-add") _ _
              (λ w. cmd_client_add-Runs en flags m (o.lookup w) args w)
              (if_Runs (cmd =b utf8 "client-del") _ _
                (λ w. cmd_client_del-Runs en flags m (o.lookup w) args w)
                (if_Runs (cmd =b utf8 "server-add") _ _
                  (λ w. cmd_server_add-Runs en flags m (o.lookup w) args w)
                  (if_Runs (cmd =b utf8 "server-del") _ _
                    (cmd_server_del-Runs en flags m (λ name. none) args)
                    (if_Runs (cmd =b utf8 "status") _ _ (cmd_status-Runs en flags m args) (
                      if_Runs (cmd =b utf8 "dump") _ _
                        (λ w. cmd_dump-Runs en flags m (o.time w) args w)
                        (if_Runs (cmd =b utf8 "version") _ _ (cmd_version-Runs en args)
                          (pure-Runs tt)))))))))))

  run_words-Runs :
      (line sub : ℕ) (words : List Bytes) → Runs (run_words en flags m o line sub words)
  unfolding run_words
  run_words-Runs line sub [] w = pure-Runs tt w
  run_words-Runs line sub (cmd ∷ args) w =
      in_place-ne-stuck line sub cmd (script_command en flags m o cmd args w)
        (script_command-Runs cmd args w)

  run_sub-Runs : (line sub : ℕ) (text : Bytes) → Runs (run_sub en flags m o line sub text)
  unfolding run_sub
  run_sub-Runs line sub [] = pure-Runs tt
  run_sub-Runs line sub (b ∷ text) =
      Option-Runs (o.shlex (b ∷ text)) _ _ (err-Runs _) (λ words. run_words-Runs line sub words)

  run_subs-Runs : (line sub : ℕ) (texts : List Bytes) → Runs (run_subs en flags m o line sub texts)
  unfolding run_subs
  run_subs-Runs line sub [] = pure-Runs tt
  run_subs-Runs line sub (text ∷ texts) =
      bind-Runs (run_sub en flags m o line sub (trim text))
        (λ _. run_subs en flags m o line (suc sub) texts) (run_sub-Runs line sub (trim text))
        (λ _. run_subs-Runs line (suc sub) texts)

  run_line-Runs : (line : ℕ) (text : Bytes) → Runs (run_line en flags m o line text)
  unfolding run_line
  run_line-Runs line [] = pure-Runs tt
  run_line-Runs line (b ∷ text) =
      if_Runs (b == b'#') _ _ (pure-Runs tt) (run_subs-Runs line 1 (split_at b';' [] (b ∷ text)))

  run_lines-Runs :
      (line : ℕ) (lines : List (Option Bytes)) → Runs (run_lines en flags m o line lines)
  unfolding run_lines
  run_lines-Runs line [] = pure-Runs tt
  run_lines-Runs line (none ∷ lines) = err-Runs _
  run_lines-Runs line (some text ∷ lines) =
      bind-Runs (run_line en flags m o line (trim text))
        (λ _. run_lines en flags m o (suc line) lines) (run_line-Runs line (trim text))
        (λ _. run_lines-Runs (suc line) lines)

  run_file-Runs : (file : Option (List (Option Bytes))) → Runs (run_file en flags m o file)
  unfolding run_file
  run_file-Runs none = err-Runs _
  run_file-Runs (some lines) = run_lines-Runs 1 lines

  cmd_script-Runs : (args : List Bytes) → Runs (cmd_script en flags m o args)
  unfolding cmd_script
  cmd_script-Runs [] = err-Runs _
  cmd_script-Runs (path ∷ args) =
      run_file-Runs (if path =b utf8 "-" then some o.stdin else o.open_file path)

  subcommand-Runs : (c : Commands) (args : List Bytes) → Runs (subcommand en flags m o c args)
  unfolding subcommand
  subcommand-Runs Commands.load args = cmd_load-Runs en args
  subcommand-Runs Commands.unload args = cmd_unload-Runs en o.show args
  subcommand-Runs Commands.server args = cmd_server-Runs en flags m (λ name. none) args
  subcommand-Runs Commands.client args = cmd_client-Runs en flags m (λ name. none) args
  subcommand-Runs Commands.client_add args = λ w. cmd_client_add-Runs en flags m (o.lookup w) args w
  subcommand-Runs Commands.client_del args = λ w. cmd_client_del-Runs en flags m (o.lookup w) args w
  subcommand-Runs Commands.server_add args = λ w. cmd_server_add-Runs en flags m (o.lookup w) args w
  subcommand-Runs Commands.server_del args = cmd_server_del-Runs en flags m (λ name. none) args
  subcommand-Runs Commands.status args = cmd_status-Runs en flags m args
  subcommand-Runs Commands.dump args = λ w. cmd_dump-Runs en flags m (o.time w) args w
  subcommand-Runs Commands.reaper args = cmd_script-Runs args
  subcommand-Runs Commands.version args = cmd_version-Runs en args
  subcommand-Runs Commands.script args = cmd_script-Runs args

  word_command-Runs : (cmd : Bytes) (args : List Bytes) → Runs (word_command en flags m o cmd args)
  unfolding word_command
  word_command-Runs cmd args = if_Runs (cmd =b utf8 "load") _ _ (cmd_load-Runs en args) (
      if_Runs (cmd =b utf8 "unload") _ _ (cmd_unload-Runs en o.show args) (
        if_Runs (cmd =b utf8 "server") _ _ (cmd_server-Runs en flags m (λ name. none) args) (
          if_Runs (cmd =b utf8 "client") _ _ (cmd_client-Runs en flags m (λ name. none) args) (
            if_Runs (cmd =b utf8 "client-add") _ _
              (λ w. cmd_client_add-Runs en flags m (o.lookup w) args w)
              (if_Runs (cmd =b utf8 "client-del") _ _
                (λ w. cmd_client_del-Runs en flags m (o.lookup w) args w)
                (if_Runs (cmd =b utf8 "server-add") _ _
                  (λ w. cmd_server_add-Runs en flags m (o.lookup w) args w)
                  (if_Runs (cmd =b utf8 "server-del") _ _
                    (cmd_server_del-Runs en flags m (λ name. none) args)
                    (if_Runs (cmd =b utf8 "status") _ _ (cmd_status-Runs en flags m args) (
                      if_Runs (cmd =b utf8 "dump") _ _
                        (λ w. cmd_dump-Runs en flags m (o.time w) args w)
                        (if_Runs (cmd =b utf8 "version") _ _ (cmd_version-Runs en args) (
                          if_Runs (cmd =b utf8 "script") _ _ (cmd_script-Runs args)
                            (if_Runs (cmd =b utf8 "tui") _ _ (λ w e. cc) (pure-Runs tt)))))))))))))

  words_command-Runs : (args : List Bytes) → Runs (words_command en flags m o args)
  unfolding words_command
  words_command-Runs [] = word_command-Runs (utf8 "status") []
  words_command-Runs (cmd ∷ args) = word_command-Runs cmd args

  run_command-Runs :
      (command : Option (Commands × List Bytes)) (args : List Bytes)
      → Runs (run_command en flags m o command args)
  unfolding run_command
  run_command-Runs none args = words_command-Runs args
  run_command-Runs (some (cmd, args')) args = subcommand-Runs cmd args'

-- Whatever the command line, the file of users, the scripts and the resolver hold, and whatever the
-- sockets do and whatever bytes the kernel sends on them, `main` ends: it returns, fails, panics or waits
-- for ever for a datagram, and never runs out of the fuel of a reply loop.
pub run_main-Runs :
    (en : Endian) (uids : File) (o : Outside) (cli : Cli) → Runs (run_main en uids o cli)
unfolding run_main
run_main-Runs en uids o cli =
    run_command-Runs en (flags_of cli) (load_uids uids []).1 o cli.command cli.args
