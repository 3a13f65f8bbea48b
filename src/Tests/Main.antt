-- ===== src/Tests/Main.antt =====
-- `main` of ktuctl-rs/src/main.rs: runs, and the theorems at inputs.
use ktuctl_rs.Prelude.{◌≡◌, ◌≢◌, refl, [], ◌∷◌, some, none, true, false}
use ktuctl_rs.Text.{utf8}
use ktuctl_rs.Outcome.{ok, stuck}
use ktuctl_rs.Control.Main.{Commands, Cli, run_main, run_command, words_command, word_command}
use ktuctl_rs.Control.Main.Agree.{name_of, run_main-name_of}
use ktuctl_rs.Netlink.Queries.{Extends}
use ktuctl_rs.Control.Listing.Looks.{IsQuestion, cmd_status-IsQuestion}
use ktuctl_rs.Control.Listing.{cmd_status, cmd_dump, cmd_load, cmd_version}
use ktuctl_rs.Control.Ends.Programs.{run_main-Runs}
use ktuctl_rs.Tests.Netlink.{le, outside}
use ktuctl_rs.Tests.Edit.{before, flags}
use ktuctl_rs.Tests.Script.{surroundings}
use ktuctl_rs.Control.UidMap.{File}

abbrev cli : Cli
cli = record {
  numeric = false;
  debug = true;
  ipv4 = true;
  ipv6 = false;
  command = some (Commands.client_add, utf8 "uid" ∷ utf8 "7" ∷ []);
  args = [];
}

-- A line without a number ends the loading, with the user before it in the map.
abbrev users : File
users = File.file (some (utf8 "7 alice") ∷ none ∷ [])

run_main-Runs_example : (run_main le users surroundings cli before).0 ≢ stuck
run_main-Runs_example = run_main-Runs le users surroundings cli before

run_main-name_of_example :
    run_main le users surroundings
      (record cli { command = some (Commands.client_add, utf8 "addr" ∷ utf8 "::1" ∷ []) })
    ≡ run_main le users surroundings (record cli {
      command = none;
      args = name_of Commands.client_add ∷ utf8 "addr" ∷ utf8 "::1" ∷ [];
    })
run_main-name_of_example =
    run_main-name_of le users surroundings cli Commands.client_add (utf8 "addr" ∷ utf8 "::1" ∷ [])
      (λ e. cc)

-- Both words of `version` print the version.
version_run :
    run_main le users surroundings
      (record cli { command = none; args = utf8 "version" ∷ [] })
      outside
    ≡ (ok tt, record outside { printed = utf8 "ktuctl-rs: 1.0.0 (Rust Port)" ∷ [] })
unfolding run_main run_command words_command word_command cmd_version
version_run = refl

cmd_status-IsQuestion_example :
    Extends (IsQuestion le) before.sent (cmd_status le flags [] [] before).1.sent
    × Extends (IsQuestion le) before.sent (cmd_dump le flags [] (utf8 "now") [] before).1.sent
    × Extends (IsQuestion le) before.sent (cmd_load le [] before).1.sent
    × Extends (IsQuestion le) before.sent (cmd_version le [] before).1.sent
cmd_status-IsQuestion_example = cmd_status-IsQuestion le flags [] (utf8 "now") [] before
