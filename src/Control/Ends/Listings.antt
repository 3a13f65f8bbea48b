-- ===== src/Control/Ends/Listings.antt =====
-- The commands that print end (ktuctl-rs/src/commands.rs).
use ktuctl_rs.Prelude.{ℕ, ◌≡◌, List, [], ◌∷◌, ◌++◌, Bool, true, false, ◌=b◌}
use ktuctl_rs.Bytes.{Endian, Bytes}
use ktuctl_rs.Text.{utf8}
use ktuctl_rs.Outcome.{Error}
use ktuctl_rs.World.{Net, ◌>>◌, println}
use ktuctl_rs.Protocol.Constants.{tutu_cmd_ifname_del}
use ktuctl_rs.Netlink.Progress.{Runs}
use ktuctl_rs.Netlink.Termination.{runs_closed, pure-Runs, bind-Runs, send_string-Runs}
use ktuctl_rs.Control.UidMap.{UidMap}
use ktuctl_rs.Control.Names.{GlobalFlags}
use ktuctl_rs.Control.Options.Words
use ktuctl_rs.Control.Ends.Edits.{in_context-Runs}
use ktuctl_rs.Netlink.Closed.Exchanges.{Permits}
use ktuctl_rs.Control.Listing.Kept.{
  is_query, list_interfaces-Holds, print_list-Holds, cmd_status-Holds, cmd_dump-Holds,
  cmd_version-Holds,
}
use ktuctl_rs.Control.Listing.{
  send_name, list_interfaces, print_list, add_interface, remove_interface, for_interfaces, cmd_load,
  cmd_unload, cmd_status, cmd_dump, cmd_version,
}

Bool-Runs :
    {A : Type 0} (b : Bool) (m k : Net A) → Runs m → Runs k → Runs (elim b [ true ↦ m | false ↦ k ])
Bool-Runs true m k hm hk = hm
Bool-Runs false m k hm hk = hk

for_interfaces-Runs :
    (act : Bytes → Net (Unit {0}))
    → ((s : Bytes) → Runs (act s))
    → (args : List Bytes) → Runs (for_interfaces act args)
unfolding for_interfaces
for_interfaces-Runs act ha [] = pure-Runs tt
for_interfaces-Runs act ha (s ∷ []) = pure-Runs tt
for_interfaces-Runs act ha (s ∷ ifname ∷ rest) =
    Bool-Runs (s =b Words.iface) _ _
      (bind-Runs (act ifname) _ (ha ifname) (λ _. for_interfaces-Runs act ha rest))
      (for_interfaces-Runs act ha (ifname ∷ rest))

module _ (en : Endian) where
  -- A command that only looks may send what it sends.
  asking : (cmd flags : ℕ) → is_query cmd ≡ true → Permits (runs_closed en) flags cmd []
  asking cmd flags query id seq pid = tt

  list_interfaces-Runs : Runs (list_interfaces en)
  list_interfaces-Runs = list_interfaces-Holds (runs_closed en) asking

  print_list-Runs : Runs (print_list en)
  print_list-Runs = print_list-Holds (runs_closed en) asking

  add_interface-Runs : (ifname : Bytes) → Runs (add_interface en ifname)
  unfolding add_interface
  add_interface-Runs ifname =
      bind-Runs _ _ (in_context-Runs _ (send_string-Runs en _ _ ifname true)) (λ _ w e. cc)

  remove_interface-Runs :
      (show : Error → Bytes) (ifname : Bytes) → Runs (remove_interface en show ifname)
  unfolding remove_interface
  remove_interface-Runs show ifname =
      (runs_closed en).handled
        (send_name en tutu_cmd_ifname_del ifname >> println (utf8 "Removing interface: " ++ ifname))
        _ (bind-Runs _ _ (send_string-Runs en _ _ ifname true) (λ _ w e. cc)) (λ x w e. cc)

  pub cmd_load-Runs : (args : List Bytes) → Runs (cmd_load en args)
  unfolding cmd_load
  cmd_load-Runs [] = print_list-Runs
  cmd_load-Runs (s ∷ args) =
      bind-Runs (for_interfaces (add_interface en) (s ∷ args)) (λ _. print_list en)
        (for_interfaces-Runs (add_interface en) add_interface-Runs (s ∷ args))
        (λ _. print_list-Runs)

  pub cmd_unload-Runs : (show : Error → Bytes) (args : List Bytes) → Runs (cmd_unload en show args)
  unfolding cmd_unload
  cmd_unload-Runs show args =
      bind-Runs (for_interfaces (remove_interface en show) args) (λ _. list_interfaces en)
        (for_interfaces-Runs (remove_interface en show) (remove_interface-Runs show) args)
        (λ _. list_interfaces-Runs)

  module _ (flags : GlobalFlags) (m : UidMap) where
    pub cmd_status-Runs : (args : List Bytes) → Runs (cmd_status en flags m args)
    cmd_status-Runs args = cmd_status-Holds (runs_closed en) asking flags m args

    pub cmd_dump-Runs : (time : Bytes) (args : List Bytes) → Runs (cmd_dump en flags m time args)
    cmd_dump-Runs time args = cmd_dump-Holds (runs_closed en) asking flags m time args

  pub cmd_version-Runs : (args : List Bytes) → Runs (cmd_version en args)
  cmd_version-Runs args = cmd_version-Holds (runs_closed en) asking args
