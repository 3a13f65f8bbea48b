-- ===== src/Control/Listing.antt =====
-- The commands of ktuctl-rs/src/commands.rs that print: `cmd_load`, `cmd_unload`, `cmd_status`,
-- `cmd_dump` and `cmd_version`. A line is what `println!` prints in the end, after the `print!`s
-- before it, without its last newline. The texts of errors and the time are arguments.
pub mod Lines
pub mod Kept
pub mod Looks
pub mod Answered
pub mod Dumped
use ktuctl_rs.Prelude.{
  ℕ, zero, suc, ◌+◌, List, [], ◌∷◌, ◌++◌, Option, none, some, Bool, true, false, not, ltb, ◌=b◌,
  ◌==◌, if◌then◌else◌,
}
use ktuctl_rs.Bytes.{Endian, Bytes, ntohs}
use ktuctl_rs.Text.{utf8}
use ktuctl_rs.Number.{decimal}
use ktuctl_rs.Outcome.{Outcome, ok, err, Error}
use ktuctl_rs.World.{World, Net, and_then, ◌>>=◌, ◌>>◌, pure, lift, println, or_else}
use ktuctl_rs.Protocol.Constants.{
  tutu_cmd_get_config, tutu_attr_config, tutu_cmd_get_egress, tutu_attr_egress,
  tutu_cmd_get_ingress, tutu_attr_ingress, tutu_cmd_get_user_info, tutu_attr_user_info,
  tutu_cmd_get_session, tutu_attr_session, tutu_cmd_get_stats, tutu_attr_stats, tutu_cmd_ifname_get,
  tutu_cmd_ifname_add, tutu_cmd_ifname_del, tutu_attr_ifname_name,
}
use ktuctl_rs.Protocol.Structs.{
  TutuConfig, tutu_config_layout, TutuIngress, tutu_ingress_layout, TutuEgress, tutu_egress_layout,
  TutuUserInfo, tutu_user_info_layout, TutuSession, tutu_session_layout, TutuStats,
  tutu_stats_layout,
}
use ktuctl_rs.Netlink.Exchange.{send_string, receive_struct, dump_structs, dump_strings}
use ktuctl_rs.Control.UidMap.{UidMap}
use ktuctl_rs.Control.Names.{GlobalFlags}
use ktuctl_rs.Control.Edit.{in_context}
use ktuctl_rs.Control.Options.Words
use ktuctl_rs.Control.Listing.Lines.{
  status_user, status_session, status_egress, status_ingress, stats_lines, role_line, dump_user,
  dump_egress, dump_head, version_line,
}

-- The loops over the arguments: an action for each name behind `iface`.
unfoldable pub for_interfaces : (Bytes → Net (Unit {0})) → List Bytes → Net (Unit {0})
for_interfaces act [] = pure tt
for_interfaces act (s ∷ []) = pure tt
for_interfaces act (s ∷ ifname ∷ rest) = elim (s =b Words.iface) [
  | true ↦ do act ifname; for_interfaces act rest
  | false ↦ for_interfaces act (ifname ∷ rest)
]

unfoldable pub print_all : List Bytes → Net (Unit {0})
print_all [] = pure tt
print_all (line ∷ lines) = do println line; print_all lines

-- A handler that prints a line.
abbrev pub each_line : {T : Type 0} → (T → Bytes) → T → Unit {0} → Net (Unit {0})
each_line line t s = println (line t)

module _ (en : Endian) where
  -- The handler that prints an interface, and whether there was one.
  unfoldable pub on_name : Bytes → Bool → Net Bool
  on_name s found = do println (utf8 "  " ++ s); pure true

  -- The interfaces, and a line where there are none.
  unfoldable pub list_names : Net (Unit {0})
  unfolding on_name
  list_names = do
    found ← dump_strings en tutu_cmd_ifname_get tutu_attr_ifname_name on_name false
    if not found then println (utf8 "  [all interfaces]") else pure tt

  -- "Managed interfaces:" and the interfaces.
  unfoldable pub list_interfaces : Net (Unit {0})
  unfolding list_names
  list_interfaces = do println (utf8 "Managed interfaces:"); list_names

  -- `print_list` of `cmd_load`
  unfoldable pub print_list : Net (Unit {0})
  unfolding list_interfaces
  print_list = do list_interfaces; println []

  abbrev pub send_name : ℕ → Bytes → Net (Unit {0})
  send_name cmd ifname = send_string en cmd tutu_attr_ifname_name ifname true

  unfoldable pub add_interface : Bytes → Net (Unit {0})
  add_interface ifname = do
    λ w. in_context (send_name tutu_cmd_ifname_add ifname w)
    println (utf8 "Adding interface: " ++ ifname)

  -- A line that the interface was removed, or a line with the text of the error.
  unfoldable pub remove_interface : (Error → Bytes) → Bytes → Net (Unit {0})
  remove_interface show ifname w =
      or_else
        (and_then (send_name tutu_cmd_ifname_del ifname w)
          (λ _. println (utf8 "Removing interface: " ++ ifname)))
        (λ e. println (
          utf8 "Error removing "
          ++ (ifname ++ (utf8 ": " ++ (show e ++ utf8 " (Interface may not be in list)")))))

  unfoldable pub cmd_load : List Bytes → Net (Unit {0})
  unfolding print_list for_interfaces add_interface
  cmd_load [] = print_list
  cmd_load (s ∷ args) = do for_interfaces add_interface (s ∷ args); print_list

  unfoldable pub cmd_unload : (Error → Bytes) → List Bytes → Net (Unit {0})
  unfolding list_interfaces for_interfaces remove_interface
  cmd_unload show args = do for_interfaces (remove_interface show) args; list_interfaces

  abbrev pub get_config : Net TutuConfig
  get_config = receive_struct en (tutu_config_layout en) tutu_cmd_get_config tutu_attr_config none

  -- A handler that prints a line for an entry with a port, and counts.
  unfoldable pub each_peer : (TutuEgress → Bytes) → TutuEgress → ℕ → Net ℕ
  each_peer line e count =
      if not (ntohs en e.key.port == 0) then (do println (line e); pure (count + 1)) else pure count

  module _ (flags : GlobalFlags) (m : UidMap) where
    abbrev pub list_users : Net (Unit {0})
    list_users =
        dump_structs en (tutu_user_info_layout en) tutu_cmd_get_user_info tutu_attr_user_info
          (each_line (status_user en flags m)) tt

    abbrev pub list_sessions : Net (Unit {0})
    list_sessions =
        dump_structs en (tutu_session_layout en) tutu_cmd_get_session tutu_attr_session
          (each_line (status_session en flags m)) tt

    abbrev pub list_peers : Net ℕ
    unfolding each_peer
    list_peers =
        dump_structs en (tutu_egress_layout en) tutu_cmd_get_egress tutu_attr_egress
          (each_peer (status_egress en flags m)) 0

    abbrev pub list_ingress : Net (Unit {0})
    list_ingress =
        dump_structs en (tutu_ingress_layout en) tutu_cmd_get_ingress tutu_attr_ingress
          (each_line (status_ingress en flags m)) tt

    unfoldable pub debug_sessions : TutuConfig → Net (Unit {0})
    debug_sessions cfg =
        if flags.debug
        then (do
          println (utf8 "\nSessions (max age: " ++ (decimal cfg.session_max_age ++ utf8 "):"))
          list_sessions)
        else pure tt

    unfoldable pub debug_ingress : Net (Unit {0})
    debug_ingress =
        if flags.debug then (do println (utf8 "\nIngress peers:"); list_ingress) else pure tt

    unfoldable pub server_status : TutuConfig → Net (Unit {0})
    unfolding debug_sessions
    server_status cfg = do println (utf8 "Peers:"); list_users; debug_sessions cfg

    unfoldable pub client_status : Net (Unit {0})
    unfolding each_peer debug_ingress
    client_status = do
      println (utf8 "Client Peers:")
      count ← list_peers
      (if count == 0 then println (utf8 "No peer configure") else pure tt)
      debug_ingress

    -- `if let Ok(stats)`
    unfoldable pub print_stats : Net (Unit {0})
    unfolding print_all
    print_stats w =
        or_else
          (and_then
            (receive_struct en (tutu_stats_layout en) tutu_cmd_get_stats tutu_attr_stats none w)
            (λ stats. print_all (stats_lines stats)))
          (λ e. pure tt)

    unfoldable pub cmd_status : List Bytes → Net (Unit {0})
    unfolding cmd_load server_status client_status print_stats
    cmd_status args = do
      cfg ← get_config
      println (role_line cfg)
      cmd_load []
      (if not (cfg.is_server == 0) then server_status cfg else client_status)
      if flags.debug then print_stats else pure tt

    abbrev pub dump_users : Net (Unit {0})
    dump_users =
        dump_structs en (tutu_user_info_layout en) tutu_cmd_get_user_info tutu_attr_user_info
          (each_line (dump_user en flags m)) tt

    abbrev pub dump_peers : Net ℕ
    unfolding each_peer
    dump_peers =
        dump_structs en (tutu_egress_layout en) tutu_cmd_get_egress tutu_attr_egress
          (each_peer (dump_egress en flags m)) 0

    unfoldable pub dump_server : TutuConfig → Net (Unit {0})
    dump_server cfg = do
      println (utf8 "server max-age " ++ (decimal cfg.session_max_age ++ utf8 "\n"))
      dump_users

    unfoldable pub dump_client : Net (Unit {0})
    unfolding each_peer
    dump_client = do println (utf8 "client"); count ← dump_peers; pure tt

    abbrev pub mode_dump : TutuConfig → Net (Unit {0})
    mode_dump cfg = if not (cfg.is_server == 0) then dump_server cfg else dump_client

    unfoldable pub cmd_dump : Bytes → List Bytes → Net (Unit {0})
    unfolding dump_server dump_client print_all
    cmd_dump time args = do cfg ← get_config; print_all (dump_head time); mode_dump cfg

  unfoldable pub cmd_version : List Bytes → Net (Unit {0})
  cmd_version args = println version_line
