-- ===== src/Control/Listing/Kept.antt =====
-- The commands of ktuctl-rs/src/commands.rs that only look: what they keep.
use ktuctl_rs.Prelude.{
  ℕ, ◌+◌, ◌≡◌, refl, List, [], ◌∷◌, ◌++◌, none, Bool, true, false, ◌==◌, ◌||◌, not, if◌then◌else◌,
}
use ktuctl_rs.Bytes.{Endian, Bytes, ntohs}
use ktuctl_rs.Text.{utf8}
use ktuctl_rs.Number.{decimal}
use ktuctl_rs.World.{Net, ◌>>=◌, ◌>>◌, pure, println}
use ktuctl_rs.Protocol.Constants.{
  tutu_cmd_get_config, tutu_attr_config, tutu_cmd_get_egress, tutu_attr_egress,
  tutu_cmd_get_ingress, tutu_cmd_get_user_info, tutu_cmd_get_session, tutu_cmd_get_stats,
  tutu_attr_stats, tutu_cmd_ifname_get,
}
use ktuctl_rs.Protocol.Structs.{
  TutuConfig, tutu_config_layout, TutuStats, tutu_stats_layout, TutuEgress, tutu_egress_layout,
}
use ktuctl_rs.Netlink.Closed.{Closed, if_Holds, println_then-Holds}
use ktuctl_rs.Netlink.Closed.Exchanges.{
  Permits, receive_struct-Holds, dump_structs-Holds, dump_strings-Holds,
}
use ktuctl_rs.Netlink.Exchange.{receive_struct, dump_structs}
use ktuctl_rs.Control.UidMap.{UidMap}
use ktuctl_rs.Control.Names.{GlobalFlags}
use ktuctl_rs.Control.Listing.{
  list_users, list_sessions, list_ingress, dump_users, on_name, list_names, list_interfaces,
  print_list, cmd_load, each_peer, server_status, client_status, debug_sessions, debug_ingress,
  dump_server, dump_client, mode_dump, print_all, print_stats, cmd_status, cmd_dump, cmd_version,
}
use ktuctl_rs.Control.Listing.Lines.{
  stats_lines, status_egress, dump_egress, dump_head, role_line, version_line,
}

-- The requests that ask and do not change.
abbrev pub is_query : ℕ → Bool
is_query cmd =
    cmd == tutu_cmd_get_config
    || cmd == tutu_cmd_get_egress
    || cmd == tutu_cmd_get_ingress
    || cmd == tutu_cmd_get_user_info
    || cmd == tutu_cmd_get_session
    || cmd == tutu_cmd_get_stats
    || cmd == tutu_cmd_ifname_get

module _ {en : Endian} (p : Closed en)
    (asking : (cmd flags : ℕ) → is_query cmd ≡ true → Permits p flags cmd []) where
  print_all-Holds : (lines : List Bytes) → p.Holds (print_all lines)
  unfolding print_all
  print_all-Holds [] = p.done tt
  print_all-Holds (line ∷ lines) =
      println_then-Holds p line (print_all lines) (print_all-Holds lines)

  on_name-Holds : (s : Bytes) (found : Bool) → p.Holds (on_name en s found)
  unfolding on_name
  on_name-Holds s found = println_then-Holds p (utf8 "  " ++ s) (pure true) (p.done true)

  list_names-Holds : p.Holds (list_names en)
  unfolding list_names
  list_names-Holds =
      p.bind _ _
        (dump_strings-Holds p tutu_cmd_ifname_get _ (on_name en) false
          (λ flags. asking tutu_cmd_ifname_get flags refl) on_name-Holds)
        (λ found. if_Holds p (not found) _ _ (p.printed (utf8 "  [all interfaces]")) (p.done tt))

  pub list_interfaces-Holds : p.Holds (list_interfaces en)
  unfolding list_interfaces
  list_interfaces-Holds =
      println_then-Holds p (utf8 "Managed interfaces:") (list_names en) list_names-Holds

  pub print_list-Holds : p.Holds (print_list en)
  unfolding print_list
  print_list-Holds =
      p.bind (list_interfaces en) (λ _. println []) list_interfaces-Holds (λ _. p.printed [])

  each_peer-Holds :
      (line : TutuEgress → Bytes) (e : TutuEgress) (count : ℕ) → p.Holds (each_peer en line e count)
  unfolding each_peer
  each_peer-Holds line e count =
      if_Holds p (not (ntohs en e.key.port == 0)) _ _
        (println_then-Holds p (line e) (pure (count + 1)) (p.done (count + 1))) (p.done count)

  module _ (flags : GlobalFlags) (m : UidMap) where
    list_users-Holds : p.Holds (list_users en flags m)
    list_users-Holds =
        dump_structs-Holds p _ tutu_cmd_get_user_info _ _ tt
          (λ f. asking tutu_cmd_get_user_info f refl) (λ t s. p.printed _)

    debug_sessions-Holds : (cfg : TutuConfig) → p.Holds (debug_sessions en flags m cfg)
    unfolding debug_sessions
    debug_sessions-Holds cfg =
        if_Holds p flags.debug _ _
          (println_then-Holds p
            (utf8 "\nSessions (max age: " ++ (decimal cfg.session_max_age ++ utf8 "):"))
            (list_sessions en flags m)
            (dump_structs-Holds p _ tutu_cmd_get_session _ _ tt
              (λ f. asking tutu_cmd_get_session f refl) (λ t s. p.printed _)))
          (p.done tt)

    debug_ingress-Holds : p.Holds (debug_ingress en flags m)
    unfolding debug_ingress
    debug_ingress-Holds =
        if_Holds p flags.debug _ _
          (println_then-Holds p (utf8 "\nIngress peers:") (list_ingress en flags m) (
            dump_structs-Holds p _ tutu_cmd_get_ingress _ _ tt
              (λ f. asking tutu_cmd_get_ingress f refl) (λ t s. p.printed _)))
          (p.done tt)

    server_status-Holds : (cfg : TutuConfig) → p.Holds (server_status en flags m cfg)
    unfolding server_status
    server_status-Holds cfg =
        println_then-Holds p (utf8 "Peers:")
          (list_users en flags m >> debug_sessions en flags m cfg)
          (p.bind (list_users en flags m) (λ _. debug_sessions en flags m cfg) list_users-Holds
            (λ _. debug_sessions-Holds cfg))

    -- The peers, one line each, and what is done with their number.
    peers_then-Holds :
        (line : TutuEgress → Bytes) (k : ℕ → Net (Unit {0}))
        → ((n : ℕ) → p.Holds (k n))
        → p.Holds (
            dump_structs en
              (tutu_egress_layout en)
              tutu_cmd_get_egress
              tutu_attr_egress
              (each_peer en line)
              0
            >>= k)
    peers_then-Holds line k = p.bind _ k (
        dump_structs-Holds p (tutu_egress_layout en) tutu_cmd_get_egress tutu_attr_egress
          (each_peer en line) 0 (λ f. asking tutu_cmd_get_egress f refl) (each_peer-Holds line))

    no_peer : ℕ → Net (Unit {0})
    no_peer count =
        (if count == 0 then println (utf8 "No peer configure") else pure tt)
        >> debug_ingress en flags m

    no_peer-Holds : (count : ℕ) → p.Holds (no_peer count)
    unfolding no_peer
    no_peer-Holds count =
        p.bind (if count == 0 then println (utf8 "No peer configure") else pure tt)
          (λ _. debug_ingress en flags m)
          (if_Holds p (count == 0) (println (utf8 "No peer configure")) (pure tt)
            (p.printed (utf8 "No peer configure")) (p.done tt))
          (λ _. debug_ingress-Holds)

    client_status-Holds : p.Holds (client_status en flags m)
    unfolding client_status no_peer
    client_status-Holds =
        println_then-Holds p (utf8 "Client Peers:") _
          (peers_then-Holds (status_egress en flags m) no_peer no_peer-Holds)

    print_stats-Holds : p.Holds (print_stats en flags m)
    unfolding print_stats
    print_stats-Holds =
        p.handled
          (receive_struct en (tutu_stats_layout en) tutu_cmd_get_stats tutu_attr_stats none
            >>= λ stats. print_all (stats_lines stats))
          (λ e. pure tt)
          (p.bind _ _
            (receive_struct-Holds p (tutu_stats_layout en) tutu_cmd_get_stats tutu_attr_stats none
              (λ f. asking tutu_cmd_get_stats f refl))
            (λ (stats : TutuStats). print_all-Holds (stats_lines stats)))
          (λ e. p.done tt)

    config_then-Holds :
        (k : TutuConfig → Net (Unit {0}))
        → ((cfg : TutuConfig) → p.Holds (k cfg))
        → p.Holds (
            receive_struct en (tutu_config_layout en) tutu_cmd_get_config tutu_attr_config none
            >>= k)
    config_then-Holds k = p.bind _ k (
        receive_struct-Holds p (tutu_config_layout en) tutu_cmd_get_config tutu_attr_config none
          (λ f. asking tutu_cmd_get_config f refl))

    mode_status : TutuConfig → Net (Unit {0})
    mode_status cfg =
        (if not (cfg.is_server == 0)
          then server_status en flags m cfg
          else client_status en flags m)
        >> (if flags.debug then print_stats en flags m else pure tt)

    mode_status-Holds : (cfg : TutuConfig) → p.Holds (mode_status cfg)
    unfolding mode_status
    mode_status-Holds cfg =
        p.bind
          (if not (cfg.is_server == 0)
            then server_status en flags m cfg
            else client_status en flags m)
          (λ _. if flags.debug then print_stats en flags m else pure tt)
          (if_Holds p (not (cfg.is_server == 0)) (server_status en flags m cfg)
            (client_status en flags m) (server_status-Holds cfg) client_status-Holds)
          (λ _.
            if_Holds p flags.debug (print_stats en flags m) (pure tt) print_stats-Holds (p.done tt))

    pub cmd_status-Holds : (args : List Bytes) → p.Holds (cmd_status en flags m args)
    unfolding cmd_status cmd_load mode_status
    cmd_status-Holds args = config_then-Holds _ (λ (cfg : TutuConfig).
        println_then-Holds p (role_line cfg) (print_list en >> mode_status cfg) (
          p.bind (print_list en) (λ _. mode_status cfg) print_list-Holds
            (λ _. mode_status-Holds cfg)))

    dump_server-Holds : (cfg : TutuConfig) → p.Holds (dump_server en flags m cfg)
    unfolding dump_server
    dump_server-Holds cfg =
        println_then-Holds p (utf8 "server max-age " ++ (decimal cfg.session_max_age ++ utf8 "\n"))
          (dump_users en flags m)
          (dump_structs-Holds p _ tutu_cmd_get_user_info _ _ tt
            (λ f. asking tutu_cmd_get_user_info f refl) (λ t s. p.printed _))

    dump_client-Holds : p.Holds (dump_client en flags m)
    unfolding dump_client
    dump_client-Holds =
        println_then-Holds p (utf8 "client") _
          (peers_then-Holds (dump_egress en flags m) (λ n. pure tt) (λ n. p.done tt))

    pub cmd_dump-Holds :
        (time : Bytes) (args : List Bytes) → p.Holds (cmd_dump en flags m time args)
    unfolding cmd_dump
    cmd_dump-Holds time args = config_then-Holds _ (λ (cfg : TutuConfig).
        p.bind (print_all (dump_head time)) (λ _. mode_dump en flags m cfg)
          (print_all-Holds (dump_head time))
          (λ _.
            if_Holds p (not (cfg.is_server == 0)) (dump_server en flags m cfg)
              (dump_client en flags m) (dump_server-Holds cfg) dump_client-Holds))

  pub cmd_version-Holds : (args : List Bytes) → p.Holds (cmd_version en args)
  unfolding cmd_version
  cmd_version-Holds args = p.printed version_line
