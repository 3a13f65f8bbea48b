-- ===== src/Control/Listing/Looks.antt =====
-- The commands of ktuctl-rs/src/commands.rs that print change nothing in the module.
use ktuctl_rs.Prelude.{ℕ, ◌≡◌, List, [], ◌∷◌, true}
use ktuctl_rs.Bytes.{Endian, Bytes}
use ktuctl_rs.World.{World}
use ktuctl_rs.Protocol.Constants.{
  tutu_genl_version, genl_id_ctrl, nlm_f_request, ctrl_cmd_getfamily, ctrl_attr_family_name,
}
use ktuctl_rs.Netlink.Message.{build_packet_genl_msg}
use ktuctl_rs.Netlink.Closed.{Closed}
use ktuctl_rs.Netlink.Closed.Exchanges.{Permits}
use ktuctl_rs.Netlink.Queries.{Extends, sends_closed}
use ktuctl_rs.Control.UidMap.{UidMap}
use ktuctl_rs.Control.Names.{GlobalFlags}
use ktuctl_rs.Control.Listing.{cmd_load, cmd_status, cmd_dump, cmd_version}
use ktuctl_rs.Control.Listing.Kept.{
  is_query, print_list-Holds, cmd_status-Holds, cmd_dump-Holds, cmd_version-Holds,
}

-- A datagram that asks the controller for a family's number, or the module for what it knows.
pub data IsQuestion (en : Endian) : Bytes → Type 0 where
  of_controller :
      (seq pid : ℕ) (name : Bytes)
      → IsQuestion en (
          build_packet_genl_msg en genl_id_ctrl nlm_f_request seq pid ctrl_cmd_getfamily 1
            ((ctrl_attr_family_name, name) ∷ []))
  of_module :
      (family_id flags seq pid cmd : ℕ)
      → is_query cmd ≡ true
      → IsQuestion en (build_packet_genl_msg en family_id flags seq pid cmd tutu_genl_version [])

module _ (en : Endian) where
  abbrev asks_only : Closed en
  asks_only = sends_closed (IsQuestion en) en of_controller

  -- `status`, `dump`, `load` without arguments and `version` only look: whatever the kernel answers and
  -- however they end, every datagram that they send asks the controller for the number of the module's
  -- family, or the module for its configuration, entries, sessions, statistics or interfaces.
  pub cmd_status-IsQuestion :
      (flags : GlobalFlags) (m : UidMap) (time : Bytes) (args : List Bytes) (w : World)
      → Extends (IsQuestion en) w.sent (cmd_status en flags m args w).1.sent
        × Extends (IsQuestion en) w.sent (cmd_dump en flags m time args w).1.sent
        × Extends (IsQuestion en) w.sent (cmd_load en [] w).1.sent
        × Extends (IsQuestion en) w.sent (cmd_version en args w).1.sent
  unfolding cmd_load
  cmd_status-IsQuestion flags m time args w =
      let asking : (cmd f : ℕ) → is_query cmd ≡ true → Permits asks_only f cmd [] =
        λ cmd f query id seq pid. of_module id f seq pid cmd query in
      (
        cmd_status-Holds asks_only asking flags m args w,
        cmd_dump-Holds asks_only asking flags m time args w,
        print_list-Holds asks_only asking w,
        cmd_version-Holds asks_only asking args w,
      )
