-- ===== src/Control/Edit.antt =====
-- The commands of ktuctl-rs/src/commands.rs that change the module's state: `cmd_server`,
-- `cmd_client`, `cmd_client_add`, `cmd_client_del`, `cmd_server_add` and `cmd_server_del`. What they
-- log is left out. The resolver is an argument, from a name to what it finds.
pub mod Key
pub mod Modes
pub mod Sends
pub mod Users
use ktuctl_rs.Prelude.{
  ℕ, ◌+◌, List, [], ◌∷◌, Option, none, some, Bool, true, false, ◌&&◌, ◌||◌, not, ◌=b◌, ◌==◌,
  if◌then◌else◌, replicate,
}
use ktuctl_rs.Bytes.{Endian, Bytes, htons}
use ktuctl_rs.Text.{utf8}
use ktuctl_rs.Address.{IpAddr}
use ktuctl_rs.Outcome.{Outcome, ok, err, panic, blocked, stuck, Error}
use ktuctl_rs.World.{World, Net, ◌>>=◌, ◌>>◌, pure, lift, println}
use ktuctl_rs.Protocol.Constants.{
  tutu_cmd_set_config, tutu_cmd_get_config, tutu_attr_config, tutu_cmd_update_ingress,
  tutu_cmd_update_egress, tutu_cmd_delete_ingress, tutu_cmd_delete_egress, tutu_cmd_get_egress,
  tutu_attr_ingress, tutu_attr_egress, tutu_cmd_update_user_info, tutu_cmd_delete_user_info,
  tutu_attr_user_info, tutu_any, tutu_noexist, tutu_xor_key_max,
}
use ktuctl_rs.Protocol.Structs.{
  In6Addr, TutuConfig, tutu_config_layout, TutuIngress, tutu_ingress_layout, TutuEgress,
  tutu_egress_layout, TutuUserInfo, tutu_user_info_layout,
}
use ktuctl_rs.Netlink.Exchange.{send_struct, receive_struct, dump_structs}
use ktuctl_rs.Control.UidMap.{UidMap}
use ktuctl_rs.Control.XorKey.{parse_xor_key}
use ktuctl_rs.Control.Comment.{copy_comment}
use ktuctl_rs.Control.Names.{GlobalFlags, resolve_ip}
use ktuctl_rs.Control.Options.{
  Options, nothing_set, parse_options, parse_max_age, client_add_words, client_del_words,
  server_add_words, server_del_words,
}

abbrev pub config : ℕ → ℕ → TutuConfig
config max_age is_server = record {
  session_max_age = max_age;
  reserved0 = 0;
  is_server = is_server;
  reserved1 = 0 ∷ 0 ∷ [];
}

-- The key of 64 bytes and its length: all zero where no key is given.
unfoldable pub xor_key_of : Bytes → Outcome (Bytes × ℕ)
xor_key_of [] = ok (replicate tutu_xor_key_max 0, 0)
xor_key_of (b ∷ hex) = parse_xor_key (b ∷ hex) (replicate tutu_xor_key_max 0)

abbrev pub egress_of : Endian → Options → In6Addr → Bytes × ℕ → TutuEgress
egress_of en o in6 (xor_key, xor_key_len) = record {
  key = record { address = in6; port = htons en o.port; pad0 = replicate 2 0 };
  value = record {
    xor_key = xor_key;
    comment = copy_comment o.comment;
    xor_key_len = xor_key_len;
    uid = o.uid;
  };
  pad0 = replicate 4 0;
  map_flags = tutu_any;
}

-- The ingress entry of a port and a key.
abbrev pub ingress_of : ℕ → In6Addr → ℕ → Bytes × ℕ → ℕ → TutuIngress
ingress_of uid in6 port (xor_key, xor_key_len) map_flags = record {
  key = record { address = in6; uid = uid; pad0 = replicate 3 0 };
  value = record {
    xor_key = xor_key;
    xor_key_len = xor_key_len;
    reserved0 = 0;
    port = port;
    reserved1 = replicate 4 0;
  };
  pad0 = replicate 4 0;
  map_flags = map_flags;
}

abbrev pub user_info_of : Endian → Options → In6Addr → Bytes × ℕ → TutuUserInfo
user_info_of en o in6 (xor_key, xor_key_len) = record {
  uid = o.uid;
  pad0 = replicate 3 0;
  value = record {
    address = in6;
    icmp_id = htons en o.icmp_id;
    dport = htons en o.port;
    comment = copy_comment o.comment;
    xor_key = xor_key;
    xor_key_len = xor_key_len;
    reserved2 = replicate 7 0;
    pad1 = replicate 2 0;
  };
  map_flags = tutu_any;
}

-- The request that deletes a user: all zero but the number.
abbrev pub deleted_user : ℕ → TutuUserInfo
deleted_user uid = record {
  uid = uid;
  pad0 = replicate 3 0;
  value = record {
    address = record { octets = replicate 16 0 };
    icmp_id = 0;
    dport = 0;
    comment = replicate 22 0;
    xor_key = replicate tutu_xor_key_max 0;
    xor_key_len = 0;
    reserved2 = replicate 7 0;
    pad1 = replicate 2 0;
  };
  map_flags = 0;
}

-- `match m { Ok(_) => {} Err(e) => bail!(… e) }`
abbrev pub in_context : {A : Type 0} → Outcome A × World → Outcome A × World
in_context (ok a, w) = (ok a, w)
in_context (err e, w) = (err (Error.context e), w)
in_context (panic, w) = (panic, w)
in_context (blocked, w) = (blocked, w)
in_context (stuck, w) = (stuck, w)

-- `.is_ok()`, with its result dropped.
abbrev pub ignore_error : Outcome (Unit {0}) × World → Outcome (Unit {0}) × World
ignore_error (ok a, w) = (ok tt, w)
ignore_error (err e, w) = (ok tt, w)
ignore_error (panic, w) = (panic, w)
ignore_error (blocked, w) = (blocked, w)
ignore_error (stuck, w) = (stuck, w)

abbrev pub client_mode : Bytes
client_mode = utf8 "client mode"

module _ (en : Endian) (flags : GlobalFlags) (m : UidMap)
    (lookup : Bytes → Option (List IpAddr)) where
  abbrev pub get_config : Net TutuConfig
  get_config = receive_struct en (tutu_config_layout en) tutu_cmd_get_config tutu_attr_config none

  abbrev pub set_config : TutuConfig → Net (Unit {0})
  set_config cfg =
      send_struct en (tutu_config_layout en) tutu_cmd_set_config tutu_attr_config cfg true

  abbrev pub send_ingress : ℕ → TutuIngress → Net (Unit {0})
  send_ingress cmd ingress =
      send_struct en (tutu_ingress_layout en) cmd tutu_attr_ingress ingress true

  abbrev pub send_egress : ℕ → TutuEgress → Net (Unit {0})
  send_egress cmd egress = send_struct en (tutu_egress_layout en) cmd tutu_attr_egress egress true

  abbrev pub send_user_info : ℕ → TutuUserInfo → Net (Unit {0})
  send_user_info cmd info =
      send_struct en (tutu_user_info_layout en) cmd tutu_attr_user_info info true

  unfoldable pub cmd_server : List Bytes → Net (Unit {0})
  unfolding parse_max_age
  cmd_server args = do max_age ← lift (parse_max_age args 60); set_config (config max_age 1)

  unfoldable pub cmd_client : List Bytes → Net (Unit {0})
  cmd_client args = do println client_mode; set_config (config 0 0)

  -- What is left once the module's mode is known to be the client's.
  unfoldable pub add_peer : Options → Net (Unit {0})
  unfolding xor_key_of
  add_peer o = do
    in6 ← lift (resolve_ip flags (lookup o.address))
    key ← lift (xor_key_of o.xor_hex)
    λ w. in_context (
        send_ingress tutu_cmd_update_ingress
          (ingress_of o.uid in6 (htons en o.port) key tutu_noexist) w)
    send_egress tutu_cmd_update_egress (egress_of en o in6 key)

  unfoldable pub cmd_client_add : List Bytes → Net (Unit {0})
  unfolding parse_options add_peer
  cmd_client_add args = do
    o ← lift (parse_options m client_add_words args nothing_set)
    if o.address =b [] || o.port == 0 || not o.uid_set then lift (err Error.incomplete) else (do
      cfg ← get_config
      if not (cfg.is_server == 0) then lift (err Error.wrong_mode) else add_peer o)

  -- The handler of the dump: the last entry with the user and the address.
  unfoldable pub matching : ℕ → In6Addr → TutuEgress → Option TutuEgress → Net (Option TutuEgress)
  matching uid in6 e found =
      pure (if e.value.uid == uid && e.key.address.octets =b in6.octets then some e else found)

  unfoldable pub delete_egress : Option TutuEgress → Net (Unit {0})
  delete_egress none = pure tt
  delete_egress (some e) = send_egress tutu_cmd_delete_egress e

  unfoldable pub cmd_client_del : List Bytes → Net (Unit {0})
  unfolding parse_options matching delete_egress
  cmd_client_del args = do
    o ← lift (parse_options m client_del_words args nothing_set)
    if o.address =b [] || not o.uid_set then lift (err Error.incomplete) else (do
      in6 ← lift (resolve_ip flags (lookup o.address))
      found ←
          dump_structs en (tutu_egress_layout en) tutu_cmd_get_egress tutu_attr_egress
            (matching o.uid in6) none
      delete_egress found
      λ w. ignore_error (
          send_ingress tutu_cmd_delete_ingress
            (ingress_of o.uid in6 0 (replicate tutu_xor_key_max 0, 0) 0) w))

  -- What is left once the module's mode is known to be the server's.
  unfoldable pub add_user : Options → Net (Unit {0})
  unfolding xor_key_of
  add_user o = do
    in6 ← lift (resolve_ip flags (lookup o.address))
    key ← lift (xor_key_of o.xor_hex)
    send_user_info tutu_cmd_update_user_info (user_info_of en o in6 key)

  unfoldable pub cmd_server_add : List Bytes → Net (Unit {0})
  unfolding parse_options add_user
  cmd_server_add args = do
    o ← lift (parse_options m server_add_words args nothing_set)
    if not o.uid_set || o.address =b [] || o.port == 0 then lift (err Error.incomplete) else (do
      cfg ← get_config
      if cfg.is_server == 0 then lift (err Error.wrong_mode) else add_user o)

  unfoldable pub cmd_server_del : List Bytes → Net (Unit {0})
  unfolding parse_options
  cmd_server_del args = do
    o ← lift (parse_options m server_del_words args nothing_set)
    if not o.uid_set
        then lift (err Error.incomplete)
        else send_user_info tutu_cmd_delete_user_info (deleted_user o.uid)
