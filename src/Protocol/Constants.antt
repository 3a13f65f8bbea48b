-- ===== src/Protocol/Constants.antt =====
-- The constants of ktuctl-rs/src/config.rs: attribute types, commands, map flags, and those of
-- netlink and generic netlink. `TUTU_GENL_FAMILY_NAME` is spelled by its bytes.
use ktuctl_rs.Prelude.{ℕ, [], ◌∷◌}
use ktuctl_rs.Bytes.{Bytes}

abbrev pub tutu_genl_family_name : Bytes
tutu_genl_family_name =
    b't' ∷ b'u' ∷ b't' ∷ b'u' ∷ b'i' ∷ b'c' ∷ b'm' ∷ b'p' ∷ b't' ∷ b'u' ∷ b'n' ∷ b'n' ∷ b'e' ∷ b'l'
    ∷ []

abbrev pub tutu_genl_version : ℕ
tutu_genl_version = 1

abbrev pub tutu_attr_config : ℕ
tutu_attr_config = 1

abbrev pub tutu_attr_stats : ℕ
tutu_attr_stats = 2

abbrev pub tutu_attr_egress : ℕ
tutu_attr_egress = 3

abbrev pub tutu_attr_ingress : ℕ
tutu_attr_ingress = 4

abbrev pub tutu_attr_session : ℕ
tutu_attr_session = 5

abbrev pub tutu_attr_user_info : ℕ
tutu_attr_user_info = 6

abbrev pub tutu_attr_ifname_name : ℕ
tutu_attr_ifname_name = 7

abbrev pub tutu_cmd_get_config : ℕ
tutu_cmd_get_config = 1

abbrev pub tutu_cmd_set_config : ℕ
tutu_cmd_set_config = 2

abbrev pub tutu_cmd_get_stats : ℕ
tutu_cmd_get_stats = 3

abbrev pub tutu_cmd_get_egress : ℕ
tutu_cmd_get_egress = 5

abbrev pub tutu_cmd_delete_egress : ℕ
tutu_cmd_delete_egress = 6

abbrev pub tutu_cmd_update_egress : ℕ
tutu_cmd_update_egress = 7

abbrev pub tutu_cmd_get_ingress : ℕ
tutu_cmd_get_ingress = 8

abbrev pub tutu_cmd_delete_ingress : ℕ
tutu_cmd_delete_ingress = 9

abbrev pub tutu_cmd_update_ingress : ℕ
tutu_cmd_update_ingress = 10

abbrev pub tutu_cmd_get_session : ℕ
tutu_cmd_get_session = 11

abbrev pub tutu_cmd_get_user_info : ℕ
tutu_cmd_get_user_info = 14

abbrev pub tutu_cmd_delete_user_info : ℕ
tutu_cmd_delete_user_info = 15

abbrev pub tutu_cmd_update_user_info : ℕ
tutu_cmd_update_user_info = 16

abbrev pub tutu_cmd_ifname_get : ℕ
tutu_cmd_ifname_get = 17

abbrev pub tutu_cmd_ifname_add : ℕ
tutu_cmd_ifname_add = 18

abbrev pub tutu_cmd_ifname_del : ℕ
tutu_cmd_ifname_del = 19

abbrev pub tutu_any : ℕ
tutu_any = 0

abbrev pub tutu_noexist : ℕ
tutu_noexist = 1

abbrev pub tutu_xor_key_max : ℕ
tutu_xor_key_max = 64

abbrev pub nlmsg_alignto : ℕ
nlmsg_alignto = 4

abbrev pub nla_alignto : ℕ
nla_alignto = 4

abbrev pub genl_id_ctrl : ℕ
genl_id_ctrl = 0x10

abbrev pub ctrl_cmd_getfamily : ℕ
ctrl_cmd_getfamily = 3

abbrev pub ctrl_attr_family_id : ℕ
ctrl_attr_family_id = 1

abbrev pub ctrl_attr_family_name : ℕ
ctrl_attr_family_name = 2

abbrev pub nlm_f_request : ℕ
nlm_f_request = 1

abbrev pub nlm_f_ack : ℕ
nlm_f_ack = 4

abbrev pub nlm_f_dump : ℕ
nlm_f_dump = 0x300

abbrev pub nlmsg_error : ℕ
nlmsg_error = 2

abbrev pub nlmsg_done : ℕ
nlmsg_done = 3
