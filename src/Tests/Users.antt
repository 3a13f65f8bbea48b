-- ===== src/Tests/Users.antt =====
-- Users of a server in ktuctl-rs/src/commands.rs: the theorems at inputs.
use ktuctl_rs.Prelude.{◌≡◌, refl, map, [], ◌∷◌, false, none, some, arith, replicate}
use ktuctl_rs.Bytes.{ntohs, htons, to_ne_bytes, from_ne_bytes}
use ktuctl_rs.Text.{utf8}
use ktuctl_rs.Text.Lines.{text_of, lines}
use ktuctl_rs.Outcome.{ok}
use ktuctl_rs.World.{World, and_then}
use ktuctl_rs.Protocol.Constants.{
  tutu_any, tutu_cmd_get_config, tutu_attr_config, tutu_cmd_get_user_info, tutu_attr_user_info,
  tutu_cmd_update_user_info,
}
use ktuctl_rs.Protocol.Structs.{tutu_config_layout, tutu_user_info_layout}
use ktuctl_rs.Netlink.Datagram.{encode_messages}
use ktuctl_rs.Netlink.Kernel.{
  AnswersStruct, AnswersDump, struct_said, dump_said, asked as requested,
}
use ktuctl_rs.Control.Comment.{copy_comment}
use ktuctl_rs.Control.XorKey.{format_xor_key}
use ktuctl_rs.Control.Names.{resolve_ip}
use ktuctl_rs.Control.Options.RoundTrip.{server_words}
use ktuctl_rs.Control.Edit.{get_config, send_user_info, config, set_config, cmd_server_add}
use ktuctl_rs.Control.Edit.Users.{cmd_server_add-server_words}
use ktuctl_rs.Control.Listing.{cmd_dump}
use ktuctl_rs.Control.Listing.Answered.{server_dump}
use ktuctl_rs.Control.Script.{Outside, in_place, cmd_script}
use ktuctl_rs.Control.Script.Users.{User, user_entry, IsPlainUser, add_users}
use ktuctl_rs.Control.Script.Reload.Users.{cmd_script-cmd_dump_server}
use ktuctl_rs.Tests.Netlink.{le, family_20, family_20-NamesFamily, done_2, outside}
use ktuctl_rs.Tests.Edit.{
  flags, lookup, asked, server_answer, got_server, host, some_host, key, in6, seven, key-bytes,
  before,
}
use ktuctl_rs.Tests.Script.{surroundings, splits, shown, some_address, plain_user}

abbrev server_configured : World
server_configured = (get_config le flags [] lookup (asked 1 [])).1

cmd_server_add-server_words_example :
    cmd_server_add le flags [] lookup
      (server_words false (b'7' ∷ []) host 9 3322 (format_xor_key key 1) (b'c' ∷ []))
      (asked 1 [])
    ≡ send_user_info le flags [] lookup tutu_cmd_update_user_info
        (record {
          uid = 7;
          pad0 = replicate 3 0;
          value = record {
            address = in6;
            icmp_id = htons le 9;
            dport = htons le 3322;
            comment = copy_comment (b'c' ∷ []);
            xor_key = key;
            xor_key_len = 1;
            reserved2 = replicate 7 0;
            pad1 = replicate 2 0;
          };
          map_flags = tutu_any;
        })
        server_configured
cmd_server_add-server_words_example =
    cmd_server_add-server_words le flags [] lookup false (b'7' ∷ []) host (b'c' ∷ []) key 7 9 3322 1
      in6 (asked 1 []) server_configured server_answer seven some_host (omega arith) (omega arith)
      (omega arith) key-bytes refl (omega arith) refl (unfold resolve_ip in refl) got_server refl

abbrev a_user : User
a_user = record {
  named = false;
  user = b'7' ∷ [];
  in6 = in6;
  icmp_id = 9;
  port = 3322;
  key = key;
  key_len = 1;
  comment = utf8 "c";
  uid = 7;
  map_flags = 0;
}

a_user-IsPlainUser : IsPlainUser flags [] a_user
a_user-IsPlainUser = (
  shown,
  plain_user,
  some_address,
  omega arith,
  omega arith,
  key-bytes,
  refl,
  (refl, tt),
  omega arith,
)

-- The kernel has the configuration, and the user.
answers_config : AnswersStruct le (tutu_config_layout le) 20 tutu_attr_config 9 server_answer
unfolding encode_messages to_ne_bytes
answers_config = record {
  named_by = family_20;
  flags = 0;
  inbox = [];
  names = family_20-NamesFamily;
  valid = omega arith;
  fits = (omega arith, omega arith);
}

answers_users :
    AnswersDump le
      (tutu_user_info_layout le)
      20
      tutu_attr_user_info
      9
      (map (user_entry le) (a_user ∷ []))
unfolding copy_comment encode_messages ntohs htons to_ne_bytes from_ne_bytes
answers_users = record {
  named_by = family_20;
  done = done_2;
  inbox = [];
  first = [];
  last = user_entry le a_user ∷ [];
  names = family_20-NamesFamily;
  own = refl;
  ends = refl;
  entries = refl;
  first_fit = tt;
  last_valid = (omega arith, tt);
  last_fits = (omega arith, omega arith);
}

-- What was dumped is on standard input.
abbrev dump_read : Outside
dump_read = record surroundings {
  stdin =
      map some
        (lines (text_of (server_dump le flags [] (utf8 "now") 0 (user_entry le a_user ∷ []))));
}

cmd_script-cmd_dump_server_example :
    (cmd_dump le flags [] (utf8 "now") [] (record outside {
      conversations =
          struct_said le (tutu_config_layout le) 20 tutu_attr_config 9 answers_config
          ∷ dump_said le (tutu_user_info_layout le) 20 tutu_attr_user_info 9 answers_users
          ∷ [];
    })
      ≡ (
        ok tt,
        record outside {
          sent =
              requested le 20 0x301 tutu_cmd_get_user_info
                (requested le 20 1 tutu_cmd_get_config []);
          printed = server_dump le flags [] (utf8 "now") 0 (user_entry le a_user ∷ []);
        },
      ))
    × (cmd_script le flags [] dump_read (utf8 "-" ∷ []) before
        ≡ and_then
            (in_place 4 1
              (utf8 "server")
              (set_config le flags [] (λ name. none) (config 0 1) before))
            (λ _. add_users le flags [] dump_read 6 (a_user ∷ [])))
cmd_script-cmd_dump_server_example =
    cmd_script-cmd_dump_server le flags [] dump_read 20 9 (omega arith, omega arith) (utf8 "now") []
      server_answer answers_config (a_user ∷ []) answers_users [] outside before refl splits
      (omega arith) (a_user-IsPlainUser, tt) refl
