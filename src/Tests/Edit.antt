-- ===== src/Tests/Edit.antt =====
-- The commands of ktuctl-rs/src/commands.rs: runs, and the theorems at inputs.
use ktuctl_rs.Prelude.{
  ℕ, zero, suc, ◌≡◌, ◌≢◌, refl, sym, ap, ◌∙◌, All, List, [], ◌∷◌, arith, replicate, Option, some,
  none, true, false,
}
use ktuctl_rs.Bytes.{Bytes, IsByte, htons, to_ne_bytes, from_ne_bytes}
use ktuctl_rs.Address.{IpAddr, v6}
use ktuctl_rs.Outcome.{Outcome, ok}
use ktuctl_rs.World.{World, Conversation}
use ktuctl_rs.Protocol.Constants.{
  tutu_cmd_update_ingress, tutu_cmd_update_egress, tutu_noexist, tutu_any,
}
use ktuctl_rs.Protocol.Structs.{In6Addr, TutuConfig}
use ktuctl_rs.Netlink.Datagram.{Message, encode_messages}
use ktuctl_rs.Netlink.Exchange.{send_struct, receive_struct}
use ktuctl_rs.Netlink.Socket.{connect, send, next_seq}
use ktuctl_rs.Netlink.Loop.{recv_loop, walk, message_at, attrs_at}
use ktuctl_rs.Netlink.Message.{parse_nlmsghdr, parse_genlhdr, check_nlmsg_error}
use ktuctl_rs.Netlink.Attr.{parse_attrs}
use ktuctl_rs.Netlink.Delivery.{kernel_says}
use ktuctl_rs.Control.UidMap.{get_uid}
use ktuctl_rs.Control.Names.{GlobalFlags, resolve_ip, resolve_uid}
use ktuctl_rs.Number.{parse_unsigned, parse_digits}
use ktuctl_rs.Control.XorKey.{format_xor_key}
use ktuctl_rs.Control.Comment.{copy_comment}
use ktuctl_rs.Control.Options.{nothing_set, parse_options, client_add_words, server_add_words}
use ktuctl_rs.Control.Options.RoundTrip.{
  client_words, server_words, parse_options-client_words, parse_options-server_words,
}
use ktuctl_rs.Control.Edit.Sends.{cmd_client_add-client_words}
use ktuctl_rs.Control.Edit.Modes.{Refuses, cmd_client_add-Refuses, cmd_server_add-Refuses}
use ktuctl_rs.Control.Edit.{
  get_config, send_ingress, send_egress, ingress_of, cmd_client_add, cmd_server_add,
}
use ktuctl_rs.Tests.Netlink.{le, family_20, outside}

abbrev pub client_config : TutuConfig
client_config = record { session_max_age = 0; reserved0 = 0; is_server = 0; reserved1 = 0 ∷ 0 ∷ [] }

-- The module's answer to `get_config`, with the configuration as attribute 1.
abbrev config_answer : ℕ → Message
config_answer is_server = record {
  type = 20;
  flags = 0;
  seq = 2;
  pid = 9;
  body = 2 ∷ 1 ∷ 0 ∷ 0 ∷ 12 ∷ 0 ∷ 1 ∷ 0 ∷ 0 ∷ 0 ∷ 0 ∷ 0 ∷ 0 ∷ is_server ∷ 0 ∷ 0 ∷ [];
}

abbrev ack_0 : Message
ack_0 = record { type = 2; flags = 0; seq = 2; pid = 9; body = replicate 20 0 }

abbrev pub flags : GlobalFlags
flags = record { numeric = false; debug = false; ip_family = none }

abbrev pub lookup : Bytes → Option (List IpAddr)
lookup name = some (v6 (replicate 16 1) ∷ [])

abbrev pub asked : ℕ → List Conversation → World
asked is_server rest = record outside {
  conversations =
      kernel_says le (
        some (encode_messages le (family_20 ∷ []))
        ∷ some (encode_messages le (config_answer is_server ∷ []))
        ∷ [])
      ∷ rest;
}

with_world : {A : Type 0} (r : Outcome A × World) (o : Outcome A) → r.0 ≡ o → r ≡ (o, r.1)
with_world r o e = ap (λ x. (x, r.1)) e

-- Everything that an exchange runs through.
images : Unit {0}
unfolding receive_struct connect send next_seq recv_loop walk encode_messages to_ne_bytes message_at
    parse_nlmsghdr from_ne_bytes attrs_at parse_genlhdr parse_attrs
images = tt

abbrev acked : Conversation
acked =
    kernel_says le
      (some (encode_messages le (family_20 ∷ [])) ∷ some (encode_messages le (ack_0 ∷ [])) ∷ [])

abbrev pub before : World
before = asked 0 (acked ∷ [])

abbrev pub configured : World
configured = (get_config le flags [] lookup before).1

pub got : get_config le flags [] lookup before ≡ (ok client_config, configured)
unfolding images
got = with_world (get_config le flags [] lookup before) (ok client_config) refl

abbrev pub key : Bytes
key = 7 ∷ replicate 63 0

abbrev pub in6 : In6Addr
in6 = record { octets = replicate 16 1 }

abbrev pub sent : World
sent =
    (send_ingress le flags [] lookup tutu_cmd_update_ingress
      (ingress_of 7 in6 (htons le 3322) (key, 1) tutu_noexist) configured).1

pub accepted :
    send_ingress le flags [] lookup tutu_cmd_update_ingress
      (ingress_of 7 in6 (htons le 3322) (key, 1) tutu_noexist)
      configured
    ≡ (ok tt, sent)
unfolding images send_struct check_nlmsg_error
accepted = with_world _ (ok tt) refl

-- "::1"
abbrev pub host : Bytes
host = b':' ∷ b':' ∷ b'1' ∷ []

pub seven : resolve_uid [] (b'7' ∷ []) ≡ ok 7
unfolding resolve_uid get_uid parse_unsigned parse_digits
seven = refl

client_arguments_read :
    parse_options [] client_add_words
      (client_words false (b'7' ∷ []) host 3322 [] (b'c' ∷ []))
      nothing_set
    ≡ ok (record {
      address = host;
      port = 3322;
      icmp_id = 0;
      uid = 7;
      uid_set = true;
      comment = b'c' ∷ [];
      xor_hex = [];
    })
client_arguments_read =
    parse_options-client_words [] false (b'7' ∷ []) host [] (b'c' ∷ []) 7 3322 seven (omega arith)

server_arguments_read :
    parse_options [] server_add_words
      (server_words false (b'7' ∷ []) host 9 3322 (b'0' ∷ b'7' ∷ []) [])
      nothing_set
    ≡ ok (record {
      address = host;
      port = 3322;
      icmp_id = 9;
      uid = 7;
      uid_set = true;
      comment = [];
      xor_hex = b'0' ∷ b'7' ∷ [];
    })
server_arguments_read =
    parse_options-server_words [] false (b'7' ∷ []) host (b'0' ∷ b'7' ∷ []) [] 7 9 3322 seven
      (omega arith) (omega arith)

-- A module in server mode.
abbrev pub server_answer : TutuConfig
server_answer = record { session_max_age = 0; reserved0 = 0; is_server = 1; reserved1 = 0 ∷ 0 ∷ [] }

pub got_server :
    get_config le flags [] lookup (asked 1 [])
    ≡ (ok server_answer, (get_config le flags [] lookup (asked 1 [])).1)
unfolding images
got_server = with_world (get_config le flags [] lookup (asked 1 [])) (ok server_answer) refl

abbrev is_server_of : Outcome TutuConfig → ℕ
is_server_of (ok cfg) = cfg.is_server
is_server_of _ = 0

cmd_client_add-Refuses_example :
    Refuses le
      (cmd_client_add le flags [] lookup (client_words false (b'7' ∷ []) host 3322 [] (b'c' ∷ [])))
      (asked 1 [])
cmd_client_add-Refuses_example =
    cmd_client_add-Refuses le flags [] lookup
      (client_words false (b'7' ∷ []) host 3322 [] (b'c' ∷ [])) (asked 1 [])
      (λ cfg e.
        let same : 1 ≡ cfg.is_server = ap is_server_of (sym (ap (λ r. r.0) got_server) ∙ e) in
        omega (arith, same))

cmd_server_add-Refuses_example :
    Refuses le
      (cmd_server_add le flags [] lookup
        (server_words false (b'7' ∷ []) host 9 3322 (b'0' ∷ b'7' ∷ []) []))
      before
cmd_server_add-Refuses_example =
    cmd_server_add-Refuses le flags [] lookup
      (server_words false (b'7' ∷ []) host 9 3322 (b'0' ∷ b'7' ∷ []) []) before
      (λ cfg e. sym (ap is_server_of (sym (ap (λ r. r.0) got) ∙ e)))

pub some_host : host ≢ []
some_host e = ground (arith, e)

zeros-bytes : (n : ℕ) → All IsByte (replicate n 0)
zeros-bytes zero = tt
zeros-bytes (suc n) = (omega arith, zeros-bytes n)

pub key-bytes : All IsByte key
key-bytes = (omega arith, zeros-bytes 63)

cmd_client_add-client_words_example :
    cmd_client_add le flags [] lookup
      (client_words false (b'7' ∷ []) host 3322 (format_xor_key key 1) (b'c' ∷ []))
      before
    ≡ send_egress le flags [] lookup tutu_cmd_update_egress
        (record {
          key = record { address = in6; port = htons le 3322; pad0 = replicate 2 0 };
          value = record {
            xor_key = key;
            comment = copy_comment (b'c' ∷ []);
            xor_key_len = 1;
            uid = 7;
          };
          pad0 = replicate 4 0;
          map_flags = tutu_any;
        })
        sent
cmd_client_add-client_words_example =
    cmd_client_add-client_words le flags [] lookup false (b'7' ∷ []) host (b'c' ∷ []) key 7 3322 1
      in6 before configured sent client_config seven some_host (omega arith) (omega arith) key-bytes
      refl (omega arith) refl (unfold resolve_ip in refl) got refl accepted
