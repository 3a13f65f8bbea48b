-- ===== src/Tests/Netlink.antt =====
-- ktuctl-rs/src/netlink.rs and ktuctl-rs/src/config.rs: runs, and the theorems at inputs.
use ktuctl_rs.Prelude.{
  ℕ, ◌+◌, ◌-◌, ◌^◌, ◌≤◌, ◌≡◌, refl, List, [], ◌∷◌, ◌++◌, arith, length, replicate, some, none, true,
}
use ktuctl_rs.Bytes.{Endian, Bytes, to_ne_bytes, from_ne_bytes, htons, ntohs}
use ktuctl_rs.Outcome.{ok, err, Error}
use ktuctl_rs.World.{World, Net, pure}
use ktuctl_rs.Protocol.Layout.{read_from_prefix}
use ktuctl_rs.Protocol.Structs.{TutuEgress, TutuConfig, tutu_config_layout}
use ktuctl_rs.Protocol.Image.{Kind, c_image}
use ktuctl_rs.Protocol.RoundTrip.{layout_of, read_from_prefix-as_bytes}
use ktuctl_rs.Netlink.Attr.{push_nlattr, push_attrs, parse_attrs, parse_attrs_loop}
use ktuctl_rs.Netlink.Attr.RoundTrip.{parse_attrs-push_attrs}
use ktuctl_rs.Netlink.Attr.Bounds.{wire_len, parse_attrs_bounds}
use ktuctl_rs.Netlink.Message.{build_packet_genl_msg}
use ktuctl_rs.Netlink.Loop.{recv_loop, message_at, attrs_at}
use ktuctl_rs.Netlink.Datagram.{Message, header, encode_messages, inbox_of, run_datagrams}
use ktuctl_rs.Netlink.Refinement.{recv_loop-run_datagrams}
use ktuctl_rs.Netlink.Answers.{ack_answer, ack_handler-Agrees}
use ktuctl_rs.Netlink.Exchange.{
  find_family_id, ack_handler, send_payload, send_struct, send_string, receive_struct, dump_structs,
  dump_strings,
}
use ktuctl_rs.Netlink.Progress.{Runs}
use ktuctl_rs.Netlink.Termination.{exchanges-Runs}
use ktuctl_rs.Netlink.Request.{request_message, attrs_at-build_packet_genl_msg}
use ktuctl_rs.Netlink.Dumps.{dump_inbox, dump_structs-feed}
use ktuctl_rs.Netlink.Delivery.{
  NamesFamily, Acknowledges, kernel_says, family_request, send_payload-acknowledged,
}

abbrev pub le : Endian
le = Endian.little

program : Unit {0}
unfolding to_ne_bytes from_ne_bytes push_nlattr push_attrs parse_attrs build_packet_genl_msg htons
    ntohs
program = tt

abbrev two_attrs : List (ℕ × Bytes)
two_attrs = (1, 7 ∷ 8 ∷ 9 ∷ []) ∷ (2, []) ∷ []

pushed : push_attrs le [] two_attrs ≡ 7 ∷ 0 ∷ 1 ∷ 0 ∷ 7 ∷ 8 ∷ 9 ∷ 0 ∷ 4 ∷ 0 ∷ 2 ∷ 0 ∷ []
unfolding program
pushed = refl

-- A length beyond the input ends the loop.
parsed_short : parse_attrs le (9 ∷ 0 ∷ 1 ∷ 0 ∷ 7 ∷ []) ≡ []
unfolding program
parsed_short = refl

parse_attrs-push_attrs_example : parse_attrs le (push_attrs le [] two_attrs) ≡ two_attrs
parse_attrs-push_attrs_example = parse_attrs-push_attrs le two_attrs (omega arith)

parse_attrs_bounds_example :
    (wire_len le (parse_attrs le (7 ∷ 0 ∷ 1 ∷ 0 ∷ 7 ∷ 8 ∷ 9 ∷ [])) ≤ 7)
    × (parse_attrs_loop le 9 (7 ∷ 0 ∷ 1 ∷ 0 ∷ 7 ∷ 8 ∷ 9 ∷ [])
        ≡ parse_attrs le (7 ∷ 0 ∷ 1 ∷ 0 ∷ 7 ∷ 8 ∷ 9 ∷ []))
parse_attrs_bounds_example = parse_attrs_bounds le (7 ∷ 0 ∷ 1 ∷ 0 ∷ 7 ∷ 8 ∷ 9 ∷ []) 9 (omega arith)

htons_443 : htons le 443 ≡ 0xbb01
unfolding program
htons_443 = refl

abbrev server_config : TutuConfig
server_config = record {
  session_max_age = 60;
  reserved0 = 0;
  is_server = 1;
  reserved1 = 0 ∷ 0 ∷ [];
}

abbrev egress_entry : TutuEgress
egress_entry = record {
  key = record { address = record { octets = replicate 16 1 }; port = 7000; pad0 = replicate 2 0 };
  value = record { xor_key = replicate 64 7; comment = replicate 22 0; xor_key_len = 3; uid = 9 };
  pad0 = replicate 4 0;
  map_flags = 1;
}

read_from_prefix-as_bytes_example :
    ((layout_of le Kind.egress).as_bytes egress_entry ≡ c_image le Kind.egress egress_entry)
    × (length (c_image le Kind.egress egress_entry) ≡ 120)
    × (read_from_prefix (layout_of le Kind.egress) (c_image le Kind.egress egress_entry ++ (9 ∷ []))
        ≡ some egress_entry)
    × ((layout_of le Kind.egress).as_bytes ((layout_of le Kind.egress).read (replicate 130 5))
        ≡ replicate 120 5)
read_from_prefix-as_bytes_example =
    read_from_prefix-as_bytes le Kind.egress egress_entry (9 ∷ []) (replicate 130 5) (omega arith)
      (omega arith) (omega arith)

attrs_at-build_packet_genl_msg_example :
    (message_at le (build_packet_genl_msg le 20 5 2 0 2 1 two_attrs) 0
      ≡ ok (header (request_message le 20 5 2 0 2 1 two_attrs)))
    × (attrs_at le (build_packet_genl_msg le 20 5 2 0 2 1 two_attrs) 0 32 ≡ ok two_attrs)
unfolding program
attrs_at-build_packet_genl_msg_example =
    attrs_at-build_packet_genl_msg le 20 5 2 0 2 1 two_attrs (omega arith) (omega arith)
      (omega arith) (omega arith) (omega arith) (omega arith)

-- A kernel that names family 20, and one message that acknowledges the second request.
abbrev pub family_20 : Message
family_20 = record {
  type = 16;
  flags = 0;
  seq = 1;
  pid = 9;
  body = 1 ∷ 2 ∷ 0 ∷ 0 ∷ 6 ∷ 0 ∷ 1 ∷ 0 ∷ 20 ∷ 0 ∷ 0 ∷ 0 ∷ [];
}

abbrev ack_17 : Message
ack_17 = record {
  type = 2;
  flags = 0;
  seq = 2;
  pid = 9;
  body = 0xef ∷ 0xff ∷ 0xff ∷ 0xff ∷ replicate 16 0;
}

abbrev pub outside : World
outside = record { conversations = []; sent = []; printed = [] }

images : Unit {0}
unfolding to_ne_bytes from_ne_bytes encode_messages parse_attrs find_family_id
images = tt

pub family_20-NamesFamily : NamesFamily le 20 family_20
unfolding images
family_20-NamesFamily = record {
  fits = (omega arith, omega arith);
  seq = refl;
  data_type = (omega arith, omega arith);
  names = refl;
}

ack_17-Acknowledges : Acknowledges le (2 ^ 32 - 17) ack_17
unfolding images
ack_17-Acknowledges = record {
  fits = (omega arith, omega arith);
  seq = refl;
  error_type = refl;
  code = omega arith;
  echo = replicate 16 0;
  body = refl;
  echo_len = omega arith;
}

-- The kernel answers -17, EEXIST, and that is the error.
send_payload-acknowledged_example :
    send_payload le 10 4 (1 ∷ 2 ∷ []) true (record outside {
      conversations =
          kernel_says le (
            some (encode_messages le (family_20 ∷ []))
            ∷ some (encode_messages le (ack_17 ∷ []))
            ∷ [])
          ∷ [];
    })
    ≡ (
      err (Error.netlink_error 17),
      record outside {
        sent =
            family_request le ∷ build_packet_genl_msg le 20 5 2 0 10 1 ((4, 1 ∷ 2 ∷ []) ∷ []) ∷ [];
      },
    )
send_payload-acknowledged_example =
    send_payload-acknowledged le 20 family_20 (2 ^ 32 - 17) ack_17 [] [] outside 10 4 (1 ∷ 2 ∷ [])
      family_20-NamesFamily ack_17-Acknowledges

recv_loop-run_datagrams_example :
    recv_loop le 2 (ack_handler le) (inbox_of le ((family_20 ∷ ack_17 ∷ []) ∷ [])) tt outside
    ≡ run_datagrams le 2 (ack_answer le) ((family_20 ∷ ack_17 ∷ []) ∷ []) tt outside
unfolding images
recv_loop-run_datagrams_example =
    recv_loop-run_datagrams le 2 (ack_handler le) (ack_answer le) (ack_handler-Agrees le)
      ((family_20 ∷ ack_17 ∷ []) ∷ []) tt outside (omega arith)

abbrev counts : {A : Type 0} → A → ℕ → Net ℕ
counts a n = pure (n + 1)

counts-Runs : {A : Type 0} (a : A) (n : ℕ) → Runs (counts a n)
counts-Runs a n w e = cc

exchanges-Runs_example :
    Runs (send_struct le (tutu_config_layout le) 2 1 server_config true)
    × Runs (send_string le 2 1 (b'e' ∷ []) true)
    × Runs (receive_struct le (tutu_config_layout le) 2 1 none)
    × Runs (dump_structs le (tutu_config_layout le) 2 1 counts 0)
    × Runs (dump_strings le 2 1 counts 0)
exchanges-Runs_example =
    exchanges-Runs le (tutu_config_layout le) 2 1 server_config (b'e' ∷ []) true none counts counts
      0 counts-Runs counts-Runs

-- The kernel sends one entry, and then the end.
abbrev pub done_2 : Message
done_2 = record { type = 3; flags = 2; seq = 2; pid = 9; body = 0 ∷ 0 ∷ 0 ∷ 0 ∷ [] }

abbrev collect : TutuConfig → List TutuConfig → Net (List TutuConfig)
collect c cs = pure (c ∷ cs)

dump_structs-feed_example :
    dump_structs le (tutu_config_layout le) 3 2 collect [] (record outside {
      conversations =
          kernel_says le (
            some (encode_messages le (family_20 ∷ []))
            ∷ dump_inbox le
                (tutu_config_layout le)
                20
                2
                9
                done_2
                []
                ((server_config ∷ []) ∷ [])
                (server_config ∷ []))
          ∷ [];
    })
    ≡ (
      ok (server_config ∷ server_config ∷ []),
      record outside {
        sent = family_request le ∷ build_packet_genl_msg le 20 0x301 2 0 3 1 [] ∷ [];
      },
    )
unfolding images
dump_structs-feed_example =
    dump_structs-feed le (tutu_config_layout le) 20 2 9 (omega arith, omega arith) (omega arith)
      (omega arith) collect done_2 refl refl [] family_20 ((server_config ∷ []) ∷ [])
      (server_config ∷ []) [] outside 3 [] family_20-NamesFamily
      (((omega arith, tt), (omega arith, omega arith)), tt) (omega arith, tt)
      (omega arith, omega arith)
