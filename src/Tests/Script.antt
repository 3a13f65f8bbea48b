-- ===== src/Tests/Script.antt =====
-- A script of one line of a dump (ktuctl-rs/src/commands.rs), with a resolver that answers one address
-- and a `shlex::split` that splits at spaces.
use ktuctl_rs.Prelude.{
  map, sym, append-nil, ◌≡◌, ◌≢◌, refl, ap, ◌∙◌, All, List, [], ◌∷◌, ◌++◌, append_assoc, Option,
  some, none, true, false, arith, ◌==◌,
}
use ktuctl_rs.Bytes.{Bytes, ntohs, htons, to_ne_bytes, from_ne_bytes}
use ktuctl_rs.Text.{utf8}
use ktuctl_rs.Text.Whitespace.{split_at}
use ktuctl_rs.Number.{decimal, push_digits}
use ktuctl_rs.Protocol.Constants.{
  tutu_any, tutu_cmd_update_egress, tutu_attr_config, tutu_cmd_get_config, tutu_attr_egress,
  tutu_cmd_get_egress,
}
use ktuctl_rs.Control.Names.{resolve_ip, resolve_hostname}
use ktuctl_rs.Control.UidMap.{get_host}
use ktuctl_rs.Control.AddressText.{
  ip_to_string, to_ipv4, segments, ipv6_text, colons, compressed, hex, push_hex, longest_zeros,
}
use ktuctl_rs.Control.AddressText.Plain.{Safe}
use ktuctl_rs.Control.Options.Words
use ktuctl_rs.World.{and_then}
use ktuctl_rs.Outcome.{ok}
use ktuctl_rs.Control.Script.Whole.{Peer, IsPlainPeer, add_peers}
use ktuctl_rs.Control.Edit.{cmd_client, send_egress}
use ktuctl_rs.Control.Listing.Lines.{dump_egress}
use ktuctl_rs.Control.Script.{Outside, in_place, run_lines, cmd_script}
use ktuctl_rs.Control.Script.Solid.{IsWord, joined}
use ktuctl_rs.Control.Script.OneLine.{SplitsWords}
use ktuctl_rs.Control.Script.DumpLine.{peer}
use ktuctl_rs.Control.Script.Restore.{run_lines-dump_egress_restores}
use ktuctl_rs.Tests.Netlink.{le, family_20, family_20-NamesFamily, done_2, outside}
use ktuctl_rs.Control.Script.Whole.{entry_of}
use ktuctl_rs.Control.Listing.{cmd_dump}
use ktuctl_rs.Control.Listing.Answered.{client_dump}
use ktuctl_rs.Control.Script.Reload.{cmd_script-cmd_dump}
use ktuctl_rs.Text.Lines.{text_of, lines}
use ktuctl_rs.Netlink.Kernel.{asked, AnswersStruct, AnswersDump, struct_said, dump_said}
use ktuctl_rs.Netlink.Datagram.{encode_messages}
use ktuctl_rs.Protocol.Structs.{tutu_config_layout, tutu_egress_layout}
use ktuctl_rs.Control.Comment.{copy_comment}
use ktuctl_rs.Tests.Edit.{
  flags, lookup, client_config, before, configured, got, key, in6, sent, accepted, seven, key-bytes,
}

abbrev pub split_words : Bytes → Option (List Bytes)
split_words [] = some []
split_words (b ∷ bs) = some (split_at b' ' [] (b ∷ bs))

-- The world outside: nothing to read, and an address for every name.
abbrev pub surroundings : Outside
surroundings = record {
  lookup = λ w. lookup;
  time = λ w. utf8 "now";
  show = λ e. utf8 "error";
  shlex = split_words;
  stdin = [];
  open_file = λ path. none;
}

split_at-Safe :
    (piece v rest : Bytes)
    → Safe v
    → split_at b' ' piece (v ++ (b' ' ∷ rest)) ≡ (piece ++ v) ∷ split_at b' ' [] rest
unfolding split_at
split_at-Safe piece [] rest h = ap (λ x. x ∷ split_at b' ' [] rest) (sym (append-nil piece))
split_at-Safe piece (b ∷ v) rest (hb, h) =
    let other : (b == b' ') ≡ false = ground (arith, hb) in
    rw (other, split_at)
      (split_at-Safe (piece ++ (b ∷ [])) v rest h
        ∙ ap (λ x. x ∷ split_at b' ' [] rest) (append_assoc piece (b ∷ []) v))

split_at-Safe_last : (piece v : Bytes) → Safe v → split_at b' ' piece v ≡ (piece ++ v) ∷ []
unfolding split_at
split_at-Safe_last piece [] h = ap (λ x. x ∷ []) (sym (append-nil piece))
split_at-Safe_last piece (b ∷ v) (hb, h) =
    let other : (b == b' ') ≡ false = ground (arith, hb) in
    rw (other, split_at)
      (split_at-Safe_last (piece ++ (b ∷ [])) v h
        ∙ ap (λ x. x ∷ []) (append_assoc piece (b ∷ []) v))

split_at-joined :
    (v : Bytes) (vs : List Bytes)
    → All IsWord (v ∷ vs)
    → split_at b' ' [] (joined (v ∷ vs)) ≡ v ∷ vs
split_at-joined v [] ((_, h), _) = split_at-Safe_last [] v h
split_at-joined v (v' ∷ vs) ((_, h), hs) =
    split_at-Safe [] v (joined (v' ∷ vs)) h ∙ ap (◌∷◌ v) (split_at-joined v' vs hs)

split_words_cons :
    (text v : Bytes) (vs : List Bytes)
    → text ≢ []
    → split_at b' ' [] text ≡ v ∷ vs
    → split_words text ≡ some (v ∷ vs)
split_words_cons [] v vs h e = absurd (h refl)
split_words_cons (b ∷ bs) v vs h e = ap some e

joined_some : (v : Bytes) (vs : List Bytes) → IsWord v → joined (v ∷ vs) ≢ []
joined_some [] vs (h, _) e = h refl
joined_some (b ∷ bs) [] h e = cc
joined_some (b ∷ bs) (v ∷ vs) h e = cc

pub splits : SplitsWords surroundings
splits [] h = refl
splits (v ∷ vs) (hv, h) =
    split_words_cons (joined (v ∷ vs)) v vs (joined_some v vs hv) (split_at-joined v vs (hv, h))

pub shown : resolve_hostname flags [] 7 true ≡ Words.uid ++ (b' ' ∷ b'7' ∷ [])
unfolding resolve_hostname get_host decimal push_digits
shown = refl

pub some_address : ip_to_string in6 ≢ []
unfolding ip_to_string to_ipv4 segments ipv6_text colons compressed hex push_hex longest_zeros
some_address e = cc

pub plain_user : IsWord (b'7' ∷ [])
plain_user = ((λ e. cc), (refl, tt))

run_lines-dump_egress_restores_example :
    run_lines le flags [] surroundings 1
      (some (dump_egress le flags [] (peer le in6 3322 key 1 (utf8 "c") 7 0)) ∷ [])
      before
    ≡ in_place 1 1 (utf8 "client-add") (
        send_egress le flags [] lookup tutu_cmd_update_egress
          (peer le in6 3322 key 1 (utf8 "c") 7 tutu_any)
          sent)
run_lines-dump_egress_restores_example =
    run_lines-dump_egress_restores le flags [] surroundings false (b'7' ∷ []) (utf8 "c") key 7 3322
      1 0 in6 before configured sent client_config splits shown seven plain_user some_address
      (unfold resolve_ip in refl) (omega arith) (omega arith) key-bytes refl (omega arith) refl
      (refl, tt) (omega arith) got refl accepted

abbrev a_peer : Peer
a_peer = record {
  named = false;
  user = b'7' ∷ [];
  in6 = in6;
  port = 3322;
  key = key;
  key_len = 1;
  comment = utf8 "c";
  uid = 7;
  map_flags = 0;
}

a_peer-IsPlainPeer : IsPlainPeer flags [] a_peer
a_peer-IsPlainPeer =
    (shown, plain_user, some_address, omega arith, key-bytes, refl, (refl, tt), omega arith)

-- The kernel has the configuration, and the entry of the peer.
answers_config : AnswersStruct le (tutu_config_layout le) 20 tutu_attr_config 9 client_config
unfolding encode_messages to_ne_bytes
answers_config = record {
  named_by = family_20;
  flags = 0;
  inbox = [];
  names = family_20-NamesFamily;
  valid = omega arith;
  fits = (omega arith, omega arith);
}

answers_peers :
    AnswersDump le (tutu_egress_layout le) 20 tutu_attr_egress 9 (map (entry_of le) (a_peer ∷ []))
unfolding copy_comment encode_messages ntohs htons to_ne_bytes from_ne_bytes
answers_peers = record {
  named_by = family_20;
  done = done_2;
  inbox = [];
  first = [];
  last = entry_of le a_peer ∷ [];
  names = family_20-NamesFamily;
  own = refl;
  ends = refl;
  entries = refl;
  first_fit = tt;
  last_valid = (omega arith, tt);
  last_fits = (omega arith, omega arith);
}

-- What was dumped is on standard input.
abbrev dump_read : Outside
dump_read = record surroundings {
  stdin =
      map some (lines (text_of (client_dump le flags [] (utf8 "now") (entry_of le a_peer ∷ []))));
}

cmd_script-cmd_dump_example :
    (cmd_dump le flags [] (utf8 "now") [] (record outside {
      conversations =
          struct_said le (tutu_config_layout le) 20 tutu_attr_config 9 answers_config
          ∷ dump_said le (tutu_egress_layout le) 20 tutu_attr_egress 9 answers_peers
          ∷ [];
    })
      ≡ (
        ok tt,
        record outside {
          sent = asked le 20 0x301 tutu_cmd_get_egress (asked le 20 1 tutu_cmd_get_config []);
          printed = client_dump le flags [] (utf8 "now") (entry_of le a_peer ∷ []);
        },
      ))
    × (cmd_script le flags [] dump_read (utf8 "-" ∷ []) before
        ≡ and_then
            (in_place 4 1 (utf8 "client") (cmd_client le flags [] (λ name. none) [] before))
            (λ _. add_peers le flags [] dump_read 5 (a_peer ∷ [])))
cmd_script-cmd_dump_example =
    cmd_script-cmd_dump le flags [] dump_read 20 9 (omega arith, omega arith) (utf8 "now") []
      client_config answers_config (a_peer ∷ []) answers_peers [] outside before refl splits
      (omega arith) (a_peer-IsPlainPeer, tt) (omega arith, tt) refl
