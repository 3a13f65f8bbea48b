-- ===== src/Netlink/Kernel.antt =====
-- A kernel that answers `receive_struct` and `dump_structs` of ktuctl-rs/src/netlink.rs: what it says on
-- a socket, by what it has to say.
use ktuctl_rs.Prelude.{
  ℕ, ◌+◌, ◌^◌, ◌<◌, ◌≡◌, ◌≢◌, ap, ◌∙◌, List, [], ◌∷◌, ◌++◌, map, some, none, All,
}
use ktuctl_rs.Bytes.{Endian, Bytes}
use ktuctl_rs.Outcome.{ok}
use ktuctl_rs.World.{World, Conversation, Net}
use ktuctl_rs.World.Chaining.{feed, entries_of}
use ktuctl_rs.Protocol.Constants.{
  tutu_genl_version, nlm_f_request, nlm_f_dump, nlmsg_error, nlmsg_done,
}
use ktuctl_rs.Protocol.Layout.{Layout}
use ktuctl_rs.Netlink.Message.{build_packet_genl_msg}
use ktuctl_rs.Netlink.Loop.{Inbox}
use ktuctl_rs.Netlink.Datagram.{Message, FitsBuffer, encode_messages}
use ktuctl_rs.Netlink.Exchange.{receive_struct, dump_structs}
use ktuctl_rs.Netlink.Delivery.{NamesFamily, kernel_says, family_request}
use ktuctl_rs.Netlink.Replies.{reply_message, receive_struct-reply}
use ktuctl_rs.Netlink.Dumps.{entry_message, dump_inbox, dump_structs-feed}

-- What is sent on a socket: the request for the family's id, and one for `cmd`.
abbrev pub asked : Endian → ℕ → ℕ → ℕ → List Bytes → List Bytes
asked en id flags cmd sent =
    (sent ++ (family_request en ∷ []))
    ++ (build_packet_genl_msg en id flags 2 0 cmd tutu_genl_version [] ∷ [])

-- A number that is neither of an error nor of an end.
abbrev pub IsFamily : ℕ → Type 0
IsFamily id = (id ≢ nlmsg_error) × (id ≢ nlmsg_done)

module _ (en : Endian) {T : Type 0} (l : Layout T) (id attr_type pid : ℕ) where
  -- The kernel names the family, and answers with the struct; its fields fit their widths.
  pub record AnswersStruct (t : T) : Type 0 where
    pub named_by : Message
    pub flags : ℕ
    pub inbox : Inbox
    pub names : NamesFamily en id named_by
    pub valid : l.IsValid t
    pub fits : FitsBuffer en (reply_message en l id attr_type flags pid t ∷ [])

  abbrev pub struct_said : {t : T} → AnswersStruct t → Conversation
  struct_said {t} k = kernel_says en (
      some (encode_messages en (k.named_by ∷ []))
      ∷ some (encode_messages en (reply_message en l id attr_type k.flags pid t ∷ []))
      ∷ k.inbox)

  -- The kernel names the family, and dumps the entries: in datagrams of sound messages that fit the
  -- buffer, any number in each, and with the end behind the last ones.
  pub record AnswersDump (ts : List T) : Type 0 where
    pub named_by : Message
    pub done : Message
    pub inbox : Inbox
    pub first : List (List T)
    pub last : List T
    pub names : NamesFamily en id named_by
    pub own : done.seq ≡ 2
    pub ends : done.type ≡ nlmsg_done
    pub entries : entries_of first last ≡ ts
    pub first_fit :
        All
          (λ us. All l.IsValid us × FitsBuffer en (map (entry_message en l id attr_type pid) us))
          first
    pub last_valid : All l.IsValid last
    pub last_fits : FitsBuffer en (map (entry_message en l id attr_type pid) last ++ (done ∷ []))

  abbrev pub dump_said : {ts : List T} → AnswersDump ts → Conversation
  dump_said k = kernel_says en (
      some (encode_messages en (k.named_by ∷ []))
      ∷ dump_inbox en l id attr_type pid k.done k.inbox k.first k.last)

  module _ (family : IsFamily id) (small : 4 + l.size < 2 ^ 16)
      (numbered : attr_type < 2 ^ 16) where
    pub receive_struct-answered :
        {t : T} (k : AnswersStruct t) (rest : List Conversation) (w : World) (cmd : ℕ)
        → receive_struct en l cmd attr_type none (record w { conversations = struct_said k ∷ rest })
          ≡ (ok t, record w { conversations = rest; sent = asked en id nlm_f_request cmd w.sent })
    receive_struct-answered {t} k rest w cmd =
        receive_struct-reply en l id attr_type k.flags pid small numbered t k.valid family
          k.named_by k.inbox rest w cmd k.names k.fits

    pub dump_structs-answered :
        {S : Type 0} (handler : T → S → Net S) {ts : List T} (k : AnswersDump ts)
        (rest : List Conversation) (w : World) (cmd : ℕ) (s : S)
        → dump_structs en l cmd attr_type handler s
            (record w { conversations = dump_said k ∷ rest })
          ≡ feed handler ts s (record w {
            conversations = rest;
            sent = asked en id (nlm_f_request + nlm_f_dump) cmd w.sent;
          })
    dump_structs-answered handler k rest w cmd s =
        let after : World = record w {
          conversations = rest;
          sent = asked en id (nlm_f_request + nlm_f_dump) cmd w.sent;
        } in
        dump_structs-feed en l id attr_type pid family small numbered handler k.done k.own k.ends
          k.inbox k.named_by k.first k.last rest w cmd s k.names k.first_fit k.last_valid
          k.last_fits
        ∙ ap (λ us. feed handler us s after) k.entries
