-- ===== src/Netlink/Replies.antt =====
-- `receive_struct` of ktuctl-rs/src/netlink.rs against a kernel that answers with a struct.
use ktuctl_rs.Prelude.{
  ℕ, ◌+◌, ◌^◌, ◌<◌, ◌≡◌, ◌≢◌, sym, ap, ◌∙◌, List, [], ◌∷◌, ◌++◌, append-nil, ==-refl, arith, length,
  some, none, ltb-false, ==-false,
}
use ktuctl_rs.Bytes.{Endian}
use ktuctl_rs.Outcome.{ok}
use ktuctl_rs.World.{World, Conversation, and_then, pure}
use ktuctl_rs.Protocol.Constants.{tutu_genl_version, nlm_f_request, nlmsg_error, nlmsg_done}
use ktuctl_rs.Protocol.Layout.{Layout}
use ktuctl_rs.Netlink.Attr.{parse_attrs}
use ktuctl_rs.Netlink.Attr.RoundTrip.{parse_attrs_loop-encode_attrs}
use ktuctl_rs.Netlink.Message.{build_packet_genl_msg}
use ktuctl_rs.Netlink.Loop.{return, Inbox, recv_loop}
use ktuctl_rs.Netlink.Datagram.{Message, FitsBuffer, encode_messages, run_messages}
use ktuctl_rs.Netlink.Refinement.{receive_on, resume, recv_loop-cons, run_messages_own}
use ktuctl_rs.Netlink.Request.{request_message}
use ktuctl_rs.Netlink.Exchange.{find_struct, struct_handler, receive_struct}
use ktuctl_rs.Netlink.Answers.{attrs_of, struct_answer, struct_handler-Agrees}
use ktuctl_rs.Netlink.Delivery.{NamesFamily, kernel_says, family_request, request-before}

module _ (en : Endian) {T : Type 0} (l : Layout T) (id attr_type flags pid : ℕ) where
  -- A message of the family for the second request, with a struct as its one attribute.
  abbrev pub reply_message : T → Message
  reply_message t =
      request_message en id flags 2 pid 0 tutu_genl_version ((attr_type, l.as_bytes t) ∷ [])

  module _ (small : 4 + l.size < 2 ^ 16) (numbered : attr_type < 2 ^ 16) (t : T)
      (v : l.IsValid t) where
    pub attrs_of-reply_message : attrs_of en (reply_message t) ≡ (attr_type, l.as_bytes t) ∷ []
    unfolding parse_attrs
    attrs_of-reply_message =
        parse_attrs_loop-encode_attrs en ((attr_type, l.as_bytes t) ∷ []) _
          (omega (arith, l.length-as_bytes t v)) (omega arith)

    pub read-as_bytes_alone : l.read (l.as_bytes t) ≡ t
    read-as_bytes_alone = ap l.read (sym (append-nil (l.as_bytes t))) ∙ l.read-as_bytes t [] v

    find_struct-reply : find_struct en l attr_type ((attr_type, l.as_bytes t) ∷ []) ≡ ok (some t)
    unfolding find_struct
    find_struct-reply = rw (
      ==-refl attr_type,
      ltb-false (length (l.as_bytes t)) l.size (omega (arith, l.length-as_bytes t v)),
      read-as_bytes_alone,
    )

    module _ (family : (id ≢ nlmsg_error) × (id ≢ nlmsg_done)) where
      struct_answer-reply :
          (w : World) → struct_answer en l attr_type (reply_message t) tt w ≡ (ok (return t), w)
      unfolding struct_answer
      struct_answer-reply w = rw (
        ==-false id nlmsg_error family.0,
        ==-false id nlmsg_done family.1,
        attrs_of-reply_message,
        find_struct-reply,
      )

      -- The struct is found by its message, and the rest of the inbox is left alone.
      struct_received :
          (inbox : Inbox) (w : World)
          → FitsBuffer en (reply_message t ∷ [])
          → recv_loop en 2
              (struct_handler en l attr_type)
              (some (encode_messages en (reply_message t ∷ [])) ∷ inbox)
              tt
              w
            ≡ (ok (t, inbox), w)
      struct_received inbox w fits =
          recv_loop-cons en 2 (struct_handler en l attr_type) (struct_answer en l attr_type)
            (struct_handler-Agrees en l attr_type) (reply_message t ∷ []) inbox tt w fits
          ∙ ap
              (λ r.
                and_then r
                  (receive_on inbox (recv_loop en 2 (struct_handler en l attr_type) inbox)))
              (run_messages_own en 2 (struct_answer en l attr_type) (reply_message t) [] tt w
                  (ground arith)
                ∙ ap
                    (λ r. and_then r (resume (run_messages en 2 (struct_answer en l attr_type) [])))
                    (struct_answer-reply w))

      -- A kernel that names the family and answers with a struct: it is received as it was.
      pub receive_struct-reply :
          (named_by : Message) (inbox : Inbox) (rest : List Conversation) (w : World) (cmd : ℕ)
          → NamesFamily en id named_by
          → FitsBuffer en (reply_message t ∷ [])
          → receive_struct en l cmd attr_type none (record w {
            conversations =
                kernel_says en (
                  some (encode_messages en (named_by ∷ []))
                  ∷ some (encode_messages en (reply_message t ∷ []))
                  ∷ inbox)
                ∷ rest;
          })
            ≡ (
              ok t,
              record w {
                conversations = rest;
                sent =
                    (w.sent ++ (family_request en ∷ []))
                    ++ (build_packet_genl_msg en id nlm_f_request 2 0 cmd tutu_genl_version []
                        ∷ []);
              },
            )
      unfolding receive_struct
      receive_struct-reply named_by inbox rest w cmd n fits =
          request-before en id named_by n (some (encode_messages en (reply_message t ∷ [])) ∷ inbox)
            rest w nlm_f_request cmd [] (struct_handler en l attr_type) tt
          ∙ ap (λ r. and_then r (λ x. pure x.0)) (struct_received inbox _ fits)
