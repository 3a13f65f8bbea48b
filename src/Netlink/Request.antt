-- ===== src/Netlink/Request.antt =====
-- What `build_packet_genl_msg` of ktuctl-rs/src/netlink.rs writes, and how it reads back.
use ktuctl_rs.Prelude.{
  ℕ, suc, ◌+◌, ◌%◌, ◌^◌, ◌<◌, ◌≡◌, refl, ap, ◌∙◌, sym, List, [], ◌∷◌, ◌++◌, append-nil,
  append_assoc, arith, length, length-append, All,
}
use ktuctl_rs.Bytes.{Endian, Bytes, to_ne_bytes, to_be_bytes, le_bytes}
use ktuctl_rs.Outcome.{ok}
use ktuctl_rs.Netlink.Attr.{parse_attrs}
use ktuctl_rs.Netlink.Attr.RoundTrip.{
  pad_len, Fits, encode_attr, encode_attrs, length-encode_attr, push_attrs-encode_attrs,
  parse_attrs-push_attrs,
}
use ktuctl_rs.Netlink.Message.{build_packet_genl_msg}
use ktuctl_rs.Netlink.Loop.{message_at, attrs_at}
use ktuctl_rs.Netlink.Datagram.{
  Message, header, IsSound, encode_message, StandsAt, message_at-encode_message,
  attrs_at-encode_message,
}

zero_field : (en : Endian) → to_ne_bytes en 2 0 ≡ 0 ∷ 0 ∷ []
unfolding to_ne_bytes to_be_bytes le_bytes
zero_field Endian.little = refl
zero_field Endian.big = refl

module _ (en : Endian) where
  encode_attrs-aligned : (attrs : List (ℕ × Bytes)) → length (encode_attrs en attrs) % 4 ≡ 0
  encode_attrs-aligned [] = refl
  encode_attrs-aligned ((t, p) ∷ attrs) = omega (
    arith,
    length-append (encode_attr en (t, p)) (encode_attrs en attrs),
    length-encode_attr en t p,
    encode_attrs-aligned attrs,
  )

  module _ (nlmsg_type nlmsg_flags nlmsg_seq nlmsg_pid cmd version : ℕ)
      (attrs : List (ℕ × Bytes)) where
    -- The request as a message.
    abbrev pub request_message : Message
    request_message = record {
      type = nlmsg_type;
      flags = nlmsg_flags;
      seq = nlmsg_seq;
      pid = nlmsg_pid;
      body = cmd ∷ version ∷ 0 ∷ 0 ∷ encode_attrs en attrs;
    }

    build-encode_message :
        IsSound request_message
        → build_packet_genl_msg en nlmsg_type nlmsg_flags nlmsg_seq nlmsg_pid cmd version attrs
          ≡ encode_message en request_message
    unfolding build_packet_genl_msg encode_message
    build-encode_message sound =
        let size = length (encode_attrs en attrs) in
        let total : (20 + size) % 2 ^ 32 ≡ 16 + (4 + size) = omega arith in
        let full : pad_len (4 + size) ≡ 0 = omega (arith, encode_attrs-aligned attrs) in
        let suc_form : suc (suc (suc (suc size))) ≡ 4 + size = omega arith in
        rw (push_attrs-encode_attrs en attrs [], zero_field en, total, suc_form, full, append-nil)
          (simp append_assoc)

    -- A request of a family (neither an error nor an end), with fields that fit their widths and
    -- attributes that fit their headers, reads back from the bytes that are sent: its header, with
    -- its true length, and its attributes, whole and in order.
    pub attrs_at-build_packet_genl_msg :
        nlmsg_type < 2 ^ 16
        → nlmsg_flags < 2 ^ 16
        → nlmsg_seq < 2 ^ 32
        → nlmsg_pid < 2 ^ 32
        → 20 + length (encode_attrs en attrs) < 2 ^ 32
        → All Fits attrs
        → (message_at en
              (build_packet_genl_msg en nlmsg_type nlmsg_flags nlmsg_seq nlmsg_pid cmd version
                attrs)
              0
            ≡ ok (header request_message))
          × (attrs_at en
                (build_packet_genl_msg en nlmsg_type nlmsg_flags nlmsg_seq nlmsg_pid cmd version
                  attrs)
                0
                (header request_message).nlmsg_len
              ≡ ok attrs)
    attrs_at-build_packet_genl_msg ht hf hs hp hl fits = (
      rw built (message_at-encode_message en request_message sound [] _ 0 alone),
      rw built (
          ap (attrs_at en (encode_message en request_message) 0) at_zero
          ∙ attrs_at-encode_message en request_message sound [] _ 0 alone (omega arith)
          ∙ ap ok (
              ap (parse_attrs en) (sym (push_attrs-encode_attrs en attrs []))
              ∙ parse_attrs-push_attrs en attrs fits)),
    )
      where
        sound : IsSound request_message
        sound = record {
          len = omega arith;
          type = ht;
          flags = hf;
          seq = hs;
          pid = hp;
          generic = λ _ _. omega arith;
        }

        built :
            build_packet_genl_msg en nlmsg_type nlmsg_flags nlmsg_seq nlmsg_pid cmd version attrs
            ≡ encode_message en request_message
        built = build-encode_message sound

        at_zero : (header request_message).nlmsg_len ≡ 0 + (16 + length request_message.body)
        at_zero = omega arith

        alone :
            StandsAt en
              (encode_message en request_message ++ [])
              (encode_message en request_message)
              0
        alone = rw append-nil (refl, omega arith)
