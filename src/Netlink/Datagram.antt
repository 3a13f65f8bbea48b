-- ===== src/Netlink/Datagram.antt =====
-- Netlink messages and datagrams as data, apart from ktuctl-rs/src/netlink.rs: what the kernel
-- sends as a list of messages, its bytes, and what a reply loop is to do with it.
use ktuctl_rs.Prelude.{
  ℕ, ◌+◌, ◌-◌, ◌^◌, ◌≤◌, ◌<◌, ◌≡◌, refl, ap, ◌∙◌, List, [], ◌∷◌, ◌++◌, append_assoc, arith, true,
  false, some, ltb-false, ◌==◌, ◌≢◌, length, length-append, length-replicate, length-drop, take,
  drop, slice, replicate, All, take-append, drop-append, drop-drop, drop-append_of_le,
}
use ktuctl_rs.Bytes.{Endian, Bytes}
use ktuctl_rs.Outcome.{ok, blocked}
use ktuctl_rs.World.{Net, ◌>>=◌, pure, lift}
use ktuctl_rs.Protocol.Constants.{nlmsg_error, nlmsg_done}
use ktuctl_rs.Netlink.Attr.{nlmsg_align, parse_attrs}
use ktuctl_rs.Netlink.Attr.RoundTrip.{pad_len}
use ktuctl_rs.Netlink.Message.{
  NlmsghdrRaw, nlmsghdr_layout, genlmsghdr_layout, parse_nlmsghdr, parse_genlhdr,
}
use ktuctl_rs.Netlink.Loop.{Flow, go_on, return, Inbox, recv_capacity, message_at, attrs_at}

pub record Message : Type 0 where
  pub type : ℕ
  pub flags : ℕ
  pub seq : ℕ
  pub pid : ℕ
  pub body : Bytes

abbrev pub header : Message → NlmsghdrRaw
header m = record {
  nlmsg_len = 16 + length m.body;
  nlmsg_type = m.type;
  nlmsg_flags = m.flags;
  nlmsg_seq = m.seq;
  nlmsg_pid = m.pid;
}

-- The fields fit their widths, and a message that is no error and no end has a generic netlink
-- header of four bytes.
pub record IsSound (m : Message) : Type 0 where
  pub len : 16 + length m.body < 2 ^ 32
  pub type : m.type < 2 ^ 16
  pub flags : m.flags < 2 ^ 16
  pub seq : m.seq < 2 ^ 32
  pub pid : m.pid < 2 ^ 32
  pub generic : m.type ≢ nlmsg_error → m.type ≢ nlmsg_done → 4 ≤ length m.body

module _ (en : Endian) where
  -- The message on the wire, with zeros up to the next multiple of four.
  unfoldable pub encode_message : Message → Bytes
  encode_message m =
      (nlmsghdr_layout en).as_bytes (header m) ++ (m.body ++ replicate (pad_len (length m.body)) 0)

  unfoldable pub encode_messages : List Message → Bytes
  unfolding encode_message
  encode_messages [] = []
  encode_messages (m ∷ ms) = encode_message m ++ encode_messages ms

  -- A datagram stands at `off` in `rx`, and nothing follows.
  abbrev pub StandsAt : Bytes → Bytes → ℕ → Type 0
  StandsAt bs rx off = (drop off rx ≡ bs) × (length rx ≡ off + length bs)

  nlmsg_align_lem : (n : ℕ) → nlmsg_align (16 + n) ≡ 16 + n + pad_len n
  unfolding nlmsg_align
  nlmsg_align_lem n = omega arith

  module _ (m : Message) (sound : IsSound m) where
    abbrev image : Bytes
    image = (nlmsghdr_layout en).as_bytes (header m)

    abbrev padding : Bytes
    padding = replicate (pad_len (length m.body)) 0

    header-IsValid : (nlmsghdr_layout en).IsValid (header m)
    header-IsValid = (sound.len, (sound.type, (sound.flags, (sound.seq, sound.pid))))

    length-image : length image ≡ 16
    length-image = (nlmsghdr_layout en).length-as_bytes (header m) header-IsValid

    pub length-encode_message :
        length (encode_message m) ≡ 16 + length m.body + pad_len (length m.body)
    unfolding encode_message
    length-encode_message = omega (
      arith,
      length-append image (m.body ++ padding),
      length-append m.body padding,
      length-image,
      length-replicate {A = ℕ} (pad_len (length m.body)) 0,
    )

    module _ (post rx : Bytes) (off : ℕ) (at_off : StandsAt (encode_message m ++ post) rx off) where
      total : length rx ≡ off + (16 + length m.body + pad_len (length m.body)) + length post
      total = omega (arith, length-append (encode_message m) post, length-encode_message)

      split : drop off rx ≡ image ++ ((m.body ++ padding) ++ post)
      unfolding encode_message
      split = at_off.0 ∙ append_assoc image (m.body ++ padding) post

      parse_nlmsghdr-encode_message : parse_nlmsghdr en rx off ≡ some (header m)
      unfolding parse_nlmsghdr
      parse_nlmsghdr-encode_message = rw (ltb-false (length rx) (off + 16) (omega (arith, total))) (
          ap (λ bs. some ((nlmsghdr_layout en).read bs)) split
          ∙ ap some ((nlmsghdr_layout en).read-as_bytes (header m) _ header-IsValid))

      pub message_at-encode_message : message_at en rx off ≡ ok (header m)
      unfolding message_at
      message_at-encode_message =
          rw (parse_nlmsghdr-encode_message, message_at)
            (rw (
              ltb-false (16 + length m.body) 16 (omega arith),
              ltb-false (length rx) (off + (16 + length m.body)) (omega (arith, total)),
            ))

      behind_header : drop (off + 16) rx ≡ m.body ++ (padding ++ post)
      behind_header =
          drop-drop (off + 16) off 16 rx refl
          ∙ ap (drop 16) split
          ∙ drop-append 16 image _ (omega (arith, length-image))
          ∙ append_assoc m.body padding post

      pub body-encode_message : slice rx (off + 16) (off + (16 + length m.body)) ≡ m.body
      body-encode_message =
          ap (take (off + (16 + length m.body) - (off + 16))) behind_header
          ∙ take-append _ m.body _ (omega arith)

      pub next-encode_message : StandsAt post rx (off + nlmsg_align (16 + length m.body))
      next-encode_message =
          let size : nlmsg_align (16 + length m.body) ≡ length (encode_message m) =
            omega (arith, length-encode_message, nlmsg_align_lem (length m.body)) in
          (
            drop-drop _ off (nlmsg_align (16 + length m.body)) rx refl
                ∙ ap (drop (nlmsg_align (16 + length m.body))) at_off.0
                ∙ drop-append _ (encode_message m) post size,
            omega (arith, total, nlmsg_align_lem (length m.body)),
          )

      attrs_slice :
          4 ≤ length m.body → slice rx (off + 16 + 4) (off + (16 + length m.body)) ≡ drop 4 m.body
      attrs_slice h =
          ap (take (off + (16 + length m.body) - (off + 16 + 4))) (
            drop-drop (off + 16 + 4) (off + 16) 4 rx refl
            ∙ ap (drop 4) behind_header
            ∙ drop-append_of_le 4 m.body (padding ++ post) h)
          ∙ take-append _ (drop 4 m.body) _ (omega (arith, length-drop 4 m.body))

      parse_genlhdr_in_range :
          off + 16 + 4 ≤ length rx
          → parse_genlhdr en rx (off + 16) ≡ some ((genlmsghdr_layout en).read (drop (off + 16) rx))
      unfolding parse_genlhdr
      parse_genlhdr_in_range h = rw (ltb-false (length rx) (off + 16 + 4) h)

      pub attrs_at-encode_message :
          4 ≤ length m.body
          → attrs_at en rx off (off + (16 + length m.body)) ≡ ok (parse_attrs en (drop 4 m.body))
      unfolding attrs_at
      attrs_at-encode_message h =
          rw (parse_genlhdr_in_range (omega (arith, total)), attrs_at)
            (rw
              (ltb-false (off + (16 + length m.body)) (off + 16 + 4) (omega arith), attrs_slice h))

  -- A datagram of sound messages that fits the buffer of `recv`.
  abbrev pub FitsBuffer : List Message → Type 0
  FitsBuffer ms = All IsSound ms × (length (encode_messages ms) ≤ recv_capacity)

  -- The datagrams, as they come from the socket.
  abbrev pub inbox_of : List (List Message) → Inbox
  inbox_of [] = []
  inbox_of (ms ∷ datagrams) = some (encode_messages ms) ∷ inbox_of datagrams

  -- What is done with a list of messages, given what is done with one that is an answer.
  module _ {S A : Type 0} (seq : ℕ) (answer : Message → S → Net (Flow S A)) where
    unfoldable pub run_messages : List Message → S → Net (Flow S A)
    run_messages [] s = pure (go_on s)
    run_messages (m ∷ ms) s = elim (m.seq == seq) [
      | false ↦ run_messages ms s
      | true ↦ do
        flow ← answer m s
        elim flow [ return a ↦ pure (return a) | go_on s' ↦ run_messages ms s' ]
    ]

    unfoldable pub run_datagrams : List (List Message) → S → Net (A × Inbox)
    unfolding run_messages
    run_datagrams [] s = lift blocked
    run_datagrams (ms ∷ datagrams) s = do
      flow ← run_messages ms s
      elim flow [ return a ↦ pure (a, inbox_of datagrams) | go_on s' ↦ run_datagrams datagrams s' ]
