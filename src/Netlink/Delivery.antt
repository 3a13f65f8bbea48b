-- ===== src/Netlink/Delivery.antt =====
-- `get_connection`, `send_struct`, `send_string`, `receive_struct` and the dumps of
-- ktuctl-rs/src/netlink.rs against a kernel that answers.
use ktuctl_rs.Prelude.{
  ℕ, ◌+◌, ◌-◌, ◌%◌, ◌^◌, ◌≤◌, ◌<◌, ◌≡◌, ◌≢◌, ap, ◌∙◌, List, [], ◌∷◌, ◌++◌, arith, length,
  length-append, some, true, take, ltb-false, Bool-cases, inl, inr, ◌==◌, ==-false, if◌then◌else◌,
}
use ktuctl_rs.Bytes.{
  Endian, Bytes, to_ne_bytes, from_ne_bytes, from_ne_bytes-take, length-to_ne_bytes,
}
use ktuctl_rs.Outcome.{Outcome, ok, err, Error}
use ktuctl_rs.World.{World, Conversation, and_then, pure}
use ktuctl_rs.Protocol.Constants.{
  tutu_genl_version, tutu_genl_family_name, genl_id_ctrl, ctrl_cmd_getfamily, ctrl_attr_family_name,
  nlm_f_request, nlm_f_ack, nlmsg_error, nlmsg_done,
}
use ktuctl_rs.Netlink.Message.{build_packet_genl_msg, check_nlmsg_error}
use ktuctl_rs.Netlink.Loop.{return, Handler, Inbox, recv_loop}
use ktuctl_rs.Netlink.Datagram.{Message, FitsBuffer, encode_messages, run_messages}
use ktuctl_rs.Netlink.Refinement.{receive_on, resume, recv_loop-cons, run_messages_own}
use ktuctl_rs.Netlink.Socket.{NetlinkSocket, connect, next_seq, send}
use ktuctl_rs.Netlink.Exchange.{
  find_family_id, family_handler, get_connection, ack_handler, send_payload, request,
}
use ktuctl_rs.Netlink.Answers.{
  attrs_of, family_answer, family_handler-Agrees, ack_answer, ack_handler-Agrees,
}

module _ (en : Endian) where
  -- The request for the family's id, which opens every connection.
  abbrev pub family_request : Bytes
  family_request =
      build_packet_genl_msg en genl_id_ctrl nlm_f_request 1 0 ctrl_cmd_getfamily 1
        ((ctrl_attr_family_name, tutu_genl_family_name ++ (0 ∷ [])) ∷ [])

  -- The kernel's answer to it: a message of the connection's first request that has the id.
  pub record NamesFamily (id : ℕ) (m : Message) : Type 0 where
    pub fits : FitsBuffer en (m ∷ [])
    pub seq : m.seq ≡ 1
    pub data_type : (m.type ≢ nlmsg_error) × (m.type ≢ nlmsg_done)
    pub names : find_family_id en (attrs_of en m) ≡ some id

  family_answer_named :
      (id : ℕ) (m : Message) (w : World)
      → NamesFamily id m
      → family_answer en m tt w ≡ (ok (return id), w)
  unfolding family_answer
  family_answer_named id m w n =
      rw (
        ==-false m.type nlmsg_error n.data_type.0,
        ==-false m.type nlmsg_done n.data_type.1,
        n.names,
      )

  -- The id is found by the first message, and the rest of the inbox is left alone.
  family_received :
      (id : ℕ) (m : Message) (inbox : Inbox) (w : World)
      → NamesFamily id m
      → recv_loop en 1 (family_handler en) (some (encode_messages en (m ∷ [])) ∷ inbox) tt w
        ≡ (ok (id, inbox), w)
  family_received id m inbox w n =
      recv_loop-cons en 1 (family_handler en) (family_answer en) (family_handler-Agrees en) (m ∷ [])
        inbox tt w n.fits
      ∙ ap (λ r. and_then r (receive_on inbox (recv_loop en 1 (family_handler en) inbox)))
          (run_messages_own en 1 (family_answer en) m [] tt w (ground arith)
            ∙ ap (λ r. and_then r (resume (run_messages en 1 (family_answer en) []))) named)
    where
      named : family_answer en m tt w ≡ (ok (return id), w)
      named = family_answer_named id m w n

  -- A socket that opens and sends, with what it will receive.
  abbrev pub kernel_says : Inbox → Conversation
  kernel_says inbox = record { socket_ok = true; bind_ok = true; send_ok = []; inbox = inbox }

  -- The connection after the first exchange.
  abbrev connection : Inbox → NetlinkSocket
  connection inbox = record { send_ok = []; inbox = inbox; seq = 2; pid = 0 }

  module _ (id : ℕ) (m : Message) (named : NamesFamily id m) (inbox : Inbox)
      (rest : List Conversation) (w : World) where
    -- The world before, and after the first exchange.
    abbrev pub before : World
    before = record w {
      conversations = kernel_says (some (encode_messages en (m ∷ [])) ∷ inbox) ∷ rest;
    }

    abbrev pub after : List Bytes → World
    after sent = record w { conversations = rest; sent = (w.sent ++ (family_request ∷ [])) ++ sent }

    abbrev connected : World
    connected = record w { conversations = rest; sent = w.sent ++ (family_request ∷ []) }

    get_connection-before : get_connection en before ≡ (ok (connection inbox, id), connected)
    unfolding get_connection connect next_seq send
    get_connection-before = rw (family_received id m inbox connected named)

    -- A request on a new connection is sent under the family's id, and its reply loop starts.
    pub request-before :
        {S A : Type 0} (flags cmd : ℕ) (attrs : List (ℕ × Bytes)) (h : Handler S A) (s : S)
        → request en flags cmd attrs h s before
          ≡ and_then
              (recv_loop en 2 h inbox s
                (after (build_packet_genl_msg en id flags 2 0 cmd tutu_genl_version attrs ∷ [])))
              (λ r. pure r.0)
    unfolding request next_seq send
    request-before flags cmd attrs h s = rw get_connection-before

    -- The same for a payload that is sent, and its wait for the acknowledgement.
    send_payload-before :
        (cmd attr_type : ℕ) (payload : Bytes)
        → send_payload en cmd attr_type payload true before
          ≡ and_then
              (recv_loop en 2 (ack_handler en) inbox tt (
                after (
                  build_packet_genl_msg en id
                    (nlm_f_request + nlm_f_ack)
                    2
                    0
                    cmd
                    tutu_genl_version
                    ((attr_type, payload) ∷ [])
                  ∷ [])))
              (λ r. pure r.0)
    unfolding send_payload next_seq send
    send_payload-before cmd attr_type payload = rw get_connection-before

  -- The kernel's acknowledgement of the second request: an errno (as the bits of an `i32`), and
  -- the header of the request.
  pub record Acknowledges (e : ℕ) (m : Message) : Type 0 where
    pub fits : FitsBuffer en (m ∷ [])
    pub seq : m.seq ≡ 2
    pub error_type : m.type ≡ nlmsg_error
    pub code : e < 2 ^ 32
    pub echo : Bytes
    pub body : m.body ≡ to_ne_bytes en 4 e ++ echo
    pub echo_len : 16 ≤ length echo

  -- 0 is a success, any other number an error with its negative.
  abbrev pub reply : ℕ → Outcome (Unit {0})
  reply e = if e == 0 then ok tt else err (Error.netlink_error ((2 ^ 32 - e) % 2 ^ 32))

  check_nlmsg_error-reply :
      (e : ℕ) (m : Message) → Acknowledges e m → check_nlmsg_error en m.body ≡ reply e
  unfolding check_nlmsg_error
  check_nlmsg_error-reply e m a = rw (ltb-false (length m.body) 20 long, read)
    where
      long : 20 ≤ length m.body
      long = rw a.body (
          omega (
            arith,
            length-append (to_ne_bytes en 4 e) a.echo,
            length-to_ne_bytes en 4 e,
            a.echo_len,
          ))

      read : from_ne_bytes en (take 4 m.body) ≡ e
      read = rw a.body (from_ne_bytes-take en 4 e a.echo a.code)

  -- What the wait makes of the outcome of `check_nlmsg_error`.
  abbrev acknowledged : Inbox → World → Outcome (Unit {0}) → Outcome (Unit {0}) × World
  acknowledged inbox w o =
      and_then
        (and_then
          (and_then (and_then (o, w) (λ _. pure (return tt)))
            (resume (run_messages en 2 (ack_answer en) [])))
          (receive_on inbox (recv_loop en 2 (ack_handler en) inbox)))
        (λ r. pure r.0)

  acknowledged-reply :
      (e : ℕ) (inbox : Inbox) (w : World) → acknowledged inbox w (reply e) ≡ (reply e, w)
  acknowledged-reply e inbox w = elim (Bool-cases (e == 0)) [ inl z ↦ rw z | inr z ↦ rw z ]

  ack_answer-reply :
      (e : ℕ) (m : Message) (w : World)
      → Acknowledges e m
      → ack_answer en m tt w ≡ and_then (reply e, w) (λ _. pure (return tt))
  unfolding ack_answer
  ack_answer-reply e m w a =
      let is_error : (m.type == nlmsg_error) ≡ true = ground arith in
      rw (is_error, check_nlmsg_error-reply e m a)

  ack_received :
      (e : ℕ) (m : Message) (inbox : Inbox) (w : World)
      → Acknowledges e m
      → and_then
          (recv_loop en 2 (ack_handler en) (some (encode_messages en (m ∷ [])) ∷ inbox) tt w)
          (λ r. pure r.0)
        ≡ (reply e, w)
  ack_received e m inbox w a =
      ap (λ r. and_then r (λ x. pure x.0))
        (recv_loop-cons en 2 (ack_handler en) (ack_answer en) (ack_handler-Agrees en) (m ∷ []) inbox
            tt w a.fits
          ∙ ap (λ r. and_then r (receive_on inbox (recv_loop en 2 (ack_handler en) inbox)))
              (run_messages_own en 2 (ack_answer en) m [] tt w (ground arith)
                ∙ ap (λ r. and_then r (resume (run_messages en 2 (ack_answer en) [])))
                    (ack_answer-reply e m w a)))
      ∙ acknowledged-reply e inbox w

  -- Against a kernel that names the family (first exchange) and acknowledges the request with an
  -- errno `e` (second exchange), sending a payload with `ack` set returns exactly what the kernel
  -- says: success if `e` is 0, and otherwise an error with the errno negated. Two datagrams are
  -- sent and no more: the request for the family's id, and the request itself, under that id, with
  -- sequence number 2, both flags and the payload as its one attribute.
  pub send_payload-acknowledged :
      (id : ℕ) (named_by : Message) (e : ℕ) (acked_by : Message) (inbox : Inbox)
      (rest : List Conversation) (w : World) (cmd attr_type : ℕ) (payload : Bytes)
      → NamesFamily id named_by
      → Acknowledges e acked_by
      → send_payload en cmd attr_type payload true (record w {
        conversations =
            kernel_says (
              some (encode_messages en (named_by ∷ []))
              ∷ some (encode_messages en (acked_by ∷ []))
              ∷ inbox)
            ∷ rest;
      })
        ≡ (
          reply e,
          record w {
            conversations = rest;
            sent =
                (w.sent ++ (family_request ∷ []))
                ++ (build_packet_genl_msg en id
                      (nlm_f_request + nlm_f_ack)
                      2
                      0
                      cmd
                      tutu_genl_version
                      ((attr_type, payload) ∷ [])
                    ∷ []);
          },
        )
  send_payload-acknowledged id named_by e acked_by inbox rest w cmd attr_type payload n a =
      send_payload-before id named_by n (some (encode_messages en (acked_by ∷ [])) ∷ inbox) rest w
        cmd attr_type payload
      ∙ ack_received e acked_by inbox _ a
