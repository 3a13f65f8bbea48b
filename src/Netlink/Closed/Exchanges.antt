-- ===== src/Netlink/Closed/Exchanges.antt =====
-- The exchanges of ktuctl-rs/src/netlink.rs keep what their parts keep.
use ktuctl_rs.Prelude.{
  ℕ, ◌≢◌, List, [], ◌∷◌, ◌++◌, arith, true, false, Option, Bool, ◌==◌, ◌&&◌, leb, length,
}
use ktuctl_rs.Bytes.{Endian, Bytes}
use ktuctl_rs.Outcome.{stuck}
use ktuctl_rs.World.{Net, ◌>>=◌, pure, lift}
use ktuctl_rs.Protocol.Constants.{tutu_genl_family_name, tutu_genl_version}
use ktuctl_rs.Protocol.Layout.{Layout}
use ktuctl_rs.Netlink.Message.{NlmsghdrRaw, check_nlmsg_error, build_packet_genl_msg}
use ktuctl_rs.Netlink.Loop.{Flow, go_on, return, attrs_at, Handler}
use ktuctl_rs.Netlink.Socket.{NetlinkSocket, connect, next_seq}
use ktuctl_rs.Netlink.Closed.{Closed, if_Holds, Option-Holds, failed, lift_then-Holds}
use ktuctl_rs.Netlink.Exchange.{
  error_at, find_family_id, family_handler, resolve_genl_family_id, get_connection, ack_handler,
  send_payload, send_struct, send_string, find_struct, struct_handler, each_struct, dump_handler,
  each_string, dump_string_handler, request, receive_struct, dump_structs, dump_strings, in_attrs,
}

module _ (en : Endian) where
  error_at-ne-stuck : (rx : Bytes) (off msg_end : ℕ) → error_at en rx off msg_end ≢ stuck
  unfolding check_nlmsg_error
  error_at-ne-stuck rx off msg_end e = ground arith

  attrs_at-ne-stuck : (rx : Bytes) (off msg_end : ℕ) → attrs_at en rx off msg_end ≢ stuck
  unfolding attrs_at
  attrs_at-ne-stuck rx off msg_end e = ground arith

  find_struct-ne-stuck :
      {T : Type 0} (l : Layout T) (attr_type : ℕ) (attrs : List (ℕ × Bytes))
      → find_struct en l attr_type attrs ≢ stuck
  unfolding find_struct
  find_struct-ne-stuck l attr_type [] e = cc
  find_struct-ne-stuck l attr_type ((ty, payload) ∷ attrs) e =
      ground (arith, find_struct-ne-stuck l attr_type attrs)

module _ {en : Endian} (p : Closed en) where
  abbrev HandlerHolds : {S A : Type 0} → Handler S A → Type 0
  HandlerHolds {S} h =
      (nlh : NlmsghdrRaw) (rx : Bytes) (off msg_end : ℕ) (s : S) → p.Holds (h nlh rx off msg_end s)

  -- The `match` of an error message, and of any other.
  on_error-Holds :
      {S A : Type 0} (rx : Bytes) (off msg_end : ℕ) (flow : Flow S A)
      → p.Holds (lift (error_at en rx off msg_end) >>= λ _. pure flow)
  on_error-Holds rx off msg_end flow =
      lift_then-Holds p (error_at en rx off msg_end) (λ _. pure flow)
        (error_at-ne-stuck en rx off msg_end) (λ _. p.done flow)

  on_attrs-Holds :
      {B : Type 0} (rx : Bytes) (off msg_end : ℕ) (k : List (ℕ × Bytes) → Net B)
      → ((attrs : List (ℕ × Bytes)) → p.Holds (k attrs))
      → p.Holds (lift (attrs_at en rx off msg_end) >>= k)
  on_attrs-Holds rx off msg_end k =
      lift_then-Holds p (attrs_at en rx off msg_end) k (attrs_at-ne-stuck en rx off msg_end)

  family-Holds : HandlerHolds (family_handler en)
  unfolding family_handler
  family-Holds nlh rx off msg_end s =
      if_Holds p (nlh.nlmsg_type == 2) _ _ (on_error-Holds rx off msg_end (go_on tt)) (
        if_Holds p (nlh.nlmsg_type == 3) _ _ (failed p _) (
          on_attrs-Holds rx off msg_end _ (λ attrs.
            Option-Holds p (find_family_id en attrs) _ _ (p.done (go_on tt))
              (λ id. p.done (return id)))))

  ack-Holds : HandlerHolds (ack_handler en)
  unfolding ack_handler
  ack-Holds nlh rx off msg_end s =
      if_Holds p (nlh.nlmsg_type == 2) _ _ (on_error-Holds rx off msg_end (return tt))
        (if_Holds p (nlh.nlmsg_type == 3) _ _ (p.done (return tt)) (p.done (go_on tt)))

  resolve-Holds :
      (sock : NetlinkSocket) (name : Bytes) → p.Holds (resolve_genl_family_id en sock name)
  unfolding resolve_genl_family_id next_seq
  resolve-Holds sock name =
      p.bind _ _ (p.sent _ _ (p.asks sock.seq sock.pid (name ++ (0 ∷ [])))) (λ sock'.
        p.bind _ _ (p.looped sock.seq (family_handler en) sock'.inbox tt family-Holds)
          (λ r. p.done _))

  get_connection-Holds : p.Holds (get_connection en)
  unfolding get_connection
  get_connection-Holds = p.bind connect _ p.connected (λ socket.
      p.bind (resolve_genl_family_id en socket tutu_genl_family_name) (λ r. pure (r.1, r.0))
        (resolve-Holds socket tutu_genl_family_name) (λ r. p.done (r.1, r.0)))

  -- A request with this command may be sent, whoever sends it.
  abbrev pub Permits : ℕ → ℕ → List (ℕ × Bytes) → Type 0
  Permits flags cmd attrs =
      (family_id seq pid : ℕ)
      → p.MaySend (build_packet_genl_msg en family_id flags seq pid cmd tutu_genl_version attrs)

  request-Holds :
      {S A : Type 0} (flags cmd : ℕ) (attrs : List (ℕ × Bytes)) (h : Handler S A) (s : S)
      → Permits flags cmd attrs
      → HandlerHolds h
      → p.Holds (request en flags cmd attrs h s)
  unfolding request next_seq
  request-Holds flags cmd attrs h s may hr = p.bind (get_connection en) _ get_connection-Holds (λ c.
      p.bind _ _ (p.sent _ _ (may _ _ _))
        (λ socket. p.bind _ _ (p.looped _ h socket.inbox s hr) (λ r. p.done _)))

  send_payload-Holds :
      (cmd attr_type : ℕ) (payload : Bytes) (ack : Bool)
      → ((flags : ℕ) → Permits flags cmd ((attr_type, payload) ∷ []))
      → p.Holds (send_payload en cmd attr_type payload ack)
  unfolding send_payload next_seq
  send_payload-Holds cmd attr_type payload true may =
      p.bind (get_connection en) _ get_connection-Holds (λ c.
        p.bind _ _ (p.sent _ _ (may _ _ _ _)) (λ socket.
          p.bind _ _ (p.looped _ (ack_handler en) socket.inbox tt ack-Holds) (λ r. p.done _)))
  send_payload-Holds cmd attr_type payload false may =
      p.bind (get_connection en) _ get_connection-Holds
        (λ c. p.bind _ _ (p.sent _ _ (may _ _ _ _)) (λ socket. p.done tt))

  module _ {T : Type 0} (l : Layout T) (attr_type : ℕ) where
    struct-Holds : HandlerHolds (struct_handler en l attr_type)
    unfolding struct_handler
    struct-Holds nlh rx off msg_end s =
        if_Holds p (nlh.nlmsg_type == 2) _ _ (on_error-Holds rx off msg_end (go_on tt)) (
          if_Holds p (nlh.nlmsg_type == 3) _ _ (failed p _) (
            on_attrs-Holds rx off msg_end _ (λ attrs.
              lift_then-Holds p (find_struct en l attr_type attrs) _
                (find_struct-ne-stuck en l attr_type attrs)
                (λ found.
                  Option-Holds p found _ _ (p.done (go_on tt))
                    (λ parsed. p.done (return parsed))))))

    module _ {S : Type 0} (handler : T → S → Net S)
        (hr : (t : T) (s : S) → p.Holds (handler t s)) where
      each_struct-Holds :
          (attrs : List (ℕ × Bytes)) (s : S) → p.Holds (each_struct en l attr_type handler attrs s)
      unfolding each_struct
      each_struct-Holds [] s = p.done s
      each_struct-Holds ((ty, payload) ∷ attrs) s =
          if_Holds p (ty == attr_type && leb l.size (length payload)) _ _
            (p.bind _ _ (hr (l.read payload) s) (each_struct-Holds attrs))
            (each_struct-Holds attrs s)

      dump-Holds : HandlerHolds (dump_handler en l attr_type handler)
      unfolding dump_handler
      dump-Holds nlh rx off msg_end s = if_Holds p (nlh.nlmsg_type == 3) _ _ (p.done (return s)) (
          if_Holds p (nlh.nlmsg_type == 2) _ _ (on_error-Holds rx off msg_end (go_on s)) (
            on_attrs-Holds rx off msg_end _
              (λ attrs. p.bind _ _ (each_struct-Holds attrs s) (λ s'. p.done (go_on s')))))

  module _ {S : Type 0} (attr_type : ℕ) (handler : Bytes → S → Net S)
      (hr : (text : Bytes) (s : S) → p.Holds (handler text s)) where
    each_string-Holds :
        (attrs : List (ℕ × Bytes)) (s : S) → p.Holds (each_string en attr_type handler attrs s)
    unfolding each_string
    each_string-Holds [] s = p.done s
    each_string-Holds ((ty, payload) ∷ attrs) s =
        if_Holds p (ty == attr_type) _ _ (p.bind _ _ (hr _ s) (each_string-Holds attrs))
          (each_string-Holds attrs s)

    dump_string-Holds : HandlerHolds (dump_string_handler en attr_type handler)
    unfolding dump_string_handler
    dump_string-Holds nlh rx off msg_end s =
        if_Holds p (nlh.nlmsg_type == 3) _ _ (p.done (return s)) (
          if_Holds p (nlh.nlmsg_type == 2) _ _ (on_error-Holds rx off msg_end (go_on s)) (
            on_attrs-Holds rx off msg_end _
              (λ attrs. p.bind _ _ (each_string-Holds attrs s) (λ s'. p.done (go_on s')))))

  module _ {T : Type 0} (l : Layout T) (cmd attr_type : ℕ) where
    pub send_struct-Holds :
        (value : T) (ack : Bool)
        → ((flags : ℕ) → Permits flags cmd ((attr_type, l.as_bytes value) ∷ []))
        → p.Holds (send_struct en l cmd attr_type value ack)
    unfolding send_struct
    send_struct-Holds value ack = send_payload-Holds cmd attr_type (l.as_bytes value) ack

    pub receive_struct-Holds :
        (in_data : Option Bytes)
        → ((flags : ℕ) → Permits flags cmd (in_attrs en attr_type in_data))
        → p.Holds (receive_struct en l cmd attr_type in_data)
    unfolding receive_struct
    receive_struct-Holds in_data may = request-Holds _ cmd _ _ tt (may _) (struct-Holds l attr_type)

    pub dump_structs-Holds :
        {S : Type 0} (handler : T → S → Net S) (s : S)
        → ((flags : ℕ) → Permits flags cmd [])
        → ((t : T) (s' : S) → p.Holds (handler t s'))
        → p.Holds (dump_structs en l cmd attr_type handler s)
    unfolding dump_structs
    dump_structs-Holds handler s may hr =
        request-Holds _ cmd [] _ s (may _) (dump-Holds l attr_type handler hr)

  module _ (cmd attr_type : ℕ) where
    pub send_string-Holds :
        (text : Bytes) (ack : Bool)
        → ((flags : ℕ) → Permits flags cmd ((attr_type, text ++ (0 ∷ [])) ∷ []))
        → p.Holds (send_string en cmd attr_type text ack)
    unfolding send_string
    send_string-Holds text ack = send_payload-Holds cmd attr_type (text ++ (0 ∷ [])) ack

    pub dump_strings-Holds :
        {S : Type 0} (handler : Bytes → S → Net S) (s : S)
        → ((flags : ℕ) → Permits flags cmd [])
        → ((x : Bytes) (s' : S) → p.Holds (handler x s'))
        → p.Holds (dump_strings en cmd attr_type handler s)
    unfolding dump_strings
    dump_strings-Holds handler s may hr =
        request-Holds _ cmd [] _ s (may _) (dump_string-Holds attr_type handler hr)
