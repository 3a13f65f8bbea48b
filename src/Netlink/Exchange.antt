-- ===== src/Netlink/Exchange.antt =====
-- The exchanges of ktuctl-rs/src/netlink.rs: `resolve_genl_family_id`, `get_connection`,
-- `send_struct`, `send_string`, `receive_struct`, `dump_structs` and `dump_strings`, each with the
-- `match` of its reply loop.
use ktuctl_rs.Prelude.{
  ℕ, ◌+◌, List, [], ◌∷◌, ◌++◌, Bool, true, false, ◌&&◌, Option, none, some, ltb, leb, ◌==◌,
  if◌then◌else◌, length, take, slice,
}
use ktuctl_rs.Bytes.{Endian, Bytes, from_ne_bytes}
use ktuctl_rs.Text.{until_nul, from_utf8_lossy}
use ktuctl_rs.Outcome.{Outcome, ok, err, Error}
use ktuctl_rs.World.{Net, ◌>>=◌, ◌>>◌, pure, lift}
use ktuctl_rs.Protocol.Constants.{
  tutu_genl_version, tutu_genl_family_name, genl_id_ctrl, ctrl_cmd_getfamily, ctrl_attr_family_id,
  ctrl_attr_family_name, nlm_f_request, nlm_f_ack, nlm_f_dump, nlmsg_error, nlmsg_done,
}
use ktuctl_rs.Protocol.Layout.{Layout, read_from_prefix}
use ktuctl_rs.Netlink.Message.{nlmsghdr_size, build_packet_genl_msg, check_nlmsg_error}
use ktuctl_rs.Netlink.Loop.{go_on, return, Handler, attrs_at, recv_loop}
use ktuctl_rs.Netlink.Socket.{NetlinkSocket, connect, next_seq, send}

module _ (en : Endian) where
  -- `check_nlmsg_error` on the payload of the message at `off`.
  abbrev pub error_at : Bytes → ℕ → ℕ → Outcome (Unit {0})
  error_at rx off msg_end = check_nlmsg_error en (slice rx (off + nlmsghdr_size) msg_end)

  -- The first family id among the attributes.
  unfoldable pub find_family_id : List (ℕ × Bytes) → Option ℕ
  find_family_id [] = none
  find_family_id ((ty, payload) ∷ attrs) =
      if ty == ctrl_attr_family_id && leb 2 (length payload)
      then some (from_ne_bytes en (take 2 payload))
      else find_family_id attrs

  unfoldable pub family_handler : Handler (Unit {0}) ℕ
  unfolding find_family_id
  family_handler nlh rx off msg_end s =
      if nlh.nlmsg_type == nlmsg_error
      then (do lift (error_at rx off msg_end); pure (go_on tt))
      else (if nlh.nlmsg_type == nlmsg_done then lift (err Error.family_not_found) else (do
        attrs ← lift (attrs_at en rx off msg_end)
        elim (find_family_id attrs) [ none ↦ pure (go_on tt) | some id ↦ pure (return id) ]))

  unfoldable pub resolve_genl_family_id : NetlinkSocket → Bytes → Net (ℕ × NetlinkSocket)
  unfolding family_handler
  resolve_genl_family_id sock family_name = do
    let (seq, sock₁) = next_seq sock
    let name = family_name ++ (0 ∷ [])
    let msg =
        build_packet_genl_msg en genl_id_ctrl nlm_f_request seq sock₁.pid ctrl_cmd_getfamily 1
          ((ctrl_attr_family_name, name) ∷ [])
    sock₂ ← send sock₁ msg
    (id, inbox) ← recv_loop en seq family_handler sock₂.inbox tt
    pure (id, record sock₂ { inbox = inbox })

  unfoldable pub get_connection : Net (NetlinkSocket × ℕ)
  unfolding resolve_genl_family_id
  get_connection = do
    socket ← connect
    (family_id, socket') ← resolve_genl_family_id socket tutu_genl_family_name
    pure (socket', family_id)

  -- The wait for an acknowledgement, or for the end of a dump.
  unfoldable pub ack_handler : Handler (Unit {0}) (Unit {0})
  ack_handler nlh rx off msg_end s =
      if nlh.nlmsg_type == nlmsg_error
      then (do lift (error_at rx off msg_end); pure (return tt))
      else (if nlh.nlmsg_type == nlmsg_done then pure (return tt) else pure (go_on tt))

  -- The common body of `send_struct` and `send_string`.
  unfoldable pub send_payload : ℕ → ℕ → Bytes → Bool → Net (Unit {0})
  unfolding get_connection ack_handler
  send_payload cmd attr_type payload ack = do
    (socket, family_id) ← get_connection
    let (seq, socket₁) = next_seq socket
    let flags = if ack then nlm_f_request + nlm_f_ack else nlm_f_request
    let msg =
        build_packet_genl_msg en family_id flags seq socket₁.pid cmd tutu_genl_version
          ((attr_type, payload) ∷ [])
    socket₂ ← send socket₁ msg
    (elim ack [
      | true ↦ do (done, inbox) ← recv_loop en seq ack_handler socket₂.inbox tt; pure done
      | false ↦ pure tt
    ])

  unfoldable pub send_struct : {T : Type 0} → Layout T → ℕ → ℕ → T → Bool → Net (Unit {0})
  unfolding send_payload
  send_struct l cmd attr_type value ack = send_payload cmd attr_type (l.as_bytes value) ack

  unfoldable pub send_string : ℕ → ℕ → Bytes → Bool → Net (Unit {0})
  unfolding send_payload
  send_string cmd attr_type text ack = send_payload cmd attr_type (text ++ (0 ∷ [])) ack

  module _ {T : Type 0} (l : Layout T) (attr_type : ℕ) where
    -- The first attribute of the type decides.
    unfoldable pub find_struct : List (ℕ × Bytes) → Outcome (Option T)
    find_struct [] = ok none
    find_struct ((ty, payload) ∷ attrs) =
        if ty == attr_type
        then (if ltb (length payload) l.size
            then err Error.struct_too_small
            else elim (read_from_prefix l payload) [
              | none ↦ err Error.struct_parse_failed
              | some parsed ↦ ok (some parsed)
            ])
        else find_struct attrs

    unfoldable pub struct_handler : Handler (Unit {0}) T
    unfolding find_struct
    struct_handler nlh rx off msg_end s =
        if nlh.nlmsg_type == nlmsg_error
        then (do lift (error_at rx off msg_end); pure (go_on tt))
        else (if nlh.nlmsg_type == nlmsg_done then lift (err Error.no_response) else (do
          attrs ← lift (attrs_at en rx off msg_end)
          found ← lift (find_struct attrs)
          elim found [ none ↦ pure (go_on tt) | some parsed ↦ pure (return parsed) ]))

    module _ {S : Type 0} (handler : T → S → Net S) where
      -- Every attribute of the type that is long enough goes to the handler.
      unfoldable pub each_struct : List (ℕ × Bytes) → S → Net S
      each_struct [] s = pure s
      each_struct ((ty, payload) ∷ attrs) s =
          if ty == attr_type && leb l.size (length payload)
          then (do s' ← handler (l.read payload) s; each_struct attrs s')
          else each_struct attrs s

      unfoldable pub dump_handler : Handler S S
      unfolding each_struct
      dump_handler nlh rx off msg_end s =
          if nlh.nlmsg_type == nlmsg_done
          then pure (return s)
          else (if nlh.nlmsg_type == nlmsg_error
              then (do lift (error_at rx off msg_end); pure (go_on s))
              else (do
                attrs ← lift (attrs_at en rx off msg_end)
                s' ← each_struct attrs s
                pure (go_on s')))

  module _ {S : Type 0} (attr_type : ℕ) (handler : Bytes → S → Net S) where
    -- The text of an attribute ends at its first 0.
    unfoldable pub each_string : List (ℕ × Bytes) → S → Net S
    each_string [] s = pure s
    each_string ((ty, payload) ∷ attrs) s =
        if ty == attr_type
        then (do s' ← handler (from_utf8_lossy (until_nul payload)) s; each_string attrs s')
        else each_string attrs s

    unfoldable pub dump_string_handler : Handler S S
    unfolding each_string
    dump_string_handler nlh rx off msg_end s =
        if nlh.nlmsg_type == nlmsg_done
        then pure (return s)
        else (if nlh.nlmsg_type == nlmsg_error
            then (do lift (error_at rx off msg_end); pure (go_on s))
            else (do
              attrs ← lift (attrs_at en rx off msg_end)
              s' ← each_string attrs s
              pure (go_on s')))

  -- A request and the value of its reply loop.
  unfoldable pub request : {S A : Type 0} → ℕ → ℕ → List (ℕ × Bytes) → Handler S A → S → Net A
  unfolding get_connection
  request flags cmd attrs h s = do
    (socket, family_id) ← get_connection
    let (seq, socket₁) = next_seq socket
    let msg = build_packet_genl_msg en family_id flags seq socket₁.pid cmd tutu_genl_version attrs
    socket₂ ← send socket₁ msg
    (value, inbox) ← recv_loop en seq h socket₂.inbox s
    pure value

  abbrev pub in_attrs : ℕ → Option Bytes → List (ℕ × Bytes)
  in_attrs attr_type none = []
  in_attrs attr_type (some d) = (attr_type, d) ∷ []

  unfoldable pub receive_struct : {T : Type 0} → Layout T → ℕ → ℕ → Option Bytes → Net T
  unfolding request struct_handler
  receive_struct l cmd attr_type in_data =
      request nlm_f_request cmd (in_attrs attr_type in_data) (struct_handler l attr_type) tt

  unfoldable pub dump_structs : {T S : Type 0} → Layout T → ℕ → ℕ → (T → S → Net S) → S → Net S
  unfolding request dump_handler
  dump_structs l cmd attr_type handler s =
      request (nlm_f_request + nlm_f_dump) cmd [] (dump_handler l attr_type handler) s

  unfoldable pub dump_strings : {S : Type 0} → ℕ → ℕ → (Bytes → S → Net S) → S → Net S
  unfolding request dump_string_handler
  dump_strings cmd attr_type handler s =
      request (nlm_f_request + nlm_f_dump) cmd [] (dump_string_handler attr_type handler) s
