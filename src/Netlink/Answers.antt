-- ===== src/Netlink/Answers.antt =====
-- The `match` of each reply loop of ktuctl-rs/src/netlink.rs on a message by itself, and that the
-- handlers of `Exchange` do the same with the message in its datagram.
use ktuctl_rs.Prelude.{
  ℕ, ◌+◌, ◌≡◌, ◌≢◌, ap, List, ◌++◌, arith, true, false, some, none, Bool-cases, inl, inr, ◌==◌,
  if◌then◌else◌, length, drop, ◌⊎◌,
}
use ktuctl_rs.Bytes.{Endian, Bytes}
use ktuctl_rs.Outcome.{ok, err, Error}
use ktuctl_rs.World.{Net, ◌>>=◌, ◌>>◌, pure, lift}
use ktuctl_rs.Protocol.Constants.{nlmsg_error, nlmsg_done}
use ktuctl_rs.Protocol.Layout.{Layout}
use ktuctl_rs.Netlink.Attr.{parse_attrs}
use ktuctl_rs.Netlink.Message.{check_nlmsg_error}
use ktuctl_rs.Netlink.Loop.{Flow, go_on, return, attrs_at}
use ktuctl_rs.Netlink.Datagram.{
  Message, IsSound, encode_message, StandsAt, body-encode_message, attrs_at-encode_message,
}
use ktuctl_rs.Netlink.Refinement.{Agrees}
use ktuctl_rs.Netlink.Exchange.{
  error_at, find_family_id, family_handler, ack_handler, find_struct, struct_handler, each_struct,
  dump_handler, each_string, dump_string_handler,
}

module _ (en : Endian) where
  -- The attributes behind the generic netlink header.
  abbrev pub attrs_of : Message → List (ℕ × Bytes)
  attrs_of m = parse_attrs en (drop 4 m.body)

  -- The three kinds of message: `NLMSG_ERROR`, `NLMSG_DONE`, or one with attributes.
  abbrev pub by_kind :
      {S A : Type 0} → Net (Flow S A) → Net (Flow S A) → Net (Flow S A) → Message → Net (Flow S A)
  by_kind on_error on_done on_attrs m =
      if m.type == nlmsg_error
      then lift (check_nlmsg_error en m.body) >> on_error
      else (if m.type == nlmsg_done then on_done else on_attrs)

  unfoldable pub family_answer : Message → Unit {0} → Net (Flow (Unit {0}) ℕ)
  family_answer m s =
      by_kind (pure (go_on tt)) (lift (err Error.family_not_found))
        (elim (find_family_id en (attrs_of m)) [
          | none ↦ pure (go_on tt)
          | some id ↦ pure (return id)
        ])
        m

  unfoldable pub ack_answer : Message → Unit {0} → Net (Flow (Unit {0}) (Unit {0}))
  ack_answer m s = by_kind (pure (return tt)) (pure (return tt)) (pure (go_on tt)) m

  module _ {T : Type 0} (l : Layout T) (attr_type : ℕ) where
    unfoldable pub struct_answer : Message → Unit {0} → Net (Flow (Unit {0}) T)
    struct_answer m s =
        by_kind (pure (go_on tt)) (lift (err Error.no_response))
          (do
            found ← lift (find_struct en l attr_type (attrs_of m))
            elim found [ none ↦ pure (go_on tt) | some parsed ↦ pure (return parsed) ])
          m

    unfoldable pub dump_answer : {S : Type 0} → (T → S → Net S) → Message → S → Net (Flow S S)
    dump_answer handler m s =
        by_kind (pure (go_on s)) (pure (return s))
          (do s' ← each_struct en l attr_type handler (attrs_of m) s; pure (go_on s')) m

  unfoldable pub dump_string_answer :
      {S : Type 0} → ℕ → (Bytes → S → Net S) → Message → S → Net (Flow S S)
  dump_string_answer attr_type handler m s =
      by_kind (pure (go_on s)) (pure (return s))
        (do s' ← each_string en attr_type handler (attrs_of m) s; pure (go_on s')) m

  module _ (m : Message) (sound : IsSound m) (post rx : Bytes) (off : ℕ)
      (at_off : StandsAt en (encode_message en m ++ post) rx off) where
    error_at_body : error_at en rx off (off + (16 + length m.body)) ≡ check_nlmsg_error en m.body
    error_at_body = ap (check_nlmsg_error en) (body-encode_message en m sound post rx off at_off)

    attrs_at_body :
        m.type ≢ nlmsg_error
        → m.type ≢ nlmsg_done
        → attrs_at en rx off (off + (16 + length m.body)) ≡ ok (attrs_of m)
    attrs_at_body he hd =
        attrs_at-encode_message en m sound post rx off at_off (sound.generic he hd)

  -- A message by its type, with what the tests on it give.
  kinds :
      (t : ℕ)
      → ((t == nlmsg_error) ≡ true) × ((t == nlmsg_done) ≡ false)
        ⊎ (((t == nlmsg_error) ≡ false) × ((t == nlmsg_done) ≡ true)
            ⊎ ((t == nlmsg_error) ≡ false)
              × ((t == nlmsg_done) ≡ false)
              × (t ≢ nlmsg_error)
              × (t ≢ nlmsg_done))
  kinds t = elim (Bool-cases (t == nlmsg_error)) [
    | inl e ↦ inl (e, ground arith)
    | inr e ↦ elim (Bool-cases (t == nlmsg_done)) [
      | inl d ↦ inr (inl (e, d))
      | inr d ↦ inr (inr (e, d, ground arith, ground arith))
    ]
  ]

  pub family_handler-Agrees : Agrees en (family_handler en) family_answer
  unfolding family_handler family_answer
  family_handler-Agrees m sound post rx off at_off s w = elim (kinds m.type) [
    | inl (e, d) ↦ rw (e, error_at_body m sound post rx off at_off)
    | inr (inl (e, d)) ↦ rw (e, d)
    | inr (inr (e, d, ne, nd)) ↦ rw (e, d, attrs_at_body m sound post rx off at_off ne nd)
  ]

  pub ack_handler-Agrees : Agrees en (ack_handler en) ack_answer
  unfolding ack_handler ack_answer
  ack_handler-Agrees m sound post rx off at_off s w = elim (kinds m.type) [
    | inl (e, d) ↦ rw (e, error_at_body m sound post rx off at_off)
    | inr (inl (e, d)) ↦ rw (e, d)
    | inr (inr (e, d, ne, nd)) ↦ rw (e, d)
  ]

  module _ {T : Type 0} (l : Layout T) (attr_type : ℕ) where
    pub struct_handler-Agrees :
        Agrees en (struct_handler en l attr_type) (struct_answer l attr_type)
    unfolding struct_handler struct_answer
    struct_handler-Agrees m sound post rx off at_off s w = elim (kinds m.type) [
      | inl (e, d) ↦ rw (e, error_at_body m sound post rx off at_off)
      | inr (inl (e, d)) ↦ rw (e, d)
      | inr (inr (e, d, ne, nd)) ↦ rw (e, d, attrs_at_body m sound post rx off at_off ne nd)
    ]

    pub dump_handler-Agrees :
        {S : Type 0} (handler : T → S → Net S)
        → Agrees en (dump_handler en l attr_type handler) (dump_answer l attr_type handler)
    unfolding dump_handler dump_answer
    dump_handler-Agrees handler m sound post rx off at_off s w = elim (kinds m.type) [
      | inl (e, d) ↦ rw (d, e, error_at_body m sound post rx off at_off)
      | inr (inl (e, d)) ↦ rw (d, e)
      | inr (inr (e, d, ne, nd)) ↦ rw (d, e, attrs_at_body m sound post rx off at_off ne nd)
    ]

  dump_string_handler-Agrees :
      {S : Type 0} (attr_type : ℕ) (handler : Bytes → S → Net S)
      → Agrees en (dump_string_handler en attr_type handler) (dump_string_answer attr_type handler)
  unfolding dump_string_handler dump_string_answer
  dump_string_handler-Agrees attr_type handler m sound post rx off at_off s w =
      elim (kinds m.type) [
        | inl (e, d) ↦ rw (d, e, error_at_body m sound post rx off at_off)
        | inr (inl (e, d)) ↦ rw (d, e)
        | inr (inr (e, d, ne, nd)) ↦ rw (d, e, attrs_at_body m sound post rx off at_off ne nd)
      ]
