-- ===== src/Netlink/Loop.antt =====
-- The reply loops of ktuctl-rs/src/netlink.rs. `resolve_genl_family_id`, `send_struct`,
-- `send_string`, `receive_struct`, `dump_structs` and `dump_strings` each hold the same two loops,
-- over datagrams and over the messages of one, round a `match` of their own: the `Handler`.
use ktuctl_rs.Prelude.{
  ℕ, zero, suc, ◌+◌, List, [], ◌∷◌, true, false, Option, none, some, ltb, ◌==◌, if◌then◌else◌,
  length, take, slice,
}
use ktuctl_rs.Bytes.{Endian, Bytes}
use ktuctl_rs.Outcome.{Outcome, ok, err, panic, blocked, stuck, Error}
use ktuctl_rs.World.{Net, ◌>>=◌, pure, lift}
use ktuctl_rs.Netlink.Attr.{nlmsg_align, parse_attrs}
use ktuctl_rs.Netlink.Message.{
  NlmsghdrRaw, nlmsghdr_size, genlmsghdr_size, parse_nlmsghdr, parse_genlhdr,
}

-- A message either ends the function with a value, or changes what the loop has gathered so far.
pub data Flow (S A : Type 0) : Type 0 where
  go_on : S → Flow S A
  return : A → Flow S A

-- The `match` of a loop: the header, the datagram, the offset and end of the message in it, and
-- what has been gathered. It may print.
abbrev pub Handler : Type 0 → Type 0 → Type 0
Handler S A = NlmsghdrRaw → Bytes → ℕ → ℕ → S → Net (Flow S A)

-- What `recv_from` gave, in order: a datagram, or an error.
abbrev pub Inbox : Type 0
Inbox = List (Option Bytes)

-- The buffer of `recv` holds 65536 bytes, and the rest of a longer datagram is lost.
abbrev pub recv_capacity : ℕ
recv_capacity = 65536

module _ (en : Endian) where
  -- The header of the message at `off`, with the three checks of it.
  unfoldable pub message_at : Bytes → ℕ → Outcome NlmsghdrRaw
  message_at rx off = elim (parse_nlmsghdr en rx off) [
    | none ↦ err Error.bad_nlmsghdr
    | some nlh ↦
        if ltb nlh.nlmsg_len nlmsghdr_size
        then err Error.invalid_nlmsg_len
        else (if ltb (length rx) (off + nlh.nlmsg_len) then err Error.truncated_message else ok nlh)
  ]

  -- The attributes of the message at `off`: `parse_genlhdr`, then `&rx[attrs_off..msg_end]`, which
  -- panics where the range is reversed.
  unfoldable pub attrs_at : Bytes → ℕ → ℕ → Outcome (List (ℕ × Bytes))
  attrs_at rx off msg_end =
      let genl_off = off + nlmsghdr_size in
      let attrs_off = genl_off + genlmsghdr_size in
      elim (parse_genlhdr en rx genl_off) [
        | none ↦ err Error.bad_genlhdr
        | some genlh ↦
            if ltb msg_end attrs_off
            then panic
            else ok (parse_attrs en (slice rx attrs_off msg_end))
      ]

  module _ {S A : Type 0} (seq : ℕ) (h : Handler S A) where
    -- `while off + size_of::<NlmsghdrRaw>() <= rx.len()`. A round moves `off` by 16 at least.
    unfoldable pub walk : ℕ → Bytes → ℕ → S → Net (Flow S A)
    walk zero rx off s = lift stuck
    walk (suc fuel) rx off s = elim (ltb (length rx) (off + nlmsghdr_size)) [
      | true ↦ pure (Flow.go_on s)
      | false ↦ do
        nlh ← lift (message_at rx off)
        let next = off + nlmsg_align nlh.nlmsg_len
        elim (nlh.nlmsg_seq == seq) [
          | false ↦ walk fuel rx next s
          | true ↦ do
            flow ← h nlh rx off (off + nlh.nlmsg_len) s
            elim flow [
              | Flow.return a ↦ pure (Flow.return a)
              | Flow.go_on s' ↦ walk fuel rx next s'
            ]
        ]
    ]

    -- One datagram, with as much fuel as it has bytes, and one round more.
    abbrev pub walk_datagram : Bytes → S → Net (Flow S A)
    walk_datagram rx s = walk (suc (length rx)) rx 0 s

    -- `loop { let rx = sock.recv()?; … }`: the value, and what is left to receive.
    unfoldable pub recv_loop : Inbox → S → Net (A × Inbox)
    recv_loop [] s = lift blocked
    recv_loop (none ∷ inbox) s = lift (err Error.recv_from_failed)
    recv_loop (some rx ∷ inbox) s = do
      flow ← walk_datagram (take recv_capacity rx) s
      elim flow [ Flow.return a ↦ pure (a, inbox) | Flow.go_on s' ↦ recv_loop inbox s' ]
