-- ===== src/Netlink/Socket.antt =====
-- `NetlinkSocket` of ktuctl-rs/src/netlink.rs: `connect`, `next_seq`, `send`; `recv` is a round of
-- `Loop.recv_loop`.
use ktuctl_rs.Prelude.{ℕ, ◌+◌, ◌%◌, ◌^◌, List, [], ◌∷◌, ◌++◌, Bool, not, if◌then◌else◌}
use ktuctl_rs.Bytes.{Bytes}
use ktuctl_rs.Outcome.{ok, err, Error}
use ktuctl_rs.World.{Net}
use ktuctl_rs.Netlink.Loop.{Inbox}

-- `send_ok` and `inbox` are what is to come on the socket.
pub record NetlinkSocket : Type 0 where
  pub send_ok : List Bool
  pub inbox : Inbox
  pub seq : ℕ
  pub pid : ℕ

-- Where the world has no further conversation there is no socket to be had.
unfoldable pub connect : Net NetlinkSocket
connect w = elim w.conversations [
  | [] ↦ (err Error.socket_failed, w)
  | c ∷ rest ↦
      let w' = record w { conversations = rest } in
      if not c.socket_ok
      then (err Error.socket_failed, w')
      else (if not c.bind_ok
          then (err Error.bind_auto_failed, w')
          else (ok (record { send_ok = c.send_ok; inbox = c.inbox; seq = 1; pid = 0 }), w'))
]

-- `self.seq.wrapping_add(1)`
unfoldable pub next_seq : NetlinkSocket → ℕ × NetlinkSocket
next_seq sock = (sock.seq, record sock { seq = (sock.seq + 1) % 2 ^ 32 })

unfoldable pub send : NetlinkSocket → Bytes → Net NetlinkSocket
send sock buf w = elim sock.send_ok [
  | [] ↦ (ok sock, record w { sent = w.sent ++ (buf ∷ []) })
  | good ∷ rest ↦
      if good
      then (ok (record sock { send_ok = rest }), record w { sent = w.sent ++ (buf ∷ []) })
      else (err Error.send_to_failed, w)
]
