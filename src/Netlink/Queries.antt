-- ===== src/Netlink/Queries.antt =====
-- Which datagrams an action of ktuctl-rs/src/netlink.rs sends.
use ktuctl_rs.Prelude.{
  ℕ, ◌⊎◌, zero, suc, ◌+◌, ◌≡◌, sym, ap, ◌∙◌, List, [], ◌∷◌, ◌++◌, append-nil, append_assoc, none,
  some, ◌==◌, All, All-append, length, take, Bool-cases, inl, inr, arith,
}
use ktuctl_rs.Bytes.{Endian, Bytes}
use ktuctl_rs.Outcome.{Outcome, ok, err, panic, blocked, stuck, Error}
use ktuctl_rs.World.{World, Net, and_then, ◌>>=◌, or_else}
use ktuctl_rs.Netlink.Attr.{nlmsg_align}
use ktuctl_rs.Protocol.Constants.{
  genl_id_ctrl, nlm_f_request, ctrl_cmd_getfamily, ctrl_attr_family_name,
}
use ktuctl_rs.Netlink.Message.{NlmsghdrRaw, build_packet_genl_msg}
use ktuctl_rs.Netlink.Loop.{
  Flow, go_on, return, Handler, Inbox, message_at, walk, walk_datagram, recv_loop, recv_capacity,
}
use ktuctl_rs.Netlink.Socket.{NetlinkSocket, connect, send}
use native.Mathlib.Decide.{dec_lt}
use ktuctl_rs.Netlink.Refinement.{walk_end, resume, receive_on}
use ktuctl_rs.Netlink.Progress.{round, walk-round}
use ktuctl_rs.Netlink.Closed.{Closed}

module _ (P : Bytes → Type 0) where
  -- The later log has more datagrams at its end, and all of those are of the kind.
  abbrev pub Extends : List Bytes → List Bytes → Type 0
  Extends before after = (new : List Bytes) × (after ≡ before ++ new) × All P new

  -- Whatever the world is, the action sends datagrams of the kind only.
  abbrev pub SendsOnly : {A : Type 0} → Net A → Type 0
  SendsOnly m = (w : World) → Extends w.sent (m w).1.sent

  pub Extends-refl : (before : List Bytes) → Extends before before
  Extends-refl before = ([], sym (append-nil before), tt)

  Extends-trans : (a b c : List Bytes) → Extends a b → Extends b c → Extends a c
  Extends-trans a b c (x, e, hx) (y, f, hy) =
      (x ++ y, f ∙ ap (λ z. z ++ y) e ∙ append_assoc a x y, All-append P x y hx hy)

  module _ {A B : Type 0} where
    and_then-SendsOnly :
        (before : List Bytes) (r : Outcome A × World) (f : A → Net B)
        → Extends before r.1.sent
        → ((a : A) → SendsOnly (f a))
        → Extends before (and_then r f).1.sent
    and_then-SendsOnly before (ok a, w) f h hf = Extends-trans before w.sent _ h (hf a w)
    and_then-SendsOnly before (err e, w) f h hf = h
    and_then-SendsOnly before (panic, w) f h hf = h
    and_then-SendsOnly before (blocked, w) f h hf = h
    and_then-SendsOnly before (stuck, w) f h hf = h

  pub or_else-SendsOnly :
      {A : Type 0} (before : List Bytes) (r : Outcome A × World) (f : Error → Net A)
      → Extends before r.1.sent
      → ((e : Error) → SendsOnly (f e))
      → Extends before (or_else r f).1.sent
  or_else-SendsOnly before (ok a, w) f h hf = h
  or_else-SendsOnly before (err e, w) f h hf = Extends-trans before w.sent _ h (hf e w)
  or_else-SendsOnly before (panic, w) f h hf = h
  or_else-SendsOnly before (blocked, w) f h hf = h
  or_else-SendsOnly before (stuck, w) f h hf = h

  pub bind-SendsOnly :
      {A B : Type 0} (m : Net A) (f : A → Net B)
      → SendsOnly m
      → ((a : A) → SendsOnly (f a))
      → SendsOnly (m >>= f)
  bind-SendsOnly m f hm hf w = and_then-SendsOnly w.sent (m w) f (hm w) hf

  pub connect-SendsOnly : SendsOnly connect
  unfolding connect
  connect-SendsOnly w =
      let same : (connect w).1.sent ≡ w.sent = ground arith in rw same (Extends-refl w.sent)

  pub send-SendsOnly : (sock : NetlinkSocket) (buf : Bytes) → P buf → SendsOnly (send sock buf)
  unfolding send
  send-SendsOnly sock buf h w =
      let logged : ((send sock buf w).1.sent ≡ w.sent)
          ⊎ ((send sock buf w).1.sent ≡ w.sent ++ (buf ∷ [])) =
        ground arith in
      elim logged [ inl e ↦ rw e (Extends-refl w.sent) | inr e ↦ (buf ∷ [], e, (h, tt)) ]

  module _ (en : Endian) {S A : Type 0} (seq : ℕ) (h : Handler S A)
      (hr : (nlh : NlmsghdrRaw) (rx : Bytes) (off msg_end : ℕ) (t : S)
        → SendsOnly (h nlh rx off msg_end t)) where
    resume-SendsOnly :
        (k : S → Net (Flow S A))
        → ((s : S) → SendsOnly (k s))
        → (flow : Flow S A) → SendsOnly (resume k flow)
    resume-SendsOnly k hk (return a) w = Extends-refl w.sent
    resume-SendsOnly k hk (go_on s) w = hk s w

    round-SendsOnly :
        (fuel : ℕ) (rx : Bytes) (off : ℕ) (s : S) (nlh : NlmsghdrRaw)
        → ((s' : S) → SendsOnly (walk en seq h fuel rx (off + nlmsg_align nlh.nlmsg_len) s'))
        → SendsOnly (round en seq h fuel rx off s nlh)
    round-SendsOnly fuel rx off s nlh later w = elim (Bool-cases (nlh.nlmsg_seq == seq)) [
      | inl own ↦
          rw (own, round)
            (and_then-SendsOnly w.sent (h nlh rx off (off + nlh.nlmsg_len) s w) _
              (hr nlh rx off (off + nlh.nlmsg_len) s w) (λ flow. resume-SendsOnly _ later flow))
      | inr foreign ↦ rw (foreign, round) (later s w)
    ]

    walk-SendsOnly :
        (fuel : ℕ) (rx : Bytes) (off : ℕ) (s : S) → SendsOnly (walk en seq h fuel rx off s)
    unfolding walk
    walk-SendsOnly zero rx off s w = Extends-refl w.sent
    walk-SendsOnly (suc fuel) rx off s w = elim (dec_lt (length rx) (off + 16)) [
      | yes short ↦ rw (walk_end en seq h fuel rx off s w short) (Extends-refl w.sent)
      | no room ↦ rw (walk-round en seq h fuel rx off s w (omega arith)) (
          and_then-SendsOnly w.sent (message_at en rx off, w) (round en seq h fuel rx off s)
            (Extends-refl w.sent)
            (λ nlh.
              round-SendsOnly fuel rx off s nlh
                (walk-SendsOnly fuel rx (off + nlmsg_align nlh.nlmsg_len))))
    ]

    receive-SendsOnly :
        (inbox : Inbox) (k : S → Net (A × Inbox))
        → ((s : S) → SendsOnly (k s))
        → (flow : Flow S A) → SendsOnly (receive_on inbox k flow)
    receive-SendsOnly inbox k hk (return a) w = Extends-refl w.sent
    receive-SendsOnly inbox k hk (go_on s) w = hk s w

    pub recv_loop-SendsOnly : (inbox : Inbox) (s : S) → SendsOnly (recv_loop en seq h inbox s)
    unfolding recv_loop
    recv_loop-SendsOnly [] s w = Extends-refl w.sent
    recv_loop-SendsOnly (none ∷ inbox) s w = Extends-refl w.sent
    recv_loop-SendsOnly (some rx ∷ inbox) s w =
        and_then-SendsOnly w.sent (walk_datagram en seq h (take recv_capacity rx) s w) _
          (walk-SendsOnly _ (take recv_capacity rx) 0 s w)
          (λ flow. receive-SendsOnly inbox _ (recv_loop-SendsOnly inbox) flow)

  -- An action that sends datagrams of the kind only, which those are that ask for a family's number.
  abbrev pub sends_closed :
      (en : Endian)
      → ((seq pid : ℕ) (name : Bytes)
          → P (
              build_packet_genl_msg en genl_id_ctrl nlm_f_request seq pid ctrl_cmd_getfamily 1
                ((ctrl_attr_family_name, name) ∷ [])))
      → Closed en
  sends_closed en asks = record {
    Holds = λ m. SendsOnly m;
    MaySend = P;
    done = λ a w. Extends-refl w.sent;
    bind = λ m f. bind-SendsOnly m f;
    lifted = λ o h w. Extends-refl w.sent;
    printed = λ line w. Extends-refl w.sent;
    handled = λ m f hm hf w. or_else-SendsOnly w.sent (m w) f (hm w) hf;
    connected = connect-SendsOnly;
    sent = send-SendsOnly;
    asks = asks;
    looped = λ seq h inbox s hr. recv_loop-SendsOnly en seq h hr inbox s;
  }
