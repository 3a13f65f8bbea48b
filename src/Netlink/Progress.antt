-- ===== src/Netlink/Progress.antt =====
-- The reply loops of ktuctl-rs/src/netlink.rs end on every input, well formed or not.
use ktuctl_rs.Prelude.{
  ℕ, zero, suc, ◌+◌, ◌≤◌, ◌<◌, ◌≡◌, ◌≢◌, refl, [], ◌∷◌, arith, true, false, some, none, Bool-cases,
  inl, inr, ltb-false, ◌==◌, length, take,
}
use native.Mathlib.Decide.{dec_lt}
use ktuctl_rs.Bytes.{Endian, Bytes}
use ktuctl_rs.Outcome.{Outcome, ok, err, panic, blocked, stuck}
use ktuctl_rs.World.{World, Net, and_then}
use ktuctl_rs.Netlink.Attr.{nlmsg_align}
use ktuctl_rs.Netlink.Message.{NlmsghdrRaw}
use ktuctl_rs.Netlink.Loop.{
  Flow, go_on, return, Handler, Inbox, recv_capacity, walk, walk_datagram, recv_loop, message_at,
}
use ktuctl_rs.Netlink.Refinement.{walk_end, resume, receive_on}

-- An action that does not run out of the model's fuel.
abbrev pub Runs : {A : Type 0} → Net A → Type 0
Runs m = (w : World) → (m w).0 ≢ stuck

pub and_then-ne-stuck :
    {A B : Type 0} (r : Outcome A × World) (f : A → Net B)
    → r.0 ≢ stuck
    → ((a : A) → r.0 ≡ ok a → Runs (f a))
    → (and_then r f).0 ≢ stuck
and_then-ne-stuck (ok a, w) f hr hf e = hf a refl w e
and_then-ne-stuck (err x, w) f hr hf e = cc
and_then-ne-stuck (panic, w) f hr hf e = cc
and_then-ne-stuck (blocked, w) f hr hf e = cc
and_then-ne-stuck (stuck, w) f hr hf e = hr refl

-- A `match` that always returns.
abbrev pub HandlerRuns : {S A : Type 0} → Handler S A → Type 0
HandlerRuns {S} h =
    (nlh : NlmsghdrRaw) (rx : Bytes) (off msg_end : ℕ) (s : S) → Runs (h nlh rx off msg_end s)

align_grows : (n : ℕ) → n ≤ nlmsg_align n
unfolding nlmsg_align
align_grows n = omega arith

module _ (en : Endian) {S A : Type 0} (seq : ℕ) (h : Handler S A) where
  -- A message that passes the checks is 16 bytes long at least.
  message_at_len :
      (rx : Bytes) (off : ℕ) (nlh : NlmsghdrRaw)
      → message_at en rx off ≡ ok nlh
      → 16 ≤ nlh.nlmsg_len
  unfolding message_at
  message_at_len rx off nlh e = ground arith

  message_at-ne-stuck : (rx : Bytes) (off : ℕ) → message_at en rx off ≢ stuck
  unfolding message_at
  message_at-ne-stuck rx off e = ground arith

  -- A round behind the checks.
  abbrev pub round : ℕ → Bytes → ℕ → S → NlmsghdrRaw → Net (Flow S A)
  round fuel rx off s nlh = elim (nlh.nlmsg_seq == seq) [
    | false ↦ walk en seq h fuel rx (off + nlmsg_align nlh.nlmsg_len) s
    | true ↦ λ w.
        and_then (h nlh rx off (off + nlh.nlmsg_len) s w)
          (resume (walk en seq h fuel rx (off + nlmsg_align nlh.nlmsg_len)))
  ]

  pub walk-round :
      (fuel : ℕ) (rx : Bytes) (off : ℕ) (s : S) (w : World)
      → off + 16 ≤ length rx
      → walk en seq h (suc fuel) rx off s w
        ≡ and_then (message_at en rx off, w) (round fuel rx off s)
  unfolding walk
  walk-round fuel rx off s w room = rw (ltb-false (length rx) (off + 16) room, walk)

  module _ (h_runs : HandlerRuns h) where
    resume-Runs :
        (k : S → Net (Flow S A)) → ((s : S) → Runs (k s)) → (flow : Flow S A) → Runs (resume k flow)
    resume-Runs k hk (return a) w e = cc
    resume-Runs k hk (go_on s) w e = hk s w e

    round-Runs :
        (fuel : ℕ) (rx : Bytes) (off : ℕ) (s : S) (nlh : NlmsghdrRaw)
        → ((s' : S) → Runs (walk en seq h fuel rx (off + nlmsg_align nlh.nlmsg_len) s'))
        → Runs (round fuel rx off s nlh)
    round-Runs fuel rx off s nlh later w = elim (Bool-cases (nlh.nlmsg_seq == seq)) [
      | inl own ↦
          rw (own, round)
            (and_then-ne-stuck (h nlh rx off (off + nlh.nlmsg_len) s w) _ (h_runs nlh rx off _ s w)
              (λ flow _. resume-Runs _ later flow))
      | inr foreign ↦ rw (foreign, round) (later s w)
    ]

    -- Whatever the datagram holds, the inner loop ends: fuel above the bytes that are left is
    -- enough, since a message that passes the checks moves on by 16 bytes at least.
    walk-ne-stuck :
        (fuel : ℕ) (rx : Bytes) (off : ℕ) (s : S)
        → length rx < fuel + off
        → 0 < fuel
        → Runs (walk en seq h fuel rx off s)
    walk-ne-stuck zero rx off s hf pos w = absurd (omega arith)
    walk-ne-stuck (suc fuel) rx off s hf pos w = elim (dec_lt (length rx) (off + 16)) [
      | yes short ↦ rw (walk_end en seq h fuel rx off s w short) (λ e. cc)
      | no room ↦ rw (walk-round fuel rx off s w (omega arith)) (
          and_then-ne-stuck (message_at en rx off, w) (round fuel rx off s)
            (message_at-ne-stuck rx off)
            (λ nlh e. round-Runs fuel rx off s nlh (λ s'.
              walk-ne-stuck fuel rx (off + nlmsg_align nlh.nlmsg_len) s'
                (omega (arith, message_at_len rx off nlh e, align_grows nlh.nlmsg_len))
                (omega (arith, message_at_len rx off nlh e)))))
    ]

    receive-Runs :
        (inbox : Inbox) (k : S → Net (A × Inbox))
        → ((s : S) → Runs (k s))
        → (flow : Flow S A) → Runs (receive_on inbox k flow)
    receive-Runs inbox k hk (return a) w e = cc
    receive-Runs inbox k hk (go_on s) w e = hk s w e

    -- On every list of datagrams and receive errors, well formed or not, a reply loop whose `match`
    -- returns comes to a value, an error, a panic or a wait for more: its fuel never runs out.
    pub recv_loop-ne-stuck : (inbox : Inbox) (s : S) → Runs (recv_loop en seq h inbox s)
    unfolding recv_loop
    recv_loop-ne-stuck [] s w = λ e. cc
    recv_loop-ne-stuck (none ∷ inbox) s w = λ e. cc
    recv_loop-ne-stuck (some rx ∷ inbox) s w =
        and_then-ne-stuck (walk_datagram en seq h (take recv_capacity rx) s w) _
          (walk-ne-stuck _ (take recv_capacity rx) 0 s (omega arith) (omega arith) w)
          (λ flow _. receive-Runs inbox _ (recv_loop-ne-stuck inbox) flow)
