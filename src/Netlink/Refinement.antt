-- ===== src/Netlink/Refinement.antt =====
-- The reply loops of ktuctl-rs/src/netlink.rs against lists of messages, and their end.
use ktuctl_rs.Prelude.{
  ℕ, zero, suc, ◌+◌, ◌≤◌, ◌<◌, ◌≡◌, refl, sym, ap, ◌∙◌, List, [], ◌∷◌, ◌++◌, arith, true, false,
  some, Bool-cases, inl, inr, ltb-false, ltb-true, ◌==◌, length, take, length-append, All, take_all,
}
use mathlib.Core.Path.{fun_ext}
use ktuctl_rs.Bytes.{Endian, Bytes}
use ktuctl_rs.Outcome.{ok}
use ktuctl_rs.World.{World, Net, and_then, pure}
use ktuctl_rs.Netlink.Attr.{nlmsg_align}
use ktuctl_rs.Netlink.Loop.{
  Flow, Inbox, go_on, return, Handler, recv_capacity, walk, walk_datagram, recv_loop, message_at,
}
use ktuctl_rs.Netlink.Message.{NlmsghdrRaw}
use ktuctl_rs.Netlink.Datagram.{
  Message, header, IsSound, encode_message, encode_messages, StandsAt, length-encode_message,
  message_at-encode_message, next-encode_message, run_messages, run_datagrams, inbox_of, FitsBuffer,
}

module _ {S A : Type 0} where
  -- To go on after a message, or to return.
  abbrev pub resume : (S → Net (Flow S A)) → Flow S A → Net (Flow S A)
  resume k flow = elim flow [ return a ↦ pure (return a) | go_on s ↦ k s ]

  -- To go on with the next datagram, or to return.
  abbrev pub receive_on : Inbox → (S → Net (A × Inbox)) → Flow S A → Net (A × Inbox)
  receive_on inbox k flow = elim flow [ return a ↦ pure (a, inbox) | go_on s ↦ k s ]

module _ (en : Endian) {S A : Type 0} where
  -- The `match` of a loop does with a message in a datagram what `answer` does with the message.
  abbrev pub Agrees : Handler S A → (Message → S → Net (Flow S A)) → Type 0
  Agrees h answer =
      (m : Message)
      → IsSound m
      → (post rx : Bytes) (off : ℕ) → StandsAt en (encode_message en m ++ post) rx off
      → (s : S) (w : World) → h (header m) rx off (off + (16 + length m.body)) s w ≡ answer m s w

  module _ (seq : ℕ) (answer : Message → S → Net (Flow S A)) (m : Message) (ms : List Message)
      (s : S) (w : World) where
    run_messages_foreign :
        (m.seq == seq) ≡ false
        → run_messages en seq answer (m ∷ ms) s w ≡ run_messages en seq answer ms s w
    unfolding run_messages
    run_messages_foreign e = rw (e, run_messages)

    pub run_messages_own :
        (m.seq == seq) ≡ true
        → run_messages en seq answer (m ∷ ms) s w
          ≡ and_then (answer m s w) (resume (run_messages en seq answer ms))
    unfolding run_messages
    run_messages_own e = rw (e, run_messages)

  -- The three rounds of the inner loop.
  module _ (seq : ℕ) (h : Handler S A) (fuel : ℕ) (rx : Bytes) (off : ℕ) (s : S) (w : World) where
    pub walk_end : length rx < off + 16 → walk en seq h (suc fuel) rx off s w ≡ (ok (go_on s), w)
    unfolding walk
    walk_end short = rw (ltb-true (length rx) (off + 16) short, walk)

    module _ (nlh : NlmsghdrRaw) (room : off + 16 ≤ length rx)
        (here : message_at en rx off ≡ ok nlh) where
      walk_foreign :
          (nlh.nlmsg_seq == seq) ≡ false
          → walk en seq h (suc fuel) rx off s w
            ≡ walk en seq h fuel rx (off + nlmsg_align nlh.nlmsg_len) s w
      unfolding walk
      walk_foreign e = rw (ltb-false (length rx) (off + 16) room, walk) (rw here (rw (e, and_then)))

      walk_own :
          (nlh.nlmsg_seq == seq) ≡ true
          → walk en seq h (suc fuel) rx off s w
            ≡ and_then
                (h nlh rx off (off + nlh.nlmsg_len) s w)
                (resume (walk en seq h fuel rx (off + nlmsg_align nlh.nlmsg_len)))
      unfolding walk
      walk_own e = rw (ltb-false (length rx) (off + 16) room, walk) (rw here (rw (e, and_then)))

  module _ (seq : ℕ) (h : Handler S A) (answer : Message → S → Net (Flow S A))
      (agrees : Agrees h answer) where
    walk-run_messages :
        (ms : List Message) (fuel : ℕ) (rx : Bytes) (off : ℕ) (s : S) (w : World)
        → All IsSound ms
        → length (encode_messages en ms) < fuel
        → StandsAt en (encode_messages en ms) rx off
        → walk en seq h fuel rx off s w ≡ run_messages en seq answer ms s w
    unfolding walk run_messages encode_messages
    walk-run_messages [] zero rx off s w sound hf at_off = absurd (omega arith)
    walk-run_messages [] (suc fuel) rx off s w sound hf at_off =
        walk_end seq h fuel rx off s w (omega arith)
    walk-run_messages (m ∷ ms) zero rx off s w sound hf at_off = absurd (omega arith)
    walk-run_messages (m ∷ ms) (suc fuel) rx off s w (sound, sounds) hf at_off =
        let later = λ (s' : S) (w' : World).
          walk-run_messages ms fuel rx next s' w' sounds
            (omega (arith, size, length-encode_message en m sound))
            (next-encode_message en m sound rest rx off at_off) in
        elim (Bool-cases (m.seq == seq)) [
          | inl own ↦
              walk_own seq h fuel rx off s w (header m) room here own
              ∙ ap (λ r. and_then r (resume (walk en seq h fuel rx next)))
                  (agrees m sound rest rx off at_off s w)
              ∙ ap (λ k. and_then (answer m s w) (resume k)) (fun_ext (λ s'. fun_ext (later s')))
              ∙ sym (run_messages_own seq answer m ms s w own)
          | inr foreign ↦
              walk_foreign seq h fuel rx off s w (header m) room here foreign
              ∙ later s w
              ∙ sym (run_messages_foreign seq answer m ms s w foreign)
        ]
      where
        rest : Bytes
        rest = encode_messages en ms

        next : ℕ
        next = off + nlmsg_align (16 + length m.body)

        size : length (encode_message en m ++ rest) ≡ length (encode_message en m) + length rest
        size = length-append (encode_message en m) rest

        room : off + 16 ≤ length rx
        room = omega (arith, size, length-encode_message en m sound)

        here : message_at en rx off ≡ ok (header m)
        here = message_at-encode_message en m sound rest rx off at_off

    walk_datagram-run_messages :
        (ms : List Message) (s : S) (w : World)
        → FitsBuffer en ms
        → walk_datagram en seq h (take recv_capacity (encode_messages en ms)) s w
          ≡ run_messages en seq answer ms s w
    walk_datagram-run_messages ms s w (sound, fits) =
        ap (λ bs. walk_datagram en seq h bs s w) (take_all recv_capacity _ fits)
        ∙ walk-run_messages ms _ _ 0 s w sound (omega arith) (refl, omega arith)

    -- The first datagram, whatever comes behind it.
    pub recv_loop-cons :
        (ms : List Message) (inbox : Inbox) (s : S) (w : World)
        → FitsBuffer en ms
        → recv_loop en seq h (some (encode_messages en ms) ∷ inbox) s w
          ≡ and_then
              (run_messages en seq answer ms s w)
              (receive_on inbox (recv_loop en seq h inbox))
    unfolding recv_loop
    recv_loop-cons ms inbox s w fit =
        ap (λ r. and_then r (receive_on inbox (recv_loop en seq h inbox)))
          (walk_datagram-run_messages ms s w fit)

    -- If the `match` of a reply loop agrees with `answer` message by message, then on datagrams of
    -- sound messages, each short enough for the receive buffer, the loop gives exactly what the
    -- run of `answer` over those messages gives whose sequence number is the request's: the same
    -- value and datagrams left to receive, the same error, or the same wait, and the same world.
    pub recv_loop-run_datagrams :
        (datagrams : List (List Message)) (s : S) (w : World)
        → All (FitsBuffer en) datagrams
        → recv_loop en seq h (inbox_of en datagrams) s w ≡ run_datagrams en seq answer datagrams s w
    unfolding recv_loop run_datagrams
    recv_loop-run_datagrams [] s w fits = refl
    recv_loop-run_datagrams (ms ∷ datagrams) s w (fit, fits) =
        let inbox = inbox_of en datagrams in
        let later = λ (s' : S) (w' : World). recv_loop-run_datagrams datagrams s' w' fits in
        recv_loop-cons ms inbox s w fit
        ∙ ap (λ k. and_then (run_messages en seq answer ms s w) (receive_on inbox k))
            (fun_ext (λ s'. fun_ext (later s')))
