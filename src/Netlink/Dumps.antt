-- ===== src/Netlink/Dumps.antt =====
-- `dump_structs` of ktuctl-rs/src/netlink.rs against a kernel that answers with entries.
use ktuctl_rs.Prelude.{
  ℕ, ◌+◌, ◌^◌, ◌<◌, ◌≡◌, ◌≢◌, refl, sym, ap, ◌∙◌, List, [], ◌∷◌, ◌++◌, append-nil, map, ==-refl,
  arith, length, some, true, leb, ==-false, All,
}
use ktuctl_rs.Bytes.{Endian}
use ktuctl_rs.Outcome.{ok}
use ktuctl_rs.World.{World, Conversation, Net, and_then, pure}
use ktuctl_rs.World.Chaining.{and_then_assoc, and_then-pure, feed, entries_of, feed-append}
use ktuctl_rs.Protocol.Constants.{
  tutu_genl_version, nlm_f_request, nlm_f_dump, nlmsg_error, nlmsg_done,
}
use ktuctl_rs.Protocol.Layout.{Layout}
use ktuctl_rs.Netlink.Message.{build_packet_genl_msg}
use ktuctl_rs.Netlink.Loop.{Flow, go_on, return, Inbox, recv_loop}
use ktuctl_rs.Netlink.Datagram.{Message, FitsBuffer, encode_messages, run_messages}
use ktuctl_rs.Netlink.Refinement.{receive_on, resume, recv_loop-cons, run_messages_own}
use ktuctl_rs.Netlink.Replies.{reply_message, attrs_of-reply_message, read-as_bytes_alone}
use ktuctl_rs.Netlink.Exchange.{each_struct, dump_handler, dump_structs}
use ktuctl_rs.Netlink.Answers.{dump_answer, dump_handler-Agrees}
use ktuctl_rs.Netlink.Delivery.{NamesFamily, kernel_says, family_request, request-before}

module _ (en : Endian) {T : Type 0} (l : Layout T) (id attr_type pid : ℕ) where
  -- A message of the family for the second request, with an entry as its one attribute.
  abbrev pub entry_message : T → Message
  entry_message = reply_message en l id attr_type 2 pid

  -- The datagrams of a dump: entries, and the end behind the last ones.
  abbrev pub dump_inbox : Message → Inbox → List (List T) → List T → Inbox
  dump_inbox done inbox [] last =
      some (encode_messages en (map entry_message last ++ (done ∷ []))) ∷ inbox
  dump_inbox done inbox (ts ∷ tss) last =
      some (encode_messages en (map entry_message ts)) ∷ dump_inbox done inbox tss last

  module _ (family : (id ≢ nlmsg_error) × (id ≢ nlmsg_done)) (small : 4 + l.size < 2 ^ 16)
      (numbered : attr_type < 2 ^ 16) {S : Type 0} (handler : T → S → Net S) where
    each_struct-entry :
        (t : T) (s : S) (w : World)
        → l.IsValid t
        → each_struct en l attr_type handler ((attr_type, l.as_bytes t) ∷ []) s w ≡ handler t s w
    unfolding each_struct
    each_struct-entry t s w v =
        let whole : leb l.size (length (l.as_bytes t)) ≡ true =
          ground (arith, l.length-as_bytes t v) in
        rw
          (==-refl attr_type, whole, read-as_bytes_alone en l id attr_type 2 pid small numbered t v)
          (and_then-pure (handler t s w))

    -- What the loop does with an entry.
    dump_answer-entry :
        (t : T) (s : S) (w : World)
        → l.IsValid t
        → dump_answer en l attr_type handler (entry_message t) s w
          ≡ and_then (handler t s w) (λ s'. pure (go_on s'))
    unfolding dump_answer
    dump_answer-entry t s w v =
        rw
          (
            ==-false id nlmsg_error family.0,
            ==-false id nlmsg_done family.1,
            attrs_of-reply_message en l id attr_type 2 pid small numbered t v,
          )
          (ap (λ r. and_then r (λ s'. pure (go_on s'))) (each_struct-entry t s w v))

    run_messages-entries :
        (ts : List T) (ms : List Message) (s : S) (w : World)
        → All l.IsValid ts
        → run_messages en 2 (dump_answer en l attr_type handler) (map entry_message ts ++ ms) s w
          ≡ and_then
              (feed handler ts s w)
              (run_messages en 2 (dump_answer en l attr_type handler) ms)
    run_messages-entries [] ms s w vs = refl
    run_messages-entries (t ∷ ts) ms s w (v, vs) =
        run_messages_own en 2 (dump_answer en l attr_type handler) (entry_message t)
          (map entry_message ts ++ ms) s w refl
        ∙ ap
            (λ r. and_then r (
              resume (
                run_messages en 2 (dump_answer en l attr_type handler)
                  (map entry_message ts ++ ms))))
            (dump_answer-entry t s w v)
        ∙ and_then_assoc (handler t s w) (λ s'. pure (go_on s')) _
        ∙ (λ i. and_then (handler t s w) (λ s' w'. run_messages-entries ts ms s' w' vs i))
        ∙ sym (and_then_assoc (handler t s w) (feed handler ts) _)

    run_messages-only :
        (ts : List T) (s : S) (w : World)
        → All l.IsValid ts
        → run_messages en 2 (dump_answer en l attr_type handler) (map entry_message ts) s w
          ≡ and_then (feed handler ts s w) (λ s'. pure (go_on s'))
    unfolding run_messages
    run_messages-only ts s w vs =
        ap (λ ms. run_messages en 2 (dump_answer en l attr_type handler) ms s w)
          (sym (append-nil (map entry_message ts)))
        ∙ run_messages-entries ts [] s w vs

    -- The end of a dump: a message of the second request that says so.
    module _ (done : Message) (own : done.seq ≡ 2) (ends : done.type ≡ nlmsg_done)
        (inbox : Inbox) where
      dump_answer-done :
          (s : S) (w : World) → dump_answer en l attr_type handler done s w ≡ (ok (return s), w)
      unfolding dump_answer
      dump_answer-done s w = rw ends refl

      run_messages-done :
          (s : S) (w : World)
          → run_messages en 2 (dump_answer en l attr_type handler) (done ∷ []) s w
            ≡ (ok (return s), w)
      run_messages-done s w =
          run_messages_own en 2 (dump_answer en l attr_type handler) done [] s w (ground arith)
          ∙ ap
              (λ r. and_then r (resume (run_messages en 2 (dump_answer en l attr_type handler) [])))
              (dump_answer-done s w)

      recv_loop-last :
          (ts : List T) (s : S) (w : World)
          → All l.IsValid ts
          → FitsBuffer en (map entry_message ts ++ (done ∷ []))
          → recv_loop en 2
              (dump_handler en l attr_type handler)
              (some (encode_messages en (map entry_message ts ++ (done ∷ []))) ∷ inbox)
              s
              w
            ≡ and_then (feed handler ts s w) (λ s'. pure (s', inbox))
      recv_loop-last ts s w vs fits =
          recv_loop-cons en 2 (dump_handler en l attr_type handler)
            (dump_answer en l attr_type handler) (dump_handler-Agrees en l attr_type handler)
            (map entry_message ts ++ (done ∷ [])) inbox s w fits
          ∙ ap (λ r. and_then r on) (run_messages-entries ts (done ∷ []) s w vs)
          ∙ and_then_assoc (feed handler ts s w) _ on
          ∙ (λ i. and_then (feed handler ts s w) (λ s' w'. and_then (run_messages-done s' w' i) on))
        where
          on : Flow S S → Net (S × Inbox)
          on = receive_on inbox (recv_loop en 2 (dump_handler en l attr_type handler) inbox)

      recv_loop-dump :
          (tss : List (List T)) (last : List T) (s : S) (w : World)
          → All (λ ts. All l.IsValid ts × FitsBuffer en (map entry_message ts)) tss
          → All l.IsValid last
          → FitsBuffer en (map entry_message last ++ (done ∷ []))
          → recv_loop en 2
              (dump_handler en l attr_type handler)
              (dump_inbox done inbox tss last)
              s
              w
            ≡ and_then (feed handler (entries_of tss last) s w) (λ s'. pure (s', inbox))
      recv_loop-dump [] last s w h vs fits = recv_loop-last last s w vs fits
      recv_loop-dump (ts ∷ tss) last s w ((us, fit), h) vs fits =
          recv_loop-cons en 2 (dump_handler en l attr_type handler)
            (dump_answer en l attr_type handler) (dump_handler-Agrees en l attr_type handler)
            (map entry_message ts) (dump_inbox done inbox tss last) s w fit
          ∙ ap (λ r. and_then r on) (run_messages-only ts s w us)
          ∙ and_then_assoc (feed handler ts s w) (λ s'. pure (go_on s')) on
          ∙ (λ i.
              and_then (feed handler ts s w) (λ s' w'. recv_loop-dump tss last s' w' h vs fits i))
          ∙ sym (and_then_assoc (feed handler ts s w) (feed handler (entries_of tss last)) _)
          ∙ ap (λ r. and_then r (λ s'. pure (s', inbox)))
              (sym (feed-append handler ts (entries_of tss last) s w))
        where
          on : Flow S S → Net (S × Inbox)
          on = receive_on (dump_inbox done inbox tss last) (
              recv_loop en 2 (dump_handler en l attr_type handler) (dump_inbox done inbox tss last))

      -- A kernel names the family (first exchange) and answers a dump with datagrams of entries, any
      -- number of them in each, and the end behind the entries of the last one. Then `dump_structs`
      -- gives the handler every entry, field by field what the kernel wrote, once and in order, and
      -- ends as the handler does. Each datagram fits the buffer of `recv` and has sound messages; an
      -- entry fits an attribute and its fields fit their widths; the family's id is neither that of an
      -- error nor of an end. Two datagrams are sent: the request for the family's id, and one for the
      -- dump.
      pub dump_structs-feed :
          (named_by : Message) (tss : List (List T)) (last : List T) (rest : List Conversation)
          (w : World) (cmd : ℕ) (s : S)
          → NamesFamily en id named_by
          → All (λ ts. All l.IsValid ts × FitsBuffer en (map entry_message ts)) tss
          → All l.IsValid last
          → FitsBuffer en (map entry_message last ++ (done ∷ []))
          → dump_structs en l cmd attr_type handler s (record w {
            conversations =
                kernel_says en
                  (some (encode_messages en (named_by ∷ [])) ∷ dump_inbox done inbox tss last)
                ∷ rest;
          })
            ≡ feed handler (entries_of tss last) s (record w {
              conversations = rest;
              sent =
                  (w.sent ++ (family_request en ∷ []))
                  ++ (build_packet_genl_msg en id
                        (nlm_f_request + nlm_f_dump)
                        2
                        0
                        cmd
                        tutu_genl_version
                        []
                      ∷ []);
            })
      unfolding dump_structs
      dump_structs-feed named_by tss last rest w cmd s n h vs fits =
          request-before en id named_by n (dump_inbox done inbox tss last) rest w
            (nlm_f_request + nlm_f_dump) cmd [] (dump_handler en l attr_type handler) s
          ∙ ap (λ r. and_then r (λ x. pure x.0)) (recv_loop-dump tss last s _ h vs fits)
          ∙ and_then_assoc (feed handler (entries_of tss last) s _) (λ s'. pure (s', inbox))
              (λ x. pure x.0)
          ∙ and_then-pure (feed handler (entries_of tss last) s _)
