-- ===== src/Control/Listing/Answered.antt =====
-- What the parts of `cmd_dump` of ktuctl-rs/src/commands.rs print, against a kernel that answers.
use ktuctl_rs.Prelude.{
  ℕ, ◌+◌, ◌≡◌, sym, ap, ◌∙◌, List, [], ◌∷◌, ◌++◌, append-nil, append_assoc, map, arith, not,
  Bool-cases, inl, inr, ◌==◌, if◌then◌else◌,
}
use ktuctl_rs.Bytes.{Endian, Bytes, ntohs}
use ktuctl_rs.Text.{utf8}
use ktuctl_rs.Outcome.{ok}
use ktuctl_rs.World.{World, Conversation, and_then, pure}
use ktuctl_rs.World.Chaining.{feed}
use ktuctl_rs.Protocol.Constants.{
  nlm_f_request, nlm_f_dump, tutu_cmd_get_egress, tutu_attr_egress, tutu_cmd_get_user_info,
  tutu_attr_user_info,
}
use ktuctl_rs.Protocol.Structs.{
  TutuConfig, TutuEgress, tutu_egress_layout, TutuUserInfo, tutu_user_info_layout,
}
use ktuctl_rs.Netlink.Kernel.{IsFamily, asked, AnswersDump, dump_said, dump_structs-answered}
use ktuctl_rs.Number.{decimal}
use ktuctl_rs.Control.UidMap.{UidMap}
use ktuctl_rs.Control.Names.{GlobalFlags}
use ktuctl_rs.Control.Listing.{each_peer, each_line, print_all, dump_client, dump_server}
use ktuctl_rs.Control.Listing.Lines.{dump_head, dump_egress, dump_user}

module _ (en : Endian) (line : TutuEgress → Bytes) where
  -- The lines of the entries that have a port, in order.
  abbrev pub peer_lines : List TutuEgress → List Bytes
  peer_lines [] = []
  peer_lines (e ∷ es) =
      let rest = peer_lines es in if not (ntohs en e.key.port == 0) then line e ∷ rest else rest

  abbrev pub peer_count : List TutuEgress → ℕ → ℕ
  peer_count [] n = n
  peer_count (e ∷ es) n = peer_count es (if not (ntohs en e.key.port == 0) then n + 1 else n)

  feed-each_peer :
      (es : List TutuEgress) (n : ℕ) (w : World)
      → feed (each_peer en line) es n w
        ≡ (ok (peer_count es n), record w { printed = w.printed ++ peer_lines es })
  unfolding each_peer
  feed-each_peer [] n w = λ i. (ok n, record w { printed = sym (append-nil w.printed) i })
  feed-each_peer (e ∷ es) n w = elim (Bool-cases (ntohs en e.key.port == 0)) [
    | inl z ↦ rw z (feed-each_peer es n w)
    | inr z ↦ rw z (
        feed-each_peer es (n + 1) (record w { printed = w.printed ++ (line e ∷ []) }) ∙ (λ i. (
          ok (peer_count es (n + 1)),
          record w { printed = append_assoc w.printed (line e ∷ []) (peer_lines es) i },
        )))
  ]

feed-each_line :
    {T : Type 0} (line : T → Bytes) (es : List T) (w : World)
    → feed (each_line line) es tt w ≡ (ok tt, record w { printed = w.printed ++ map line es })
feed-each_line line [] w = λ i. (ok tt, record w { printed = sym (append-nil w.printed) i })
feed-each_line line (e ∷ es) w =
    feed-each_line line es (record w { printed = w.printed ++ (line e ∷ []) })
    ∙ (λ i. (ok tt, record w { printed = append_assoc w.printed (line e ∷ []) (map line es) i }))

pub print_all-printed :
    (lines : List Bytes) (w : World)
    → print_all lines w ≡ (ok tt, record w { printed = w.printed ++ lines })
unfolding print_all
print_all-printed [] w = λ i. (ok tt, record w { printed = sym (append-nil w.printed) i })
print_all-printed (x ∷ xs) w =
    print_all-printed xs (record w { printed = w.printed ++ (x ∷ []) })
    ∙ (λ i. (ok tt, record w { printed = append_assoc w.printed (x ∷ []) xs i }))

module _ (en : Endian) (flags : GlobalFlags) (m : UidMap) where
  -- What a client and a server have to print.
  abbrev pub client_dump : Bytes → List TutuEgress → List Bytes
  client_dump time es =
      dump_head time ++ (utf8 "client" ∷ peer_lines en (dump_egress en flags m) es)

  abbrev pub server_dump : Bytes → ℕ → List TutuUserInfo → List Bytes
  server_dump time max_age us =
      dump_head time
      ++ ((utf8 "server max-age " ++ (decimal max_age ++ utf8 "\n"))
          ∷ map (dump_user en flags m) us)

  module _ (id pid : ℕ) (family : IsFamily id) (rest : List Conversation) (w : World) where
    pub dump_client-printed :
        {es : List TutuEgress}
        (k : AnswersDump en (tutu_egress_layout en) id tutu_attr_egress pid es)
        → dump_client en flags m (record w {
          conversations = dump_said en (tutu_egress_layout en) id tutu_attr_egress pid k ∷ rest;
        })
          ≡ (
            ok tt,
            record w {
              conversations = rest;
              sent = asked en id (nlm_f_request + nlm_f_dump) tutu_cmd_get_egress w.sent;
              printed =
                  (w.printed ++ (utf8 "client" ∷ [])) ++ peer_lines en (dump_egress en flags m) es;
            },
          )
    unfolding dump_client
    dump_client-printed {es} k =
        ap (λ r. and_then r (λ count. pure tt))
          (dump_structs-answered en (tutu_egress_layout en) id tutu_attr_egress pid family
              (omega arith) (omega arith) (each_peer en (dump_egress en flags m)) k rest
              (record w { printed = w.printed ++ (utf8 "client" ∷ []) }) tutu_cmd_get_egress 0
            ∙ feed-each_peer en (dump_egress en flags m) es 0 _)

    pub dump_server-printed :
        (cfg : TutuConfig) {us : List TutuUserInfo}
        (k : AnswersDump en (tutu_user_info_layout en) id tutu_attr_user_info pid us)
        → dump_server en flags m cfg (record w {
          conversations =
              dump_said en (tutu_user_info_layout en) id tutu_attr_user_info pid k ∷ rest;
        })
          ≡ (
            ok tt,
            record w {
              conversations = rest;
              sent = asked en id (nlm_f_request + nlm_f_dump) tutu_cmd_get_user_info w.sent;
              printed =
                  (w.printed
                    ++ ((utf8 "server max-age " ++ (decimal cfg.session_max_age ++ utf8 "\n"))
                        ∷ []))
                  ++ map (dump_user en flags m) us;
            },
          )
    unfolding dump_server
    dump_server-printed cfg {us} k =
        dump_structs-answered en (tutu_user_info_layout en) id tutu_attr_user_info pid family
          (omega arith) (omega arith) (each_line (dump_user en flags m)) k rest
          (record w {
            printed =
                w.printed
                ++ ((utf8 "server max-age " ++ (decimal cfg.session_max_age ++ utf8 "\n")) ∷ []);
          })
          tutu_cmd_get_user_info tt
        ∙ feed-each_line (dump_user en flags m) us _
