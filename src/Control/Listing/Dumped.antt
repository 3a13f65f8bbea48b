-- ===== src/Control/Listing/Dumped.antt =====
-- What `cmd_dump` of ktuctl-rs/src/commands.rs prints, against a kernel that answers.
use ktuctl_rs.Prelude.{
  true, false, none, ℕ, ◌+◌, ◌≡◌, ap, ◌∙◌, List, [], ◌∷◌, ◌++◌, append_assoc, map, arith, not, ◌==◌,
  if◌then◌else◌,
}
use ktuctl_rs.Bytes.{Endian, Bytes}
use ktuctl_rs.Text.{utf8}
use ktuctl_rs.Outcome.{ok}
use ktuctl_rs.World.{World, Conversation, and_then, ◌>>◌}
use ktuctl_rs.Protocol.Constants.{
  nlm_f_request, nlm_f_dump, tutu_cmd_get_config, tutu_attr_config, tutu_cmd_get_egress,
  tutu_attr_egress, tutu_cmd_get_user_info, tutu_attr_user_info,
}
use ktuctl_rs.Protocol.Structs.{
  TutuConfig, tutu_config_layout, TutuEgress, tutu_egress_layout, TutuUserInfo,
  tutu_user_info_layout,
}
use ktuctl_rs.Netlink.Exchange.{receive_struct}
use ktuctl_rs.Netlink.Kernel.{
  IsFamily, asked, AnswersStruct, AnswersDump, struct_said, dump_said, receive_struct-answered,
}
use ktuctl_rs.Number.{decimal}
use ktuctl_rs.Control.UidMap.{UidMap}
use ktuctl_rs.Control.Names.{GlobalFlags}
use ktuctl_rs.Control.Listing.{print_all, dump_client, dump_server, cmd_dump, mode_dump}
use ktuctl_rs.Control.Listing.Lines.{dump_head, dump_egress, dump_user}
use ktuctl_rs.Control.Listing.Answered.{
  peer_lines, client_dump, server_dump, print_all-printed, dump_client-printed, dump_server-printed,
}

module _ (en : Endian) (flags : GlobalFlags) (m : UidMap) where
  module _ (id pid : ℕ) (family : IsFamily id) (w : World) (time : Bytes) (args : List Bytes)
      (cfg : TutuConfig)
      (c : AnswersStruct en (tutu_config_layout en) id tutu_attr_config pid cfg) where
    get_config-answered :
        (more : List Conversation)
        → receive_struct en
            (tutu_config_layout en)
            tutu_cmd_get_config
            tutu_attr_config
            none
            (record w {
              conversations =
                  struct_said en (tutu_config_layout en) id tutu_attr_config pid c ∷ more;
            })
          ≡ (
            ok cfg,
            record w {
              conversations = more;
              sent = asked en id nlm_f_request tutu_cmd_get_config w.sent;
            },
          )
    get_config-answered more =
        receive_struct-answered en (tutu_config_layout en) id tutu_attr_config pid family
          (omega arith) (omega arith) c more w tutu_cmd_get_config

    -- The world behind the head of a dump.
    abbrev headed : List Conversation → World
    headed more = record w {
      conversations = more;
      sent = asked en id nlm_f_request tutu_cmd_get_config w.sent;
      printed = w.printed ++ dump_head time;
    }

    cmd_dump-headed :
        (more : List Conversation)
        → cmd_dump en flags m time args (record w {
          conversations = struct_said en (tutu_config_layout en) id tutu_attr_config pid c ∷ more;
        })
          ≡ mode_dump en flags m cfg (headed more)
    unfolding cmd_dump
    cmd_dump-headed more =
        ap (λ r. and_then r (λ cfg'. print_all (dump_head time) >> mode_dump en flags m cfg'))
          (get_config-answered more)
        ∙ ap (λ r. and_then r (λ u. mode_dump en flags m cfg))
            (print_all-printed (dump_head time) _)

    -- In client mode, against a kernel that has the egress entries `es`, `dump` prints its head and
    -- `client`, and then one line for each entry with a port, in order.
    pub cmd_dump-client :
        (rest : List Conversation) {es : List TutuEgress}
        (k : AnswersDump en (tutu_egress_layout en) id tutu_attr_egress pid es)
        → (cfg.is_server == 0) ≡ true
        → cmd_dump en flags m time args (record w {
          conversations =
              struct_said en (tutu_config_layout en) id tutu_attr_config pid c
              ∷ dump_said en (tutu_egress_layout en) id tutu_attr_egress pid k
              ∷ rest;
        })
          ≡ (
            ok tt,
            record w {
              conversations = rest;
              sent =
                  asked en id
                    (nlm_f_request + nlm_f_dump)
                    tutu_cmd_get_egress
                    (asked en id nlm_f_request tutu_cmd_get_config w.sent);
              printed = w.printed ++ client_dump en flags m time es;
            },
          )
    cmd_dump-client rest {es} k client =
        cmd_dump-headed (dump_said en (tutu_egress_layout en) id tutu_attr_egress pid k ∷ rest)
        ∙ ap
            (λ b.
              (if not b then dump_server en flags m cfg else dump_client en flags m)
                (headed (dump_said en (tutu_egress_layout en) id tutu_attr_egress pid k ∷ rest)))
            client
        ∙ dump_client-printed en flags m id pid family rest (headed rest) k
        ∙ (λ i. (
          ok tt,
          record (headed rest) {
            sent =
                asked en id (nlm_f_request + nlm_f_dump) tutu_cmd_get_egress
                  (asked en id nlm_f_request tutu_cmd_get_config w.sent);
            printed = together i;
          },
        ))
      where
        together :
            ((w.printed ++ dump_head time) ++ (utf8 "client" ∷ []))
              ++ peer_lines en (dump_egress en flags m) es
            ≡ w.printed ++ client_dump en flags m time es
        together =
            append_assoc (w.printed ++ dump_head time) (utf8 "client" ∷ []) _
            ∙ append_assoc w.printed (dump_head time) _

    -- In server mode, against a kernel that has the users `us`, `dump` prints its head and `server`
    -- with the maximal age, and then one line for each user, in order.
    pub cmd_dump-server :
        (rest : List Conversation) {us : List TutuUserInfo}
        (k : AnswersDump en (tutu_user_info_layout en) id tutu_attr_user_info pid us)
        → (cfg.is_server == 0) ≡ false
        → cmd_dump en flags m time args (record w {
          conversations =
              struct_said en (tutu_config_layout en) id tutu_attr_config pid c
              ∷ dump_said en (tutu_user_info_layout en) id tutu_attr_user_info pid k
              ∷ rest;
        })
          ≡ (
            ok tt,
            record w {
              conversations = rest;
              sent =
                  asked en id
                    (nlm_f_request + nlm_f_dump)
                    tutu_cmd_get_user_info
                    (asked en id nlm_f_request tutu_cmd_get_config w.sent);
              printed = w.printed ++ server_dump en flags m time cfg.session_max_age us;
            },
          )
    cmd_dump-server rest {us} k server =
        cmd_dump-headed
          (dump_said en (tutu_user_info_layout en) id tutu_attr_user_info pid k ∷ rest)
        ∙ ap
            (λ b. (if not b then dump_server en flags m cfg else dump_client en flags m) (
              headed (dump_said en (tutu_user_info_layout en) id tutu_attr_user_info pid k ∷ rest)))
            server
        ∙ dump_server-printed en flags m id pid family rest (headed rest) cfg k
        ∙ (λ i. (
          ok tt,
          record (headed rest) {
            sent =
                asked en id (nlm_f_request + nlm_f_dump) tutu_cmd_get_user_info
                  (asked en id nlm_f_request tutu_cmd_get_config w.sent);
            printed = together i;
          },
        ))
      where
        together :
            ((w.printed ++ dump_head time)
                ++ ((utf8 "server max-age " ++ (decimal cfg.session_max_age ++ utf8 "\n")) ∷ []))
              ++ map (dump_user en flags m) us
            ≡ w.printed ++ server_dump en flags m time cfg.session_max_age us
        together =
            append_assoc (w.printed ++ dump_head time) _ _
            ∙ append_assoc w.printed (dump_head time) _
