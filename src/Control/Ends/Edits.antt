-- ===== src/Control/Ends/Edits.antt =====
-- The commands that change the module's state end (ktuctl-rs/src/commands.rs).
use ktuctl_rs.Prelude.{ℕ, ◌≢◌, refl, List, [], Option, none, some, ◌=b◌, ◌||◌, ◌==◌, not}
use ktuctl_rs.Bytes.{Endian, Bytes}
use ktuctl_rs.Address.{IpAddr}
use ktuctl_rs.Outcome.{Outcome, ok, err, panic, blocked, stuck}
use ktuctl_rs.World.{World, Net, println}
use ktuctl_rs.Protocol.Structs.{In6Addr, TutuConfig, TutuEgress}
use ktuctl_rs.Netlink.Progress.{Runs}
use ktuctl_rs.Netlink.Termination.{
  println-Runs, if_Runs, err-Runs, lift_then-Runs, pure-Runs, bind-Runs, send_struct-Runs,
  receive_struct-Runs, dump_structs-Runs,
}
use ktuctl_rs.Control.UidMap.{UidMap}
use ktuctl_rs.Control.Names.{GlobalFlags}
use ktuctl_rs.Control.Options.{Options, server_add_words, nothing_set}
use ktuctl_rs.Control.Edit.{
  client_mode, config, set_config, in_context, ignore_error, add_peer, add_user, matching,
  delete_egress, cmd_server, cmd_client, cmd_client_add, cmd_client_del, cmd_server_add,
  cmd_server_del,
}
use ktuctl_rs.Control.Ends.Arguments.{
  xor_key_of-Ends, resolve_ip-Ends, parse_options-Ends, parse_max_age-Ends,
}

in_context-ne-stuck : {A : Type 0} (r : Outcome A × World) → r.0 ≢ stuck → (in_context r).0 ≢ stuck
in_context-ne-stuck (ok a, w) h e = cc
in_context-ne-stuck (err x, w) h e = cc
in_context-ne-stuck (panic, w) h e = cc
in_context-ne-stuck (blocked, w) h e = cc
in_context-ne-stuck (stuck, w) h e = h refl

pub in_context-Runs : {A : Type 0} (m : Net A) → Runs m → Runs (λ w. in_context (m w))
in_context-Runs m hm w = in_context-ne-stuck (m w) (hm w)

ignore_error-ne-stuck : (r : Outcome (Unit {0}) × World) → r.0 ≢ stuck → (ignore_error r).0 ≢ stuck
ignore_error-ne-stuck (ok a, w) h e = cc
ignore_error-ne-stuck (err x, w) h e = cc
ignore_error-ne-stuck (panic, w) h e = cc
ignore_error-ne-stuck (blocked, w) h e = cc
ignore_error-ne-stuck (stuck, w) h e = h refl

ignore_error-Runs : (m : Net (Unit {0})) → Runs m → Runs (λ w. ignore_error (m w))
ignore_error-Runs m hm w = ignore_error-ne-stuck (m w) (hm w)

module _ (en : Endian) (flags : GlobalFlags) (m : UidMap)
    (lookup : Bytes → Option (List IpAddr)) where
  pub cmd_server-Runs : (args : List Bytes) → Runs (cmd_server en flags m lookup args)
  unfolding cmd_server
  cmd_server-Runs args =
      lift_then-Runs _ _ (parse_max_age-Ends args 60) (λ age. send_struct-Runs en _ _ _ _ _)

  pub cmd_client-Runs : (args : List Bytes) → Runs (cmd_client en flags m lookup args)
  unfolding cmd_client
  cmd_client-Runs args =
      bind-Runs (println client_mode) (λ _. set_config en flags m lookup (config 0 0))
        (println-Runs client_mode) (λ _. send_struct-Runs en _ _ _ _ _)

  add_peer-Runs : (o : Options) → Runs (add_peer en flags m lookup o)
  unfolding add_peer
  add_peer-Runs o = lift_then-Runs _ _ (resolve_ip-Ends flags (lookup o.address)) (λ in6.
      lift_then-Runs _ _ (xor_key_of-Ends o.xor_hex) (λ key.
        bind-Runs _ _ (in_context-Runs _ (send_struct-Runs en _ _ _ _ _))
          (λ _. send_struct-Runs en _ _ _ _ _)))

  pub cmd_client_add-Runs : (args : List Bytes) → Runs (cmd_client_add en flags m lookup args)
  unfolding cmd_client_add
  cmd_client_add-Runs args = lift_then-Runs _ _ (parse_options-Ends m _ args _) (λ o.
      if_Runs (o.address =b [] || o.port == 0 || not o.uid_set) _ _ (err-Runs _) (
        bind-Runs _ _ (receive_struct-Runs en _ _ _ _) (λ (cfg : TutuConfig).
          if_Runs (not (cfg.is_server == 0)) _ _ (err-Runs _) (add_peer-Runs o))))

  matching-Runs :
      (uid : ℕ) (in6 : In6Addr) (e : TutuEgress) (found : Option TutuEgress)
      → Runs (matching en flags m lookup uid in6 e found)
  unfolding matching
  matching-Runs uid in6 e found = pure-Runs _

  delete_egress-Runs : (found : Option TutuEgress) → Runs (delete_egress en flags m lookup found)
  unfolding delete_egress
  delete_egress-Runs none = pure-Runs tt
  delete_egress-Runs (some e) = send_struct-Runs en _ _ _ _ _

  pub cmd_client_del-Runs : (args : List Bytes) → Runs (cmd_client_del en flags m lookup args)
  unfolding cmd_client_del
  cmd_client_del-Runs args = lift_then-Runs _ _ (parse_options-Ends m _ args _) (λ o.
      if_Runs (o.address =b [] || not o.uid_set) _ _ (err-Runs _) (
        lift_then-Runs _ _ (resolve_ip-Ends flags (lookup o.address)) (λ in6.
          bind-Runs _ _ (dump_structs-Runs en _ _ _ _ none (matching-Runs o.uid in6)) (λ found.
            bind-Runs _ _ (delete_egress-Runs found)
              (λ _. ignore_error-Runs _ (send_struct-Runs en _ _ _ _ _))))))

  add_user-Runs : (o : Options) → Runs (add_user en flags m lookup o)
  unfolding add_user
  add_user-Runs o =
      lift_then-Runs _ _ (resolve_ip-Ends flags (lookup o.address)) (λ in6.
        lift_then-Runs _ _ (xor_key_of-Ends o.xor_hex) (λ key. send_struct-Runs en _ _ _ _ _))

  pub cmd_server_add-Runs : (args : List Bytes) → Runs (cmd_server_add en flags m lookup args)
  unfolding cmd_server_add
  cmd_server_add-Runs args =
      lift_then-Runs _ _ (parse_options-Ends m server_add_words args nothing_set) (λ o.
        if_Runs (not o.uid_set || o.address =b [] || o.port == 0) _ _ (err-Runs _) (
          bind-Runs _ _ (receive_struct-Runs en _ _ _ _) (λ (cfg : TutuConfig).
            if_Runs (cfg.is_server == 0) _ _ (err-Runs _) (add_user-Runs o))))

  pub cmd_server_del-Runs : (args : List Bytes) → Runs (cmd_server_del en flags m lookup args)
  unfolding cmd_server_del
  cmd_server_del-Runs args =
      lift_then-Runs _ _ (parse_options-Ends m _ args _)
        (λ o. if_Runs (not o.uid_set) _ _ (err-Runs _) (send_struct-Runs en _ _ _ _ _))
