-- ===== src/Control/Script/Restore.antt =====
-- A line of a dump restores a peer (ktuctl-rs/src/commands.rs).
use ktuctl_rs.Prelude.{
  ℕ, suc, List, Option, ◌-◌, ◌<◌, ◌≤◌, ◌≡◌, ◌≢◌, refl, ap, ◌∙◌, [], ◌∷◌, ◌++◌, some, Bool, true,
  length, drop, replicate, All,
}
use ktuctl_rs.Bytes.{Endian, Bytes, IsByte, htons}
use ktuctl_rs.Text.{utf8}
use ktuctl_rs.Outcome.{Outcome, ok}
use ktuctl_rs.World.{and_then, World}
use ktuctl_rs.Protocol.Structs.{In6Addr, TutuConfig}
use ktuctl_rs.Control.UidMap.{UidMap}
use ktuctl_rs.Control.XorKey.{format_xor_key}
use ktuctl_rs.Control.Names.{GlobalFlags, resolve_hostname, resolve_uid, resolve_ip}
use ktuctl_rs.Control.AddressText.{ip_to_string}
use ktuctl_rs.Control.AddressText.Plain.{Safe, ip_to_string-Safe}
use ktuctl_rs.Control.Options.RoundTrip.{client_words, user_or_uid}
use ktuctl_rs.Control.Listing.Lines.{dump_egress}
use ktuctl_rs.Protocol.Constants.{
  tutu_any, tutu_noexist, tutu_cmd_update_ingress, tutu_cmd_update_egress,
}
use ktuctl_rs.Control.Edit.{get_config, send_ingress, send_egress, ingress_of, cmd_client_add}
use ktuctl_rs.Control.Edit.Sends.{cmd_client_add-client_words}
use ktuctl_rs.Control.Script.{Outside, in_place, script_command, run_lines}
use ktuctl_rs.Control.Script.Solid.{IsWord}
use ktuctl_rs.Control.Script.OneLine.{SplitsWords, run_lines-joined, and_then-pure}
use ktuctl_rs.Control.Script.DumpLine.{peer, dump_egress-joined, client_words-IsWord}

module _ (en : Endian) (flags : GlobalFlags) (m : UidMap) where
  run_lines_last :
      (o : Outside) (r : Outcome (Unit {0}) × World)
      → and_then r (λ _. run_lines en flags m o 2 []) ≡ r
  unfolding run_lines
  run_lines_last o r = and_then-pure r

  -- A line of a dump is a `client-add` with the entry's fields as its arguments.
  pub run_lines-dump_egress :
      (o : Outside) (named : Bool) (user comment key : Bytes) (uid port n map_flags line : ℕ)
      (in6 : In6Addr) (rest : List (Option Bytes)) (w : World)
      → SplitsWords o
      → resolve_hostname flags m uid true ≡ user_or_uid named ++ (b' ' ∷ user)
      → IsWord user
      → ip_to_string in6 ≢ []
      → port < 65536
      → All IsByte key
      → length key ≡ 64
      → Safe comment
      → length comment ≤ 22
      → run_lines en flags m o line
          (some (dump_egress en flags m (peer en in6 port key n comment uid map_flags)) ∷ rest)
          w
        ≡ and_then
            (in_place line 1 (utf8 "client-add") (
              cmd_client_add en flags m
                (o.lookup w)
                (client_words named user (ip_to_string in6) port (format_xor_key key n) comment)
                w))
            (λ _. run_lines en flags m o (suc line) rest)
  unfolding script_command
  run_lines-dump_egress o named user comment key uid port n map_flags line in6 rest w splits host hu
        ha small bytes size safe short =
      ap (λ text. run_lines en flags m o line (some text ∷ rest) w)
        (dump_egress-joined en flags m named user comment key uid port n map_flags in6 host small
          size safe short)
      ∙ run_lines-joined en flags m o splits line b'c' _ (utf8 "client-add") _ rest w
          (client_words-IsWord named user (ip_to_string in6) comment key port n hu
            (ha, ip_to_string-Safe in6) bytes safe)
          refl refl

  -- A line that `dump` prints for a peer, as a script of its own, restores the peer. The entry has a
  -- user, printed as the name or number `user`, that resolves to it; an address that resolves to
  -- itself; a port; a key of 64 bytes that is zero behind the first n; and a comment of at most 22
  -- bytes; `user` and the comment need no quotes; and `shlex::split` splits words that need no quotes
  -- at the spaces. On a module in client mode that accepts the ingress entry, the script sends the
  -- egress entry that was dumped, and ends as this exchange ends, an error with its place around it.
  pub run_lines-dump_egress_restores :
      (o : Outside) (named : Bool) (user comment key : Bytes) (uid port n map_flags : ℕ)
      (in6 : In6Addr) (w w₁ w₂ : World) (cfg : TutuConfig)
      → SplitsWords o
      → resolve_hostname flags m uid true ≡ user_or_uid named ++ (b' ' ∷ user)
      → resolve_uid m user ≡ ok uid
      → IsWord user
      → ip_to_string in6 ≢ []
      → resolve_ip flags (o.lookup w (ip_to_string in6)) ≡ ok in6
      → port ≢ 0
      → port < 65536
      → All IsByte key
      → length key ≡ 64
      → n ≤ 64
      → drop n key ≡ replicate (64 - n) 0
      → Safe comment
      → length comment ≤ 22
      → get_config en flags m (o.lookup w) w ≡ (ok cfg, w₁)
      → cfg.is_server ≡ 0
      → send_ingress en flags m
          (o.lookup w)
          tutu_cmd_update_ingress
          (ingress_of uid in6 (htons en port) (key, n) tutu_noexist)
          w₁
        ≡ (ok tt, w₂)
      → run_lines en flags m o 1
          (some (dump_egress en flags m (peer en in6 port key n comment uid map_flags)) ∷ [])
          w
        ≡ in_place 1 1 (utf8 "client-add") (
            send_egress en flags m
              (o.lookup w)
              tutu_cmd_update_egress
              (peer en in6 port key n comment uid tutu_any)
              w₂)
  run_lines-dump_egress_restores o named user comment key uid port n map_flags in6 w w₁ w₂ cfg
        splits host resolved hu ha found some_port small bytes size short rest safe brief got client
        accepted =
      run_lines-dump_egress o named user comment key uid port n map_flags 1 in6 [] w splits host hu
        ha small bytes size safe brief
      ∙ run_lines_last o _
      ∙ ap (in_place 1 1 (utf8 "client-add")) (
          cmd_client_add-client_words en flags m (o.lookup w) named user (ip_to_string in6) comment
            key uid port n in6 w w₁ w₂ cfg resolved ha some_port small bytes size short rest found
            got client accepted)
