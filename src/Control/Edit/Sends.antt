-- ===== src/Control/Edit/Sends.antt =====
-- What `client-add` of ktuctl-rs/src/commands.rs sends.
use ktuctl_rs.Prelude.{
  ℕ, ◌-◌, ◌≤◌, ◌<◌, ◌≡◌, ◌≢◌, refl, ◌∙◌, List, [], ◌∷◌, Option, Bool, true, false, ◌||◌, not, ◌=b◌,
  ◌==◌, if◌then◌else◌, replicate, length, drop, All, arith, ==-false,
}
use ktuctl_rs.Bytes.{Endian, Bytes, htons, IsByte}
use ktuctl_rs.Address.{IpAddr}
use ktuctl_rs.Outcome.{ok, err, Error}
use ktuctl_rs.World.{World, and_then, lift}
use ktuctl_rs.Protocol.Constants.{
  tutu_cmd_update_ingress, tutu_cmd_update_egress, tutu_noexist, tutu_any,
}
use ktuctl_rs.Protocol.Structs.{In6Addr, TutuConfig}
use ktuctl_rs.Control.UidMap.{UidMap}
use ktuctl_rs.Control.XorKey.{format_xor_key}
use ktuctl_rs.Control.Edit.Key.{xor_key_of-format_xor_key}
use ktuctl_rs.Control.Comment.{copy_comment}
use ktuctl_rs.Control.Names.{GlobalFlags, resolve_uid, resolve_ip}
use ktuctl_rs.Control.Options.{Options, nothing_set, parse_options, client_add_words}
use ktuctl_rs.Control.Options.RoundTrip.{client_words, parse_options-client_words}
use ktuctl_rs.Control.Edit.{
  xor_key_of, egress_of, ingress_of, get_config, send_ingress, send_egress, add_peer,
  cmd_client_add,
}

module _ (en : Endian) (flags : GlobalFlags) (m : UidMap)
    (lookup : Bytes → Option (List IpAddr)) where
  -- `cmd_client_add` behind its arguments.
  cmd_client_add_complete :
      (args : List Bytes) (o : Options) (w w' : World) (cfg : TutuConfig)
      → parse_options m client_add_words args nothing_set ≡ ok o
      → (o.address =b [] || o.port == 0 || not o.uid_set) ≡ false
      → get_config en flags m lookup w ≡ (ok cfg, w')
      → cmd_client_add en flags m lookup args w
        ≡ (if not (cfg.is_server == 0)
              then lift (err Error.wrong_mode)
              else add_peer en flags m lookup o)
            w'
  unfolding cmd_client_add
  cmd_client_add_complete args o w w' cfg parsed complete got =
      rw (parsed, cmd_client_add) (rw (complete, if◌then◌else◌) (rw (got, and_then) refl))

  add_peer_sent :
      (o : Options) (in6 : In6Addr) (key : Bytes × ℕ) (w w' : World)
      → resolve_ip flags (lookup o.address) ≡ ok in6
      → xor_key_of o.xor_hex ≡ ok key
      → send_ingress en flags m lookup tutu_cmd_update_ingress
          (ingress_of o.uid in6 (htons en o.port) key tutu_noexist)
          w
        ≡ (ok tt, w')
      → add_peer en flags m lookup o w
        ≡ send_egress en flags m lookup tutu_cmd_update_egress (egress_of en o in6 key) w'
  unfolding add_peer
  add_peer_sent o in6 key w w' found keyed sent =
      rw (found, add_peer) (rw (keyed, and_then) (rw (sent, and_then) refl))

  cmd_client_add_client :
      (args : List Bytes) (o : Options) (w w' : World) (cfg : TutuConfig)
      → parse_options m client_add_words args nothing_set ≡ ok o
      → (o.address =b [] || o.port == 0 || not o.uid_set) ≡ false
      → get_config en flags m lookup w ≡ (ok cfg, w')
      → cfg.is_server ≡ 0
      → cmd_client_add en flags m lookup args w ≡ add_peer en flags m lookup o w'
  cmd_client_add_client args o w w' cfg parsed complete got client =
      let is_client : (cfg.is_server == 0) ≡ true = ground (arith, client) in
      cmd_client_add_complete args o w w' cfg parsed complete got ∙ rw is_client refl

  is_complete :
      (address : Bytes) (port : ℕ)
      → address ≢ []
      → port ≢ 0
      → (address =b [] || port == 0 || not true) ≡ false
  is_complete [] port a p = absurd (a refl)
  is_complete (b ∷ address) port a p = rw (==-false port 0 p) refl

  -- `client-add` with the arguments that `dump` writes for an entry restores the entry: user `uid`
  -- (by a name or a number that resolves to it), an address that resolves to `in6`, a port, a comment,
  -- and a key of 64 bytes that is zero behind the first n. On a module in client mode, if the ingress
  -- entry is accepted, `client-add` goes on with the egress entry, field by field what was dumped, and
  -- ends as this last exchange ends. The ingress entry, for the same user, address and port, comes
  -- first, and is to be a new one.
  pub cmd_client_add-client_words :
      (named : Bool) (user address comment key : Bytes) (uid port n : ℕ) (in6 : In6Addr)
      (w w₁ w₂ : World) (cfg : TutuConfig)
      → resolve_uid m user ≡ ok uid
      → address ≢ []
      → port ≢ 0
      → port < 65536
      → All IsByte key
      → length key ≡ 64
      → n ≤ 64
      → drop n key ≡ replicate (64 - n) 0
      → resolve_ip flags (lookup address) ≡ ok in6
      → get_config en flags m lookup w ≡ (ok cfg, w₁)
      → cfg.is_server ≡ 0
      → send_ingress en flags m lookup tutu_cmd_update_ingress
          (ingress_of uid in6 (htons en port) (key, n) tutu_noexist)
          w₁
        ≡ (ok tt, w₂)
      → cmd_client_add en flags m lookup
          (client_words named user address port (format_xor_key key n) comment)
          w
        ≡ send_egress en flags m lookup tutu_cmd_update_egress
            (record {
              key = record { address = in6; port = htons en port; pad0 = replicate 2 0 };
              value = record {
                xor_key = key;
                comment = copy_comment comment;
                xor_key_len = n;
                uid = uid;
              };
              pad0 = replicate 4 0;
              map_flags = tutu_any;
            })
            w₂
  cmd_client_add-client_words named user address comment key uid port n in6 w w₁ w₂ cfg resolved
        some_address some_port small bytes size short rest found got client accepted =
      let o : Options = record {
        address = address;
        port = port;
        icmp_id = 0;
        uid = uid;
        uid_set = true;
        comment = comment;
        xor_hex = format_xor_key key n;
      } in
      cmd_client_add_client _ o w w₁ cfg
        (parse_options-client_words m named user address (format_xor_key key n) comment uid port
          resolved small)
        (is_complete address port some_address some_port) got client
      ∙ add_peer_sent o in6 (key, n) w₁ w₂ found
          (xor_key_of-format_xor_key key n bytes size short rest) accepted
