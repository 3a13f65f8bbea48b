-- ===== src/Control/Edit/Users.antt =====
-- `server` and `server-add` of ktuctl-rs/src/commands.rs with the arguments that `dump` writes.
use ktuctl_rs.Prelude.{
  ℕ, ◌-◌, ◌^◌, ◌≤◌, ◌<◌, ◌≡◌, ◌≢◌, refl, ap, ◌∙◌, List, [], ◌∷◌, Option, Bool, true, false, ◌||◌,
  not, ◌=b◌, ◌==◌, if◌then◌else◌, replicate, length, drop, All, arith, ==-false,
}
use ktuctl_rs.Bytes.{Endian, Bytes, htons, IsByte}
use ktuctl_rs.Number.{decimal, u32_max, parse_unsigned-decimal}
use ktuctl_rs.Address.{IpAddr}
use ktuctl_rs.Outcome.{ok, err, Error, ◌>>=◌}
use ktuctl_rs.World.{World, Net, and_then, lift}
use ktuctl_rs.Protocol.Constants.{tutu_cmd_update_user_info, tutu_any}
use ktuctl_rs.Protocol.Structs.{In6Addr, TutuConfig}
use ktuctl_rs.Control.UidMap.{UidMap}
use ktuctl_rs.Control.XorKey.{format_xor_key}
use ktuctl_rs.Control.Edit.Key.{xor_key_of-format_xor_key}
use ktuctl_rs.Control.Comment.{copy_comment}
use ktuctl_rs.Control.Names.{GlobalFlags, resolve_uid, resolve_ip}
use ktuctl_rs.Control.Options.{
  Options, nothing_set, number, parse_options, parse_max_age, server_add_words,
}
use ktuctl_rs.Control.Options.RoundTrip.{server_words, parse_options-server_words}
use ktuctl_rs.Control.Options.Words
use ktuctl_rs.Control.Edit.{
  config, xor_key_of, user_info_of, get_config, set_config, send_user_info, add_user, cmd_server,
  cmd_server_add,
}

module _ (en : Endian) (flags : GlobalFlags) (m : UidMap)
    (lookup : Bytes → Option (List IpAddr)) where
  -- `server max-age` sets the mode and the age.
  pub cmd_server-max_age :
      (age : ℕ) (w : World)
      → age < 2 ^ 32
      → cmd_server en flags m lookup (Words.max_age ∷ decimal age ∷ []) w
        ≡ set_config en flags m lookup (config age 1) w
  unfolding cmd_server parse_max_age
  cmd_server-max_age age w h =
      ap
        (λ x.
          and_then (number x >>= λ n. ok n, w)
            (λ max_age. set_config en flags m lookup (config max_age 1)))
        (parse_unsigned-decimal u32_max age (omega arith))

  add_user_sent :
      (o : Options) (in6 : In6Addr) (key : Bytes × ℕ) (w : World)
      → resolve_ip flags (lookup o.address) ≡ ok in6
      → xor_key_of o.xor_hex ≡ ok key
      → add_user en flags m lookup o w
        ≡ send_user_info en flags m lookup tutu_cmd_update_user_info (user_info_of en o in6 key) w
  unfolding add_user
  add_user_sent o in6 key w found keyed =
      let update = λ (i : In6Addr) (k : Bytes × ℕ).
        send_user_info en flags m lookup tutu_cmd_update_user_info (user_info_of en o i k) in
      ap (λ r. and_then (r, w) (λ i. λ w'. and_then (xor_key_of o.xor_hex, w') (update i))) found
      ∙ ap (λ r. and_then (r, w) (update in6)) keyed

  cmd_server_add_server :
      (args : List Bytes) (o : Options) (w w' : World) (cfg : TutuConfig)
      → parse_options m server_add_words args nothing_set ≡ ok o
      → (not o.uid_set || o.address =b [] || o.port == 0) ≡ false
      → get_config en flags m lookup w ≡ (ok cfg, w')
      → (cfg.is_server == 0) ≡ false
      → cmd_server_add en flags m lookup args w ≡ add_user en flags m lookup o w'
  unfolding cmd_server_add
  cmd_server_add_server args o w w' cfg parsed complete got server =
      let by_mode =
        λ (b : Bool). if b then lift (err Error.wrong_mode) else add_user en flags m lookup o in
      ap (λ r. and_then (r, w) after) parsed
      ∙ ap
          (λ b.
            (if b then lift (err Error.incomplete) else (λ v.
                and_then (get_config en flags m lookup v) (λ cfg'. by_mode (cfg'.is_server == 0))))
              w)
          complete
      ∙ ap (λ r. and_then r (λ cfg'. by_mode (cfg'.is_server == 0))) got
      ∙ ap (λ b. by_mode b w') server
    where
      after : Options → Net (Unit {0})
      after o' =
          if not o'.uid_set || o'.address =b [] || o'.port == 0
          then lift (err Error.incomplete)
          else (λ v. and_then (get_config en flags m lookup v) (λ cfg'.
              if cfg'.is_server == 0
              then lift (err Error.wrong_mode)
              else add_user en flags m lookup o'))

  is_complete :
      (address : Bytes) (port : ℕ)
      → address ≢ []
      → port ≢ 0
      → (not true || address =b [] || port == 0) ≡ false
  is_complete [] port a p = absurd (a refl)
  is_complete (b ∷ address) port a p = ==-false port 0 p

  -- `server-add` with the arguments that `dump` writes for a user restores the user: number `uid` (by a
  -- name or a number that resolves to it), an address that resolves to `in6`, an ICMP id and a port, a
  -- comment, and a key of 64 bytes that is zero behind the first n. On a module in server mode
  -- `server-add` sends the user, field by field what was dumped, and ends as this exchange ends.
  pub cmd_server_add-server_words :
      (named : Bool) (user address comment key : Bytes) (uid icmp_id port n : ℕ) (in6 : In6Addr)
      (w w' : World) (cfg : TutuConfig)
      → resolve_uid m user ≡ ok uid
      → address ≢ []
      → icmp_id < 65536
      → port ≢ 0
      → port < 65536
      → All IsByte key
      → length key ≡ 64
      → n ≤ 64
      → drop n key ≡ replicate (64 - n) 0
      → resolve_ip flags (lookup address) ≡ ok in6
      → get_config en flags m lookup w ≡ (ok cfg, w')
      → (cfg.is_server == 0) ≡ false
      → cmd_server_add en flags m lookup
          (server_words named user address icmp_id port (format_xor_key key n) comment)
          w
        ≡ send_user_info en flags m lookup tutu_cmd_update_user_info
            (record {
              uid = uid;
              pad0 = replicate 3 0;
              value = record {
                address = in6;
                icmp_id = htons en icmp_id;
                dport = htons en port;
                comment = copy_comment comment;
                xor_key = key;
                xor_key_len = n;
                reserved2 = replicate 7 0;
                pad1 = replicate 2 0;
              };
              map_flags = tutu_any;
            })
            w'
  cmd_server_add-server_words named user address comment key uid icmp_id port n in6 w w' cfg
        resolved some_address small_id some_port small bytes size short rest found got server =
      let o : Options = record {
        address = address;
        port = port;
        icmp_id = icmp_id;
        uid = uid;
        uid_set = true;
        comment = comment;
        xor_hex = format_xor_key key n;
      } in
      cmd_server_add_server _ o w w' cfg
        (parse_options-server_words m named user address (format_xor_key key n) comment uid icmp_id
          port resolved small_id small)
        (is_complete address port some_address some_port) got server
      ∙ add_user_sent o in6 (key, n) w' found
          (xor_key_of-format_xor_key key n bytes size short rest)
