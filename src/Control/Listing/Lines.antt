-- ===== src/Control/Listing/Lines.antt =====
-- The lines that `cmd_status` and `cmd_dump` of ktuctl-rs/src/commands.rs print.
use ktuctl_rs.Prelude.{ℕ, List, [], ◌∷◌, ◌++◌, true, false, not, ltb, ◌==◌, if◌then◌else◌}
use ktuctl_rs.Bytes.{Endian, Bytes, ntohs}
use ktuctl_rs.Text.{utf8}
use ktuctl_rs.Number.{decimal}
use ktuctl_rs.Protocol.Structs.{
  TutuConfig, TutuIngress, TutuEgress, TutuUserInfo, TutuSession, TutuStats,
}
use ktuctl_rs.Control.UidMap.{UidMap}
use ktuctl_rs.Control.Names.{GlobalFlags, resolve_hostname}
use ktuctl_rs.Control.Comment.{format_comment}
use ktuctl_rs.Control.XorKey.{format_xor_key}
use ktuctl_rs.Control.AddressText.{ip_to_string}

-- `config::PROJECT_NAME`
abbrev pub project_name : Bytes
project_name = utf8 "ktuctl-rs"

abbrev pub version_line : Bytes
version_line = project_name ++ utf8 ": 1.0.0 (Rust Port)"

abbrev pub role_line : TutuConfig → Bytes
role_line cfg =
    project_name
    ++ (utf8 ": Role: "
        ++ ((if not (cfg.is_server == 0) then utf8 "Server" else utf8 "Client") ++ utf8 "\n"))

abbrev pub stats_lines : TutuStats → List Bytes
stats_lines stats =
    utf8 "\nPackets:"
    ∷ (utf8 "  processed:   " ++ decimal stats.packets_processed)
    ∷ (utf8 "  dropped:     " ++ decimal stats.packets_dropped)
    ∷ (utf8 "  cksum error: " ++ decimal stats.checksum_errors)
    ∷ (utf8 "  fragmented:  " ++ decimal stats.fragmented)
    ∷ (utf8 "  GSO:         " ++ decimal stats.gso)
    ∷ []

abbrev pub dump_head : Bytes → List Bytes
dump_head time =
    utf8 "#!/sbin/ktuctl script -"
    ∷ (utf8 "# Auto-generated by \"ktuctl dump\" on " ++ (time ++ utf8 "\n"))
    ∷ []

-- ", with xor key" for a key that is not empty.
abbrev pub with_key : ℕ → Bytes
with_key len = if ltb 0 len then utf8 ", with xor key" else []

-- " xor " and the key, for a key that is not empty.
unfoldable pub xor_words : Bytes → ℕ → Bytes
xor_words key len = if ltb 0 len then utf8 " xor " ++ format_xor_key key len else []

module _ (en : Endian) (flags : GlobalFlags) (m : UidMap) where
  unfoldable pub status_user : TutuUserInfo → Bytes
  status_user u =
      utf8 "  "
      ++ (resolve_hostname flags m u.uid false
          ++ (utf8 ", Address: "
              ++ (ip_to_string u.value.address
                  ++ (utf8 ", Dport: "
                      ++ (decimal (ntohs en u.value.dport)
                          ++ (utf8 ", ICMP: "
                              ++ (decimal (ntohs en u.value.icmp_id)
                                  ++ (with_key u.value.xor_key_len
                                      ++ format_comment u.value.comment false))))))))

  unfoldable pub status_session : TutuSession → Bytes
  status_session s =
      utf8 "  Address: "
      ++ (ip_to_string s.key.address
          ++ (utf8 ", SPort: "
              ++ (decimal (ntohs en s.key.sport)
                  ++ (utf8 ", DPort: "
                      ++ (decimal (ntohs en s.key.dport)
                          ++ (utf8 " => "
                              ++ (resolve_hostname flags m s.value.uid false
                                  ++ (utf8 ", Age: "
                                      ++ (decimal s.value.age
                                          ++ (utf8 ", Client Sport: "
                                              ++ decimal (ntohs en s.value.client_sport)))))))))))

  unfoldable pub status_egress : TutuEgress → Bytes
  status_egress e =
      utf8 "  "
      ++ (resolve_hostname flags m e.value.uid false
          ++ (utf8 ", Address: "
              ++ (ip_to_string e.key.address
                  ++ (utf8 ", Port: "
                      ++ (decimal (ntohs en e.key.port)
                          ++ (with_key e.value.xor_key_len
                              ++ format_comment e.value.comment false))))))

  unfoldable pub status_ingress : TutuIngress → Bytes
  status_ingress i =
      utf8 "  "
      ++ (resolve_hostname flags m i.key.uid false
          ++ (utf8 ", Address: "
              ++ (ip_to_string i.key.address
                  ++ (utf8 " => Sport: "
                      ++ (decimal (ntohs en i.value.port) ++ with_key i.value.xor_key_len)))))

  -- A `server-add` for a user.
  unfoldable pub dump_user : TutuUserInfo → Bytes
  dump_user u =
      utf8 "server-add "
      ++ (resolve_hostname flags m u.uid true
          ++ (utf8 " addr "
              ++ (ip_to_string u.value.address
                  ++ (utf8 " icmp-id "
                      ++ (decimal (ntohs en u.value.icmp_id)
                          ++ (utf8 " port "
                              ++ (decimal (ntohs en u.value.dport)
                                  ++ (xor_words u.value.xor_key u.value.xor_key_len
                                      ++ format_comment u.value.comment true))))))))

  -- A `client-add` for a peer.
  unfoldable pub dump_egress : TutuEgress → Bytes
  dump_egress e =
      utf8 "client-add "
      ++ (resolve_hostname flags m e.value.uid true
          ++ (utf8 " addr "
              ++ (ip_to_string e.key.address
                  ++ (utf8 " port "
                      ++ (decimal (ntohs en e.key.port)
                          ++ (xor_words e.value.xor_key e.value.xor_key_len
                              ++ format_comment e.value.comment true))))))
