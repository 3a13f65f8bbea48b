-- ===== src/Protocol/Structs.antt =====
-- The `#[repr(C)]` structs of ktuctl-rs/src/config.rs, field for field, and the layout of each. The
-- padding is in fields of its own (`_pad0` is `pad0`), so the image is the fields in order.
use ktuctl_rs.Prelude.{ℕ, refl}
use ktuctl_rs.Bytes.{Endian, Bytes}
use ktuctl_rs.Protocol.Constants.{tutu_xor_key_max}
use ktuctl_rs.Protocol.Layout.{Layout, uint, array, ◌⨟◌, struct}

pub record In6Addr : Type 0 where
  pub octets : Bytes

pub record TutuConfig : Type 0 where
  pub session_max_age : ℕ
  pub reserved0 : ℕ
  pub is_server : ℕ
  pub reserved1 : Bytes

pub record TutuStats : Type 0 where
  pub packets_processed : ℕ
  pub packets_dropped : ℕ
  pub checksum_errors : ℕ
  pub fragmented : ℕ
  pub gso : ℕ

pub record UserInfoValue : Type 0 where
  pub address : In6Addr
  pub icmp_id : ℕ
  pub dport : ℕ
  pub comment : Bytes
  pub xor_key : Bytes
  pub xor_key_len : ℕ
  pub reserved2 : Bytes
  pub pad1 : Bytes

pub record TutuUserInfo : Type 0 where
  pub uid : ℕ
  pub pad0 : Bytes
  pub value : UserInfoValue
  pub map_flags : ℕ

pub record EgressPeerKey : Type 0 where
  pub address : In6Addr
  pub port : ℕ
  pub pad0 : Bytes

pub record EgressPeerValue : Type 0 where
  pub xor_key : Bytes
  pub comment : Bytes
  pub xor_key_len : ℕ
  pub uid : ℕ

pub record TutuEgress : Type 0 where
  pub key : EgressPeerKey
  pub value : EgressPeerValue
  pub pad0 : Bytes
  pub map_flags : ℕ

pub record IngressPeerKey : Type 0 where
  pub address : In6Addr
  pub uid : ℕ
  pub pad0 : Bytes

pub record IngressPeerValue : Type 0 where
  pub xor_key : Bytes
  pub xor_key_len : ℕ
  pub reserved0 : ℕ
  pub port : ℕ
  pub reserved1 : Bytes

pub record TutuIngress : Type 0 where
  pub key : IngressPeerKey
  pub value : IngressPeerValue
  pub pad0 : Bytes
  pub map_flags : ℕ

pub record SessionKey : Type 0 where
  pub address : In6Addr
  pub sport : ℕ
  pub dport : ℕ

pub record SessionValue : Type 0 where
  pub age : ℕ
  pub uid : ℕ
  pub pad0 : ℕ
  pub client_sport : ℕ
  pub pad1 : Bytes

pub record TutuSession : Type 0 where
  pub key : SessionKey
  pub pad0 : Bytes
  pub value : SessionValue
  pub map_flags : ℕ

module _ (en : Endian) where
  abbrev pub in6_addr_layout : Layout In6Addr
  in6_addr_layout =
      struct {A = Bytes} (λ s. s.octets) (λ r. record { octets = r }) (λ s. refl) (λ r. refl)
        (array 16)

  abbrev pub tutu_config_layout : Layout TutuConfig
  tutu_config_layout =
      struct {A = ℕ × (ℕ × (ℕ × Bytes))}
        (λ s. (s.session_max_age, (s.reserved0, (s.is_server, s.reserved1))))
        (λ r. record {
          session_max_age = r.0;
          reserved0 = r.1.0;
          is_server = r.1.1.0;
          reserved1 = r.1.1.1;
        })
        (λ s. refl) (λ r. refl) ((uint en 4) ⨟ ((uint en 1) ⨟ ((uint en 1) ⨟ (array 2))))

  abbrev pub tutu_stats_layout : Layout TutuStats
  tutu_stats_layout =
      struct {A = ℕ × (ℕ × (ℕ × (ℕ × ℕ)))}
        (λ s.
          (s.packets_processed, (s.packets_dropped, (s.checksum_errors, (s.fragmented, s.gso)))))
        (λ r. record {
          packets_processed = r.0;
          packets_dropped = r.1.0;
          checksum_errors = r.1.1.0;
          fragmented = r.1.1.1.0;
          gso = r.1.1.1.1;
        })
        (λ s. refl) (λ r. refl)
        ((uint en 8) ⨟ ((uint en 8) ⨟ ((uint en 8) ⨟ ((uint en 8) ⨟ (uint en 8)))))

  abbrev pub user_info_value_layout : Layout UserInfoValue
  user_info_value_layout =
      struct {A = In6Addr × (ℕ × (ℕ × (Bytes × (Bytes × (ℕ × (Bytes × Bytes))))))}
        (λ s. (
          s.address,
          (s.icmp_id, (s.dport, (s.comment, (s.xor_key, (s.xor_key_len, (s.reserved2, s.pad1)))))),
        ))
        (λ r. record {
          address = r.0;
          icmp_id = r.1.0;
          dport = r.1.1.0;
          comment = r.1.1.1.0;
          xor_key = r.1.1.1.1.0;
          xor_key_len = r.1.1.1.1.1.0;
          reserved2 = r.1.1.1.1.1.1.0;
          pad1 = r.1.1.1.1.1.1.1;
        })
        (λ s. refl) (λ r. refl)
        ((in6_addr_layout)
          ⨟ ((uint en 2)
              ⨟ ((uint en 2)
                  ⨟ ((array 22)
                      ⨟ ((array tutu_xor_key_max) ⨟ ((uint en 1) ⨟ ((array 7) ⨟ (array 2))))))))

  abbrev pub tutu_user_info_layout : Layout TutuUserInfo
  tutu_user_info_layout =
      struct {A = ℕ × (Bytes × (UserInfoValue × ℕ))}
        (λ s. (s.uid, (s.pad0, (s.value, s.map_flags))))
        (λ r. record { uid = r.0; pad0 = r.1.0; value = r.1.1.0; map_flags = r.1.1.1 }) (λ s. refl)
        (λ r. refl) ((uint en 1) ⨟ ((array 3) ⨟ ((user_info_value_layout) ⨟ (uint en 8))))

  abbrev pub egress_peer_key_layout : Layout EgressPeerKey
  egress_peer_key_layout =
      struct {A = In6Addr × (ℕ × Bytes)} (λ s. (s.address, (s.port, s.pad0)))
        (λ r. record { address = r.0; port = r.1.0; pad0 = r.1.1 }) (λ s. refl) (λ r. refl)
        ((in6_addr_layout) ⨟ ((uint en 2) ⨟ (array 2)))

  abbrev pub egress_peer_value_layout : Layout EgressPeerValue
  egress_peer_value_layout =
      struct {A = Bytes × (Bytes × (ℕ × ℕ))} (λ s. (s.xor_key, (s.comment, (s.xor_key_len, s.uid))))
        (λ r. record { xor_key = r.0; comment = r.1.0; xor_key_len = r.1.1.0; uid = r.1.1.1 })
        (λ s. refl) (λ r. refl)
        ((array tutu_xor_key_max) ⨟ ((array 22) ⨟ ((uint en 1) ⨟ (uint en 1))))

  abbrev pub tutu_egress_layout : Layout TutuEgress
  tutu_egress_layout =
      struct {A = EgressPeerKey × (EgressPeerValue × (Bytes × ℕ))}
        (λ s. (s.key, (s.value, (s.pad0, s.map_flags))))
        (λ r. record { key = r.0; value = r.1.0; pad0 = r.1.1.0; map_flags = r.1.1.1 }) (λ s. refl)
        (λ r. refl)
        ((egress_peer_key_layout) ⨟ ((egress_peer_value_layout) ⨟ ((array 4) ⨟ (uint en 8))))

  abbrev pub ingress_peer_key_layout : Layout IngressPeerKey
  ingress_peer_key_layout =
      struct {A = In6Addr × (ℕ × Bytes)} (λ s. (s.address, (s.uid, s.pad0)))
        (λ r. record { address = r.0; uid = r.1.0; pad0 = r.1.1 }) (λ s. refl) (λ r. refl)
        ((in6_addr_layout) ⨟ ((uint en 1) ⨟ (array 3)))

  abbrev pub ingress_peer_value_layout : Layout IngressPeerValue
  ingress_peer_value_layout =
      struct {A = Bytes × (ℕ × (ℕ × (ℕ × Bytes)))}
        (λ s. (s.xor_key, (s.xor_key_len, (s.reserved0, (s.port, s.reserved1)))))
        (λ r. record {
          xor_key = r.0;
          xor_key_len = r.1.0;
          reserved0 = r.1.1.0;
          port = r.1.1.1.0;
          reserved1 = r.1.1.1.1;
        })
        (λ s. refl) (λ r. refl)
        ((array tutu_xor_key_max) ⨟ ((uint en 1) ⨟ ((uint en 1) ⨟ ((uint en 2) ⨟ (array 4)))))

  abbrev pub tutu_ingress_layout : Layout TutuIngress
  tutu_ingress_layout =
      struct {A = IngressPeerKey × (IngressPeerValue × (Bytes × ℕ))}
        (λ s. (s.key, (s.value, (s.pad0, s.map_flags))))
        (λ r. record { key = r.0; value = r.1.0; pad0 = r.1.1.0; map_flags = r.1.1.1 }) (λ s. refl)
        (λ r. refl)
        ((ingress_peer_key_layout) ⨟ ((ingress_peer_value_layout) ⨟ ((array 4) ⨟ (uint en 8))))

  abbrev pub session_key_layout : Layout SessionKey
  session_key_layout =
      struct {A = In6Addr × (ℕ × ℕ)} (λ s. (s.address, (s.sport, s.dport)))
        (λ r. record { address = r.0; sport = r.1.0; dport = r.1.1 }) (λ s. refl) (λ r. refl)
        ((in6_addr_layout) ⨟ ((uint en 2) ⨟ (uint en 2)))

  abbrev pub session_value_layout : Layout SessionValue
  session_value_layout =
      struct {A = ℕ × (ℕ × (ℕ × (ℕ × Bytes)))}
        (λ s. (s.age, (s.uid, (s.pad0, (s.client_sport, s.pad1)))))
        (λ r. record {
          age = r.0;
          uid = r.1.0;
          pad0 = r.1.1.0;
          client_sport = r.1.1.1.0;
          pad1 = r.1.1.1.1;
        })
        (λ s. refl) (λ r. refl)
        ((uint en 8) ⨟ ((uint en 1) ⨟ ((uint en 1) ⨟ ((uint en 2) ⨟ (array 4)))))

  abbrev pub tutu_session_layout : Layout TutuSession
  tutu_session_layout =
      struct {A = SessionKey × (Bytes × (SessionValue × ℕ))}
        (λ s. (s.key, (s.pad0, (s.value, s.map_flags))))
        (λ r. record { key = r.0; pad0 = r.1.0; value = r.1.1.0; map_flags = r.1.1.1 }) (λ s. refl)
        (λ r. refl) ((session_key_layout) ⨟ ((array 4) ⨟ ((session_value_layout) ⨟ (uint en 8))))
