-- ===== src/Protocol/Image.antt =====
-- The memory images of the structs of ktuctl-rs/src/config.rs as a C compiler lays them out, written
-- out by hand: what each field may hold, and its bytes in the order of the declarations.
use ktuctl_rs.Prelude.{ℕ, ◌^◌, ◌<◌, ◌≡◌, ◌++◌, length, All}
use ktuctl_rs.Bytes.{Endian, Bytes, IsByte, to_ne_bytes}
use ktuctl_rs.Protocol.Structs.{
  TutuConfig, TutuStats, TutuUserInfo, TutuEgress, TutuIngress, TutuSession,
}

-- `[u8; n]`
abbrev IsArray : ℕ → Bytes → Type 0
IsArray n bs = (length bs ≡ n) × All IsByte bs

-- The structs by the attribute that carries them.
pub data Kind : Type 0 where
  config stats egress ingress session user_info : Kind

abbrev pub Struct : Kind → Type 0
Struct Kind.config = TutuConfig
Struct Kind.stats = TutuStats
Struct Kind.egress = TutuEgress
Struct Kind.ingress = TutuIngress
Struct Kind.session = TutuSession
Struct Kind.user_info = TutuUserInfo

-- The sizes that the C structs of the kernel module have.
abbrev pub c_size : Kind → ℕ
c_size Kind.config = 8
c_size Kind.stats = 40
c_size Kind.egress = 120
c_size Kind.ingress = 104
c_size Kind.session = 48
c_size Kind.user_info = 128

-- Every field fits its type. An address has 16 bytes, a key 64 and a comment 22.
abbrev pub Fits : (k : Kind) → Struct k → Type 0
Fits Kind.config s =
    (s.session_max_age < 2 ^ 32)
    × ((s.reserved0 < 2 ^ 8) × ((s.is_server < 2 ^ 8) × IsArray 2 s.reserved1))
Fits Kind.stats s =
    (s.packets_processed < 2 ^ 64)
    × ((s.packets_dropped < 2 ^ 64)
        × ((s.checksum_errors < 2 ^ 64) × ((s.fragmented < 2 ^ 64) × (s.gso < 2 ^ 64))))
Fits Kind.egress s =
    (IsArray 16 s.key.address.octets × ((s.key.port < 2 ^ 16) × IsArray 2 s.key.pad0))
    × ((IsArray 64 s.value.xor_key
          × (IsArray 22 s.value.comment × ((s.value.xor_key_len < 2 ^ 8) × (s.value.uid < 2 ^ 8))))
        × (IsArray 4 s.pad0 × (s.map_flags < 2 ^ 64)))
Fits Kind.ingress s =
    (IsArray 16 s.key.address.octets × ((s.key.uid < 2 ^ 8) × IsArray 3 s.key.pad0))
    × ((IsArray 64 s.value.xor_key
          × ((s.value.xor_key_len < 2 ^ 8)
              × ((s.value.reserved0 < 2 ^ 8)
                  × ((s.value.port < 2 ^ 16) × IsArray 4 s.value.reserved1))))
        × (IsArray 4 s.pad0 × (s.map_flags < 2 ^ 64)))
Fits Kind.session s =
    (IsArray 16 s.key.address.octets × ((s.key.sport < 2 ^ 16) × (s.key.dport < 2 ^ 16)))
    × (IsArray 4 s.pad0
        × (((s.value.age < 2 ^ 64)
              × ((s.value.uid < 2 ^ 8)
                  × ((s.value.pad0 < 2 ^ 8)
                      × ((s.value.client_sport < 2 ^ 16) × IsArray 4 s.value.pad1))))
            × (s.map_flags < 2 ^ 64)))
Fits Kind.user_info s =
    (s.uid < 2 ^ 8)
    × (IsArray 3 s.pad0
        × ((IsArray 16 s.value.address.octets
              × ((s.value.icmp_id < 2 ^ 16)
                  × ((s.value.dport < 2 ^ 16)
                      × (IsArray 22 s.value.comment
                          × (IsArray 64 s.value.xor_key
                              × ((s.value.xor_key_len < 2 ^ 8)
                                  × (IsArray 7 s.value.reserved2 × IsArray 2 s.value.pad1)))))))
            × (s.map_flags < 2 ^ 64)))

-- The fields in the order of the declarations; a struct within a struct is grouped.
abbrev pub c_image : Endian → (k : Kind) → Struct k → Bytes
c_image en Kind.config s =
    to_ne_bytes en 4 s.session_max_age
    ++ (to_ne_bytes en 1 s.reserved0 ++ (to_ne_bytes en 1 s.is_server ++ s.reserved1))
c_image en Kind.stats s =
    to_ne_bytes en 8 s.packets_processed
    ++ (to_ne_bytes en 8 s.packets_dropped
        ++ (to_ne_bytes en 8 s.checksum_errors
            ++ (to_ne_bytes en 8 s.fragmented ++ to_ne_bytes en 8 s.gso)))
c_image en Kind.egress s =
    (s.key.address.octets ++ (to_ne_bytes en 2 s.key.port ++ s.key.pad0))
    ++ ((s.value.xor_key
          ++ (s.value.comment
              ++ (to_ne_bytes en 1 s.value.xor_key_len ++ to_ne_bytes en 1 s.value.uid)))
        ++ (s.pad0 ++ to_ne_bytes en 8 s.map_flags))
c_image en Kind.ingress s =
    (s.key.address.octets ++ (to_ne_bytes en 1 s.key.uid ++ s.key.pad0))
    ++ ((s.value.xor_key
          ++ (to_ne_bytes en 1 s.value.xor_key_len
              ++ (to_ne_bytes en 1 s.value.reserved0
                  ++ (to_ne_bytes en 2 s.value.port ++ s.value.reserved1))))
        ++ (s.pad0 ++ to_ne_bytes en 8 s.map_flags))
c_image en Kind.session s =
    (s.key.address.octets ++ (to_ne_bytes en 2 s.key.sport ++ to_ne_bytes en 2 s.key.dport))
    ++ (s.pad0
        ++ ((to_ne_bytes en 8 s.value.age
              ++ (to_ne_bytes en 1 s.value.uid
                  ++ (to_ne_bytes en 1 s.value.pad0
                      ++ (to_ne_bytes en 2 s.value.client_sport ++ s.value.pad1))))
            ++ to_ne_bytes en 8 s.map_flags))
c_image en Kind.user_info s =
    to_ne_bytes en 1 s.uid
    ++ (s.pad0
        ++ ((s.value.address.octets
              ++ (to_ne_bytes en 2 s.value.icmp_id
                  ++ (to_ne_bytes en 2 s.value.dport
                      ++ (s.value.comment
                          ++ (s.value.xor_key
                              ++ (to_ne_bytes en 1 s.value.xor_key_len
                                  ++ (s.value.reserved2 ++ s.value.pad1)))))))
            ++ to_ne_bytes en 8 s.map_flags))
