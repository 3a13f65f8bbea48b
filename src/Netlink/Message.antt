-- ===== src/Netlink/Message.antt =====
-- Messages of ktuctl-rs/src/netlink.rs: the raw headers, `build_packet_genl_msg`, `parse_nlmsghdr`,
-- `parse_genlhdr` and `check_nlmsg_error`.
use ktuctl_rs.Prelude.{
  ℕ, ◌+◌, ◌-◌, ◌%◌, ◌^◌, refl, List, [], ◌∷◌, ◌++◌, Option, none, some, ltb, ◌==◌, if◌then◌else◌,
  length, drop,
}
use ktuctl_rs.Bytes.{Endian, Bytes, to_ne_bytes}
use ktuctl_rs.Outcome.{Outcome, ok, err, Error}
use ktuctl_rs.Protocol.Layout.{Layout, uint, ◌⨟◌, struct}
use ktuctl_rs.Netlink.Attr.{push_attrs}

pub record NlmsghdrRaw : Type 0 where
  pub nlmsg_len : ℕ
  pub nlmsg_type : ℕ
  pub nlmsg_flags : ℕ
  pub nlmsg_seq : ℕ
  pub nlmsg_pid : ℕ

pub record GenlmsghdrRaw : Type 0 where
  pub cmd : ℕ
  pub version : ℕ
  pub reserved : ℕ

-- `error` is an `i32`, kept as its bit pattern.
pub record NlmsgerrRaw : Type 0 where
  pub error : ℕ
  pub msg : NlmsghdrRaw

-- `size_of` of the three headers.
abbrev pub nlmsghdr_size : ℕ
nlmsghdr_size = 16

abbrev pub genlmsghdr_size : ℕ
genlmsghdr_size = 4

abbrev pub nlmsgerr_size : ℕ
nlmsgerr_size = 20

module _ (en : Endian) where
  abbrev pub nlmsghdr_layout : Layout NlmsghdrRaw
  nlmsghdr_layout =
      struct {A = ℕ × (ℕ × (ℕ × (ℕ × ℕ)))}
        (λ s. (s.nlmsg_len, (s.nlmsg_type, (s.nlmsg_flags, (s.nlmsg_seq, s.nlmsg_pid)))))
        (λ r. record {
          nlmsg_len = r.0;
          nlmsg_type = r.1.0;
          nlmsg_flags = r.1.1.0;
          nlmsg_seq = r.1.1.1.0;
          nlmsg_pid = r.1.1.1.1;
        })
        (λ s. refl) (λ r. refl) (uint en 4 ⨟ (uint en 2 ⨟ (uint en 2 ⨟ (uint en 4 ⨟ uint en 4))))

  abbrev pub genlmsghdr_layout : Layout GenlmsghdrRaw
  genlmsghdr_layout =
      struct {A = ℕ × (ℕ × ℕ)} (λ s. (s.cmd, (s.version, s.reserved)))
        (λ r. record { cmd = r.0; version = r.1.0; reserved = r.1.1 }) (λ s. refl) (λ r. refl)
        (uint en 1 ⨟ (uint en 1 ⨟ uint en 2))

  abbrev pub nlmsgerr_layout : Layout NlmsgerrRaw
  nlmsgerr_layout =
      struct {A = ℕ × NlmsghdrRaw} (λ s. (s.error, s.msg)) (λ r. record { error = r.0; msg = r.1 })
        (λ s. refl) (λ r. refl) (uint en 4 ⨟ nlmsghdr_layout)

  -- `as u32` keeps the low 32 bits of the total length.
  unfoldable pub build_packet_genl_msg : ℕ → ℕ → ℕ → ℕ → ℕ → ℕ → List (ℕ × Bytes) → Bytes
  build_packet_genl_msg nlmsg_type nlmsg_flags nlmsg_seq nlmsg_pid cmd version attrs =
      let attrs_buf = push_attrs en [] attrs in
      let total_len = nlmsghdr_size + genlmsghdr_size + length attrs_buf in
      to_ne_bytes en 4 (total_len % 2 ^ 32)
      ++ (to_ne_bytes en 2 nlmsg_type
          ++ (to_ne_bytes en 2 nlmsg_flags
              ++ (to_ne_bytes en 4 nlmsg_seq
                  ++ (to_ne_bytes en 4 nlmsg_pid
                      ++ ((cmd ∷ []) ++ ((version ∷ []) ++ (to_ne_bytes en 2 0 ++ attrs_buf)))))))

  unfoldable pub parse_nlmsghdr : Bytes → ℕ → Option NlmsghdrRaw
  parse_nlmsghdr buf offset =
      if ltb (length buf) (offset + nlmsghdr_size)
      then none
      else some ((nlmsghdr_layout).read (drop offset buf))

  unfoldable pub parse_genlhdr : Bytes → ℕ → Option GenlmsghdrRaw
  parse_genlhdr buf offset =
      if ltb (length buf) (offset + genlmsghdr_size)
      then none
      else some ((genlmsghdr_layout).read (drop offset buf))

  -- `-err.error` wraps in an `i32`.
  unfoldable pub check_nlmsg_error : Bytes → Outcome (Unit {0})
  check_nlmsg_error payload =
      let e = ((nlmsgerr_layout).read payload).error in
      if ltb (length payload) nlmsgerr_size
      then err Error.short_nlmsg_error
      else (if e == 0 then ok tt else err (Error.netlink_error ((2 ^ 32 - e) % 2 ^ 32)))
