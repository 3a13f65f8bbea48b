-- ===== src/Netlink/Attr.antt =====
-- Attributes of ktuctl-rs/src/netlink.rs: `nla_align`, `nlmsg_align`, `push_nlattr`, `parse_attrs`.
pub mod RoundTrip
pub mod Bounds
use ktuctl_rs.Prelude.{
  ℕ, zero, suc, ◌+◌, ◌-◌, ◌*◌, ◌/◌, ◌%◌, ◌^◌, List, [], ◌∷◌, ◌++◌, ltb, leb, ◌||◌, if◌then◌else◌,
  length, take, drop, slice, replicate,
}
use ktuctl_rs.Bytes.{Endian, Bytes, to_ne_bytes, from_ne_bytes}
use ktuctl_rs.Protocol.Constants.{nla_alignto, nlmsg_alignto}

-- `(len + n - 1) & !(n - 1)` for the power of two n = 4: the multiple of n at or above `len`.
unfoldable pub nla_align : ℕ → ℕ
nla_align len = (len + nla_alignto - 1) / nla_alignto * nla_alignto

unfoldable pub nlmsg_align : ℕ → ℕ
nlmsg_align len = (len + nlmsg_alignto - 1) / nlmsg_alignto * nlmsg_alignto

-- `size_of::<NlattrRaw>()`
abbrev pub nlattr_size : ℕ
nlattr_size = 4

pub record NlattrRaw : Type 0 where
  pub nla_len : ℕ
  pub nla_type : ℕ

module _ (en : Endian) where
  -- The bytes of the header, as `from_raw_parts` sees them.
  abbrev pub nlattr_bytes : NlattrRaw → Bytes
  nlattr_bytes hdr = to_ne_bytes en 2 hdr.nla_len ++ to_ne_bytes en 2 hdr.nla_type

  -- `as u16` keeps the low 16 bits of the length.
  unfoldable pub push_nlattr : Bytes → ℕ → Bytes → Bytes
  unfolding nla_align
  push_nlattr buf attr_type payload =
      let start = length buf in
      let hdr : NlattrRaw = record {
        nla_len = (nlattr_size + length payload) % 2 ^ 16;
        nla_type = attr_type;
      } in
      let buf' = (buf ++ nlattr_bytes hdr) ++ payload in
      let pad = nla_align (length buf' - start) - (length buf' - start) in buf' ++ replicate pad 0

  -- The loop over `attrs`.
  unfoldable pub push_attrs : Bytes → List (ℕ × Bytes) → Bytes
  push_attrs buf [] = buf
  push_attrs buf ((t, p) ∷ attrs) = push_attrs (push_nlattr buf t p) attrs

  -- `read_unaligned` of the header at the front.
  abbrev pub nlattr_at : Bytes → NlattrRaw
  nlattr_at bs = record {
    nla_len = from_ne_bytes en (take 2 bs);
    nla_type = from_ne_bytes en (take 2 (drop 2 bs));
  }

  -- The `while` loop over what is left of the input; a round takes four bytes at least.
  unfoldable pub parse_attrs_loop : ℕ → Bytes → List (ℕ × Bytes)
  unfolding nla_align
  parse_attrs_loop zero bs = []
  parse_attrs_loop (suc fuel) bs =
      let hdr = nlattr_at bs in
      let step = nla_align hdr.nla_len in
      let rest = parse_attrs_loop fuel (drop step bs) in
      if ltb (length bs) nlattr_size
      then []
      else (if ltb hdr.nla_len nlattr_size || ltb (length bs) hdr.nla_len
          then []
          else ((hdr.nla_type, slice bs nlattr_size hdr.nla_len)
              ∷ (if ltb (length bs) step then [] else rest)))

  unfoldable pub parse_attrs : Bytes → List (ℕ × Bytes)
  unfolding parse_attrs_loop
  parse_attrs bs = parse_attrs_loop (length bs) bs
