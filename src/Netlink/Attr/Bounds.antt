-- ===== src/Netlink/Attr/Bounds.antt =====
-- `parse_attrs` of ktuctl-rs/src/netlink.rs on any input: the fuel of its loop, and its bounds.
use ktuctl_rs.Prelude.{
  ℕ, zero, suc, ◌+◌, ◌-◌, ◌≤◌, ◌≡◌, refl, List, [], ◌∷◌, arith, length, drop, slice, length-drop,
  length-take,
}
use ktuctl_rs.Bytes.{Endian, Bytes}
use ktuctl_rs.Netlink.Attr.{nla_align, nlattr_at, parse_attrs_loop, parse_attrs}
use ktuctl_rs.Netlink.Attr.RoundTrip.{nla_align_lem}

module _ (en : Endian) where
  -- What the attributes take on the wire, without the padding.
  abbrev pub wire_len : List (ℕ × Bytes) → ℕ
  wire_len [] = 0
  wire_len ((t, p) ∷ attrs) = 4 + length p + wire_len attrs

  length-slice-le : (n : ℕ) (bs : Bytes) → 4 ≤ n → n ≤ length bs → 4 + length (slice bs 4 n) ≡ n
  length-slice-le n bs h hn = omega (arith, length-take (n - 4) (drop 4 bs), length-drop 4 bs)

  parse_attrs_loop_bounds :
      (fuel : ℕ) (bs : Bytes) → wire_len (parse_attrs_loop en fuel bs) ≤ length bs
  unfolding parse_attrs_loop
  parse_attrs_loop_bounds zero bs = omega arith
  parse_attrs_loop_bounds (suc fuel) bs =
      let n = (nlattr_at en bs).nla_len in
      ground (
        arith,
        length-slice-le n bs,
        nla_align_lem n,
        length-drop (nla_align n) bs,
        parse_attrs_loop_bounds fuel (drop (nla_align n) bs),
      )

  -- More fuel than the input is long changes nothing.
  parse_attrs_loop_fuel :
      (f g : ℕ) (bs : Bytes)
      → length bs ≤ f
      → length bs ≤ g
      → parse_attrs_loop en f bs ≡ parse_attrs_loop en g bs
  unfolding parse_attrs_loop
  parse_attrs_loop_fuel zero zero bs hf hg = refl
  parse_attrs_loop_fuel zero (suc g) bs hf hg = ground arith
  parse_attrs_loop_fuel (suc f) zero bs hf hg = ground arith
  parse_attrs_loop_fuel (suc f) (suc g) bs hf hg =
      let n = (nlattr_at en bs).nla_len in
      ground (
        arith,
        nla_align_lem n,
        length-drop (nla_align n) bs,
        parse_attrs_loop_fuel f g (drop (nla_align n) bs),
      )

  -- On every input, well formed or not, the attributes that `parse_attrs` returns take, with their
  -- headers, no more bytes than the input has, and any fuel of at least the input's length gives
  -- the same attributes: the loop ends by its own tests.
  pub parse_attrs_bounds :
      (bs : Bytes) (fuel : ℕ)
      → length bs ≤ fuel
      → (wire_len (parse_attrs en bs) ≤ length bs)
        × (parse_attrs_loop en fuel bs ≡ parse_attrs en bs)
  unfolding parse_attrs
  parse_attrs_bounds bs fuel h =
      (parse_attrs_loop_bounds _ bs, parse_attrs_loop_fuel fuel _ bs h (omega arith))
