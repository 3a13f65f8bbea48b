-- ===== src/Control/AddressText.antt =====
-- `ip_to_string` of ktuctl-rs/src/helper.rs, with the `Display` of the Rust standard library for
-- addresses and its `Ipv6Addr::to_ipv4`.
pub mod Plain
use ktuctl_rs.Prelude.{
  ℕ, zero, suc, ◌+◌, ◌*◌, ◌/◌, ◌%◌, List, [], ◌∷◌, ◌++◌, Option, none, some, Bool, ◌&&◌, ◌||◌, ltb,
  ◌==◌, if◌then◌else◌, take, drop,
}
use ktuctl_rs.Bytes.{Bytes}
use ktuctl_rs.Number.{decimal}
use ktuctl_rs.Protocol.Structs.{In6Addr}
use ktuctl_rs.Control.XorKey.{hex_char}

-- The 16-bit segments, in network order.
unfoldable pub segments : Bytes → List ℕ
segments [] = []
segments (a ∷ []) = []
segments (a ∷ b ∷ bs) = (a * 256 + b) ∷ segments bs

-- "a.b.c.d"
unfoldable pub dotted : List ℕ → Bytes
dotted [] = []
dotted (a ∷ []) = decimal a
dotted (a ∷ b ∷ bs) = decimal a ++ (b'.' ∷ dotted (b ∷ bs))

-- The last four bytes of an address that is compatible with IPv4 or maps it: ten zero bytes, then
-- two that are both 0 or both 0xff.
unfoldable pub to_ipv4 : Bytes → Option Bytes
to_ipv4 bs = elim (segments bs) [
  | a ∷ b ∷ c ∷ d ∷ e ∷ f ∷ rest ↦
      if a == 0 && b == 0 && c == 0 && d == 0 && e == 0 && (f == 0 || f == 0xffff)
      then some (drop 12 bs)
      else none
  | _ ↦ none
]

-- The hexadecimal digits in front of `acc`, without leading zeros.
unfoldable pub push_hex : ℕ → ℕ → Bytes → Bytes
push_hex zero n acc = acc
push_hex (suc fuel) n acc =
    let acc' = hex_char (n % 16) ∷ acc in
    let rest = push_hex fuel (n / 16) acc' in if n / 16 == 0 then acc' else rest

-- `{:x}` of 16 bits, which have at most four digits.
unfoldable pub hex : ℕ → Bytes
unfolding push_hex
hex n = push_hex 4 n []

pub record Span : Type 0 where
  pub start : ℕ
  pub len : ℕ

-- The loop over the segments: the longest run of zeros, the first where two are as long.
unfoldable pub longest_zeros : ℕ → Span → Span → List ℕ → Span
longest_zeros i longest current [] = longest
longest_zeros i longest current (s ∷ ss) =
    let current' =
      if s == 0
      then record { start = if current.len == 0 then i else current.start; len = current.len + 1 }
      else record { start = 0; len = 0 } in
    longest_zeros (i + 1) (if ltb longest.len current'.len then current' else longest) current' ss

-- `fmt_subslice`
unfoldable pub colons : List ℕ → Bytes
colons [] = []
colons (s ∷ []) = hex s
colons (s ∷ t ∷ ss) = hex s ++ (b':' ∷ colons (t ∷ ss))

-- "::" in place of the run.
unfoldable pub compressed : Span → List ℕ → Bytes
unfolding colons
compressed zeros ss =
    colons (take zeros.start ss) ++ (b':' ∷ b':' ∷ colons (drop (zeros.start + zeros.len) ss))

abbrev pub zeros_of : List ℕ → Span
zeros_of ss = longest_zeros 0 (record { start = 0; len = 0 }) (record { start = 0; len = 0 }) ss

-- The `Display` of an address that does not map IPv4.
unfoldable pub ipv6_text : Bytes → Bytes
unfolding longest_zeros segments colons compressed
ipv6_text bs =
    if ltb 1 (zeros_of (segments bs)).len
    then compressed (zeros_of (segments bs)) (segments bs)
    else colons (segments bs)

unfoldable pub ip_to_string : In6Addr → Bytes
unfolding to_ipv4 dotted ipv6_text
ip_to_string addr = elim (to_ipv4 addr.octets) [
  | some v4 ↦ dotted v4
  | none ↦ ipv6_text addr.octets
]
