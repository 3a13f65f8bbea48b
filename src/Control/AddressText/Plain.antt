-- ===== src/Control/AddressText/Plain.antt =====
-- The characters of an address (ktuctl-rs/src/helper.rs), and of the other words of a dump.
use ktuctl_rs.Prelude.{
  ℕ, zero, suc, ◌+◌, ◌/◌, ◌%◌, ◌<◌, ◌≡◌, refl, List, [], ◌∷◌, Bool, true, false, ◌&&◌, not, leb,
  ltb, ◌==◌, if◌then◌else◌, All, All-append, arith, Bool-cases, Option-cases, inl, inr, take, drop,
}
use ktuctl_rs.Bytes.{Bytes}
use ktuctl_rs.Number.{decimal, push_digits}
use ktuctl_rs.Protocol.Structs.{In6Addr}
use ktuctl_rs.Control.XorKey.{hex_char, format_bytes}
use ktuctl_rs.Control.AddressText.{
  dotted, to_ipv4, push_hex, hex, colons, compressed, zeros_of, ipv6_text, ip_to_string, segments,
  Span,
}

-- A character that stands for itself in a script: printable, and neither a quote, a backslash, `#`
-- nor `;`.
abbrev pub is_safe : ℕ → Bool
is_safe c =
    leb 33 c
    && leb c 126
    && not (c == b'"')
    && not (c == b'\'')
    && not (c == b'\\')
    && not (c == b'#')
    && not (c == b';')

abbrev pub IsSafe : ℕ → Type 0
IsSafe c = is_safe c ≡ true

abbrev pub Safe : Bytes → Type 0
Safe = All IsSafe

hex_char-IsSafe : (n : ℕ) → IsSafe (hex_char (n % 16))
hex_char-IsSafe n = ground arith

push_hex-Safe : (fuel n : ℕ) (acc : Bytes) → Safe acc → Safe (push_hex fuel n acc)
unfolding push_hex
push_hex-Safe zero n acc h = h
push_hex-Safe (suc fuel) n acc h = elim (Bool-cases (n / 16 == 0)) [
  | inl small ↦ rw small (hex_char-IsSafe n, h)
  | inr more ↦ rw more (push_hex-Safe fuel (n / 16) _ (hex_char-IsSafe n, h))
]

push_digits-Safe : (fuel n : ℕ) (acc : Bytes) → Safe acc → Safe (push_digits fuel n acc)
unfolding push_digits
push_digits-Safe zero n acc h = h
push_digits-Safe (suc fuel) n acc h =
    let digit : IsSafe (b'0' + n % 10) = ground arith in
    elim (Bool-cases (n / 10 == 0)) [
      | inl small ↦ rw small (digit, h)
      | inr more ↦ rw more (push_digits-Safe fuel (n / 10) _ (digit, h))
    ]

pub decimal-Safe : (n : ℕ) → Safe (decimal n)
unfolding decimal
decimal-Safe n = push_digits-Safe (suc n) n [] tt

dotted-Safe : (bs : List ℕ) → Safe (dotted bs)
unfolding dotted
dotted-Safe [] = tt
dotted-Safe (a ∷ []) = decimal-Safe a
dotted-Safe (a ∷ b ∷ bs) =
    All-append IsSafe (decimal a) _ (decimal-Safe a) (refl, dotted-Safe (b ∷ bs))

hex-Safe : (n : ℕ) → Safe (hex n)
unfolding hex
hex-Safe n = push_hex-Safe 4 n [] tt

colons-Safe : (ss : List ℕ) → Safe (colons ss)
unfolding colons
colons-Safe [] = tt
colons-Safe (s ∷ []) = hex-Safe s
colons-Safe (s ∷ t ∷ ss) = All-append IsSafe (hex s) _ (hex-Safe s) (refl, colons-Safe (t ∷ ss))

if_Safe : (b : Bool) (x y : Bytes) → Safe x → Safe y → Safe (if b then x else y)
if_Safe true x y hx hy = hx
if_Safe false x y hx hy = hy

compressed-Safe : (zeros : Span) (ss : List ℕ) → Safe (compressed zeros ss)
unfolding compressed
compressed-Safe zeros ss =
    let after = colons-Safe (drop (zeros.start + zeros.len) ss) in
    All-append IsSafe (colons (take zeros.start ss))
      (b':' ∷ b':' ∷ colons (drop (zeros.start + zeros.len) ss)) (colons-Safe (take zeros.start ss))
      (refl, (refl, after))

ipv6_text-Safe : (bs : Bytes) → Safe (ipv6_text bs)
unfolding ipv6_text
ipv6_text-Safe bs =
    if_Safe (ltb 1 (zeros_of (segments bs)).len) (compressed (zeros_of (segments bs)) (segments bs))
      (colons (segments bs)) (compressed-Safe (zeros_of (segments bs)) (segments bs))
      (colons-Safe (segments bs))

pub ip_to_string-Safe : (a : In6Addr) → Safe (ip_to_string a)
unfolding ip_to_string
ip_to_string-Safe a = elim (Option-cases (to_ipv4 a.octets)) [
  | inl e ↦ rw (e, ip_to_string) (ipv6_text-Safe a.octets)
  | inr (v4, e) ↦ rw (e, ip_to_string) (dotted-Safe v4)
]

-- The two digits of each byte of a key.
pub format_bytes-Safe : (bs : Bytes) → All (λ b. b < 256) bs → Safe (format_bytes bs)
unfolding format_bytes
format_bytes-Safe [] h = tt
format_bytes-Safe (b ∷ bs) (hb, h) =
    let hi : IsSafe (hex_char (b / 16)) = ground (arith, hb) in
    (hi, (hex_char-IsSafe b, format_bytes-Safe bs h))
