-- ===== src/Bytes.antt =====
-- Machine integers as bytes: `to_ne_bytes`, `from_ne_bytes`, `to_be_bytes` and `from_be_bytes` of
-- the Rust standard library, and `htons`/`ntohs` of ktuctl-rs/src/helper.rs. A byte string is a
-- list of numbers below 256. The byte order of the machine is a parameter, `Endian`.
use mathlib.Core.List.{reverse, reverse-reverse, reverse-cons}
use ktuctl_rs.Prelude.{
  ℕ, zero, suc, ◌+◌, ◌*◌, ◌/◌, ◌%◌, ◌^◌, ◌<◌, ◌≡◌, refl, sym, ◌∙◌, ap, List, [], ◌∷◌, ◌++◌, arith,
  take, drop, take-append, drop-append, length, length-append, All, All-append,
}

pub data Endian : Type 0 where
  little big : Endian

abbrev pub IsByte : ℕ → Type 0
IsByte b = b < 256

abbrev pub Bytes : Type 0
Bytes = List ℕ

-- The `w` bytes of `v`, lowest first.
unfoldable pub le_bytes : ℕ → ℕ → Bytes
le_bytes zero v = []
le_bytes (suc w) v = (v % 256) ∷ le_bytes w (v / 256)

unfoldable pub of_le_bytes : Bytes → ℕ
of_le_bytes [] = 0
of_le_bytes (b ∷ bs) = b + 256 * of_le_bytes bs

unfoldable pub to_be_bytes : ℕ → ℕ → Bytes
unfolding le_bytes
to_be_bytes w v = reverse (le_bytes w v)

unfoldable pub from_be_bytes : Bytes → ℕ
unfolding of_le_bytes
from_be_bytes bs = of_le_bytes (reverse bs)

unfoldable pub to_ne_bytes : Endian → ℕ → ℕ → Bytes
unfolding le_bytes to_be_bytes
to_ne_bytes Endian.little w v = le_bytes w v
to_ne_bytes Endian.big w v = to_be_bytes w v

unfoldable pub from_ne_bytes : Endian → Bytes → ℕ
unfolding of_le_bytes from_be_bytes
from_ne_bytes Endian.little bs = of_le_bytes bs
from_ne_bytes Endian.big bs = from_be_bytes bs

-- `v.to_be()` and `u16::from_be(v)`: the number whose bytes in memory are those of `v` in network
-- order, and back.
unfoldable pub htons : Endian → ℕ → ℕ
unfolding to_be_bytes from_ne_bytes
htons en v = from_ne_bytes en (to_be_bytes 2 v)

unfoldable pub ntohs : Endian → ℕ → ℕ
unfolding to_ne_bytes from_be_bytes
ntohs en v = from_be_bytes (to_ne_bytes en 2 v)

length-le_bytes : (w v : ℕ) → length (le_bytes w v) ≡ w
unfolding le_bytes
length-le_bytes zero v = refl
length-le_bytes (suc w) v = omega (arith, length-le_bytes w (v / 256))

le_bytes-IsByte : (w v : ℕ) → All IsByte (le_bytes w v)
unfolding le_bytes
le_bytes-IsByte zero v = tt
le_bytes-IsByte (suc w) v = (omega arith, le_bytes-IsByte w (v / 256))

of_le_bytes-le_bytes : (w v : ℕ) → v < 256 ^ w → of_le_bytes (le_bytes w v) ≡ v
unfolding le_bytes of_le_bytes
of_le_bytes-le_bytes zero v h = omega arith
of_le_bytes-le_bytes (suc w) v h = omega (arith, of_le_bytes-le_bytes w (v / 256) (omega arith))

-- The other way round: bytes are what their number is written as.
le_bytes-of_le_bytes : (bs : Bytes) → All IsByte bs → le_bytes (length bs) (of_le_bytes bs) ≡ bs
unfolding le_bytes of_le_bytes
le_bytes-of_le_bytes [] h = refl
le_bytes-of_le_bytes (b ∷ bs) (hb, h) =
    let low : (b + 256 * of_le_bytes bs) % 256 ≡ b = omega arith in
    let high : (b + 256 * of_le_bytes bs) / 256 ≡ of_le_bytes bs = omega arith in
    rw (low, high, le_bytes-of_le_bytes bs h)

of_le_bytes-lt : (w : ℕ) (bs : Bytes) → length bs ≡ w → All IsByte bs → of_le_bytes bs < 256 ^ w
unfolding of_le_bytes
of_le_bytes-lt zero [] e h = omega arith
of_le_bytes-lt (suc w) [] e h = absurd (omega arith)
of_le_bytes-lt zero (b ∷ bs) e h = absurd (omega arith)
of_le_bytes-lt (suc w) (b ∷ bs) e (hb, h) = omega (arith, of_le_bytes-lt w bs (omega arith) h)

length-reverse : (bs : Bytes) → length (reverse bs) ≡ length bs
length-reverse [] = refl
length-reverse (b ∷ bs) =
    rw (reverse-cons b bs, length-append (reverse bs) (b ∷ [])) (omega (arith, length-reverse bs))

All-reverse : (bs : Bytes) → All IsByte bs → All IsByte (reverse bs)
All-reverse [] h = tt
All-reverse (b ∷ bs) (hb, h) =
    rw (reverse-cons b bs) (All-append IsByte (reverse bs) (b ∷ []) (All-reverse bs h) (hb, tt))

pub length-to_be_bytes : (w v : ℕ) → length (to_be_bytes w v) ≡ w
unfolding to_be_bytes
length-to_be_bytes w v = length-reverse (le_bytes w v) ∙ length-le_bytes w v

pub length-to_ne_bytes : (en : Endian) (w v : ℕ) → length (to_ne_bytes en w v) ≡ w
unfolding to_ne_bytes
length-to_ne_bytes Endian.little w v = length-le_bytes w v
length-to_ne_bytes Endian.big w v = length-to_be_bytes w v

pub from_be_bytes-to_be_bytes : (w v : ℕ) → v < 256 ^ w → from_be_bytes (to_be_bytes w v) ≡ v
unfolding to_be_bytes from_be_bytes
from_be_bytes-to_be_bytes w v h =
    ap of_le_bytes (reverse-reverse (le_bytes w v)) ∙ of_le_bytes-le_bytes w v h

pub from_ne_bytes-to_ne_bytes :
    (en : Endian) (w v : ℕ) → v < 256 ^ w → from_ne_bytes en (to_ne_bytes en w v) ≡ v
unfolding to_ne_bytes from_ne_bytes
from_ne_bytes-to_ne_bytes Endian.little w v h = of_le_bytes-le_bytes w v h
from_ne_bytes-to_ne_bytes Endian.big w v h = from_be_bytes-to_be_bytes w v h

pub to_ne_bytes-IsByte : (en : Endian) (w v : ℕ) → All IsByte (to_ne_bytes en w v)
unfolding to_ne_bytes to_be_bytes
to_ne_bytes-IsByte Endian.little w v = le_bytes-IsByte w v
to_ne_bytes-IsByte Endian.big w v = All-reverse (le_bytes w v) (le_bytes-IsByte w v)

from_be_bytes-lt : (w : ℕ) (bs : Bytes) → length bs ≡ w → All IsByte bs → from_be_bytes bs < 256 ^ w
unfolding from_be_bytes
from_be_bytes-lt w bs e h = of_le_bytes-lt w (reverse bs) (length-reverse bs ∙ e) (All-reverse bs h)

to_be_bytes-from_be_bytes :
    (w : ℕ) (bs : Bytes) → length bs ≡ w → All IsByte bs → to_be_bytes w (from_be_bytes bs) ≡ bs
unfolding to_be_bytes from_be_bytes
to_be_bytes-from_be_bytes w bs e h =
    ap (λ (k : ℕ). reverse (le_bytes k (of_le_bytes (reverse bs)))) (sym (length-reverse bs ∙ e))
    ∙ ap reverse (le_bytes-of_le_bytes (reverse bs) (All-reverse bs h))
    ∙ reverse-reverse bs

pub from_ne_bytes-lt :
    (en : Endian) (w : ℕ) (bs : Bytes)
    → length bs ≡ w
    → All IsByte bs
    → from_ne_bytes en bs < 256 ^ w
unfolding from_ne_bytes
from_ne_bytes-lt Endian.little w bs e h = of_le_bytes-lt w bs e h
from_ne_bytes-lt Endian.big w bs e h = from_be_bytes-lt w bs e h

pub to_ne_bytes-from_ne_bytes :
    (en : Endian) (w : ℕ) (bs : Bytes)
    → length bs ≡ w
    → All IsByte bs
    → to_ne_bytes en w (from_ne_bytes en bs) ≡ bs
unfolding to_ne_bytes from_ne_bytes
to_ne_bytes-from_ne_bytes Endian.little w bs e h =
    ap (λ (k : ℕ). le_bytes k (of_le_bytes bs)) (sym e) ∙ le_bytes-of_le_bytes bs h
to_ne_bytes-from_ne_bytes Endian.big w bs e h = to_be_bytes-from_be_bytes w bs e h

-- A port in network order comes back, and its memory image is its big-endian bytes.
pub ntohs-htons : (en : Endian) (v : ℕ) → v < 2 ^ 16 → ntohs en (htons en v) ≡ v
unfolding ntohs htons
ntohs-htons en v h =
    ap from_be_bytes (
      to_ne_bytes-from_ne_bytes en 2 (to_be_bytes 2 v) (length-to_be_bytes 2 v)
        (unfold to_be_bytes in All-reverse (le_bytes 2 v) (le_bytes-IsByte 2 v)))
    ∙ from_be_bytes-to_be_bytes 2 v (omega arith)

-- Reading a field that stands at the front, and stepping over it.
pub from_ne_bytes-take :
    (en : Endian) (w v : ℕ) (rest : Bytes)
    → v < 256 ^ w
    → from_ne_bytes en (take w (to_ne_bytes en w v ++ rest)) ≡ v
from_ne_bytes-take en w v rest h =
    ap (from_ne_bytes en) (take-append w _ rest (sym (length-to_ne_bytes en w v)))
    ∙ from_ne_bytes-to_ne_bytes en w v h

pub drop-to_ne_bytes :
    (en : Endian) (w v : ℕ) (rest : Bytes) → drop w (to_ne_bytes en w v ++ rest) ≡ rest
drop-to_ne_bytes en w v rest = drop-append w _ rest (sym (length-to_ne_bytes en w v))
