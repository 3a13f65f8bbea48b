-- ===== src/Netlink/Attr/RoundTrip.antt =====
-- `push_nlattr` against its wire format, and `parse_attrs` on what was pushed
-- (ktuctl-rs/src/netlink.rs).
use ktuctl_rs.Prelude.{
  ℕ, zero, suc, ◌+◌, ◌-◌, ◌%◌, ◌^◌, ◌≤◌, ◌<◌, ◌≡◌, refl, sym, ap, ◌∙◌, List, [], ◌∷◌, ◌++◌,
  append-nil, append_assoc, arith, ltb-false, length, drop, slice, replicate, All, length-append,
  length-replicate, take-append, drop-append, drop-drop,
}
use ktuctl_rs.Bytes.{
  Endian, Bytes, to_ne_bytes, length-to_ne_bytes, from_ne_bytes-take, drop-to_ne_bytes,
}
use ktuctl_rs.Netlink.Attr.{
  nla_align, nlattr_size, NlattrRaw, nlattr_bytes, push_nlattr, push_attrs, nlattr_at,
  parse_attrs_loop, parse_attrs,
}

-- The bytes that fill a length up to a multiple of four.
abbrev pub pad_len : ℕ → ℕ
pad_len n = (4 - n % 4) % 4

pub nla_align_lem : (n : ℕ) → nla_align n ≡ n + pad_len n
unfolding nla_align
nla_align_lem n = omega arith

-- An attribute fits if its header can hold its length and its type.
abbrev pub Fits : ℕ × Bytes → Type 0
Fits a = (4 + length a.1 < 2 ^ 16) × (a.0 < 2 ^ 16)

module _ (en : Endian) where
  -- An attribute on the wire: length, type, payload, zeros up to the next multiple of four.
  abbrev pub encode_attr : ℕ × Bytes → Bytes
  encode_attr (t, p) =
      to_ne_bytes en 2 ((4 + length p) % 2 ^ 16)
      ++ (to_ne_bytes en 2 t ++ (p ++ replicate (pad_len (length p)) 0))

  abbrev pub encode_attrs : List (ℕ × Bytes) → Bytes
  encode_attrs [] = []
  encode_attrs (a ∷ rest) = encode_attr a ++ encode_attrs rest

  pub length-encode_attr :
      (t : ℕ) (p : Bytes) → length (encode_attr (t, p)) ≡ 4 + length p + pad_len (length p)
  length-encode_attr t p = simp (length-append, length-to_ne_bytes, length-replicate) (omega arith)

  length-pushed :
      (buf : Bytes) (hdr : NlattrRaw) (p : Bytes)
      → length ((buf ++ nlattr_bytes en hdr) ++ p) - length buf ≡ 4 + length p
  length-pushed buf hdr p = simp (length-append, length-to_ne_bytes) (omega arith)

  push_nlattr-encode_attr :
      (buf : Bytes) (t : ℕ) (p : Bytes) → push_nlattr en buf t p ≡ buf ++ encode_attr (t, p)
  unfolding push_nlattr
  push_nlattr-encode_attr buf t p =
      rw (length-pushed buf (record { nla_len = (4 + length p) % 2 ^ 16; nla_type = t }) p)
        (rw fill (simp append_assoc))
    where
      fill : nla_align (4 + length p) - (4 + length p) ≡ pad_len (length p)
      fill = omega (arith, nla_align_lem (4 + length p))

  pub push_attrs-encode_attrs :
      (attrs : List (ℕ × Bytes)) (buf : Bytes) → push_attrs en buf attrs ≡ buf ++ encode_attrs attrs
  unfolding push_attrs
  push_attrs-encode_attrs [] buf = sym (append-nil buf)
  push_attrs-encode_attrs ((t, p) ∷ attrs) buf =
      push_attrs-encode_attrs attrs (push_nlattr en buf t p)
      ∙ rw push_nlattr-encode_attr (append_assoc buf (encode_attr (t, p)) (encode_attrs attrs))

  -- One round of the loop, by what it reads.
  parse_attrs_loop_round :
      (fuel n : ℕ) (bs : Bytes)
      → (nlattr_at en bs).nla_len ≡ n
      → 4 ≤ n
      → n ≤ length bs
      → nla_align n ≤ length bs
      → parse_attrs_loop en (suc fuel) bs
        ≡ ((nlattr_at en bs).nla_type, slice bs 4 n)
          ∷ parse_attrs_loop en fuel (drop (nla_align n) bs)
  unfolding parse_attrs_loop
  parse_attrs_loop_round fuel n bs e h4 hn ha = rw (
    e,
    ltb-false (length bs) nlattr_size (omega arith),
    ltb-false n nlattr_size h4,
    ltb-false (length bs) n hn,
    ltb-false (length bs) (nla_align n) ha,
  )

  module _ (t : ℕ) (p rest : Bytes) where
    abbrev after_header : Bytes
    after_header = p ++ (replicate (pad_len (length p)) 0 ++ rest)

    encode_attr-append :
        encode_attr (t, p) ++ rest
        ≡ to_ne_bytes en 2 ((4 + length p) % 2 ^ 16) ++ (to_ne_bytes en 2 t ++ after_header)
    encode_attr-append = simp append_assoc

    read_len : Fits (t, p) → (nlattr_at en (encode_attr (t, p) ++ rest)).nla_len ≡ 4 + length p
    read_len h = rw encode_attr-append (from_ne_bytes-take en 2 _ _ (omega arith) ∙ omega arith)

    read_type : Fits (t, p) → (nlattr_at en (encode_attr (t, p) ++ rest)).nla_type ≡ t
    read_type h =
        rw (encode_attr-append, drop-to_ne_bytes) (from_ne_bytes-take en 2 t _ (omega arith))

    drop_header : drop 4 (encode_attr (t, p) ++ rest) ≡ after_header
    drop_header =
        drop-drop 4 2 2 (encode_attr (t, p) ++ rest) refl
        ∙ rw (encode_attr-append, drop-to_ne_bytes, drop-to_ne_bytes)

    read_payload : slice (encode_attr (t, p) ++ rest) 4 (4 + length p) ≡ p
    read_payload = rw drop_header (take-append _ p _ (omega arith))

    drop_attr : drop (nla_align (4 + length p)) (encode_attr (t, p) ++ rest) ≡ rest
    drop_attr =
        drop-append _ (encode_attr (t, p)) rest
          (omega (arith, nla_align_lem (4 + length p), length-encode_attr t p))

  -- One round of the loop on an attribute that fits.
  parse_attrs_loop-cons :
      (fuel t : ℕ) (p rest : Bytes)
      → Fits (t, p)
      → parse_attrs_loop en (suc fuel) (encode_attr (t, p) ++ rest)
        ≡ (t, p) ∷ parse_attrs_loop en fuel rest
  parse_attrs_loop-cons fuel t p rest h =
      parse_attrs_loop_round fuel (4 + length p) (encode_attr (t, p) ++ rest) (read_len t p rest h)
        (omega arith) (omega (arith, long)) (omega (arith, long, nla_align_lem (4 + length p)))
      ∙ rw (read_type t p rest h, read_payload t p rest, drop_attr t p rest)
    where
      long : length (encode_attr (t, p) ++ rest) ≡ 4 + length p + pad_len (length p) + length rest
      long = omega (arith, length-append (encode_attr (t, p)) rest, length-encode_attr t p)

  shorter :
      (t : ℕ) (p : Bytes) (attrs : List (ℕ × Bytes))
      → length (encode_attrs attrs) < length (encode_attrs ((t, p) ∷ attrs))
  shorter t p attrs =
      omega (arith, length-append (encode_attr (t, p)) (encode_attrs attrs), length-encode_attr t p)

  -- With enough fuel the loop reads back the attributes, and stops at what is no attribute.
  pub parse_attrs_loop-encode_attrs :
      (attrs : List (ℕ × Bytes)) (fuel : ℕ)
      → All Fits attrs
      → length (encode_attrs attrs) ≤ fuel
      → parse_attrs_loop en fuel (encode_attrs attrs) ≡ attrs
  parse_attrs_loop-encode_attrs [] zero h hf = unfold parse_attrs_loop in refl
  parse_attrs_loop-encode_attrs [] (suc fuel) h hf = unfold parse_attrs_loop in refl
  parse_attrs_loop-encode_attrs ((t, p) ∷ attrs) zero h hf =
      absurd (omega (arith, shorter t p attrs))
  parse_attrs_loop-encode_attrs ((t, p) ∷ attrs) (suc fuel) (h, hs) hf =
      parse_attrs_loop-cons fuel t p (encode_attrs attrs) h
      ∙ ap (◌∷◌ (t, p))
          (parse_attrs_loop-encode_attrs attrs fuel hs (omega (arith, shorter t p attrs)))

  -- What `push_nlattr` wrote, one attribute after the other into an empty buffer, `parse_attrs`
  -- reads back whole and in order, where each payload is short enough for its 16-bit length (at
  -- most 65531 bytes) and each type is a 16-bit number.
  pub parse_attrs-push_attrs :
      (attrs : List (ℕ × Bytes)) → All Fits attrs → parse_attrs en (push_attrs en [] attrs) ≡ attrs
  unfolding parse_attrs
  parse_attrs-push_attrs attrs h =
      rw (push_attrs-encode_attrs attrs []) (parse_attrs_loop-encode_attrs attrs _ h (omega arith))
