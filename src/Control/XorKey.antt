-- ===== src/Control/XorKey.antt =====
-- `parse_xor_key` and `format_xor_key` of ktuctl-rs/src/helper.rs. A text is its UTF-8 bytes.
use ktuctl_rs.Prelude.{
  ℕ, ◌+◌, ◌-◌, ◌*◌, ◌/◌, ◌%◌, ◌≤◌, ◌<◌, ◌≡◌, refl, ap, ◌∙◌, [], ◌∷◌, ◌++◌, false, ◌&&◌, ◌||◌, not,
  ltb, leb, ◌==◌, if◌then◌else◌, length, take, drop, length-take, All-take, All, arith,
}
use ktuctl_rs.Bytes.{Bytes, IsByte}
use ktuctl_rs.Outcome.{Outcome, ok, err, panic, Error, ◌>>=◌}
use ktuctl_rs.Protocol.Constants.{tutu_xor_key_max}

-- `u8::from_str_radix` in base 16 on a text of one byte, with the `unwrap` of `from_utf8`, which
-- fails on a byte that is no character by itself.
unfoldable pub hex_digit : ℕ → Outcome ℕ
hex_digit b =
    if leb 128 b
    then panic
    else if leb b'0' b && leb b b'9'
    then ok (b - b'0')
    else if leb b'a' b && leb b b'f'
    then ok (b - b'a' + 10)
    else if leb b'A' b && leb b b'F'
    then ok (b - b'A' + 10)
    else err Error.invalid_hex

-- The loop over the chunks: the bytes that it writes to the front of the key.
unfoldable pub parse_chunks : Bytes → Outcome Bytes
unfolding hex_digit
parse_chunks [] = ok []
parse_chunks (a ∷ []) = ok []
parse_chunks (a ∷ b ∷ hex) = do
  hi ← hex_digit a
  lo ← hex_digit b
  rest ← parse_chunks hex
  ok ((hi * 16 + lo) ∷ rest)

-- The key and its length, of the key that was there before. A failure leaves the key half written,
-- but its callers then drop it.
unfoldable pub parse_xor_key : Bytes → Bytes → Outcome (Bytes × ℕ)
unfolding parse_chunks
parse_xor_key hex key =
    if length hex == 0 || not (length hex % 2 == 0)
    then err Error.xor_key_not_hex_string
    else if ltb tutu_xor_key_max (length hex / 2)
    then err Error.xor_key_too_long
    else (do bytes ← parse_chunks hex; ok (bytes ++ drop (length hex / 2) key, length hex / 2))

abbrev pub hex_char : ℕ → ℕ
hex_char d = if ltb d 10 then b'0' + d else b'a' + (d - 10)

-- `{:02x}` of each byte.
unfoldable pub format_bytes : Bytes → Bytes
format_bytes [] = []
format_bytes (b ∷ bs) = hex_char (b / 16) ∷ hex_char (b % 16) ∷ format_bytes bs

unfoldable pub format_xor_key : Bytes → ℕ → Bytes
unfolding format_bytes
format_xor_key key len = format_bytes (take len key)

hex_digit-hex_char : (d : ℕ) → d < 16 → hex_digit (hex_char d) ≡ ok d
unfolding hex_digit
hex_digit-hex_char d h = ground arith

length-format_bytes : (bs : Bytes) → length (format_bytes bs) ≡ length bs * 2
unfolding format_bytes
length-format_bytes [] = refl
length-format_bytes (b ∷ bs) = omega (arith, length-format_bytes bs)

parse_chunks-format_bytes : (bs : Bytes) → All IsByte bs → parse_chunks (format_bytes bs) ≡ ok bs
unfolding parse_chunks format_bytes
parse_chunks-format_bytes [] h = refl
parse_chunks-format_bytes (b ∷ bs) (hb, h) =
    rw
      (
        hex_digit-hex_char (b / 16) (omega arith),
        hex_digit-hex_char (b % 16) (omega arith),
        parse_chunks-format_bytes bs h,
      )
      (ap (λ x. ok (x ∷ bs)) (omega arith))

parse_xor_key-format_bytes :
    (bs before : Bytes)
    → All IsByte bs
    → 1 ≤ length bs
    → length bs ≤ 64
    → parse_xor_key (format_bytes bs) before ≡ ok (bs ++ drop (length bs) before, length bs)
unfolding parse_xor_key
parse_xor_key-format_bytes bs before bytes low high =
    let even : (length bs * 2 == 0 || not (length bs * 2 % 2 == 0)) ≡ false = ground arith in
    let half : length bs * 2 / 2 ≡ length bs = omega arith in
    let fits : ltb tutu_xor_key_max (length bs) ≡ false = ground arith in
    rw (length-format_bytes bs, half, even, fits, parse_chunks-format_bytes bs bytes)

-- What `dump` prints of a key of 1 to 64 bytes, `parse_xor_key` reads back: the bytes of the key, its
-- length, and behind them what was in the key before. A byte is printed as two hexadecimal digits.
pub parse_xor_key-format_xor_key :
    (key before : Bytes) (len : ℕ)
    → All IsByte key
    → 1 ≤ len
    → len ≤ length key
    → len ≤ 64
    → (parse_xor_key (format_xor_key key len) before ≡ ok (take len key ++ drop len before, len))
      × (length (format_xor_key key len) ≡ len * 2)
unfolding format_xor_key
parse_xor_key-format_xor_key key before len bytes low high max =
    let taken : length (take len key) ≡ len = omega (arith, length-take len key) in
    (
      rw taken at (
          parse_xor_key-format_bytes (take len key) before (All-take IsByte len key bytes)
            (omega (arith, taken)) (omega (arith, taken))),
      length-format_bytes (take len key) ∙ ap (λ n. n * 2) taken,
    )
