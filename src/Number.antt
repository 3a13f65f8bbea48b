-- ===== src/Number.antt =====
-- `str::parse` into an unsigned type and the decimal `Display` of the Rust standard library, which
-- every argument and every listing of the programs goes through. A text is its bytes.
use ktuctl_rs.Prelude.{
  ℕ, zero, suc, ◌+◌, ◌-◌, ◌*◌, ◌/◌, ◌%◌, ◌≤◌, ◌<◌, ◌≡◌, refl, ◌∙◌, [], ◌∷◌, Option, none, some,
  false, ◌&&◌, leb, ltb, ◌==◌, if◌then◌else◌, Bool-cases, inl, inr, arith,
}
use ktuctl_rs.Bytes.{Bytes}

abbrev digit : ℕ → Option ℕ
digit b = if leb b'0' b && leb b b'9' then some (b - b'0') else none

-- `checked_mul` and `checked_add` fail where the value would pass the type's greatest, `max`.
unfoldable pub parse_digits : ℕ → ℕ → Bytes → Option ℕ
parse_digits max acc [] = some acc
parse_digits max acc (b ∷ bs) = elim (digit b) [
  | none ↦ none
  | some d ↦ if ltb max (acc * 10 + d) then none else parse_digits max (acc * 10 + d) bs
]

abbrev signed_digits : ℕ → Bytes → Option ℕ
signed_digits max [] = none
signed_digits max (b ∷ bs) = parse_digits max 0 (b ∷ bs)

-- One `+` may stand in front of the digits.
unfoldable pub parse_unsigned : ℕ → Bytes → Option ℕ
unfolding parse_digits
parse_unsigned max [] = none
parse_unsigned max (b ∷ bs) =
    if b == b'+' then signed_digits max bs else parse_digits max 0 (b ∷ bs)

abbrev pub u8_max : ℕ
u8_max = 255

abbrev pub u16_max : ℕ
u16_max = 65535

abbrev pub u32_max : ℕ
u32_max = 4294967295

-- The digits in front of `acc`, the last one first.
unfoldable pub push_digits : ℕ → ℕ → Bytes → Bytes
push_digits zero n acc = acc
push_digits (suc fuel) n acc =
    let acc' = (b'0' + n % 10) ∷ acc in
    let rest = push_digits fuel (n / 10) acc' in if n / 10 == 0 then acc' else rest

-- A number has no more digits than its value and one.
unfoldable pub decimal : ℕ → Bytes
decimal n = push_digits (suc n) n []

parse_digits-step :
    (max acc d : ℕ) (bs : Bytes)
    → d < 10
    → acc * 10 + d ≤ max
    → parse_digits max acc ((b'0' + d) ∷ bs) ≡ parse_digits max (acc * 10 + d) bs
unfolding parse_digits
parse_digits-step max acc d bs hd h = ground arith

parse_digits-push_digits :
    (fuel n max : ℕ) (acc : Bytes)
    → n < fuel
    → n ≤ max
    → parse_digits max 0 (push_digits fuel n acc) ≡ parse_digits max n acc
unfolding push_digits
parse_digits-push_digits zero n max acc hf hm = absurd (omega arith)
parse_digits-push_digits (suc fuel) n max acc hf hm = elim (Bool-cases (n / 10 == 0)) [
  | inl small ↦
      let whole : 0 * 10 + n % 10 ≡ n = ground arith in
      rw small (rw whole at (parse_digits-step max 0 (n % 10) acc (omega arith) (ground arith)))
  | inr more ↦
      let whole : n / 10 * 10 + n % 10 ≡ n = omega arith in
      rw
        (
          more,
          parse_digits-push_digits fuel (n / 10) max ((b'0' + n % 10) ∷ acc) (ground arith)
              (omega arith),
        )
        (rw whole at (parse_digits-step max (n / 10) (n % 10) acc (omega arith) (omega arith)))
]

-- The first digit is no sign.
pub push_digits-head :
    (fuel n : ℕ) (acc : Bytes)
    → n < fuel
    → (d : ℕ) × (bs : Bytes) × (push_digits fuel n acc ≡ (b'0' + d) ∷ bs) × (d < 10)
unfolding push_digits
push_digits-head zero n acc hf = absurd (omega arith)
push_digits-head (suc fuel) n acc hf = elim (Bool-cases (n / 10 == 0)) [
  | inl small ↦ (n % 10, acc, rw small, omega arith)
  | inr more ↦
      let (d, bs, e, h) = push_digits-head fuel (n / 10) ((b'0' + n % 10) ∷ acc) (ground arith) in
      (d, bs, rw more e, h)
]

parse_unsigned_of_digits :
    (max d : ℕ) (o : Option ℕ) (bs rest : Bytes)
    → bs ≡ (b'0' + d) ∷ rest
    → parse_digits max 0 bs ≡ o
    → parse_unsigned max bs ≡ o
unfolding parse_unsigned
parse_unsigned_of_digits max d o bs rest e h =
    let unsigned : ((b'0' + d) == b'+') ≡ false = ground arith in rw (e, unsigned) (rw e at h)

-- Every number up to the greatest one of an unsigned type is parsed back from its decimal digits.
pub parse_unsigned-decimal : (max n : ℕ) → n ≤ max → parse_unsigned max (decimal n) ≡ some n
unfolding decimal
parse_unsigned-decimal max n h =
    let (d, bs, e, hd) = push_digits-head (suc n) n [] (omega arith) in
    parse_unsigned_of_digits max d (some n) _ bs e
      (parse_digits-push_digits (suc n) n max [] (omega arith) h ∙ unfold parse_digits in refl)

parse_digits-large :
    (max acc d : ℕ) (bs : Bytes)
    → d < 10
    → max < acc * 10 + d
    → parse_digits max acc ((b'0' + d) ∷ bs) ≡ none
unfolding parse_digits
parse_digits-large max acc d bs hd h = ground arith

parse_digits-push_digits_large :
    (fuel n max : ℕ) (acc : Bytes)
    → n < fuel
    → max < n
    → parse_digits max 0 (push_digits fuel n acc) ≡ none
unfolding push_digits
parse_digits-push_digits_large zero n max acc hf hm = absurd (omega arith)
parse_digits-push_digits_large (suc fuel) n max acc hf hm = elim (Bool-cases (n / 10 == 0)) [
  | inl small ↦ rw small (parse_digits-large max 0 (n % 10) acc (omega arith) (ground arith))
  | inr more ↦ elim (Bool-cases (ltb max (n / 10))) [
    | inl large ↦ rw more (
        parse_digits-push_digits_large fuel (n / 10) max ((b'0' + n % 10) ∷ acc) (ground arith)
          (ground arith))
    | inr fits ↦
        rw
          (
            more,
            parse_digits-push_digits fuel (n / 10) max ((b'0' + n % 10) ∷ acc) (ground arith)
                (ground arith),
          )
          (parse_digits-large max (n / 10) (n % 10) acc (omega arith) (omega arith))
  ]
]

-- A greater number is refused.
pub parse_unsigned-decimal_large : (max n : ℕ) → max < n → parse_unsigned max (decimal n) ≡ none
unfolding decimal
parse_unsigned-decimal_large max n h =
    let (d, bs, e, hd) = push_digits-head (suc n) n [] (omega arith) in
    parse_unsigned_of_digits max d none _ bs e
      (parse_digits-push_digits_large (suc n) n max [] (omega arith) h)
