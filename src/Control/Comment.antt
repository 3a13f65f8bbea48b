-- ===== src/Control/Comment.antt =====
-- `copy_comment` and `format_comment` of ktuctl-rs/src/helper.rs. A text is its UTF-8 bytes.
use ktuctl_rs.Prelude.{
  ℕ, zero, suc, ◌-◌, ◌≤◌, ◌<◌, ◌≡◌, ◌≢◌, refl, [], ◌∷◌, ◌++◌, Bool, true, false, length, take,
  take_all, replicate, All, arith, min, length-append, length-replicate, length-take,
}
use ktuctl_rs.Bytes.{Bytes}
use ktuctl_rs.Text.{until_nul, from_utf8_lossy, from_utf8_lossy_ascii}

-- The whole array, of 22 bytes.
unfoldable pub copy_comment : Bytes → Bytes
copy_comment src = let len = min (length src) 22 in take len src ++ replicate (22 - len) 0

-- " comment "
abbrev pub comment_word : Bytes
comment_word = b' ' ∷ b'c' ∷ b'o' ∷ b'm' ∷ b'm' ∷ b'e' ∷ b'n' ∷ b't' ∷ b' ' ∷ []

-- ", Comment: "
abbrev pub comment_label : Bytes
comment_label = b',' ∷ b' ' ∷ b'C' ∷ b'o' ∷ b'm' ∷ b'm' ∷ b'e' ∷ b'n' ∷ b't' ∷ b':' ∷ b' ' ∷ []

abbrev labelled : Bool → Bytes → Bytes
labelled is_dump [] = []
labelled true (b ∷ bs) = comment_word ++ (b ∷ bs)
labelled false (b ∷ bs) = comment_label ++ (b ∷ bs)

unfoldable pub format_comment : Bytes → Bool → Bytes
format_comment c is_dump = labelled is_dump (from_utf8_lossy (until_nul c))

-- A character of ASCII but NUL.
abbrev pub IsPlain : ℕ → Type 0
IsPlain b = (b ≢ 0) × (b < 0x80)

until_nul-padded : (bs : Bytes) (n : ℕ) → All IsPlain bs → until_nul (bs ++ replicate n 0) ≡ bs
unfolding until_nul
until_nul-padded [] zero h = refl
until_nul-padded [] (suc n) h = refl
until_nul-padded (b ∷ bs) n ((hb, _), h) = ground (arith, until_nul-padded bs n h)

All-ascii : (bs : Bytes) → All IsPlain bs → All (λ b. b < 0x80) bs
All-ascii [] h = tt
All-ascii (b ∷ bs) ((_, hb), h) = (hb, All-ascii bs h)

length-copy_comment : (src : Bytes) → length (copy_comment src) ≡ 22
unfolding copy_comment
length-copy_comment src = omega (
  arith,
  length-append (take (min (length src) 22) src) (replicate (22 - min (length src) 22) 0),
  length-take (min (length src) 22) src,
  length-replicate {A = ℕ} (22 - min (length src) 22) 0,
)

copy_comment_short :
    (src : Bytes) → length src ≤ 22 → copy_comment src ≡ src ++ replicate (22 - length src) 0
unfolding copy_comment
copy_comment_short src short =
    let whole : min (length src) 22 ≡ length src = omega arith in
    rw (whole, take_all (length src) src (omega arith))

text-copy_comment :
    (src : Bytes)
    → All IsPlain src
    → length src ≤ 22
    → from_utf8_lossy (until_nul (copy_comment src)) ≡ src
text-copy_comment src plain short =
    rw (copy_comment_short src short, until_nul-padded src (22 - length src) plain)
      (from_utf8_lossy_ascii src (All-ascii src plain))

-- A comment of 1 to 22 characters of ASCII, none of them NUL, is shown as it was given, in a listing
-- and in a dump; and it takes 22 bytes in its struct.
pub format_comment-copy_comment :
    (b : ℕ) (src : Bytes)
    → All IsPlain (b ∷ src)
    → length (b ∷ src) ≤ 22
    → (format_comment (copy_comment (b ∷ src)) true ≡ comment_word ++ (b ∷ src))
      × (format_comment (copy_comment (b ∷ src)) false ≡ comment_label ++ (b ∷ src))
      × (length (copy_comment (b ∷ src)) ≡ 22)
unfolding format_comment
format_comment-copy_comment b src plain short =
    let text = text-copy_comment (b ∷ src) plain short in
    (rw text, rw text, length-copy_comment (b ∷ src))
