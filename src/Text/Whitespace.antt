-- ===== src/Text/Whitespace.antt =====
-- White space in the UTF-8 texts of ktuctl-rs/src/uid_map.rs and ktuctl-rs/src/commands.rs, as the
-- Rust standard library has it: `split_whitespace`, `trim` and `split`.
use ktuctl_rs.Prelude.{
  ℕ, zero, suc, List, [], ◌∷◌, ◌++◌, Bool, true, false, ◌&&◌, ◌||◌, leb, ◌==◌, if◌then◌else◌,
}
use ktuctl_rs.Bytes.{Bytes}

-- `char::is_whitespace` on the front of a text: the length of a white space there, or 0.
unfoldable pub white : Bytes → ℕ
white [] = 0
white (a ∷ []) = if leb 9 a && leb a 13 || a == 32 then 1 else 0
white (a ∷ b ∷ []) =
    if leb 9 a && leb a 13 || a == 32
    then 1
    else if a == 0xC2 && (b == 0x85 || b == 0xA0)
    then 2
    else 0
white (a ∷ b ∷ c ∷ _) =
    if leb 9 a && leb a 13 || a == 32
    then 1
    else if a == 0xC2 && (b == 0x85 || b == 0xA0)
    then 2
    else if a == 0xE1 && b == 0x9A && c == 0x80
    then 3
    else if a == 0xE2
        && b == 0x80
        && (leb 0x80 c && leb c 0x8A || c == 0xA8 || c == 0xA9 || c == 0xAF)
    then 3
    else if a == 0xE2 && b == 0x81 && c == 0x9F
    then 3
    else if a == 0xE3 && b == 0x80 && c == 0x80
    then 3
    else 0

-- A word that ends, if there is one.
abbrev flush : Bytes → List Bytes → List Bytes
flush [] words = words
flush (b ∷ bs) words = (b ∷ bs) ∷ words

-- `split_whitespace`, with the rest of a white space that is passed over and the word so far.
unfoldable pub split_from : ℕ → Bytes → Bytes → List Bytes
unfolding white
split_from skip word [] = flush word []
split_from (suc skip) word (b ∷ bs) = split_from skip word bs
split_from zero word (b ∷ bs) = elim (white (b ∷ bs)) [
  | zero ↦ split_from zero (word ++ (b ∷ [])) bs
  | suc skip ↦ flush word (split_from skip [] bs)
]

unfoldable pub split_whitespace : Bytes → List Bytes
unfolding split_from
split_whitespace bs = split_from 0 [] bs

-- There is nothing but white space behind the bytes that are passed over.
unfoldable pub blank_from : ℕ → Bytes → Bool
unfolding white
blank_from skip [] = true
blank_from (suc skip) (b ∷ bs) = blank_from skip bs
blank_from zero (b ∷ bs) = elim (white (b ∷ bs)) [ zero ↦ false | suc skip ↦ blank_from skip bs ]

unfoldable pub trim_start : ℕ → Bytes → Bytes
unfolding white
trim_start skip [] = []
trim_start (suc skip) (b ∷ bs) = trim_start skip bs
trim_start zero (b ∷ bs) = elim (white (b ∷ bs)) [ zero ↦ b ∷ bs | suc skip ↦ trim_start skip bs ]

-- No white space starts within a character.
unfoldable pub trim_end : Bytes → Bytes
unfolding blank_from
trim_end [] = []
trim_end (b ∷ bs) = elim (blank_from 0 (b ∷ bs)) [ true ↦ [] | false ↦ b ∷ trim_end bs ]

unfoldable pub trim : Bytes → Bytes
unfolding trim_start trim_end
trim bs = trim_end (trim_start 0 bs)

-- `split` at a byte, with the piece so far.
unfoldable pub split_at : ℕ → Bytes → Bytes → List Bytes
split_at sep piece [] = piece ∷ []
split_at sep piece (b ∷ bs) = elim (b == sep) [
  | true ↦ piece ∷ split_at sep [] bs
  | false ↦ split_at sep (piece ++ (b ∷ [])) bs
]
