-- ===== src/Text/Lines.antt =====
-- `BufRead::lines` of the Rust standard library on a UTF-8 text, which ktuctl-rs/src/commands.rs calls,
-- and what `println!` writes.
use ktuctl_rs.Prelude.{
  ◌≤◌, ◌≡◌, refl, sym, ap, ◌∙◌, List, [], ◌∷◌, ◌++◌, append_assoc, append-nil, true, false, ◌==◌,
  All, arith,
}
use ktuctl_rs.Bytes.{Bytes}

-- What was printed: each line with a newline behind it.
abbrev pub text_of : List Bytes → Bytes
text_of [] = []
text_of (line ∷ rest) = line ++ (b'\n' ∷ text_of rest)

-- A line without the carriage return at its end.
unfoldable pub strip_cr : Bytes → Bytes
strip_cr [] = []
strip_cr (b ∷ []) = elim (b == b'\r') [ true ↦ [] | false ↦ b ∷ [] ]
strip_cr (b ∷ c ∷ bs) = b ∷ strip_cr (c ∷ bs)

-- The lines, with the line so far; a text without a newline at its end has a last line as well.
unfoldable pub lines_from : Bytes → Bytes → List Bytes
unfolding strip_cr
lines_from [] [] = []
lines_from (p ∷ piece) [] = (p ∷ piece) ∷ []
lines_from piece (b ∷ bs) = elim (b == b'\n') [
  | true ↦ strip_cr piece ∷ lines_from [] bs
  | false ↦ lines_from (piece ++ (b ∷ [])) bs
]

unfoldable pub lines : Bytes → List Bytes
unfolding lines_from
lines bs = lines_from [] bs

-- A line of no control characters.
abbrev pub IsLine : Bytes → Type 0
IsLine = All (λ b. 32 ≤ b)

strip_cr-IsLine : (bs : Bytes) → IsLine bs → strip_cr bs ≡ bs
unfolding strip_cr
strip_cr-IsLine [] h = refl
strip_cr-IsLine (b ∷ []) (hb, _) =
    let printed : (b == b'\r') ≡ false = ground arith in rw (printed, strip_cr) refl
strip_cr-IsLine (b ∷ c ∷ bs) (hb, h) = ap (◌∷◌ b) (strip_cr-IsLine (c ∷ bs) h)

lines_from-line :
    (piece bs rest : Bytes)
    → IsLine bs
    → lines_from piece (bs ++ (b'\n' ∷ rest)) ≡ strip_cr (piece ++ bs) ∷ lines_from [] rest
unfolding lines_from
lines_from-line [] [] rest h = refl
lines_from-line (p ∷ piece) [] rest h =
    ap (λ x. strip_cr x ∷ lines_from [] rest) (sym (append-nil (p ∷ piece)))
lines_from-line [] (b ∷ bs) rest (hb, h) =
    let printed : (b == b'\n') ≡ false = ground arith in
    rw (printed, lines_from) (lines_from-line (b ∷ []) bs rest h)
lines_from-line (p ∷ piece) (b ∷ bs) rest (hb, h) =
    let printed : (b == b'\n') ≡ false = ground arith in
    rw (printed, lines_from)
      (lines_from-line (p ∷ piece ++ (b ∷ [])) bs rest h
        ∙ ap (λ x. strip_cr x ∷ lines_from [] rest) (append_assoc (p ∷ piece) (b ∷ []) bs))

-- Lines of no control characters are read back as they were printed.
pub lines-text_of : (ls : List Bytes) → All IsLine ls → lines (text_of ls) ≡ ls
unfolding lines lines_from
lines-text_of [] h = refl
lines-text_of (l ∷ ls) (hl, h) =
    lines_from-line [] l (text_of ls) hl ∙ (λ i. strip_cr-IsLine l hl i ∷ lines-text_of ls h i)
