-- ===== src/Text/Words.antt =====
-- `split_whitespace` of the Rust standard library on words of printable ASCII, with spaces and tabs
-- between them, as ktuctl-rs/src/uid_map.rs has them.
use ktuctl_rs.Prelude.{
  ℕ, ◌≤◌, ◌≡◌, ◌≢◌, refl, ap, ◌∙◌, List, [], ◌∷◌, ◌++◌, ◌⊎◌, All, All-append, All-imp, map, arith,
  append_assoc, append-nil, sym,
}
use ktuctl_rs.Bytes.{Bytes}
use ktuctl_rs.Text.Whitespace.{white, split_from, split_whitespace}

-- A printable ASCII byte other than `#`.
abbrev pub IsGraphic : ℕ → Type 0
IsGraphic b = (33 ≤ b) × (b ≤ 126) × (b ≢ b'#')

-- A space or a tab.
abbrev pub IsBlank : ℕ → Type 0
IsBlank b = (b ≡ 32) ⊎ (b ≡ 9)

abbrev pub IsWord : Bytes → Type 0
IsWord [] = ⊥
IsWord (b ∷ bs) = All IsGraphic (b ∷ bs)

abbrev pub IsGap : Bytes → Type 0
IsGap [] = ⊥
IsGap (b ∷ bs) = All IsBlank (b ∷ bs)

-- Words, each with what stands behind it.
abbrev pub spaced : List (Bytes × Bytes) → Bytes
spaced [] = []
spaced ((word, gap) ∷ ps) = word ++ (gap ++ spaced ps)

-- Nothing need stand behind the last word.
abbrev pub IsSpaced : List (Bytes × Bytes) → Type 0
IsSpaced [] = Unit {0}
IsSpaced ((word, gap) ∷ []) = IsWord word × All IsBlank gap
IsSpaced ((word, gap) ∷ p ∷ ps) = IsWord word × IsGap gap × IsSpaced (p ∷ ps)

white-graphic : (b : ℕ) (bs : Bytes) → IsGraphic b → white (b ∷ bs) ≡ 0
unfolding white
white-graphic b [] h = ground arith
white-graphic b (c ∷ []) h = ground arith
white-graphic b (c ∷ d ∷ bs) h = ground arith

white-blank : (b : ℕ) (bs : Bytes) → IsBlank b → white (b ∷ bs) ≡ 1
unfolding white
white-blank b [] h = ground arith
white-blank b (c ∷ []) h = ground arith
white-blank b (c ∷ d ∷ bs) h = ground arith

split_from-word :
    (word bs rest : Bytes)
    → All IsGraphic bs
    → split_from 0 word (bs ++ rest) ≡ split_from 0 (word ++ bs) rest
unfolding split_from
split_from-word word [] rest h = ap (λ w. split_from 0 w rest) (sym (append-nil word))
split_from-word word (b ∷ bs) rest (h, hs) =
    rw (white-graphic b (bs ++ rest) h, split_from)
      (split_from-word (word ++ (b ∷ [])) bs rest hs
        ∙ ap (λ w. split_from 0 w rest) (append_assoc word (b ∷ []) bs))

split_from-blanks :
    (bs rest : Bytes) → All IsBlank bs → split_from 0 [] (bs ++ rest) ≡ split_from 0 [] rest
unfolding split_from
split_from-blanks [] rest h = refl
split_from-blanks (b ∷ bs) rest (h, hs) =
    rw (white-blank b (bs ++ rest) h, split_from) (split_from-blanks bs rest hs)

split_from-gap :
    (w : ℕ) (ws gap rest : Bytes)
    → IsGap gap
    → split_from 0 (w ∷ ws) (gap ++ rest) ≡ (w ∷ ws) ∷ split_from 0 [] rest
unfolding split_from
split_from-gap w ws [] rest h = absurd h
split_from-gap w ws (b ∷ bs) rest (h, hs) =
    rw (white-blank b (bs ++ rest) h, split_from) (ap (◌∷◌ (w ∷ ws)) (split_from-blanks bs rest hs))

split_from-last :
    (w : ℕ) (ws gap : Bytes) → All IsBlank gap → split_from 0 (w ∷ ws) (gap ++ []) ≡ (w ∷ ws) ∷ []
unfolding split_from
split_from-last w ws [] h = refl
split_from-last w ws (b ∷ bs) h = split_from-gap w ws (b ∷ bs) [] h

split_from-spaced :
    (ps : List (Bytes × Bytes)) → IsSpaced ps → split_from 0 [] (spaced ps) ≡ map (λ p. p.0) ps
unfolding split_from
split_from-spaced [] h = refl
split_from-spaced (([], gap) ∷ []) h = absurd h.0
split_from-spaced ((w ∷ ws, gap) ∷ []) (hw, hg) =
    split_from-word [] (w ∷ ws) (gap ++ []) hw ∙ split_from-last w ws gap hg
split_from-spaced (([], gap) ∷ p ∷ ps) h = absurd h.0
split_from-spaced ((w ∷ ws, gap) ∷ p ∷ ps) (hw, hg, hs) =
    split_from-word [] (w ∷ ws) (gap ++ spaced (p ∷ ps)) hw
    ∙ split_from-gap w ws gap (spaced (p ∷ ps)) hg
    ∙ ap (◌∷◌ (w ∷ ws)) (split_from-spaced (p ∷ ps) hs)

pub split_whitespace-spaced :
    (before : Bytes) (ps : List (Bytes × Bytes))
    → All IsBlank before
    → IsSpaced ps
    → split_whitespace (before ++ spaced ps) ≡ map (λ p. p.0) ps
unfolding split_whitespace
split_whitespace-spaced before ps hb h =
    split_from-blanks before (spaced ps) hb ∙ split_from-spaced ps h

-- There is no `#` in spaced words.
abbrev pub NotHash : ℕ → Type 0
NotHash b = b ≢ b'#'

word-NotHash : (word : Bytes) → IsWord word → All NotHash word
word-NotHash [] h = tt
word-NotHash (b ∷ bs) h = All-imp _ _ (b ∷ bs) (λ c g. g.2) h

pub blank-NotHash : (bs : Bytes) → All IsBlank bs → All NotHash bs
blank-NotHash bs h = All-imp _ _ bs (λ c g e. ground (arith, g, e)) h

gap-NotHash : (bs : Bytes) → IsGap bs → All NotHash bs
gap-NotHash [] h = tt
gap-NotHash (b ∷ bs) h = blank-NotHash (b ∷ bs) h

pub spaced-NotHash : (ps : List (Bytes × Bytes)) → IsSpaced ps → All NotHash (spaced ps)
spaced-NotHash [] h = tt
spaced-NotHash ((word, gap) ∷ []) (hw, hg) =
    All-append NotHash word _ (word-NotHash word hw)
      (All-append NotHash gap [] (blank-NotHash gap hg) tt)
spaced-NotHash ((word, gap) ∷ p ∷ ps) (hw, hg, hs) =
    All-append NotHash word _ (word-NotHash word hw)
      (All-append NotHash gap _ (gap-NotHash gap hg) (spaced-NotHash (p ∷ ps) hs))
