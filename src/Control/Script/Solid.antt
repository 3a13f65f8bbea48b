-- ===== src/Control/Script/Solid.antt =====
-- Lines of plain words in a script (ktuctl-rs/src/commands.rs): they are neither trimmed nor split.
use ktuctl_rs.Prelude.{
  ℕ, ◌≡◌, ◌≢◌, refl, ap, ◌∙◌, List, [], ◌∷◌, ◌++◌, false, ◌==◌, All, arith, ◌⊎◌, inl, inr,
  append_assoc,
}
use ktuctl_rs.Bytes.{Bytes}
use ktuctl_rs.Text.Whitespace.{white, blank_from, trim_start, trim_end, trim, split_at}
use ktuctl_rs.Control.AddressText.Plain.{IsSafe, Safe}

-- A word that needs no quotes.
abbrev pub IsWord : Bytes → Type 0
IsWord bs = (bs ≢ []) × Safe bs

-- Words with a space between them.
abbrev pub joined : List Bytes → Bytes
joined [] = []
joined (v ∷ []) = v
joined (v ∷ v' ∷ vs) = v ++ (b' ' ∷ joined (v' ∷ vs))

-- Safe characters and spaces, with a safe one at the end.
abbrev pub Solid : Bytes → Type 0
Solid [] = ⊥
Solid (b ∷ []) = IsSafe b
Solid (b ∷ c ∷ bs) = (IsSafe b ⊎ (b ≡ 32)) × Solid (c ∷ bs)

white-IsSafe : (b : ℕ) (bs : Bytes) → IsSafe b → white (b ∷ bs) ≡ 0
unfolding white
white-IsSafe b [] h = ground arith
white-IsSafe b (c ∷ []) h = ground arith
white-IsSafe b (c ∷ d ∷ bs) h = ground arith

Safe-Solid : (b : ℕ) (bs : Bytes) → Safe (b ∷ bs) → Solid (b ∷ bs)
Safe-Solid b [] (h, _) = h
Safe-Solid b (c ∷ bs) (h, hs) = (inl h, Safe-Solid c bs hs)

Solid-append : (bs : Bytes) (c : ℕ) (cs : Bytes) → Safe bs → Solid (c ∷ cs) → Solid (bs ++ (c ∷ cs))
Solid-append [] c cs h hc = hc
Solid-append (b ∷ []) c cs (h, _) hc = (inl h, hc)
Solid-append (b ∷ b' ∷ bs) c cs (h, hs) hc = (inl h, Solid-append (b' ∷ bs) c cs hs hc)

Solid-space : (bs : Bytes) → Solid bs → Solid (32 ∷ bs)
Solid-space [] h = absurd h
Solid-space (b ∷ bs) h = (inr refl, h)

pub joined-Solid : (v : Bytes) (vs : List Bytes) → All IsWord (v ∷ vs) → Solid (joined (v ∷ vs))
joined-Solid [] [] ((h, _), _) = absurd (h refl)
joined-Solid (b ∷ bs) [] ((_, h), _) = Safe-Solid b bs h
joined-Solid v (v' ∷ vs) ((_, h), hs) =
    Solid-append v 32 (joined (v' ∷ vs)) h (Solid-space _ (joined-Solid v' vs hs))

blank_from_space : (bs : Bytes) → blank_from 0 (32 ∷ bs) ≡ blank_from 0 bs
unfolding blank_from white
blank_from_space [] = refl
blank_from_space (c ∷ []) = refl
blank_from_space (c ∷ d ∷ bs) = refl

blank_from-Solid : (bs : Bytes) → Solid bs → blank_from 0 bs ≡ false
unfolding blank_from
blank_from-Solid [] h = absurd h
blank_from-Solid (b ∷ []) h = rw (white-IsSafe b [] h, blank_from) refl
blank_from-Solid (b ∷ c ∷ bs) (inl h, hs) = rw (white-IsSafe b (c ∷ bs) h, blank_from) refl
blank_from-Solid (b ∷ c ∷ bs) (inr h, hs) =
    rw h (blank_from_space (c ∷ bs) ∙ blank_from-Solid (c ∷ bs) hs)

trim_end-Solid : (bs : Bytes) → Solid bs → trim_end bs ≡ bs
unfolding trim_end
trim_end-Solid [] h = refl
trim_end-Solid (b ∷ []) h = rw (blank_from-Solid (b ∷ []) h, trim_end) refl
trim_end-Solid (b ∷ c ∷ bs) (hb, h) =
    rw (blank_from-Solid (b ∷ c ∷ bs) (hb, h), trim_end) (ap (◌∷◌ b) (trim_end-Solid (c ∷ bs) h))

trim_start-IsSafe : (b : ℕ) (bs : Bytes) → IsSafe b → trim_start 0 (b ∷ bs) ≡ b ∷ bs
unfolding trim_start
trim_start-IsSafe b bs h = rw (white-IsSafe b bs h, trim_start) refl

pub trim-Solid : (b : ℕ) (bs : Bytes) → IsSafe b → Solid (b ∷ bs) → trim (b ∷ bs) ≡ b ∷ bs
unfolding trim
trim-Solid b bs hb h = rw (trim_start-IsSafe b bs hb) (trim_end-Solid (b ∷ bs) h)

no_semicolon : (b : ℕ) → IsSafe b ⊎ (b ≡ 32) → (b == b';') ≡ false
no_semicolon b (inl h) = ground arith
no_semicolon b (inr h) = ground arith

pub split_at-Solid : (piece bs : Bytes) → Solid bs → split_at b';' piece bs ≡ (piece ++ bs) ∷ []
unfolding split_at
split_at-Solid piece [] h = absurd h
split_at-Solid piece (b ∷ []) h =
    let e : (b == b';') ≡ false = ground arith in rw (e, split_at) refl
split_at-Solid piece (b ∷ c ∷ bs) (hb, h) =
    rw (no_semicolon b hb, split_at)
      (split_at-Solid (piece ++ (b ∷ [])) (c ∷ bs) h
        ∙ ap (λ x. x ∷ []) (append_assoc piece (b ∷ []) (c ∷ bs)))
