-- ===== src/Control/Script/OneLine.antt =====
-- A line of plain words is a command of a script (ktuctl-rs/src/commands.rs).
use ktuctl_rs.Prelude.{
  ℕ, suc, Option, subst, ◌≡◌, refl, sym, ap, ◌∙◌, List, [], ◌∷◌, some, false, ◌==◌, if◌then◌else◌,
  All, arith,
}
use ktuctl_rs.Bytes.{Endian, Bytes}
use ktuctl_rs.Text.Whitespace.{trim, split_at}
use ktuctl_rs.Outcome.{Outcome, ok, err, panic, blocked, stuck}
use ktuctl_rs.World.{World, and_then, pure}
use ktuctl_rs.Control.UidMap.{UidMap}
use ktuctl_rs.Control.Names.{GlobalFlags}
use ktuctl_rs.Control.AddressText.Plain.{IsSafe}
use ktuctl_rs.Control.Script.{
  Outside, in_place, script_command, run_words, run_sub, run_subs, run_line, run_lines,
}
use ktuctl_rs.Control.Script.Solid.{IsWord, joined, Solid, joined-Solid, trim-Solid, split_at-Solid}

-- What `shlex::split` does with words that need no quotes.
abbrev pub SplitsWords : Outside → Type 0
SplitsWords o = (words : List Bytes) → All IsWord words → o.shlex (joined words) ≡ some words

pub and_then-pure : (r : Outcome (Unit {0}) × World) → and_then r (λ _. pure tt) ≡ r
and_then-pure (ok tt, w) = refl
and_then-pure (err x, w) = refl
and_then-pure (panic, w) = refl
and_then-pure (blocked, w) = refl
and_then-pure (stuck, w) = refl

module _ (en : Endian) (flags : GlobalFlags) (m : UidMap) (o : Outside)
    (splits : SplitsWords o) where
  run_sub-joined :
      (line sub : ℕ) (b : ℕ) (bs : Bytes) (words : List Bytes)
      → All IsWord words
      → b ∷ bs ≡ joined words
      → run_sub en flags m o line sub (b ∷ bs) ≡ run_words en flags m o line sub words
  unfolding run_sub
  run_sub-joined line sub b bs words plain e =
      let split : o.shlex (b ∷ bs) ≡ some words = ap o.shlex e ∙ splits words plain in
      rw (split, run_sub) refl

  run_subs-joined :
      (line b : ℕ) (bs : Bytes) (words : List Bytes) (w : World)
      → All IsWord words
      → IsSafe b
      → Solid (b ∷ bs)
      → b ∷ bs ≡ joined words
      → run_subs en flags m o line 1 ((b ∷ bs) ∷ []) w ≡ run_words en flags m o line 1 words w
  unfolding run_subs
  run_subs-joined line b bs words w plain hb solid e =
      and_then-pure (run_sub en flags m o line 1 (trim (b ∷ bs)) w)
      ∙ ap (λ text. run_sub en flags m o line 1 text w) (trim-Solid b bs hb solid)
      ∙ ap (λ m'. m' w) (run_sub-joined line 1 b bs words plain e)

  run_line_split :
      (line b : ℕ) (bs : Bytes)
      → IsSafe b
      → run_line en flags m o line (b ∷ bs)
        ≡ run_subs en flags m o line 1 (split_at b';' [] (b ∷ bs))
  unfolding run_line
  run_line_split line b bs hb =
      let no_comment : (b == b'#') ≡ false = ground arith in rw (no_comment, if◌then◌else◌) refl

  -- A line of plain words is that command, in its place, and then the lines behind it.
  pub run_lines-joined :
      (line b : ℕ) (bs v : Bytes) (vs : List Bytes) (rest : List (Option Bytes)) (w : World)
      → All IsWord (v ∷ vs)
      → IsSafe b
      → b ∷ bs ≡ joined (v ∷ vs)
      → run_lines en flags m o line (some (b ∷ bs) ∷ rest) w
        ≡ and_then
            (in_place line 1 v (script_command en flags m o v vs w))
            (λ _. run_lines en flags m o (suc line) rest)
  unfolding run_lines run_words
  run_lines-joined line b bs v vs rest w plain hb e =
      let solid : Solid (b ∷ bs) = subst Solid (sym e) (joined-Solid v vs plain) in
      ap (λ r. and_then r (λ _. run_lines en flags m o (suc line) rest))
        (ap (λ text. run_line en flags m o line text w) (trim-Solid b bs hb solid)
          ∙ ap (λ m'. m' w) (run_line_split line b bs hb)
          ∙ ap (λ texts. run_subs en flags m o line 1 texts w) (split_at-Solid [] (b ∷ bs) solid)
          ∙ run_subs-joined line b bs (v ∷ vs) w plain hb solid e)
