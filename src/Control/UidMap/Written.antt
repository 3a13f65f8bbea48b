-- ===== src/Control/UidMap/Written.antt =====
-- The lines of a file of users as somebody writes them, apart from the parser of
-- ktuctl-rs/src/uid_map.rs: their text, and the names that they give.
use ktuctl_rs.Prelude.{
  ℕ, ◌≡◌, ◌≢◌, List, [], ◌∷◌, ◌++◌, All, Option, none, some, false, leb, ◌==◌, ◌&&◌, if◌then◌else◌,
}
use ktuctl_rs.Bytes.{Bytes}
use ktuctl_rs.Number.{decimal}
use ktuctl_rs.Text.Words.{IsBlank, IsWord, IsGap, spaced, IsSpaced}

-- A line that names a user, with further words perhaps; one that has a name for something that is no
-- number; one of a single word; and one without words. The first text stands before the words, the
-- last one is a comment.
pub data Written : Type 0 where
  host : Bytes → ℕ → Bytes → Bytes → Bytes → List (Bytes × Bytes) → Bytes → Written
  no_number : Bytes → Bytes → Bytes → Bytes → Bytes → List (Bytes × Bytes) → Bytes → Written
  lone : Bytes → Bytes → Bytes → Bytes → Written
  nothing : Bytes → Bytes → Written

abbrev pub IsComment : Bytes → Type 0
IsComment [] = Unit {0}
IsComment (b ∷ bs) = b ≡ b'#'

-- The word starts with neither a digit nor a `+`.
abbrev pub IsNoNumber : Bytes → Type 0
IsNoNumber [] = ⊥
IsNoNumber (b ∷ bs) = (b ≢ b'+') × ((leb b'0' b && leb b b'9') ≡ false)

-- The words and what stands behind each.
abbrev pub words_of : Written → List (Bytes × Bytes)
words_of (host before u gap name after more comment) = (decimal u, gap) ∷ (name, after) ∷ more
words_of (no_number before word gap name after more comment) = (word, gap) ∷ (name, after) ∷ more
words_of (lone before word after comment) = (word, after) ∷ []
words_of (nothing before comment) = []

abbrev pub before_of : Written → Bytes
before_of (host before u gap name after more comment) = before
before_of (no_number before word gap name after more comment) = before
before_of (lone before word after comment) = before
before_of (nothing before comment) = before

abbrev pub comment_of : Written → Bytes
comment_of (host before u gap name after more comment) = comment
comment_of (no_number before word gap name after more comment) = comment
comment_of (lone before word after comment) = comment
comment_of (nothing before comment) = comment

abbrev pub text : Written → Bytes
text l = (before_of l ++ spaced (words_of l)) ++ comment_of l

-- Words are printable ASCII without `#`, and spaces and tabs stand between them.
abbrev pub IsWritten : Written → Type 0
IsWritten (host before u gap name after more comment) =
    All IsBlank before × IsGap gap × IsSpaced ((name, after) ∷ more) × IsComment comment
IsWritten (no_number before word gap name after more comment) =
    All IsBlank before
    × (IsWord word × IsNoNumber word)
    × IsGap gap
    × IsSpaced ((name, after) ∷ more)
    × IsComment comment
IsWritten (lone before word after comment) =
    All IsBlank before × IsWord word × All IsBlank after × IsComment comment
IsWritten (nothing before comment) = All IsBlank before × IsComment comment

-- The name that a line gives a user. Numbers of users have 8 bits.
abbrev pub named : ℕ → Written → Option Bytes
named uid (host before u gap name after more comment) =
    if leb u 255 && (u == uid) then some name else none
named uid (no_number before word gap name after more comment) = none
named uid (lone before word after comment) = none
named uid (nothing before comment) = none

-- A later line stands above an earlier one.
abbrev pub or_before : Option Bytes → Option Bytes → Option Bytes
or_before (some a) o = some a
or_before none o = o

abbrev pub said : ℕ → List Written → Option Bytes
said uid [] = none
said uid (l ∷ ls) = or_before (said uid ls) (named uid l)
