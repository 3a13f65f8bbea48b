-- ===== src/Control/UidMap.antt =====
-- ktuctl-rs/src/uid_map.rs. A text is its UTF-8 bytes. The `HashMap` is an association list in the
-- order of its iteration. Every list with one entry for each user and the same names stands for the same
-- map, and `load` gives one of them; what is said of a search is said of all.
pub mod Lookup
pub mod Written
pub mod Said
use ktuctl_rs.Prelude.{
  ℕ, zero, suc, ◌+◌, List, [], ◌∷◌, ◌++◌, Option, none, some, Bool, true, false, ◌&&◌, ◌||◌, ltb,
  leb, ◌==◌, ◌=b◌, if◌then◌else◌,
}
use ktuctl_rs.Bytes.{Bytes}
use ktuctl_rs.Text.Whitespace.{split_whitespace}
use ktuctl_rs.Number.{parse_unsigned, u8_max}

-- `line.split('#').next()`
unfoldable pub until_hash : Bytes → Bytes
until_hash [] = []
until_hash (b ∷ bs) = if b == b'#' then [] else b ∷ until_hash bs

-- What a line says. `trim` leaves nothing exactly if there is no word.
pub data Line : Type 0 where
  blank malformed invalid_uid : Line
  entry : ℕ → Bytes → Line

unfoldable pub parse_line : Bytes → Line
unfolding until_hash split_whitespace parse_unsigned
parse_line line = elim (split_whitespace (until_hash line)) [
  | [] ↦ Line.blank
  | uid ∷ rest ↦ elim rest [
    | [] ↦ Line.malformed
    | hostname ∷ more ↦ elim (parse_unsigned u8_max uid) [
      | none ↦ Line.invalid_uid
      | some u ↦ Line.entry u hostname
    ]
  ]
]

abbrev pub UidMap : Type 0
UidMap = List (ℕ × Bytes)

unfoldable pub insert : ℕ → Bytes → UidMap → UidMap
insert uid name [] = (uid, name) ∷ []
insert uid name ((u, h) ∷ m) = if u == uid then (uid, name) ∷ m else (u, h) ∷ insert uid name m

unfoldable pub get_host : ℕ → UidMap → Option Bytes
get_host uid [] = none
get_host uid ((u, h) ∷ m) = if u == uid then some h else get_host uid m

unfoldable pub get_uid : Bytes → UidMap → Option ℕ
get_uid name [] = none
get_uid name ((u, h) ∷ m) = if h =b name then some u else get_uid name m

-- A line's entry is inserted; the other lines, but for the blank ones, are logged.
abbrev pub add_line : Line → UidMap → UidMap
add_line (Line.entry uid hostname) m = insert uid hostname m
add_line Line.blank m = m
add_line Line.malformed m = m
add_line Line.invalid_uid m = m

-- The loop, over what `lines` gives: `none` is a line that cannot be read. Whether all could, and the
-- map.
unfoldable pub load_lines : List (Option Bytes) → UidMap → Bool × UidMap
unfolding parse_line
load_lines [] m = (true, m)
load_lines (none ∷ lines) m = (false, m)
load_lines (some line ∷ lines) m = load_lines lines (add_line (parse_line line) m)

-- The file: it is not there, or cannot be opened, or has lines.
pub data File : Type 0 where
  missing unreadable : File
  file : List (Option Bytes) → File

unfoldable pub load : File → UidMap → Bool × UidMap
unfolding load_lines
load File.missing m = (true, m)
load File.unreadable m = (false, m)
load (File.file lines) m = load_lines lines []
