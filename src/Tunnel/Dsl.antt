-- ===== src/Tunnel/Dsl.antt =====
-- The arguments of tuctl-client/src/main.rs: `parse_u16` to `parse_window`, `read_script` and
-- `parse_dsl_args`. A text is its bytes. What is logged is left out, and the errors' texts with it.
pub mod Words
pub mod RoundTrip
use ktuctl_rs.Prelude.{
  ℕ, ◌+◌, ◌≤◌, ◌≡◌, refl, ap, ◌∙◌, List, [], ◌∷◌, Option, none, some, Bool, true, false, ltb, ◌==◌,
  ◌=b◌, if◌then◌else◌, length, arith, ltb-false, ==-false,
}
use ktuctl_rs.Bytes.{Bytes}
use ktuctl_rs.Number.{parse_unsigned, u16_max, u32_max, decimal, parse_unsigned-decimal}

pub data Family : Type 0 where
  unspec inet4 inet6 : Family

pub record Args : Type 0 where
  pub script : Bytes
  pub psk : Bytes
  pub server : Bytes
  pub server_port : ℕ
  pub family : Family
  pub window : ℕ
  pub max_retries : ℕ

abbrev pub default_server : Bytes
default_server = b'1' ∷ b'2' ∷ b'7' ∷ b'.' ∷ b'0' ∷ b'.' ∷ b'0' ∷ b'.' ∷ b'1' ∷ []

abbrev pub default_server_port : ℕ
default_server_port = 7000

abbrev pub default_window : ℕ
default_window = 30

abbrev nonzero : Option ℕ → Option ℕ
nonzero none = none
nonzero (some n) = if n == 0 then none else some n

unfoldable pub parse_port : Bytes → Option ℕ
parse_port s = nonzero (parse_unsigned u16_max s)

unfoldable pub parse_window : Bytes → Option ℕ
parse_window s = nonzero (parse_unsigned u32_max s)

-- The keywords that a value follows.
pub data Setting : Type 0 where
  server_port script psk server window max_retries : Setting

pub data Keyword : Type 0 where
  value : Setting → Keyword
  use_family : Family → Keyword
  refused : Keyword

-- The tests of the loop, in their order. A word for help and an unknown word are refused alike.
unfoldable pub keyword : Bytes → Keyword
keyword tok =
    if tok =b Words.server_port
    then Keyword.value Setting.server_port
    else if tok =b Words.script
    then Keyword.value Setting.script
    else if tok =b Words.psk
    then Keyword.value Setting.psk
    else if tok =b Words.server
    then Keyword.value Setting.server
    else if tok =b Words.window
    then Keyword.value Setting.window
    else if tok =b Words.max_retries
    then Keyword.value Setting.max_retries
    else if tok =b Words.inet4
    then Keyword.use_family Family.inet4
    else if tok =b Words.inet6
    then Keyword.use_family Family.inet6
    else Keyword.refused

-- What the loop has read so far.
pub record Dsl : Type 0 where
  pub script : Bytes
  pub psk : Option Bytes
  pub server : Bytes
  pub server_port : ℕ
  pub family : Family
  pub window : ℕ
  pub max_retries : ℕ

abbrev pub defaults : Dsl
defaults = record {
  script = b'-' ∷ [];
  psk = none;
  server = default_server;
  server_port = default_server_port;
  family = Family.unspec;
  window = default_window;
  max_retries = 3;
}

-- `Ok(v) => … = v`, and an early return for an error.
abbrev pub assign : (ℕ → Dsl) → Option ℕ → Option Dsl
assign f none = none
assign f (some n) = some (f n)

unfoldable pub set : Setting → Bytes → Dsl → Option Dsl
unfolding parse_port parse_window
set Setting.server_port v d = assign (λ n. record d { server_port = n }) (parse_port v)
set Setting.script v d = some (record d { script = v })
set Setting.psk v d = some (record d { psk = some v })
set Setting.server v d = some (record d { server = v })
set Setting.window v d = assign (λ n. record d { window = n }) (parse_window v)
set Setting.max_retries v d = assign (λ n. record d { max_retries = n }) (parse_unsigned u16_max v)

-- The loop: `none` is `Err(-22)`.
unfoldable pub parse_loop : List Bytes → Dsl → Option Dsl
unfolding keyword set
parse_loop [] d = some d
parse_loop (tok ∷ []) d = elim (keyword tok) [
  | use_family f ↦ some (record d { family = f })
  | _ ↦ none
]
parse_loop (tok ∷ v ∷ rest) d = elim (keyword tok) [
  | value s ↦ elim (set s v d) [ none ↦ none | some d' ↦ parse_loop rest d' ]
  | use_family f ↦ parse_loop (v ∷ rest) (record d { family = f })
  | refused ↦ none
]

-- The codes of `run`: 0, -1 and -22.
pub data Code : Type 0 where
  zero minus_1 minus_22 : Code

pub data Parsed : Type 0 where
  parsed : Args → Parsed
  failed : Code → Parsed

-- `read_script`: standard input for "-", else the file of that name. What these hold is an argument.
abbrev pub read_script : Option Bytes → (Bytes → Option Bytes) → Bytes → Option Bytes
read_script stdin file path = if path =b (b'-' ∷ []) then stdin else file path

-- What follows the loop.
unfoldable pub finish : Option Bytes → (Bytes → Option Bytes) → Dsl → Parsed
finish stdin file d = elim d.psk [
  | none ↦ Parsed.failed Code.minus_22
  | some phrase ↦
      if ltb (length phrase) 8
      then Parsed.failed Code.minus_22
      else elim (read_script stdin file d.script) [
        | none ↦ Parsed.failed Code.minus_1
        | some content ↦ Parsed.parsed (record {
          script = content;
          psk = phrase;
          server = d.server;
          server_port = d.server_port;
          family = d.family;
          window = d.window;
          max_retries = d.max_retries;
        })
      ]
]

-- `argv` without the program's name.
unfoldable pub parse_dsl_args : Option Bytes → (Bytes → Option Bytes) → List Bytes → Parsed
unfolding parse_loop finish
parse_dsl_args stdin file args = elim (parse_loop args defaults) [
  | none ↦ Parsed.failed Code.minus_22
  | some d ↦ finish stdin file d
]
