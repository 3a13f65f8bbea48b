-- ===== src/Control/Options.antt =====
-- The argument loops of `cmd_client_add`, `cmd_client_del`, `cmd_server_add` and `cmd_server_del` in
-- ktuctl-rs/src/commands.rs, which differ in the words that they know, a parameter here, and that of
-- `cmd_server`.
pub mod Words
pub mod RoundTrip
use ktuctl_rs.Prelude.{
  ℕ, ◌+◌, List, [], ◌∷◌, Option, none, some, Bool, true, false, ◌||◌, ◌=b◌, ◌==◌, not,
  if◌then◌else◌,
}
use ktuctl_rs.Bytes.{Bytes}
use ktuctl_rs.Number.{parse_unsigned, u16_max, u32_max}
use ktuctl_rs.Outcome.{Outcome, ok, err, Error, ◌>>=◌}
use ktuctl_rs.Control.UidMap.{UidMap}
use ktuctl_rs.Control.Names.{resolve_uid}

pub data Word : Type 0 where
  address port icmp_id uid comment xor : Word

-- The variables that the loops fill.
pub record Options : Type 0 where
  pub address : Bytes
  pub port : ℕ
  pub icmp_id : ℕ
  pub uid : ℕ
  pub uid_set : Bool
  pub comment : Bytes
  pub xor_hex : Bytes

abbrev pub nothing_set : Options
nothing_set = record {
  address = [];
  port = 0;
  icmp_id = 0;
  uid = 0;
  uid_set = false;
  comment = [];
  xor_hex = [];
}

unfoldable pub word_of : Bytes → Option Word
word_of s =
    if s =b Words.address || s =b Words.addr
    then some Word.address
    else if s =b Words.port
    then some Word.port
    else if s =b Words.icmp_id
    then some Word.icmp_id
    else if s =b Words.uid || s =b Words.user
    then some Word.uid
    else if s =b Words.comment
    then some Word.comment
    else if s =b Words.xor
    then some Word.xor
    else none

-- The words of each command.
abbrev pub client_add_words : Word → Bool
client_add_words Word.icmp_id = false
client_add_words _ = true

abbrev pub client_del_words : Word → Bool
client_del_words Word.address = true
client_del_words Word.uid = true
client_del_words _ = false

abbrev pub server_add_words : Word → Bool
server_add_words _ = true

abbrev pub server_del_words : Word → Bool
server_del_words Word.uid = true
server_del_words _ = false

-- `parse()?`
abbrev pub number : Option ℕ → Outcome ℕ
number none = err Error.invalid_number
number (some n) = ok n

unfoldable pub set_option : UidMap → Word → Bytes → Options → Outcome Options
set_option m Word.address v o = ok (record o { address = v })
set_option m Word.port v o = number (parse_unsigned u16_max v) >>= λ n. ok (record o { port = n })
set_option m Word.icmp_id v o =
    number (parse_unsigned u16_max v) >>= λ n. ok (record o { icmp_id = n })
set_option m Word.uid v o = resolve_uid m v >>= λ u. ok (record o { uid = u; uid_set = true })
set_option m Word.comment v o = ok (record o { comment = v })
set_option m Word.xor v o = ok (record o { xor_hex = v })

-- A word of the command's own, or none.
abbrev pub known : (Word → Bool) → Option Word → Option Word
known knows none = none
known knows (some w) = if knows w then some w else none

-- Other arguments are passed over, one at a time.
unfoldable pub parse_options : UidMap → (Word → Bool) → List Bytes → Options → Outcome Options
unfolding word_of set_option
parse_options m knows [] o = ok o
parse_options m knows (s ∷ []) o = elim (known knows (word_of s)) [
  | none ↦ ok o
  | some w ↦ err Error.missing_value
]
parse_options m knows (s ∷ v ∷ rest) o = elim (known knows (word_of s)) [
  | none ↦ parse_options m knows (v ∷ rest) o
  | some w ↦ set_option m w v o >>= λ o'. parse_options m knows rest o'
]

-- The loop of `cmd_server`: `max-age` with a value behind it; other arguments are passed over.
unfoldable pub parse_max_age : List Bytes → ℕ → Outcome ℕ
parse_max_age [] age = ok age
parse_max_age (s ∷ []) age = ok age
parse_max_age (s ∷ v ∷ rest) age = elim (s =b Words.max_age) [
  | false ↦ parse_max_age (v ∷ rest) age
  | true ↦ number (parse_unsigned u32_max v) >>= λ n. parse_max_age rest n
]
