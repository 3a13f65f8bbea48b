-- ===== src/Tests/Control.antt =====
-- ktuctl-rs/src/helper.rs and ktuctl-rs/src/uid_map.rs: runs, and the theorems at inputs.
use ktuctl_rs.Prelude.{
  ℕ, ◌≡◌, ◌≢◌, ◌⊎◌, All, none, refl, List, [], ◌∷◌, ◌++◌, arith, length, replicate, map, some, true,
  false,
}
use ktuctl_rs.Bytes.{Bytes}
use ktuctl_rs.Text.Whitespace.{white, split_from, split_whitespace}
use ktuctl_rs.Address.{IpAddr, v4, v6}
use ktuctl_rs.Number.{decimal, parse_unsigned, parse_digits, push_digits}
use ktuctl_rs.Outcome.{ok, panic}
use ktuctl_rs.Control.UidMap.{
  File, UidMap, until_hash, parse_line, load, get_host, get_uid, insert, load_lines,
}
use ktuctl_rs.Control.UidMap.Lookup.{Unique}
use ktuctl_rs.Control.UidMap.Written.{
  Written, host, no_number, lone, nothing, text, IsWritten, said,
}
use ktuctl_rs.Control.UidMap.Said.{get_host-load-text, get_uid-load-text}
use ktuctl_rs.Control.XorKey.{
  hex_digit, parse_chunks, parse_xor_key, format_xor_key, parse_xor_key-format_xor_key,
}
use ktuctl_rs.Control.Names.{
  IpFamily, GlobalFlags, Among, Suits, IsMapped, find, resolve_uid, resolve_hostname, user_word,
  uid_word, resolve_ip, resolve_uid-resolve_hostname, resolve_ip-Suits,
}

-- "7 a" and "7 b # c"
abbrev two_lines : List Bytes
two_lines = (b'7' ∷ b' ' ∷ b'a' ∷ []) ∷ (b'7' ∷ 9 ∷ b'b' ∷ b' ' ∷ b'#' ∷ b'c' ∷ []) ∷ []

abbrev old_map : UidMap
old_map = (1, b'x' ∷ []) ∷ []

loaded : load (File.file (map some two_lines)) old_map ≡ (true, (7, b'b' ∷ []) ∷ [])
unfolding load load_lines parse_line until_hash split_whitespace split_from white parse_unsigned
    parse_digits insert
loaded = refl

-- "300 x", "7 a", "# n", "7", "x y", "\t7  b #c" and "9 d e".
abbrev written : List Written
written =
    host [] 300 (32 ∷ []) (b'x' ∷ []) [] [] []
    ∷ host [] 7 (32 ∷ []) (b'a' ∷ []) [] [] []
    ∷ nothing [] (b'#' ∷ 32 ∷ b'n' ∷ [])
    ∷ lone [] (b'7' ∷ []) [] []
    ∷ no_number [] (b'x' ∷ []) (32 ∷ []) (b'y' ∷ []) [] [] []
    ∷ host (9 ∷ []) 7 (32 ∷ 32 ∷ []) (b'b' ∷ []) (32 ∷ []) [] (b'#' ∷ b'c' ∷ [])
    ∷ host [] 9 (32 ∷ []) (b'd' ∷ []) (32 ∷ []) ((b'e' ∷ [], []) ∷ []) []
    ∷ []

written-IsWritten : All IsWritten written
written-IsWritten = ground arith

get_host-load-text_example :
    ((load (File.file (map some (map text written))) old_map).0 ≡ true)
    × (get_host 7 (load (File.file (map some (map text written))) old_map).1 ≡ some (b'b' ∷ []))
    × Unique (load (File.file (map some (map text written))) old_map).1
get_host-load-text_example = get_host-load-text 7 written old_map written-IsWritten

-- The entries the other way round.
abbrev backwards : UidMap
backwards = (9, b'd' ∷ []) ∷ (7, b'b' ∷ []) ∷ []

loaded_text :
    load (File.file (map some (map text written))) old_map
    ≡ (true, (7, b'b' ∷ []) ∷ (9, b'd' ∷ []) ∷ [])
unfolding load load_lines parse_line until_hash split_whitespace split_from white parse_unsigned
    parse_digits insert decimal push_digits
loaded_text = refl

backwards_same :
    (uid : ℕ)
    → get_host uid backwards
      ≡ get_host uid (load (File.file (map some (map text written))) old_map).1
unfolding get_host
backwards_same uid = rw loaded_text (ground arith)

get_uid-load-text_example :
    ((uid : ℕ) × (get_uid (b'b' ∷ []) backwards ≡ some uid) × (said uid written ≡ some (b'b' ∷ [])))
    ⊎ ((get_uid (b'b' ∷ []) backwards ≡ none) × ((uid : ℕ) → said uid written ≢ some (b'b' ∷ [])))
get_uid-load-text_example =
    get_uid-load-text (b'b' ∷ []) written old_map backwards written-IsWritten
      (unfold get_host in (refl, (refl, tt))) backwards_same

parse_xor_key-format_xor_key_example :
    (parse_xor_key (format_xor_key (7 ∷ 200 ∷ 9 ∷ []) 2) (replicate 64 0)
      ≡ ok (7 ∷ 200 ∷ replicate 62 0, 2))
    × (length (format_xor_key (7 ∷ 200 ∷ 9 ∷ []) 2) ≡ 4)
parse_xor_key-format_xor_key_example =
    parse_xor_key-format_xor_key (7 ∷ 200 ∷ 9 ∷ []) (replicate 64 0) 2
      (omega arith, (omega arith, (omega arith, tt))) (omega arith) (omega arith) (omega arith)

-- A letter of two bytes.
parsed_letter : parse_xor_key (0xC3 ∷ 0xA4 ∷ []) (replicate 64 0) ≡ panic
unfolding parse_xor_key parse_chunks hex_digit
parsed_letter = refl

abbrev flags : GlobalFlags
flags = record { numeric = false; debug = false; ip_family = some IpFamily.ip6 }

abbrev users : UidMap
users = (7, b'b' ∷ []) ∷ []

distinct :
    (u v : ℕ) (name : Bytes) → get_host u users ≡ some name → get_host v users ≡ some name → u ≡ v
unfolding get_host
distinct u v name p q = ground (arith, p, q)

resolve_uid-resolve_hostname_example :
    (value : Bytes) × ((resolve_hostname flags users 7 true ≡ user_word true ++ value)
      ⊎ (resolve_hostname flags users 7 true ≡ uid_word true ++ value))
    × (resolve_uid users value ≡ ok 7)
resolve_uid-resolve_hostname_example =
    resolve_uid-resolve_hostname flags users 7 (unfold get_host in (refl, tt)) distinct
      (unfold get_uid in unfold decimal in unfold push_digits in refl) (omega arith)

abbrev hosts : List IpAddr
hosts = v4 (127 ∷ 0 ∷ 0 ∷ 1 ∷ []) ∷ v6 (replicate 16 1) ∷ []

resolve_ip-Suits_example :
    (ip : IpAddr) × Among ip hosts × Suits (some IpFamily.ip6) ip × IsMapped (replicate 16 1) ip
resolve_ip-Suits_example =
    resolve_ip-Suits flags hosts (record { octets = replicate 16 1 })
      (unfold resolve_ip in unfold find in refl)
