-- ===== src/Control/UidMap/Said.antt =====
-- What the text of a file of users says: what is found in the map that ktuctl-rs/src/uid_map.rs loads
-- from it.
use ktuctl_rs.Prelude.{
  ℕ, zero, suc, ◌+◌, ◌/◌, ◌%◌, All-append, ◌≡◌, ◌≢◌, refl, sym, ap, ◌∙◌, List, [], ◌∷◌, ◌++◌, ◌⊎◌,
  inl, inr, All, map, Option, none, some, true, false, leb, ◌==◌, if◌then◌else◌, Bool-cases,
  Option-cases, arith,
}
use ktuctl_rs.Bytes.{Bytes}
use ktuctl_rs.Number.{
  decimal, push_digits, push_digits-head, parse_digits, parse_unsigned, u8_max,
  parse_unsigned-decimal, parse_unsigned-decimal_large,
}
use ktuctl_rs.Text.Whitespace.{split_whitespace}
use ktuctl_rs.Text.Words.{
  IsGraphic, IsBlank, IsWord, spaced, IsSpaced, NotHash, blank-NotHash, spaced-NotHash,
  split_whitespace-spaced,
}
use ktuctl_rs.Control.UidMap.{
  entry, invalid_uid, until_hash, parse_line, UidMap, get_host, get_uid, File, load,
}
use ktuctl_rs.Control.UidMap.Lookup.{
  last_name, or_earlier, Unique, get_host-load, get_host-get_uid, get_uid-found, load_lines-Unique,
}
use ktuctl_rs.Control.UidMap.Written.{
  Written, host, no_number, lone, nothing, IsComment, IsNoNumber, words_of, before_of, comment_of,
  text, IsWritten, named, or_before, said,
}

push_digits-IsGraphic :
    (fuel n : ℕ) (acc : Bytes) → All IsGraphic acc → All IsGraphic (push_digits fuel n acc)
unfolding push_digits
push_digits-IsGraphic zero n acc h = h
push_digits-IsGraphic (suc fuel) n acc h =
    let digit : IsGraphic (b'0' + n % 10) = (omega arith, omega arith, λ e. omega (arith, e)) in
    elim (Bool-cases (n / 10 == 0)) [
      | inl small ↦ rw small (digit, h)
      | inr more ↦ rw more (push_digits-IsGraphic fuel (n / 10) ((b'0' + n % 10) ∷ acc) (digit, h))
    ]

IsWord-of_digits : (d : ℕ) (bs rest : Bytes) → bs ≡ d ∷ rest → All IsGraphic bs → IsWord bs
IsWord-of_digits d [] rest e h = cc
IsWord-of_digits d (b ∷ bs) rest e h = h

decimal-IsWord : (n : ℕ) → IsWord (decimal n)
unfolding decimal
decimal-IsWord n =
    let (d, bs, e, small) = push_digits-head (suc n) n [] (omega arith) in
    IsWord-of_digits (b'0' + d) (decimal n) bs e (push_digits-IsGraphic (suc n) n [] tt)

until_hash-comment :
    (bs comment : Bytes) → All NotHash bs → IsComment comment → until_hash (bs ++ comment) ≡ bs
unfolding until_hash
until_hash-comment [] [] h hc = refl
until_hash-comment [] (c ∷ cs) h hc =
    let hash : (c == b'#') ≡ true = ground (arith, hc) in rw hash refl
until_hash-comment (b ∷ bs) comment (h, hs) hc =
    let other : (b == b'#') ≡ false = ground (arith, h) in
    rw other (ap (◌∷◌ b) (until_hash-comment bs comment hs hc))

IsWritten-parts :
    (l : Written)
    → IsWritten l
    → All IsBlank (before_of l) × IsSpaced (words_of l) × IsComment (comment_of l)
IsWritten-parts (host before u gap name after more comment) (hb, hg, hs, hc) =
    (hb, (decimal-IsWord u, hg, hs), hc)
IsWritten-parts (no_number before word gap name after more comment) (hb, hw, hg, hs, hc) =
    (hb, (hw.0, hg, hs), hc)
IsWritten-parts (lone before word after comment) (hb, hw, ha, hc) = (hb, (hw, ha), hc)
IsWritten-parts (nothing before comment) (hb, hc) = (hb, tt, hc)

split_whitespace-text :
    (l : Written)
    → IsWritten l
    → split_whitespace (until_hash (text l)) ≡ map (λ p. p.0) (words_of l)
split_whitespace-text l h =
    let (hb, hs, hc) = IsWritten-parts l h in
    ap split_whitespace (
      until_hash-comment (before_of l ++ spaced (words_of l)) (comment_of l)
        (All-append NotHash (before_of l) (spaced (words_of l)) (blank-NotHash (before_of l) hb)
          (spaced-NotHash (words_of l) hs))
        hc)
    ∙ split_whitespace-spaced (before_of l) (words_of l) hb hs

parse_unsigned-no_number : (word : Bytes) → IsNoNumber word → parse_unsigned u8_max word ≡ none
unfolding parse_unsigned parse_digits
parse_unsigned-no_number [] h = absurd h
parse_unsigned-no_number (b ∷ bs) (sign, digits) =
    let unsigned : (b == b'+') ≡ false = ground (arith, sign) in
    rw (unsigned, digits, parse_digits) refl

or_none : (later : Option Bytes) → later ≡ or_before later none
or_none none = refl
or_none (some a) = refl

or_entry :
    (uid u : ℕ) (name : Bytes) (later : Option Bytes)
    → or_earlier uid (entry u name) later ≡ or_before later (if u == uid then some name else none)
or_entry uid u name none = refl
or_entry uid u name (some a) = refl

parse_line-entry :
    (line word name : Bytes) (more : List Bytes) (u : ℕ)
    → split_whitespace (until_hash line) ≡ word ∷ name ∷ more
    → parse_unsigned u8_max word ≡ some u
    → parse_line line ≡ entry u name
unfolding parse_line
parse_line-entry line word name more u words parsed = rw (words, parsed, parse_line) refl

parse_line-invalid_uid :
    (line word name : Bytes) (more : List Bytes)
    → split_whitespace (until_hash line) ≡ word ∷ name ∷ more
    → parse_unsigned u8_max word ≡ none
    → parse_line line ≡ invalid_uid
unfolding parse_line
parse_line-invalid_uid line word name more words refused = rw (words, refused, parse_line) refl

-- A line means to the parser what was written.
or_earlier-named :
    (uid : ℕ) (l : Written) (later : Option Bytes)
    → IsWritten l
    → or_earlier uid (parse_line (text l)) later ≡ or_before later (named uid l)
unfolding parse_line
or_earlier-named uid (nothing before comment) later h =
    rw (split_whitespace-text (nothing before comment) h, parse_line) (or_none later)
or_earlier-named uid (lone before word after comment) later h =
    rw (split_whitespace-text (lone before word after comment) h, parse_line) (or_none later)
or_earlier-named uid (no_number before word gap name after more comment) later h =
    rw
      (parse_line-invalid_uid _ word name _
        (split_whitespace-text (no_number before word gap name after more comment) h)
        (parse_unsigned-no_number word h.1.1))
      (or_none later)
or_earlier-named uid (host before u gap name after more comment) later h =
    let words = split_whitespace-text (host before u gap name after more comment) h in
    elim (Bool-cases (leb u 255)) [
      | inl small ↦
          let parsed = parse_unsigned-decimal u8_max u (ground (arith, small)) in
          rw (parse_line-entry _ (decimal u) name _ u words parsed, small)
            (or_entry uid u name later)
      | inr large ↦
          let refused = parse_unsigned-decimal_large u8_max u (ground (arith, large)) in
          rw (parse_line-invalid_uid _ (decimal u) name _ words refused, large) (or_none later)
    ]

last_name-said :
    (uid : ℕ) (ls : List Written) → All IsWritten ls → last_name uid (map text ls) ≡ said uid ls
last_name-said uid [] h = refl
last_name-said uid (l ∷ ls) (h, hs) =
    or_earlier-named uid l (last_name uid (map text ls)) h
    ∙ ap (λ later. or_before later (named uid l)) (last_name-said uid ls hs)

-- A file whose lines can all be read is loaded whole, and what was in the map is forgotten. A user has
-- the host name of the last line that gives the user one, or none: words are printable ASCII, with spaces
-- and tabs around them, and the first word of such a line is the user's number, at most 255, in decimal.
-- Comments, further words, and lines without words, of one word, with a greater number or with a word
-- that starts as no number does, do not matter. And the map has one entry for each user.
pub get_host-load-text :
    (uid : ℕ) (ls : List Written) (m : UidMap)
    → All IsWritten ls
    → ((load (File.file (map some (map text ls))) m).0 ≡ true)
      × (get_host uid (load (File.file (map some (map text ls))) m).1 ≡ said uid ls)
      × Unique (load (File.file (map some (map text ls))) m).1
get_host-load-text uid ls m h =
    let (whole, found) = get_host-load uid (map text ls) m in
    (
      whole,
      found ∙ last_name-said uid ls h,
      unfold load in load_lines-Unique (map some (map text ls)) [] tt,
    )

-- A map that was loaded is searched for a host name in any order of its entries: in any list with one
-- entry for each user that has the names of the loaded map. The user that is found has the name in the
-- file, as its last one; if none is found, no user has.
pub get_uid-load-text :
    (name : Bytes) (ls : List Written) (m searched : UidMap)
    → All IsWritten ls
    → Unique searched
    → ((uid : ℕ)
        → get_host uid searched ≡ get_host uid (load (File.file (map some (map text ls))) m).1)
    → ((uid : ℕ) × (get_uid name searched ≡ some uid) × (said uid ls ≡ some name))
      ⊎ ((get_uid name searched ≡ none) × ((uid : ℕ) → said uid ls ≢ some name))
get_uid-load-text name ls m searched h unique same =
    let names : (uid : ℕ) → get_host uid searched ≡ said uid ls =
      λ uid. same uid ∙ (get_host-load-text uid ls m h).1 in
    elim (Option-cases (get_uid name searched)) [
      | inl missing ↦
          inr (missing, λ uid e. get_uid-found name uid searched (names uid ∙ e) missing)
      | inr (uid, found) ↦
          inl (uid, found, sym (names uid) ∙ get_host-get_uid name uid searched unique found)
    ]
