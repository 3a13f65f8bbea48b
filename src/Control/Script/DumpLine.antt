-- ===== src/Control/Script/DumpLine.antt =====
-- The words of a line that `cmd_dump` of ktuctl-rs/src/commands.rs prints for a peer.
use ktuctl_rs.Prelude.{
  ℕ, zero, suc, Bool-cases, inl, inr, append-nil, append_assoc, All-append, ◌<◌, ◌≤◌, ◌≡◌, ◌≢◌,
  refl, sym, ap, ◌∙◌, [], ◌∷◌, ◌++◌, some, Bool, true, false, ltb, ◌=b◌, if◌then◌else◌, length,
  take, replicate, All, All-take, arith,
}
use ktuctl_rs.Bytes.{Endian, Bytes, IsByte, htons, ntohs-htons}
use ktuctl_rs.Text.{utf8, from_utf8_lossy, until_nul}
use ktuctl_rs.Number.{decimal, parse_unsigned, parse_unsigned-decimal}
use ktuctl_rs.Protocol.Structs.{In6Addr, TutuEgress}
use ktuctl_rs.Control.UidMap.{UidMap}
use ktuctl_rs.Control.XorKey.{format_xor_key, format_bytes}
use ktuctl_rs.Control.Comment.{copy_comment, format_comment, IsPlain, format_comment-copy_comment}
use ktuctl_rs.Control.Names.{GlobalFlags, resolve_hostname}
use ktuctl_rs.Control.AddressText.{ip_to_string}
use ktuctl_rs.Control.AddressText.Plain.{is_safe, Safe, decimal-Safe, format_bytes-Safe}
use ktuctl_rs.Control.Options.RoundTrip.{client_words, last_words, user_or_uid, optional}
use ktuctl_rs.Control.Options.Words
use ktuctl_rs.Control.Listing.Lines.{dump_egress, xor_words}
use ktuctl_rs.Control.Script.Solid.{IsWord, joined}

-- A word and its value behind a space each, unless the value is empty.
abbrev pub spaced : Bytes → Bytes → Bytes
spaced s [] = []
spaced s (b ∷ v) = b' ' ∷ (s ++ (b' ' ∷ b ∷ v))

-- The end of a line of `dump`: a key and a comment unless they are empty.
pub joined-last_words :
    (d xor comment : Bytes)
    → joined (d ∷ last_words xor comment)
      ≡ d ++ (spaced (utf8 "xor") xor ++ spaced (utf8 "comment") comment)
joined-last_words d [] [] = sym (append-nil d)
joined-last_words d [] (c ∷ comment) = refl
joined-last_words d (x ∷ xor) [] =
    ap (λ v. d ++ (b' ' ∷ (utf8 "xor" ++ (b' ' ∷ x ∷ v)))) (sym (append-nil xor))
joined-last_words d (x ∷ xor) (c ∷ comment) = refl

pub spaced-xor_words :
    (key : Bytes) (n : ℕ)
    → length key ≡ 64
    → xor_words key n ≡ spaced (utf8 "xor") (format_xor_key key n)
unfolding xor_words format_xor_key format_bytes
spaced-xor_words key zero h = refl
spaced-xor_words [] (suc n) h = absurd (omega arith)
spaced-xor_words (b ∷ key) (suc n) h =
    let some_key : ltb 0 (suc n) ≡ true = ground arith in rw (some_key, if◌then◌else◌) refl

IsSafe-IsPlain : (bs : Bytes) → Safe bs → All IsPlain bs
IsSafe-IsPlain [] h = tt
IsSafe-IsPlain (b ∷ bs) (hb, h) =
    let some_byte : b ≢ 0 = ground (arith, hb) in
    let ascii : b < 0x80 = ground (arith, hb) in ((some_byte, ascii), IsSafe-IsPlain bs h)

pub spaced-format_comment :
    (c : Bytes)
    → Safe c
    → length c ≤ 22
    → format_comment (copy_comment c) true ≡ spaced (utf8 "comment") c
spaced-format_comment [] safe short =
    unfold format_comment in
    unfold copy_comment in unfold from_utf8_lossy in unfold until_nul in refl
spaced-format_comment (b ∷ c) safe short =
    (format_comment-copy_comment b c (IsSafe-IsPlain (b ∷ c) safe) short).0

unfoldable pub all_safe : Bytes → Bool
all_safe [] = true
all_safe (b ∷ bs) = if is_safe b then all_safe bs else false

all_safe-Safe : (bs : Bytes) → all_safe bs ≡ true → Safe bs
unfolding all_safe
all_safe-Safe [] h = tt
all_safe-Safe (b ∷ bs) h = elim (Bool-cases (is_safe b)) [
  | inl safe ↦ (safe, all_safe-Safe bs (rw (safe, if◌then◌else◌) at h))
  | inr other ↦ cc (rw (other, if◌then◌else◌) at h)
]

-- A literal.
pub literal_IsWord : (bs : Bytes) → (bs =b []) ≡ false → all_safe bs ≡ true → IsWord bs
literal_IsWord [] e h = cc
literal_IsWord (b ∷ bs) e h = (λ e'. cc, all_safe-Safe (b ∷ bs) h)

pub user_or_uid-IsWord : (named : Bool) → IsWord (user_or_uid named)
unfolding all_safe
user_or_uid-IsWord true = literal_IsWord Words.user refl refl
user_or_uid-IsWord false = literal_IsWord Words.uid refl refl

optional-IsWord : (s v : Bytes) → IsWord s → Safe v → All IsWord (optional s v)
optional-IsWord s [] hs h = tt
optional-IsWord s (b ∷ v) hs h = (hs, (((λ e. cc), h), tt))

pub decimal-IsWord : (n : ℕ) → IsWord (decimal n)
unfolding parse_unsigned
decimal-IsWord n = (
  λ e.
      let read : some n ≡ parse_unsigned n [] =
        sym (parse_unsigned-decimal n n (omega arith)) ∙ ap (parse_unsigned n) e in
      cc,
  decimal-Safe n,
)

-- An entry of a peer, as `cmd_client_add` makes them.
abbrev pub peer : Endian → In6Addr → ℕ → Bytes → ℕ → Bytes → ℕ → ℕ → TutuEgress
peer en in6 port key n comment uid map_flags = record {
  key = record { address = in6; port = htons en port; pad0 = replicate 2 0 };
  value = record { xor_key = key; comment = copy_comment comment; xor_key_len = n; uid = uid };
  pad0 = replicate 4 0;
  map_flags = map_flags;
}

-- The last words of such a line are plain.
pub last_words-IsWord :
    (key comment : Bytes) (n : ℕ)
    → All IsByte key
    → Safe comment
    → All IsWord (last_words (format_xor_key key n) comment)
unfolding format_xor_key all_safe
last_words-IsWord key comment n bytes safe =
    All-append IsWord (optional Words.xor (format_bytes (take n key)))
      (optional Words.comment comment)
      (optional-IsWord Words.xor _ (literal_IsWord Words.xor refl refl)
        (format_bytes-Safe (take n key) (All-take IsByte n key bytes)))
      (optional-IsWord Words.comment comment (literal_IsWord Words.comment refl refl) safe)

-- Each word of such a line is plain.
pub client_words-IsWord :
    (named : Bool) (user address comment key : Bytes) (port n : ℕ)
    → IsWord user
    → IsWord address
    → All IsByte key
    → Safe comment
    → All IsWord
        (utf8 "client-add" ∷ client_words named user address port (format_xor_key key n) comment)
unfolding format_xor_key all_safe
client_words-IsWord named user address comment key port n hu ha bytes safe =
    let last = last_words-IsWord key comment n bytes safe in
    (
      literal_IsWord (utf8 "client-add") refl refl,
      (
        user_or_uid-IsWord named,
        (
          hu,
          (
            literal_IsWord Words.addr refl refl,
            (ha, (literal_IsWord Words.port refl refl, (decimal-IsWord port, last))),
          ),
        ),
      ),
    )

module _ (en : Endian) (flags : GlobalFlags) (m : UidMap) where
  pub dump_egress-joined :
      (named : Bool) (user comment key : Bytes) (uid port n map_flags : ℕ) (in6 : In6Addr)
      → resolve_hostname flags m uid true ≡ user_or_uid named ++ (b' ' ∷ user)
      → port < 65536
      → length key ≡ 64
      → Safe comment
      → length comment ≤ 22
      → dump_egress en flags m (peer en in6 port key n comment uid map_flags)
        ≡ joined (
            utf8 "client-add"
            ∷ client_words named user (ip_to_string in6) port (format_xor_key key n) comment)
  unfolding dump_egress
  dump_egress-joined named user comment key uid port n map_flags in6 host small size safe short =
      rw
        (
          host,
          ntohs-htons en port small,
          spaced-xor_words key n size,
          spaced-format_comment comment safe short,
          joined-last_words (decimal port) (format_xor_key key n) comment,
        )
        (ap (λ x. utf8 "client-add " ++ x) (append_assoc (user_or_uid named) (b' ' ∷ user) _))
