-- ===== src/Control/Options/RoundTrip.antt =====
-- The arguments that a dump gives the commands (ktuctl-rs/src/commands.rs).
use ktuctl_rs.Prelude.{
  ℕ, ◌<◌, ◌≡◌, refl, ap, ◌∙◌, List, [], ◌∷◌, ◌++◌, if◌then◌else◌, some, Bool, true, false, arith,
}
use ktuctl_rs.Bytes.{Bytes}
use ktuctl_rs.Number.{decimal, u16_max, parse_unsigned-decimal}
use ktuctl_rs.Outcome.{ok, ◌>>=◌}
use ktuctl_rs.Control.UidMap.{UidMap}
use ktuctl_rs.Control.Names.{resolve_uid}
use ktuctl_rs.Control.Options.{
  Word, Options, nothing_set, word_of, known, number, set_option, parse_options, client_add_words,
  server_add_words,
}
use ktuctl_rs.Control.Options.Words

parse_options-known :
    (m : UidMap) (knows : Word → Bool) (s v : Bytes) (rest : List Bytes) (w : Word) (o o' : Options)
    → known knows (word_of s) ≡ some w
    → set_option m w v o ≡ ok o'
    → parse_options m knows (s ∷ v ∷ rest) o ≡ parse_options m knows rest o'
unfolding parse_options
parse_options-known m knows s v rest w o o' k e = rw (k, parse_options) (rw e refl)

set_port :
    (m : UidMap) (n : ℕ) (o : Options)
    → n < 65536
    → set_option m Word.port (decimal n) o ≡ ok (record o { port = n })
unfolding set_option
set_port m n o h =
    ap (λ x. number x >>= λ k. ok (record o { port = k }))
      (parse_unsigned-decimal u16_max n (omega arith))

set_icmp_id :
    (m : UidMap) (n : ℕ) (o : Options)
    → n < 65536
    → set_option m Word.icmp_id (decimal n) o ≡ ok (record o { icmp_id = n })
unfolding set_option
set_icmp_id m n o h =
    ap (λ x. number x >>= λ k. ok (record o { icmp_id = k }))
      (parse_unsigned-decimal u16_max n (omega arith))

set_uid :
    (m : UidMap) (name : Bytes) (u : ℕ) (o : Options)
    → resolve_uid m name ≡ ok u
    → set_option m Word.uid name o ≡ ok (record o { uid = u; uid_set = true })
unfolding set_option
set_uid m name u o h = ap (λ x. x >>= λ k. ok (record o { uid = k; uid_set = true })) h

-- A word with its value, unless the value is empty.
abbrev pub optional : Bytes → Bytes → List Bytes
optional s [] = []
optional s (b ∷ v) = s ∷ (b ∷ v) ∷ []

-- "user" for a name and "uid" for a number.
abbrev pub user_or_uid : Bool → Bytes
user_or_uid named = if named then Words.user else Words.uid

abbrev pub last_words : Bytes → Bytes → List Bytes
last_words xor comment = optional Words.xor xor ++ optional Words.comment comment

abbrev pub client_words : Bool → Bytes → Bytes → ℕ → Bytes → Bytes → List Bytes
client_words named user address port xor comment =
    user_or_uid named
    ∷ user
    ∷ Words.addr
    ∷ address
    ∷ Words.port
    ∷ decimal port
    ∷ last_words xor comment

abbrev pub server_words : Bool → Bytes → Bytes → ℕ → ℕ → Bytes → Bytes → List Bytes
server_words named user address icmp_id port xor comment =
    user_or_uid named
    ∷ user
    ∷ Words.addr
    ∷ address
    ∷ Words.icmp_id
    ∷ decimal icmp_id
    ∷ Words.port
    ∷ decimal port
    ∷ last_words xor comment

-- The commands that know the words for a key and a comment.
abbrev KnowsLast : (Word → Bool) → Type 0
KnowsLast knows = (knows Word.xor ≡ true) × (knows Word.comment ≡ true)

known-xor :
    (knows : Word → Bool) → knows Word.xor ≡ true → known knows (word_of Words.xor) ≡ some Word.xor
unfolding word_of
known-xor knows h = rw h refl

known-comment :
    (knows : Word → Bool)
    → knows Word.comment ≡ true
    → known knows (word_of Words.comment) ≡ some Word.comment
unfolding word_of
known-comment knows h = rw h refl

parse_options-last_words :
    (m : UidMap) (knows : Word → Bool) (xor comment : Bytes) (o : Options)
    → KnowsLast knows
    → o.xor_hex ≡ []
    → o.comment ≡ []
    → parse_options m knows (last_words xor comment) o
      ≡ ok (record o { comment = comment; xor_hex = xor })
unfolding parse_options set_option
parse_options-last_words m knows [] [] o k hx hc = rw (hx, hc) refl
parse_options-last_words m knows [] (c ∷ comment) o (kx, kc) hx hc =
    parse_options-known m knows Words.comment (c ∷ comment) [] Word.comment o
      (record o { comment = c ∷ comment }) (known-comment knows kc) refl
    ∙ rw hx refl
parse_options-last_words m knows (x ∷ xor) [] o (kx, kc) hx hc =
    parse_options-known m knows Words.xor (x ∷ xor) [] Word.xor o (record o { xor_hex = x ∷ xor })
      (known-xor knows kx) refl
    ∙ rw hc refl
parse_options-last_words m knows (x ∷ xor) (c ∷ comment) o (kx, kc) hx hc =
    parse_options-known m knows Words.xor (x ∷ xor) (Words.comment ∷ (c ∷ comment) ∷ []) Word.xor o
      (record o { xor_hex = x ∷ xor }) (known-xor knows kx) refl
    ∙ parse_options-known m knows Words.comment (c ∷ comment) [] Word.comment
        (record o { xor_hex = x ∷ xor }) (record o { xor_hex = x ∷ xor; comment = c ∷ comment })
        (known-comment knows kc) refl

known-user : (named : Bool) → known client_add_words (word_of (user_or_uid named)) ≡ some Word.uid
unfolding word_of
known-user true = refl
known-user false = refl

known-user_server :
    (named : Bool) → known server_add_words (word_of (user_or_uid named)) ≡ some Word.uid
unfolding word_of
known-user_server true = refl
known-user_server false = refl

-- The arguments of `client-add`, as `dump` writes them: a user that resolves, an address, a port of 16
-- bits, and a key and a comment unless they are empty. The loop of `cmd_client_add` reads just these.
pub parse_options-client_words :
    (m : UidMap) (named : Bool) (user address xor comment : Bytes) (uid port : ℕ)
    → resolve_uid m user ≡ ok uid
    → port < 65536
    → parse_options m client_add_words
        (client_words named user address port xor comment)
        nothing_set
      ≡ ok (record {
        address = address;
        port = port;
        icmp_id = 0;
        uid = uid;
        uid_set = true;
        comment = comment;
        xor_hex = xor;
      })
unfolding word_of set_option
parse_options-client_words m named user address xor comment uid port h hp =
    let o₁ = record nothing_set { uid = uid; uid_set = true } in
    let o₂ = record o₁ { address = address } in
    let o₃ = record o₂ { port = port } in
    parse_options-known m client_add_words (user_or_uid named) user _ Word.uid nothing_set o₁
      (known-user named) (set_uid m user uid nothing_set h)
    ∙ parse_options-known m client_add_words Words.addr address _ Word.address o₁ o₂ refl refl
    ∙ parse_options-known m client_add_words Words.port (decimal port) _ Word.port o₂ o₃ refl
        (set_port m port o₂ hp)
    ∙ parse_options-last_words m client_add_words xor comment o₃ (refl, refl) refl refl

-- The arguments of `server-add`, as `dump` writes them, with an ICMP id of 16 bits besides.
pub parse_options-server_words :
    (m : UidMap) (named : Bool) (user address xor comment : Bytes) (uid icmp_id port : ℕ)
    → resolve_uid m user ≡ ok uid
    → icmp_id < 65536
    → port < 65536
    → parse_options m server_add_words
        (server_words named user address icmp_id port xor comment)
        nothing_set
      ≡ ok (record {
        address = address;
        port = port;
        icmp_id = icmp_id;
        uid = uid;
        uid_set = true;
        comment = comment;
        xor_hex = xor;
      })
unfolding word_of set_option
parse_options-server_words m named user address xor comment uid icmp_id port h hi hp =
    let o₁ = record nothing_set { uid = uid; uid_set = true } in
    let o₂ = record o₁ { address = address } in
    let o₃ = record o₂ { icmp_id = icmp_id } in
    let o₄ = record o₃ { port = port } in
    parse_options-known m server_add_words (user_or_uid named) user _ Word.uid nothing_set o₁
      (known-user_server named) (set_uid m user uid nothing_set h)
    ∙ parse_options-known m server_add_words Words.addr address _ Word.address o₁ o₂ refl refl
    ∙ parse_options-known m server_add_words Words.icmp_id (decimal icmp_id) _ Word.icmp_id o₂ o₃
        refl (set_icmp_id m icmp_id o₂ hi)
    ∙ parse_options-known m server_add_words Words.port (decimal port) _ Word.port o₃ o₄ refl
        (set_port m port o₃ hp)
    ∙ parse_options-last_words m server_add_words xor comment o₄ (refl, refl) refl refl
