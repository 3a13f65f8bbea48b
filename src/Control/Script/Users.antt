-- ===== src/Control/Script/Users.antt =====
-- A dump of a server as a script (ktuctl-rs/src/commands.rs).
use ktuctl_rs.Prelude.{
  ℕ, suc, ◌<◌, ◌≤◌, ◌≡◌, ◌≢◌, refl, ap, ◌∙◌, List, [], ◌∷◌, ◌++◌, append_assoc, map, Option, some,
  none, Bool, true, length, All, replicate,
}
use ktuctl_rs.Bytes.{Endian, Bytes, IsByte, htons, ntohs-htons}
use ktuctl_rs.Text.{utf8}
use ktuctl_rs.Number.{decimal}
use ktuctl_rs.World.{World, Net, and_then, pure, ◌>>◌}
use ktuctl_rs.Protocol.Structs.{In6Addr, TutuUserInfo}
use ktuctl_rs.Control.UidMap.{UidMap}
use ktuctl_rs.Control.XorKey.{format_xor_key}
use ktuctl_rs.Control.Comment.{copy_comment}
use ktuctl_rs.Control.Names.{GlobalFlags, resolve_hostname}
use ktuctl_rs.Control.AddressText.{ip_to_string}
use ktuctl_rs.Control.AddressText.Plain.{Safe, ip_to_string-Safe}
use ktuctl_rs.Control.Options.RoundTrip.{server_words, user_or_uid}
use ktuctl_rs.Control.Options.Words
use ktuctl_rs.Control.Listing.Lines.{dump_user}
use ktuctl_rs.Control.Edit.{cmd_server, cmd_server_add}
use ktuctl_rs.Control.Script.{Outside, in_place, script_command, run_lines}
use ktuctl_rs.Control.Script.Solid.{IsWord, joined}
use ktuctl_rs.Control.Script.OneLine.{SplitsWords, run_lines-joined}
use ktuctl_rs.Control.Script.DumpLine.{
  joined-last_words, spaced-xor_words, spaced-format_comment, all_safe, literal_IsWord,
  user_or_uid-IsWord, decimal-IsWord, last_words-IsWord,
}
use ktuctl_rs.Control.Script.Whole.{comment_line, blank_line}

-- A user by what a dump prints of it; `user` is the name or number.
pub record User : Type 0 where
  pub named : Bool
  pub user : Bytes
  pub in6 : In6Addr
  pub icmp_id : ℕ
  pub port : ℕ
  pub key : Bytes
  pub key_len : ℕ
  pub comment : Bytes
  pub uid : ℕ
  pub map_flags : ℕ

abbrev pub user_entry : Endian → User → TutuUserInfo
user_entry en x = record {
  uid = x.uid;
  pad0 = replicate 3 0;
  value = record {
    address = x.in6;
    icmp_id = htons en x.icmp_id;
    dport = htons en x.port;
    comment = copy_comment x.comment;
    xor_key = x.key;
    xor_key_len = x.key_len;
    reserved2 = replicate 7 0;
    pad1 = replicate 2 0;
  };
  map_flags = x.map_flags;
}

-- Its words need no quotes.
abbrev pub IsPlainUser : GlobalFlags → UidMap → User → Type 0
IsPlainUser flags m x =
    (resolve_hostname flags m x.uid true ≡ user_or_uid x.named ++ (b' ' ∷ x.user))
    × IsWord x.user
    × (ip_to_string x.in6 ≢ [])
    × (x.icmp_id < 65536)
    × (x.port < 65536)
    × All IsByte x.key
    × (length x.key ≡ 64)
    × Safe x.comment
    × (length x.comment ≤ 22)

abbrev pub words_of_user : User → List Bytes
words_of_user x =
    server_words x.named x.user (ip_to_string x.in6) x.icmp_id x.port
      (format_xor_key x.key x.key_len) x.comment

module _ (en : Endian) (flags : GlobalFlags) (m : UidMap) where
  pub words_of_user-IsWord :
      (x : User) → IsPlainUser flags m x → All IsWord (utf8 "server-add" ∷ words_of_user x)
  unfolding all_safe
  words_of_user-IsWord x (host, hu, ha, small_id, small, bytes, size, safe, short) = (
    literal_IsWord (utf8 "server-add") refl refl,
    (
      user_or_uid-IsWord x.named,
      (
        hu,
        (
          literal_IsWord Words.addr refl refl,
          (
            (ha, ip_to_string-Safe x.in6),
            (
              literal_IsWord Words.icmp_id refl refl,
              (
                decimal-IsWord x.icmp_id,
                (
                  literal_IsWord Words.port refl refl,
                  (decimal-IsWord x.port, last_words-IsWord x.key x.comment x.key_len bytes safe),
                ),
              ),
            ),
          ),
        ),
      ),
    ),
  )

  pub dump_user-joined :
      (x : User)
      → IsPlainUser flags m x
      → dump_user en flags m (user_entry en x) ≡ joined (utf8 "server-add" ∷ words_of_user x)
  unfolding dump_user
  dump_user-joined x (host, hu, ha, small_id, small, bytes, size, safe, short) =
      rw
        (
          host,
          ntohs-htons en x.icmp_id small_id,
          ntohs-htons en x.port small,
          spaced-xor_words x.key x.key_len size,
          spaced-format_comment x.comment safe short,
          joined-last_words (decimal x.port) (format_xor_key x.key x.key_len) x.comment,
        )
        (ap (λ t. utf8 "server-add " ++ t) (append_assoc (user_or_uid x.named) (b' ' ∷ x.user) _))

  module _ (o : Outside) where
    -- A `server-add` for each user, from the number `line` on, until one fails.
    pub add_users : ℕ → List User → Net (Unit {0})
    add_users line [] = pure tt
    add_users line (x ∷ xs) =
        (λ w.
          in_place line 1 (utf8 "server-add")
            (cmd_server_add en flags m (o.lookup w) (words_of_user x) w))
        >> add_users (suc line) xs

    abbrev pub dumped_users : List User → List (Option Bytes)
    dumped_users xs = map (λ x. some (dump_user en flags m (user_entry en x))) xs

    module _ (splits : SplitsWords o) where
      run_lines-dump_user :
          (line : ℕ) (x : User) (rest : List (Option Bytes)) (w : World)
          → IsPlainUser flags m x
          → run_lines en flags m o line (some (dump_user en flags m (user_entry en x)) ∷ rest) w
            ≡ and_then
                (in_place line 1
                  (utf8 "server-add")
                  (cmd_server_add en flags m (o.lookup w) (words_of_user x) w))
                (λ _. run_lines en flags m o (suc line) rest)
      unfolding script_command
      run_lines-dump_user line x rest w h =
          ap (λ text. run_lines en flags m o line (some text ∷ rest) w) (dump_user-joined x h)
          ∙ run_lines-joined en flags m o splits line b's' _ (utf8 "server-add") (words_of_user x)
              rest w (words_of_user-IsWord x h) refl refl

      add_users-dumped :
          (line : ℕ) (xs : List User) (w : World)
          → All (IsPlainUser flags m) xs
          → run_lines en flags m o line (dumped_users xs) w ≡ add_users line xs w
      unfolding add_users
      add_users-dumped line [] w h = unfold run_lines in refl
      add_users-dumped line (x ∷ xs) w (h, hs) =
          run_lines-dump_user line x (dumped_users xs) w h
          ∙ ap
              (λ k.
                and_then
                  (in_place line 1 (utf8 "server-add")
                    (cmd_server_add en flags m (o.lookup w) (words_of_user x) w))
                  (λ _. k))
              (λ i w'. add_users-dumped (suc line) xs w' hs i)

      server_line :
          (line age : ℕ) (rest : List (Option Bytes)) (w : World)
          → run_lines en flags m o line (some (utf8 "server max-age " ++ decimal age) ∷ rest) w
            ≡ and_then
                (in_place line 1
                  (utf8 "server")
                  (cmd_server en flags m (λ name. none) (Words.max_age ∷ decimal age ∷ []) w))
                (λ _. run_lines en flags m o (suc line) rest)
      unfolding script_command all_safe
      server_line line age rest w =
          run_lines-joined en flags m o splits line b's' _ (utf8 "server")
            (Words.max_age ∷ decimal age ∷ []) rest w
            (
              literal_IsWord (utf8 "server") refl refl,
              (literal_IsWord Words.max_age refl refl, (decimal-IsWord age, tt)),
            )
            refl refl

      -- The lines of a whole `dump` in server mode, as a script.
      pub run_lines-dumped_users :
          (time : Bytes) (age : ℕ) (xs : List User) (w : World)
          → All (IsPlainUser flags m) xs
          → run_lines en flags m o 1
              (some (utf8 "#!/sbin/ktuctl script -")
                ∷ some (utf8 "# Auto-generated by \"ktuctl dump\" on " ++ time)
                ∷ some []
                ∷ some (utf8 "server max-age " ++ decimal age)
                ∷ some []
                ∷ dumped_users xs)
              w
            ≡ and_then
                (in_place 4 1
                  (utf8 "server")
                  (cmd_server en flags m (λ name. none) (Words.max_age ∷ decimal age ∷ []) w))
                (λ _. add_users 6 xs)
      run_lines-dumped_users time age xs w plain =
          ap (λ k. k w)
            (comment_line en flags m o 1 (utf8 "!/sbin/ktuctl script -") _
              ∙ comment_line en flags m o 2 (utf8 " Auto-generated by \"ktuctl dump\" on " ++ time)
                  _
              ∙ blank_line en flags m o 3 _)
          ∙ server_line 4 age (some [] ∷ dumped_users xs) w
          ∙ ap
              (λ k.
                and_then
                  (in_place 4 1 (utf8 "server")
                    (cmd_server en flags m (λ name. none) (Words.max_age ∷ decimal age ∷ []) w))
                  (λ _. k))
              (blank_line en flags m o 5 (dumped_users xs)
                ∙ (λ i w'. add_users-dumped 6 xs w' plain i))
