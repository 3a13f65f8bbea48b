-- ===== src/Control/Script/Whole.antt =====
-- A whole dump of a client as a script (ktuctl-rs/src/commands.rs).
use ktuctl_rs.Prelude.{
  ℕ, suc, ◌<◌, ◌≤◌, ◌≡◌, ◌≢◌, refl, ap, ◌∙◌, List, [], ◌∷◌, ◌++◌, map, Option, some, none, Bool,
  true, length, All,
}
use ktuctl_rs.Bytes.{Endian, Bytes, IsByte}
use ktuctl_rs.Text.{utf8}
use ktuctl_rs.Text.Whitespace.{white, blank_from, trim_start, trim_end, trim}
use ktuctl_rs.World.{World, Net, and_then, pure, ◌>>◌}
use ktuctl_rs.Protocol.Structs.{In6Addr, TutuEgress}
use ktuctl_rs.Control.UidMap.{UidMap}
use ktuctl_rs.Control.XorKey.{format_xor_key}
use ktuctl_rs.Control.Names.{GlobalFlags, resolve_hostname}
use ktuctl_rs.Control.AddressText.{ip_to_string}
use ktuctl_rs.Control.AddressText.Plain.{Safe}
use ktuctl_rs.Control.Options.RoundTrip.{client_words, user_or_uid}
use ktuctl_rs.Control.Listing.Lines.{dump_egress}
use ktuctl_rs.Control.Edit.{cmd_client, cmd_client_add}
use ktuctl_rs.Control.Script.{Outside, in_place, script_command, run_line, run_lines}
use ktuctl_rs.Control.Script.Solid.{IsWord}
use ktuctl_rs.Control.Script.OneLine.{SplitsWords, run_lines-joined}
use ktuctl_rs.Control.Script.DumpLine.{peer}
use ktuctl_rs.Control.Script.Restore.{run_lines-dump_egress}

-- A peer by what a dump prints of it; `user` is the name or number.
pub record Peer : Type 0 where
  pub named : Bool
  pub user : Bytes
  pub in6 : In6Addr
  pub port : ℕ
  pub key : Bytes
  pub key_len : ℕ
  pub comment : Bytes
  pub uid : ℕ
  pub map_flags : ℕ

abbrev pub entry_of : Endian → Peer → TutuEgress
entry_of en x = peer en x.in6 x.port x.key x.key_len x.comment x.uid x.map_flags

-- Its words need no quotes.
abbrev pub IsPlainPeer : GlobalFlags → UidMap → Peer → Type 0
IsPlainPeer flags m x =
    (resolve_hostname flags m x.uid true ≡ user_or_uid x.named ++ (b' ' ∷ x.user))
    × IsWord x.user
    × (ip_to_string x.in6 ≢ [])
    × (x.port < 65536)
    × All IsByte x.key
    × (length x.key ≡ 64)
    × Safe x.comment
    × (length x.comment ≤ 22)

trim-hash : (bs : Bytes) → trim (b'#' ∷ bs) ≡ b'#' ∷ trim_end bs
unfolding trim trim_start trim_end blank_from white
trim-hash [] = refl
trim-hash (a ∷ []) = refl
trim-hash (a ∷ b ∷ bs) = refl

module _ (en : Endian) (flags : GlobalFlags) (m : UidMap) (o : Outside) where
  -- A `client-add` for each peer, from the number `line` on, until one fails.
  pub add_peers : ℕ → List Peer → Net (Unit {0})
  add_peers line [] = pure tt
  add_peers line (x ∷ xs) =
      (λ w. in_place line 1 (utf8 "client-add") (
        cmd_client_add en flags m (o.lookup w)
          (client_words x.named x.user (ip_to_string x.in6) x.port (format_xor_key x.key x.key_len)
            x.comment)
          w))
      >> add_peers (suc line) xs

  abbrev pub dumped : List Peer → List (Option Bytes)
  dumped xs = map (λ x. some (dump_egress en flags m (entry_of en x))) xs

  module _ (splits : SplitsWords o) where
    add_peers-dumped :
        (line : ℕ) (xs : List Peer) (w : World)
        → All (IsPlainPeer flags m) xs
        → run_lines en flags m o line (dumped xs) w ≡ add_peers line xs w
    unfolding add_peers
    add_peers-dumped line [] w h = unfold run_lines in refl
    add_peers-dumped line (x ∷ xs) w ((host, hu, ha, small, bytes, size, safe, short), hs) =
        run_lines-dump_egress en flags m o x.named x.user x.comment x.key x.uid x.port x.key_len
          x.map_flags line x.in6 (dumped xs) w splits host hu ha small bytes size safe short
        ∙ ap
            (λ k.
              and_then
                (in_place line 1 (utf8 "client-add") (
                  cmd_client_add en flags m (o.lookup w)
                    (client_words x.named x.user (ip_to_string x.in6) x.port
                      (format_xor_key x.key x.key_len) x.comment)
                    w))
                (λ _. k))
            (λ i w'. add_peers-dumped (suc line) xs w' hs i)

  pub comment_line :
      (line : ℕ) (bs : Bytes) (rest : List (Option Bytes))
      → run_lines en flags m o line (some (b'#' ∷ bs) ∷ rest)
        ≡ run_lines en flags m o (suc line) rest
  unfolding run_lines run_line
  comment_line line bs rest = rw (trim-hash bs) refl

  pub blank_line :
      (line : ℕ) (rest : List (Option Bytes))
      → run_lines en flags m o line (some [] ∷ rest) ≡ run_lines en flags m o (suc line) rest
  unfolding run_lines run_line trim trim_start trim_end
  blank_line line rest = refl

  client_line :
      (line : ℕ) (rest : List (Option Bytes)) (w : World)
      → SplitsWords o
      → run_lines en flags m o line (some (utf8 "client") ∷ rest) w
        ≡ and_then
            (in_place line 1 (utf8 "client") (cmd_client en flags m (λ name. none) [] w))
            (λ _. run_lines en flags m o (suc line) rest)
  unfolding script_command
  client_line line rest w splits =
      run_lines-joined en flags m o splits line b'c' (utf8 "lient") (utf8 "client") [] rest w
        (((λ e. cc), (refl, (refl, (refl, (refl, (refl, (refl, tt))))))), tt) refl refl

  -- The lines of a whole `dump` in client mode, as a script: the head, whatever the time in it, and the
  -- blank line do nothing; then comes `client`, then a `client-add` for each peer in order, with the
  -- fields of its entry as the arguments and the number of its line around an error; and no command is
  -- run behind one that fails. The peers have 16 bits of port, a key of 64 bytes, an address that is
  -- not printed as an empty text, and a user and a comment of at most 22 bytes that need no quotes;
  -- `shlex::split` splits words that need no quotes at the spaces.
  pub run_lines-dumped :
      (time : Bytes) (xs : List Peer) (w : World)
      → SplitsWords o
      → All (IsPlainPeer flags m) xs
      → run_lines en flags m o 1
          (some (utf8 "#!/sbin/ktuctl script -")
            ∷ some (utf8 "# Auto-generated by \"ktuctl dump\" on " ++ time)
            ∷ some []
            ∷ some (utf8 "client")
            ∷ dumped xs)
          w
        ≡ and_then
            (in_place 4 1 (utf8 "client") (cmd_client en flags m (λ name. none) [] w))
            (λ _. add_peers 5 xs)
  run_lines-dumped time xs w splits plain =
      ap (λ k. k w)
        (comment_line 1 (utf8 "!/sbin/ktuctl script -") _
          ∙ comment_line 2 (utf8 " Auto-generated by \"ktuctl dump\" on " ++ time) _
          ∙ blank_line 3 _)
      ∙ client_line 4 (dumped xs) w splits
      ∙ ap
          (λ k.
            and_then (in_place 4 1 (utf8 "client") (cmd_client en flags m (λ name. none) [] w))
              (λ _. k))
          (λ i w'. add_peers-dumped splits 5 xs w' plain i)
