-- ===== src/Control/Script/Reload.antt =====
-- What `dump` prints, as the standard input of `script` (ktuctl-rs/src/commands.rs).
pub mod Users
use ktuctl_rs.Prelude.{
  ℕ, ◌≤◌, ◌≡◌, ◌≢◌, refl, ap, ◌∙◌, subst, sym, List, [], ◌∷◌, ◌++◌, append_assoc, map, some, true,
  false, not, ◌==◌, ==-false, inl, inr, All, All-append, arith, none, ◌+◌, if◌then◌else◌,
}
use ktuctl_rs.Bytes.{Endian, Bytes, ntohs, ntohs-htons}
use ktuctl_rs.Text.{utf8}
use ktuctl_rs.Text.Lines.{text_of, lines, IsLine, lines-text_of}
use ktuctl_rs.Outcome.{ok}
use ktuctl_rs.World.{World, Conversation, and_then}
use ktuctl_rs.Protocol.Constants.{
  nlm_f_request, nlm_f_dump, tutu_cmd_get_config, tutu_attr_config, tutu_cmd_get_egress,
  tutu_attr_egress,
}
use ktuctl_rs.Protocol.Structs.{TutuConfig, tutu_config_layout, tutu_egress_layout}
use ktuctl_rs.Netlink.Kernel.{IsFamily, asked, AnswersStruct, AnswersDump, struct_said, dump_said}
use ktuctl_rs.Control.UidMap.{UidMap}
use ktuctl_rs.Control.Names.{GlobalFlags}
use ktuctl_rs.Control.XorKey.{format_xor_key}
use ktuctl_rs.Control.AddressText.{ip_to_string}
use ktuctl_rs.Control.AddressText.Plain.{ip_to_string-Safe}
use ktuctl_rs.Control.Options.RoundTrip.{client_words}
use ktuctl_rs.Control.Edit.{cmd_client}
use ktuctl_rs.Control.Listing.{cmd_dump}
use ktuctl_rs.Control.Listing.Lines.{dump_head, dump_egress}
use ktuctl_rs.Control.Listing.Answered.{peer_lines, client_dump}
use ktuctl_rs.Control.Listing.Dumped.{cmd_dump-client}
use ktuctl_rs.Control.Script.{Outside, in_place, run_lines, cmd_script}
use ktuctl_rs.Control.Script.Solid.{Solid, joined, joined-Solid}
use ktuctl_rs.Control.Script.OneLine.{SplitsWords}
use ktuctl_rs.Control.Script.DumpLine.{dump_egress-joined, client_words-IsWord}
use ktuctl_rs.Control.Script.Whole.{Peer, entry_of, IsPlainPeer, add_peers, run_lines-dumped}

pub map-map :
    {A B C : Type 0} (f : B → C) (g : A → B) (xs : List A)
    → map f (map g xs) ≡ map (λ x. f (g x)) xs
map-map f g [] = refl
map-map f g (x ∷ xs) = ap (◌∷◌ (f (g x))) (map-map f g xs)

pub Solid-IsLine : (bs : Bytes) → Solid bs → IsLine bs
Solid-IsLine [] h = tt
Solid-IsLine (b ∷ []) h = (ground (arith, h), tt)
Solid-IsLine (b ∷ c ∷ bs) (inl h, hs) = (ground (arith, h), Solid-IsLine (c ∷ bs) hs)
Solid-IsLine (b ∷ c ∷ bs) (inr h, hs) = (omega (arith, h), Solid-IsLine (c ∷ bs) hs)

-- The text of a line with a newline of its own is that of the line and an empty one.
pub text_of-blank :
    (line : Bytes) (rest : List Bytes)
    → text_of ((line ++ (b'\n' ∷ [])) ∷ rest) ≡ text_of (line ∷ [] ∷ rest)
text_of-blank line rest = append_assoc line (b'\n' ∷ []) (b'\n' ∷ text_of rest)

module _ (en : Endian) (flags : GlobalFlags) (m : UidMap) where
  abbrev line_of : Peer → Bytes
  line_of x = dump_egress en flags m (entry_of en x)

  abbrev words_of : Peer → List Bytes
  words_of x =
      client_words x.named x.user (ip_to_string x.in6) x.port (format_xor_key x.key x.key_len)
        x.comment

  line_of-IsLine : (x : Peer) → IsPlainPeer flags m x → IsLine (line_of x)
  line_of-IsLine x (host, hu, ha, small, bytes, size, safe, short) =
      subst IsLine
        (sym (
          dump_egress-joined en flags m x.named x.user x.comment x.key x.uid x.port x.key_len
            x.map_flags x.in6 host small size safe short))
        (Solid-IsLine (joined (utf8 "client-add" ∷ words_of x)) (
          joined-Solid (utf8 "client-add") (words_of x) (
            client_words-IsWord x.named x.user (ip_to_string x.in6) x.comment x.key x.port x.key_len
              hu (ha, ip_to_string-Safe x.in6) bytes safe)))

  lines_of-IsLine : (xs : List Peer) → All (IsPlainPeer flags m) xs → All IsLine (map line_of xs)
  lines_of-IsLine [] h = tt
  lines_of-IsLine (x ∷ xs) (h, hs) = (line_of-IsLine x h, lines_of-IsLine xs hs)

  peer_lines-entries :
      (xs : List Peer)
      → All (IsPlainPeer flags m) xs
      → All (λ x. x.port ≢ 0) xs
      → peer_lines en (dump_egress en flags m) (map (entry_of en) xs) ≡ map line_of xs
  peer_lines-entries [] h hp = refl
  peer_lines-entries (x ∷ xs) (h, hs) (hp, hps) =
      let port : (ntohs en (entry_of en x).key.port == 0) ≡ false =
        ap (λ n. n == 0) (ntohs-htons en x.port h.3) ∙ ==-false x.port 0 hp in
      let rest = peer_lines en (dump_egress en flags m) (map (entry_of en) xs) in
      ap (λ b. if not b then line_of x ∷ rest else rest) port
      ∙ ap (◌∷◌ (line_of x)) (peer_lines-entries xs hs hps)

  -- The lines of a dump on standard input.
  dump_on_stdin :
      (time : Bytes) (xs : List Peer)
      → IsLine time
      → All (IsPlainPeer flags m) xs
      → All (λ x. x.port ≢ 0) xs
      → lines (text_of (client_dump en flags m time (map (entry_of en) xs)))
        ≡ utf8 "#!/sbin/ktuctl script -"
          ∷ (utf8 "# Auto-generated by \"ktuctl dump\" on " ++ time)
          ∷ []
          ∷ utf8 "client"
          ∷ map line_of xs
  dump_on_stdin time xs ht h hp =
      ap lines (
        ap (λ ls. text_of (dump_head time ++ (utf8 "client" ∷ ls))) (peer_lines-entries xs h hp)
        ∙ ap (λ bs. utf8 "#!/sbin/ktuctl script -" ++ (b'\n' ∷ bs))
            (ap (λ l. text_of (l ∷ utf8 "client" ∷ map line_of xs))
                (sym
                  (append_assoc (utf8 "# Auto-generated by \"ktuctl dump\" on ") time (b'\n' ∷ [])))
              ∙ text_of-blank (utf8 "# Auto-generated by \"ktuctl dump\" on " ++ time)
                  (utf8 "client" ∷ map line_of xs)))
      ∙ lines-text_of _ (
        omega arith,
        (
          All-append (λ b. 32 ≤ b) (utf8 "# Auto-generated by \"ktuctl dump\" on ") time
              (omega arith) ht,
          (tt, (omega arith, lines_of-IsLine xs h)),
        ),
      )

  module _ (o : Outside) (id pid : ℕ) (family : IsFamily id) (time : Bytes) (args : List Bytes)
      (cfg : TutuConfig) (c : AnswersStruct en (tutu_config_layout en) id tutu_attr_config pid cfg)
      (xs : List Peer)
      (k : AnswersDump en (tutu_egress_layout en) id tutu_attr_egress pid (map (entry_of en) xs))
      (rest : List Conversation) (w w' : World) where
    -- In client mode `script -` reads back what `dump` prints. Against a kernel that has the entries of
    -- the peers, `dump` succeeds, and what it prints, given to `script -` as its standard input, runs
    -- `client` and then, for each peer in order, `client-add` with the fields of its entry, an error
    -- with the number of its line around it, and no command behind one that fails. The peers have ports
    -- from 1 to 65535, a key of 64 bytes, an address that is not printed as an empty text, a user and a
    -- comment that need no quotes, the comment of at most 22 bytes; the time has no bytes below 32; and
    -- `shlex::split` splits words that need no quotes at the spaces.
    pub cmd_script-cmd_dump :
        (cfg.is_server == 0) ≡ true
        → SplitsWords o
        → IsLine time
        → All (IsPlainPeer flags m) xs
        → All (λ x. x.port ≢ 0) xs
        → o.stdin ≡ map some (lines (text_of (client_dump en flags m time (map (entry_of en) xs))))
        → (cmd_dump en flags m time args (record w {
          conversations =
              struct_said en (tutu_config_layout en) id tutu_attr_config pid c
              ∷ dump_said en (tutu_egress_layout en) id tutu_attr_egress pid k
              ∷ rest;
        })
            ≡ (
              ok tt,
              record w {
                conversations = rest;
                sent =
                    asked en id
                      (nlm_f_request + nlm_f_dump)
                      tutu_cmd_get_egress
                      (asked en id nlm_f_request tutu_cmd_get_config w.sent);
                printed = w.printed ++ client_dump en flags m time (map (entry_of en) xs);
              },
            ))
          × (cmd_script en flags m o (utf8 "-" ∷ []) w'
              ≡ and_then
                  (in_place 4 1 (utf8 "client") (cmd_client en flags m (λ name. none) [] w'))
                  (λ _. add_peers en flags m o 5 xs))
    unfolding cmd_script
    cmd_script-cmd_dump client splits ht h hp input = (
      cmd_dump-client en flags m id pid family w time args cfg c rest k client,
      ap (λ ls. run_lines en flags m o 1 ls w')
            (input
              ∙ ap (map some) (dump_on_stdin time xs ht h hp)
              ∙ ap
                  (λ ls.
                    some (utf8 "#!/sbin/ktuctl script -")
                    ∷ some (utf8 "# Auto-generated by \"ktuctl dump\" on " ++ time)
                    ∷ some []
                    ∷ some (utf8 "client")
                    ∷ ls)
                  (map-map some line_of xs))
          ∙ run_lines-dumped en flags m o time xs w' splits h,
    )
