-- ===== src/Control/Script/Reload/Users.antt =====
-- What `dump` prints in server mode, as the standard input of `script` (ktuctl-rs/src/commands.rs).
use ktuctl_rs.Prelude.{
  ℕ, ◌+◌, ◌≤◌, ◌≡◌, refl, ap, ◌∙◌, subst, sym, List, [], ◌∷◌, ◌++◌, append_assoc, map, none, some,
  false, ◌==◌, All, All-append, arith,
}
use ktuctl_rs.Bytes.{Endian, Bytes}
use ktuctl_rs.Text.{utf8}
use ktuctl_rs.Text.Lines.{text_of, lines, IsLine, lines-text_of}
use ktuctl_rs.Number.{decimal}
use ktuctl_rs.Outcome.{ok}
use ktuctl_rs.World.{World, Conversation, and_then}
use ktuctl_rs.Protocol.Constants.{
  nlm_f_request, nlm_f_dump, tutu_cmd_get_config, tutu_attr_config, tutu_cmd_get_user_info,
  tutu_attr_user_info,
}
use ktuctl_rs.Protocol.Structs.{TutuConfig, tutu_config_layout, tutu_user_info_layout}
use ktuctl_rs.Netlink.Kernel.{IsFamily, asked, AnswersStruct, AnswersDump, struct_said, dump_said}
use ktuctl_rs.Control.UidMap.{UidMap}
use ktuctl_rs.Control.Names.{GlobalFlags}
use ktuctl_rs.Control.Options.Words
use ktuctl_rs.Control.Edit.{config, set_config}
use ktuctl_rs.Control.Edit.Users.{cmd_server-max_age}
use ktuctl_rs.Control.Listing.{cmd_dump}
use ktuctl_rs.Control.Listing.Lines.{dump_head, dump_user}
use ktuctl_rs.Control.Listing.Answered.{server_dump}
use ktuctl_rs.Control.Listing.Dumped.{cmd_dump-server}
use ktuctl_rs.Control.Script.{Outside, in_place, run_lines, cmd_script}
use ktuctl_rs.Control.Script.Solid.{joined, joined-Solid}
use ktuctl_rs.Control.Script.OneLine.{SplitsWords}
use ktuctl_rs.Control.Script.DumpLine.{all_safe, literal_IsWord, decimal-IsWord}
use ktuctl_rs.Control.Script.Users.{
  User, user_entry, IsPlainUser, words_of_user, words_of_user-IsWord, dump_user-joined, add_users,
  run_lines-dumped_users,
}
use ktuctl_rs.Control.Script.Reload.{map-map, Solid-IsLine, text_of-blank}

max_age-IsLine : (age : ℕ) → IsLine (utf8 "server max-age " ++ decimal age)
unfolding all_safe
max_age-IsLine age = Solid-IsLine (joined (utf8 "server" ∷ Words.max_age ∷ decimal age ∷ [])) (
    joined-Solid (utf8 "server") (Words.max_age ∷ decimal age ∷ []) (
      literal_IsWord (utf8 "server") refl refl,
      (literal_IsWord Words.max_age refl refl, (decimal-IsWord age, tt)),
    ))

module _ (en : Endian) (flags : GlobalFlags) (m : UidMap) where
  abbrev user_line : User → Bytes
  user_line x = dump_user en flags m (user_entry en x)

  user_line-IsLine : (x : User) → IsPlainUser flags m x → IsLine (user_line x)
  user_line-IsLine x h = subst IsLine (sym (dump_user-joined en flags m x h)) (
      Solid-IsLine (joined (utf8 "server-add" ∷ words_of_user x))
        (joined-Solid (utf8 "server-add") (words_of_user x) (words_of_user-IsWord en flags m x h)))

  user_lines-IsLine :
      (xs : List User) → All (IsPlainUser flags m) xs → All IsLine (map user_line xs)
  user_lines-IsLine [] h = tt
  user_lines-IsLine (x ∷ xs) (h, hs) = (user_line-IsLine x h, user_lines-IsLine xs hs)

  -- The lines of a dump on standard input.
  dump_on_stdin :
      (time : Bytes) (age : ℕ) (xs : List User)
      → IsLine time
      → All (IsPlainUser flags m) xs
      → lines (text_of (server_dump en flags m time age (map (user_entry en) xs)))
        ≡ utf8 "#!/sbin/ktuctl script -"
          ∷ (utf8 "# Auto-generated by \"ktuctl dump\" on " ++ time)
          ∷ []
          ∷ (utf8 "server max-age " ++ decimal age)
          ∷ []
          ∷ map user_line xs
  dump_on_stdin time age xs ht h =
      let stamp : Bytes = utf8 "# Auto-generated by \"ktuctl dump\" on " in
      let first : Bytes = utf8 "server max-age " ++ decimal age in
      let users : List Bytes = map user_line xs in
      ap lines (
        ap
          (λ ls.
            text_of
              (dump_head time ++ ((utf8 "server max-age " ++ (decimal age ++ utf8 "\n")) ∷ ls)))
          (map-map (dump_user en flags m) (user_entry en) xs)
        ∙ ap (λ l. text_of (dump_head time ++ (l ∷ users)))
            (sym (append_assoc (utf8 "server max-age ") (decimal age) (b'\n' ∷ [])))
        ∙ ap
            (λ bs.
              utf8 "#!/sbin/ktuctl script -"
              ++ (b'\n' ∷ ((stamp ++ (time ++ (b'\n' ∷ []))) ++ (b'\n' ∷ bs))))
            (text_of-blank first users)
        ∙ ap (λ bs. utf8 "#!/sbin/ktuctl script -" ++ (b'\n' ∷ bs))
            (ap (λ l. text_of (l ∷ first ∷ [] ∷ users)) (sym (append_assoc stamp time (b'\n' ∷ [])))
              ∙ text_of-blank (stamp ++ time) (first ∷ [] ∷ users)))
      ∙ lines-text_of _ (
        omega arith,
        (
          All-append (λ b. 32 ≤ b) stamp time (omega arith) ht,
          (tt, (max_age-IsLine age, (tt, user_lines-IsLine xs h))),
        ),
      )

  module _ (o : Outside) (id pid : ℕ) (family : IsFamily id) (time : Bytes) (args : List Bytes)
      (cfg : TutuConfig) (c : AnswersStruct en (tutu_config_layout en) id tutu_attr_config pid cfg)
      (xs : List User)
      (k : AnswersDump en
        (tutu_user_info_layout en)
        id
        tutu_attr_user_info
        pid
        (map (user_entry en) xs))
      (rest : List Conversation) (w w' : World) where
    -- In server mode `script -` reads back what `dump` prints. Against a kernel that has the users,
    -- `dump` succeeds, and what it prints, given to `script -` as its standard input, sends the
    -- configuration with server mode and the maximal age and then, for each user in order, runs
    -- `server-add` with the fields of its entry, an error with the number of its line around it, and no
    -- command behind one that fails. The users have 16 bits of ICMP id and of port, a key of 64 bytes, an
    -- address that is not printed as an empty text, a name and a comment that need no quotes, the comment
    -- of at most 22 bytes; the time has no bytes below 32; and `shlex::split` splits words that need no
    -- quotes at the spaces.
    pub cmd_script-cmd_dump_server :
        (cfg.is_server == 0) ≡ false
        → SplitsWords o
        → IsLine time
        → All (IsPlainUser flags m) xs
        → o.stdin
          ≡ map some (
              lines (
                text_of (server_dump en flags m time cfg.session_max_age (map (user_entry en) xs))))
        → (cmd_dump en flags m time args (record w {
          conversations =
              struct_said en (tutu_config_layout en) id tutu_attr_config pid c
              ∷ dump_said en (tutu_user_info_layout en) id tutu_attr_user_info pid k
              ∷ rest;
        })
            ≡ (
              ok tt,
              record w {
                conversations = rest;
                sent =
                    asked en id
                      (nlm_f_request + nlm_f_dump)
                      tutu_cmd_get_user_info
                      (asked en id nlm_f_request tutu_cmd_get_config w.sent);
                printed =
                    w.printed
                    ++ server_dump en flags m time cfg.session_max_age (map (user_entry en) xs);
              },
            ))
          × (cmd_script en flags m o (utf8 "-" ∷ []) w'
              ≡ and_then
                  (in_place 4 1
                    (utf8 "server")
                    (set_config en flags m (λ name. none) (config cfg.session_max_age 1) w'))
                  (λ _. add_users en flags m o 6 xs))
    unfolding cmd_script
    cmd_script-cmd_dump_server server splits ht h input = (
      cmd_dump-server en flags m id pid family w time args cfg c rest k server,
      ap (λ ls. run_lines en flags m o 1 ls w')
            (input
              ∙ ap (map some) (dump_on_stdin time cfg.session_max_age xs ht h)
              ∙ ap
                  (λ ls.
                    some (utf8 "#!/sbin/ktuctl script -")
                    ∷ some (utf8 "# Auto-generated by \"ktuctl dump\" on " ++ time)
                    ∷ some []
                    ∷ some (utf8 "server max-age " ++ decimal cfg.session_max_age)
                    ∷ some []
                    ∷ ls)
                  (map-map some user_line xs))
          ∙ run_lines-dumped_users en flags m o splits time cfg.session_max_age xs w' h
          ∙ ap (λ r. and_then (in_place 4 1 (utf8 "server") r) (λ _. add_users en flags m o 6 xs))
              (cmd_server-max_age en flags m (λ name. none) cfg.session_max_age w'
                (omega (arith, c.valid.0))),
    )
