-- ===== src/Tunnel/Dsl/RoundTrip.antt =====
-- Every setting can be given on the command line of tuctl-client/src/main.rs.
use ktuctl_rs.Prelude.{
  ℕ, ◌^◌, ◌≤◌, ◌<◌, ◌≡◌, refl, ap, ◌∙◌, List, [], ◌∷◌, Option, some, ltb-false, ==-false, length,
  arith,
}
use ktuctl_rs.Bytes.{Bytes}
use ktuctl_rs.Number.{decimal, u16_max, u32_max, parse_unsigned-decimal}
use ktuctl_rs.Tunnel.Dsl.{
  Family, Args, Dsl, Setting, Keyword, keyword, assign, set, parse_loop, parse_port, parse_window,
  Parsed, read_script, finish, parse_dsl_args, defaults,
}
use ktuctl_rs.Tunnel.Dsl.Words

abbrev pub family_words : Family → List Bytes
family_words Family.unspec = []
family_words Family.inet4 = Words.inet4 ∷ []
family_words Family.inet6 = Words.inet6 ∷ []

-- A command line that says everything, with the script from `path`.
abbrev pub command_words : Bytes → Args → List Bytes
command_words path a =
    Words.script
    ∷ path
    ∷ Words.psk
    ∷ a.psk
    ∷ Words.server
    ∷ a.server
    ∷ Words.server_port
    ∷ decimal a.server_port
    ∷ Words.window
    ∷ decimal a.window
    ∷ Words.max_retries
    ∷ decimal a.max_retries
    ∷ family_words a.family

parse_port-decimal : (n : ℕ) → 1 ≤ n → n < 65536 → parse_port (decimal n) ≡ some n
unfolding parse_port
parse_port-decimal n low high =
    rw (parse_unsigned-decimal u16_max n (omega arith), ==-false n 0 (omega arith)) refl

parse_window-decimal : (n : ℕ) → 1 ≤ n → n < 2 ^ 32 → parse_window (decimal n) ≡ some n
unfolding parse_window
parse_window-decimal n low high =
    rw (parse_unsigned-decimal u32_max n (omega arith), ==-false n 0 (omega arith)) refl

parse_loop-family :
    (f : Family) (d : Dsl)
    → d.family ≡ Family.unspec
    → parse_loop (family_words f) d ≡ some (record d { family = f })
unfolding parse_loop keyword
parse_loop-family Family.unspec d h = rw h
parse_loop-family Family.inet4 d h = refl
parse_loop-family Family.inet6 d h = refl

parse_loop_value :
    (tok v : Bytes) (rest : List Bytes) (s : Setting) (d d' : Dsl)
    → keyword tok ≡ Keyword.value s
    → set s v d ≡ some d'
    → parse_loop (tok ∷ v ∷ rest) d ≡ parse_loop rest d'
unfolding parse_loop
parse_loop_value tok v rest s d d' k e = rw (k, parse_loop) (rw e refl)

parse_loop-command_words :
    (path : Bytes) (a : Args)
    → 1 ≤ a.server_port
    → a.server_port < 65536
    → 1 ≤ a.window
    → a.window < 2 ^ 32
    → a.max_retries < 65536
    → parse_loop (command_words path a) defaults
      ≡ some (record {
        script = path;
        psk = some a.psk;
        server = a.server;
        server_port = a.server_port;
        family = a.family;
        window = a.window;
        max_retries = a.max_retries;
      })
unfolding keyword set
parse_loop-command_words path a p1 p2 w1 w2 r =
    parse_loop_value Words.script path _ Setting.script _ _ refl refl
    ∙ parse_loop_value Words.psk a.psk _ Setting.psk _ _ refl refl
    ∙ parse_loop_value Words.server a.server _ Setting.server _ _ refl refl
    ∙ parse_loop_value Words.server_port _ _ Setting.server_port _ _ refl
        (ap (assign _) (parse_port-decimal a.server_port p1 p2))
    ∙ parse_loop_value Words.window _ _ Setting.window _ _ refl
        (ap (assign _) (parse_window-decimal a.window w1 w2))
    ∙ parse_loop_value Words.max_retries _ _ Setting.max_retries _ _ refl
        (ap (assign _) (parse_unsigned-decimal u16_max a.max_retries (omega arith)))
    ∙ parse_loop-family a.family _ refl

-- The keywords followed by a key phrase of at least 8 bytes, a port from 1 to 65535, a window from
-- 1 to 2 ^ 32 - 1, a number of retries up to 65535, a server and, unless it is open, the family,
-- are read as just these settings, and the script is what `read_script` reads.
pub parse_dsl_args-command_words :
    (stdin : Option Bytes) (file : Bytes → Option Bytes) (path : Bytes) (a : Args)
    → 8 ≤ length a.psk
    → 1 ≤ a.server_port
    → a.server_port < 65536
    → 1 ≤ a.window
    → a.window < 2 ^ 32
    → a.max_retries < 65536
    → read_script stdin file path ≡ some a.script
    → parse_dsl_args stdin file (command_words path a) ≡ Parsed.parsed a
unfolding parse_dsl_args finish
parse_dsl_args-command_words stdin file path a k p1 p2 w1 w2 r h =
    rw (parse_loop-command_words path a p1 p2 w1 w2 r, parse_dsl_args)
      (rw (ltb-false (length a.psk) 8 (omega arith), h) refl)
