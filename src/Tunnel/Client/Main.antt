-- ===== src/Tunnel/Client/Main.antt =====
-- `main` of tuctl-client/src/main.rs, and what its exit code says.
use ktuctl_rs.Prelude.{
  ℕ, zero, suc, ◌≡◌, ◌⊎◌, refl, List, [], ◌∷◌, Option, none, some, ltb, length, take, Bool-cases,
  Option-cases, inl, inr,
}
use ktuctl_rs.Bytes.{Bytes}
use ktuctl_rs.Text.{from_utf8_lossy}
use ktuctl_rs.Tunnel.Replay.{ReplayWindow, new}
use ktuctl_rs.Tunnel.Packet.{Crypto, max_ct_size, min_len}
use ktuctl_rs.Tunnel.Packet.RoundTrip.{Result-cases}
use ktuctl_rs.Tunnel.Padding.{build_padded_cmd, remove_padding}
use ktuctl_rs.Tunnel.Dsl.{
  Args, Code, Parsed, Dsl, defaults, read_script, parse_loop, finish, failed, parsed,
  parse_dsl_args,
}
use ktuctl_rs.Tunnel.Client.{
  IpAddr, Round, Ran, Step, fail, resolve_ip_addr, encrypt_and_send_packet,
  decrypt_and_validate_packet, receive, exchange, round, retry_loop, run, setup_pwhash_memlimit,
  default_replay_max,
}
use ktuctl_rs.Tunnel.Client.Rounds.{
  exchange_received, retry_loop_stop, retry_loop_last, retry_loop_more,
}
use ktuctl_rs.Tunnel.Client.Retries.{Reply-cases, Step-cases}

-- The exit code: a negative number is 1.
unfoldable pub exit_code : Code → ℕ
exit_code Code.zero = 0
exit_code Code.minus_1 = 1
exit_code Code.minus_22 = 1

abbrev pub run_parsed : Crypto → Option Bytes → (ℕ → Round) → Parsed → Ran
run_parsed c limit rounds (failed code) = fail code []
run_parsed c limit rounds (parsed a) = run c limit a rounds

-- The exit code and the response that is shown.
unfoldable pub client_main :
    Crypto
    → Option Bytes
    → Option Bytes
    → (Bytes → Option Bytes)
    → List Bytes
    → (ℕ → Round)
    → ℕ × Option Bytes
unfolding parse_dsl_args run exit_code
client_main c limit stdin file args rounds =
    let ran = run_parsed c limit rounds (parse_dsl_args stdin file args) in
    (exit_code ran.code, ran.response)

-- 0 with a response, or 1 without one.
abbrev pub Tells : ℕ → Option Bytes → Type 0
Tells code response =
    (code ≡ 0) × ((text : Bytes) × (response ≡ some text)) ⊎ (code ≡ 1) × (response ≡ none)

abbrev Reports : Ran → Type 0
Reports ran = Tells (exit_code ran.code) ran.response

abbrev StepReports : Step → Type 0
StepReports (Step.stop ran) = Reports ran
StepReports (Step.retry sent rwin) = Unit {0}

fail-minus_1 : (sent : List (IpAddr × Bytes)) → Reports (fail Code.minus_1 sent)
unfolding exit_code
fail-minus_1 sent = inr (refl, refl)

fail-minus_22 : (sent : List (IpAddr × Bytes)) → Reports (fail Code.minus_22 sent)
unfolding exit_code
fail-minus_22 sent = inr (refl, refl)

module _ (c : Crypto) (psk : Bytes) (memlimit : ℕ) where
  receive-Reports :
      (r : Round) (sent : List (IpAddr × Bytes)) (rwin : ReplayWindow)
      → StepReports (receive c psk memlimit r sent rwin)
  unfolding receive exit_code
  receive-Reports r sent rwin = elim (Reply-cases r.reply) [
    | inl e ↦ rw e tt
    | inr (inl e) ↦ rw e (fail-minus_1 sent)
    | inr (inr (bs, e)) ↦ elim (Bool-cases (ltb (length (take max_ct_size bs)) min_len)) [
      | inl short ↦ rw (e, short) (fail-minus_22 sent)
      | inr long ↦
          elim (Result-cases
            (decrypt_and_validate_packet c psk memlimit r.now (take max_ct_size bs) rwin).0) [
              | inl (pt, opened) ↦
                  rw (e, long, opened) (inl (refl, (from_utf8_lossy (remove_padding pt), refl)))
              | inr (x, closed) ↦ rw (e, long, closed) (fail-minus_1 sent)
            ]
    ]
  ]

  exchange-Reports :
      (a : Args) (r : Round) (ip : IpAddr) (rwin : ReplayWindow)
      → StepReports (exchange c psk memlimit a r ip rwin)
  unfolding exchange
  exchange-Reports a r ip rwin =
      elim (Result-cases
        (encrypt_and_send_packet c psk memlimit (build_padded_cmd a.script r.random) r.ts r.salt
          r.nonce r.delivered rwin).0) [
            | inr (x, e) ↦ rw (e, exchange) (fail-minus_1 [])
            | inl (packet, e) ↦ elim (Bool-cases r.timeout_set) [
              | inl t ↦
                  rw (exchange_received c psk memlimit a r ip rwin packet e t)
                    (receive-Reports r ((ip, packet) ∷ []) _)
              | inr t ↦ rw (e, exchange) (rw t (fail-minus_1 ((ip, packet) ∷ [])))
            ]
          ]

  round-Reports :
      (a : Args) (r : Round) (rwin : ReplayWindow) → StepReports (round c psk memlimit a r rwin)
  unfolding round
  round-Reports a r rwin = elim (Bool-cases r.socket) [
    | inr s ↦ rw s (fail-minus_1 [])
    | inl s ↦ elim (Option-cases (resolve_ip_addr a.family r.literal r.addrs)) [
      | inl e ↦ rw (s, e) (fail-minus_1 [])
      | inr (ip, e) ↦ rw (s, e) (exchange-Reports a r ip rwin)
    ]
  ]

  retry_loop-Reports :
      (a : Args) (rounds : ℕ → Round) (left retries : ℕ) (rwin : ReplayWindow)
      → Reports (retry_loop c psk memlimit a rounds left retries rwin)
  retry_loop-Reports a rounds zero retries rwin =
      let one = round-Reports a (rounds retries) rwin in
      elim (Step-cases (round c psk memlimit a (rounds retries) rwin)) [
        | inl (ran, e) ↦
            rw (retry_loop_stop c psk memlimit a rounds 0 retries rwin ran e) (rw e at one)
        | inr (sent, rwin', e) ↦
            rw (retry_loop_last c psk memlimit a rounds retries rwin rwin' sent e)
              (fail-minus_1 sent)
      ]
  retry_loop-Reports a rounds (suc left) retries rwin =
      let one = round-Reports a (rounds retries) rwin in
      elim (Step-cases (round c psk memlimit a (rounds retries) rwin)) [
        | inl (ran, e) ↦
            rw (retry_loop_stop c psk memlimit a rounds (suc left) retries rwin ran e) (rw e at one)
        | inr (sent, rwin', e) ↦
            let later = retry_loop-Reports a rounds left (suc retries) rwin' in
            rw (retry_loop_more c psk memlimit a rounds left retries rwin rwin' sent e) later
      ]

run-Reports :
    (c : Crypto) (limit : Option Bytes) (a : Args) (rounds : ℕ → Round)
    → Reports (run c limit a rounds)
unfolding run
run-Reports c limit a rounds =
    retry_loop-Reports c a.psk (setup_pwhash_memlimit limit) a rounds a.max_retries 0
      (new a.window default_replay_max)

-- What the parser gives: arguments, or one of the two negative codes.
abbrev Refuses : Parsed → Type 0
Refuses (parsed a) = Unit {0}
Refuses (failed code) = exit_code code ≡ 1

finish-Refuses :
    (stdin : Option Bytes) (file : Bytes → Option Bytes) (d : Dsl) → Refuses (finish stdin file d)
unfolding finish exit_code
finish-Refuses stdin file d = elim (Option-cases d.psk) [
  | inl e ↦ rw e refl
  | inr (phrase, e) ↦ elim (Bool-cases (ltb (length phrase) 8)) [
    | inl short ↦ rw (e, short) refl
    | inr long ↦ elim (Option-cases (read_script stdin file d.script)) [
      | inl unread ↦ rw (e, long, unread) refl
      | inr (content, read) ↦ rw (e, long, read) tt
    ]
  ]
]

parse_dsl_args-Refuses :
    (stdin : Option Bytes) (file : Bytes → Option Bytes) (args : List Bytes)
    → Refuses (parse_dsl_args stdin file args)
unfolding parse_dsl_args exit_code
parse_dsl_args-Refuses stdin file args = elim (Option-cases (parse_loop args defaults)) [
  | inl e ↦ rw (e, parse_dsl_args) refl
  | inr (d, e) ↦ rw (e, parse_dsl_args) (finish-Refuses stdin file d)
]

run_parsed-Reports :
    (c : Crypto) (limit : Option Bytes) (rounds : ℕ → Round) (p : Parsed)
    → Refuses p
    → Reports (run_parsed c limit rounds p)
run_parsed-Reports c limit rounds (parsed a) h = run-Reports c limit a rounds
run_parsed-Reports c limit rounds (failed code) h = inr (h, refl)

-- Whatever the arguments, and whatever each round finds, `main` of the client ends with the exit code
-- 0 and a response on show, or with the exit code 1 and no response.
pub client_main-Tells :
    (c : Crypto) (limit stdin : Option Bytes) (file : Bytes → Option Bytes) (args : List Bytes)
    (rounds : ℕ → Round)
    → Tells
        (client_main c limit stdin file args rounds).0
        (client_main c limit stdin file args rounds).1
unfolding client_main
client_main-Tells c limit stdin file args rounds =
    run_parsed-Reports c limit rounds (parse_dsl_args stdin file args)
      (parse_dsl_args-Refuses stdin file args)
