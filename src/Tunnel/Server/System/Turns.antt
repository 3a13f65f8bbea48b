-- ===== src/Tunnel/Server/System/Turns.antt =====
-- What the server's tasks do to the record of packets (tuctl-server/src/main.rs).
use ktuctl_rs.Prelude.{
  ℕ, ◌+◌, ◌^◌, ◌≤◌, ◌<◌, ◌≡◌, refl, sym, ap, ◌∙◌, List, [], ◌∷◌, ◌++◌, arith, Bool-cases,
  Option-cases, inl, inr, length, false,
}
use ktuctl_rs.Bytes.{Bytes}
use ktuctl_rs.Tunnel.Replay.{ReplayWindow, replay_check, replay_add}
use ktuctl_rs.Tunnel.Replay.Window.{IsTime}
use ktuctl_rs.Tunnel.Replay.Once.{
  Turn, check, add, turn, turns, adds, Until, check_limits, replay_add-once,
}
use ktuctl_rs.Tunnel.Packet.{Crypto, Failure, ok, err, encrypt_packet, decrypt_packet}
use ktuctl_rs.Tunnel.Packet.RoundTrip.{Result-cases}
use ktuctl_rs.Tunnel.Padding.{remove_padding, pad_response}
use ktuctl_rs.Tunnel.RateLimiter.{Float, SocketAddr}
use ktuctl_rs.Tunnel.Server.{Env, Word, Child, Chance, accept, respond, execute_command}
use ktuctl_rs.Tunnel.Server.Once.{accept_err, accept_good, accept_bad}
use ktuctl_rs.Tunnel.Server.System.{opened}

-- What happened to the record: turns that end by `last` and add at most `k` entries.
abbrev pub Turned : ℕ → ℕ → ReplayWindow → ReplayWindow → Type 0
Turned last k w w' = (ts : List Turn) × (w' ≡ turns ts w) × Until last ts × (adds ts ≤ k)

turns-append : (xs ys : List Turn) (w : ReplayWindow) → turns (xs ++ ys) w ≡ turns ys (turns xs w)
unfolding turns
turns-append [] ys w = refl
turns-append (x ∷ xs) ys w = turns-append xs ys (turn x w)

adds-append : (xs ys : List Turn) → adds (xs ++ ys) ≡ adds xs + adds ys
adds-append [] ys = omega arith
adds-append (check now ts nonce ∷ xs) ys = adds-append xs ys
adds-append (add ts nonce ∷ xs) ys = omega (arith, adds-append xs ys)

Until-append :
    (last : ℕ) (xs ys : List Turn) → Until last xs → Until last ys → Until last (xs ++ ys)
Until-append last [] ys hx hy = hy
Until-append last (check now ts nonce ∷ xs) ys (h, hx) hy = (h, Until-append last xs ys hx hy)
Until-append last (add ts nonce ∷ xs) ys hx hy = Until-append last xs ys hx hy

pub Turned-trans :
    (last j k : ℕ) (w w' w'' : ReplayWindow)
    → Turned last j w w'
    → Turned last k w' w''
    → Turned last (j + k) w w''
Turned-trans last j k w w' w'' (xs, ex, ux, ax) (ys, ey, uy, ay) = (
  xs ++ ys,
  ey ∙ ap (turns ys) ex ∙ sym (turns-append xs ys w),
  Until-append last xs ys ux uy,
  omega (arith, adds-append xs ys),
)

module _ (c : Crypto) (psk : Bytes) (memlimit : ℕ) (last : ℕ) where
  -- `accept` checks the record once, and adds an entry for a packet that it takes.
  pub accept-Turned :
      (f : Float) (ten five : f.F) (now : ℕ) (peer : SocketAddr) (packet : Bytes) (w : ReplayWindow)
      → now ≤ last
      → Turned last
          (length (opened c f ten five peer (accept c psk memlimit now packet w).0))
          w
          (accept c psk memlimit now packet w).1
  unfolding turns turn
  accept-Turned f ten five now peer packet w h =
      elim (Result-cases (decrypt_packet c psk memlimit packet)) [
        | inr (failure, d) ↦
            rw (accept_err c psk memlimit now packet w failure d) ([], refl, tt, omega arith)
        | inl ((pt, nonce, ts), d) ↦ elim (Bool-cases (replay_check now ts nonce w).0) [
          | inl good ↦
              rw (accept_good c psk memlimit now packet pt nonce ts w d good)
                (check now ts nonce ∷ add ts nonce ∷ [], refl, (h, tt), omega arith)
          | inr bad ↦
              rw (accept_bad c psk memlimit now packet pt nonce ts w d bad)
                (check now ts nonce ∷ [], refl, (h, tt), omega arith)
        ]
      ]

  pub respond-Turned :
      (env : Env) (child : List Word → Bytes → Child) (chance : Chance) (pt : Bytes)
      (w : ReplayWindow)
      → Turned last 1 w (respond c psk memlimit env child chance pt w).replay
        × (length (respond c psk memlimit env child chance pt w).executed ≡ 1)
  unfolding respond turns turn
  respond-Turned env child chance pt w =
      elim (Option-cases (execute_command env child (remove_padding pt))) [
        | inl failed ↦ rw (failed, respond) (([], refl, tt, omega arith), refl)
        | inr (resp, done) ↦
            elim (Result-cases (
              encrypt_packet c psk memlimit (pad_response resp chance.random) chance.ts chance.salt
                chance.nonce)) [
                  | inr (failure, e) ↦ rw (done, e, respond) (([], refl, tt, omega arith), refl)
                  | inl ((enc, nonce, ts), e) ↦
                      rw (done, e, respond) ((add ts nonce ∷ [], refl, tt, omega arith), refl)
                ]
      ]

  -- A packet that was taken is refused after turns that add fewer entries than the record holds.
  pub accept-refused :
      (packet pt nonce : Bytes) (ts first k : ℕ) (w w' : ReplayWindow)
      → decrypt_packet c psk memlimit packet ≡ ok (pt, nonce, ts)
      → (accept c psk memlimit first packet w).0 ≡ ok pt
      → IsTime ts
      → IsTime last
      → w.window < 2 ^ 32
      → k < w.max_size
      → Turned last k (accept c psk memlimit first packet w).1 w'
      → (accept c psk memlimit last packet w').0 ≡ err Failure.replay_window
  accept-refused packet pt nonce ts first k w w' d taken ht hl hw hk (between, now, until, few) =
      elim (Bool-cases (replay_check first ts nonce w).0) [
        | inr bad ↦ cc (rw (accept_bad c psk memlimit first packet pt nonce ts w d bad) at taken)
        | inl good ↦
            let limits = check_limits first ts nonce w in
            let state : w' ≡ turns between (replay_add ts nonce (replay_check first ts nonce w).1) =
              rw (accept_good c psk memlimit first packet pt nonce ts w d good) at now in
            let seen : (replay_check last ts nonce w').0 ≡ false = rw state (
              replay_add-once ts nonce last hl ht between (replay_check first ts nonce w).1
                (omega (arith, limits)) until (omega (arith, limits))) in
            ap (λ r. r.0) (accept_bad c psk memlimit last packet pt nonce ts w' d seen)
      ]
