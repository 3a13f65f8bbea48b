-- ===== src/Tunnel/Server/System/Limits.antt =====
-- The limits of the record (tuctl-server/src/main.rs).
use ktuctl_rs.Prelude.{
  ℕ, ◌≤◌, ◌≡◌, refl, List, [], ◌∷◌, length, arith, Bool-cases, Option-cases, inl, inr, ap, ◌∙◌,
}
use ktuctl_rs.Bytes.{Bytes}
use ktuctl_rs.Tunnel.Clock.{lt_i64, abs_i64, sub_i64}
use ktuctl_rs.Tunnel.Replay.{ReplayWindow, replay_check, replay_add, is_live}
use ktuctl_rs.Tunnel.Replay.Once.{length-retain-le}
use ktuctl_rs.Tunnel.Replay.Window.{replay_add-newest}
use ktuctl_rs.Tunnel.Packet.{Crypto, ok, encrypt_packet, decrypt_packet}
use ktuctl_rs.Tunnel.Packet.RoundTrip.{Result-cases}
use ktuctl_rs.Tunnel.Padding.{remove_padding, pad_response}
use ktuctl_rs.Tunnel.Server.{Env, Word, Child, Chance, accept, respond, execute_command}
use ktuctl_rs.Tunnel.Server.Once.{accept_err, accept_good, accept_bad}

-- The record has the limits of the command line, and keeps to its size.
abbrev pub IsLimited : ℕ → ℕ → ReplayWindow → Type 0
IsLimited window max_size w =
    (w.window ≡ window) × (w.max_size ≡ max_size) × (length w.entries ≤ max_size)

check-IsLimited :
    (window max_size now ts : ℕ) (nonce : Bytes) (w : ReplayWindow)
    → IsLimited window max_size w
    → IsLimited window max_size (replay_check now ts nonce w).1
unfolding replay_check
check-IsLimited window max_size now ts nonce w (hw, hm, hl) =
    elim (Bool-cases (lt_i64 w.window (abs_i64 (sub_i64 now ts)))) [
      | inl far ↦ rw far (hw, hm, hl)
      | inr near ↦
          rw near
            (hw, hm, omega (arith, length-retain-le ts nonce (is_live w.window now) w.entries))
    ]

add-IsLimited :
    (window max_size ts : ℕ) (nonce : Bytes) (w : ReplayWindow)
    → IsLimited window max_size w
    → IsLimited window max_size (replay_add ts nonce w)
add-IsLimited window max_size ts nonce w (hw, hm, hl) =
    let (entries, size, same_window, same_max) = replay_add-newest ts nonce w in
    (same_window ∙ hw, same_max ∙ hm, omega (arith, size, hm))

module _ (c : Crypto) (psk : Bytes) (memlimit : ℕ) where
  -- The packet has the plaintext in it.
  abbrev pub Opens : Bytes → Bytes → Type 0
  Opens packet pt =
      (nonce : Bytes) × (ts : ℕ) × (decrypt_packet c psk memlimit packet ≡ ok (pt, nonce, ts))

  pub accept-Opens :
      (now : ℕ) (packet pt : Bytes) (w : ReplayWindow)
      → (accept c psk memlimit now packet w).0 ≡ ok pt
      → Opens packet pt
  accept-Opens now packet pt w e = elim (Result-cases (decrypt_packet c psk memlimit packet)) [
    | inr (failure, d) ↦ cc (rw (accept_err c psk memlimit now packet w failure d) at e)
    | inl ((pt', nonce, ts), d) ↦ elim (Bool-cases (replay_check now ts nonce w).0) [
      | inl good ↦
          let same : ok pt' ≡ ok pt =
            rw (accept_good c psk memlimit now packet pt' nonce ts w d good) at e in
          let same_pt : pt' ≡ pt = cc in (nonce, ts, d ∙ ap (λ x. ok (x, nonce, ts)) same_pt)
      | inr bad ↦ cc (rw (accept_bad c psk memlimit now packet pt' nonce ts w d bad) at e)
    ]
  ]

  pub accept-IsLimited :
      (window max_size now : ℕ) (packet : Bytes) (w : ReplayWindow)
      → IsLimited window max_size w
      → IsLimited window max_size (accept c psk memlimit now packet w).1
  accept-IsLimited window max_size now packet w h =
      elim (Result-cases (decrypt_packet c psk memlimit packet)) [
        | inr (failure, d) ↦ rw (accept_err c psk memlimit now packet w failure d) h
        | inl ((pt, nonce, ts), d) ↦
            let checked = check-IsLimited window max_size now ts nonce w h in
            elim (Bool-cases (replay_check now ts nonce w).0) [
              | inl good ↦
                  rw (accept_good c psk memlimit now packet pt nonce ts w d good)
                    (add-IsLimited window max_size ts nonce (replay_check now ts nonce w).1 checked)
              | inr bad ↦ rw (accept_bad c psk memlimit now packet pt nonce ts w d bad) checked
            ]
      ]

  -- `respond` runs the command without its padding, and keeps to the limits.
  pub respond-IsLimited :
      (window max_size : ℕ) (env : Env) (child : List Word → Bytes → Child) (chance : Chance)
      (pt : Bytes) (w : ReplayWindow)
      → IsLimited window max_size w
      → IsLimited window max_size (respond c psk memlimit env child chance pt w).replay
        × ((respond c psk memlimit env child chance pt w).executed ≡ remove_padding pt ∷ [])
  unfolding respond
  respond-IsLimited window max_size env child chance pt w h =
      elim (Option-cases (execute_command env child (remove_padding pt))) [
        | inl failed ↦ rw (failed, respond) (h, refl)
        | inr (resp, done) ↦
            elim (Result-cases (
              encrypt_packet c psk memlimit (pad_response resp chance.random) chance.ts chance.salt
                chance.nonce)) [
                  | inr (failure, e) ↦ rw (done, e, respond) (h, refl)
                  | inl ((enc, nonce, ts), e) ↦
                      rw (done, e, respond) (add-IsLimited window max_size ts nonce w h, refl)
                ]
      ]
