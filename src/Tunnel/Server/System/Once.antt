-- ===== src/Tunnel/Server/System/Once.antt =====
-- No packet is handled twice by the server's tasks (tuctl-server/src/main.rs).
use ktuctl_rs.Prelude.{
  ℕ, suc, ◌+◌, ◌*◌, ◌^◌, ◌≤◌, ◌<◌, ◌≡◌, refl, ap, ◌∙◌, List, [], ◌∷◌, ◌++◌, Option, arith, Bool,
  length, length-append, append-nil,
}
use ktuctl_rs.Bytes.{Bytes}
use ktuctl_rs.Tunnel.Replay.Window.{IsTime}
use ktuctl_rs.Tunnel.Replay.Once.{turns}
use ktuctl_rs.Tunnel.Packet.{Crypto, Failure, ok, err, decrypt_packet}
use ktuctl_rs.Tunnel.RateLimiter.{Float, SocketAddr}
use ktuctl_rs.Tunnel.Server.{accept, respond}
use ktuctl_rs.Tunnel.Server.System.Origin.{start-Reach}
use ktuctl_rs.Tunnel.Server.System.{
  Args, Task, State, Step, Reach, start, listening, here, next, receives, accepts, responds,
  received, accepted, responded, opened,
}
use ktuctl_rs.Tunnel.Server.System.Turns.{
  Turned-trans, accept-Turned, respond-Turned, accept-refused, Turned,
}

module _ (c : Crypto) (f : Float) (ten five : f.F) where
  -- The packets that were accepted and the responses that were begun, which bound what was added to
  -- the record.
  abbrev pub work : State c f ten five → ℕ
  work s = length s.handling + 2 * length s.executed

  -- No packet is checked at a time behind `last`.
  abbrev StepBy : ℕ → {s t : State c f ten five} → Step c f ten five s t → Type 0
  StepBy last (receives s now r) = Unit {0}
  StepBy last (accepts s now before after task e) = now ≤ last
  StepBy last (responds s env child chance before after task e) = Unit {0}

  abbrev pub By : ℕ → {s t : State c f ten five} → Reach c f ten five s t → Type 0
  By last here = Unit {0}
  By last (next r step) = By last r × StepBy last step

  -- What the steps did to the record, and that the key is the same.
  abbrev Kept : ℕ → State c f ten five → State c f ten five → Type 0
  Kept last s t =
      (t.psk ≡ s.psk)
      × (t.memlimit ≡ s.memlimit)
      × ((k : ℕ) × (work t ≡ work s + k) × Turned last k s.replay t.replay)

  length-removed :
      (before after : List Task) (task : Task)
      → length (before ++ (task ∷ after)) ≡ suc (length (before ++ after))
  length-removed before after task =
      omega (arith, length-append before (task ∷ after), length-append before after)

  Step-Kept :
      (last : ℕ) {s t : State c f ten five} (step : Step c f ten five s t)
      → StepBy last step
      → Kept last s t
  unfolding received accepted responded turns
  Step-Kept last (receives s now r) by = (refl, refl, (0, omega arith, ([], refl, tt, omega arith)))
  Step-Kept last (accepts s now before after (peer, packet) e) by =
      let result = (accept c s.psk s.memlimit now packet s.replay).0 in
      (
        refl,
        refl,
        (
          length (opened c f ten five peer result),
          omega (arith, length-append s.handling (opened c f ten five peer result)),
          accept-Turned c s.psk s.memlimit last f ten five now peer packet s.replay by,
        ),
      )
  Step-Kept last (responds s env child chance before after (peer, pt) e) by =
      let (turned, ran) = respond-Turned c s.psk s.memlimit last env child chance pt s.replay in
      let shorter : length s.handling ≡ suc (length (before ++ after)) =
        ap length e ∙ length-removed before after (peer, pt) in
      (
        refl,
        refl,
        (
          1,
          omega (
            arith,
            shorter,
            ran,
            length-append s.executed
                (respond c s.psk s.memlimit env child chance pt s.replay).executed,
          ),
          turned,
        ),
      )

  Reach-Kept :
      (last : ℕ) {s t : State c f ten five} (r : Reach c f ten five s t) → By last r → Kept last s t
  Reach-Kept last {s} here by =
      (refl, refl, (0, omega arith, ([], unfold turns in refl, tt, omega arith)))
  Reach-Kept last {s} {t = u} (next {t} r step) (by, on) =
      let (key, memory, (j, worked, turned)) = Reach-Kept last r by in
      let (key', memory', (k, worked', turned')) = Step-Kept last step on in
      (
        key' ∙ key,
        memory' ∙ memory,
        (
          j + k,
          omega (arith, worked, worked'),
          Turned-trans last j k s.replay t.replay u.replay turned turned',
        ),
      )

module _ (c : Crypto) (f : Float) (ten five : f.F) (args : Args) (limit : Option Bytes) where
  -- No packet is handled twice. In a run from the start of the server, a task takes a packet; later,
  -- at the time `last`, a task with the same packet, from whatever address, gets the lock. It ends
  -- without being handled. In between, the other tasks may receive, accept and respond in any order,
  -- if they check no packet at a time behind `last`, and if what they accept and begin to respond to
  -- is less than the record holds (`replay_max`). Times are below 2 ^ 62 and the window is below
  -- 2 ^ 32.
  pub start-once :
      (bound : Bool) (s t u : State c f ten five) (peer peer' : SocketAddr)
      (packet pt nonce : Bytes) (ts first last : ℕ) (rest rest' : List Task)
      → start c f ten five args limit bound ≡ listening s
      → Reach c f ten five s t
      → decrypt_packet c t.psk t.memlimit packet ≡ ok (pt, nonce, ts)
      → (accept c t.psk t.memlimit first packet t.replay).0 ≡ ok pt
      → IsTime ts
      → IsTime last
      → args.window < 2 ^ 32
      → (r : Reach c f ten five (accepted c f ten five first (peer, packet) rest t) u)
      → By c f ten five last r
      → work c f ten five u ≤ work c f ten five t + args.replay_max
      → (accepted c f ten five last (peer', packet) rest' u).handling ≡ u.handling
  unfolding accepted
  start-once bound s t u peer peer' packet pt nonce ts first last rest rest' e reached d taken ht hl
        hw r by few =
      let (long, same, (window, max_size, size), fair, runs, answers) =
        start-Reach c f ten five args limit bound s t e reached in
      let (key, memory, (k, worked, turned)) = Reach-Kept c f ten five last r by in
      let one : length
            (opened c f ten five peer (accept c t.psk t.memlimit first packet t.replay).0)
          ≡ 1 =
        rw taken refl in
      let fewer : k < t.replay.max_size = omega (
        arith,
        worked,
        one,
        max_size,
        few,
        length-append t.handling
            (opened c f ten five peer (accept c t.psk t.memlimit first packet t.replay).0),
      ) in
      let refused : (accept c t.psk t.memlimit last packet u.replay).0 ≡ err Failure.replay_window =
        accept-refused c t.psk t.memlimit last packet pt nonce ts first k t.replay u.replay d taken
          ht hl (omega (arith, window)) fewer turned in
      rw (key, memory, refused) (append-nil u.handling)
