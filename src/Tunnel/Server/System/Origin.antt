-- ===== src/Tunnel/Server/System/Origin.antt =====
-- What every reachable state of tuctl-server/src/main.rs has in common.
use ktuctl_rs.Prelude.{
  ℕ, ◌≤◌, ◌≡◌, refl, List, ◌∷◌, ◌++◌, Option, Bool, true, false, ltb, if◌then◌else◌, length, arith,
  Bool-cases, inl, inr, ◌∙◌, subst, All, All-append, All-imp, All-taken,
}
use ktuctl_rs.Bytes.{Bytes}
use ktuctl_rs.Tunnel.Replay.{new}
use ktuctl_rs.Tunnel.Packet.{Crypto}
use ktuctl_rs.Tunnel.RateLimiter.{Float, Received, admit}
use ktuctl_rs.Tunnel.RateLimiter.Fair.{WithinBurst}
use ktuctl_rs.Tunnel.Client.{setup_pwhash_memlimit}
use ktuctl_rs.Tunnel.RateLimiter.Admit.{admit-WithinBurst}
use ktuctl_rs.Tunnel.Server.{Env, Word, Child, Chance, accept, respond}
use ktuctl_rs.Tunnel.Server.System.{
  Args, Task, State, listening, initial, start, tasks, received, accepted, responded, Step,
  receives, accepts, responds, Reach, here, next,
}
use ktuctl_rs.Tunnel.Server.System.Limits.{
  IsLimited, accept-Opens, accept-IsLimited, respond-IsLimited,
}
use ktuctl_rs.Tunnel.Server.System.Authentic.{
  In-append, Authentic-append, Answers-append, map-Answers, opened-Authentic, tasks-In, In,
  Authentic, Commanded, Answers,
}

module _ (c : Crypto) (f : Float) (ten five : f.F) (args : Args) (memlimit : ℕ) where
  -- The parts of a sound state: the key and the limits of the command line, the rate of the limiter,
  -- the tasks, and the commands that were run.
  pub record IsSound (s : State c f ten five) : Type 0 where
    pub key : s.psk ≡ args.psk
    pub memory : s.memlimit ≡ memlimit
    pub limited : IsLimited args.window args.replay_max s.replay
    pub burst : s.limiter.burst_tokens ≡ ten
    pub fair : WithinBurst f s.limiter.burst_tokens s.limiter.map
    pub waits : All (λ t. In t s.admitted) s.waiting
    pub handles : All (Authentic c s.psk s.memlimit s.admitted) s.handling
    pub runs : All (Commanded c s.psk s.memlimit s.admitted) s.executed
    pub answers : All (Answers s.admitted) s.sent

  initial-IsSound : IsSound (initial c f ten five args memlimit)
  unfolding new
  initial-IsSound = record {
    key = refl;
    memory = refl;
    limited = (refl, refl, omega arith);
    burst = refl;
    fair = tt;
    waits = tt;
    handles = tt;
    runs = tt;
    answers = tt;
  }

  received-IsSound :
      (now : ℕ) (r : Received f) (s : State c f ten five)
      → IsSound s
      → IsSound (received c f ten five now r s)
  unfolding received
  received-IsSound now r s h =
      let more = tasks c f ten five (admit f now r s.limiter).0 in
      let (same, within) = admit-WithinBurst f now r s.limiter h.fair in
      record {
        key = h.key;
        memory = h.memory;
        limited = h.limited;
        burst = same ∙ h.burst;
        fair = rw same within;
        waits =
            All-append _ s.waiting more
              (All-imp _ _ s.waiting (λ t. In-append t s.admitted more) h.waits)
              (tasks-In c f ten five s.admitted (admit f now r s.limiter).0);
        handles =
            All-imp _ _ s.handling (Authentic-append c s.psk s.memlimit s.admitted more) h.handles;
        runs =
            All-imp _ _ s.executed
              (λ cmd (peer, pt, a, e).
                (peer, pt, Authentic-append c s.psk s.memlimit s.admitted more (peer, pt) a, e))
              h.runs;
        answers = All-imp _ _ s.sent (Answers-append s.admitted more) h.answers;
      }

  accepted-IsSound :
      (now : ℕ) (before after : List Task) (task : Task) (s : State c f ten five)
      → s.waiting ≡ before ++ (task ∷ after)
      → IsSound s
      → IsSound (accepted c f ten five now task (before ++ after) s)
  unfolding accepted
  accepted-IsSound now before after (peer, packet) s e h =
      let taken =
        All-taken (λ t. In t s.admitted) before after (peer, packet)
          (subst (All (λ t. In t s.admitted)) e h.waits) in
      record {
        key = h.key;
        memory = h.memory;
        limited =
            accept-IsLimited c s.psk s.memlimit args.window args.replay_max now packet s.replay
              h.limited;
        burst = h.burst;
        fair = h.fair;
        waits = taken.1;
        handles = All-append _ s.handling _ h.handles (
            opened-Authentic c s.psk s.memlimit f ten five s.admitted peer packet
              (accept c s.psk s.memlimit now packet s.replay).0 taken.0
              (λ pt. accept-Opens c s.psk s.memlimit now packet pt s.replay));
        runs = h.runs;
        answers = h.answers;
      }

  responded-IsSound :
      (env : Env) (child : List Word → Bytes → Child) (chance : Chance) (before after : List Task)
      (task : Task) (s : State c f ten five)
      → s.handling ≡ before ++ (task ∷ after)
      → IsSound s
      → IsSound (responded c f ten five env child chance task (before ++ after) s)
  unfolding responded
  responded-IsSound env child chance before after (peer, pt) s e h =
      let (authentic, others) =
        All-taken (Authentic c s.psk s.memlimit s.admitted) before after (peer, pt)
          (subst (All (Authentic c s.psk s.memlimit s.admitted)) e h.handles) in
      let (limited, ran) =
        respond-IsLimited c s.psk s.memlimit args.window args.replay_max env child chance pt
          s.replay h.limited in
      record {
        key = h.key;
        memory = h.memory;
        limited = limited;
        burst = h.burst;
        fair = h.fair;
        waits = h.waits;
        handles = others;
        runs = All-append _ s.executed _ h.runs (rw ran ((peer, pt, authentic, refl), tt));
        answers = All-append _ s.sent _ h.answers (
            map-Answers s.admitted peer authentic.0
              (respond c s.psk s.memlimit env child chance pt s.replay).sent authentic.1);
      }

  Step-IsSound : {s t : State c f ten five} → Step c f ten five s t → IsSound s → IsSound t
  Step-IsSound (receives s now r) h = received-IsSound now r s h
  Step-IsSound (accepts s now before after task e) h = accepted-IsSound now before after task s e h
  Step-IsSound (responds s env child chance before after task e) h =
      responded-IsSound env child chance before after task s e h

  Reach-IsSound : {s t : State c f ten five} → IsSound s → Reach c f ten five s t → IsSound t
  Reach-IsSound h here = h
  Reach-IsSound h (next r step) = Step-IsSound step (Reach-IsSound h r)

module _ (c : Crypto) (f : Float) (ten five : f.F) (args : Args) (limit : Option Bytes) where
  start_listening :
      (bound : Bool) (s : State c f ten five)
      → start c f ten five args limit bound ≡ listening s
      → (8 ≤ length args.psk) × (initial c f ten five args (setup_pwhash_memlimit limit) ≡ s)
  unfolding start
  start_listening false s e = elim (Bool-cases (ltb (length args.psk) 8)) [
    | inl short ↦ cc (rw (short, if◌then◌else◌) at e)
    | inr long ↦ cc (rw (long, if◌then◌else◌) at e)
  ]
  start_listening true s e = elim (Bool-cases (ltb (length args.psk) 8)) [
    | inl short ↦ cc (rw (short, if◌then◌else◌) at e)
    | inr long ↦
        let running : listening (initial c f ten five args (setup_pwhash_memlimit limit))
            ≡ listening s =
          rw (long, if◌then◌else◌) at e in
        (ground (arith, long), cc)
  ]

  -- Whatever datagrams arrive, whenever the tasks get the lock and whatever their children do, every
  -- state that the server reaches is sound: its key has at least 8 bytes; the record has the window of
  -- the command line and never more entries than it allows; no bucket of the limiter holds more than
  -- 10 tokens; every command that was run is the text, without its padding, of a packet that the
  -- limiter admitted and that opens with the server's key; and responses go to no other addresses
  -- than those that admitted packets came from.
  pub start-Reach :
      (bound : Bool) (s t : State c f ten five)
      → start c f ten five args limit bound ≡ listening s
      → Reach c f ten five s t
      → (8 ≤ length t.psk)
        × (t.psk ≡ args.psk)
        × IsLimited args.window args.replay_max t.replay
        × WithinBurst f ten t.limiter.map
        × All (Commanded c t.psk t.memlimit t.admitted) t.executed
        × All (Answers t.admitted) t.sent
  start-Reach bound s t e reached =
      let (long, begun) = start_listening bound s e in
      let memory = setup_pwhash_memlimit limit in
      let sound : IsSound c f ten five args memory t =
        Reach-IsSound c f ten five args memory
          (subst (IsSound c f ten five args memory) begun
            (initial-IsSound c f ten five args memory))
          reached in
      (
        rw sound.key long,
        sound.key,
        sound.limited,
        subst (λ b. WithinBurst f b t.limiter.map) sound.burst sound.fair,
        sound.runs,
        sound.answers,
      )
