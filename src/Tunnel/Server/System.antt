-- ===== src/Tunnel/Server/System.antt =====
-- `main` of tuctl-server/src/main.rs: the start, and the loop with the tasks that it spawns as a step
-- relation. A task takes the lock of the record twice, once to accept its packet and once to put the
-- nonce of its response on record, and other steps may come in between.
pub mod Limits
pub mod Authentic
pub mod Turns
pub mod Origin
pub mod Once
use ktuctl_rs.Prelude.{
  ℕ, ◌≡◌, List, [], ◌∷◌, ◌++◌, map, Option, none, some, Bool, true, false, ltb, if◌then◌else◌,
  length,
}
use ktuctl_rs.Bytes.{Bytes}
use ktuctl_rs.Tunnel.Replay.{ReplayWindow, new}
use ktuctl_rs.Tunnel.Packet.{Crypto, Result, ok, err}
use ktuctl_rs.Tunnel.RateLimiter.{Float, SocketAddr, AsyncRateLimiter, Received, admit}
use ktuctl_rs.Tunnel.Client.{setup_pwhash_memlimit}
use ktuctl_rs.Tunnel.Server.{Env, Word, Child, Chance, accept, respond}

-- What clap reads from the command line.
pub record Args : Type 0 where
  pub bind : Bytes
  pub port : ℕ
  pub psk : Bytes
  pub window : ℕ
  pub replay_max : ℕ

-- A task, by the address that its packet is from and the packet, or what was in it.
abbrev pub Task : Type 0
Task = SocketAddr × Bytes

-- `ten` and `five` are the literals 10.0 and 5.0.
module _ (c : Crypto) (f : Float) (ten five : f.F) where
  -- `admitted` are all tasks that were spawned so far; `waiting` have yet to accept their packet, and
  -- `handling` have accepted it. What was run, and what was sent with its address, are logs.
  pub record State : Type 0 where
    pub psk : Bytes
    pub memlimit : ℕ
    pub replay : ReplayWindow
    pub limiter : AsyncRateLimiter f
    pub admitted : List Task
    pub waiting : List Task
    pub handling : List Task
    pub executed : List Bytes
    pub sent : List Task

  -- An exit code, an error of `bind`, or the loop.
  pub data Start : Type 0 where
    exit : ℕ → Start
    bind_failed : Start
    listening : State → Start

  abbrev pub new_limiter : f.F → f.F → ℕ → AsyncRateLimiter f
  new_limiter burst rate idle = record {
    map = [];
    burst_tokens = burst;
    refill_rate = rate;
    idle_evict_sec = idle;
  }

  abbrev pub initial : Args → ℕ → State
  initial args memlimit = record {
    psk = args.psk;
    memlimit = memlimit;
    replay = new args.window args.replay_max;
    limiter = new_limiter ten five 60;
    admitted = [];
    waiting = [];
    handling = [];
    executed = [];
    sent = [];
  }

  -- `limit` is the variable of the environment, where it is set.
  unfoldable pub start : Args → Option Bytes → Bool → Start
  unfolding setup_pwhash_memlimit new
  start args limit bound =
      if ltb (length args.psk) 8
      then Start.exit 2
      else if bound
      then Start.listening (initial args (setup_pwhash_memlimit limit))
      else Start.bind_failed

  -- The task of a datagram that passes the limiter.
  abbrev pub tasks : Option Task → List Task
  tasks none = []
  tasks (some t) = t ∷ []

  unfoldable pub received : ℕ → Received f → State → State
  unfolding admit
  received now r s =
      let (task, l) = admit f now r s.limiter in
      record s {
        limiter = l;
        admitted = s.admitted ++ tasks task;
        waiting = s.waiting ++ tasks task;
      }

  abbrev pub opened : SocketAddr → Result Bytes → List Task
  opened peer (err e) = []
  opened peer (ok pt) = (peer, pt) ∷ []

  -- A task under the lock for the first time; `rest` are the other tasks that wait.
  unfoldable pub accepted : ℕ → Task → List Task → State → State
  unfolding accept
  accepted now (peer, packet) rest s =
      let (result, rw) = accept c s.psk s.memlimit now packet s.replay in
      record s { replay = rw; waiting = rest; handling = s.handling ++ opened peer result }

  -- A task from there to its end; `rest` are the other tasks that have accepted their packets.
  unfoldable pub responded :
      Env → (List Word → Bytes → Child) → Chance → Task → List Task → State → State
  unfolding respond
  responded env child chance (peer, pt) rest s =
      let h = respond c s.psk s.memlimit env child chance pt s.replay in
      record s {
        replay = h.replay;
        handling = rest;
        executed = s.executed ++ h.executed;
        sent = s.sent ++ map (λ p. (peer, p)) h.sent;
      }

  -- Any task may be the next.
  pub data Step : State → State → Type 0 where
    receives : (s : State) (now : ℕ) (r : Received f) → Step s (received now r s)
    accepts :
        (s : State) (now : ℕ) (before after : List Task) (task : Task)
        → s.waiting ≡ before ++ (task ∷ after)
        → Step s (accepted now task (before ++ after) s)
    responds :
        (s : State) (env : Env) (child : List Word → Bytes → Child) (chance : Chance)
        (before after : List Task) (task : Task)
        → s.handling ≡ before ++ (task ∷ after)
        → Step s (responded env child chance task (before ++ after) s)

  pub data Reach (s : State) : State → Type 0 where
    here : Reach s s
    next : {t u : State} → Reach s t → Step t u → Reach s u
