-- ===== src/Tunnel/Server/System/Authentic.antt =====
-- Where the server's tasks, commands and responses come from (tuctl-server/src/main.rs).
use ktuctl_rs.Prelude.{
  ℕ, ◌≡◌, ◌⊎◌, refl, List, [], ◌∷◌, ◌++◌, map, Option, none, some, inl, inr, All,
}
use ktuctl_rs.Bytes.{Bytes}
use ktuctl_rs.Tunnel.Packet.{Crypto, Result, ok, err}
use ktuctl_rs.Tunnel.Padding.{remove_padding}
use ktuctl_rs.Tunnel.RateLimiter.{Float, SocketAddr}
use ktuctl_rs.Tunnel.Server.System.{Task, tasks, opened}
use ktuctl_rs.Tunnel.Server.System.Limits.{Opens}

abbrev pub In : Task → List Task → Type 0
In t [] = ⊥
In t (u ∷ us) = (t ≡ u) ⊎ In t us

pub In-append : (t : Task) (us vs : List Task) → In t us → In t (us ++ vs)
In-append t [] vs h = absurd h
In-append t (u ∷ us) vs (inl e) = inl e
In-append t (u ∷ us) vs (inr h) = inr (In-append t us vs h)

In-append_last : (t : Task) (us : List Task) → In t (us ++ (t ∷ []))
In-append_last t [] = inl refl
In-append_last t (u ∷ us) = inr (In-append_last t us)

module _ (c : Crypto) (psk : Bytes) (memlimit : ℕ) (admitted : List Task) where
  -- The task's text is what an admitted packet of the same address has in it.
  abbrev pub Authentic : Task → Type 0
  Authentic (peer, pt) =
      (packet : Bytes) × In (peer, packet) admitted × Opens c psk memlimit packet pt

  -- A command that an admitted packet has in it.
  abbrev pub Commanded : Bytes → Type 0
  Commanded cmd =
      (peer : SocketAddr) × (pt : Bytes) × Authentic (peer, pt) × (cmd ≡ remove_padding pt)

pub Authentic-append :
    (c : Crypto) (psk : Bytes) (memlimit : ℕ) (admitted more : List Task) (t : Task)
    → Authentic c psk memlimit admitted t
    → Authentic c psk memlimit (admitted ++ more) t
Authentic-append c psk memlimit admitted more t (packet, member, opens) =
    (packet, In-append _ admitted more member, opens)

-- A response to an address that an admitted packet came from.
abbrev pub Answers : List Task → Task → Type 0
Answers admitted (peer, response) = (packet : Bytes) × In (peer, packet) admitted

pub Answers-append :
    (admitted more : List Task) (t : Task) → Answers admitted t → Answers (admitted ++ more) t
Answers-append admitted more t (packet, member) = (packet, In-append _ admitted more member)

pub map-Answers :
    (admitted : List Task) (peer : SocketAddr) (packet : Bytes) (responses : List Bytes)
    → In (peer, packet) admitted
    → All (Answers admitted) (map (λ p. (peer, p)) responses)
map-Answers admitted peer packet [] member = tt
map-Answers admitted peer packet (p ∷ responses) member =
    ((packet, member), map-Answers admitted peer packet responses member)

pub opened-Authentic :
    (c : Crypto) (psk : Bytes) (memlimit : ℕ) (f : Float) (ten five : f.F) (admitted : List Task)
    (peer : SocketAddr) (packet : Bytes) (r : Result Bytes)
    → In (peer, packet) admitted
    → ((pt : Bytes) → r ≡ ok pt → Opens c psk memlimit packet pt)
    → All (Authentic c psk memlimit admitted) (opened c f ten five peer r)
opened-Authentic c psk memlimit f ten five admitted peer packet (err e) member opens = tt
opened-Authentic c psk memlimit f ten five admitted peer packet (ok pt) member opens =
    ((packet, member, opens pt refl), tt)

pub tasks-In :
    (c : Crypto) (f : Float) (ten five : f.F) (admitted : List Task) (o : Option Task)
    → All (λ t. In t (admitted ++ tasks c f ten five o)) (tasks c f ten five o)
tasks-In c f ten five admitted none = tt
tasks-In c f ten five admitted (some t) = (In-append_last t admitted, tt)
