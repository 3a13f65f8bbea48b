-- ===== src/World.antt =====
-- The outside of ktuctl-rs: netlink sockets, which take what is sent and give what the kernel
-- answers, and standard output. A run is a function of the answers; what it did is in the logs.
pub mod Chaining
use ktuctl_rs.Prelude.{List, [], ◌∷◌, ◌++◌, Bool, Option}
use ktuctl_rs.Bytes.{Bytes}
use ktuctl_rs.Outcome.{Outcome, ok, err, panic, blocked, stuck, Error}

-- What the system calls on one socket come to, in order: `socket`, `bind`, each `send_to` (a
-- success where the list ends) and each `recv_from` (`none` is an error; where the list ends, the
-- call waits for ever).
pub record Conversation : Type 0 where
  pub socket_ok : Bool
  pub bind_ok : Bool
  pub send_ok : List Bool
  pub inbox : List (Option Bytes)

-- `conversations` has one for each socket that will be opened, `sent` every datagram that was sent
-- and `printed` every line, both with the newest last.
pub record World : Type 0 where
  pub conversations : List Conversation
  pub sent : List Bytes
  pub printed : List Bytes

-- An action on the world. An error, a panic or a wait leaves the world as it is by then.
abbrev pub Net {ℓ} : Type ℓ → Type ℓ
Net A = World → Outcome A × World

abbrev pub and_then {ℓ} : {A B : Type ℓ} → Outcome A × World → (A → Net B) → Outcome B × World
and_then (ok a, w) f = f a w
and_then (err e, w) f = (err e, w)
and_then (panic, w) f = (panic, w)
and_then (blocked, w) f = (blocked, w)
and_then (stuck, w) f = (stuck, w)

infixl 5 ◌>>=◌ ◌>>◌
abbrev pub ◌>>=◌ {ℓ} : {A B : Type ℓ} → Net A → (A → Net B) → Net B
◌>>=◌ m f w = and_then (m w) f

abbrev pub ◌>>◌ : {B : Type 0} → Net (Unit {0}) → Net B → Net B
m >> k = m >>= λ _. k

abbrev pub pure {ℓ} : {A : Type ℓ} → A → Net A
pure a w = (ok a, w)

abbrev pub lift {ℓ} : {A : Type ℓ} → Outcome A → Net A
lift o w = (o, w)

abbrev pub println : Bytes → Net (Unit {0})
println line w = (ok tt, record w { printed = w.printed ++ (line ∷ []) })

-- `match m { Ok(a) => … Err(e) => … }` with the error at hand: a panic or a wait goes on as it is.
abbrev pub or_else {ℓ} : {A : Type ℓ} → Outcome A × World → (Error → Net A) → Outcome A × World
or_else (ok a, w) f = (ok a, w)
or_else (err e, w) f = f e w
or_else (panic, w) f = (panic, w)
or_else (blocked, w) f = (blocked, w)
or_else (stuck, w) f = (stuck, w)
