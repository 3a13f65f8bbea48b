-- ===== src/Tunnel/RateLimiter.antt =====
-- `Bucket`, `AsyncRateLimiter` and the loop of `main` in tuctl-server/src/main.rs. An `Instant` is a
-- number of nanoseconds, an `IpAddr` its bytes, the map an association list. The `f64` operations
-- are a parameter, `Float`.
pub mod Fair
pub mod Admit
use ktuctl_rs.Prelude.{
  ℕ, ◌+◌, ◌-◌, ◌/◌, ◌^◌, List, [], ◌∷◌, Option, none, some, Bool, true, false, ltb, leb, ◌=b◌,
  if◌then◌else◌, take, ◌≡◌,
}
use ktuctl_rs.Bytes.{Bytes}
use ktuctl_rs.Tunnel.Packet.{max_ct_size}

-- Where a datagram is from, and where its response goes to. `ip` is `addr.ip()`, which `allow` starts
-- with; it is all that `allow` gets here.
pub record SocketAddr : Type 0 where
  pub ip : Bytes
  pub port : ℕ

-- `secs` is `as_secs_f64` of a duration. The laws hold of numbers, and the limiter has no NaN: its
-- constants are numbers, and sums, products and caps of numbers that do not overflow are numbers.
pub record Float : Type 1 where
  pub F : Type 0
  pub zero : F
  pub one : F
  pub secs : ℕ → F
  pub plus : F → F → F
  pub times : F → F → F
  pub minus : F → F → F
  -- `a > b` and `a >= b`
  pub gt : F → F → Bool
  pub ge : F → F → Bool
  pub ge_of_not_gt : (a b : F) → gt a b ≡ false → ge b a ≡ true
  pub ge_refl : (a : F) → ge a a ≡ true
  pub ge_minus_one : (a b : F) → ge a b ≡ true → ge a (minus b one) ≡ true
  pub secs_0 : gt (secs 0) zero ≡ false

module _ (f : Float) where
  open f use {F, zero, one, secs, plus, times, minus, gt, ge}

  pub record Bucket : Type 0 where
    pub tokens : F
    pub last_refill : ℕ
    pub last_seen : ℕ

  pub record AsyncRateLimiter : Type 0 where
    pub map : List (Bytes × Bucket)
    pub burst_tokens : F
    pub refill_rate : F
    pub idle_evict_sec : ℕ

  -- The test of `retain`. A duration is in whole seconds, and 0 if the clock went back.
  abbrev pub is_fresh : ℕ → ℕ → Bucket → Bool
  is_fresh now idle v = leb ((now - v.last_seen) / 10 ^ 9) idle

  unfoldable pub retain : ℕ → ℕ → List (Bytes × Bucket) → List (Bytes × Bucket)
  retain now idle [] = []
  retain now idle ((ip, v) ∷ m) =
      if is_fresh now idle v then (ip, v) ∷ retain now idle m else retain now idle m

  unfoldable pub get : Bytes → List (Bytes × Bucket) → Option Bucket
  get ip [] = none
  get ip ((j, v) ∷ m) = if j =b ip then some v else get ip m

  unfoldable pub put : Bytes → Bucket → List (Bytes × Bucket) → List (Bytes × Bucket)
  put ip v [] = (ip, v) ∷ []
  put ip v ((j, u) ∷ m) = if j =b ip then (j, v) ∷ m else (j, u) ∷ put ip v m

  -- The `entry` with what the time since its last refill brings, at most the burst.
  unfoldable pub refill : ℕ → F → F → Bucket → Bucket
  refill now burst rate b =
      let dt = secs (now - b.last_refill) in
      let more = plus b.tokens (times dt rate) in
      if gt dt zero
      then record {
        tokens = if gt more burst then burst else more;
        last_refill = now;
        last_seen = now;
      }
      else record b { last_seen = now }

  -- `self.map.entry(ip).or_insert_with(…)`
  abbrev pub entry : ℕ → F → Option Bucket → Bucket
  entry now burst none = record { tokens = burst; last_refill = now; last_seen = now }
  entry now burst (some b) = b

  unfoldable pub allow : ℕ → Bytes → AsyncRateLimiter → Bool × AsyncRateLimiter
  allow now ip l =
      let kept = retain now l.idle_evict_sec l.map in
      let b = refill now l.burst_tokens l.refill_rate (entry now l.burst_tokens (get ip kept)) in
      if ge b.tokens one
      then (true, record l { map = put ip (record b { tokens = minus b.tokens one }) kept })
      else (false, record l { map = put ip b kept })

  -- A round of the loop of `main`: an error, or a datagram from an address, cut to the buffer. What
  -- passes the limiter goes to a task of its own. The limiter sees the host only, whatever the port.
  pub data Received : Type 0 where
    recv_error : Received
    datagram : SocketAddr → Bytes → Received

  unfoldable pub admit :
      ℕ → Received → AsyncRateLimiter → Option (SocketAddr × Bytes) × AsyncRateLimiter
  admit now recv_error l = (none, l)
  admit now (datagram peer packet) l =
      let (good, l') = allow now peer.ip l in
      if good then (some (peer, take max_ct_size packet), l') else (none, l')
