-- ===== src/Tunnel/RateLimiter/Admit.antt =====
-- The limiter in the loop of `main` (tuctl-server/src/main.rs).
use ktuctl_rs.Prelude.{
  ◌≡◌, refl, ℕ, Bool, true, false, if◌then◌else◌, Bool-cases, inl, inr, All-imp,
}
use ktuctl_rs.Bytes.{Bytes}
use ktuctl_rs.Tunnel.RateLimiter.{
  Float, SocketAddr, AsyncRateLimiter, Received, recv_error, datagram, allow, admit,
}
use ktuctl_rs.Tunnel.RateLimiter.Fair.{WithinBurst, allow-IsFair}

burst_if :
    (f : Float) (b : Bool) (x y : Bool × AsyncRateLimiter f) (burst : f.F)
    → x.1.burst_tokens ≡ burst
    → y.1.burst_tokens ≡ burst
    → (if b then x else y).1.burst_tokens ≡ burst
burst_if f true x y burst hx hy = hx
burst_if f false x y burst hx hy = hy

allow_burst :
    (f : Float) (now : ℕ) (ip : Bytes) (l : AsyncRateLimiter f)
    → (allow f now ip l).1.burst_tokens ≡ l.burst_tokens
unfolding allow
allow_burst f now ip l = burst_if f _ _ _ l.burst_tokens refl refl

-- Whether a datagram is dropped or not, the limiter is what `allow` makes of it.
admit-allow :
    (f : Float) (now : ℕ) (peer : SocketAddr) (packet : Bytes) (l : AsyncRateLimiter f)
    → (admit f now (datagram peer packet) l).1 ≡ (allow f now peer.ip l).1
unfolding admit
admit-allow f now peer packet l = elim (Bool-cases (allow f now peer.ip l).0) [
  | inl good ↦ rw good refl
  | inr bad ↦ rw bad refl
]

pub admit-WithinBurst :
    (f : Float) (now : ℕ) (r : Received f) (l : AsyncRateLimiter f)
    → WithinBurst f l.burst_tokens l.map
    → ((admit f now r l).1.burst_tokens ≡ l.burst_tokens)
      × WithinBurst f l.burst_tokens (admit f now r l).1.map
admit-WithinBurst f now recv_error l h = unfold admit in (refl, h)
admit-WithinBurst f now (datagram peer packet) l h = rw (admit-allow f now peer packet l) (
  allow_burst f now peer.ip l,
  All-imp _ _ (allow f now peer.ip l).1.map (λ e fair. fair.0) (allow-IsFair f now peer.ip l h),
)
