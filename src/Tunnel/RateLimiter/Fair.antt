-- ===== src/Tunnel/RateLimiter/Fair.antt =====
-- The invariant of the rate limiter and its fairness (tuctl-server/src/main.rs).
use ktuctl_rs.Prelude.{
  ℕ, ◌-◌, ◌≡◌, ◌≢◌, refl, ap, ◌∙◌, sym, List, [], ◌∷◌, none, some, true, false, ◌=b◌, eq_of_=b,
  =b-false, if◌then◌else◌, All, arith, Bool-cases, inl, inr,
}
use ktuctl_rs.Bytes.{Bytes}
use ktuctl_rs.Tunnel.RateLimiter.{
  Float, Bucket, AsyncRateLimiter, is_fresh, retain, get, put, refill, entry, allow,
}

module _ (f : Float) where
  open f use {
    F, zero, one, secs, plus, times, minus, gt, ge, ge_of_not_gt, ge_refl, ge_minus_one, secs_0,
  }

  -- No bucket holds more than the burst, and none has been idle for too long.
  abbrev pub IsFair : ℕ → F → ℕ → List (Bytes × Bucket f) → Type 0
  IsFair now burst idle = All (λ e. (ge burst e.1.tokens ≡ true) × (is_fresh f now idle e.1 ≡ true))

  abbrev pub WithinBurst : F → List (Bytes × Bucket f) → Type 0
  WithinBurst burst = All (λ e. ge burst e.1.tokens ≡ true)

  retain-IsFair :
      (now idle : ℕ) (burst : F) (m : List (Bytes × Bucket f))
      → WithinBurst burst m
      → IsFair now burst idle (retain f now idle m)
  unfolding retain
  retain-IsFair now idle burst [] h = tt
  retain-IsFair now idle burst ((ip, v) ∷ m) (h, hs) =
      let later = retain-IsFair now idle burst m hs in
      elim (Bool-cases (is_fresh f now idle v)) [
        | inl e ↦ rw e ((h, e), later)
        | inr e ↦ rw e later
      ]

  put-IsFair :
      (now idle : ℕ) (burst : F) (ip : Bytes) (v : Bucket f) (m : List (Bytes × Bucket f))
      → ge burst v.tokens ≡ true
      → is_fresh f now idle v ≡ true
      → IsFair now burst idle m
      → IsFair now burst idle (put f ip v m)
  unfolding put
  put-IsFair now idle burst ip v [] hv hf h = ((hv, hf), tt)
  put-IsFair now idle burst ip v ((j, u) ∷ m) hv hf (h, hs) = elim (Bool-cases (j =b ip)) [
    | inl e ↦ rw e ((hv, hf), hs)
    | inr e ↦ rw e (h, put-IsFair now idle burst ip v m hv hf hs)
  ]

  get-WithinBurst :
      (now idle : ℕ) (burst : F) (ip : Bytes) (m : List (Bytes × Bucket f))
      → IsFair now burst idle m
      → ge burst (entry f now burst (get f ip m)).tokens ≡ true
  unfolding get
  get-WithinBurst now idle burst ip [] h = ge_refl burst
  get-WithinBurst now idle burst ip ((j, u) ∷ m) (h, hs) = elim (Bool-cases (j =b ip)) [
    | inl e ↦ rw e h.0
    | inr e ↦ rw e (get-WithinBurst now idle burst ip m hs)
  ]

  refill-WithinBurst :
      (now : ℕ) (burst rate : F) (b : Bucket f)
      → ge burst b.tokens ≡ true
      → (ge burst (refill f now burst rate b).tokens ≡ true)
        × ((refill f now burst rate b).last_seen ≡ now)
  unfolding refill
  refill-WithinBurst now burst rate b h = elim (Bool-cases (gt (secs (now - b.last_refill)) zero)) [
    | inr e ↦ rw e (h, refl)
    | inl e ↦
        elim (Bool-cases (gt (plus b.tokens (times (secs (now - b.last_refill)) rate)) burst)) [
          | inl over ↦ rw (e, over) (ge_refl burst, refl)
          | inr under ↦ rw (e, under) (ge_of_not_gt _ _ under, refl)
        ]
  ]

  is_fresh_now : (now idle : ℕ) (v : Bucket f) → v.last_seen ≡ now → is_fresh f now idle v ≡ true
  is_fresh_now now idle v h = rw h (ground arith)

  get-put_other :
      (ip j : Bytes) (v : Bucket f) (m : List (Bytes × Bucket f))
      → ip ≢ j
      → get f j (put f ip v m) ≡ get f j m
  unfolding put get
  get-put_other ip j v [] n = rw (=b-false ip j n) refl
  get-put_other ip j v ((k, u) ∷ m) n = elim (Bool-cases (k =b ip)) [
    | inl e ↦
        let k=ip = eq_of_=b k ip e in
        let no : (k =b j) ≡ false = =b-false k j (λ q. n (sym k=ip ∙ q)) in rw (e, no) refl
    | inr e ↦ rw e (ap (λ r. if k =b j then some u else r) (get-put_other ip j v m n))
  ]

  -- The buckets that are left, and the sender's bucket among them.
  kept : ℕ → AsyncRateLimiter f → List (Bytes × Bucket f)
  kept now l = retain f now l.idle_evict_sec l.map

  bucket : ℕ → Bytes → AsyncRateLimiter f → Bucket f
  bucket now ip l =
      refill f now l.burst_tokens l.refill_rate (entry f now l.burst_tokens (get f ip (kept now l)))

  allow_yes :
      (now : ℕ) (ip : Bytes) (l : AsyncRateLimiter f)
      → ge (bucket now ip l).tokens one ≡ true
      → allow f now ip l ≡ (
        true,
        record l {
          map =
              put f ip
                (record (bucket now ip l) { tokens = minus (bucket now ip l).tokens one })
                (kept now l);
        },
      )
  unfolding allow bucket kept
  allow_yes now ip l e = rw e refl

  allow_no :
      (now : ℕ) (ip : Bytes) (l : AsyncRateLimiter f)
      → ge (bucket now ip l).tokens one ≡ false
      → allow f now ip l ≡ (false, record l { map = put f ip (bucket now ip l) (kept now l) })
  unfolding allow bucket kept
  allow_no now ip l e = rw e refl

  bucket-WithinBurst :
      (now : ℕ) (ip : Bytes) (l : AsyncRateLimiter f)
      → WithinBurst l.burst_tokens l.map
      → (ge l.burst_tokens (bucket now ip l).tokens ≡ true) × ((bucket now ip l).last_seen ≡ now)
  unfolding bucket kept
  bucket-WithinBurst now ip l h = refill-WithinBurst now l.burst_tokens l.refill_rate _ (
      get-WithinBurst now l.idle_evict_sec l.burst_tokens ip (kept now l)
        (retain-IsFair now l.idle_evict_sec l.burst_tokens l.map h))

  bucket_new :
      (now : ℕ) (ip : Bytes) (l : AsyncRateLimiter f)
      → get f ip (retain f now l.idle_evict_sec l.map) ≡ none
      → (bucket now ip l).tokens ≡ l.burst_tokens
  unfolding bucket kept refill
  bucket_new now ip l e = let zero : now - now ≡ 0 = omega arith in rw (e, zero, secs_0) refl

  -- Whether a datagram passes or not: if no bucket held more than the burst before, then after it
  -- none does, and every bucket that is left was seen within the eviction time.
  pub allow-IsFair :
      (now : ℕ) (ip : Bytes) (l : AsyncRateLimiter f)
      → WithinBurst l.burst_tokens l.map
      → IsFair now l.burst_tokens l.idle_evict_sec (allow f now ip l).1.map
  unfolding kept
  allow-IsFair now ip l h =
      let (hb, seen) = bucket-WithinBurst now ip l h in
      let hk : IsFair now l.burst_tokens l.idle_evict_sec (kept now l) =
        retain-IsFair now l.idle_evict_sec l.burst_tokens l.map h in
      let fresh = is_fresh_now now l.idle_evict_sec (bucket now ip l) seen in
      elim (Bool-cases (ge (bucket now ip l).tokens one)) [
        | inl e ↦ rw (allow_yes now ip l e) (
            put-IsFair now l.idle_evict_sec l.burst_tokens ip _ (kept now l) (ge_minus_one _ _ hb)
              fresh hk)
        | inr e ↦
            rw (allow_no now ip l e)
              (put-IsFair now l.idle_evict_sec l.burst_tokens ip _ (kept now l) hb fresh hk)
      ]

  -- One sender cannot use up the tokens of another: the bucket of every other address is what the
  -- eviction of idle buckets left of it.
  pub get-allow_other :
      (now : ℕ) (ip other : Bytes) (l : AsyncRateLimiter f)
      → ip ≢ other
      → get f other (allow f now ip l).1.map ≡ get f other (retain f now l.idle_evict_sec l.map)
  unfolding kept
  get-allow_other now ip other l n = elim (Bool-cases (ge (bucket now ip l).tokens one)) [
    | inl e ↦ rw (allow_yes now ip l e) (get-put_other ip other _ (kept now l) n)
    | inr e ↦ rw (allow_no now ip l e) (get-put_other ip other _ (kept now l) n)
  ]

  -- An address without a bucket passes if the burst is at least 1, however many datagrams of others
  -- were dropped.
  pub allow_new :
      (now : ℕ) (ip : Bytes) (l : AsyncRateLimiter f)
      → get f ip (retain f now l.idle_evict_sec l.map) ≡ none
      → ge l.burst_tokens one ≡ true
      → (allow f now ip l).0 ≡ true
  allow_new now ip l e b = ap (λ r. r.0) (allow_yes now ip l (rw (bucket_new now ip l e) b))
