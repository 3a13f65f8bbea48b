-- ===== src/Tunnel/Replay/Window.antt =====
-- What `replay_check` accepts, and the size of the window (tuctl-server/src/main.rs).
use ktuctl_rs.Prelude.{
  ℕ, suc, ◌+◌, ◌-◌, ◌^◌, ◌≤◌, ◌<◌, ◌≡◌, ◌↔◌, ◌⊎◌, refl, ap, ◌∙◌, List, [], ◌∷◌, ◌++◌, arith, Bool,
  true, false, not, ltb, =b-refl, eq_of_=b, Bool-cases, inl, inr, length, length-append, drop,
  drop_nil, length-drop, min, sym,
}
use ktuctl_rs.Bytes.{Bytes}
use ktuctl_rs.Tunnel.Clock.{sub_i64, abs_i64, lt_i64}
use ktuctl_rs.Tunnel.Replay.{
  ReplayEntry, ReplayWindow, is_live, retain, same, seen, replay_check, trim, replay_add,
}

-- A time that the arithmetic can handle: not negative, and far from the end of the type.
abbrev pub IsTime : ℕ → Type 0
IsTime t = t < 2 ^ 62

-- The test of the window, without machine arithmetic.
in_window :
    (now ts window : ℕ)
    → IsTime now
    → IsTime ts
    → window < 2 ^ 32
    → lt_i64 window (abs_i64 (sub_i64 now ts)) ≡ true
    → ¬ ((now ≤ ts + window) × (ts ≤ now + window))
in_window now ts window hn ht hw e (p, q) = ground arith

out_of_window :
    (now ts window : ℕ)
    → IsTime now
    → IsTime ts
    → window < 2 ^ 32
    → lt_i64 window (abs_i64 (sub_i64 now ts)) ≡ false
    → (now ≤ ts + window) × (ts ≤ now + window)
out_of_window now ts window hn ht hw e = ground arith

-- The packet is on record.
abbrev pub Recorded : ℕ → Bytes → List ReplayEntry → Type 0
Recorded ts nonce [] = ⊥
Recorded ts nonce (e ∷ es) = (e.ts ≡ ts) × (e.nonce ≡ nonce) ⊎ Recorded ts nonce es

abbrev pub IsEntry : ReplayEntry → Type 0
IsEntry e = IsTime e.ts

live_in_window :
    (window now ts : ℕ) (nonce : Bytes)
    → IsTime now
    → IsTime ts
    → window < 2 ^ 32
    → now ≤ ts + window
    → is_live window now (record { ts = ts; nonce = nonce }) ≡ true
live_in_window window now ts nonce hn ht hw h = ground arith

same_of_eq :
    (ts : ℕ) (nonce : Bytes) (e : ReplayEntry)
    → e.ts ≡ ts
    → e.nonce ≡ nonce
    → same ts nonce e ≡ true
same_of_eq ts nonce e p q = rw q (ground (arith, =b-refl nonce))

eq_of_same :
    (ts : ℕ) (nonce : Bytes) (e : ReplayEntry)
    → same ts nonce e ≡ true
    → (e.ts ≡ ts) × (e.nonce ≡ nonce)
eq_of_same ts nonce e h = ground (arith, eq_of_=b e.nonce nonce)

module _ (ts : ℕ) (nonce : Bytes) where
  Recorded-of_seen :
      (keep : ReplayEntry → Bool) (es : List ReplayEntry)
      → seen ts nonce (retain keep es) ≡ true
      → Recorded ts nonce es
  unfolding seen retain
  Recorded-of_seen keep [] h = cc
  Recorded-of_seen keep (e ∷ es) h = elim (Bool-cases (keep e)) [
    | inl kept ↦ elim (Bool-cases (same ts nonce e)) [
      | inl hit ↦ inl (eq_of_same ts nonce e hit)
      | inr miss ↦ inr (Recorded-of_seen keep es (rw (kept, miss) at h))
    ]
    | inr dropped ↦ inr (Recorded-of_seen keep es (rw dropped at h))
  ]

  seen_of_Recorded :
      (window now : ℕ) (es : List ReplayEntry)
      → IsTime now
      → IsTime ts
      → window < 2 ^ 32
      → now ≤ ts + window
      → Recorded ts nonce es
      → seen ts nonce (retain (is_live window now) es) ≡ true
  unfolding seen retain
  seen_of_Recorded window now [] hn ht hw h r = absurd r
  seen_of_Recorded window now (e ∷ es) hn ht hw h (inl (p, q)) =
      let kept : is_live window now e ≡ true =
        ground (arith, live_in_window window now ts nonce hn ht hw h) in
      rw (kept, same_of_eq ts nonce e p q)
  seen_of_Recorded window now (e ∷ es) hn ht hw h (inr r) =
      let later = seen_of_Recorded window now es hn ht hw h r in
      elim (Bool-cases (is_live window now e)) [
        | inl kept ↦ elim (Bool-cases (same ts nonce e)) [
          | inl hit ↦ rw (kept, hit)
          | inr miss ↦ rw (kept, miss) later
        ]
        | inr dropped ↦ rw dropped later
      ]

  not-seen :
      (window now : ℕ) (es : List ReplayEntry)
      → ¬ Recorded ts nonce es
      → not (seen ts nonce (retain (is_live window now) es)) ≡ true
  not-seen window now es r = elim (Bool-cases (seen ts nonce (retain (is_live window now) es))) [
    | inl h ↦ absurd (r (Recorded-of_seen (is_live window now) es h))
    | inr h ↦ rw h
  ]

  -- For times that the arithmetic can handle (below 2 ^ 62) and a window below 2 ^ 32,
  -- `replay_check` accepts a packet exactly if its time is at most `window` seconds before or after
  -- now and no entry of the record has its time and its nonce. The entries that it drops on the
  -- way make no difference.
  pub replay_check-accepts :
      (now : ℕ) (w : ReplayWindow)
      → IsTime now
      → IsTime ts
      → w.window < 2 ^ 32
      → ((replay_check now ts nonce w).0 ≡ true)
        ↔ ((now ≤ ts + w.window) × (ts ≤ now + w.window) × (¬ Recorded ts nonce w.entries))
  unfolding replay_check
  replay_check-accepts now w hn ht hw =
      elim (Bool-cases (lt_i64 w.window (abs_i64 (sub_i64 now ts)))) [
        | inl out ↦
            (λ e. cc (rw out at e), λ r. absurd (in_window now ts w.window hn ht hw out (r.0, r.1)))
        | inr inside ↦
            let (late, early) = out_of_window now ts w.window hn ht hw inside in
            (
              λ e. (
                late,
                early,
                λ r. cc (rw inside at e, seen_of_Recorded w.window now w.entries hn ht hw late r),
              ),
              λ r. rw inside (not-seen w.window now w.entries r.2),
            )
      ]

trim-eq-drop : (max : ℕ) (es : List ReplayEntry) → trim max es ≡ drop (length es - max) es
unfolding trim
trim-eq-drop max [] = sym (drop_nil {A = ReplayEntry} (0 - max))
trim-eq-drop max (e ∷ es) = elim (Bool-cases (ltb max (length (e ∷ es)))) [
  | inl over ↦
      let more : suc (length es) - max ≡ suc (length es - max) = ground arith in
      rw (over, more) (trim-eq-drop max es)
  | inr fits ↦ let none_over : suc (length es) - max ≡ 0 = ground arith in rw (fits, none_over)
]

-- `replay_add` puts the new packet behind the record and keeps the newest `max_size`: of the longer
-- record, its last `max_size` entries in order, and all of it where it is no longer than that. The
-- two limits stay as they are.
pub replay_add-newest :
    (ts : ℕ) (nonce : Bytes) (w : ReplayWindow)
    → ((replay_add ts nonce w).entries
        ≡ drop
            (length w.entries + 1 - w.max_size)
            (w.entries ++ (record { ts = ts; nonce = nonce } ∷ [])))
      × (length (replay_add ts nonce w).entries ≡ min (length w.entries + 1) w.max_size)
      × ((replay_add ts nonce w).window ≡ w.window)
      × ((replay_add ts nonce w).max_size ≡ w.max_size)
unfolding replay_add
replay_add-newest ts nonce w =
    (trimmed, ap length trimmed ∙ rw length-drop (omega (arith, longer)), refl, refl)
  where
    es : List ReplayEntry
    es = w.entries ++ (record { ts = ts; nonce = nonce } ∷ [])

    longer : length es ≡ length w.entries + 1
    longer = length-append w.entries (record { ts = ts; nonce = nonce } ∷ [])

    trimmed : trim w.max_size es ≡ drop (length w.entries + 1 - w.max_size) es
    trimmed = trim-eq-drop w.max_size es ∙ rw longer
