-- ===== src/Tunnel/Replay/Once.antt =====
-- A packet on record is not accepted again (`ReplayWindow` of tuctl-server/src/main.rs).
use ktuctl_rs.Prelude.{
  ℕ, suc, ◌+◌, ◌^◌, ◌≤◌, ◌<◌, ◌≡◌, ◌≢◌, ◌⊎◌, refl, ap, List, [], ◌∷◌, ◌++◌, arith, Bool, true,
  false, ltb, Bool-cases, inl, inr, length, length-append,
}
use ktuctl_rs.Bytes.{Bytes}
use ktuctl_rs.Tunnel.Clock.{sub_i64, abs_i64, lt_i64}
use ktuctl_rs.Tunnel.Replay.{
  ReplayEntry, ReplayWindow, is_live, retain, replay_check, trim, replay_add,
}
use ktuctl_rs.Tunnel.Replay.Window.{IsTime, Recorded, replay_check-accepts}

-- What the holders of the lock do to the record, in the order of their turns.
pub data Turn : Type 0 where
  check : ℕ → ℕ → Bytes → Turn
  add : ℕ → Bytes → Turn

unfoldable pub turn : Turn → ReplayWindow → ReplayWindow
turn (check now ts nonce) w = (replay_check now ts nonce w).1
turn (add ts nonce) w = replay_add ts nonce w

unfoldable pub turns : List Turn → ReplayWindow → ReplayWindow
unfolding turn
turns [] w = w
turns (t ∷ ts) w = turns ts (turn t w)

abbrev pub adds : List Turn → ℕ
adds [] = 0
adds (check now ts nonce ∷ ts') = adds ts'
adds (add ts nonce ∷ ts') = suc (adds ts')

-- No check is made at a time behind `last`.
abbrev pub Until : ℕ → List Turn → Type 0
Until last [] = Unit {0}
Until last (check now ts nonce ∷ ts') = (now ≤ last) × Until last ts'
Until last (add ts nonce ∷ ts') = Until last ts'

-- A check leaves the limits as they are.
pub check_limits :
    (now ts' : ℕ) (nonce' : Bytes) (w : ReplayWindow)
    → ((replay_check now ts' nonce' w).1.window ≡ w.window)
      × ((replay_check now ts' nonce' w).1.max_size ≡ w.max_size)
unfolding replay_check
check_limits now ts' nonce' w = ground arith

module _ (ts : ℕ) (nonce : Bytes) where
  abbrev entry : ReplayEntry
  entry = record { ts = ts; nonce = nonce }

  -- The packet is on record with at most `k` entries behind it.
  abbrev Holds : ℕ → List ReplayEntry → Type 0
  Holds k [] = ⊥
  Holds k (e ∷ es) = (e ≡ entry) × (length es ≤ k) ⊎ Holds k es

  pub length-retain-le :
      (keep : ReplayEntry → Bool) (es : List ReplayEntry) → length (retain keep es) ≤ length es
  unfolding retain
  length-retain-le keep [] = omega arith
  length-retain-le keep (e ∷ es) = ground (arith, length-retain-le keep es)

  retain-Holds :
      (keep : ReplayEntry → Bool) (k : ℕ) (es : List ReplayEntry)
      → keep entry ≡ true
      → Holds k es
      → Holds k (retain keep es)
  unfolding retain
  retain-Holds keep k [] h held = held
  retain-Holds keep k (e ∷ es) h (inl (p, q)) =
      rw (p, h) (inl (refl, omega (arith, length-retain-le keep es)))
  retain-Holds keep k (e ∷ es) h (inr held) =
      let later = retain-Holds keep k es h held in
      elim (Bool-cases (keep e)) [ inl kept ↦ rw kept (inr later) | inr dropped ↦ rw dropped later ]

  append-Holds :
      (k : ℕ) (es : List ReplayEntry) (e : ReplayEntry)
      → Holds k es
      → Holds (suc k) (es ++ (e ∷ []))
  append-Holds k [] e held = absurd held
  append-Holds k (x ∷ es) e (inl (p, q)) = inl (p, omega (arith, length-append es (e ∷ [])))
  append-Holds k (x ∷ es) e (inr held) = inr (append-Holds k es e held)

  new-Holds : (es : List ReplayEntry) → Holds 0 (es ++ (entry ∷ []))
  new-Holds [] = inl (refl, omega arith)
  new-Holds (x ∷ es) = inr (new-Holds es)

  trim-Holds : (k max : ℕ) (es : List ReplayEntry) → k < max → Holds k es → Holds k (trim max es)
  unfolding trim
  trim-Holds k max [] h held = held
  trim-Holds k max (e ∷ es) h (inl (p, q)) =
      let fits : ltb max (length (e ∷ es)) ≡ false = ground arith in rw fits (inl (p, q))
  trim-Holds k max (e ∷ es) h (inr held) = elim (Bool-cases (ltb max (length (e ∷ es)))) [
    | inl over ↦ rw over (trim-Holds k max es h held)
    | inr fits ↦ rw fits (inr held)
  ]

  Recorded-of_Holds : (k : ℕ) (es : List ReplayEntry) → Holds k es → Recorded ts nonce es
  Recorded-of_Holds k [] held = held
  Recorded-of_Holds k (e ∷ es) (inl (p, q)) = inl (ap (λ x. x.ts) p, ap (λ x. x.nonce) p)
  Recorded-of_Holds k (e ∷ es) (inr held) = inr (Recorded-of_Holds k es held)

  -- On record with few entries behind it, or too old at the time `last`.
  abbrev Spent : ℕ → ℕ → ReplayWindow → Type 0
  Spent last k w = Holds k w.entries ⊎ (ts + w.window < last)

  old_of_dead :
      (window now : ℕ)
      → IsTime now
      → IsTime ts
      → window < 2 ^ 32
      → is_live window now entry ≡ false
      → ts + window < now
  old_of_dead window now hn ht hw h = ground arith

  module _ (last : ℕ) (hl : IsTime last) (ht : IsTime ts) where
    check-Spent :
        (now ts' : ℕ) (nonce' : Bytes) (k : ℕ) (w : ReplayWindow)
        → w.window < 2 ^ 32
        → now ≤ last
        → Spent last k w
        → Spent last k (replay_check now ts' nonce' w).1
    unfolding replay_check
    check-Spent now ts' nonce' k w hw hn spent =
        elim (Bool-cases (lt_i64 w.window (abs_i64 (sub_i64 now ts')))) [
          | inl out ↦ rw out spent
          | inr inside ↦ rw inside (kept spent)
        ]
      where
        kept :
            Spent last k w
            → Holds k (retain (is_live w.window now) w.entries) ⊎ (ts + w.window < last)
        kept (inr old) = inr old
        kept (inl held) = elim (Bool-cases (is_live w.window now entry)) [
          | inl live ↦ inl (retain-Holds (is_live w.window now) k w.entries live held)
          | inr dead ↦ inr (omega (arith, old_of_dead w.window now (omega arith) ht hw dead))
        ]

    add-Spent :
        (ts' : ℕ) (nonce' : Bytes) (k : ℕ) (w : ReplayWindow)
        → suc k < w.max_size
        → Spent last k w
        → Spent last (suc k) (replay_add ts' nonce' w)
    unfolding replay_add
    add-Spent ts' nonce' k w h (inl held) =
        inl (trim-Holds (suc k) w.max_size _ h (append-Holds k w.entries _ held))
    add-Spent ts' nonce' k w h (inr old) = inr old

    turns-refuse :
        (ts' : List Turn) (k : ℕ) (w : ReplayWindow)
        → w.window < 2 ^ 32
        → Until last ts'
        → k + adds ts' < w.max_size
        → Spent last k w
        → (replay_check last ts nonce (turns ts' w)).0 ≢ true
    unfolding turns turn
    turns-refuse [] k w hw hu hk spent = λ e.
        let (late, early, fresh) = (replay_check-accepts ts nonce last w hl ht hw).0 e in
        elim spent [
          | inl held ↦ fresh (Recorded-of_Holds k w.entries held)
          | inr old ↦ absurd (omega arith)
        ]
    turns-refuse (check now t n ∷ ts') k w hw (hn, hu) hk spent =
        let limits = check_limits now t n w in
        turns-refuse ts' k (replay_check now t n w).1 (omega (arith, limits)) hu
          (omega (arith, limits)) (check-Spent now t n k w hw hn spent)
    turns-refuse (add t n ∷ ts') k w hw hu hk spent =
        turns-refuse ts' (suc k) (replay_add t n w) (unfold replay_add in hw) hu
          (unfold replay_add in (omega arith)) (add-Spent t n k w (omega arith) spent)

    -- No replay: once a packet is added to the record, it is refused at the time `last`, whatever
    -- turns the other holders of the record take in between, as long as they add fewer packets
    -- than the record can hold (`max_size`) and check no packet at a time behind `last`. Times are
    -- below 2 ^ 62 and the window is below 2 ^ 32.
    pub replay_add-once :
        (between : List Turn) (w : ReplayWindow)
        → w.window < 2 ^ 32
        → Until last between
        → adds between < w.max_size
        → (replay_check last ts nonce (turns between (replay_add ts nonce w))).0 ≡ false
    replay_add-once between w hw hu hk = elim (Bool-cases _) [
      | inl e ↦ absurd (refused e)
      | inr e ↦ e
    ]
      where
        refused : (replay_check last ts nonce (turns between (replay_add ts nonce w))).0 ≢ true
        refused =
            turns-refuse between 0 (replay_add ts nonce w) (unfold replay_add in hw) hu
              (unfold replay_add in (omega arith))
              (unfold replay_add in
                inl (trim-Holds 0 w.max_size _ (omega arith) (new-Holds w.entries)))
