-- ===== src/World/Chaining.antt =====
-- Actions on the outside of ktuctl-rs one behind the other, and a handler that takes entry after entry.
use ktuctl_rs.Prelude.{◌≡◌, refl, sym, ◌∙◌, List, [], ◌∷◌, ◌++◌}
use ktuctl_rs.Outcome.{Outcome, ok, err, panic, blocked, stuck}
use ktuctl_rs.World.{World, Net, and_then, pure}

pub and_then_assoc :
    {A B C : Type 0} (r : Outcome A × World) (f : A → Net B) (g : B → Net C)
    → and_then (and_then r f) g ≡ and_then r (λ a w. and_then (f a w) g)
and_then_assoc (ok a, w) f g = refl
and_then_assoc (err e, w) f g = refl
and_then_assoc (panic, w) f g = refl
and_then_assoc (blocked, w) f g = refl
and_then_assoc (stuck, w) f g = refl

pub and_then-pure : {A : Type 0} (r : Outcome A × World) → and_then r pure ≡ r
and_then-pure (ok a, w) = refl
and_then-pure (err e, w) = refl
and_then-pure (panic, w) = refl
and_then-pure (blocked, w) = refl
and_then-pure (stuck, w) = refl

-- The entries to the handler, one after the other.
abbrev pub feed : {T S : Type 0} → (T → S → Net S) → List T → S → Net S
feed handler [] s w = pure s w
feed handler (t ∷ ts) s w = and_then (handler t s w) (feed handler ts)

-- All entries, in order: those of the first datagrams, and those of the last one.
abbrev pub entries_of : {T : Type 0} → List (List T) → List T → List T
entries_of [] last = last
entries_of (ts ∷ tss) last = ts ++ entries_of tss last

pub feed-append :
    {T S : Type 0} (handler : T → S → Net S) (xs ys : List T) (s : S) (w : World)
    → feed handler (xs ++ ys) s w ≡ and_then (feed handler xs s w) (feed handler ys)
feed-append handler [] ys s w = refl
feed-append handler (x ∷ xs) ys s w =
    (λ i. and_then (handler x s w) (λ s' w'. feed-append handler xs ys s' w' i))
    ∙ sym (and_then_assoc (handler x s w) (feed handler xs) (feed handler ys))
