-- ===== src/Prelude/Tests.antt =====
-- Boolean tests on native numbers and byte strings, and the conditional.
use Prim.Native.Nat.{ℕ, ◌≤◌, ◌<◌, compare, Ordering}
use mathlib.Core.Path.{◌≡◌, refl}
use mathlib.Core.Logic.{◌≢◌, ◌⊎◌, inl, inr}
use mathlib.Core.Bool.{Bool, true, false, ◌&&◌}
use mathlib.Core.Option.{Option, none, some}
use mathlib.Core.List.{List, [], ◌∷◌}
use native.Mathlib.Omega.{arith}

infix 1 if◌then◌else◌
abbrev pub if◌then◌else◌ {ℓ} : {A : Type ℓ} → Bool → A → A → A
if true then x else y = x
if false then x else y = y

infix 50 ◌==◌
abbrev pub ◌==◌ : ℕ → ℕ → Bool
a == b = elim (compare a b) [ Ordering.eq ↦ true | _ ↦ false ]

abbrev pub ltb : ℕ → ℕ → Bool
ltb a b = elim (compare a b) [ Ordering.lt ↦ true | _ ↦ false ]

abbrev pub leb : ℕ → ℕ → Bool
leb a b = elim (compare a b) [ Ordering.gt ↦ false | _ ↦ true ]

-- Equality of byte strings and of texts kept as byte strings.
infix 50 ◌=b◌
abbrev pub ◌=b◌ : List ℕ → List ℕ → Bool
[] =b [] = true
[] =b (y ∷ ys) = false
(x ∷ xs) =b [] = false
(x ∷ xs) =b (y ∷ ys) = x == y && xs =b ys

pub ltb-false : (a b : ℕ) → b ≤ a → ltb a b ≡ false
ltb-false a b h = ground arith

pub ltb-true : (a b : ℕ) → a < b → ltb a b ≡ true
ltb-true a b h = ground arith

pub ==-refl : (a : ℕ) → (a == a) ≡ true
==-refl a = ground arith

pub ==-false : (a b : ℕ) → a ≢ b → (a == b) ≡ false
==-false a b h = ground arith

pub =b-refl : (xs : List ℕ) → (xs =b xs) ≡ true
=b-refl [] = refl
=b-refl (x ∷ xs) = ground (arith, =b-refl xs)

pub eq_of_=b : (xs ys : List ℕ) → (xs =b ys) ≡ true → xs ≡ ys
eq_of_=b [] [] h = refl
eq_of_=b [] (y ∷ ys) h = ground arith
eq_of_=b (x ∷ xs) [] h = ground arith
eq_of_=b (x ∷ xs) (y ∷ ys) h = ground (arith, eq_of_=b xs ys)

pub Bool-cases : (b : Bool) → (b ≡ true) ⊎ (b ≡ false)
Bool-cases true = inl refl
Bool-cases false = inr refl

pub Option-cases {ℓ} : {A : Type ℓ} (o : Option A) → (o ≡ none) ⊎ ((a : A) × (o ≡ some a))
Option-cases none = inl refl
Option-cases (some a) = inr (a, refl)

pub =b-false : (xs ys : List ℕ) → xs ≢ ys → (xs =b ys) ≡ false
=b-false xs ys n = elim (Bool-cases (xs =b ys)) [
  | inl e ↦ absurd (n (eq_of_=b xs ys e))
  | inr e ↦ e
]
