-- ===== src/Prelude/Tests.antt =====
-- Boolean tests on the native numbers, the conditional, texts and instants.
use Prim.Native.Nat.{ℕ, compare, Ordering}
use mathlib.Core.Path.{◌≡◌, refl}
use mathlib.Core.Logic.{◌↔◌, ◌⊎◌, inl, inr}
use mathlib.Core.Bool.{Bool, true, false}
use mathlib.Core.Option.{Option, none, some}
use native.Mathlib.Omega.{arith}

abbrev pub ltb : ℕ → ℕ → Bool
ltb a b = elim (compare a b) [ Ordering.lt ↦ true | _ ↦ false ]

abbrev pub leb : ℕ → ℕ → Bool
leb a b = elim (compare a b) [ Ordering.gt ↦ false | _ ↦ true ]

infix 50 ◌==◌
abbrev pub ◌==◌ : ℕ → ℕ → Bool
a == b = elim (compare a b) [ Ordering.eq ↦ true | _ ↦ false ]

infix 1 if◌then◌else◌
abbrev pub if◌then◌else◌ {ℓ} : {A : Type ℓ} → Bool → A → A → A
if true then x else y = x
if false then x else y = y

pub ==_iff : (a b : ℕ) → ((a == b) ≡ true) ↔ (a ≡ b)
==_iff a b = ground arith

-- To split on a computed value and keep the equation.
pub Bool-cases : (b : Bool) → (b ≡ true) ⊎ (b ≡ false)
Bool-cases true = inl refl
Bool-cases false = inr refl

pub Option-cases {ℓ} : {A : Type ℓ} (o : Option A) → (o ≡ none) ⊎ ((a : A) × (o ≡ some a))
Option-cases none = inl refl
Option-cases (some a) = inr (a, refl)

pub some_injective {ℓ} : {A : Type ℓ} {a b : A} → some a ≡ some b → a ≡ b
some_injective h = cc

abbrev pub is_none {ℓ} : {A : Type ℓ} → Option A → Bool
is_none none = true
is_none (some _) = false

-- A text that the program only compares with others is a number; the empty text is 0.
abbrev pub Text : Type 0
Text = ℕ

abbrev pub empty_text : Text
empty_text = 0

abbrev pub is_text : Option Text → Text → Bool
is_text none t = false
is_text (some s) t = s == t

-- A time.Time is a number of nanoseconds since Go's zero time, the first of January of year 1; a
-- time.Duration that is not negative is a number of nanoseconds.
abbrev pub Time : Type 0
Time = ℕ

abbrev pub Duration : Type 0
Duration = ℕ

abbrev pub is_zero_time : Time → Bool
is_zero_time t = t == 0

abbrev pub before : Time → Time → Bool
before a b = ltb a b

abbrev pub after : Time → Time → Bool
after a b = ltb b a

abbrev pub second : Duration
second = 1_000_000_000

abbrev pub minute : Duration
minute = 60_000_000_000

abbrev pub hour : Duration
hour = 3_600_000_000_000
