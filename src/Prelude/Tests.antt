-- ===== src/Prelude/Tests.antt =====
-- Boolean tests on numbers, the conditional, and case splits that keep the equation.
use Prim.Native.Nat.{ℕ, ◌≤◌, ◌<◌, compare, Ordering}
use mathlib.Core.Path.{◌≡◌, refl, subst}
use Prim.Native.String.{String}
use mathlib.Core.Logic.{◌⊎◌, ◌≢◌, inl, inr}
use text.Mathlib.Text.{◌==◌}
use text.Mathlib.TextEquality.{eq_iff}
use mathlib.Core.Bool.{Bool, true, false}
use mathlib.Core.Option.{Option, none, some}
use native.Mathlib.Omega.{arith}

abbrev pub ltb : ℕ → ℕ → Bool
ltb a b = elim (compare a b) [ Ordering.lt ↦ true | _ ↦ false ]

abbrev pub leb : ℕ → ℕ → Bool
leb a b = elim (compare a b) [ Ordering.gt ↦ false | _ ↦ true ]

abbrev pub nat_eq : ℕ → ℕ → Bool
nat_eq a b = elim (compare a b) [ Ordering.eq ↦ true | _ ↦ false ]

infix 1 if◌then◌else◌
abbrev pub if◌then◌else◌ {ℓ} : {A : Type ℓ} → Bool → A → A → A
if true then x else y = x
if false then x else y = y

pub leb→le : (a b : ℕ) → leb a b ≡ true → a ≤ b
leb→le a b h = ground arith

pub ltb→lt : (a b : ℕ) → ltb a b ≡ true → a < b
ltb→lt a b h = ground arith

pub Bool-cases : (b : Bool) → (b ≡ true) ⊎ (b ≡ false)
Bool-cases true = inl refl
Bool-cases false = inr refl

pub Option-cases {ℓ} : {A : Type ℓ} (o : Option A) → (o ≡ none) ⊎ ((a : A) × (o ≡ some a))
Option-cases none = inl refl
Option-cases (some a) = inr (a, refl)

-- What is there satisfies `P`.
abbrev pub Given {ℓ κ} : {A : Type ℓ} → (A → Type κ) → Option A → Type κ
Given P none = Unit
Given P (some a) = P a

module _ {ℓ κ} {A : Type ℓ} (P : A → Type κ) where
  pub Given-some : (o : Option A) (a : A) → Given P o → o ≡ some a → P a
  Given-some none a h e = absurd (cc)
  Given-some (some b) a h e = subst P (some_injective e) h
    where
      some_injective : {x y : A} → some x ≡ some y → x ≡ y
      some_injective q = cc

-- Two texts that compare as different are different; for literals the premise is `refl`.
pub text_ne : (s t : String) → (s == t) ≡ false → s ≢ t
text_ne s t h e = ground (arith, eq_iff s t)

pub eq_of_text : (s t : String) → (s == t) ≡ true → s ≡ t
eq_of_text s t h = (eq_iff s t).0 h

pub text_eq_false : (s t : String) → s ≢ t → (s == t) ≡ false
text_eq_false s t h = ground (arith, eq_iff s t)
