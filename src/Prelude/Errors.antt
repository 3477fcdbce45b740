-- ===== src/Prelude/Errors.antt =====
-- Go's `(value, error)` results. An error keeps the format and the arguments with which the code
-- makes it; `external` is an error value that code outside the repository returned.
use Prim.Native.String.{String}
use mathlib.Core.Path.{◌≡◌, refl, subst}
use mathlib.Core.Logic.{◌⊎◌, inl, inr}
use mathlib.Core.Bool.{Bool, true, false}
use mathlib.Core.List.{List, [], ◌∷◌}

pub data Error : Type 0 where
  errorf : String → List String → Error
  wrapf : Error → String → List String → Error
  external : String → Error

pub data Result {ℓ} (A : Type ℓ) : Type ℓ where
  ok : A → Result A
  err : Error → Result A

-- The next statement of a function, after `if err != nil { return err }`
infixl 5 ◌>>=◌
abbrev pub ◌>>=◌ {ℓ κ} : {A : Type ℓ} {B : Type κ} → Result A → (A → Result B) → Result B
ok value >>= next = next value
err problem >>= next = err problem

-- The same after a statement without a value
infixl 5 ◌>>◌
abbrev pub ◌>>◌ {ℓ} : {A : Type ℓ} → Result (Unit {0}) → Result A → Result A
first >> next = first >>= λ _. next

-- `if test { return err }`
abbrev pub fail_if : Bool → Error → Result (Unit {0})
fail_if true e = err e
fail_if false e = ok tt

abbrev pub is_ok {ℓ} : {A : Type ℓ} → Result A → Bool
is_ok (ok a) = true
is_ok (err e) = false

pub Result-cases {ℓ} :
    {A : Type ℓ} (m : Result A) → ((a : A) × (m ≡ ok a)) ⊎ ((e : Error) × (m ≡ err e))
Result-cases (ok a) = inl (a, refl)
Result-cases (err e) = inr (e, refl)

-- A loop that appends one result for each element and returns at the first error.
abbrev pub map_results {ℓ κ} : {A : Type ℓ} {B : Type κ} → (A → Result B) → List A → Result (List B)
map_results f [] = ok []
map_results f (x ∷ xs) = do y ← f x; ys ← map_results f xs; ok (y ∷ ys)

-- Whatever comes back without an error satisfies `P`.
abbrev pub Ensures {ℓ κ} : {A : Type ℓ} → (A → Type κ) → Result A → Type κ
Ensures P (ok a) = P a
Ensures P (err e) = Unit

module _ {ℓ κ} {A : Type ℓ} (P : A → Type κ) where
  pub Ensures-ok : (m : Result A) {a : A} → Ensures P m → m ≡ ok a → P a
  Ensures-ok (ok b) h e = subst P (ok_injective e) h
    where
      ok_injective : {a : A} → ok b ≡ ok a → b ≡ a
      ok_injective p = cc
  Ensures-ok (err x) h e = absurd (cc)

  pub Ensures-intro : (m : Result A) → ((a : A) → m ≡ ok a → P a) → Ensures P m
  Ensures-intro (ok a) h = h a refl
  Ensures-intro (err e) h = tt

module _ {ℓ κ ι} {A : Type ℓ} (P : A → Type κ) (Q : A → Type ι) where
  pub Ensures-weaken : (m : Result A) → ((a : A) → P a → Q a) → Ensures P m → Ensures Q m
  Ensures-weaken (ok a) f h = f a h
  Ensures-weaken (err e) f h = tt

module _ {ℓ κ ι υ} {A : Type ℓ} {B : Type κ} (P : A → Type ι) (Q : B → Type υ) where
  pub Ensures-bind :
      (m : Result A) (f : A → Result B)
      → Ensures P m
      → ((a : A) → P a → Ensures Q (f a))
      → Ensures Q (m >>= f)
  Ensures-bind (ok a) f h k = k a h
  Ensures-bind (err e) f h k = tt

module _ {ℓ κ υ} {A : Type ℓ} {B : Type κ} (Q : B → Type υ) where
  -- Nothing need be known of what the first step returns.
  pub Ensures-rest :
      (m : Result A) (f : A → Result B) → ((a : A) → Ensures Q (f a)) → Ensures Q (m >>= f)
  Ensures-rest (ok a) f k = k a
  Ensures-rest (err e) f k = tt

module _ {ℓ κ ι} {A : Type ℓ} (K : Type κ) (Q : A → Type ι) where
  -- A condition on the program may stand at the result.
  pub Ensures-given : (m : Result A) → (K → Ensures Q m) → Ensures (λ a. K → Q a) m
  Ensures-given (ok a) h = h
  Ensures-given (err e) h = tt
