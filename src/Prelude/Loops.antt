-- ===== src/Prelude/Loops.antt =====
-- Loops that try a step until it returns or a context is done. Such a loop runs on fuel; a measure of the
-- time that is left bounds the fuel that it needs.
use Prim.Native.Nat.{ℕ, zero, suc, ◌<◌}
use mathlib.Core.Path.{◌≡◌, refl}
use mathlib.Core.Logic.{◌⊎◌, inl, inr}
use mathlib.Core.Bool.{Bool, true, false}
use native.Mathlib.Omega.{arith}
use buildkit_cli_for_kubectl.Prelude.Tests.{if◌then◌else◌, Bool-cases}

-- What a step does in the end: it returns from the function, or the next one follows, with the error that it
-- leaves.
pub data Step (E : Type 0) (R : Type 0) : Type 0 where
  returned : R → Step E R
  goes_on : E → Step E R

-- The pieces of the loop: the result without fuel, the look at the context, the result of an error when the
-- context is done, and the step.
pub record Tries (E R W : Type 0) : Type 0 where
  pub out_of_fuel : R
  pub is_done : W → Bool
  pub give_up : E → R
  pub step : W → Step E R × W

module _ {E R W : Type 0} (t : Tries E R W) where
  open t use {is_done, give_up, step}

  abbrev pub continue : (E → W → R × W) → Step E R × W → R × W
  continue next (returned r, w) = (r, w)
  continue next (goes_on e, w) = next e w

  -- The loop, with the error from before
  unfoldable pub try_until_done : ℕ → E → W → R × W
  try_until_done zero e w = (t.out_of_fuel, w)
  try_until_done (suc fuel) e w =
      if is_done w then (give_up e, w) else continue (λ x v. try_until_done fuel x v) (step w)

  -- The loop has come to its end, where `P` holds of what a step returned.
  abbrev pub Ends : (R → W → Type 0) → R × W → Type 0
  Ends P r =
      ((e : E) × (u : W) × (is_done u ≡ true) × (r ≡ (give_up e, u)))
      ⊎ ((u v : W) × (x : R) × (is_done u ≡ false)
          × (step u ≡ (returned x, v))
          × P x v
          × (r ≡ (x, v)))

  -- `P` holds of what every step returns, and each step that goes on takes some of the time that is left.
  module _ (P : R → W → Type 0) (holds : (u v : W) (x : R) → step u ≡ (returned x, v) → P x v)
      (left : W → ℕ)
      (passes : (u v : W) (e : E)
        → is_done u ≡ false
        → step u ≡ (goes_on e, v)
        → left v < left u) where
    pub try_until_done-Ends :
        (fuel : ℕ) (e : E) (w : W) → left w < fuel → Ends P (try_until_done fuel e w)
    unfolding try_until_done
    try_until_done-Ends zero e w h = absurd (omega (arith, h))
    try_until_done-Ends (suc fuel) e w h = elim (Bool-cases (is_done w)) [
      | inl d ↦ inl (e, w, d, rw d refl)
      | inr d ↦ rw d (
          go (step w) refl d
            (λ x v k. try_until_done-Ends fuel x v (omega (arith, h, passes w v x d k))))
    ]
      where
        go :
            (m : Step E R × W)
            → step w ≡ m
            → is_done w ≡ false
            → ((x : E) (v : W) → step w ≡ (goes_on x, v) → Ends P (try_until_done fuel x v))
            → Ends P (continue (λ x v. try_until_done fuel x v) m)
        go (returned x, v) k d later = inr (w, v, x, d, k, holds w v x k, refl)
        go (goes_on x, v) k d later = later x v k

  -- Every step keeps `P`.
  module _ (P : W → Type 0) (keeps : (u : W) → P u → P (step u).1) where
    pub try_until_done-keeps : (fuel : ℕ) (e : E) (w : W) → P w → P (try_until_done fuel e w).1
    unfolding try_until_done
    try_until_done-keeps zero e w h = h
    try_until_done-keeps (suc fuel) e w h = elim (Bool-cases (is_done w)) [
      | inl d ↦ rw d h
      | inr d ↦ rw d (go (λ x v k. try_until_done-keeps fuel x v k) (step w) (keeps w h))
    ]
      where
        go :
            ((x : E) (v : W) → P v → P (try_until_done fuel x v).1)
            → (m : Step E R × W) → P m.1
            → P (continue (λ x v. try_until_done fuel x v) m).1
        go later (returned x, v) k = k
        go later (goes_on x, v) k = later x v k
