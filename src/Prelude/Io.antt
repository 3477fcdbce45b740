-- ===== src/Prelude/Io.antt =====
-- Code that changes the world outside it and may fail: the world comes back beside an error too.
use mathlib.Core.Path.{◌≡◌, refl}
use buildkit_cli_for_kubectl.Prelude.Errors.{Error, Result, ok, err, Ensures}

abbrev pub Io {ℓ} : Type 0 → Type ℓ → Type ℓ
Io W A = W → Result A × W

module _ {ℓ} {W : Type 0} {A : Type ℓ} where
  abbrev pub pure : A → Io W A
  pure a w = (ok a, w)

  abbrev pub throw : Error → Io W A
  throw e w = (err e, w)

  abbrev pub lift : Result A → Io W A
  lift r w = (r, w)

module _ {ℓ κ} {W : Type 0} {A : Type ℓ} {B : Type κ} where
  abbrev continue : Result A → (A → Io W B) → Io W B
  continue (ok a) f w = f a w
  continue (err e) f w = (err e, w)

  infixl 5 ◌>>=◌
  abbrev pub ◌>>=◌ : Io W A → (A → Io W B) → Io W B
  ◌>>=◌ m f w = let (r, w') = m w in continue r f w'

module _ {ℓ κ ι υ} {W : Type 0} {A : Type ℓ} {B : Type κ} (P : A → Type ι) (Q : B → Type υ) where
  continue-Ensures :
      (r : Result A) (f : A → Io W B) (w : W)
      → Ensures P r
      → ((a : A) (v : W) → P a → Ensures Q (f a v).0)
      → Ensures Q (continue r f w).0
  continue-Ensures (ok a) f w h k = k a w h
  continue-Ensures (err e) f w h k = tt

  -- What a first step ensures is known in the rest of a `do` block.
  pub Io-Ensures :
      (m : Io W A) (f : A → Io W B) (w : W)
      → Ensures P (m w).0
      → ((a : A) (v : W) → P a → Ensures Q (f a v).0)
      → Ensures Q ((m >>= f) w).0
  Io-Ensures m f w = continue-Ensures (m w).0 f (m w).1

module _ {ℓ κ υ} {W : Type 0} {A : Type ℓ} {B : Type κ} (Q : Result B × W → Type υ) where
  -- A property of a `do` block, from what its first step returns.
  pub Io-cases :
      (m : Io W A) (f : A → Io W B) (w : W)
      → ((a : A) (v : W) → m w ≡ (ok a, v) → Q (f a v))
      → ((e : Error) (v : W) → m w ≡ (err e, v) → Q (err e, v))
      → Q ((m >>= f) w)
  Io-cases m f w good bad = go (m w).0 (m w).1 refl
    where
      go : (r : Result A) (v : W) → m w ≡ (r, v) → Q (continue r f v)
      go (ok a) v h = good a v h
      go (err e) v h = bad e v h

-- What the two steps of a `do` block keep, the block keeps.
pub Io-keeps {ℓ κ} :
    {W : Type 0} {A : Type ℓ} {B : Type κ} (P : W → Type 0) (m : Io W A) (f : A → Io W B) (w : W)
    → P (m w).1
    → ((a : A) (v : W) → m w ≡ (ok a, v) → P v → P (f a v).1)
    → P ((m >>= f) w).1
Io-keeps {W = W} {A = A} {B = B} P m f w h k = go (m w).0 (m w).1 refl h
  where
    go : (r : Result A) (v : W) → m w ≡ (r, v) → P v → P (continue r f v).1
    go (ok a) v e p = k a v e p
    go (err e) v e' p = p
