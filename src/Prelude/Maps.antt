-- ===== src/Prelude/Maps.antt =====
-- Go maps with text keys: an association list in which a key stands once. A `range` over a map
-- visits the pairs in the list's order, which stands for the order that the runtime happens to take.
use Prim.Native.String.{String}
use mathlib.Core.Path.{◌≡◌, refl}
use mathlib.Core.List.{List, [], ◌∷◌, ◌++◌}
use mathlib.Core.Bool.{Bool, false, ◌||◌}
use mathlib.Core.Option.{Option, none, some}
use native.Mathlib.Omega.{arith}
use text.Mathlib.Text.{◌==◌}
use text.Mathlib.TextEquality.{eq_iff}
use buildkit_cli_for_kubectl.Prelude.Tests.{if◌then◌else◌}

abbrev pub Map {ℓ} : Type ℓ → Type ℓ
Map V = List (String × V)

module _ {ℓ} {V : Type ℓ} where
  -- `m[k]` with its `ok` flag
  unfoldable pub lookup : String → Map V → Option V
  lookup k [] = none
  lookup k ((j, v) ∷ m) = if j == k then some v else lookup k m

  -- `m[k]`, with the zero value for a missing key
  abbrev pub lookup_or : V → String → Map V → V
  lookup_or d k m = elim (lookup k m) [ none ↦ d | some v ↦ v ]

  -- `m[k] = v`
  unfoldable pub insert : String → V → Map V → Map V
  insert k v [] = (k, v) ∷ []
  insert k v ((j, w) ∷ m) = let rest = insert k v m in if j == k then (k, v) ∷ m else (j, w) ∷ rest

  -- `delete(m, k)`
  unfoldable pub delete : String → Map V → Map V
  delete k [] = []
  delete k ((j, v) ∷ m) = let rest = delete k m in if j == k then rest else (j, v) ∷ rest

  pub lookup-insert :
      (key other : String) (v : V) (m : Map V)
      → lookup other (insert key v m) ≡ (if key == other then some v else lookup other m)
  unfolding insert lookup
  lookup-insert key other v [] = refl
  lookup-insert key other v ((first, w) ∷ m) =
      ground
        (arith, lookup-insert key other v m, eq_iff first key, eq_iff first other, eq_iff key other)

  pub lookup-delete :
      (k j : String) (m : Map V) → lookup j (delete k m) ≡ (if k == j then none else lookup j m)
  unfolding lookup delete
  lookup-delete k j [] = ground arith
  lookup-delete k j ((i, v) ∷ m) =
      ground (arith, lookup-delete k j m, eq_iff i k, eq_iff i j, eq_iff k j)

  -- A new key goes to the end.
  pub insert-append :
      (k : String) (v : V) (m : Map V) → lookup k m ≡ none → insert k v m ≡ m ++ (k, v) ∷ []
  unfolding lookup insert
  insert-append k v [] h = refl
  insert-append k v ((j, w) ∷ m) h = ground (arith, insert-append k v m)

  pub lookup-append :
      (k : String) (m n : Map V)
      → lookup k (m ++ n) ≡ elim (lookup k m) [ none ↦ lookup k n | some v ↦ some v ]
  unfolding lookup
  lookup-append k [] n = refl
  lookup-append k ((j, w) ∷ m) n = ground (arith, lookup-append k m n)

abbrev pub keys {ℓ} : {V : Type ℓ} → Map V → List String
keys [] = []
keys ((k, v) ∷ m) = k ∷ keys m

-- The text is one of the list.
unfoldable pub is_in : String → List String → Bool
is_in key [] = false
is_in key (k ∷ ks) = k == key || is_in key ks

-- No text stands twice.
abbrev pub Distinct : List String → Type 0
Distinct [] = Unit
Distinct (k ∷ ks) = (is_in k ks ≡ false) × Distinct ks

-- A key that stands nowhere in a map is not found.
pub lookup-is_in {ℓ} :
    {V : Type ℓ} (k : String) (m : Map V) → is_in k (keys m) ≡ false → lookup k m ≡ none
unfolding lookup is_in
lookup-is_in k [] h = refl
lookup-is_in k ((j, v) ∷ m) h = ground (arith, lookup-is_in k m)

pub ruleset map_laws = (lookup-insert, lookup-delete)
