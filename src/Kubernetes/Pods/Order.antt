-- ===== src/Kubernetes/Pods/Order.antt =====
-- `sort.Slice` by a text field, and the order of Go's texts.
use Prim.Native.Char.{code}
use Prim.Native.String.{[], ◌∷◌}
use mathlib.Core.List.{[] as nil, ◌∷◌ as cons}
use mathlib.Core.List.{Perm}
use mathlib.Core.List.Perm
use buildkit_cli_for_kubectl.Prelude.{
  String, ◌≡◌, refl, Bool, true, false, ◌||◌, ◌&&◌, List, nat_eq, ltb, if◌then◌else◌, arith,
  Bool-cases, inl, inr,
}

-- `s < t` on texts
pub before : String → String → Bool
before [] [] = false
before [] (d ∷ t) = true
before (c ∷ s) [] = false
before (c ∷ s) (d ∷ t) = ltb (code c) (code d) || nat_eq (code c) (code d) && before s t

before-asymm : (s t : String) → before s t ≡ true → before t s ≡ false
unfolding before
before-asymm [] [] h = refl
before-asymm [] (d ∷ t) h = refl
before-asymm (c ∷ s) [] h = absurd (cc)
before-asymm (c ∷ s) (d ∷ t) h = ground (arith, before-asymm s t)

module _ {ℓ} {A : Type ℓ} (f : A → String) where
  pub place : A → List A → List A
  place x nil = cons x nil
  place x (List.◌∷◌ y ys) =
      let rest = place x ys in if before (f x) (f y) then cons x (cons y ys) else cons y rest

  unfoldable pub sort_by : List A → List A
  unfolding place
  sort_by nil = nil
  sort_by (List.◌∷◌ x xs) = place x (sort_by xs)

  -- No element's text is before that of the element in front of it.
  abbrev pub IsSorted : List A → Type 0
  IsSorted nil = Unit
  IsSorted (List.◌∷◌ x nil) = Unit
  IsSorted (List.◌∷◌ x (List.◌∷◌ y ys)) = (before (f y) (f x) ≡ false) × IsSorted (cons y ys)

  place-Perm : (x : A) (ys : List A) → Perm (place x ys) (cons x ys)
  unfolding place
  place-Perm x nil = Perm.refl (cons x nil)
  place-Perm x (List.◌∷◌ y ys) = elim (Bool-cases (before (f x) (f y))) [
    | inl e ↦ rw e (Perm.refl (cons x (cons y ys)))
    | inr n ↦ rw n (Perm.trans (Perm.cons y (place-Perm x ys)) (Perm.swap x y ys))
  ]

  pub sort_by-Perm : (xs : List A) → Perm (sort_by xs) xs
  unfolding sort_by
  sort_by-Perm nil = Perm.refl nil
  sort_by-Perm (List.◌∷◌ x xs) =
      Perm.trans (place-Perm x (sort_by xs)) (Perm.cons x (sort_by-Perm xs))

  place-IsSorted : (x : A) (ys : List A) → IsSorted ys → IsSorted (place x ys)
  unfolding place
  place-IsSorted x nil h = tt
  place-IsSorted x (List.◌∷◌ y nil) h = elim (Bool-cases (before (f x) (f y))) [
    | inl e ↦ rw e (before-asymm (f x) (f y) e, tt)
    | inr n ↦ rw n (n, tt)
  ]
  place-IsSorted x (List.◌∷◌ y (List.◌∷◌ z zs)) h = elim (Bool-cases (before (f x) (f y))) [
    | inl e ↦ rw e (before-asymm (f x) (f y) e, h)
    | inr n ↦ rw n (second n (place-IsSorted x (cons z zs) h.1))
  ]
    where
      second :
          before (f x) (f y) ≡ false
          → IsSorted (place x (cons z zs))
          → IsSorted (cons y (place x (cons z zs)))
      second n k = elim (Bool-cases (before (f x) (f z))) [
        | inl e ↦ rw e (n, rw e at k)
        | inr m ↦ rw m (h.0, rw m at k)
      ]

  pub sort_by-IsSorted : (xs : List A) → IsSorted (sort_by xs)
  unfolding sort_by
  sort_by-IsSorted nil = tt
  sort_by-IsSorted (List.◌∷◌ x xs) = place-IsSorted x (sort_by xs) (sort_by-IsSorted xs)
