-- ===== src/Build/Drivers/Pairs.antt =====
-- Which driver builds which platform, and which drivers are booted.
use mathlib.Core.List.{Perm, flatten, append_assoc, append-nil, perm_middle}
use mathlib.Core.List.Perm
use buildkit_cli_for_kubectl.Prelude.{
  ℕ, ◌≡◌, refl, sym, ◌∙◌, true, false, ◌||◌, List, [], ◌∷◌, ◌++◌, map, Map, lookup, lookup_or,
  Option, none, some, ◌⊎◌, subst, nat_eq, All, All-append, Bool-cases, inl, inr, arith,
}
use buildkit_cli_for_kubectl.Platform.{Platforms}
use buildkit_cli_for_kubectl.Build.Drivers.{
  DriverPair, has_index, indexes_from, all_pairs, driver_indexes, add_platform, split_platforms,
}

module _ (p : Platforms) where
  open p use {Platform, format}

  abbrev pub platforms_of : List (DriverPair p) → List Platform
  platforms_of ds = flatten (map DriverPair.platforms ds)

  abbrev pub indexes_of : List (DriverPair p) → List ℕ
  indexes_of ds = map DriverPair.driver_index ds

  -- No number stands twice.
  abbrev pub DistinctIndexes : List ℕ → Type 0
  DistinctIndexes [] = Unit
  DistinctIndexes (i ∷ is) = (has_index p i is ≡ false) × DistinctIndexes is

  -- A platform goes to the driver under which it is available, and to the first one where it is under none.
  abbrev pub GoesTo : Map ℕ → ℕ → Platform → Type 0
  GoesTo available i q =
      (lookup (format q) available ≡ some i) ⊎ ((lookup (format q) available ≡ none) × (i ≡ 0))

  abbrev pub IsOffered : Map ℕ → DriverPair p → Type 0
  IsOffered available d = All (GoesTo available d.driver_index) d.platforms

  lookup_or-GoesTo :
      (available : Map ℕ) (q : Platform) → GoesTo available (lookup_or 0 (format q) available) q
  lookup_or-GoesTo available q = go (lookup (format q) available)
    where
      go :
          (o : Option ℕ)
          → (o ≡ some (elim o as (λ k. ℕ) [ none ↦ 0 | some v ↦ v ]))
            ⊎ ((o ≡ none) × (elim o as (λ k. ℕ) [ none ↦ 0 | some v ↦ v ] ≡ 0))
      go none = inr (refl, refl)
      go (some v) = inl refl

  eq_of_nat : (i j : ℕ) → nat_eq i j ≡ true → i ≡ j
  eq_of_nat i j h = ground arith

  add_platform-Perm :
      (i : ℕ) (q : Platform) (ds : List (DriverPair p))
      → Perm (platforms_of (add_platform p i q ds)) (q ∷ platforms_of ds)
  unfolding add_platform flatten
  add_platform-Perm i q [] = Perm.refl (q ∷ [])
  add_platform-Perm i q (d ∷ ds) = elim (Bool-cases (nat_eq d.driver_index i)) [
    | inl e ↦ rw e (
        rw (append_assoc d.platforms (q ∷ []) (platforms_of ds))
          (perm_middle d.platforms (platforms_of ds)))
    | inr n ↦ rw n (
        Perm.trans (Perm.append_left d.platforms (add_platform-Perm i q ds))
          (perm_middle d.platforms (platforms_of ds)))
  ]

  has_index-add_platform :
      (i j : ℕ) (q : Platform) (ds : List (DriverPair p))
      → has_index p j (indexes_of (add_platform p i q ds))
        ≡ (nat_eq i j || has_index p j (indexes_of ds))
  unfolding add_platform has_index
  has_index-add_platform i j q [] = refl
  has_index-add_platform i j q (d ∷ ds) = ground (arith, has_index-add_platform i j q ds)

  add_platform-DistinctIndexes :
      (i : ℕ) (q : Platform) (ds : List (DriverPair p))
      → DistinctIndexes (indexes_of ds)
      → DistinctIndexes (indexes_of (add_platform p i q ds))
  unfolding add_platform has_index
  add_platform-DistinctIndexes i q [] h = (refl, tt)
  add_platform-DistinctIndexes i q (d ∷ ds) h = elim (Bool-cases (nat_eq d.driver_index i)) [
    | inl e ↦ rw e h
    | inr n ↦ rw n (
      has_index-add_platform i d.driver_index q ds ∙ ground (arith, h.0),
      add_platform-DistinctIndexes i q ds h.1,
    )
  ]

  add_platform-IsOffered :
      (available : Map ℕ) (q : Platform) (ds : List (DriverPair p))
      → All (IsOffered available) ds
      → All (IsOffered available) (add_platform p (lookup_or 0 (format q) available) q ds)
  unfolding add_platform
  add_platform-IsOffered available q [] h = ((lookup_or-GoesTo available q, tt), tt)
  add_platform-IsOffered available q (d ∷ ds) h =
      elim (Bool-cases (nat_eq d.driver_index (lookup_or 0 (format q) available))) [
        | inl e ↦ rw e (
          All-append (GoesTo available d.driver_index) d.platforms (q ∷ []) h.0 (
            subst (λ i. GoesTo available i q) (sym (eq_of_nat d.driver_index _ e))
                (lookup_or-GoesTo available q),
            tt,
          ),
          h.1,
        )
        | inr n ↦ rw n (h.0, add_platform-IsOffered available q ds h.1)
      ]

  -- The pairs of a target share out its platforms, each once; no driver has two of the pairs; and a
  -- platform goes to the driver under which it is available, and to the first driver where it is under none.
  pub split_platforms-Perm :
      (available : Map ℕ) (qs : List Platform)
      → Perm (platforms_of (split_platforms p available [] qs)) qs
        × DistinctIndexes (indexes_of (split_platforms p available [] qs))
        × All (IsOffered available) (split_platforms p available [] qs)
  unfolding split_platforms flatten
  split_platforms-Perm available qs = from [] qs tt tt
    where
      from :
          (ds : List (DriverPair p)) (qs : List Platform)
          → DistinctIndexes (indexes_of ds)
          → All (IsOffered available) ds
          → Perm (platforms_of (split_platforms p available ds qs)) (platforms_of ds ++ qs)
            × DistinctIndexes (indexes_of (split_platforms p available ds qs))
            × All (IsOffered available) (split_platforms p available ds qs)
      from ds [] h k = (rw append-nil (Perm.refl (platforms_of ds)), h, k)
      from ds (q ∷ qs) h k =
          let i = lookup_or 0 (format q) available in
          let rest =
            from (add_platform p i q ds) qs (add_platform-DistinctIndexes i q ds h)
              (add_platform-IsOffered available q ds k) in
          (
            Perm.trans rest.0 (
                Perm.trans (Perm.append_right qs (add_platform-Perm i q ds))
                  (Perm.symm (perm_middle (platforms_of ds) qs))),
            rest.1,
            rest.2,
          )

  has_index-indexes_from :
      (i : ℕ) (visited : List ℕ) (ds : List (DriverPair p))
      → (has_index p i visited || has_index p i (indexes_from p visited ds))
        ≡ (has_index p i visited || has_index p i (indexes_of ds))
  unfolding indexes_from has_index
  has_index-indexes_from i visited [] = refl
  has_index-indexes_from i visited (d ∷ ds) = ground (
    arith,
    has_index-indexes_from i visited ds,
    has_index-indexes_from i (d.driver_index ∷ visited) ds,
  )

  not_visited-indexes_from :
      (i : ℕ) (visited : List ℕ) (ds : List (DriverPair p))
      → has_index p i visited ≡ true
      → has_index p i (indexes_from p visited ds) ≡ false
  unfolding indexes_from has_index
  not_visited-indexes_from i visited [] h = refl
  not_visited-indexes_from i visited (d ∷ ds) h = ground (
    arith,
    not_visited-indexes_from i visited ds,
    not_visited-indexes_from i (d.driver_index ∷ visited) ds,
  )

  indexes_from-DistinctIndexes :
      (visited : List ℕ) (ds : List (DriverPair p)) → DistinctIndexes (indexes_from p visited ds)
  unfolding indexes_from has_index
  indexes_from-DistinctIndexes visited [] = tt
  indexes_from-DistinctIndexes visited (d ∷ ds) =
      elim (Bool-cases (has_index p d.driver_index visited)) [
        | inl old ↦ rw old (indexes_from-DistinctIndexes visited ds)
        | inr new ↦ rw new (
          not_visited-indexes_from d.driver_index (d.driver_index ∷ visited) ds
              (here d.driver_index visited),
          indexes_from-DistinctIndexes (d.driver_index ∷ visited) ds,
        )
      ]
    where
      here : (i : ℕ) (is : List ℕ) → has_index p i (i ∷ is) ≡ true
      here i is = ground arith

  -- `driverIndexes` has each index once, and exactly the indexes of the pairs.
  pub driver_indexes_lem :
      (m : Map (List (DriverPair p)))
      → DistinctIndexes (driver_indexes p m)
        × ((i : ℕ)
            → has_index p i (driver_indexes p m) ≡ has_index p i (indexes_of (all_pairs p m)))
  unfolding driver_indexes has_index
  driver_indexes_lem m = (
    indexes_from-DistinctIndexes [] (all_pairs p m),
    λ i. has_index-indexes_from i [] (all_pairs p m),
  )
