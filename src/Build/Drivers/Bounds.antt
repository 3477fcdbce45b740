-- ===== src/Build/Drivers/Bounds.antt =====
-- Bounds of the driver indexes of a build.
use buildkit_cli_for_kubectl.Prelude.{
  ℕ, suc, ◌+◌, ◌<◌, ◌≤◌, String, List, [], ◌∷◌, length, Map, lookup, lookup_or, insert,
  lookup-insert, ◌==◌, nat_eq, All, All-append, Bool-cases, inl, inr, arith,
}
use buildkit_cli_for_kubectl.Platform.{Platforms}
use buildkit_cli_for_kubectl.Build.Drivers.{
  DriverInfo, DriverPair, offer, available_from, add_platform, split_platforms,
  split_to_driver_pairs, all_pairs,
}

-- Every number that the map gives, the default for a missing key too, is below `n`.
IsBounded : ℕ → Map ℕ → Type 0
IsBounded n m = (k : String) → lookup_or 0 k m < n

module _ (p : Platforms) where
  open p use {Platform, format}

  insert-IsBounded :
      (n i : ℕ) (k : String) (m : Map ℕ) → i < n → IsBounded n m → IsBounded n (insert k i m)
  unfolding IsBounded
  insert-IsBounded n i k m h b j = elim (Bool-cases (k == j)) [
    | inl e ↦ rw (lookup_or, lookup-insert k j i m) (rw e h)
    | inr e ↦ rw (lookup_or, lookup-insert k j i m) (rw e (b j))
  ]

  offer-IsBounded :
      (n i : ℕ) (qs : List Platform) (m : Map ℕ)
      → i < n
      → IsBounded n m
      → IsBounded n (offer p i qs m)
  unfolding offer
  offer-IsBounded n i [] m h b = b
  offer-IsBounded n i (q ∷ qs) m h b =
      offer-IsBounded n i qs (insert (format q) i m) h (insert-IsBounded n i (format q) m h b)

  available_from-IsBounded :
      {D : Type 0} (n i : ℕ) (ds : List (DriverInfo p D)) (m : Map ℕ)
      → i + length ds ≤ n
      → IsBounded n m
      → IsBounded n (available_from p i ds m)
  unfolding available_from
  available_from-IsBounded n i [] m h b = b
  available_from-IsBounded n i (d ∷ ds) m h b =
      available_from-IsBounded n (suc i) ds (offer p i d.platforms m) (omega (arith, h))
        (offer-IsBounded n i d.platforms m (omega (arith, h)) b)

  abbrev pub IsIndex : ℕ → DriverPair p → Type 0
  IsIndex n d = d.driver_index < n

  add_platform-IsIndex :
      (n i : ℕ) (q : Platform) (ds : List (DriverPair p))
      → i < n
      → All (IsIndex n) ds
      → All (IsIndex n) (add_platform p i q ds)
  unfolding add_platform
  add_platform-IsIndex n i q [] h a = (h, tt)
  add_platform-IsIndex n i q (d ∷ ds) h a = elim (Bool-cases (nat_eq d.driver_index i)) [
    | inl e ↦ rw e a
    | inr e ↦ rw e (a.0, add_platform-IsIndex n i q ds h a.1)
  ]

  split_platforms-IsIndex :
      (n : ℕ) (available : Map ℕ) (dps : List (DriverPair p)) (qs : List Platform)
      → IsBounded n available
      → All (IsIndex n) dps
      → All (IsIndex n) (split_platforms p available dps qs)
  unfolding split_platforms IsBounded
  split_platforms-IsIndex n available dps [] b a = a
  split_platforms-IsIndex n available dps (q ∷ qs) b a =
      split_platforms-IsIndex n available (add_platform p (lookup_or 0 (format q) available) q dps)
        qs b (add_platform-IsIndex n (lookup_or 0 (format q) available) q dps (b (format q)) a)

  split_to_driver_pairs-IsIndex :
      (n : ℕ) (available : Map ℕ) (opt : Map (List Platform))
      → IsBounded n available
      → All (IsIndex n) (all_pairs p (split_to_driver_pairs p available opt))
  unfolding split_to_driver_pairs all_pairs
  split_to_driver_pairs-IsIndex n available [] b = tt
  split_to_driver_pairs-IsIndex n available ((k, qs) ∷ opt) b =
      All-append (IsIndex n) (split_platforms p available [] qs)
        (all_pairs p (split_to_driver_pairs p available opt))
        (split_platforms-IsIndex n available [] qs b tt)
        (split_to_driver_pairs-IsIndex n available opt b)

  -- Where there is a driver, and the platforms are those that the drivers say they have, each pair of each
  -- target names a position in the list of drivers.
  pub available_from-IsIndex :
      {D : Type 0} (d : DriverInfo p D) (ds : List (DriverInfo p D)) (opt : Map (List Platform))
      → All
          (IsIndex (length (d ∷ ds)))
          (all_pairs p (split_to_driver_pairs p (available_from p 0 (d ∷ ds) []) opt))
  unfolding IsBounded
  available_from-IsIndex d ds opt =
      split_to_driver_pairs-IsIndex (length (d ∷ ds)) (available_from p 0 (d ∷ ds) []) opt (
        available_from-IsBounded (length (d ∷ ds)) 0 (d ∷ ds) [] (omega arith)
          (λ k. unfold lookup in omega arith))
