-- ===== src/Build/Drivers.antt =====
-- The choice of drivers in pkg/build/build.go: `filterAvailableDrivers`, `driverIndexes`, `allIndexes`,
-- `splitToDriverPairs` and `resolveDrivers`. `Fleet` stands for the drivers' and BuildKit's calls.
pub mod Pairs
pub mod Bounds
pub mod Booting
use buildkit_cli_for_kubectl.Prelude.{
  ℕ, zero, suc, ◌+◌, String, Bool, true, false, not, ◌&&◌, ◌||◌, Option, none, some, List, [], ◌∷◌,
  ◌++◌, map, length, Map, lookup, lookup_or, insert, Result, ok, err, Error, errorf, wrapf, ◌>>=◌,
  if◌then◌else◌, nat_eq,
}
use buildkit_cli_for_kubectl.Platform.{Platforms}

module _ (p : Platforms) where
  open p use {Platform, normalize, format}

  -- `DriverInfo`; the driver itself is `none` where the pointer is nil.
  pub record DriverInfo (D : Type 0) : Type 0 where
    pub driver : Option D
    pub name : String
    pub platforms : List Platform
    pub error : Option Error

  module _ {D : Type 0} where
    is_available : DriverInfo D → Bool
    is_available di = elim di.error [
      | none ↦ elim di.driver [ none ↦ false | some d ↦ true ]
      | some e ↦ false
    ]

    -- The loop's `out` and `err`.
    filter_loop : Error → List (DriverInfo D) → List (DriverInfo D) × Error
    unfolding is_available
    filter_loop e [] = ([], e)
    filter_loop e (di ∷ dis) =
        let (out, e') = filter_loop (elim di.error [ none ↦ e | some x ↦ x ]) dis in
        (if is_available di then di ∷ out else out, e')

    some_available : List (DriverInfo D) × Error → Result (List (DriverInfo D))
    some_available ([], e) = err e
    some_available (di ∷ dis, e) = ok (di ∷ dis)

    unfoldable pub filter_available_drivers : List (DriverInfo D) → Result (List (DriverInfo D))
    unfolding filter_loop some_available
    filter_available_drivers dis = some_available (filter_loop (errorf "no drivers found" []) dis)

  -- The pair without its `so`, which `Build` fills in.
  pub record DriverPair : Type 0 where
    pub driver_index : ℕ
    pub platforms : List Platform

  unfoldable pub has_index : ℕ → List ℕ → Bool
  has_index i [] = false
  has_index i (j ∷ js) = nat_eq j i || has_index i js

  -- The inner loop of `driverIndexes`: the new indexes, from those in `visited`.
  indexes_from : List ℕ → List DriverPair → List ℕ
  unfolding has_index
  indexes_from visited [] = []
  indexes_from visited (d ∷ ds) =
      let again = indexes_from visited ds in
      let new = d.driver_index ∷ indexes_from (d.driver_index ∷ visited) ds in
      if has_index d.driver_index visited then again else new

  unfoldable pub all_pairs : Map (List DriverPair) → List DriverPair
  all_pairs [] = []
  all_pairs ((k, dps) ∷ m) = dps ++ all_pairs m

  -- Both loops share `visited` and `out`.
  unfoldable pub driver_indexes : Map (List DriverPair) → List ℕ
  unfolding indexes_from all_pairs
  driver_indexes m = indexes_from [] (all_pairs m)

  indexes_up : ℕ → ℕ → List ℕ
  indexes_up i zero = []
  indexes_up i (suc n) = i ∷ indexes_up (suc i) n

  unfoldable pub all_indexes : ℕ → List ℕ
  unfolding indexes_up
  all_indexes n = indexes_up 0 n

  -- `mm[idx] = append(mm[idx], p)`
  add_platform : ℕ → Platform → List DriverPair → List DriverPair
  add_platform i q [] = record { driver_index = i; platforms = q ∷ [] } ∷ []
  add_platform i q (d ∷ ds) =
      let rest = add_platform i q ds in
      if nat_eq d.driver_index i
      then record d { platforms = d.platforms ++ q ∷ [] } ∷ ds
      else d ∷ rest

  -- The pairs of one target. The map `mm` and the slice `dps` have the same entries.
  pub split_platforms : Map ℕ → List DriverPair → List Platform → List DriverPair
  unfolding add_platform
  split_platforms available dps [] = dps
  split_platforms available dps (q ∷ qs) =
      split_platforms available (add_platform (lookup_or 0 (format q) available) q dps) qs

  -- The targets: for each, the platforms that its options name.
  unfoldable pub split_to_driver_pairs : Map ℕ → Map (List Platform) → Map (List DriverPair)
  unfolding split_platforms
  split_to_driver_pairs available [] = []
  split_to_driver_pairs available ((k, qs) ∷ opt) =
      (k, split_platforms available [] qs) ∷ split_to_driver_pairs available opt

  -- `availablePlatforms`: a later driver takes a platform over.
  offer : ℕ → List Platform → Map ℕ → Map ℕ
  offer i [] m = m
  offer i (q ∷ qs) m = offer i qs (insert (format q) i m)

  unfoldable pub available_from : {D : Type 0} → ℕ → List (DriverInfo D) → Map ℕ → Map ℕ
  unfolding offer
  available_from i [] m = m
  available_from i (d ∷ ds) m = available_from (suc i) ds (offer i d.platforms m)

  -- `undetectedPlatform`, and whether `allPlatforms` has an entry
  any_undetected : Map ℕ → List Platform → Bool
  any_undetected m [] = false
  any_undetected m (q ∷ qs) = elim (lookup (format q) m) [
    | none ↦ true
    | some i ↦ any_undetected m qs
  ]

  unfoldable pub undetected : Map ℕ → Map (List Platform) → Bool
  unfolding any_undetected
  undetected m [] = false
  undetected m ((k, qs) ∷ opt) = any_undetected m qs || undetected m opt

  unfoldable pub no_platforms : Map (List Platform) → Bool
  no_platforms [] = true
  no_platforms ((k, []) ∷ opt) = no_platforms opt
  no_platforms ((k, q ∷ qs) ∷ opt) = false

  first_driver : Map (List Platform) → Map (List DriverPair)
  first_driver [] = []
  first_driver ((k, qs) ∷ opt) =
      (k, record { driver_index = 0; platforms = qs } ∷ []) ∷ first_driver opt

  -- What the workers report: the platforms of one worker list after the other, in the order in which
  -- `range clients` visits the clients; each list stands under its position in that order.
  learn : ℕ → List Platform → Map ℕ → Map ℕ
  learn i [] m = m
  learn i (q ∷ qs) m =
      let ps = format (normalize q) in
      learn i qs (elim (lookup ps m) [ none ↦ insert ps i m | some j ↦ m ])

  learn_from : ℕ → List (List Platform) → Map ℕ → Map ℕ
  unfolding learn
  learn_from i [] m = m
  learn_from i (ww ∷ wws) m = learn_from (suc i) wws (learn i ww m)

  -- `ensureBooted` and `ListWorkers` on each of the clients that it returned.
  pub record Fleet : Type 1 where
    pub Clients : Type 0
    pub ensure_booted : List ℕ → Result Clients
    pub list_workers : Clients → Result (List (List Platform))

  module _ (fleet : Fleet) where
    open fleet use {Clients, ensure_booted, list_workers}

    boot_pairs : Map (List DriverPair) → Result (Map (List DriverPair) × Clients)
    boot_pairs m = do clients ← ensure_booted (driver_indexes m); ok (m, clients)

    boot_all : Map ℕ → ℕ → Map (List Platform) → Result (Map (List DriverPair) × Clients)
    unfolding learn_from
    boot_all available n opt = do
      clients ← ensure_booted (all_indexes n)
      workers ← list_workers clients
      ok (split_to_driver_pairs (learn_from 0 workers available) opt, clients)

    unfoldable pub resolve_drivers :
        {D : Type 0}
        → List (DriverInfo D)
        → Map (List Platform)
        → Result (Map (List DriverPair) × Clients)
    unfolding available_from undetected no_platforms first_driver boot_pairs boot_all
    resolve_drivers drivers opt =
        let available = available_from 0 drivers [] in
        if nat_eq (length drivers) 1 || no_platforms opt
        then boot_pairs (first_driver opt)
        else if not (undetected available opt)
        then boot_pairs (split_to_driver_pairs available opt)
        else boot_all available (length drivers) opt
