-- ===== src/Build/Drivers/Booting.antt =====
-- `ensureBooted` of pkg/build/build.go, and what `resolveDrivers` makes of it. The drivers boot side by side
-- in the code; here they boot in the order of the list, after the loop that empties their entries, and the
-- error that comes back is the first in that order. `Boot` is a parameter.
use buildkit_cli_for_kubectl.Prelude.{
  ℕ, String, ◌≡◌, refl, ◌∙◌, Bool, true, false, not, ◌||◌, Option, none, some, List, [], ◌∷◌,
  length, get_elem?, Map, lookup, lookup_or, insert, lookup-insert, Result, ok, err, Error, errorf,
  wrapf, ◌>>=◌, Ensures, Ensures-bind, Ensures-ok, Ensures-weaken, Ensures-given, Ensures-rest,
  subst, eq_refl, nat_eq, All, Bool-cases, inl, inr, ◌==◌, arith,
}
use buildkit_cli_for_kubectl.Platform.{Platforms}
use buildkit_cli_for_kubectl.Build.Drivers.{
  DriverInfo, DriverPair, Fleet, has_index, all_pairs, driver_indexes, resolve_drivers, boot_pairs,
  no_platforms, undetected, available_from, filter_available_drivers,
}
use buildkit_cli_for_kubectl.Build.Drivers.Pairs.{indexes_of, driver_indexes_lem}

module _ (p : Platforms) {D C : Type 0} (boot : D → Result (String × C))
    (drivers : List (DriverInfo p D)) where
  -- `map[string]map[string]*client.Client`, by driver and node
  abbrev pub Clients : Type 0
  Clients = Map (Map C)

  abbrev out_of_range : Error
  out_of_range = errorf "panic" ("index out of range" ∷ [])

  unfoldable pub driver_at : Option (DriverInfo p D) → Result (DriverInfo p D)
  driver_at none = err out_of_range
  driver_at (some di) = ok di

  -- The first loop's statements before the goroutine
  empty_entries : List ℕ → Clients → Result Clients
  unfolding driver_at
  empty_entries [] m = ok m
  empty_entries (i ∷ is) m = do
    di ← driver_at (get_elem? drivers i)
    empty_entries is (insert di.name [] m)

  boot_driver : Option D → Result (String × C)
  boot_driver none = err (errorf "panic" ("nil pointer dereference" ∷ []))
  boot_driver (some d) = boot d

  add_client : DriverInfo p D → String × C → Clients → Clients
  add_client di (node, c) m = insert di.name (insert node c (lookup_or [] di.name m)) m

  boot_each : List ℕ → Clients → Result Clients
  unfolding driver_at boot_driver add_client
  boot_each [] m = ok m
  boot_each (i ∷ is) m = do
    di ← driver_at (get_elem? drivers i)
    booted ← boot_driver di.driver
    boot_each is (add_client di booted m)

  unfoldable pub ensure_booted : List ℕ → Result Clients
  unfolding empty_entries boot_each
  ensure_booted is = do m ← empty_entries is []; boot_each is m

  -- The fleet of `resolveDrivers`, with what lists the workers of the clients
  abbrev pub fleet : (Clients → Result (List (List p.Platform))) → Fleet p
  fleet list_workers = record {
    Clients = Clients;
    ensure_booted = ensure_booted;
    list_workers = list_workers;
  }

  -- There is a client to solve with.
  is_cons {ℓ} : {A : Type ℓ} → Option (List A) → Bool
  is_cons none = false
  is_cons (some []) = false
  is_cons (some (x ∷ xs)) = true

  pub has_client : String → Clients → Bool
  unfolding is_cons
  has_client name m = is_cons (lookup name m)

  -- The loop of `Build` that takes any client of a driver
  pub first_client : Option (Map C) → Option C
  first_client none = none
  first_client (some []) = none
  first_client (some ((node, c) ∷ m)) = some c

  is_cons-first_client :
      (o : Option (Map C)) → is_cons o ≡ true → (c : C) × (first_client o ≡ some c)
  unfolding is_cons first_client
  is_cons-first_client none h = absurd (cc)
  is_cons-first_client (some []) h = absurd (cc)
  is_cons-first_client (some ((node, c) ∷ m)) h = (c, refl)

  pub has_client-first_client :
      (name : String) (m : Clients)
      → has_client name m ≡ true
      → (c : C) × (first_client (lookup name m) ≡ some c)
  unfolding has_client
  has_client-first_client name m h = is_cons-first_client (lookup name m) h

  pub record HasClient (m : Clients) (i : ℕ) : Type 0 where
    pub info : DriverInfo p D
    pub in_list : get_elem? drivers i ≡ some info
    pub found : has_client info.name m ≡ true

  Grows : Clients → Clients → Type 0
  Grows m n = (name : String) → has_client name m ≡ true → has_client name n ≡ true

  insert-cons : (k : String) (c : C) (m : Map C) → is_cons (some (insert k c m)) ≡ true
  unfolding insert is_cons
  insert-cons k c [] = refl
  insert-cons k c ((j, d) ∷ m) = ground arith

  add_client-found :
      (di : DriverInfo p D) (b : String × C) (m : Clients) (name : String)
      → (di.name == name) ≡ true
      → has_client name (add_client di b m) ≡ true
  unfolding has_client add_client
  add_client-found di (node, c) m name h =
      rw (lookup-insert di.name name (insert node c (lookup_or [] di.name m)) m)
        (rw h (insert-cons node c (lookup_or [] di.name m)))

  add_client-Grows :
      (di : DriverInfo p D) (b : String × C) (m : Clients) → Grows m (add_client di b m)
  unfolding Grows
  add_client-Grows di (node, c) m name h = elim (Bool-cases (di.name == name)) [
    | inl same ↦ add_client-found di (node, c) m name same
    | inr other ↦
        unfold has_client add_client in
        (rw (lookup-insert di.name name (insert node c (lookup_or [] di.name m)) m) (rw other h))
  ]

  Boots : List ℕ → Clients → Clients → Type 0
  Boots is m n = Grows m n × All (HasClient n) is

  cons-Boots :
      (i : ℕ) (is : List ℕ) (m : Clients) (di : DriverInfo p D) (b : String × C)
      → get_elem? drivers i ≡ some di
      → (n : Clients) → Boots is (add_client di b m) n
      → Boots (i ∷ is) m n
  unfolding Boots Grows
  cons-Boots i is m di b there n (grows, all) = (
    λ name h. grows name (unfold Grows in (add_client-Grows di b m) name h),
    (
      record {
        info = di;
        in_list = there;
        found = grows di.name (add_client-found di b m di.name (eq_refl di.name));
      },
      all,
    ),
  )

  driver_at-some : (o : Option (DriverInfo p D)) → Ensures (λ di. o ≡ some di) (driver_at o)
  unfolding driver_at
  driver_at-some none = tt
  driver_at-some (some di) = refl

  boot_each-Boots : (is : List ℕ) (m : Clients) → Ensures (Boots is m) (boot_each is m)
  unfolding boot_each Boots
  boot_each-Boots [] m = (unfold Grows in (λ name h. h), tt)
  boot_each-Boots (i ∷ is) m =
      Ensures-bind (λ di. get_elem? drivers i ≡ some di) (Boots (i ∷ is) m)
        (driver_at (get_elem? drivers i)) _ (driver_at-some (get_elem? drivers i))
        (λ di there. Ensures-rest (Boots (i ∷ is) m) (boot_driver di.driver) _ (λ booted.
          Ensures-weaken (Boots is (add_client di booted m)) (Boots (i ∷ is) m)
            (boot_each is (add_client di booted m)) (cons-Boots i is m di booted there)
            (boot_each-Boots is (add_client di booted m))))

  -- Where the drivers boot, each of the given indexes is that of a driver with a client.
  ensure_booted-HasClient : (is : List ℕ) → Ensures (λ m. All (HasClient m) is) (ensure_booted is)
  unfolding ensure_booted
  ensure_booted-HasClient is =
      Ensures-rest (λ m. All (HasClient m) is) (empty_entries is []) _
        (λ m.
          Ensures-weaken (Boots is m) (λ n. All (HasClient n) is) (boot_each is m)
            (λ n b. unfold Boots in b.1) (boot_each-Boots is m))

  HasClient-index :
      (m : Clients) (is : List ℕ)
      → All (HasClient m) is
      → (i : ℕ) → has_index p i is ≡ true
      → HasClient m i
  unfolding has_index
  HasClient-index m [] h i e = absurd (cc)
  HasClient-index m (j ∷ is) h i e = elim (Bool-cases (nat_eq j i)) [
    | inl same ↦ let q : j ≡ i = ground (arith, same) in subst (HasClient m) q h.0
    | inr other ↦ HasClient-index m is h.1 i (rw other at e)
  ]

  -- Every pair's driver has a client.
  unfoldable pub AllServed : Map (List (DriverPair p)) × Clients → Type 0
  AllServed (m, clients) =
      (i : ℕ) → has_index p i (indexes_of p (all_pairs p m)) ≡ true → HasClient clients i

  module _ (list_workers : Clients → Result (List (List p.Platform))) where
    boot_pairs-AllServed :
        (m : Map (List (DriverPair p))) → Ensures AllServed (boot_pairs p (fleet list_workers) m)
    unfolding boot_pairs AllServed
    boot_pairs-AllServed m =
        Ensures-bind (λ n. All (HasClient n) (driver_indexes p m)) AllServed
          (ensure_booted (driver_indexes p m)) _ (ensure_booted-HasClient (driver_indexes p m))
          (λ n h i e. HasClient-index n (driver_indexes p m) h i ((driver_indexes_lem p m).1 i ∙ e))

    -- Where one driver is there, no platform is asked for, or the drivers' platforms are known for all that are,
    -- each pair that `resolveDrivers` returns has the index of a driver with a client to solve with.
    pub resolve_drivers-AllServed :
        (opt : Map (List p.Platform))
        → ((nat_eq (length drivers) 1 || no_platforms p opt)
            || not (undetected p (available_from p 0 drivers []) opt))
          ≡ true
        → Ensures AllServed (resolve_drivers p (fleet list_workers) drivers opt)
    unfolding resolve_drivers
    resolve_drivers-AllServed opt known =
        elim (Bool-cases (nat_eq (length drivers) 1 || no_platforms p opt)) [
          | inl one ↦ rw one (boot_pairs-AllServed _)
          | inr many ↦
              let k : undetected p (available_from p 0 drivers []) opt ≡ false =
                ground (arith, known, many) in
              rw many (rw k (boot_pairs-AllServed _))
        ]

module _ (p : Platforms) {D C : Type 0} (boot : D → Result (String × C))
    (list_workers : Clients p boot [] → Result (List (List p.Platform))) where
  wrap_filtered : Result (List (DriverInfo p D)) → Result (List (DriverInfo p D))
  wrap_filtered (ok dis) = ok dis
  wrap_filtered (err e) = err (wrapf e "no valid drivers found" [])

  -- The drivers that are left, with the pairs and the clients
  abbrev pub Choice : Type 0
  Choice = List (DriverInfo p D) × Map (List (DriverPair p)) × Map (Map C)

  resolve_from : Map (List p.Platform) → List (DriverInfo p D) → Result Choice
  resolve_from opt dis = do
    r ← resolve_drivers p (fleet p boot dis list_workers) dis opt
    ok (dis, r.0, r.1)

  -- The start of `Build`
  unfoldable pub choose_drivers : List (DriverInfo p D) → Map (List p.Platform) → Result Choice
  unfolding wrap_filtered resolve_from
  choose_drivers [] opt = err (errorf "driver required for build" [])
  choose_drivers (di ∷ dis) opt =
      wrap_filtered (filter_available_drivers p (di ∷ dis)) >>= resolve_from opt

  -- No worker has to be asked: one driver is left, no platform is asked for, or all are known.
  unfoldable pub is_known : Map (List p.Platform) → List (DriverInfo p D) → Bool
  is_known opt dis =
      (nat_eq (length dis) 1 || no_platforms p opt)
      || not (undetected p (available_from p 0 dis []) opt)

  IsServed : Map (List p.Platform) → Choice → Type 0
  IsServed opt (dis, pairs, clients) =
      is_known opt dis ≡ true → AllServed p boot dis (pairs, clients)

  resolve_from-IsServed :
      (opt : Map (List p.Platform)) (dis : List (DriverInfo p D))
      → Ensures (IsServed opt) (resolve_from opt dis)
  unfolding resolve_from IsServed is_known
  resolve_from-IsServed opt dis =
      Ensures-bind (λ r. is_known opt dis ≡ true → AllServed p boot dis r) (IsServed opt)
        (resolve_drivers p (fleet p boot dis list_workers) dis opt) _
        (Ensures-given (is_known opt dis ≡ true) (AllServed p boot dis) _
          (resolve_drivers-AllServed p boot dis list_workers opt))
        (λ r h. h)

  choose_drivers-IsServed :
      (dis : List (DriverInfo p D)) (opt : Map (List p.Platform))
      → Ensures (IsServed opt) (choose_drivers dis opt)
  unfolding choose_drivers
  choose_drivers-IsServed [] opt = tt
  choose_drivers-IsServed (di ∷ dis) opt =
      Ensures-rest (IsServed opt) (wrap_filtered (filter_available_drivers p (di ∷ dis))) _
        (λ left. resolve_from-IsServed opt left)

  -- Where `Build` has chosen its drivers and no worker had to be asked for its platforms, each pair of a target
  -- has the index of one of the drivers that are left, which has a client to solve with.
  pub choose_drivers-AllServed :
      (dis : List (DriverInfo p D)) (opt : Map (List p.Platform)) (left : List (DriverInfo p D))
      (pairs : Map (List (DriverPair p))) (clients : Map (Map C))
      → choose_drivers dis opt ≡ ok (left, pairs, clients)
      → is_known opt left ≡ true
      → AllServed p boot left (pairs, clients)
  unfolding IsServed
  choose_drivers-AllServed dis opt left pairs clients e =
      Ensures-ok (IsServed opt) (choose_drivers dis opt) (choose_drivers-IsServed dis opt) e
