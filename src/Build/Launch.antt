-- ===== src/Build/Launch.antt =====
-- The second loop of `Build` in pkg/build/build.go: the goroutines that solve, one for each driver of each
-- target, on what `resolveDrivers` has left. What is passed is the list of those that were started; it stays
-- beside an error. The exports of a target are those of its solve options, which all its drivers share.
pub mod Served
use buildkit_cli_for_kubectl.Prelude.{
  ℕ, zero, suc, String, ◌≡◌, refl, sym, ap, ◌∙◌, Bool, true, false, ◌||◌, Option, none, some, List,
  [], ◌∷◌, ◌++◌, map, length, Map, lookup, lookup_or, get_elem?, ltb, All, All-append, Result, ok,
  err, Error, subst, nat_eq, arith, ◌==◌, if◌then◌else◌,
}
use buildkit_cli_for_kubectl.Prelude.Io.{Io, pure, lift, ◌>>=◌, Io-cases}
use buildkit_cli_for_kubectl.Platform.{Platforms}
use buildkit_cli_for_kubectl.Build.Outputs.{ExportEntry}
use buildkit_cli_for_kubectl.Build.MultiNode.{mark_exports}
use buildkit_cli_for_kubectl.Build.Drivers.{DriverInfo, DriverPair, all_pairs, has_index}
use buildkit_cli_for_kubectl.Build.Drivers.Pairs.{indexes_of}
use buildkit_cli_for_kubectl.Build.Drivers.Booting.{
  Choice, Clients, HasClient, AllServed, first_client, has_client-first_client, driver_at,
  choose_drivers,
}

-- A goroutine that solves: its target, its index in `res`, whether its messages get the target's name, the
-- client, where there is one, and the exports
pub record Job (C : Type 0) : Type 0 where
  pub target : String
  pub index : ℕ
  pub prefixed : Bool
  pub client : Option C
  pub exports : List ExportEntry

module _ (p : Platforms) {D C : Type 0} (boot : D → Result (String × C))
    (repository : String → Result String) (drivers : List (DriverInfo p D))
    (clients : Map (Map C)) where
  -- The pass over the exports before the goroutine starts
  ready_exports : Bool → String → List ExportEntry → Result (String × List ExportEntry)
  ready_exports true names es = mark_exports repository names es
  ready_exports false names es = ok (names, es)

  job_for : String → ℕ → Bool → List ExportEntry → DriverInfo p D → Job C
  job_for k i prefixed es di = record {
    target = k;
    index = i;
    prefixed = prefixed;
    client = first_client p boot drivers (lookup di.name clients);
    exports = es;
  }

  start_job : Job C → Io (List (Job C)) (Unit {0})
  start_job j jobs = (ok tt, jobs ++ j ∷ [])

  -- The loop over the drivers of a target; it ends with `pushNames`.
  launch_pairs :
      String
      → Bool
      → Bool
      → ℕ
      → String
      → List ExportEntry
      → List (DriverPair p)
      → Io (List (Job C)) String
  unfolding ready_exports job_for start_job
  launch_pairs k prefixed multi i names es [] = pure names
  launch_pairs k prefixed multi i names es (dp ∷ dps) = do
    ready ← lift (ready_exports multi names es)
    di ← lift (driver_at p boot drivers (get_elem? drivers dp.driver_index))
    _ ← start_job (job_for k i prefixed ready.1 di)
    launch_pairs k prefixed multi (suc i) ready.0 ready.1 dps

  module _ (m : Map (List (DriverPair p))) (multi_target : Bool) where
    launch_target : String → List ExportEntry → List (DriverPair p) → Io (List (Job C)) String
    unfolding launch_pairs
    launch_target k es dps = launch_pairs k multi_target (ltb 1 (length dps)) 0 "" es dps

    -- The loop over the targets, with the names that each pushes
    unfoldable pub launch : Map (List ExportEntry) → Io (List (Job C)) (Map String)
    unfolding launch_target
    launch [] = pure []
    launch ((k, es) ∷ ts) = do
      names ← launch_target k es (lookup_or [] k m)
      rest ← launch ts
      pure ((k, names) ∷ rest)

module _ (p : Platforms) {D C : Type 0} (boot : D → Result (String × C))
    (list_workers : Clients p boot [] → Result (List (List p.Platform)))
    (repository : String → Result String) where
  launch_chosen :
      Map (List ExportEntry) → Result (Choice p boot list_workers) → Io (List (Job C)) (Map String)
  launch_chosen ts (err e) = lift (err e)
  launch_chosen ts (ok (left, pairs, clients)) =
      launch p boot repository left clients pairs (ltb 1 (length ts)) ts

  -- `Build` without the set-up of the solve options between its two loops
  unfoldable pub launch_build :
      List (DriverInfo p D)
      → Map (List p.Platform)
      → Map (List ExportEntry)
      → Io (List (Job C)) (Map String)
  unfolding launch_chosen
  launch_build dis opt ts = launch_chosen ts (choose_drivers p boot list_workers dis opt)
