-- ===== src/Kubernetes/Builder/Passes/Ends.antt =====
-- The fuel that the loop of `createBuilder` needs.
use buildkit_cli_for_kubectl.Prelude.{
  ℕ, ◌<◌, String, ◌≡◌, subst, true, false, Option, none, List, [], ◌∷◌, Result, ok, err, Error,
  Bool-cases, inl, inr,
}
use buildkit_cli_for_kubectl.Prelude.Loops.{returned, goes_on, Ends, try_until_done-Ends}
use buildkit_cli_for_kubectl.Kubernetes.Config.{Inputs}
use buildkit_cli_for_kubectl.Kubernetes.Builder.{
  Cluster, Depl, Object, Event, FoundDepl, found, not_found, failed,
}
use buildkit_cli_for_kubectl.Kubernetes.Builder.Passes.{
  Pass, State, is_online, pass, tries, create_builder, inspect_replicas, after_events,
  with_selector, sleep_then, after_replicas, after_depl, after_create, after_get,
}

module _ (api : Cluster) (inputs : Inputs) where
  open api use {World, is_done}

  -- A pass returns without an error only where the deployment is online.
  Good : Pass × State api inputs → Type 0
  Good (returned (ok u), s) = is_online api inputs s ≡ true
  Good (returned (err e), s) = Unit
  Good (goes_on e, s) = Unit

  with_selector-Good :
      (r : Object) (next : State api inputs → Pass × State api inputs) (m : Result String)
      (s : State api inputs)
      → ((t : State api inputs) → Good (next t))
      → Good (with_selector api inputs r next m s)
  unfolding with_selector Good
  with_selector-Good r next (err e) s h = tt
  with_selector-Good r next (ok selector) s h = h _

  after_events-Good :
      (r : Object) (next : State api inputs → Pass × State api inputs)
      (m : Result (List Event) × State api inputs)
      → ((t : State api inputs) → Good (next t))
      → Good (after_events api inputs r next m)
  unfolding after_events Good
  after_events-Good r next (err e, s) h = tt
  after_events-Good r next (ok events, s) h = with_selector-Good r next _ _ h

  inspect_replicas-Good :
      (rs : List Object) (s : State api inputs) → Good (inspect_replicas api inputs rs s)
  unfolding inspect_replicas Good
  inspect_replicas-Good [] s = tt
  inspect_replicas-Good (r ∷ rs) s = after_events-Good r _ _ (λ t. inspect_replicas-Good rs t)

  sleep_then-Good : (m : Pass × State api inputs) → Good m → Good (sleep_then api inputs m)
  unfolding sleep_then Good
  sleep_then-Good (returned r, s) h = h
  sleep_then-Good (goes_on e, s) h = tt

  after_replicas-Good :
      (m : Result (List Object) × State api inputs) → Good (after_replicas api inputs m)
  unfolding after_replicas Good
  after_replicas-Good (err e, s) = tt
  after_replicas-Good (ok rs, s) = sleep_then-Good _ (inspect_replicas-Good rs s)

  after_depl-Good : (s : State api inputs) → Good (after_depl api inputs s)
  unfolding after_depl Good is_online
  after_depl-Good s = elim (Bool-cases (is_online api inputs s)) [
    | inl e ↦ rw e e
    | inr e ↦ rw e (after_replicas-Good _)
  ]

  after_create-Good : (m : Result Depl × State api inputs) → Good (after_create api inputs m)
  unfolding after_create Good
  after_create-Good (ok depl, s) = after_depl-Good _
  after_create-Good (err e, s) = tt

  after_get-Good : (m : FoundDepl × World) (s : State api inputs) → Good (after_get api inputs m s)
  unfolding after_get Good
  after_get-Good (found depl, w) s = after_depl-Good _
  after_get-Good (not_found e, w) s = after_create-Good _
  after_get-Good (failed e, w) s = tt

  pass-Good : (s : State api inputs) → Good (pass api inputs s)
  unfolding pass
  pass-Good s = after_get-Good _ s

  -- The deployment is online, or there is an error.
  pub Online : Result (Unit {0}) → State api inputs → Type 0
  Online (ok u) s = is_online api inputs s ≡ true
  Online (err e) s = Unit

  Good-Online : (x : Result (Unit {0})) (t : State api inputs) → Good (returned x, t) → Online x t
  unfolding Good Online
  Good-Online (ok u) t h = h
  Good-Online (err e) t h = tt

  pass-Online :
      (s t : State api inputs) (x : Result (Unit {0}))
      → pass api inputs s ≡ (returned x, t)
      → Online x t
  pass-Online s t x k = Good-Online x t (subst Good k (pass-Good s))

  -- Where each pass that does not return takes some of the time that is left, the fuel is enough if it is more
  -- than the time at the start: the loop ends with what it makes of some error, or of none, once the context is
  -- done, or with a pass that found the deployment online or failed.
  pub create_builder-Ends :
      (left : World → ℕ)
      → ((s t : State api inputs) (e : Option Error)
          → is_done s.world ≡ false
          → pass api inputs s ≡ (goes_on e, t)
          → left t.world < left s.world)
      → (fuel : ℕ) (s : State api inputs) → left s.world < fuel
      → Ends (tries api inputs) Online (create_builder api inputs fuel s)
  unfolding create_builder tries
  create_builder-Ends left passes fuel s h =
      try_until_done-Ends (tries api inputs) Online pass-Online (λ t. left t.world) passes fuel none
        s h
