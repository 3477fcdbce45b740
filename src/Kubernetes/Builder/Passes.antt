-- ===== src/Kubernetes/Builder/Passes.antt =====
-- The loop of `createBuilder`, pass by pass. The error that a pass leaves is the function's outermost `err`:
-- inside the loop over the replica sets another variable of that name stands before it, so what the events
-- of the pods return is dropped. The loop runs on fuel; a measure of the time that is left bounds the fuel
-- that it needs.
pub mod Ends
pub mod Keeps
use buildkit_cli_for_kubectl.Prelude.{
  ℕ, zero, suc, ◌<◌, String, ◌≡◌, ◌⊎◌, refl, Bool, true, false, not, ◌==◌, Option, none, some, List,
  [], ◌∷◌, keep, Result, ok, err, Error, errorf, wrapf, if◌then◌else◌, Bool-cases, inl, inr, arith,
  leb,
}
use buildkit_cli_for_kubectl.Prelude.Io.{Io, pure, throw, ◌>>=◌}
use buildkit_cli_for_kubectl.Prelude.Loops.{Step, returned, goes_on, Tries, try_until_done}
use buildkit_cli_for_kubectl.Text.Number.{ℤ, pos, negsuc, to_int32}
use buildkit_cli_for_kubectl.Kubernetes.Operations.{is_child_of}
use buildkit_cli_for_kubectl.Kubernetes.Config.{Inputs}
use buildkit_cli_for_kubectl.Kubernetes.Builder.{
  Cluster, Depl, Object, Event, FoundDepl, found, not_found, failed, online, Loop, call, on_world,
  log_events, on_pod_event,
}

-- A pass returns from the function, or the next one follows, with the error that it leaves.
abbrev pub Pass : Type 0
Pass = Step (Option Error) (Result (Unit {0}))

-- `a >= b`
unfoldable pub int_ge : ℤ → ℤ → Bool
int_ge (pos a) (pos b) = leb b a
int_ge (pos a) (negsuc b) = true
int_ge (negsuc a) (pos b) = false
int_ge (negsuc a) (negsuc b) = leb a b

-- A reference field, or what the variable has from before
or_before : String → Option String → Option String
or_before text before = if text == "" then before else some text

ref_of : String → Option String
ref_of text = if text == "" then none else some text

children_of : String → List Object → List Object
children_of parent os = keep (λ o. is_child_of o.owners parent) os

module _ (api : Cluster) (inputs : Inputs) where
  open api use {
    World, is_done, log, pause, label_selector, field_selector, get_deployment, create_deployment,
    list_replica_sets, list_pods, list_events,
  }

  abbrev pub State : Type 0
  State = Loop api inputs

  no_callback : Event → Io State (Unit {0})
  no_callback e s = (ok tt, s)

  wrapped_list : String → Result (List Object) × State → Result (List Object) × State
  wrapped_list selector (ok os, s) = (ok os, s)
  wrapped_list selector (err e, s) =
      (err (wrapf e "list on replicaset %v failed" (selector ∷ [])), s)

  -- `getReplicaSets`, from the selector on
  selected_sets : String → Result String → Io State (List Object)
  unfolding wrapped_list children_of
  selected_sets parent (err e) = throw e
  selected_sets parent (ok selector) = do
    replicas ← λ s. wrapped_list selector (call api inputs (list_replica_sets selector) s)
    pure (children_of parent replicas)

  unfoldable pub get_replica_sets : String → Depl → Io State (List Object)
  unfolding selected_sets
  get_replica_sets app depl = selected_sets depl.uid (label_selector app)

  -- `getReplicaEvents`
  unfoldable pub get_replica_events : Object → Io State (List Event)
  unfolding ref_of
  get_replica_events r =
      call api inputs
        (list_events (field_selector r.name r.namespace (ref_of r.kind) (ref_of r.uid)))

  -- A pod of the replica set: its events are read; the loop over the pods goes on by `next` unless they
  -- cannot be listed.
  after_pod_events :
      Object → List Object → Object → (State → State) → Result (List Event) × State → State
  after_pod_events replica pods p next (err e, s) = on_world api inputs (pause 1000) s
  after_pod_events replica pods p next (ok events, s) =
      next (log_events api inputs (on_pod_event api inputs replica pods) p.name p.uid events s).1

  with_refs : Object → State → State
  unfolding or_before
  with_refs p s = record s {
    ref_uid = or_before p.uid s.ref_uid;
    ref_kind = or_before p.kind s.ref_kind;
  }

  inspect_pod : Object → List Object → Object → (State → State) → State → State
  unfolding with_refs after_pod_events
  inspect_pod replica pods p next s =
      let t = with_refs p s in
      after_pod_events replica pods p next
        (call api inputs (list_events (field_selector p.name p.namespace t.ref_kind t.ref_uid)) t)

  unfoldable pub inspect_pods : Object → List Object → List Object → State → State
  unfolding inspect_pod
  inspect_pods replica pods [] s = s
  inspect_pods replica pods (p ∷ ps) s =
      let rest : State → State = λ t. inspect_pods replica pods ps t in
      if is_child_of p.owners replica.uid then inspect_pod replica pods p rest s else rest s

  -- The list of the pods; without it the loop goes on with the next replica set.
  after_pods : Object → Result (List Object) × State → State
  unfolding inspect_pods
  after_pods replica (err e, s) = on_world api inputs (pause 1000) s
  after_pods replica (ok pods, s) = inspect_pods replica pods pods s

  with_selector : Object → (State → Pass × State) → Result String → State → Pass × State
  unfolding after_pods
  with_selector replica next (err e) s = (returned (err e), s)
  with_selector replica next (ok selector) s =
      next (after_pods replica (call api inputs (list_pods selector) s))

  after_events : Object → (State → Pass × State) → Result (List Event) × State → Pass × State
  unfolding with_selector no_callback
  after_events replica next (err e, s) = (
    goes_on (some (wrapf e "failed to retrieve replicaset for deployment %s" (s.depl.name ∷ []))),
    s,
  )
  after_events replica next (ok events, s) =
      with_selector replica next (label_selector s.builder.driver.deployment.name)
        (log_events api inputs no_callback replica.name replica.uid events s).1

  unfoldable pub inspect_replicas : List Object → State → Pass × State
  unfolding after_events get_replica_events
  inspect_replicas [] s = (goes_on none, s)
  inspect_replicas (r ∷ rs) s = after_events r (λ t. inspect_replicas rs t) (get_replica_events r s)

  sleep_then : Pass × State → Pass × State
  sleep_then (returned r, s) = (returned r, s)
  sleep_then (goes_on e, s) = (goes_on e, on_world api inputs (pause 500) s)

  after_replicas : Result (List Object) × State → Pass × State
  unfolding inspect_replicas sleep_then
  after_replicas (err e, s) = (
    goes_on (some (wrapf e "failed to retrieve replicaset for deployment %s" (s.depl.name ∷ []))),
    on_world api inputs (pause 1000) s,
  )
  after_replicas (ok rs, s) = sleep_then (inspect_replicas rs s)

  unfoldable pub is_online : State → Bool
  is_online s = int_ge s.depl.ready_replicas (to_int32 s.builder.driver.min_replicas)

  -- With the deployment in the cluster
  after_depl : State → Pass × State
  unfolding is_online get_replica_sets after_replicas
  after_depl s =
      if is_online s
      then (
        returned (ok tt),
        on_world api inputs
            (log (online s.builder.driver.min_replicas s.builder.driver.deployment.name)) s,
      )
      else after_replicas (get_replica_sets s.builder.driver.deployment.name s.depl s)

  after_create : Result Depl × State → Pass × State
  unfolding after_depl
  after_create (ok depl, s) = after_depl (record s { depl = depl })
  after_create (err e, s) = (goes_on (some e), on_world api inputs (pause 1000) s)

  after_get : FoundDepl × World → State → Pass × State
  unfolding after_create
  after_get (found depl, w) s = after_depl (record s { depl = depl; world = w })
  after_get (not_found e, w) s =
      after_create
        (call api inputs (create_deployment s.builder.driver.deployment) (record s { world = w }))
  after_get (failed e, w) s =
      (goes_on (some e), on_world api inputs (pause 1000) (record s { world = w }))

  -- One pass, behind the look at the context
  unfoldable pub pass : State → Pass × State
  unfolding after_get
  pass s = after_get (get_deployment s.builder.driver.deployment.name s.world) s

  -- `errors.Wrap`, which gives nil for nil
  unfoldable pub timed_out : Option Error → Result (Unit {0})
  timed_out none = ok tt
  timed_out (some e) = err (wrapf e "timed out waiting for builder to become ready" [])

  unfoldable pub tries : Tries (Option Error) (Result (Unit {0})) State
  unfolding timed_out pass
  tries = record {
    out_of_fuel = err (errorf "out of fuel" []);
    is_done = λ s. is_done s.world;
    give_up = timed_out;
    step = pass;
  }

  unfoldable pub create_builder : ℕ → State → Result (Unit {0}) × State
  unfolding tries try_until_done
  create_builder fuel s = try_until_done tries fuel none s
