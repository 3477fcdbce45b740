-- ===== src/Kubernetes/Builder/Passes/Keeps.antt =====
-- What every pass keeps of the driver: the driver changes only by the resource version of its deployment, and
-- by the flip of its runtime while the user has not chosen one.
use buildkit_cli_for_kubectl.Prelude.{
  ℕ, String, ◌≡◌, refl, subst, Bool, true, false, not, none, List, [], ◌∷◌, Result, ok, err,
  if◌then◌else◌, Bool-cases, inl, inr, ◌==◌, is_in,
}
use buildkit_cli_for_kubectl.Prelude.Io.{Io, Io-cases, ◌>>=◌}
use buildkit_cli_for_kubectl.Kubernetes.Operations.{is_child_of}
use buildkit_cli_for_kubectl.Prelude.Loops.{returned, goes_on, try_until_done-keeps}
use buildkit_cli_for_kubectl.Kubernetes.Config.{Inputs}
use buildkit_cli_for_kubectl.Kubernetes.Builder.{
  Cluster, Depl, Object, Event, FoundDepl, found, not_found, failed, Configured, set_version, flip,
  other_runtime, log_events, log_event, new_event, after_log, on_pod_event, on_missing_socket,
  is_missing_socket, retry_with, after_flip, after_update, call, event_text,
}
use buildkit_cli_for_kubectl.Kubernetes.Builder.Passes.{
  Pass, State, pass, tries, create_builder, inspect_pods, inspect_pod, after_pod_events, after_pods,
  no_callback, wrapped_list, selected_sets, get_replica_sets, get_replica_events, with_refs,
  inspect_replicas, after_events, is_online, with_selector, sleep_then, after_replicas, after_depl,
  after_create, after_get,
}

module _ (api : Cluster) (inputs : Inputs) (P : Configured → Type 0)
    (versions : (v : String) (b : Configured) → P b → P (set_version v b))
    (flips : (b : Configured)
      → P b
      → b.driver.settings.user_specified_runtime ≡ false
      → P (flip inputs "containerd" b).1) where
  open api use {World}

  abbrev S : Type 0
  S = State api inputs

  Keeps : {A : Type 0} → A × S → Type 0
  Keeps m = P m.1.builder

  if-Keeps : {A : Type 0} (b : Bool) (m n : A × S) → Keeps m → Keeps n → Keeps (if b then m else n)
  if-Keeps true m n h k = h
  if-Keeps false m n h k = k

  stay : {A : Type 0} (a : A) (s : S) → P s.builder → Keeps (a, s)
  unfolding Keeps
  stay a s h = h

  bind-Keeps :
      {A B : Type 0} (m : Io S A) (f : A → Io S B) (s : S)
      → Keeps (m s)
      → ((a : A) (t : S) → P t.builder → Keeps (f a t))
      → Keeps ((m >>= f) s)
  unfolding Keeps
  bind-Keeps m f s h k =
      Io-cases Keeps m f s (λ a t e. k a t (subst (λ r. P r.1.builder) e h))
        (λ x t e. subst (λ r. P r.1.builder) e h)

  after_update-Keeps :
      (r : Object) (pods : List Object) (m : Result Depl × S)
      → Keeps m
      → Keeps (after_update api inputs r pods m)
  unfolding after_update Keeps
  after_update-Keeps r pods (ok depl, s) h = h
  after_update-Keeps r pods (err e, s) h = h

  after_flip-Keeps :
      (r : Object) (pods : List Object) (m : Result (Unit {0}) × Configured) (s : S)
      → P m.1
      → Keeps (after_flip api inputs r pods m s)
  unfolding after_flip Keeps
  after_flip-Keeps r pods (err e, b) s h = h
  after_flip-Keeps r pods (ok u, b) s h =
      after_update-Keeps r pods _ (versions s.depl.resource_version b h)

  on_missing_socket-Keeps :
      (r : Object) (pods : List Object) (e : Event) (chosen : Bool) (s : S)
      → P s.builder
      → s.builder.driver.settings.user_specified_runtime ≡ chosen
      → Keeps (on_missing_socket api inputs r pods e chosen s)
  unfolding on_missing_socket retry_with other_runtime
  on_missing_socket-Keeps r pods e true s h k = stay _ s h
  on_missing_socket-Keeps r pods e false s h k = after_flip-Keeps r pods _ _ (flips s.builder h k)

  on_pod_event-Keeps :
      (r : Object) (pods : List Object) (e : Event) (s : S)
      → P s.builder
      → Keeps (on_pod_event api inputs r pods e s)
  unfolding on_pod_event
  on_pod_event-Keeps r pods e s h =
      if-Keeps (is_missing_socket e) _ (ok tt, s) (on_missing_socket-Keeps r pods e _ s h refl)
        (stay _ s h)

  module _ (callback : Event → Io S (Unit {0}))
      (keeps : (e : Event) (s : S) → P s.builder → Keeps (callback e s)) where
    after_log-Keeps : (e : Event) (s : S) → P s.builder → Keeps (after_log api inputs callback e s)
    unfolding after_log
    after_log-Keeps e s h =
        if-Keeps (e.event_type == "Normal") (ok tt, s) (callback e s) (stay _ s h) (keeps e s h)

    log_event-Keeps :
        (resource uid : String) (e : Event) (s : S)
        → P s.builder
        → Keeps (log_event api inputs callback resource uid e s)
    unfolding log_event new_event
    log_event-Keeps resource uid e s h =
        if-Keeps (not (e.object_uid == uid)) (ok tt, s) _ (stay _ s h)
          (if-Keeps (is_in (event_text resource e) s.reported) (ok tt, s) _ (stay _ s h)
            (after_log-Keeps e _ h))

    log_events-Keeps :
        (resource uid : String) (es : List Event) (s : S)
        → P s.builder
        → Keeps (log_events api inputs callback resource uid es s)
    unfolding log_events
    log_events-Keeps resource uid [] s h = stay _ s h
    log_events-Keeps resource uid (e ∷ es) s h =
        bind-Keeps (log_event api inputs callback resource uid e) _ s
          (log_event-Keeps resource uid e s h) (λ u t k. log_events-Keeps resource uid es t k)

  after_pod_events-Keeps :
      (r : Object) (pods : List Object) (p : Object) (next : S → S) (m : Result (List Event) × S)
      → ((t : S) → P t.builder → P (next t).builder)
      → Keeps m
      → P (after_pod_events api inputs r pods p next m).builder
  unfolding after_pod_events Keeps
  after_pod_events-Keeps r pods p next (err e, s) later h = h
  after_pod_events-Keeps r pods p next (ok events, s) later h = later _ (
      log_events-Keeps (on_pod_event api inputs r pods) (on_pod_event-Keeps r pods) p.name p.uid
        events s h)

  inspect_pod-Keeps :
      (r : Object) (pods : List Object) (p : Object) (next : S → S) (s : S)
      → ((t : S) → P t.builder → P (next t).builder)
      → P s.builder
      → P (inspect_pod api inputs r pods p next s).builder
  unfolding inspect_pod with_refs Keeps
  inspect_pod-Keeps r pods p next s later h =
      let t = with_refs api inputs p s in
      after_pod_events-Keeps r pods p next
        (call api inputs
          (api.list_events (api.field_selector p.name p.namespace t.ref_kind t.ref_uid)) t)
        later h

  inspect_pods-Keeps :
      (r : Object) (pods ps : List Object) (s : S)
      → P s.builder
      → P (inspect_pods api inputs r pods ps s).builder
  unfolding inspect_pods
  inspect_pods-Keeps r pods [] s h = h
  inspect_pods-Keeps r pods (p ∷ ps) s h = elim (Bool-cases (is_child_of p.owners r.uid)) [
    | inl child ↦ rw child (
        inspect_pod-Keeps r pods p (λ t. inspect_pods api inputs r pods ps t) s
          (λ t k. inspect_pods-Keeps r pods ps t k) h)
    | inr other ↦ rw other (inspect_pods-Keeps r pods ps s h)
  ]

  after_pods-Keeps :
      (r : Object) (m : Result (List Object) × S) → Keeps m → P (after_pods api inputs r m).builder
  unfolding after_pods Keeps
  after_pods-Keeps r (err e, s) h = h
  after_pods-Keeps r (ok pods, s) h = inspect_pods-Keeps r pods pods s h

  module _ (r : Object) (next : S → Pass × S) (later : (t : S) → P t.builder → Keeps (next t)) where
    with_selector-Keeps :
        (m : Result String) (s : S) → P s.builder → Keeps (with_selector api inputs r next m s)
    unfolding with_selector Keeps
    with_selector-Keeps (err e) s h = h
    with_selector-Keeps (ok selector) s h = later _ (after_pods-Keeps r _ h)

    after_events-Keeps :
        (m : Result (List Event) × S) → Keeps m → Keeps (after_events api inputs r next m)
    unfolding after_events no_callback Keeps
    after_events-Keeps (err e, s) h = h
    after_events-Keeps (ok events, s) h =
        with_selector-Keeps _ _
          (log_events-Keeps (no_callback api inputs) (λ e t k. k) r.name r.uid events s h)

  inspect_replicas-Keeps :
      (rs : List Object) (s : S) → P s.builder → Keeps (inspect_replicas api inputs rs s)
  unfolding inspect_replicas get_replica_events Keeps
  inspect_replicas-Keeps [] s h = h
  inspect_replicas-Keeps (r ∷ rs) s h =
      after_events-Keeps r (λ t. inspect_replicas api inputs rs t)
        (λ t k. inspect_replicas-Keeps rs t k) (get_replica_events api inputs r s) h

  sleep_then-Keeps : (m : Pass × S) → Keeps m → Keeps (sleep_then api inputs m)
  unfolding sleep_then Keeps
  sleep_then-Keeps (returned x, s) h = h
  sleep_then-Keeps (goes_on e, s) h = h

  after_replicas-Keeps :
      (m : Result (List Object) × S) → Keeps m → Keeps (after_replicas api inputs m)
  unfolding after_replicas Keeps
  after_replicas-Keeps (err e, s) h = h
  after_replicas-Keeps (ok rs, s) h = sleep_then-Keeps _ (inspect_replicas-Keeps rs s h)

  wrapped_list-Keeps :
      (selector : String) (m : Result (List Object) × S)
      → Keeps m
      → Keeps (wrapped_list api inputs selector m)
  unfolding wrapped_list Keeps
  wrapped_list-Keeps selector (ok os, s) h = h
  wrapped_list-Keeps selector (err e, s) h = h

  selected_sets-Keeps :
      (parent : String) (m : Result String) (s : S)
      → P s.builder
      → Keeps (selected_sets api inputs parent m s)
  unfolding selected_sets
  selected_sets-Keeps parent (err e) s h = stay _ s h
  selected_sets-Keeps parent (ok selector) s h =
      bind-Keeps
        (λ t. wrapped_list api inputs selector (call api inputs (api.list_replica_sets selector) t))
        _ s
        (wrapped_list-Keeps selector (call api inputs (api.list_replica_sets selector) s)
          (stay _ _ h))
        (λ os t k. stay _ t k)

  get_replica_sets-Keeps :
      (app : String) (depl : Depl) (s : S)
      → P s.builder
      → Keeps (get_replica_sets api inputs app depl s)
  unfolding get_replica_sets
  get_replica_sets-Keeps app depl s h = selected_sets-Keeps depl.uid (api.label_selector app) s h

  after_depl-Keeps : (s : S) → P s.builder → Keeps (after_depl api inputs s)
  unfolding after_depl
  after_depl-Keeps s h =
      if-Keeps (is_online api inputs s) _ _ (stay _ _ h)
        (after_replicas-Keeps _ (get_replica_sets-Keeps _ s.depl s h))

  after_create-Keeps : (m : Result Depl × S) → Keeps m → Keeps (after_create api inputs m)
  unfolding after_create Keeps
  after_create-Keeps (ok depl, s) h = after_depl-Keeps _ h
  after_create-Keeps (err e, s) h = h

  after_get-Keeps : (m : FoundDepl × World) (s : S) → P s.builder → Keeps (after_get api inputs m s)
  unfolding after_get Keeps
  after_get-Keeps (found depl, w) s h = after_depl-Keeps _ h
  after_get-Keeps (not_found e, w) s h = after_create-Keeps _ h
  after_get-Keeps (failed e, w) s h = h

  pub create_builder-Keeps :
      (fuel : ℕ) (s : S) → P s.builder → P (create_builder api inputs fuel s).1.builder
  unfolding create_builder tries pass Keeps
  create_builder-Keeps fuel s h =
      try_until_done-keeps (tries api inputs) (λ t. P t.builder) (λ t k. after_get-Keeps _ t k) fuel
        none s h
