-- ===== src/Kubernetes/Builder.antt =====
-- `createBuilder` of pkg/driver/kubernetes/creation.go, with `getReplicaSets` and `getReplicaEvents`: the
-- events of the builder's pods, and what the driver does when the runtime's socket is missing. `Cluster`
-- stands for the Kubernetes API, the context, the progress log and the pauses. The file `Builder/Passes`
-- has the loop.
pub mod Passes
pub mod Flips
use buildkit_cli_for_kubectl.Prelude.{
  ℕ, String, ◌<>◌, Bool, true, false, not, ◌&&◌, ◌||◌, Option, none, some, List, [], ◌∷◌, map, Map,
  insert, Result, ok, err, Error, errorf, wrapf, if◌then◌else◌, ◌==◌, is_in,
}
use buildkit_cli_for_kubectl.Prelude.Io.{Io, throw, ◌>>=◌}
use buildkit_cli_for_kubectl.Text.Contains.{contains}
use buildkit_cli_for_kubectl.Text.Number.{ℤ}
use buildkit_cli_for_kubectl.Kubernetes.Manifest.{Deployment}
use buildkit_cli_for_kubectl.Kubernetes.Operations.{is_child_of}
use buildkit_cli_for_kubectl.Kubernetes.Config.{
  remade, settled_opt, Inputs, InitConfig, Settings, Driver, apply_options, initial_settings,
  init_driver_from_config, default_container_runtime,
}

-- What the code reads of a deployment, of a replica set or a pod, and of an event in the cluster.
pub record Depl : Type 0 where
  pub name : String
  pub uid : String
  pub resource_version : String
  pub ready_replicas : ℤ

pub record Object : Type 0 where
  pub name : String
  pub namespace : String
  pub uid : String
  pub kind : String
  pub owners : List String

pub record Event : Type 0 where
  pub object_uid : String
  pub event_type : String
  pub reason : String
  pub message : String

pub data FoundDepl : Type 0 where
  found : Depl → FoundDepl
  not_found failed : Error → FoundDepl

pub data LogLine : Type 0 where
  event_line : String → LogLine
  online : ℤ → String → LogLine
  retrying : String → String → LogLine
  not_deleted : String → Error → LogLine

-- `label_selector` is that of the label `app`; `field_selector` takes the name, the namespace, the kind and
-- the UID.
pub record Cluster : Type 1 where
  pub World : Type 0
  pub is_done : World → Bool
  pub log : LogLine → World → World
  pub pause : ℕ → World → World
  pub is_not_found : Error → Bool
  pub label_selector : String → Result String
  pub field_selector : String → String → Option String → Option String → String
  pub get_deployment : String → World → FoundDepl × World
  pub create_deployment : Deployment → Io World Depl
  pub update_deployment : Deployment → Io World Depl
  pub list_replica_sets : String → Io World (List Object)
  pub list_pods : String → Io World (List Object)
  pub list_events : String → Io World (List Event)
  pub delete_replica_set : String → Io World (Unit {0})
  pub delete_pod : String → Io World (Unit {0})

-- The driver: its configuration, and the fields that are set from it.
pub record Configured : Type 0 where
  pub config : InitConfig
  pub driver : Driver

-- `DriverOpts` as the retry sets them
unfoldable pub flipped_opts : String → Map String → Map String
flipped_opts runtime opts = insert "worker" "auto" (insert "runtime" runtime opts)

unfoldable pub other_runtime : String → Result String
other_runtime attempted =
    if attempted == "containerd"
    then ok "docker"
    else if attempted == "docker"
    then ok "containerd"
    else err (errorf "unexpected runtime: %s" (attempted ∷ []))

-- After `err` the driver is `old`, with the fields that the loop over the options has set up to then.
after_init : InitConfig → Driver → Settings → Result Driver → Result (Unit {0}) × Configured
after_init config old set (ok new) = (ok tt, record { config = config; driver = new })
after_init config old set (err e) = (
  err e,
  record {
    config = config;
    driver = record old {
      settings = record old.settings {
        namespace = set.namespace;
        loadbalance = set.loadbalance;
        user_specified_runtime = set.user_specified_runtime;
      };
    };
  },
)

-- The driver set up anew for another runtime
unfoldable pub flip : Inputs → String → Configured → Result (Unit {0}) × Configured
unfolding flipped_opts after_init
flip inputs runtime d =
    let config = record d.config { driver_opts = flipped_opts runtime d.config.driver_opts } in
    let s = d.driver.settings in
    let start = initial_settings inputs config s.namespace s.loadbalance s.user_specified_runtime in
    let applied = apply_options inputs.default_rootless_image config.driver_opts start in
    after_init config (remade inputs d.driver (settled_opt applied)) applied.1
      (init_driver_from_config inputs config s.namespace s.loadbalance s.user_specified_runtime)

unfoldable pub event_text : String → Event → String
event_text resource e =
    e.event_type <> (" \t" <> (resource <> (" \t" <> (e.reason <> (" \t" <> (e.message <> "\n"))))))

unfoldable pub is_missing_socket : Event → Bool
is_missing_socket e = e.reason == "FailedMount" && contains e.message "is not a socket file"

-- `d.deployment.ObjectMeta.ResourceVersion = depl.ObjectMeta.ResourceVersion`
pub set_version : String → Configured → Configured
set_version v b = record b {
  driver = record b.driver { deployment = record b.driver.deployment { resource_version = v } };
}

module _ (api : Cluster) (inputs : Inputs) where
  open api use {World, log, pause, is_not_found, update_deployment, delete_replica_set, delete_pod}

  -- The variables of the function and the world
  pub record Loop : Type 0 where
    pub builder : Configured
    pub depl : Depl
    pub reported : List String
    pub ref_uid : Option String
    pub ref_kind : Option String
    pub world : World

  abbrev on_world : (World → World) → Loop → Loop
  on_world f s = record s { world = f s.world }

  -- A call that changes the world alone
  abbrev call {ℓ} : {A : Type ℓ} → Io World A → Io Loop A
  call m s = let (r, w) = m s.world in (r, record s { world = w })

  -- An event that is new: `callback` sees it unless it is normal.
  after_log : (Event → Io Loop (Unit {0})) → Event → Io Loop (Unit {0})
  after_log callback e s = if e.event_type == "Normal" then (ok tt, s) else callback e s

  new_event : (Event → Io Loop (Unit {0})) → String → Event → Io Loop (Unit {0})
  unfolding after_log
  new_event callback text e s =
      after_log callback e
        (record s { reported = text ∷ s.reported; world = log (event_line text) s.world })

  log_event : (Event → Io Loop (Unit {0})) → String → String → Event → Io Loop (Unit {0})
  unfolding new_event event_text
  log_event callback resource uid e s =
      let text = event_text resource e in
      if not (e.object_uid == uid)
      then (ok tt, s)
      else if is_in text s.reported
      then (ok tt, s)
      else new_event callback text e s

  -- `logEvents`
  unfoldable pub log_events :
      (Event → Io Loop (Unit {0})) → String → String → List Event → Io Loop (Unit {0})
  unfolding log_event
  log_events callback resource uid [] = λ s. (ok tt, s)
  log_events callback resource uid (e ∷ es) = do
    u ← log_event callback resource uid e
    log_events callback resource uid es

  -- A deletion whose failure is logged
  after_delete : String → Result (Unit {0}) × World → World
  after_delete what (ok u, w) = w
  after_delete what (err e, w) = if is_not_found e then w else log (not_deleted what e) w

  delete_pods : String → List Object → World → World
  unfolding after_delete
  delete_pods parent [] w = w
  delete_pods parent (p ∷ ps) w =
      let v = after_delete "pod" (delete_pod p.name w) in
      let rest = delete_pods parent ps in if is_child_of p.owners parent then rest v else rest w

  -- Behind the update: the stale replica set and its pods go.
  clean_up : Object → List Object → World → World
  unfolding delete_pods after_delete
  clean_up replica pods w =
      pause 2000 (
        delete_pods replica.uid pods
          (after_delete "replicaset" (delete_replica_set replica.name w)))

  -- The error of the update names the deployment and the address of its resource version.
  after_update : Object → List Object → Result Depl × Loop → Result (Unit {0}) × Loop
  unfolding clean_up
  after_update replica pods (ok depl, s) =
      (ok tt, record s { depl = depl; world = clean_up replica pods s.world })
  after_update replica pods (err e, s) = (
    err (
        wrapf e "error while calling deploymentClient.Update for %q - resourceVersion: %v"
          (s.builder.driver.deployment.name ∷ [])),
    s,
  )

  after_flip : Object → List Object → Result (Unit {0}) × Configured → Io Loop (Unit {0})
  unfolding after_update set_version
  after_flip replica pods (err e, b) s = (err e, record s { builder = b })
  after_flip replica pods (ok u, b) s =
      let t = record s { builder = set_version s.depl.resource_version b } in
      after_update replica pods (call (update_deployment t.builder.driver.deployment) t)

  retry_with : Object → List Object → Result String → Io Loop (Unit {0})
  unfolding after_flip flip
  retry_with replica pods (err e) s = throw e s
  retry_with replica pods (ok runtime) s =
      after_flip replica pods (flip inputs runtime s.builder)
        (on_world (log (retrying default_container_runtime runtime)) s)

  -- On whether the user has chosen the runtime
  on_missing_socket : Object → List Object → Event → Bool → Io Loop (Unit {0})
  unfolding retry_with other_runtime
  on_missing_socket replica pods e true =
      throw (
        errorf "pod failed to initialize - did you pick the correct runtime? - %s" (e.message ∷ []))
  on_missing_socket replica pods e false =
      retry_with replica pods (other_runtime default_container_runtime)

  -- The callback for the events of a replica set's pods
  unfoldable pub on_pod_event : Object → List Object → Event → Io Loop (Unit {0})
  unfolding is_missing_socket on_missing_socket
  on_pod_event replica pods e s =
      if is_missing_socket e
      then on_missing_socket replica pods e s.builder.driver.settings.user_specified_runtime s
      else (ok tt, s)
