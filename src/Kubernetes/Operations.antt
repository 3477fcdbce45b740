-- ===== src/Kubernetes/Operations.antt =====
-- The operations of pkg/driver/kubernetes/driver.go. `Api` stands for the cluster: its answers at the
-- world in which a call is made, and the calls that change it.
pub mod Answers
use buildkit_cli_for_kubectl.Prelude.{
  zero, suc, String, ◌<>◌, Bool, true, false, not, ◌&&◌, Option, none, some, List, [], ◌∷◌, ◌++◌,
  map, Map, lookup, lookup_or, Result, ok, err, Error, errorf, wrapf, if◌then◌else◌, ◌==◌,
  ◌>>=◌ as and_then,
}
use buildkit_cli_for_kubectl.Prelude.Io.{Io, pure, throw, lift, ◌>>=◌}
use buildkit_cli_for_kubectl.Text.Case.{parse_bool_or_false}
use buildkit_cli_for_kubectl.Text.Number.{ℤ, pos, negsuc}
use buildkit_cli_for_kubectl.Kubernetes.Manifest.{annotation_key}
use buildkit_cli_for_kubectl.Kubernetes.Pods.{Pod, list_running_pods, Chosen}

-- What the operations read of a deployment.
pub record DeploymentState : Type 0 where
  pub name : String
  pub annotations : Map String
  pub ready_replicas : ℤ

pub record Api : Type 1 where
  pub World : Type 0
  pub Client : Type 0
  pub get_deployment : World → String → Result DeploymentState
  pub list_deployments : World → Result (List DeploymentState)
  pub list_pods : World → String → Result (List Pod)
  pub choose_pod : World → Result Chosen
  pub client_config : World → Result (Unit {0})
  pub delete_deployment : String → Io World (Unit {0})
  pub delete_config_map : String → Io World (Unit {0})
  -- `client.New` over `ExecConn`, in a container of a pod, of a command
  pub exec_client : Pod → String → List String → Io World Client

-- `driver.Status`, of which `Info` returns these
pub data Status : Type 0 where
  inactive starting running stopping stopped : Status

unfoldable pub status_text : Status → String
status_text inactive = "inactive"
status_text starting = "starting"
status_text running = "running"
status_text stopping = "stopping"
status_text stopped = "stopped"

-- `driver.Info`, with the names of the dynamic nodes
pub record Info : Type 0 where
  pub status : Status
  pub dynamic_nodes : List String

-- `driver.Node` and `driver.Builder`
pub record Node : Type 0 where
  pub name : String
  pub status : String

pub record Builder : Type 0 where
  pub name : String
  pub nodes : List Node

-- `driver.Features()`
pub record Features : Type 0 where
  pub oci_exporter : Bool
  pub docker_exporter : Bool
  pub containerd_exporter : Bool
  pub cache_export : Bool
  pub multi_platform : Bool

unfoldable pub is_rootless : String → Bool
is_rootless rootless = parse_bool_or_false rootless

-- `isChildOf`, on the identifiers of the owners
unfoldable pub is_child_of : List String → String → Bool
is_child_of [] parent = false
is_child_of (owner ∷ owners) parent =
    let rest = is_child_of owners parent in if owner == parent then true else rest

abbrev base_features : Features
base_features = record {
  oci_exporter = true;
  docker_exporter = false;
  containerd_exporter = false;
  cache_export = true;
  multi_platform = true;
}

runtime_features : String → Features
runtime_features runtime =
    if runtime == "containerd"
    then record base_features { containerd_exporter = true }
    else if runtime == "docker"
    then record base_features { docker_exporter = true }
    else base_features

-- `Features`, from what `ChoosePod` returned
unfoldable pub features : Result Chosen → Features
unfolding runtime_features is_rootless
features (err e) = base_features
features (ok chosen) = of_pod chosen.pod chosen.pod.containers
  where
    of_pod : Pod → List String → Features
    of_pod p [] = base_features
    of_pod p (c ∷ cs) =
        if is_rootless (lookup_or "" "rootless" p.labels)
        then base_features
        else runtime_features (lookup_or "" "runtime" p.labels)

abbrev is_positive : ℤ → Bool
is_positive (pos zero) = false
is_positive (pos (suc n)) = true
is_positive (negsuc n) = false

node_of : Pod → Node
node_of p = record { name = p.name; status = p.message }

-- `pod.Spec.Containers[0].Name`, with the check before it
unfoldable pub first_container : Pod → List String → Result String
first_container p [] = err (errorf "pod %s does not have any container" (p.name ∷ []))
first_container p (c ∷ cs) = ok c

sock_path : Pod → String → Result String
sock_path p runtime =
    if runtime == "containerd"
    then ok "unix:///run/containerd/containerd.sock"
    else if runtime == "docker"
    then ok "unix:///var/run/docker.sock"
    else err (errorf "unexpected runtime label (%v) on pod (%s)" (runtime ∷ p.name ∷ []))

wrapped : String → String → Result (Unit {0}) → Result (Unit {0})
wrapped format name (ok u) = ok u
wrapped format name (err e) = err (wrapf e format (name ∷ []))

module _ (api : Api) where
  open api use {
    World, Client, get_deployment, list_deployments, list_pods, choose_pod, client_config,
    delete_deployment, delete_config_map, exec_client,
  }

  -- The names are those of the driver's deployment and of its config map.
  info_of : World → Result DeploymentState → Result Info
  info_of w (err e) = ok (record { status = inactive; dynamic_nodes = [] })
  info_of w (ok depl) =
      if not (is_positive depl.ready_replicas)
      then ok (record { status = stopped; dynamic_nodes = [] })
      else and_then (list_running_pods (list_pods w) depl.name)
          (λ pods. ok (record { status = running; dynamic_nodes = map Pod.name pods }))

  unfoldable pub info : String → World → Result Info
  unfolding info_of
  info deployment w = info_of w (get_deployment w deployment)

  -- A delete, with the error that the driver returns.
  delete_wrapped : String → String → Result (Unit {0}) × World → Result (Unit {0}) × World
  unfolding wrapped
  delete_wrapped format name (r, w) = (wrapped format name r, w)

  unfoldable pub rm : String → String → Io World (Unit {0})
  unfolding delete_wrapped
  rm deployment config_map = do
    u ← λ w.
        delete_wrapped "error while calling deploymentClient.Delete for %q" deployment
          (delete_deployment deployment w)
    λ w.
        delete_wrapped "error while calling configMapClient.Delete for %q" config_map
          (delete_config_map config_map w)

  pub record NodeClient : Type 0 where
    pub node_name : String
    pub cluster_addr : String
    pub client : Client

  pub record BuilderClients : Type 0 where
    pub chosen_node : NodeClient
    pub other_nodes : List NodeClient

  abbrev pub panic_io : {A : Type 0} → String → Io World A
  panic_io what = throw (errorf "panic" (what ∷ []))

  -- `buildNodeClient`, which takes the first container without a check
  node_client_in : Pod → List String → Io World NodeClient
  node_client_in p [] = panic_io "index out of range"
  node_client_in p (c ∷ cs) = do
    client ← exec_client p c ("buildctl" ∷ "dial-stdio" ∷ [])
    pure (record { node_name = p.name; cluster_addr = p.pod_ip; client = client })

  unfoldable pub build_node_client : Pod → Io World NodeClient
  unfolding node_client_in
  build_node_client p = node_client_in p p.containers

  node_clients : List (Option Pod) → Io World (List NodeClient)
  node_clients [] = pure []
  node_clients (none ∷ ps) = panic_io "nil pointer dereference"
  node_clients (some p ∷ ps) = do n ← build_node_client p; ns ← node_clients ps; pure (n ∷ ns)

  unfoldable pub clients : Io World BuilderClients
  unfolding first_container node_clients
  clients w0 = go w0
    where
      go : Io World BuilderClients
      go = do
        u ← lift (client_config w0)
        chosen ← lift (choose_pod w0)
        c ← lift (first_container chosen.pod chosen.pod.containers)
        node ← build_node_client chosen.pod
        others ← node_clients chosen.others
        pure (record { chosen_node = node; other_nodes = others })

  proxy_through : Pod → Io World Client
  unfolding first_container sock_path
  proxy_through p = do
    c ← lift (first_container p p.containers)
    path ← lift (sock_path p (lookup_or "" "runtime" p.labels))
    exec_client p c ("buildctl" ∷ "--addr" ∷ path ∷ "dial-stdio" ∷ [])

  proxy_named : String → List Pod → Io World Client
  unfolding proxy_through
  proxy_named name [] = throw (errorf "no available builder pods for %s" (name ∷ []))
  proxy_named name (p ∷ ps) =
      let rest = proxy_named name ps in if p.name == name then proxy_through p else rest

  unfoldable pub runtime_sock_proxy : String → String → Io World Client
  unfolding proxy_named
  runtime_sock_proxy deployment name w0 = go w0
    where
      go : Io World Client
      go = do
        u ← lift (client_config w0)
        pods ← lift (list_running_pods (list_pods w0) deployment)
        proxy_named name pods

  -- One deployment of `List`; `none` is one without the annotation.
  builder_of : World → DeploymentState → Option String → Result (List Builder)
  unfolding node_of
  builder_of w depl none = ok []
  builder_of w depl (some version) =
      and_then (list_running_pods (list_pods w) depl.name)
        (λ pods. ok (record { name = depl.name; nodes = map node_of pods } ∷ []))

  builders_of : World → List DeploymentState → Result (List Builder)
  unfolding builder_of
  builders_of w [] = ok []
  builders_of w (depl ∷ depls) =
      and_then (builder_of w depl (lookup annotation_key depl.annotations))
        (λ b. and_then (builders_of w depls) (λ bs. ok (b ++ bs)))

  listed : World → Result (List DeploymentState) → Result (List Builder)
  unfolding builders_of
  listed w (err e) = err (wrapf e "failed to lookup builder deployments" [])
  listed w (ok depls) = builders_of w depls

  unfoldable pub list_builders : World → Result (List Builder)
  unfolding listed
  list_builders w = listed w (list_deployments w)
