-- ===== src/Examples/Cluster.antt =====
-- Builders, their pods and the registry of drivers.
use mathlib.Core.List.{Perm}
use buildkit_cli_for_kubectl.Prelude.{
  String, ◌≡◌, refl, true, false, not, ◌&&◌, Option, none, some, List, [], ◌∷◌, map, keep, lookup,
  keys, Distinct, is_in, Result, ok, err, ◌==◌,
}
use buildkit_cli_for_kubectl.Text.Number.{pos}
use buildkit_cli_for_kubectl.Text.Case.{parse_bool}
use buildkit_cli_for_kubectl.Kubernetes.Manifest.{DeploymentOpt, new_deployment, labels}
use buildkit_cli_for_kubectl.Kubernetes.Manifest.Wellformed.{
  VolumesMatch, IsRootless, new_deployment-VolumesMatch, new_deployment-IsRootless,
}
use buildkit_cli_for_kubectl.Kubernetes.Config.{
  Inputs, InitConfig, Driver, Settings, initial_settings, initial_opt, apply_options,
  buildx_name_to_deployment_name,
}
use buildkit_cli_for_kubectl.Kubernetes.Config.Options.Spec.{settings_of, apply_options-settings_of}
use buildkit_cli_for_kubectl.Kubernetes.Pods.{
  Pod, Chosen, is_running, list_running_pods, pick_sticky,
}
use buildkit_cli_for_kubectl.Kubernetes.Pods.Order.{IsSorted}
use buildkit_cli_for_kubectl.Kubernetes.Pods.Choice.{list_running_pods_lem, pick_sticky-Picks}
use buildkit_cli_for_kubectl.Kubernetes.Operations.{Api, DeploymentState, features}
use buildkit_cli_for_kubectl.Kubernetes.Operations.Answers.{features-labels}

abbrev pub inputs : Inputs
inputs = record {
  version = "v0.1";
  default_image = "moby/buildkit";
  default_rootless_image = "moby/buildkit:rootless";
  read_file = λ name. ok "";
}

abbrev pub config : InitConfig
config = record {
  name = "";
  buildkit_flags = [];
  config_file = "";
  driver_opts = ("rootless", "true") ∷ ("worker", "auto") ∷ [];
}

abbrev settings : Settings
settings = initial_settings inputs config "default" "sticky" false

-- The options of a rootless builder.
abbrev rootless_opt : DeploymentOpt
rootless_opt = record (initial_opt inputs config) {
  rootless = true;
  image = "moby/buildkit:rootless";
  worker = "runc";
}

new_deployment-VolumesMatch_example : VolumesMatch (new_deployment "v0.1" rootless_opt).template
new_deployment-VolumesMatch_example = new_deployment-VolumesMatch "v0.1" rootless_opt

new_deployment-IsRootless_example : IsRootless (new_deployment "v0.1" rootless_opt).template
new_deployment-IsRootless_example = new_deployment-IsRootless "v0.1" rootless_opt refl

app_label : lookup "app" (new_deployment "v0.1" rootless_opt).selector ≡ some "buildkit"
unfolding new_deployment lookup labels buildx_name_to_deployment_name
app_label = refl

config-Distinct : Distinct (keys config.driver_opts)
unfolding is_in
config-Distinct = (refl, (refl, tt))

options_pass : (apply_options "moby/buildkit:rootless" config.driver_opts settings).0 ≡ ok tt
unfolding apply_options parse_bool
options_pass = refl

apply_options-settings_of_example :
    (apply_options "moby/buildkit:rootless" config.driver_opts settings).1
    ≡ settings_of "moby/buildkit:rootless" config.driver_opts settings
apply_options-settings_of_example =
    apply_options-settings_of "moby/buildkit:rootless" config.driver_opts settings config-Distinct
      options_pass

abbrev value_of : Result Driver → Driver
value_of (ok d) = d
value_of (err e) = record {
  settings = settings;
  min_replicas = pos 0;
  deployment = new_deployment "v0.1" rootless_opt;
  config_map = record {
    api_version = "v1";
    kind = "ConfigMap";
    namespace = "";
    name = "";
    labels = [];
    annotations = [];
    binary_data = [];
  };
  user_specified_config = false;
}

abbrev pod : String → Pod
pod name = record {
  name = name;
  phase = "Running";
  containers = "buildkitd" ∷ [];
  labels = [];
  pod_ip = "10.1.0.2";
  message = "";
}

abbrev list_two : String → Result (List Pod)
list_two name = ok (pod "b" ∷ pod "a" ∷ [])

list_running_pods_lem_example :
    (pods : List Pod) × (list_running_pods list_two "buildkit" ≡ ok pods)
    × Perm pods (keep is_running (pod "b" ∷ pod "a" ∷ []))
    × IsSorted Pod.name pods
list_running_pods_lem_example =
    list_running_pods_lem list_two "buildkit" (pod "b" ∷ pod "a" ∷ []) refl

abbrev first_name : List String → String → Option String
first_name [] key = none
first_name (n ∷ ns) key = some n

pods-Distinct : Distinct (map Pod.name (pod "a" ∷ pod "b" ∷ []))
unfolding is_in
pods-Distinct = (refl, (refl, tt))

a_is_in : is_in "a" (map Pod.name (pod "a" ∷ pod "b" ∷ [])) ≡ true
unfolding is_in
a_is_in = refl

pick_sticky-Picks_example :
    (q : Pod) × (others : List Pod) × (pick_sticky first_name
        (ok [])
        7
        "key"
        (pod "a" ∷ pod "b" ∷ [])
      ≡ ok (record { pod = q; others = map some others }))
    × (q.name ≡ "a")
    × Perm (q ∷ others) (pod "a" ∷ pod "b" ∷ [])
pick_sticky-Picks_example =
    pick_sticky-Picks first_name (ok []) 7 "key" "a" (pod "a") (pod "b" ∷ []) pods-Distinct refl
      a_is_in

abbrev labelled : Chosen
labelled = record {
  pod = record (pod "a") { labels = ("pod-template-hash", "5d4f") ∷ labels rootless_opt };
  others = [];
}

features-labels_example :
    ((features (ok labelled)).containerd_exporter
      ≡ (not rootless_opt.rootless && rootless_opt.container_runtime == "containerd"))
    × ((features (ok labelled)).docker_exporter
        ≡ (not rootless_opt.rootless && rootless_opt.container_runtime == "docker"))
unfolding lookup
features-labels_example = features-labels rootless_opt labelled "buildkitd" [] refl refl refl

abbrev depl : DeploymentState
depl = record { name = "buildkit"; annotations = []; ready_replicas = pos 2 }

-- A cluster with one deployment that has two pods.
abbrev api : Api
api = record {
  World = List String;
  Client = Unit {0};
  get_deployment = λ w name. ok depl;
  list_deployments = λ w. ok (depl ∷ []);
  list_pods = λ w name. list_two name;
  choose_pod = λ w. ok labelled;
  client_config = λ w. ok tt;
  delete_deployment = λ name w. (ok tt, name ∷ w);
  delete_config_map = λ name w. (ok tt, name ∷ w);
  exec_client = λ p c cmd w. (ok tt, w);
}
