-- ===== src/Examples/Builder.antt =====
-- The loop that waits for a builder.
use buildkit_cli_for_kubectl.Prelude.{
  ℕ, ◌-◌, String, ◌≡◌, refl, false, none, [], ◌∷◌, ok, err, external, nat_eq, Distinct, keys, is_in,
  insert,
}
use buildkit_cli_for_kubectl.Text.Number.{pos, to_int32}
use buildkit_cli_for_kubectl.Text.Contains.{contains}
use buildkit_cli_for_kubectl.Kubernetes.Operations.{is_child_of}
use buildkit_cli_for_kubectl.Kubernetes.Config.{
  Inputs, InitConfig, Settings, initial_settings, init_driver_from_config,
}
use buildkit_cli_for_kubectl.Kubernetes.Manifest.{new_deployment, new_config_map}
use buildkit_cli_for_kubectl.Kubernetes.Builder.{
  Cluster, Depl, Object, Event, found, Loop, Configured, flip, log_events, on_pod_event,
}
use buildkit_cli_for_kubectl.Kubernetes.Builder.Passes.{create_builder, int_ge}
use buildkit_cli_for_kubectl.Kubernetes.Builder.Flips.{
  IsKeptOrFlipped, create_builder-IsKeptOrFlipped,
}

abbrev depl : Depl
depl = record { name = "buildkit"; uid = "1"; resource_version = "7"; ready_replicas = pos 0 }

-- A cluster whose deployment never has a replica; the world is the time that is left.
abbrev cluster : Cluster
cluster = record {
  World = ℕ;
  is_done = λ w. nat_eq w 0;
  log = λ line w. w;
  pause = λ n w. w - 1;
  is_not_found = λ e. false;
  label_selector = λ app. ok app;
  field_selector = λ name namespace kind uid. name;
  get_deployment = λ name w. (found depl, w);
  create_deployment = λ d w. (ok depl, w);
  update_deployment = λ d w. (ok depl, w);
  list_replica_sets = λ selector w. (ok [], w);
  list_pods = λ selector w. (ok [], w);
  list_events = λ selector w. (ok [], w);
  delete_replica_set = λ name w. (ok tt, w);
  delete_pod = λ name w. (ok tt, w);
}

abbrev inputs : Inputs
inputs = record {
  version = "v0.1";
  default_image = "buildkit";
  default_rootless_image = "rootless";
  read_file = λ path. err (external "not found");
}

abbrev config : InitConfig
config = record {
  name = "";
  buildkit_flags = [];
  config_file = "";
  driver_opts = ("namespace", "ci") ∷ [];
}

abbrev settings : Settings
settings = initial_settings inputs config "default" "sticky" false

abbrev configured : Configured
configured = record {
  config = config;
  driver = record {
    settings = settings;
    min_replicas = pos 1;
    deployment = new_deployment "v0.1" settings.opt;
    config_map = new_config_map "v0.1" settings.opt "";
    user_specified_config = false;
  };
}

abbrev start : (api : Cluster) → api.World → Loop api inputs
start api w = record {
  builder = configured;
  depl = depl;
  reported = [];
  ref_uid = none;
  ref_kind = none;
  world = w;
}

abbrev of_builder : String → String → Object
of_builder uid parent = record {
  name = uid;
  namespace = "default";
  uid = uid;
  kind = "";
  owners = parent ∷ [];
}

abbrev no_socket : Event
no_socket = record {
  object_uid = "3";
  event_type = "Warning";
  reason = "FailedMount";
  message = "/var/run/docker.sock is not a socket file";
}

-- A cluster whose nodes have no Docker
abbrev without_docker : Cluster
without_docker = record cluster {
  list_replica_sets = λ selector w. (ok (of_builder "2" "1" ∷ []), w);
  list_pods = λ selector w. (ok (of_builder "3" "2" ∷ []), w);
  list_events = λ selector w. (ok (no_socket ∷ []), w);
}

config-Distinct : Distinct (keys config.driver_opts)
unfolding is_in
config-Distinct = (refl, tt)

flip-ok : (flip inputs "containerd" configured).0 ≡ ok tt
unfolding flip init_driver_from_config insert
flip-ok = refl

create_builder-IsKeptOrFlipped_example :
    IsKeptOrFlipped inputs configured
      (create_builder without_docker inputs 3 (start without_docker 3)).1.builder
create_builder-IsKeptOrFlipped_example =
    create_builder-IsKeptOrFlipped inputs without_docker 3 (start without_docker 3) config-Distinct
      flip-ok

-- The loop of the cluster without Docker, to its end
flipped_test :
    (create_builder without_docker inputs 3 (start without_docker 3)).1.builder.config.driver_opts
    ≡ ("namespace", "ci") ∷ ("runtime", "containerd") ∷ ("worker", "auto") ∷ []
unfolding create_builder int_ge to_int32 is_child_of log_events is_in on_pod_event contains
    init_driver_from_config insert
flipped_test = refl

-- The deployment never has a replica; the time runs out, and there is no error.
timed_out_test : (create_builder cluster inputs 4 (start cluster 3)).0 ≡ ok tt
unfolding create_builder int_ge to_int32
timed_out_test = refl
