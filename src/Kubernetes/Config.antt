-- ===== src/Kubernetes/Config.antt =====
-- `initDriverFromConfig` of pkg/driver/kubernetes/factory.go: the driver options become a deployment
-- and a config map. `Inputs` holds what comes from outside: the version texts that are filled in at
-- linking time, and the file system's answer for the config file.
pub mod Options
pub mod Valid
pub mod Chosen
pub mod Accepted
use buildkit_cli_for_kubectl.Prelude.{
  String, ◌<>◌, Bool, true, false, not, ◌&&◌, Option, none, some, List, [], ◌∷◌, Result, ok, err,
  Error, errorf, wrapf, external, if◌then◌else◌, ◌==◌, ◌||◌, Map, insert, ◌>>=◌ as and_then,
}
use buildkit_cli_for_kubectl.Prelude.Io.{Io, pure, throw, lift, ◌>>=◌}
use buildkit_cli_for_kubectl.Text.Split.{split, cut}
use buildkit_cli_for_kubectl.Text.Case.{parse_bool}
use buildkit_cli_for_kubectl.Text.Number.{ℤ, pos, atoi}
use buildkit_cli_for_kubectl.Kubernetes.Manifest.{
  DeploymentOpt, Deployment, ConfigMap, new_deployment, new_config_map,
}

pub record Inputs : Type 0 where
  pub version : String
  pub default_image : String
  pub default_rootless_image : String
  pub read_file : String → Result String

-- `driver.InitConfig`, as far as the function reads it
pub record InitConfig : Type 0 where
  pub name : String
  pub buildkit_flags : List String
  pub config_file : String
  pub driver_opts : Map String

-- The local variables and the driver's fields that the loop over the options sets.
pub record Settings : Type 0 where
  pub opt : DeploymentOpt
  pub image_override : String
  pub namespace : String
  pub loadbalance : String
  pub user_specified_runtime : Bool

-- The cases of `switch k`.
pub data OptionKey : Type 0 where
  image_key namespace_key replicas_key rootless_key loadbalance_key worker_key
        containerd_namespace_key :
      OptionKey
  containerd_sock_key docker_sock_key runtime_key custom_config_key env_key unknown_key : OptionKey

unfoldable pub option_key : String → OptionKey
option_key k =
    if k == "image"
    then image_key
    else if k == "namespace"
    then namespace_key
    else if k == "replicas"
    then replicas_key
    else if k == "rootless"
    then rootless_key
    else if k == "loadbalance"
    then loadbalance_key
    else if k == "worker"
    then worker_key
    else if k == "containerd-namespace"
    then containerd_namespace_key
    else if k == "containerd-sock"
    then containerd_sock_key
    else if k == "docker-sock"
    then docker_sock_key
    else if k == "runtime"
    then runtime_key
    else if k == "custom-config"
    then custom_config_key
    else if k == "env"
    then env_key
    else unknown_key

abbrev pub set_opt : DeploymentOpt → Io Settings (Unit {0})
set_opt opt s = (ok tt, record s { opt = opt })

pub set_replicas : Result ℤ → Io Settings (Unit {0})
set_replicas (ok n) s = set_opt (record s.opt { replicas = n }) s
set_replicas (err e) s = throw e s

abbrev pub parse_bool_error : Error
parse_bool_error = external "invalid syntax"

-- `image` is the image of rootless builders.
pub set_rootless : String → Option Bool → Io Settings (Unit {0})
set_rootless image none s = throw parse_bool_error s
set_rootless image (some true) s = set_opt (record s.opt { rootless = true; image = image }) s
set_rootless image (some false) s = set_opt (record s.opt { rootless = false }) s

abbrev pub is_loadbalance : String → Bool
is_loadbalance v = v == "sticky" || v == "random"

abbrev pub is_worker : String → Bool
is_worker v = v == "auto" || v == "containerd" || v == "runc"

-- One `name=value` of the option `env`; other texts are passed over.
unfoldable pub set_env : Option (String × String) → Map String → Map String
set_env none envs = envs
set_env (some (name, value)) envs = insert name value envs

unfoldable pub set_envs : List String → Map String → Map String
unfolding set_env
set_envs [] envs = envs
set_envs (item ∷ items) envs = set_envs items (set_env (cut b'=' item) envs)

abbrev pub set_runtime : Bool → String → Io Settings (Unit {0})
set_runtime specified v s = (
  ok tt,
  record s { user_specified_runtime = specified; opt = record s.opt { container_runtime = v } },
)

-- The cases' bodies, on the key's and the value's text.
pub apply_key : String → OptionKey → String → String → Io Settings (Unit {0})
unfolding set_replicas set_rootless set_envs
apply_key rootless_image image_key k v s = (ok tt, record s { image_override = v })
apply_key rootless_image namespace_key k v s = (ok tt, record s { namespace = v })
apply_key rootless_image replicas_key k v s = set_replicas (atoi v) s
apply_key rootless_image rootless_key k v s = set_rootless rootless_image (parse_bool v) s
apply_key rootless_image loadbalance_key k v s =
    if is_loadbalance v
    then (ok tt, record s { loadbalance = v })
    else throw (errorf "invalid loadbalance %q" (v ∷ [])) s
apply_key rootless_image worker_key k v s =
    if is_worker v
    then set_opt (record s.opt { worker = v }) s
    else throw (errorf "invalid worker %q" (v ∷ [])) s
apply_key rootless_image containerd_namespace_key k v s =
    set_opt (record s.opt { containerd_namespace = v }) s
apply_key rootless_image containerd_sock_key k v s =
    set_opt (record s.opt { containerd_sock_host_path = v }) s
apply_key rootless_image docker_sock_key k v s =
    set_opt (record s.opt { docker_sock_host_path = v }) s
apply_key rootless_image runtime_key k v s =
    if v == "auto"
    then set_runtime false v s
    else if v == "docker" || v == "containerd"
    then set_runtime true v s
    else throw (errorf "invalid runtime %q" (v ∷ [])) s
apply_key rootless_image custom_config_key k v s = set_opt (record s.opt { custom_config = v }) s
apply_key rootless_image env_key k v s =
    set_opt (record s.opt { environments = set_envs (split b';' v) s.opt.environments }) s
apply_key rootless_image unknown_key k v s =
    throw (errorf "invalid driver option %s for driver %s" (k ∷ "kubernetes" ∷ [])) s

-- The loop over the options, in the order in which the runtime visits the map.
unfoldable pub apply_options : String → Map String → Io Settings (Unit {0})
unfolding option_key apply_key
apply_options rootless_image [] = pure tt
apply_options rootless_image ((k, v) ∷ opts) = do
  u ← apply_key rootless_image (option_key k) k v
  apply_options rootless_image opts

abbrev pub default_container_runtime : String
default_container_runtime = "docker"

-- `buildxNameToDeploymentName`
unfoldable pub buildx_name_to_deployment_name : String → String
buildx_name_to_deployment_name bx = if bx == "" then "buildkit" else bx

abbrev pub initial_opt : Inputs → InitConfig → DeploymentOpt
initial_opt inputs cfg = record {
  namespace = "";
  name = buildx_name_to_deployment_name cfg.name;
  image = inputs.default_image;
  replicas = pos 1;
  buildkit_flags = cfg.buildkit_flags;
  rootless = false;
  worker = "";
  containerd_namespace = "k8s.io";
  containerd_sock_host_path = "/run/containerd/containerd.sock";
  docker_sock_host_path = "/var/run/docker.sock";
  container_runtime = default_container_runtime;
  custom_config = "";
  environments = [];
}

-- The runtime `auto` becomes the default, and the worker `auto` the one of the runtime.
pub resolve_runtime : DeploymentOpt → DeploymentOpt
resolve_runtime opt =
    if opt.container_runtime == "auto"
    then record opt { container_runtime = default_container_runtime }
    else opt

pub resolve_worker : DeploymentOpt → DeploymentOpt
resolve_worker opt =
    if opt.container_runtime == "containerd" && opt.worker == "auto"
    then record opt { worker = "containerd" }
    else if opt.container_runtime == "docker" && opt.worker == "auto"
    then record opt { worker = "runc" }
    else opt

pub check_rootless : DeploymentOpt → Result DeploymentOpt
check_rootless opt =
    if opt.rootless && opt.worker == "containerd"
    then err (errorf "containerd worker does not support rootless mode - use 'runc' worker" [])
    else ok opt

pub override_image : String → DeploymentOpt → DeploymentOpt
override_image image opt = if image == "" then opt else record opt { image = image }

-- What stands between the loop and the deployment.
pub finish_opt : Settings → Result DeploymentOpt
unfolding resolve_runtime resolve_worker check_rootless override_image
finish_opt s =
    and_then (check_rootless (resolve_worker (resolve_runtime s.opt)))
      (λ opt. ok (override_image s.image_override opt))

-- `DefaultConfigFileTemplate`, executed
pub default_config : DeploymentOpt → String
default_config opt =
    "# Default buildkitd configuration.  Use --config <path/to/file> to override during create\ndebug = false\n[worker.containerd]\n  namespace = \""
    <> (opt.containerd_namespace <> "\"\n")

-- The fields of the driver that the function sets.
pub record Driver : Type 0 where
  pub settings : Settings
  pub min_replicas : ℤ
  pub deployment : Deployment
  pub config_map : ConfigMap
  pub user_specified_config : Bool

wrap_read : Result String → Result String
wrap_read (ok text) = ok text
wrap_read (err e) = err (wrapf e "failed to load config file: %w" [])

pub config_contents : Inputs → InitConfig → DeploymentOpt → Result String
config_contents inputs cfg opt =
    if cfg.config_file == ""
    then ok (default_config opt)
    else wrap_read (inputs.read_file cfg.config_file)

-- The end of the function: the deployment, the replicas to wait for and the config map.
pub make_from : Inputs → InitConfig → Settings → DeploymentOpt → Result String → Result Driver
make_from inputs cfg s opt (ok contents) = ok (record {
  settings = record s { opt = opt };
  min_replicas = opt.replicas;
  deployment = new_deployment inputs.version opt;
  config_map = new_config_map inputs.version opt contents;
  -- false before the first call, and the config file is the same in each
  user_specified_config = not (cfg.config_file == "");
})
make_from inputs cfg s opt (err e) = err e

pub make_driver : Inputs → InitConfig → Settings → DeploymentOpt → Result Driver
unfolding make_from config_contents wrap_read default_config
make_driver inputs cfg s opt = make_from inputs cfg s opt (config_contents inputs cfg opt)

-- Behind the loop.
pub continue_init : Inputs → InitConfig → Result (Unit {0}) × Settings → Result Driver
unfolding finish_opt make_driver
continue_init inputs cfg (err e, s) = err e
continue_init inputs cfg (ok u, s) = and_then (finish_opt s) (make_driver inputs cfg s)

-- The options of the deployment, where they are settled
pub settled_opt : Result (Unit {0}) × Settings → Result DeploymentOpt
settled_opt (err e, s) = err e
settled_opt (ok u, s) = finish_opt s

-- What the driver holds after an error: the new deployment and its replicas with the config map of before, where
-- it was the config file that could not be read, and else what it held
pub remade : Inputs → Driver → Result DeploymentOpt → Driver
remade inputs old (ok opt) = record old {
  settings = record old.settings { opt = opt };
  min_replicas = opt.replicas;
  deployment = new_deployment inputs.version opt;
}
remade inputs old (err e) = old

-- `namespace` and `loadbalance` are the driver's fields from before.
abbrev pub initial_settings : Inputs → InitConfig → String → String → Bool → Settings
initial_settings inputs cfg namespace loadbalance specified = record {
  opt = initial_opt inputs cfg;
  image_override = "";
  namespace = namespace;
  loadbalance = loadbalance;
  user_specified_runtime = specified;
}

unfoldable pub init_driver_from_config :
    Inputs → InitConfig → String → String → Bool → Result Driver
unfolding apply_options continue_init
init_driver_from_config inputs cfg namespace loadbalance specified = continue_init inputs cfg (
    apply_options inputs.default_rootless_image cfg.driver_opts
      (initial_settings inputs cfg namespace loadbalance specified))
