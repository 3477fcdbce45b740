-- ===== src/Examples/Commands.antt =====
-- The commands, the start of a builder and its connection.
use buildkit_cli_for_kubectl.Prelude.{
  errorf, All, ℕ, suc, ◌<◌, ◌-◌, String, ◌≡◌, refl, ap, subst, Bool, true, false, Option, none,
  some, List, [], ◌∷◌, lookup, lookup_or, is_in, ok, err, Error, external, nat_eq, arith,
  if◌then◌else◌, Ensures, ◌==◌,
}
use buildkit_cli_for_kubectl.Prelude.Loops.{goes_on}
use buildkit_cli_for_kubectl.Text.Split.{split, Lacks, has_code}
use buildkit_cli_for_kubectl.Text.Number.{ℤ, pos, atoi}
use buildkit_cli_for_kubectl.Kubernetes.Operations.{starting}
use buildkit_cli_for_kubectl.Kubernetes.Config.{set_envs, Settings, initial_settings, apply_options}
use buildkit_cli_for_kubectl.Kubernetes.Connection.{
  close_read_op, close_op, apply_ops, close, new_conn, apply_ops-ClosesOnce, ClosesOnce,
}
use buildkit_cli_for_kubectl.Driver.Boot.{Bootable, boot, boot_once, Rounds, boot-Rounds}
use buildkit_cli_for_kubectl.Commands.Maps.{proxy_names, build_driver_opts}
use buildkit_cli_for_kubectl.Commands.Maps.Proxies.{build_driver_opts-set_envs}
use buildkit_cli_for_kubectl.Commands.Create.{CreateOptions, create_opts, create_opts-Holds, Holds}
use buildkit_cli_for_kubectl.Build.Outputs.{absent, parse_outputs}
use buildkit_cli_for_kubectl.Commands.Build.{BuildApi, BuildOptions, build_request}
use buildkit_cli_for_kubectl.Commands.Build.Exports.{build_request-IsServed, IsServed}
use buildkit_cli_for_kubectl.Progress.{Clock, Logged, wrap, sub_log}
use buildkit_cli_for_kubectl.Progress.Brackets.{wrap-VertexBracket, VertexBracket, Appends}

-- A driver that never answers with clients; the world is the time that is left.
abbrev never : Bootable
never = record {
  World = ℕ;
  BuilderClients = String;
  is_done = λ w. nat_eq w 0;
  pause = λ n w. w - 1;
  info = λ w. (ok (record { status = starting; dynamic_nodes = [] }), w);
  bootstrap = λ w. (err (external "conflict"), w);
  clients = λ w. (ok "", w);
}

never_passes :
    (u v : ℕ) (e : Error) → never.is_done u ≡ false → boot_once never u ≡ (goes_on e, v) → v < u
unfolding boot_once
never_passes u v e d k = less (ap (λ m. m.1) k)
  where
    less : u - 1 ≡ v → v < u
    less h = ground arith

boot-Rounds_example :
    Rounds never (errorf "timeout before starting" []) 3 (boot never 4 3).0 (boot never 4 3).1
boot-Rounds_example = boot-Rounds never (λ w. w) never_passes 4 3 (omega arith)

apply_ops-ClosesOnce_example :
    ClosesOnce
      (λ p l. none)
      (apply_ops (λ p l. none) (close_read_op ∷ close_op ∷ []) new_conn)
      (close (λ p l. none) (apply_ops (λ p l. none) (close_read_op ∷ close_op ∷ []) new_conn)).1
apply_ops-ClosesOnce_example = apply_ops-ClosesOnce (λ p l. none) (close_read_op ∷ close_op ∷ [])

-- An environment with one proxy
abbrev env : String → Option String
env name = if name == "no_proxy" then some "localhost" else none

abbrev text_of : Option String → String
text_of none = ""
text_of (some v) = v

env-Lacks : (name v : String) → env name ≡ some v → Lacks b';' v
unfolding has_code
env-Lacks name v h = go (name == "no_proxy") h
  where
    go : (b : Bool) → (if b then some "localhost" else none) ≡ some v → Lacks b';' v
    go true e = subst (Lacks b';') (ap text_of e) refl
    go false e = absurd (cc)

build_driver_opts-set_envs_example :
    lookup "no_proxy" (set_envs (split b';' (lookup_or "" "env" (build_driver_opts env))) [])
    ≡ (if is_in "no_proxy" proxy_names then env "no_proxy" else none)
build_driver_opts-set_envs_example = build_driver_opts-set_envs env "no_proxy" env-Lacks

abbrev create_options : CreateOptions
create_options = record {
  name = "";
  image = "";
  runtime = "auto";
  containerd_sock = "/run/containerd/containerd.sock";
  containerd_namespace = "k8s.io";
  docker_sock = "/var/run/docker.sock";
  replicas = pos 2;
  rootless = true;
  loadbalance = "random";
  worker = "auto";
  custom_config = "";
  envs = "http_proxy=p:80" ∷ "debug=1" ∷ [];
}

abbrev two : ℤ → String
two n = "2"

abbrev settings : Settings
settings =
    initial_settings
      (record {
        version = "";
        default_image = "";
        default_rootless_image = "";
        read_file = λ s. err (external "not found");
      })
      (record { name = ""; buildkit_flags = []; config_file = ""; driver_opts = [] }) "default"
      "sticky" false

two_counts : atoi (two (pos 2)) ≡ ok (pos 2)
unfolding atoi
two_counts = refl

no_semicolons : All (Lacks b';') create_options.envs
unfolding has_code
no_semicolons = (refl, (refl, tt))

create_opts-Holds_example :
    ((apply_options "rootless" (create_opts two create_options) settings).0 ≡ ok tt)
    × Holds two create_options settings
        (apply_options "rootless" (create_opts two create_options) settings).1
create_opts-Holds_example =
    create_opts-Holds two "rootless" create_options settings two_counts refl refl refl no_semicolons

abbrev pub build_api : BuildApi
build_api = record {
  os = record {
    World = List String;
    stdout_is_console = λ w. true;
    stat = λ w name. absent;
    create = λ name w. (ok tt, name ∷ w);
  };
  env = env;
  platforms = record {
    Platform = String;
    normalize = λ q. q;
    format = λ q. q;
    parse_spec = λ text. ok text;
    default_spec = "linux";
  };
  Store = ℕ;
  Provider = ℕ;
  new_store = λ sources. ok 0;
  new_ssh_agent_provider = λ configs. ok 0;
}

abbrev pub pushed : BuildOptions
pushed = record {
  context_path = ".";
  dockerfile_name = "";
  tags = "app" ∷ [];
  labels = "a=b" ∷ [];
  build_args = "no_proxy" ∷ [];
  cache_from = [];
  cache_to = [];
  target = "";
  platforms = "linux" ∷ [];
  secrets = [];
  ssh = [];
  outputs = [];
  image_id_file = "";
  extra_hosts = [];
  network_mode = "";
  squash = false;
  quiet = false;
  allow = [];
  frontend = "";
  no_cache = none;
  pull = some true;
  export_push = true;
  export_load = false;
}

-- The same build, into the runtime of the builder
abbrev into_runtime : BuildOptions
into_runtime = record pushed { export_push = false; export_load = true }

build_request-IsServed_example :
    Ensures
      (IsServed build_api into_runtime (parse_outputs build_api.os [] []).0)
      (build_request build_api into_runtime []).0
build_request-IsServed_example = build_request-IsServed build_api into_runtime []

-- A clock that counts its calls
abbrev pub clock : Clock
clock = record {
  World = ℕ;
  now = λ w. (pos w, suc w);
  new_digest = λ w. ("sha256:1", w);
  error_text = λ e. "failed";
}

logging-Appends :
    (digest : String) → Appends clock (λ s. (err (external ""), sub_log clock digest 1 [] s))
unfolding Appends sub_log
logging-Appends digest s = (_, refl)

abbrev pub empty_log : Logged clock
empty_log = record { sent = []; world = 0 }

wrap-VertexBracket_example :
    VertexBracket clock "boot"
      (λ digest s. (err (external ""), sub_log clock digest 1 [] s))
      empty_log
      (wrap clock "boot" (λ digest s. (err (external ""), sub_log clock digest 1 [] s)) empty_log)
wrap-VertexBracket_example =
    wrap-VertexBracket clock "boot" (λ digest s. (err (external ""), sub_log clock digest 1 [] s))
      logging-Appends empty_log
