-- ===== src/Commands/Create.antt =====
-- The driver options that `runCreate` of pkg/cmd/create.go makes of its flags. `strconv.Itoa` is a parameter.
use buildkit_cli_for_kubectl.Prelude.{
  String, ◌≡◌, refl, sym, subst, not, lookup, Bool, true, false, ◌||◌, some, List, [], ◌∷◌, Map, ok,
  ◌==◌, Distinct, is_in, keys, All,
}
use buildkit_cli_for_kubectl.Text.Split.{join, Lacks}
use buildkit_cli_for_kubectl.Text.Case.{parse_bool}
use buildkit_cli_for_kubectl.Text.Number.{ℤ, atoi}
use buildkit_cli_for_kubectl.Kubernetes.Config.Accepted.{apply_options-ok}
use buildkit_cli_for_kubectl.Kubernetes.Config.Options.Spec.{settings_of, apply_options-settings_of}
use buildkit_cli_for_kubectl.Commands.Maps.Proxies.{set_envs-split}
use buildkit_cli_for_kubectl.Kubernetes.Config.{
  option_key, Settings, apply_options, is_loadbalance, is_worker, set_envs,
}

-- `createOptions`, as far as the options depend on it
pub record CreateOptions : Type 0 where
  pub name : String
  pub image : String
  pub runtime : String
  pub containerd_sock : String
  pub containerd_namespace : String
  pub docker_sock : String
  pub replicas : ℤ
  pub rootless : Bool
  pub loadbalance : String
  pub worker : String
  pub custom_config : String
  pub envs : List String

-- `strconv.FormatBool`
unfoldable pub format_bool : Bool → String
format_bool true = "true"
format_bool false = "false"

module _ (itoa : ℤ → String) where
  unfoldable pub create_opts : CreateOptions → Map String
  unfolding format_bool
  create_opts o =
      ("image", o.image)
      ∷ ("replicas", itoa o.replicas)
      ∷ ("rootless", format_bool o.rootless)
      ∷ ("loadbalance", o.loadbalance)
      ∷ ("worker", o.worker)
      ∷ ("containerd-namespace", o.containerd_namespace)
      ∷ ("containerd-sock", o.containerd_sock)
      ∷ ("docker-sock", o.docker_sock)
      ∷ ("runtime", o.runtime)
      ∷ ("custom-config", o.custom_config)
      ∷ ("env", join ";" o.envs)
      ∷ []

  create_opts-Distinct : (o : CreateOptions) → Distinct (keys (create_opts o))
  unfolding create_opts is_in
  create_opts-Distinct o =
      (refl, (refl, (refl, (refl, (refl, (refl, (refl, (refl, (refl, (refl, (refl, tt)))))))))))

  parse_bool-format_bool : (b : Bool) → parse_bool (format_bool b) ≡ some b
  unfolding parse_bool format_bool
  parse_bool-format_bool true = refl
  parse_bool-format_bool false = refl

  -- What the settings after the loop hold of the flags
  pub record Holds (o : CreateOptions) (s t : Settings) : Type 0 where
    pub replicas : t.opt.replicas ≡ o.replicas
    pub rootless : t.opt.rootless ≡ o.rootless
    pub worker : t.opt.worker ≡ o.worker
    pub container_runtime : t.opt.container_runtime ≡ o.runtime
    pub user_specified_runtime : t.user_specified_runtime ≡ not (o.runtime == "auto")
    pub containerd_namespace : t.opt.containerd_namespace ≡ o.containerd_namespace
    pub containerd_sock : t.opt.containerd_sock_host_path ≡ o.containerd_sock
    pub docker_sock : t.opt.docker_sock_host_path ≡ o.docker_sock
    pub custom_config : t.opt.custom_config ≡ o.custom_config
    pub image_override : t.image_override ≡ o.image
    pub namespace : t.namespace ≡ s.namespace
    pub loadbalance : t.loadbalance ≡ o.loadbalance
    pub environments : t.opt.environments ≡ set_envs o.envs s.opt.environments

  module _ (image : String) (o : CreateOptions) (s : Settings)
      (counted : atoi (itoa o.replicas) ≡ ok o.replicas) where
    create_opts-accepted :
        is_loadbalance o.loadbalance ≡ true
        → is_worker o.worker ≡ true
        → (o.runtime == "auto" || o.runtime == "docker" || o.runtime == "containerd") ≡ true
        → (apply_options image (create_opts o) s).0 ≡ ok tt
    unfolding create_opts option_key
    create_opts-accepted l w r = apply_options-ok image (create_opts o) s (
      tt,
      (
        (o.replicas, counted),
        (
          (o.rootless, parse_bool-format_bool o.rootless),
          (l, (w, (tt, (tt, (tt, (r, (tt, (tt, tt)))))))),
        ),
      ),
    )

    settings_of-Holds : All (Lacks b';') o.envs → Holds o s (settings_of image (create_opts o) s)
    unfolding settings_of create_opts lookup
    settings_of-Holds plain = record {
      replicas = rw counted refl;
      rootless = rw (parse_bool-format_bool o.rootless) refl;
      worker = refl;
      container_runtime = refl;
      user_specified_runtime = refl;
      containerd_namespace = refl;
      containerd_sock = refl;
      docker_sock = refl;
      custom_config = refl;
      image_override = refl;
      namespace = refl;
      loadbalance = refl;
      environments = set_envs-split o.envs s.opt.environments plain;
    }

    -- Where `Atoi` reads what `Itoa` writes and the load balancing, the worker and the runtime are words that
    -- exist, and no variable of the environment holds a semicolon, the loop over the driver options lets the
    -- flags of `create` pass, and the settings that it leaves hold their values, the environment's variables
    -- set one after the other included.
    pub create_opts-Holds :
        is_loadbalance o.loadbalance ≡ true
        → is_worker o.worker ≡ true
        → (o.runtime == "auto" || o.runtime == "docker" || o.runtime == "containerd") ≡ true
        → All (Lacks b';') o.envs
        → ((apply_options image (create_opts o) s).0 ≡ ok tt)
          × Holds o s (apply_options image (create_opts o) s).1
    create_opts-Holds l w r plain =
        let done = create_opts-accepted l w r in
        (
          done,
          subst (Holds o s)
              (sym
                (apply_options-settings_of image (create_opts o) s (create_opts-Distinct o) done))
              (settings_of-Holds plain),
        )
