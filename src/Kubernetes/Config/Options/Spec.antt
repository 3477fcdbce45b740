-- ===== src/Kubernetes/Config/Options/Spec.antt =====
-- The settings that the loop over the options leaves, field by field, and that no order changes them.
use buildkit_cli_for_kubectl.Prelude.{
  String, ◌≡◌, refl, ◌∙◌, Bool, true, not, Option, none, some, Result, ok, err, ◌==◌, Map, lookup,
  keys, Distinct, arith, if◌then◌else◌,
}
use buildkit_cli_for_kubectl.Text.Split.{split}
use buildkit_cli_for_kubectl.Text.Case.{parse_bool}
use buildkit_cli_for_kubectl.Text.Number.{ℤ, atoi}
use buildkit_cli_for_kubectl.Kubernetes.Config.{
  Settings, OptionKey, image_key, namespace_key, replicas_key, rootless_key, loadbalance_key,
  worker_key, containerd_namespace_key, containerd_sock_key, docker_sock_key, runtime_key,
  custom_config_key, env_key, unknown_key, set_envs, apply_key, apply_options,
}
use buildkit_cli_for_kubectl.Kubernetes.Config.Options.{same_key, set_from, field_lem}

-- The value under a key as the option's text, or the setting from before.
abbrev pub replace : String → String → String
replace v old = v

pub from_atoi : Result ℤ → ℤ → ℤ
from_atoi (ok n) old = n
from_atoi (err e) old = old

pub from_bool : Option Bool → Bool → Bool
from_bool none old = old
from_bool (some b) old = b

pub rootless_image : String → Option Bool → String → String
rootless_image image (some true) old = image
rootless_image image _ old = old

-- The settings that a map of options stands for: each field by the value of its own key.
unfoldable pub settings_of : String → Map String → Settings → Settings
unfolding from_atoi from_bool rootless_image
settings_of image opts s = record {
  opt = record {
    namespace = s.opt.namespace;
    name = s.opt.name;
    image =
        set_from (λ v. rootless_image image (parse_bool v)) (lookup "rootless" opts) s.opt.image;
    replicas = set_from (λ v. from_atoi (atoi v)) (lookup "replicas" opts) s.opt.replicas;
    buildkit_flags = s.opt.buildkit_flags;
    rootless = set_from (λ v. from_bool (parse_bool v)) (lookup "rootless" opts) s.opt.rootless;
    worker = set_from replace (lookup "worker" opts) s.opt.worker;
    containerd_namespace =
        set_from replace (lookup "containerd-namespace" opts) s.opt.containerd_namespace;
    containerd_sock_host_path =
        set_from replace (lookup "containerd-sock" opts) s.opt.containerd_sock_host_path;
    docker_sock_host_path =
        set_from replace (lookup "docker-sock" opts) s.opt.docker_sock_host_path;
    container_runtime = set_from replace (lookup "runtime" opts) s.opt.container_runtime;
    custom_config = set_from replace (lookup "custom-config" opts) s.opt.custom_config;
    environments =
        set_from (λ v envs. set_envs (split b';' v) envs) (lookup "env" opts) s.opt.environments;
  };
  image_override = set_from replace (lookup "image" opts) s.image_override;
  namespace = set_from replace (lookup "namespace" opts) s.namespace;
  loadbalance = set_from replace (lookup "loadbalance" opts) s.loadbalance;
  user_specified_runtime =
      set_from (λ v old. not (v == "auto")) (lookup "runtime" opts) s.user_specified_runtime;
}

-- A field that no option sets.
set_from_self {ℓ} : {A : Type ℓ} (o : Option String) (a : A) → set_from (λ v old. old) o a ≡ a
set_from_self none a = refl
set_from_self (some v) a = refl

-- What one step does to each field.
module _ (image : String) where
  abbrev Steps {ℓ} : {A : Type ℓ} → OptionKey → (Settings → A) → (String → A → A) → Type ℓ
  Steps c get from =
      (d : OptionKey) (k v : String) (s : Settings)
      → (apply_key image d k v s).0 ≡ ok tt
      → get (apply_key image d k v s).1 ≡ (if same_key d c then from v (get s) else get s)

  image_override_step : Steps image_key (λ s. s.image_override) replace
  unfolding apply_key from_atoi from_bool rootless_image
  image_override_step image_key k v s h = refl
  image_override_step _ k v s h = ground arith

  namespace_step : Steps namespace_key (λ s. s.namespace) replace
  unfolding apply_key from_atoi from_bool rootless_image
  namespace_step image_key k v s h = refl
  namespace_step _ k v s h = ground arith

  loadbalance_step : Steps loadbalance_key (λ s. s.loadbalance) replace
  unfolding apply_key from_atoi from_bool rootless_image
  loadbalance_step image_key k v s h = refl
  loadbalance_step _ k v s h = ground arith

  user_specified_runtime_step :
      Steps runtime_key (λ s. s.user_specified_runtime) (λ v old. not (v == "auto"))
  unfolding apply_key from_atoi from_bool rootless_image
  user_specified_runtime_step image_key k v s h = refl
  user_specified_runtime_step _ k v s h = ground arith

  image_step :
      Steps rootless_key (λ s. s.opt.image) (λ v old. rootless_image image (parse_bool v) old)
  unfolding apply_key from_atoi from_bool rootless_image
  image_step image_key k v s h = refl
  image_step _ k v s h = ground arith

  replicas_step : Steps replicas_key (λ s. s.opt.replicas) (λ v old. from_atoi (atoi v) old)
  unfolding apply_key from_atoi from_bool rootless_image
  replicas_step image_key k v s h = refl
  replicas_step _ k v s h = ground arith

  rootless_step : Steps rootless_key (λ s. s.opt.rootless) (λ v old. from_bool (parse_bool v) old)
  unfolding apply_key from_atoi from_bool rootless_image
  rootless_step image_key k v s h = refl
  rootless_step _ k v s h = ground arith

  worker_step : Steps worker_key (λ s. s.opt.worker) replace
  unfolding apply_key from_atoi from_bool rootless_image
  worker_step image_key k v s h = refl
  worker_step _ k v s h = ground arith

  containerd_namespace_step :
      Steps containerd_namespace_key (λ s. s.opt.containerd_namespace) replace
  unfolding apply_key from_atoi from_bool rootless_image
  containerd_namespace_step image_key k v s h = refl
  containerd_namespace_step _ k v s h = ground arith

  containerd_sock_step : Steps containerd_sock_key (λ s. s.opt.containerd_sock_host_path) replace
  unfolding apply_key from_atoi from_bool rootless_image
  containerd_sock_step image_key k v s h = refl
  containerd_sock_step _ k v s h = ground arith

  docker_sock_step : Steps docker_sock_key (λ s. s.opt.docker_sock_host_path) replace
  unfolding apply_key from_atoi from_bool rootless_image
  docker_sock_step image_key k v s h = refl
  docker_sock_step _ k v s h = ground arith

  runtime_step : Steps runtime_key (λ s. s.opt.container_runtime) replace
  unfolding apply_key from_atoi from_bool rootless_image
  runtime_step image_key k v s h = refl
  runtime_step _ k v s h = ground arith

  custom_config_step : Steps custom_config_key (λ s. s.opt.custom_config) replace
  unfolding apply_key from_atoi from_bool rootless_image
  custom_config_step image_key k v s h = refl
  custom_config_step _ k v s h = ground arith

  environments_step :
      Steps env_key (λ s. s.opt.environments) (λ v envs. set_envs (split b';' v) envs)
  unfolding apply_key from_atoi from_bool rootless_image
  environments_step image_key k v s h = refl
  environments_step _ k v s h = ground arith

  opt_namespace_step : Steps unknown_key (λ s. s.opt.namespace) (λ v old. old)
  unfolding apply_key from_atoi from_bool rootless_image
  opt_namespace_step image_key k v s h = refl
  opt_namespace_step _ k v s h = ground arith

  name_step : Steps unknown_key (λ s. s.opt.name) (λ v old. old)
  unfolding apply_key from_atoi from_bool rootless_image
  name_step image_key k v s h = refl
  name_step _ k v s h = ground arith

  buildkit_flags_step : Steps unknown_key (λ s. s.opt.buildkit_flags) (λ v old. old)
  unfolding apply_key from_atoi from_bool rootless_image
  buildkit_flags_step image_key k v s h = refl
  buildkit_flags_step _ k v s h = ground arith

  -- The loop leaves the settings that the map stands for, where no option is refused.
  pub apply_options-settings_of :
      (opts : Map String) (s : Settings)
      → Distinct (keys opts)
      → (apply_options image opts s).0 ≡ ok tt
      → (apply_options image opts s).1 ≡ settings_of image opts s
  unfolding settings_of
  apply_options-settings_of opts s d h = λ i. record {
    opt = record {
      namespace =
          (field_lem image unknown_key (λ t. t.opt.namespace) (λ v old. old) opt_namespace_step opts
                s d h
              ∙ set_from_self _ s.opt.namespace)
            i;
      name =
          (field_lem image unknown_key (λ t. t.opt.name) (λ v old. old) name_step opts s d h
              ∙ set_from_self _ s.opt.name)
            i;
      image =
          field_lem image rootless_key (λ t. t.opt.image)
            (λ v old. rootless_image image (parse_bool v) old) image_step opts s d h i;
      replicas =
          field_lem image replicas_key (λ t. t.opt.replicas) (λ v old. from_atoi (atoi v) old)
            replicas_step opts s d h i;
      buildkit_flags =
          (field_lem image unknown_key (λ t. t.opt.buildkit_flags) (λ v old. old)
                buildkit_flags_step opts s d h
              ∙ set_from_self _ s.opt.buildkit_flags)
            i;
      rootless =
          field_lem image rootless_key (λ t. t.opt.rootless) (λ v old. from_bool (parse_bool v) old)
            rootless_step opts s d h i;
      worker = field_lem image worker_key (λ t. t.opt.worker) replace worker_step opts s d h i;
      containerd_namespace =
          field_lem image containerd_namespace_key (λ t. t.opt.containerd_namespace) replace
            containerd_namespace_step opts s d h i;
      containerd_sock_host_path =
          field_lem image containerd_sock_key (λ t. t.opt.containerd_sock_host_path) replace
            containerd_sock_step opts s d h i;
      docker_sock_host_path =
          field_lem image docker_sock_key (λ t. t.opt.docker_sock_host_path) replace
            docker_sock_step opts s d h i;
      container_runtime =
          field_lem image runtime_key (λ t. t.opt.container_runtime) replace runtime_step opts s d h
            i;
      custom_config =
          field_lem image custom_config_key (λ t. t.opt.custom_config) replace custom_config_step
            opts s d h i;
      environments =
          field_lem image env_key (λ t. t.opt.environments) (λ v envs. set_envs (split b';' v) envs)
            environments_step opts s d h i;
    };
    image_override =
        field_lem image image_key (λ t. t.image_override) replace image_override_step opts s d h i;
    namespace =
        field_lem image namespace_key (λ t. t.namespace) replace namespace_step opts s d h i;
    loadbalance =
        field_lem image loadbalance_key (λ t. t.loadbalance) replace loadbalance_step opts s d h i;
    user_specified_runtime =
        field_lem image runtime_key (λ t. t.user_specified_runtime) (λ v old. not (v == "auto"))
          user_specified_runtime_step opts s d h i;
  }
