-- ===== src/Kubernetes/Builder/Flips.antt =====
-- What the loop of `createBuilder` leaves of the driver.
use buildkit_cli_for_kubectl.Prelude.{
  ℕ, String, ◌≡◌, ◌⊎◌, refl, sym, ap, ◌∙◌, true, false, some, Map, lookup, keys, Distinct, insert,
  lookup-insert, Result, ok, err, inl, inr,
}
use buildkit_cli_for_kubectl.Kubernetes.Config.{
  Inputs, InitConfig, Settings, Driver, init_driver_from_config, initial_settings, apply_options,
  remade, settled_opt,
}
use buildkit_cli_for_kubectl.Kubernetes.Config.Chosen.{
  insert-Distinct, init_driver_from_config-chosen,
}
use buildkit_cli_for_kubectl.Kubernetes.Manifest.{Deployment}
use buildkit_cli_for_kubectl.Kubernetes.Builder.{
  Cluster, Loop, Configured, set_version, flip, flipped_opts, after_init,
}
use buildkit_cli_for_kubectl.Kubernetes.Builder.Passes.{create_builder}
use buildkit_cli_for_kubectl.Kubernetes.Builder.Passes.Keeps.{create_builder-Keeps}

-- The deployment without its resource version, which follows the cluster's
abbrev pub unversioned : Deployment → Deployment
unversioned d = record d { resource_version = "" }

-- The same configuration and, but for the resource version, the same driver
pub record Same (a b : Configured) : Type 0 where
  pub config : a.config ≡ b.config
  pub settings : a.driver.settings ≡ b.driver.settings
  pub min_replicas : a.driver.min_replicas ≡ b.driver.min_replicas
  pub deployment : unversioned a.driver.deployment ≡ unversioned b.driver.deployment
  pub config_map : a.driver.config_map ≡ b.driver.config_map
  pub user_specified_config : a.driver.user_specified_config ≡ b.driver.user_specified_config

Same-refl : {a b : Configured} → a ≡ b → Same a b
Same-refl e = record {
  config = ap (λ c. c.config) e;
  settings = ap (λ c. c.driver.settings) e;
  min_replicas = ap (λ c. c.driver.min_replicas) e;
  deployment = ap (λ c. unversioned c.driver.deployment) e;
  config_map = ap (λ c. c.driver.config_map) e;
  user_specified_config = ap (λ c. c.driver.user_specified_config) e;
}

Same-set_version : (a b : Configured) (v : String) → Same a b → Same a (set_version v b)
unfolding set_version
Same-set_version a b v s = record {
  config = s.config;
  settings = s.settings;
  min_replicas = s.min_replicas;
  deployment = s.deployment;
  config_map = s.config_map;
  user_specified_config = s.user_specified_config;
}

flipped_opts-runtime :
    (opts : Map String) → lookup "runtime" (flipped_opts "containerd" opts) ≡ some "containerd"
unfolding flipped_opts
flipped_opts-runtime opts =
    rw (lookup-insert "worker" "runtime" "auto" (insert "runtime" "containerd" opts))
      (rw (lookup-insert "runtime" "runtime" "containerd" opts) refl)

flipped_opts-Distinct :
    (runtime : String) (opts : Map String)
    → Distinct (keys opts)
    → Distinct (keys (flipped_opts runtime opts))
unfolding flipped_opts
flipped_opts-Distinct runtime opts h =
    insert-Distinct "worker" "auto" _ (insert-Distinct "runtime" runtime opts h)

true_ne_false : ¬ (true ≡ false)
true_ne_false h = cc h

-- Without an error the driver is the new one, whatever it was.
after_init-ok :
    (config : InitConfig) (old : Driver) (set : Settings) (r : Result Driver)
    → (after_init config old set r).0 ≡ ok tt
    → (d : Driver) × (r ≡ ok d)
      × ((after_init config old set r).1 ≡ record { config = config; driver = d })
unfolding after_init
after_init-ok config old set (ok d) h = (d, refl, refl)
after_init-ok config old set (err e) h = absurd (cc)

after_init-old :
    (config : InitConfig) (old other : Driver) (set : Settings) (r : Result Driver)
    → (after_init config old set r).0 ≡ ok tt
    → after_init config old set r ≡ after_init config other set r
unfolding after_init
after_init-old config old other set (ok d) h = refl
after_init-old config old other set (err e) h = absurd (cc)

module _ (inputs : Inputs) where
  abbrev flipped_config : InitConfig → InitConfig
  flipped_config config = record config {
    driver_opts = flipped_opts "containerd" config.driver_opts;
  }

  -- What the loop over the options leaves, and the new driver
  loop_settings : InitConfig → Settings → Settings
  loop_settings config s =
      (apply_options inputs.default_rootless_image (flipped_config config).driver_opts (
        initial_settings inputs (flipped_config config) s.namespace s.loadbalance
          s.user_specified_runtime)).1

  abbrev new_driver : InitConfig → Settings → Result Driver
  new_driver config s =
      init_driver_from_config inputs (flipped_config config) s.namespace s.loadbalance
        s.user_specified_runtime

  -- `flip`, from its configuration, its settings and the driver from before
  remains : InitConfig → Settings → Driver → Driver
  remains config s old = remade inputs old (
      settled_opt (
        apply_options inputs.default_rootless_image (flipped_config config).driver_opts (
          initial_settings inputs (flipped_config config) s.namespace s.loadbalance
            s.user_specified_runtime)))

  flip_of : InitConfig → Settings → Driver → Result (Unit {0}) × Configured
  unfolding loop_settings remains
  flip_of config s old =
      after_init (flipped_config config) (remains config s old) (loop_settings config s)
        (new_driver config s)

  flip-Same :
      (a b : Configured)
      → Same a b
      → (flip inputs "containerd" a).0 ≡ ok tt
      → flip inputs "containerd" a ≡ flip inputs "containerd" b
  unfolding flip flip_of loop_settings remains
  flip-Same a b s h =
      after_init-old (flipped_config a.config) (remains a.config a.driver.settings a.driver)
        (remains a.config a.driver.settings b.driver) (loop_settings a.config a.driver.settings)
        (new_driver a.config a.driver.settings) h
      ∙ λ i. flip_of (s.config i) (s.settings i) b.driver

  flip-Chosen :
      (b : Configured)
      → Distinct (keys b.config.driver_opts)
      → (flip inputs "containerd" b).0 ≡ ok tt
      → ((flip inputs "containerd" b).1.driver.settings.user_specified_runtime ≡ true)
        × ((flip inputs "containerd" b).1.driver.settings.opt.container_runtime ≡ "containerd")
  unfolding flip loop_settings remains
  flip-Chosen b distinct h =
      let (d, made, same) =
        after_init-ok (flipped_config b.config) (remains b.config b.driver.settings b.driver)
          (loop_settings b.config b.driver.settings) (new_driver b.config b.driver.settings) h in
      let (chosen, runtime) =
        init_driver_from_config-chosen inputs _ _ _ _ d
          (flipped_opts-Distinct "containerd" b.config.driver_opts distinct)
          (flipped_opts-runtime b.config.driver_opts) made in
      (
        ap (λ c. c.driver.settings.user_specified_runtime) same ∙ chosen,
        ap (λ c. c.driver.settings.opt.container_runtime) same ∙ runtime,
      )

  -- The driver as it was, or flipped, which it was free for.
  pub IsKeptOrFlipped : Configured → Configured → Type 0
  IsKeptOrFlipped start b =
      Same start b
      ⊎ ((start.driver.settings.user_specified_runtime ≡ false)
          × Same (flip inputs "containerd" start).1 b
          × (b.driver.settings.opt.container_runtime ≡ "containerd"))

  set_version-IsKeptOrFlipped :
      (start : Configured) (v : String) (b : Configured)
      → IsKeptOrFlipped start b
      → IsKeptOrFlipped start (set_version v b)
  unfolding IsKeptOrFlipped
  set_version-IsKeptOrFlipped start v b (inl same) = inl (Same-set_version start b v same)
  set_version-IsKeptOrFlipped start v b (inr (free, same, runtime)) =
      inr (free, Same-set_version _ b v same, unfold set_version in runtime)

  flip-IsKeptOrFlipped :
      (start b : Configured)
      → Distinct (keys start.config.driver_opts)
      → (flip inputs "containerd" start).0 ≡ ok tt
      → IsKeptOrFlipped start b
      → b.driver.settings.user_specified_runtime ≡ false
      → IsKeptOrFlipped start (flip inputs "containerd" b).1
  unfolding IsKeptOrFlipped
  flip-IsKeptOrFlipped start b distinct done (inl same) free =
      let moved = ap (λ m. m.1) (flip-Same start b same done) in
      let (chosen, runtime) = flip-Chosen start distinct done in
      inr (
        ap (λ s. s.user_specified_runtime) same.settings ∙ free,
        Same-refl moved,
        ap (λ c. c.driver.settings.opt.container_runtime) (sym moved) ∙ runtime,
      )
  flip-IsKeptOrFlipped start b distinct done (inr (was, same, runtime)) free =
      let (chosen, _) = flip-Chosen start distinct done in
      absurd (true_ne_false (sym chosen ∙ ap (λ s. s.user_specified_runtime) same.settings ∙ free))

  module _ (api : Cluster) where
    -- Where the keys of the driver options are distinct and the driver can be set up for containerd, the
    -- configuration and the driver after the loop are those from before, or those of one flip to containerd, but
    -- for the resource version; the latter only where the user had not chosen the runtime.
    pub create_builder-IsKeptOrFlipped :
        (fuel : ℕ) (s : Loop api inputs)
        → Distinct (keys s.builder.config.driver_opts)
        → (flip inputs "containerd" s.builder).0 ≡ ok tt
        → IsKeptOrFlipped s.builder (create_builder api inputs fuel s).1.builder
    unfolding IsKeptOrFlipped
    create_builder-IsKeptOrFlipped fuel s distinct done =
        create_builder-Keeps api inputs (IsKeptOrFlipped s.builder)
          (set_version-IsKeptOrFlipped s.builder)
          (λ b h free. flip-IsKeptOrFlipped s.builder b distinct done h free) fuel s
          (inl (Same-refl refl))
