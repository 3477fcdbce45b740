-- ===== src/Kubernetes/Config/Chosen.antt =====
-- The runtime that a driver has when its options name one.
use buildkit_cli_for_kubectl.Prelude.{
  String, ◌≡◌, refl, subst, ap, ◌∙◌, Bool, true, false, ◌&&◌, ◌||◌, some, [], ◌∷◌, Result, ok, err,
  ◌==◌, Map, lookup, insert, keys, is_in, Distinct, arith, eq_iff, Bool-cases, inl, inr, Ensures,
  Ensures-ok, Ensures-bind, eq_of_text,
}
use buildkit_cli_for_kubectl.Kubernetes.Manifest.{DeploymentOpt}
use buildkit_cli_for_kubectl.Kubernetes.Config.{
  Inputs, InitConfig, Settings, Driver, apply_options, initial_settings, resolve_runtime,
  resolve_worker, check_rootless, override_image, finish_opt, make_from, make_driver, continue_init,
  config_contents, init_driver_from_config,
}
use buildkit_cli_for_kubectl.Kubernetes.Config.Options.Spec.{settings_of, apply_options-settings_of}

is_in-insert {ℓ} :
    {V : Type ℓ} (k j : String) (v : V) (m : Map V)
    → is_in k (keys (insert j v m)) ≡ (j == k || is_in k (keys m))
unfolding insert is_in
is_in-insert k j v [] = refl
is_in-insert k j v ((i, w) ∷ m) =
    ground (arith, is_in-insert k j v m, eq_iff i j, eq_iff i k, eq_iff j k)

-- Setting a key keeps the keys distinct.
pub insert-Distinct {ℓ} :
    {V : Type ℓ} (j : String) (v : V) (m : Map V)
    → Distinct (keys m)
    → Distinct (keys (insert j v m))
unfolding insert is_in
insert-Distinct j v [] h = (refl, tt)
insert-Distinct j v ((i, w) ∷ m) h = elim (Bool-cases (i == j)) [
  | inl same ↦ rw same (subst (λ x. is_in x (keys m) ≡ false) (eq_of_text i j same) h.0, h.1)
  | inr other ↦ rw other (
    is_in-insert i j v m ∙ ground (arith, eq_iff i j, eq_iff j i, h.0),
    insert-Distinct j v m h.1,
  )
]

SameRuntime : DeploymentOpt → DeploymentOpt → Type 0
SameRuntime a b = b.container_runtime ≡ a.container_runtime

resolve_worker-SameRuntime : (opt : DeploymentOpt) → SameRuntime opt (resolve_worker opt)
unfolding SameRuntime resolve_worker
resolve_worker-SameRuntime opt = ground arith

check_rootless-SameRuntime : (opt : DeploymentOpt) → Ensures (SameRuntime opt) (check_rootless opt)
unfolding SameRuntime check_rootless
check_rootless-SameRuntime opt = elim (Bool-cases (opt.rootless && opt.worker == "containerd")) [
  | inl e ↦ rw e tt
  | inr e ↦ rw e refl
]

override_image-SameRuntime :
    (image : String) (opt : DeploymentOpt) → SameRuntime opt (override_image image opt)
unfolding SameRuntime override_image
override_image-SameRuntime image opt = ground arith

finish_opt-SameRuntime :
    (s : Settings) → Ensures (SameRuntime (resolve_runtime s.opt)) (finish_opt s)
unfolding finish_opt SameRuntime
finish_opt-SameRuntime s =
    let start = resolve_worker (resolve_runtime s.opt) in
    Ensures-bind (SameRuntime start) (SameRuntime (resolve_runtime s.opt)) (check_rootless start)
      (λ opt. ok (override_image s.image_override opt)) (check_rootless-SameRuntime start)
      (λ opt h.
        override_image-SameRuntime s.image_override opt
        ∙ h
        ∙ resolve_worker-SameRuntime (resolve_runtime s.opt))

-- The runtime of a driver, and the mark of the user's choice, are those that the loop leaves.
Follows : Settings → Driver → Type 0
Follows s d =
    (d.settings.user_specified_runtime ≡ s.user_specified_runtime)
    × SameRuntime (resolve_runtime s.opt) d.settings.opt

make_from-Follows :
    (inputs : Inputs) (cfg : InitConfig) (s : Settings) (opt : DeploymentOpt) (r : Result String)
    → SameRuntime (resolve_runtime s.opt) opt
    → Ensures (Follows s) (make_from inputs cfg s opt r)
unfolding make_from Follows
make_from-Follows inputs cfg s opt (ok text) h = (refl, h)
make_from-Follows inputs cfg s opt (err e) h = tt

continue_init-Follows :
    (inputs : Inputs) (cfg : InitConfig) (m : Result (Unit {0}) × Settings)
    → Ensures (Follows m.1) (continue_init inputs cfg m)
unfolding continue_init make_driver
continue_init-Follows inputs cfg (err e, s) = tt
continue_init-Follows inputs cfg (ok u, s) =
    Ensures-bind (SameRuntime (resolve_runtime s.opt)) (Follows s) (finish_opt s)
      (make_driver inputs cfg s) (finish_opt-SameRuntime s)
      (λ opt h. make_from-Follows inputs cfg s opt (config_contents inputs cfg opt) h)

continue_init-ok :
    (inputs : Inputs) (cfg : InitConfig) (m : Result (Unit {0}) × Settings) (d : Driver)
    → continue_init inputs cfg m ≡ ok d
    → m.0 ≡ ok tt
unfolding continue_init
continue_init-ok inputs cfg (err e, s) d h = absurd (cc)
continue_init-ok inputs cfg (ok u, s) d h = refl

chosen_settings :
    (image : String) (opts : Map String) (s : Settings)
    → lookup "runtime" opts ≡ some "containerd"
    → ((settings_of image opts s).user_specified_runtime ≡ true)
      × ((resolve_runtime (settings_of image opts s).opt).container_runtime ≡ "containerd")
unfolding settings_of resolve_runtime
chosen_settings image opts s h = (rw h refl, rw h refl)

-- Where the keys of the options are distinct and `runtime` is "containerd", a driver that is set up without
-- an error has this runtime, and it counts as the user's choice.
pub init_driver_from_config-chosen :
    (inputs : Inputs) (cfg : InitConfig) (namespace loadbalance : String) (specified : Bool)
    (d : Driver)
    → Distinct (keys cfg.driver_opts)
    → lookup "runtime" cfg.driver_opts ≡ some "containerd"
    → init_driver_from_config inputs cfg namespace loadbalance specified ≡ ok d
    → (d.settings.user_specified_runtime ≡ true) × (d.settings.opt.container_runtime ≡ "containerd")
unfolding init_driver_from_config Follows SameRuntime
init_driver_from_config-chosen inputs cfg namespace loadbalance specified d distinct found h =
    let start = initial_settings inputs cfg namespace loadbalance specified in
    let image = inputs.default_rootless_image in
    let m = apply_options image cfg.driver_opts start in
    let done =
      apply_options-settings_of image cfg.driver_opts start distinct
        (continue_init-ok inputs cfg m d h) in
    let (user, runtime) =
      Ensures-ok (Follows m.1) (continue_init inputs cfg m) (continue_init-Follows inputs cfg m)
        h in
    let (chosen, containerd) = chosen_settings image cfg.driver_opts start found in
    (
      user ∙ ap Settings.user_specified_runtime done ∙ chosen,
      runtime ∙ ap (λ s. (resolve_runtime s.opt).container_runtime) done ∙ containerd,
    )
