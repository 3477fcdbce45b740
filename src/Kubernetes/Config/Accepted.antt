-- ===== src/Kubernetes/Config/Accepted.antt =====
-- The driver options that the loop of `initDriverFromConfig` lets pass.
use buildkit_cli_for_kubectl.Prelude.{
  String, ◌≡◌, refl, Bool, true, false, ◌||◌, some, [], ◌∷◌, Result, ok, err, ◌==◌, Map, All, arith,
}
use buildkit_cli_for_kubectl.Prelude.Io.{◌>>=◌}
use buildkit_cli_for_kubectl.Text.Case.{parse_bool}
use buildkit_cli_for_kubectl.Text.Number.{ℤ, atoi}
use buildkit_cli_for_kubectl.Kubernetes.Config.{
  Settings, OptionKey, image_key, namespace_key, replicas_key, rootless_key, loadbalance_key,
  worker_key, containerd_namespace_key, containerd_sock_key, docker_sock_key, runtime_key,
  custom_config_key, env_key, unknown_key, option_key, is_loadbalance, is_worker, set_replicas,
  set_rootless, apply_key, apply_options,
}

-- The values that a key can have
abbrev pub IsAccepted : OptionKey → String → Type 0
IsAccepted replicas_key v = (n : ℤ) × (atoi v ≡ ok n)
IsAccepted rootless_key v = (b : Bool) × (parse_bool v ≡ some b)
IsAccepted loadbalance_key v = is_loadbalance v ≡ true
IsAccepted worker_key v = is_worker v ≡ true
IsAccepted runtime_key v = (v == "auto" || v == "docker" || v == "containerd") ≡ true
IsAccepted unknown_key v = ⊥
IsAccepted _ v = Unit

set_rootless-ok :
    (image : String) (b : Bool) (s : Settings) → (set_rootless image (some b) s).0 ≡ ok tt
unfolding set_rootless
set_rootless-ok image true s = refl
set_rootless-ok image false s = refl

apply_key-ok :
    (image : String) (c : OptionKey) (k v : String) (s : Settings)
    → IsAccepted c v
    → (apply_key image c k v s).0 ≡ ok tt
unfolding apply_key set_replicas
apply_key-ok image replicas_key k v s (n, h) = rw h refl
apply_key-ok image rootless_key k v s (b, h) = rw h (set_rootless-ok image b s)
apply_key-ok image loadbalance_key k v s h = rw h refl
apply_key-ok image worker_key k v s h = rw h refl
apply_key-ok image runtime_key k v s h = ground arith
apply_key-ok image unknown_key k v s h = absurd h
apply_key-ok image image_key k v s h = refl
apply_key-ok image namespace_key k v s h = refl
apply_key-ok image containerd_namespace_key k v s h = refl
apply_key-ok image containerd_sock_key k v s h = refl
apply_key-ok image docker_sock_key k v s h = refl
apply_key-ok image custom_config_key k v s h = refl
apply_key-ok image env_key k v s h = refl

-- The loop ends without an error where the value of every option is accepted.
pub apply_options-ok :
    (image : String) (opts : Map String) (s : Settings)
    → All (λ kv. IsAccepted (option_key kv.0) kv.1) opts
    → (apply_options image opts s).0 ≡ ok tt
unfolding apply_options
apply_options-ok image [] s h = refl
apply_options-ok image ((k, v) ∷ opts) s h =
    go (apply_key image (option_key k) k v s) (apply_key-ok image (option_key k) k v s h.0)
      (λ t. apply_options-ok image opts t h.1)
  where
    go :
        (r : Result (Unit {0}) × Settings)
        → r.0 ≡ ok tt
        → ((t : Settings) → (apply_options image opts t).0 ≡ ok tt)
        → (((λ _. r) >>= λ _. apply_options image opts) s).0 ≡ ok tt
    go (ok u, t) e later = later t
    go (err x, t) e later = absurd (cc)
