-- ===== src/Kubernetes/Config/Options.antt =====
-- The loop over the driver options reads a map: what it leaves depends on the value under each key,
-- and not on the order in which the map is visited.
pub mod Spec
use buildkit_cli_for_kubectl.Prelude.{
  String, ◌≡◌, ◌⊎◌, refl, sym, ap, subst, ◌∙◌, Bool, true, false, not, ◌||◌, Option, none, some,
  List, [], ◌∷◌, Result, ok, err, ◌==◌, Map, lookup, keys, is_in, Distinct, lookup-is_in, arith,
  eq_iff, Bool-cases, inl, inr, text_ne, eq_of_text, if◌then◌else◌,
}
use buildkit_cli_for_kubectl.Prelude.Io.{Io, ◌>>=◌}
use buildkit_cli_for_kubectl.Text.Split.{split}
use buildkit_cli_for_kubectl.Text.Case.{parse_bool}
use buildkit_cli_for_kubectl.Text.Number.{ℤ, atoi}
use buildkit_cli_for_kubectl.Kubernetes.Manifest.{DeploymentOpt}
use buildkit_cli_for_kubectl.Kubernetes.Config.{
  Settings, OptionKey, image_key, namespace_key, replicas_key, rootless_key, loadbalance_key,
  worker_key, containerd_namespace_key, containerd_sock_key, docker_sock_key, runtime_key,
  custom_config_key, env_key, unknown_key, option_key, set_replicas, set_rootless, set_envs,
  apply_key, apply_options,
}

-- The text of a key.
abbrev pub key_name : OptionKey → String
key_name image_key = "image"
key_name namespace_key = "namespace"
key_name replicas_key = "replicas"
key_name rootless_key = "rootless"
key_name loadbalance_key = "loadbalance"
key_name worker_key = "worker"
key_name containerd_namespace_key = "containerd-namespace"
key_name containerd_sock_key = "containerd-sock"
key_name docker_sock_key = "docker-sock"
key_name runtime_key = "runtime"
key_name custom_config_key = "custom-config"
key_name env_key = "env"
key_name unknown_key = ""

abbrev pub same_key : OptionKey → OptionKey → Bool
same_key a b = key_name a == key_name b

option_key-key_name : (c : OptionKey) → option_key (key_name c) ≡ c
unfolding option_key
option_key-key_name image_key = refl
option_key-key_name _ = refl

-- A known key has its text.
key_name-option_key : (k : String) → (option_key k ≡ unknown_key) ⊎ (k ≡ key_name (option_key k))
unfolding option_key
key_name-option_key k = ground (
  arith,
  eq_iff k "image",
  eq_iff k "namespace",
  eq_iff k "replicas",
  eq_iff k "rootless",
  eq_iff k "loadbalance",
  eq_iff k "worker",
  eq_iff k "containerd-namespace",
  eq_iff k "containerd-sock",
  eq_iff k "docker-sock",
  eq_iff k "runtime",
  eq_iff k "custom-config",
  eq_iff k "env",
)

pub unknown_fails :
    (image k v : String) (s : Settings) (c : OptionKey)
    → c ≡ unknown_key
    → ¬ ((apply_key image c k v s).0 ≡ ok tt)
unfolding apply_key
unknown_fails image k v s c e h = cc (subst (λ d. (apply_key image d k v s).0 ≡ ok tt) e h)

abbrev pub set_from {ℓ} : {A : Type ℓ} → (String → A → A) → Option String → A → A
set_from from none a = a
set_from from (some v) a = from v a

-- One field that the loop sets from the value of one key, by `from`.
module _ {ℓ} {A : Type ℓ} (image : String) (c : OptionKey) (get : Settings → A)
    (from : String → A → A)
    (step : (d : OptionKey) (k v : String) (s : Settings)
      → (apply_key image d k v s).0 ≡ ok tt
      → get (apply_key image d k v s).1 ≡ (if same_key d c then from v (get s) else get s)) where
  field_cons :
      (k v : String) (opts : Map String) (s s1 : Settings)
      → k ≡ key_name (option_key k)
      → is_in k (keys opts) ≡ false
      → get s1 ≡ (if same_key (option_key k) c then from v (get s) else get s)
      → set_from from (lookup (key_name c) opts) (get s1)
        ≡ set_from from (lookup (key_name c) ((k, v) ∷ opts)) (get s)
  unfolding lookup
  field_cons k v opts s s1 e fresh h = elim (Bool-cases (same_key (option_key k) c)) [
    | inl same ↦
        let is_c : k ≡ key_name c = e ∙ eq_of_text _ _ same in
        let found : (k == key_name c) ≡ true = (eq_iff k (key_name c)).1 is_c in
        let gone : lookup (key_name c) opts ≡ none = rw (← is_c) (lookup-is_in k opts fresh) in
        rw (found, gone, h, same) refl
    | inr other ↦
        let not_c : (k == key_name c) ≡ false = ap (λ t. t == key_name c) e ∙ other in
        rw (not_c, h, other) refl
  ]

  pub field_lem :
      (opts : Map String) (s : Settings)
      → Distinct (keys opts)
      → (apply_options image opts s).0 ≡ ok tt
      → get (apply_options image opts s).1 ≡ set_from from (lookup (key_name c) opts) (get s)
  unfolding apply_options lookup
  field_lem [] s d h = refl
  field_lem ((k, v) ∷ opts) s d h =
      stepped (apply_key image (option_key k) k v s) refl (λ t g. field_lem opts t d.1 g) h
    where
      stepped :
          (r : Result (Unit {0}) × Settings)
          → apply_key image (option_key k) k v s ≡ r
          → ((t : Settings)
              → (apply_options image opts t).0 ≡ ok tt
              → get (apply_options image opts t).1
                ≡ set_from from (lookup (key_name c) opts) (get t))
          → (((λ _. r) >>= λ _. apply_options image opts) s).0 ≡ ok tt
          → get (((λ _. r) >>= λ _. apply_options image opts) s).1
            ≡ set_from from (lookup (key_name c) ((k, v) ∷ opts)) (get s)
      stepped (err e, t) p later g = absurd (cc)
      stepped (ok u, t) p later g = later t g ∙ elim (key_name-option_key k) [
        | inl unknown ↦ absurd (unknown_fails image k v s (option_key k) unknown (ap (λ r. r.0) p))
        | inr named ↦
            field_cons k v opts s t named d.0
              (ap (λ r. get r.1) (sym p) ∙ step (option_key k) k v s (ap (λ r. r.0) p))
      ]
