-- ===== src/Kubernetes/Waiting.antt =====
-- `wait` and `GetVersion` of pkg/driver/kubernetes/driver.go.
use buildkit_cli_for_kubectl.Prelude.{ℕ, String, List, [], ◌∷◌, Result, ok, err, ◌>>=◌ as and_then}
use buildkit_cli_for_kubectl.Prelude.Io.{Io, ◌>>=◌}
use buildkit_cli_for_kubectl.Text.Case.{trim_space}
use buildkit_cli_for_kubectl.Kubernetes.Pods.{Chosen}
use buildkit_cli_for_kubectl.Kubernetes.Operations.{first_container}
use buildkit_cli_for_kubectl.Kubernetes.Config.{Inputs}
use buildkit_cli_for_kubectl.Kubernetes.Creation.{Found, ConfigMapApi, create_config_map}
use buildkit_cli_for_kubectl.Kubernetes.Builder.{Cluster, Loop}
use buildkit_cli_for_kubectl.Kubernetes.Builder.Passes.{create_builder}

-- The calls for the config map, in the world of the cluster
pub record ConfigMapCalls (W : Type 0) : Type 0 where
  pub get : W → Found × W
  pub create : Io W (Unit {0})
  pub update : Io W (Unit {0})

-- `createConfigMap` looks at the same context as `createBuilder`.
unfoldable pub config_map_api : (api : Cluster) → ConfigMapCalls api.World → ConfigMapApi
config_map_api api calls = record {
  World = api.World;
  is_done = api.is_done;
  get = calls.get;
  create = calls.create;
  update = calls.update;
  pause = api.pause 1000;
}

module _ (api : Cluster) (inputs : Inputs) (calls : ConfigMapCalls api.World) where
  -- The config map, and then the builder
  unfoldable pub wait : ℕ → Io (Loop api inputs) (Unit {0})
  unfolding config_map_api create_config_map create_builder
  wait fuel = do
    u ← λ s. created s (
        create_config_map (config_map_api api calls) fuel s.builder.driver.user_specified_config
          s.world)
    create_builder api inputs fuel
    where
      created :
          Loop api inputs → Result (Unit {0}) × api.World → Result (Unit {0}) × Loop api inputs
      created s (r, w) = (r, record s { world = w })

-- The exec calls of `GetVersion`; `stream` answers with what the command printed.
pub record Executor : Type 1 where
  pub Exec : Type 0
  pub new_executor : String → String → List String → Result Exec
  pub stream : Exec → Result String

module _ (x : Executor) where
  open x use {Exec, new_executor, stream}

  -- A failed stream returns the error of before, which is nil.
  printed : Result String → Result String
  printed (ok text) = ok (trim_space text)
  printed (err serr) = ok ""

  unfoldable pub get_version : Result (Unit {0}) → Result Chosen → Result String
  unfolding printed first_container
  get_version client_config choose_pod = and_then client_config (λ u. and_then choose_pod (λ chosen.
      and_then (first_container chosen.pod chosen.pod.containers) (λ c.
        and_then (new_executor chosen.pod.name c ("buildkitd" ∷ "--version" ∷ []))
          (λ e. printed (stream e)))))
