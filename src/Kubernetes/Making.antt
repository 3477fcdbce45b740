-- ===== src/Kubernetes/Making.antt =====
-- `New` of pkg/driver/kubernetes/factory.go: a driver with its clients and its pod chooser. What client-go
-- answers is a parameter.
use buildkit_cli_for_kubectl.Prelude.{
  String, ◌≡◌, false, Option, none, some, [], ◌∷◌, Result, ok, err, errorf, wrapf, ◌>>=◌,
  if◌then◌else◌, ◌==◌,
}
use buildkit_cli_for_kubectl.Kubernetes.Manifest.{Deployment}
use buildkit_cli_for_kubectl.Kubernetes.Config.{Inputs, InitConfig, Driver, init_driver_from_config}
use buildkit_cli_for_kubectl.Kubernetes.Config.Valid.{IsDriver}

-- `StickyPodChooser` with its key and deployment, and `RandomPodChooser`
pub data Chooser : Type 0 where
  sticky_chooser : String → Deployment → Chooser
  random_chooser : Deployment → Chooser

-- The driver, the namespace that all its clients work in, and its chooser, which is nil at first
pub record Made : Type 0 where
  pub driver : Driver
  pub client_namespace : String
  pub chooser : Option Chooser

-- `KubeClientConfig`, and what comes of it
pub record ClientConfig : Type 0 where
  pub namespace : Result String
  pub client_config : Result (Unit {0})
  pub clientset : Result (Unit {0})

abbrev sticky : String
sticky = "sticky"

abbrev random : String
random = "random"

-- `switch d.loadbalance`
unfoldable pub chooser_of : String → String → Deployment → Option Chooser
chooser_of key loadbalance depl =
    if loadbalance == sticky
    then some (sticky_chooser key depl)
    else if loadbalance == random
    then some (random_chooser depl)
    else none

with_chooser : String → Driver → Made
unfolding chooser_of
with_chooser key d = record {
  driver = d;
  client_namespace = d.settings.namespace;
  chooser = chooser_of key d.settings.loadbalance d.deployment;
}

wrap_namespace : Result String → Result String
wrap_namespace (ok ns) = ok ns
wrap_namespace (err e) = err (wrapf e "cannot determine Kubernetes namespace, specify manually" [])

-- `New`; `key` is `ContextPathHash`.
unfoldable pub new : Inputs → InitConfig → String → Option ClientConfig → Result Made
unfolding with_chooser wrap_namespace
new inputs cfg key none =
    err (errorf "%s driver requires kubernetes API access" ("kubernetes" ∷ []))
new inputs cfg key (some c) = do
  ns ← wrap_namespace c.namespace
  _ ← c.client_config
  _ ← c.clientset
  d ← init_driver_from_config inputs cfg ns sticky false
  ok (with_chooser key d)

-- The chooser works on the pods of the deployment, and by the balancing that the driver has.
pub data Chooses (key : String) (d : Driver) (c : Option Chooser) : Type 0 where
  by_key :
      d.settings.loadbalance ≡ sticky → c ≡ some (sticky_chooser key d.deployment) → Chooses key d c
  by_chance :
      d.settings.loadbalance ≡ random → c ≡ some (random_chooser d.deployment) → Chooses key d c

pub record IsMade (inputs : Inputs) (key : String) (m : Made) : Type 0 where
  pub driver : IsDriver inputs m.driver
  pub chooses : Chooses key m.driver m.chooser
  pub same_namespace : m.client_namespace ≡ m.driver.settings.namespace
