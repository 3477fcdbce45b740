-- ===== src/Kubernetes/Config/Valid.antt =====
-- What holds of every driver that `initDriverFromConfig` sets up.
use buildkit_cli_for_kubectl.Prelude.{◌≡◌, true, false, ◌&&◌, ◌||◌, ◌==◌}
use buildkit_cli_for_kubectl.Kubernetes.Manifest.{DeploymentOpt, new_deployment}
use buildkit_cli_for_kubectl.Kubernetes.Config.{Inputs, Settings, is_loadbalance, is_worker, Driver}

-- What the loop keeps: the three choices are words that the checks let pass.
record IsChecked (s : Settings) : Type 0 where
  runtime :
      (s.opt.container_runtime == "docker"
        || s.opt.container_runtime == "containerd"
        || s.opt.container_runtime == "auto")
      ≡ true
  worker : (s.opt.worker == "" || is_worker s.opt.worker) ≡ true
  loadbalance : is_loadbalance s.loadbalance ≡ true

-- The runtime is one that the cluster can have, the worker is settled, and a rootless builder does not
-- use the node's containerd.
pub record IsReady (opt : DeploymentOpt) : Type 0 where
  pub runtime : (opt.container_runtime == "docker" || opt.container_runtime == "containerd") ≡ true
  pub worker : (opt.worker == "" || opt.worker == "containerd" || opt.worker == "runc") ≡ true
  pub compatible : (opt.rootless && opt.worker == "containerd") ≡ false

-- The driver is made from ready options, and the deployment and the replicas it waits for are those
-- that the options name.
pub record IsDriver (inputs : Inputs) (d : Driver) : Type 0 where
  pub ready : IsReady d.settings.opt
  pub balanced : is_loadbalance d.settings.loadbalance ≡ true
  pub waits : d.min_replicas ≡ d.settings.opt.replicas
  pub deploys : d.deployment ≡ new_deployment inputs.version d.settings.opt
