-- ===== src/Kubernetes/Manifest.antt =====
-- pkg/driver/kubernetes/manifest/manifest.go. The records hold the fields of the Kubernetes objects
-- that the code sets. `version` is the text that is filled in at linking time.
pub mod Wellformed
use buildkit_cli_for_kubectl.Prelude.{
  String, ◌<>◌, Bool, true, false, not, ◌&&◌, Option, none, some, List, [], ◌∷◌, ◌++◌, map,
  if◌then◌else◌, ◌==◌, Map, insert, lookup_or,
}
use buildkit_cli_for_kubectl.Text.Number.{ℤ, to_int32}

pub record DeploymentOpt : Type 0 where
  pub namespace : String
  pub name : String
  pub image : String
  pub replicas : ℤ
  pub buildkit_flags : List String
  pub rootless : Bool
  pub worker : String
  pub containerd_namespace : String
  pub containerd_sock_host_path : String
  pub docker_sock_host_path : String
  pub container_runtime : String
  pub custom_config : String
  pub environments : Map String

pub record EnvVar : Type 0 where
  pub name : String
  pub value : String

pub data MountPropagation : Type 0 where
  bidirectional : MountPropagation

pub record VolumeMount : Type 0 where
  pub name : String
  pub mount_path : String
  pub mount_propagation : Option MountPropagation

pub data HostPathType : Type 0 where
  socket directory directory_or_create : HostPathType

pub data VolumeSource : Type 0 where
  config_map : String → VolumeSource
  host_path : String → HostPathType → VolumeSource

pub record Volume : Type 0 where
  pub name : String
  pub source : VolumeSource

pub record Container : Type 0 where
  pub name : String
  pub image : String
  pub args : List String
  -- `Privileged` of the security context, where there is one
  pub security_context : Option Bool
  pub readiness_command : List String
  pub volume_mounts : List VolumeMount
  pub env : List EnvVar

pub record AntiAffinity : Type 0 where
  pub match_labels : Map String
  pub topology_key : String

-- The pod template has this one container.
pub record PodTemplate : Type 0 where
  pub labels : Map String
  pub annotations : Map String
  pub container : Container
  pub volumes : List Volume
  pub affinity : Option AntiAffinity

pub record Deployment : Type 0 where
  pub api_version : String
  pub kind : String
  pub namespace : String
  pub name : String
  pub labels : Map String
  pub annotations : Map String
  pub resource_version : String
  pub replicas : ℤ
  pub selector : Map String
  pub template : PodTemplate

-- `appsv1.SchemeGroupVersion.String()`
abbrev pub scheme_group_version : String
scheme_group_version = "apps/v1"

abbrev pub container_name : String
container_name = "buildkitd"

abbrev pub annotation_key : String
annotation_key = "buildkit.mobyproject.org/builder"

-- `fmt.Sprintf("%v", b)`
abbrev pub bool_text : Bool → String
bool_text true = "true"
bool_text false = "false"

unfoldable pub labels : DeploymentOpt → Map String
labels opt =
    ("app", opt.name)
    ∷ ("runtime", opt.container_runtime)
    ∷ ("worker", opt.worker)
    ∷ ("rootless", bool_text opt.rootless)
    ∷ []

unfoldable pub annotations : String → Map String
annotations version = (annotation_key, version) ∷ []

env_var : String × String → EnvVar
env_var (name, value) = record { name = name; value = value }

unfoldable pub environments : DeploymentOpt → List EnvVar
unfolding env_var
environments opt = map env_var opt.environments

-- The deployment before the options that change it.
base_deployment : String → DeploymentOpt → Deployment
unfolding labels annotations environments
base_deployment version opt = record {
  api_version = scheme_group_version;
  kind = "Deployment";
  namespace = opt.namespace;
  name = opt.name;
  labels = labels opt;
  annotations = annotations version;
  resource_version = "";
  replicas = to_int32 opt.replicas;
  selector = ("app", lookup_or "" "app" (labels opt)) ∷ [];
  template = record {
    labels = labels opt;
    annotations = [];
    container = record {
      name = container_name;
      image = opt.image;
      args = opt.buildkit_flags;
      security_context = some true;
      readiness_command = "buildctl" ∷ "debug" ∷ "workers" ∷ [];
      volume_mounts =
          record {
            name = "buildkitd-config";
            mount_path = "/etc/buildkit/";
            mount_propagation = none;
          }
          ∷ [];
      env = environments opt;
    };
    volumes = record { name = "buildkitd-config"; source = config_map opt.name } ∷ [];
    affinity = none;
  };
}

to_rootless : Deployment → Deployment
to_rootless d = record d {
  template = record d.template {
    container = record d.template.container {
      args = d.template.container.args ++ "--oci-worker-no-process-sandbox" ∷ [];
      security_context = none;
    };
    annotations =
        insert ("container.seccomp.security.alpha.kubernetes.io/" <> container_name) "unconfined" (
          insert ("container.apparmor.security.beta.kubernetes.io/" <> container_name) "unconfined"
            d.template.annotations);
  };
}

-- A change of the pod template that adds arguments, mounts and volumes.
abbrev add_mounts : List String → List VolumeMount → List Volume → PodTemplate → PodTemplate
add_mounts args mounts volumes t = record t {
  container = record t.container {
    args = t.container.args ++ args;
    volume_mounts = t.container.volume_mounts ++ mounts;
  };
  volumes = t.volumes ++ volumes;
}

abbrev plain_mount : String → String → VolumeMount
plain_mount name path = record { name = name; mount_path = path; mount_propagation = none }

abbrev shared_mount : String → String → VolumeMount
shared_mount name path = record {
  name = name;
  mount_path = path;
  mount_propagation = some bidirectional;
}

abbrev host_volume : String → String → HostPathType → Volume
host_volume name path type = record { name = name; source = host_path path type }

spread : DeploymentOpt → Option AntiAffinity
unfolding labels
spread opt = some (record { match_labels = labels opt; topology_key = "kubernetes.io/hostname" })

buildkit_root : DeploymentOpt → String
buildkit_root opt = "/var/lib/buildkit/" <> opt.name

to_containerd_worker : DeploymentOpt → Deployment → Deployment
unfolding spread buildkit_root
to_containerd_worker opt d = record d {
  template =
      record (add_mounts
        ("--oci-worker=false" ∷ "--containerd-worker=true" ∷ "--root" ∷ buildkit_root opt ∷ [])
        (plain_mount "containerd-sock" "/run/containerd/containerd.sock"
          ∷ shared_mount "var-lib-buildkit" (buildkit_root opt)
          ∷ shared_mount "var-lib-containerd" "/var/lib/containerd"
          ∷ shared_mount "run-containerd" "/run/containerd"
          ∷ shared_mount "var-log" "/var/log"
          ∷ shared_mount "tmp" "/tmp"
          ∷ [])
        (host_volume "containerd-sock" opt.containerd_sock_host_path socket
          ∷ host_volume "var-lib-buildkit" (buildkit_root opt) directory_or_create
          ∷ host_volume "var-lib-containerd" "/var/lib/containerd" directory
          ∷ host_volume "run-containerd" "/run/containerd" directory
          ∷ host_volume "var-log" "/var/log" directory
          ∷ host_volume "tmp" "/tmp" directory
          ∷ [])
        d.template) { affinity = spread opt };
}

add_docker_sock_mount : DeploymentOpt → Deployment → Deployment
unfolding spread
add_docker_sock_mount opt d = record d {
  template =
      record (add_mounts [] (plain_mount "docker-sock" "/run/docker.sock" ∷ [])
        (host_volume "docker-sock" opt.docker_sock_host_path socket ∷ []) d.template) {
          affinity = spread opt;
        };
}

add_custom_config_mount : DeploymentOpt → Deployment → Deployment
add_custom_config_mount opt d = record d {
  template =
      add_mounts [] (plain_mount "custom-config" "/etc/config/" ∷ [])
        (record { name = "custom-config"; source = config_map opt.custom_config } ∷ []) d.template;
}

-- `if test { d = change(d) }`
abbrev pub apply_if : Bool → (Deployment → Deployment) → Deployment → Deployment
apply_if test change d = if test then change d else d

-- `NewDeployment`, whose helpers never fail.
unfoldable pub new_deployment : String → DeploymentOpt → Deployment
unfolding base_deployment to_rootless to_containerd_worker add_docker_sock_mount
    add_custom_config_mount
new_deployment version opt =
    apply_if (not (opt.custom_config == "")) (add_custom_config_mount opt) (
      apply_if (opt.container_runtime == "docker" && not opt.rootless) (add_docker_sock_mount opt) (
        apply_if (opt.worker == "containerd") (to_containerd_worker opt)
          (apply_if opt.rootless to_rootless (base_deployment version opt))))

pub record ConfigMap : Type 0 where
  pub api_version : String
  pub kind : String
  pub namespace : String
  pub name : String
  pub labels : Map String
  pub annotations : Map String
  pub binary_data : Map String

unfoldable pub new_config_map : String → DeploymentOpt → String → ConfigMap
unfolding labels annotations
new_config_map version opt contents = record {
  api_version = scheme_group_version;
  kind = "ConfigMap";
  namespace = opt.namespace;
  name = opt.name;
  labels = labels opt;
  annotations = annotations version;
  binary_data = ("buildkitd.toml", contents) ∷ [];
}
