-- ===== src/Kubernetes/Manifest/Wellformed.antt =====
-- The form of the deployments that `NewDeployment` makes.
use buildkit_cli_for_kubectl.Prelude.{
  String, ◌≡◌, refl, Bool, true, false, not, ◌&&◌, ◌||◌, none, some, List, [], ◌∷◌, map, all, ◌==◌,
  lookup, insert, is_in, if◌then◌else◌, arith,
}
use buildkit_cli_for_kubectl.Kubernetes.Manifest.{
  DeploymentOpt, Deployment, PodTemplate, labels, apply_if, base_deployment, to_rootless,
  to_containerd_worker, add_docker_sock_mount, add_custom_config_mount, new_deployment,
}

abbrev volume_names : PodTemplate → List String
volume_names t = map (λ v. v.name) t.volumes

abbrev mount_names : PodTemplate → List String
mount_names t = map (λ m. m.name) t.container.volume_mounts

pub distinct : List String → Bool
distinct [] = true
distinct (k ∷ ks) = not (is_in k ks) && distinct ks

-- A mount names a volume of the pod, and no volume is named twice.
pub record VolumesMatch (t : PodTemplate) : Type 0 where
  pub declared : all (λ name. is_in name (volume_names t)) (mount_names t) ≡ true
  pub distinct : distinct (volume_names t) ≡ true
  pub used : all (λ name. is_in name (mount_names t)) (volume_names t) ≡ true

-- The rootless options: no security context, both profiles unconfined and no socket of docker.
pub record IsRootless (t : PodTemplate) : Type 0 where
  pub no_context : t.container.security_context ≡ none
  pub apparmor :
      lookup "container.apparmor.security.beta.kubernetes.io/buildkitd" t.annotations
      ≡ some "unconfined"
  pub seccomp :
      lookup "container.seccomp.security.alpha.kubernetes.io/buildkitd" t.annotations
      ≡ some "unconfined"
  pub no_docker_sock : is_in "docker-sock" (volume_names t) ≡ false

-- The steps of `NewDeployment`, under any answers to its four tests.
module _ (version : String) (opt : DeploymentOpt) where
  steps : Bool → Bool → Bool → Bool → Deployment
  steps custom docker containerd rootless = apply_if custom (add_custom_config_mount opt) (
      apply_if docker (add_docker_sock_mount opt) (
        apply_if containerd (to_containerd_worker opt)
          (apply_if rootless to_rootless (base_deployment version opt))))

  steps-VolumesMatch : (c d w r : Bool) → VolumesMatch (steps c d w r).template
  unfolding steps new_deployment is_in distinct
  steps-VolumesMatch true true true true = record { declared = refl; distinct = refl; used = refl }
  steps-VolumesMatch true true true false = record { declared = refl; distinct = refl; used = refl }
  steps-VolumesMatch true true false true = record { declared = refl; distinct = refl; used = refl }
  steps-VolumesMatch true true false false = record {
    declared = refl;
    distinct = refl;
    used = refl;
  }
  steps-VolumesMatch true false true true = record { declared = refl; distinct = refl; used = refl }
  steps-VolumesMatch true false true false = record {
    declared = refl;
    distinct = refl;
    used = refl;
  }
  steps-VolumesMatch true false false true = record {
    declared = refl;
    distinct = refl;
    used = refl;
  }
  steps-VolumesMatch true false false false = record {
    declared = refl;
    distinct = refl;
    used = refl;
  }
  steps-VolumesMatch false true true true = record { declared = refl; distinct = refl; used = refl }
  steps-VolumesMatch false true true false = record {
    declared = refl;
    distinct = refl;
    used = refl;
  }
  steps-VolumesMatch false true false true = record {
    declared = refl;
    distinct = refl;
    used = refl;
  }
  steps-VolumesMatch false true false false = record {
    declared = refl;
    distinct = refl;
    used = refl;
  }
  steps-VolumesMatch false false true true = record {
    declared = refl;
    distinct = refl;
    used = refl;
  }
  steps-VolumesMatch false false true false = record {
    declared = refl;
    distinct = refl;
    used = refl;
  }
  steps-VolumesMatch false false false true = record {
    declared = refl;
    distinct = refl;
    used = refl;
  }
  steps-VolumesMatch false false false false = record {
    declared = refl;
    distinct = refl;
    used = refl;
  }

  -- Every mount of the builder's container names a volume of its pod, every volume is mounted, and no
  -- volume is named twice, whatever the options are.
  pub new_deployment-VolumesMatch : VolumesMatch (new_deployment version opt).template
  unfolding new_deployment steps
  new_deployment-VolumesMatch =
      steps-VolumesMatch (not (opt.custom_config == ""))
        (opt.container_runtime == "docker" && not opt.rootless) (opt.worker == "containerd")
        opt.rootless

  steps-selector : (c d w r : Bool) → (steps c d w r).selector ≡ ("app", opt.name) ∷ []
  unfolding steps new_deployment lookup labels
  steps-selector c d w r = ground arith

  steps-labels : (c d w r : Bool) → (steps c d w r).template.labels ≡ labels opt
  unfolding steps new_deployment
  steps-labels c d w r = ground arith

  steps-IsRootless : (c w : Bool) → IsRootless (steps c false w true).template
  unfolding steps new_deployment lookup insert is_in
  steps-IsRootless true true = record {
    no_context = refl;
    apparmor = refl;
    seccomp = refl;
    no_docker_sock = refl;
  }
  steps-IsRootless true false = record {
    no_context = refl;
    apparmor = refl;
    seccomp = refl;
    no_docker_sock = refl;
  }
  steps-IsRootless false true = record {
    no_context = refl;
    apparmor = refl;
    seccomp = refl;
    no_docker_sock = refl;
  }
  steps-IsRootless false false = record {
    no_context = refl;
    apparmor = refl;
    seccomp = refl;
    no_docker_sock = refl;
  }

  steps-IsRootless_of :
      (c d w r : Bool) → r ≡ true → d ≡ false → IsRootless (steps c d w r).template
  steps-IsRootless_of c true w r e f = absurd (cc)
  steps-IsRootless_of c false w true e f = steps-IsRootless c w
  steps-IsRootless_of c false w false e f = absurd (cc)

  -- A rootless builder runs without a security context and with both profiles unconfined, and mounts no
  -- socket of docker, whichever runtime and worker are chosen.
  pub new_deployment-IsRootless :
      opt.rootless ≡ true → IsRootless (new_deployment version opt).template
  unfolding new_deployment steps
  new_deployment-IsRootless h =
      steps-IsRootless_of (not (opt.custom_config == ""))
        (opt.container_runtime == "docker" && not opt.rootless) (opt.worker == "containerd")
        opt.rootless h (ground arith)

  steps-affinity :
      (c d w r : Bool)
      → (steps c d w r).template.affinity ≡ (
          if w || d
          then some (record { match_labels = labels opt; topology_key = "kubernetes.io/hostname" })
          else none)
  unfolding steps new_deployment
  steps-affinity true true true true = refl
  steps-affinity true true true false = refl
  steps-affinity true true false true = refl
  steps-affinity true true false false = refl
  steps-affinity true false true true = refl
  steps-affinity true false true false = refl
  steps-affinity true false false true = refl
  steps-affinity true false false false = refl
  steps-affinity false true true true = refl
  steps-affinity false true true false = refl
  steps-affinity false true false true = refl
  steps-affinity false true false false = refl
  steps-affinity false false true true = refl
  steps-affinity false false true false = refl
  steps-affinity false false false true = refl
  steps-affinity false false false false = refl

  -- Builders are kept off each other's nodes exactly when they share a runtime with the node: with the
  -- containerd worker, or with the docker runtime and not rootless.
  pub affinity-new_deployment : (new_deployment version opt).template.affinity ≡ (
      if opt.worker == "containerd" || (opt.container_runtime == "docker" && not opt.rootless)
      then some (record { match_labels = labels opt; topology_key = "kubernetes.io/hostname" })
      else none)
  unfolding new_deployment steps
  affinity-new_deployment =
      steps-affinity (not (opt.custom_config == ""))
        (opt.container_runtime == "docker" && not opt.rootless) (opt.worker == "containerd")
        opt.rootless

  selected :
      (k v : String) → lookup k (("app", opt.name) ∷ []) ≡ some v → lookup k (labels opt) ≡ some v
  unfolding lookup labels
  selected k v h = ground arith

  -- The deployment's selector selects its own pods: each of its labels stands on the pod template
  -- with the same value.
  pub new_deployment-IsSelected :
      (k v : String)
      → lookup k (new_deployment version opt).selector ≡ some v
      → lookup k (new_deployment version opt).template.labels ≡ some v
  unfolding new_deployment steps
  new_deployment-IsSelected k v h =
      let c = not (opt.custom_config == "") in
      let d = opt.container_runtime == "docker" && not opt.rootless in
      let w = opt.worker == "containerd" in
      rw (steps-labels c d w opt.rootless)
        (selected k v (rw (steps-selector c d w opt.rootless) at h))
