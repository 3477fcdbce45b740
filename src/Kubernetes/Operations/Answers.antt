-- ===== src/Kubernetes/Operations/Answers.antt =====
-- What the operations answer.
use mathlib.Core.List.{Perm}
use mathlib.Core.List.Perm
use buildkit_cli_for_kubectl.Prelude.{
  ℕ, suc, ◌≡◌, refl, not, ◌&&◌, List, ◌∷◌, map, keep, lookup, ok, if◌then◌else◌, ◌==◌, Bool-cases,
  inl, inr, eq_of_text, Option, none, some, Map, lookup_or, Bool, true, false, ap, ◌∙◌, String,
}
use buildkit_cli_for_kubectl.Text.Case.{parse_bool_or_false, parse_bool}
use buildkit_cli_for_kubectl.Text.Number.{pos}
use buildkit_cli_for_kubectl.Kubernetes.Manifest.{DeploymentOpt, labels, bool_text}
use buildkit_cli_for_kubectl.Kubernetes.Pods.{Pod, Chosen, is_running}
use buildkit_cli_for_kubectl.Kubernetes.Pods.Choice.{list_running_pods_lem}
use buildkit_cli_for_kubectl.Kubernetes.Operations.{
  Api, DeploymentState, running, info, info_of, features, Features, base_features, is_rootless,
  runtime_features,
}

runtime_features-containerd :
    (runtime : String)
    → ((runtime_features runtime).containerd_exporter ≡ (runtime == "containerd"))
      × ((runtime_features runtime).docker_exporter ≡ (runtime == "docker"))
unfolding runtime_features
runtime_features-containerd runtime = elim (Bool-cases (runtime == "containerd")) [
  | inl e ↦ rw (eq_of_text runtime "containerd" e) (refl, refl)
  | inr n ↦ elim (Bool-cases (runtime == "docker")) [
    | inl d ↦ rw (eq_of_text runtime "docker" d) (refl, refl)
    | inr m ↦ rw n (rw m (refl, refl))
  ]
]

-- The features by the texts of the two labels
features_by : String → String → Features
features_by rootless runtime =
    if is_rootless rootless then base_features else runtime_features runtime

features-lookup_or :
    (chosen : Chosen) (c : String) (cs : List String)
    → chosen.pod.containers ≡ c ∷ cs
    → features (ok chosen)
      ≡ features_by
          (lookup_or "" "rootless" chosen.pod.labels)
          (lookup_or "" "runtime" chosen.pod.labels)
unfolding features features_by
features-lookup_or chosen c cs k = rw k refl

or_empty : Option String → String
or_empty none = ""
or_empty (some v) = v

or_empty-lookup : (k : String) (m : Map String) → lookup_or "" k m ≡ or_empty (lookup k m)
unfolding or_empty
or_empty-lookup k m = go (lookup k m)
  where
    go : (o : Option String) → elim o [ none ↦ "" | some v ↦ v ] ≡ or_empty o
    go none = refl
    go (some v) = refl

rootless_label :
    (opt : DeploymentOpt) (m : Map String)
    → lookup "rootless" m ≡ lookup "rootless" (labels opt)
    → lookup_or "" "rootless" m ≡ bool_text opt.rootless
rootless_label opt m r =
    or_empty-lookup "rootless" m ∙ ap or_empty r ∙ unfold labels lookup or_empty in refl

runtime_label :
    (opt : DeploymentOpt) (m : Map String)
    → lookup "runtime" m ≡ lookup "runtime" (labels opt)
    → lookup_or "" "runtime" m ≡ opt.container_runtime
runtime_label opt m r =
    or_empty-lookup "runtime" m ∙ ap or_empty r ∙ unfold labels lookup or_empty in refl

features_by-labels :
    (rootless : Bool) (runtime : String)
    → ((features_by (bool_text rootless) runtime).containerd_exporter
        ≡ (not rootless && runtime == "containerd"))
      × ((features_by (bool_text rootless) runtime).docker_exporter
          ≡ (not rootless && runtime == "docker"))
unfolding features_by is_rootless parse_bool_or_false parse_bool
features_by-labels true runtime = (refl, refl)
features_by-labels false runtime = runtime_features-containerd runtime

-- Where the labels of the chosen pod have under `rootless` and `runtime` what the deployment's have, whatever
-- else they have, and the pod has a container, the driver can export into containerd exactly when the builder
-- is not rootless and its runtime is containerd, and into docker exactly when it is not rootless and its
-- runtime is docker.
pub features-labels :
    (opt : DeploymentOpt) (chosen : Chosen) (c : String) (cs : List String)
    → lookup "rootless" chosen.pod.labels ≡ lookup "rootless" (labels opt)
    → lookup "runtime" chosen.pod.labels ≡ lookup "runtime" (labels opt)
    → chosen.pod.containers ≡ c ∷ cs
    → ((features (ok chosen)).containerd_exporter
        ≡ (not opt.rootless && opt.container_runtime == "containerd"))
      × ((features (ok chosen)).docker_exporter
          ≡ (not opt.rootless && opt.container_runtime == "docker"))
features-labels opt chosen c cs r l k =
    let e =
      features-lookup_or chosen c cs k
      ∙ ap (λ t. features_by t (lookup_or "" "runtime" chosen.pod.labels)) (rootless_label opt _ r)
      ∙ ap (features_by (bool_text opt.rootless)) (runtime_label opt _ l) in
    let (cd, dk) = features_by-labels opt.rootless opt.container_runtime in
    (ap (λ f. f.containerd_exporter) e ∙ cd, ap (λ f. f.docker_exporter) e ∙ dk)

-- Where the deployment has a ready replica and the cluster lists its pods, `Info` answers that it runs,
-- with the names of its running pods, each once for each such pod, as the dynamic nodes.
pub info-running :
    (api : Api) (deployment : String) (w : api.World) (depl : DeploymentState) (n : ℕ)
    (items : List Pod)
    → api.get_deployment w deployment ≡ ok depl
    → depl.ready_replicas ≡ pos (suc n)
    → api.list_pods w (if depl.name == "" then "buildkit" else depl.name) ≡ ok items
    → (names : List String) × (info api deployment w
        ≡ ok (record { status = running; dynamic_nodes = names }))
      × Perm names (map Pod.name (keep is_running items))
unfolding info info_of
info-running api deployment w depl n items g r l =
    let (pods, e, perm, sorted) = list_running_pods_lem (api.list_pods w) depl.name items l in
    (map Pod.name pods, rw g (rw r (rw e refl)), Perm.map Pod.name perm)
