-- ===== src/Build/SolveOpt/Exports.antt =====
-- Which exports the loop that sets up the exporters of `toSolveOpt` lets pass.
pub mod Whole
use buildkit_cli_for_kubectl.Prelude.{
  ℕ, String, ◌≡◌, refl, ap, sym, subst, ◌∙◌, Bool, true, false, not, ◌||◌, ◌&&◌, Option, none, some,
  List, [], ◌∷◌, Result, ok, err, Error, if◌then◌else◌, ◌==◌, arith, Bool-cases, Result-cases, inl,
  inr, Ensures, Ensures-bind, Ensures-ok, Ensures-intro, ◌>>=◌ as and_then, All, eq_of_text, map,
  map_results,
}
use buildkit_cli_for_kubectl.Prelude.Io.{Io, Io-Ensures, pure, throw, lift, ◌>>=◌}
use buildkit_cli_for_kubectl.Build.Outputs.{ExportEntry, loader}
use buildkit_cli_for_kubectl.Build.Hosts.{to_buildkit_extra_hosts}
use buildkit_cli_for_kubectl.Build.Inputs.{Target, load_inputs}
use buildkit_cli_for_kubectl.Build.SolveOpt.{
  Services, Options, SolveOpt, Held, Defer, docker_exporter, containerd_exporter, oci_exporter,
  has_output, is_pushing, multi_node, resolve_runtime, set_name, check_untagged, tag_name,
  name_exports, loaded, docker_export, image_to_nodes, image_export, set_up_export, set_up_exports,
  check_image_id, cache_to, check_cache, check_count, prepare, initial, held_inputs, with_inputs,
  set_platforms, set_network, set_hosts, set_attrs, with_attrs, finish, solve, released,
  to_solve_opt,
}

abbrev IsResolvedKind : ExportEntry → Type 0
IsResolvedKind e = (e.kind == "runtime") ≡ false

module _ (services : Services) where
  -- BuildKit can be asked for the export: the shorthand `runtime` and the kind `containerd` are gone, an
  -- export into docker has a stream to write to and a driver that supports it, and no export into a
  -- client's file or directory goes with an image ID file.
  pub record IsSupported (opt : Options) (e : ExportEntry) : Type 0 where
    pub no_runtime : (e.kind == "runtime") ≡ false
    pub no_containerd : (e.kind == "containerd") ≡ false
    pub docker :
        (e.kind == "docker") ≡ true
        → (services.features docker_exporter ≡ true) × (has_output services e.output ≡ true)
    pub no_id_file :
        (e.kind == "local" || e.kind == "tar") ≡ true → (opt.image_id_file == "") ≡ true

  of_kind :
      (opt : Options) (e : ExportEntry) (k : String)
      → e.kind ≡ k
      → (k == "runtime") ≡ false
      → (k == "containerd") ≡ false
      → (k == "local" || k == "tar") ≡ false
      → ((k == "docker") ≡ true
          → (services.features docker_exporter ≡ true) × (has_output services e.output ≡ true))
      → IsSupported opt e
  of_kind opt e k same r c l d = record {
    no_runtime = rw same r;
    no_containerd = rw same c;
    docker = λ h. d (rw same at h);
    no_id_file = λ h. absurd (clash (rw same at h));
  }
    where
      clash : (k == "local" || k == "tar") ≡ true → ⊥
      clash h = ground (arith, h, l)

  loaded-IsSupported :
      (opt : Options) (e : ExportEntry) (r : Result (Unit {0})) (w : Held)
      → IsSupported opt (record e { output = some loader })
      → Ensures (IsSupported opt) (loaded services e r w).0
  unfolding loaded
  loaded-IsSupported opt e (ok u) w h = h
  loaded-IsSupported opt e (err x) w h = tt

  docker_export-IsSupported :
      (opt : Options) (e : ExportEntry) (w : Held)
      → e.kind ≡ "docker"
      → Ensures (IsSupported opt) (docker_export services e w).0
  unfolding docker_export
  docker_export-IsSupported opt e w k = elim (Bool-cases (services.features docker_exporter)) [
    | inr n ↦ rw n tt
    | inl f ↦ rw f (elim (Bool-cases (has_output services e.output)) [
      | inl o ↦ rw o (of_kind opt e "docker" k refl refl refl (λ h. (f, o)))
      | inr o ↦ rw o (
          loaded-IsSupported opt e services.start_loader w (
            of_kind opt (record e { output = some loader }) "docker" k refl refl refl
              (λ h. (f, refl))))
    ])
  ]

  image_to_nodes-IsSupported :
      (opt : Options) (e : ExportEntry) (r : Result (List ℕ)) (w : Held)
      → e.kind ≡ "image"
      → Ensures (IsSupported opt) (image_to_nodes services e r w).0
  unfolding image_to_nodes
  image_to_nodes-IsSupported opt e (err x) w k = tt
  image_to_nodes-IsSupported opt e (ok nodes) w k =
      elim (Bool-cases (not (has_output services e.output) && multi_node services nodes)) [
        | inl m ↦ rw m (
            loaded-IsSupported opt (record e { kind = "oci" }) services.start_loader w
              (of_kind opt (record e { kind = "oci"; output = some loader }) "oci" refl refl refl
                refl (λ h. absurd (cc))))
        | inr m ↦ rw m (of_kind opt e "image" k refl refl refl (λ h. absurd (cc)))
      ]

  set_up_export-IsSupported :
      (opt : Options) (e : ExportEntry) (w : Held)
      → IsResolvedKind e
      → Ensures (IsSupported opt) (set_up_export services opt e w).0
  unfolding set_up_export image_export
  set_up_export-IsSupported opt e w r =
      elim (Bool-cases ((e.kind == "local" || e.kind == "tar") && not (opt.image_id_file == ""))) [
        | inl a ↦ rw a tt
        | inr a ↦
            rw a (elim (Bool-cases (e.kind == "oci" && not (services.features oci_exporter))) [
              | inl b ↦ rw b tt
              | inr b ↦ rw b (elim (Bool-cases (e.kind == "docker")) [
                | inl d ↦ rw d (docker_export-IsSupported opt e w (eq_of_text e.kind "docker" d))
                | inr d ↦ rw d (elim (Bool-cases (e.kind == "containerd")) [
                  | inl c ↦ rw c tt
                  | inr c ↦
                      rw c (elim (Bool-cases (e.kind == "image" && not (is_pushing services e))) [
                        | inl i ↦ rw i (elim (Bool-cases (services.features containerd_exporter)) [
                          | inl f ↦ rw f (
                              image_to_nodes-IsSupported opt e services.builder_nodes w
                                (eq_of_text e.kind "image" (left _ _ i)))
                          | inr f ↦ rw f tt
                        ])
                        | inr i ↦ rw i (record {
                          no_runtime = r;
                          no_containerd = c;
                          docker = λ h. absurd (ground (arith, h, d));
                          no_id_file = λ h. id_file _ _ a h;
                        })
                      ])
                ])
              ])
            ])
      ]
    where
      left : (x y : Bool) → x && y ≡ true → x ≡ true
      left x y h = ground arith

      id_file : (x y : Bool) → x && not y ≡ false → x ≡ true → y ≡ true
      id_file x y h k = ground arith

  set_up_exports-IsSupported :
      (opt : Options) (es : List ExportEntry) (w : Held)
      → All IsResolvedKind es
      → Ensures (All (IsSupported opt)) (set_up_exports services opt es w).0
  unfolding set_up_exports
  set_up_exports-IsSupported opt [] w h = tt
  set_up_exports-IsSupported opt (e ∷ es) w h =
      Io-Ensures (IsSupported opt) (All (IsSupported opt)) (set_up_export services opt e) _ w
        (set_up_export-IsSupported opt e w h.0)
        (λ e' v g.
          Io-Ensures (All (IsSupported opt)) (All (IsSupported opt))
            (set_up_exports services opt es) _ v (set_up_exports-IsSupported opt es v h.1)
            (λ es' v' g'. (g, g')))
