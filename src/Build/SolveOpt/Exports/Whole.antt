-- ===== src/Build/SolveOpt/Exports/Whole.antt =====
-- Which exports the whole of `toSolveOpt` lets pass.
use buildkit_cli_for_kubectl.Prelude.{
  String, ◌≡◌, refl, Bool, ◌||◌, List, [], ◌∷◌, Result, ok, err, ◌==◌, arith, Bool-cases, inl, inr,
  Ensures, Ensures-bind, Ensures-ok, Ensures-intro, ◌>>=◌ as and_then, All, map, map_results,
}
use buildkit_cli_for_kubectl.Prelude.Io.{Io-Ensures, lift}
use buildkit_cli_for_kubectl.Build.Outputs.{ExportEntry}
use buildkit_cli_for_kubectl.Build.Hosts.{to_buildkit_extra_hosts}
use buildkit_cli_for_kubectl.Build.Inputs.{Target, load_inputs}
use buildkit_cli_for_kubectl.Build.SolveOpt.{
  Services, Options, SolveOpt, Held, Defer, docker_exporter, containerd_exporter, resolve_runtime,
  set_name, check_untagged, tag_name, name_exports, set_up_exports, check_image_id, cache_to,
  check_cache, check_count, prepare, initial, held_inputs, with_inputs, set_platforms, set_network,
  set_hosts, set_attrs, with_attrs, finish, solve, released, to_solve_opt,
}
use buildkit_cli_for_kubectl.Build.SolveOpt.Exports.{
  IsResolvedKind, IsSupported, set_up_exports-IsSupported,
}

module _ (services : Services) where
  map_results-Ensures :
      (f : ExportEntry → Result ExportEntry) (P : ExportEntry → Type 0) (es : List ExportEntry)
      → All P es
      → ((e : ExportEntry) → P e → Ensures IsResolvedKind (f e))
      → Ensures (All IsResolvedKind) (map_results f es)
  map_results-Ensures f P [] h k = tt
  map_results-Ensures f P (e ∷ es) h k =
      Ensures-bind IsResolvedKind (All IsResolvedKind) (f e) _ (k e h.0) (λ e' g.
        Ensures-bind (All IsResolvedKind) (All IsResolvedKind) (map_results f es) _
          (map_results-Ensures f P es h.1 k) (λ es' g'. (g, g')))

  All-Unit : (es : List ExportEntry) → All (λ e. Unit {0}) es
  All-Unit [] = tt
  All-Unit (e ∷ es) = (tt, All-Unit es)

  resolve_runtime-IsResolvedKind :
      (e : ExportEntry) → Unit {0} → Ensures IsResolvedKind (resolve_runtime services e)
  unfolding resolve_runtime
  resolve_runtime-IsResolvedKind e u = elim (Bool-cases (e.kind == "runtime")) [
    | inr n ↦ rw n n
    | inl y ↦ rw y (elim (Bool-cases (services.features containerd_exporter)) [
      | inl c ↦ rw c refl
      | inr c ↦ rw c (elim (Bool-cases (services.features docker_exporter)) [
        | inl d ↦ rw d refl
        | inr d ↦ rw d tt
      ])
    ])
  ]

  check_untagged-IsResolvedKind :
      (e : ExportEntry) → IsResolvedKind e → Ensures IsResolvedKind (check_untagged services e)
  unfolding check_untagged
  check_untagged-IsResolvedKind e h = ground arith

  map-set_name :
      (tags : List String) (es : List ExportEntry)
      → All IsResolvedKind es
      → All IsResolvedKind (map (set_name services tags) es)
  unfolding set_name
  map-set_name tags [] h = tt
  map-set_name tags (e ∷ es) h = (ground (arith, h.0), map-set_name tags es h.1)

  name_exports-IsResolvedKind :
      (tags : List String) (es : List ExportEntry)
      → All IsResolvedKind es
      → Ensures (All IsResolvedKind) (name_exports services tags es)
  unfolding name_exports
  name_exports-IsResolvedKind [] es h =
      map_results-Ensures (check_untagged services) IsResolvedKind es h
        check_untagged-IsResolvedKind
  name_exports-IsResolvedKind (t ∷ ts) es h =
      Ensures-bind (λ names. Unit {0}) (All IsResolvedKind)
        (map_results (tag_name services) (t ∷ ts)) _
        (Ensures-intro (λ names. Unit {0}) _ (λ names e. tt)) (λ names u. map-set_name names es h)

  -- A check in front lets the exports of what follows it through.
  checked :
      (m : Result (Unit {0})) (r : Result (List ExportEntry))
      → Ensures (All IsResolvedKind) r
      → Ensures (All IsResolvedKind) (and_then m (λ u. r))
  checked (ok u) r h = h
  checked (err e) r h = tt

  prepare-IsResolvedKind :
      (multi_driver : Bool) (opt : Options)
      → Ensures (All IsResolvedKind) (prepare services multi_driver opt)
  unfolding prepare
  prepare-IsResolvedKind multi_driver opt = checked (check_image_id services multi_driver opt) _ (
      checked (check_cache services (cache_to services opt)) _ (
        checked (check_count services opt.exports) _ (
          Ensures-bind (All IsResolvedKind) (All IsResolvedKind)
            (map_results (resolve_runtime services) opt.exports) (name_exports services opt.tags)
            (map_results-Ensures (resolve_runtime services) (λ e. Unit {0}) opt.exports
              (All-Unit opt.exports) resolve_runtime-IsResolvedKind)
            (λ es h. name_exports-IsResolvedKind opt.tags es h))))

  abbrev HasSupported : Options → SolveOpt → Type 0
  HasSupported opt so = All (IsSupported services opt) so.exports

  held_lem :
      (opt : Options) (so : SolveOpt) (w : Held) (r : Result (Target × List String) × List String)
      → HasSupported opt so
      → Ensures (HasSupported opt) (held_inputs services so w r).0
  unfolding held_inputs
  held_lem opt so w (ok (t, ds), dirs) h = h
  held_lem opt so w (err e, dirs) h = tt

  with_inputs-HasSupported :
      (opt : Options) (so : SolveOpt) (w : Held)
      → HasSupported opt so
      → Ensures (HasSupported opt) (with_inputs services opt.inputs so w).0
  unfolding with_inputs
  with_inputs-HasSupported opt so w h =
      held_lem opt so w (load_inputs services.host opt.inputs so.inputs w.dirs) h

  set_network-HasSupported :
      (opt : Options) (mode : String) (so : SolveOpt)
      → HasSupported opt so
      → Ensures (HasSupported opt) (set_network services mode so)
  unfolding set_network
  set_network-HasSupported opt mode so h = elim (Bool-cases (mode == "host" || mode == "none")) [
    | inl a ↦ rw a h
    | inr a ↦
        rw a
          (elim (Bool-cases (mode == "" || mode == "default")) [ inl b ↦ rw b h | inr b ↦ rw b tt ])
  ]

  set_hosts-HasSupported :
      (opt : Options) (hosts : List String) (so : SolveOpt)
      → HasSupported opt so
      → Ensures (HasSupported opt) (set_hosts services hosts so)
  unfolding set_hosts
  set_hosts-HasSupported opt hosts so h =
      Ensures-bind (λ t. Unit {0}) (HasSupported opt) (to_buildkit_extra_hosts hosts) _
        (Ensures-intro (λ t. Unit {0}) (to_buildkit_extra_hosts hosts) (λ t e. tt)) (λ t u. h)

  finish-HasSupported :
      (opt : Options) (so : SolveOpt)
      → HasSupported opt so
      → Ensures (HasSupported opt) (finish services opt so)
  unfolding finish
  finish-HasSupported opt so h =
      Ensures-bind (λ m. Unit {0}) (HasSupported opt)
        (set_platforms services opt.platforms (set_attrs services opt so.inputs.frontend_attrs)) _
        (Ensures-intro (λ m. Unit {0})
          (set_platforms services opt.platforms (set_attrs services opt so.inputs.frontend_attrs))
          (λ m e. tt))
        (λ m u.
          Ensures-bind (HasSupported opt) (HasSupported opt)
            (set_network services opt.network_mode (with_attrs services so m))
            (set_hosts services opt.extra_hosts)
            (set_network-HasSupported opt opt.network_mode (with_attrs services so m) h)
            (λ so' g. set_hosts-HasSupported opt opt.extra_hosts so' g))

  solve-HasSupported :
      (multi_driver : Bool) (opt : Options) (w : Held)
      → Ensures (HasSupported opt) (solve services multi_driver opt w).0
  unfolding solve initial
  solve-HasSupported multi_driver opt w =
      Io-Ensures (All IsResolvedKind) (HasSupported opt) (lift (prepare services multi_driver opt))
        _ w (prepare-IsResolvedKind multi_driver opt)
        (λ named v g.
          Io-Ensures (All (IsSupported services opt)) (HasSupported opt)
            (set_up_exports services opt named) _ v
            (set_up_exports-IsSupported services opt named v g)
            (λ es v' k.
              Io-Ensures (HasSupported opt) (HasSupported opt) (with_inputs services opt.inputs _) _
                v' (with_inputs-HasSupported opt _ v' k) (λ so u l. finish-HasSupported opt so l)))

  released-HasSupported :
      (opt : Options) (r : Result SolveOpt × Held)
      → Ensures (HasSupported opt) r.0
      → Ensures (λ out. HasSupported opt out.0) (released services r).0
  unfolding released
  released-HasSupported opt (ok so, w) h = h
  released-HasSupported opt (err e, w) h = tt

  -- Where `toSolveOpt` succeeds, every export in what it returns is supported: none has the kind `runtime`
  -- or `containerd`, an export into docker has a writer and a driver with that feature, and with an
  -- image ID file none is written into a file or a directory of the client.
  pub to_solve_opt-IsSupported :
      (multi_driver : Bool) (opt : Options) (w : Held) {so : SolveOpt} {ds : List Defer}
      → (to_solve_opt services multi_driver opt w).0 ≡ ok (so, ds)
      → All (IsSupported services opt) so.exports
  unfolding to_solve_opt
  to_solve_opt-IsSupported multi_driver opt w =
      Ensures-ok (λ out. HasSupported opt out.0) _
        (released-HasSupported opt _
          (solve-HasSupported multi_driver opt (record w { defers = [] })))
