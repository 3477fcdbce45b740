-- ===== src/Build/SolveOpt.antt =====
-- `toSolveOpt` of pkg/build/build.go: the options of one target become what BuildKit is asked to solve.
-- `Services` holds the answers of the driver, of the file system and of the reference parser.
pub mod Release
pub mod Exports
use buildkit_cli_for_kubectl.Prelude.{
  ℕ, zero, suc, ◌+◌, ◌-◌, String, ◌<>◌, Bool, true, false, not, ◌&&◌, ◌||◌, Option, none, some,
  List, [], ◌∷◌, ◌++◌, map, map_results, length, ltb, Result, ok, err, Error, errorf, wrapf,
  fail_if, if◌then◌else◌, ◌==◌, Map, insert, lookup, lookup_or, ◌>>=◌ as and_then,
}
use buildkit_cli_for_kubectl.Prelude.Io.{Io, pure, throw, lift, ◌>>=◌}
use buildkit_cli_for_kubectl.Text.Split.{join}
use buildkit_cli_for_kubectl.Text.Case.{parse_bool_or_false}
use buildkit_cli_for_kubectl.Build.Cache.{CacheOptionsEntry}
use buildkit_cli_for_kubectl.Build.Entitlements.{Entitlement, network_host}
use buildkit_cli_for_kubectl.Build.Outputs.{ExportEntry, Output, loader}
use buildkit_cli_for_kubectl.Build.Hosts.{to_buildkit_extra_hosts}
use buildkit_cli_for_kubectl.Build.Inputs.{Host, BuildInputs, Target, load_inputs, release}

-- `driver.Feature`
pub data Feature : Type 0 where
  oci_exporter docker_exporter containerd_exporter cache_export multi_platform : Feature

pub feature_name : Feature → String
feature_name oci_exporter = "OCI exporter"
feature_name docker_exporter = "Docker exporter"
feature_name containerd_exporter = "Containerd exporter"
feature_name cache_export = "cache export"
feature_name multi_platform = "multiple platforms"

-- `os.Remove`, `d.Features`, `d.List` (the number of nodes of each builder), `reference.Parse` with
-- `String`, and the callback `dl`. The driver's features are one answer for the whole call, and of the
-- removal of the image ID file only the answer is kept.
pub record Services : Type 0 where
  pub host : Host
  pub driver_name : String
  pub features : Feature → Bool
  pub builder_nodes : Result (List ℕ)
  pub parse_reference : String → Result String
  pub start_loader : Result (Unit {0})
  pub remove_file : String → Result (Unit {0})
  pub is_not_exist : Error → Bool

-- `Options`; the platforms are their formats.
pub record Options : Type 0 where
  pub inputs : BuildInputs
  pub tags : List String
  pub labels : Map String
  pub build_args : Map String
  pub pull : Bool
  pub image_id_file : String
  pub extra_hosts : List String
  pub network_mode : String
  pub no_cache : Bool
  pub target : String
  pub platforms : List String
  pub exports : List ExportEntry
  pub cache_from : List CacheOptionsEntry
  pub cache_to : List CacheOptionsEntry
  pub allow : List Entitlement
  pub frontend_image : String

-- `client.SolveOpt`; `inputs` has the maps that `LoadInputs` writes.
pub record SolveOpt : Type 0 where
  pub frontend : String
  pub inputs : Target
  pub cache_exports : List CacheOptionsEntry
  pub cache_imports : List CacheOptionsEntry
  pub allowed_entitlements : List Entitlement
  pub exports : List ExportEntry

-- An element of `defers`.
pub data Defer : Type 0 where
  cancel : Defer
  release_dirs : List String → Defer

-- What is held: the temporary directories, the loaders that run, and the local variable `defers`.
pub record Held : Type 0 where
  pub dirs : List String
  pub loaders : ℕ
  pub defers : List Defer

pub run_defer : Defer → Held → Held
run_defer cancel w = record w { loaders = w.loaders - 1 }
run_defer (release_dirs ds) w = record w { dirs = release ds w.dirs }

-- `releaseF`
pub run_defers : List Defer → Held → Held
unfolding run_defer
run_defers [] w = w
run_defers (d ∷ ds) w = run_defers ds (run_defer d w)

abbrev check : Bool → Error → Io Held (Unit {0})
check b e = lift (fail_if b e)

module _ (services : Services) where
  open services use {host, driver_name, features, builder_nodes, parse_reference, start_loader}

  pub not_supported : Feature → Error
  unfolding feature_name
  not_supported f =
      errorf
        "%s feature is currently not supported for %s driver. Please switch to a different driver (eg. \"kubectl buildkit create --use\")"
        (feature_name f ∷ driver_name ∷ [])

  removed : Result (Unit {0}) → Result (Unit {0})
  removed (ok u) = ok u
  removed (err e) =
      if services.is_not_exist e then ok tt else err (wrapf e "removing image ID file" [])

  abbrev is_empty {ℓ} : {A : Type ℓ} → List A → Bool
  is_empty [] = true
  is_empty (x ∷ xs) = false

  pub check_image_id : Bool → Options → Result (Unit {0})
  unfolding removed
  check_image_id multi_driver opt =
      if opt.image_id_file == ""
      then ok tt
      else if multi_driver || not (is_empty opt.platforms)
      then err (errorf "image ID file cannot be specified when building for multiple platforms" [])
      else removed (services.remove_file opt.image_id_file)

  abbrev inline_entry : CacheOptionsEntry
  inline_entry = record { kind = "inline"; attrs = [] }

  -- `opt.CacheTo` with the inline cache of the build argument
  pub cache_to : Options → List CacheOptionsEntry
  cache_to opt =
      if parse_bool_or_false (lookup_or "" "BUILDKIT_INLINE_CACHE" opt.build_args)
      then opt.cache_to ++ inline_entry ∷ []
      else opt.cache_to

  pub check_cache : List CacheOptionsEntry → Result (Unit {0})
  check_cache [] = ok tt
  check_cache (e ∷ es) =
      let rest = check_cache es in
      if not (e.kind == "inline") && not (features cache_export)
      then err (not_supported cache_export)
      else rest

  initial_attrs : Bool → Options → Map String
  initial_attrs multi_driver opt =
      let source : Map String =
        if opt.frontend_image == "" then [] else insert "source" opt.frontend_image [] in
      if multi_driver then insert "multi-platform" "true" source else source

  initial : Bool → Options → SolveOpt
  unfolding initial_attrs cache_to
  initial multi_driver opt = record {
    frontend = if opt.frontend_image == "" then "dockerfile.v0" else "gateway.v0";
    inputs = record {
      frontend_attrs = initial_attrs multi_driver opt;
      local_dirs = [];
      uploads = [];
    };
    cache_exports = cache_to opt;
    cache_imports = opt.cache_from;
    allowed_entitlements = opt.allow;
    exports = [];
  }

  pub check_count : List ExportEntry → Result (Unit {0})
  check_count [] = err (errorf "zero outputs currently unsupported" [])
  check_count (e ∷ []) = ok tt
  check_count (e ∷ es) = err (errorf "multiple outputs currently unsupported" [])

  abbrev no_runtime : Error
  no_runtime =
      errorf
        "loading image into cluster runtime not supported by this builder, please specify --push or a client local output: --output=type=local,dest=. --output=type=tar,dest=out.tar "
        []

  -- A `runtime` export becomes one of the driver's runtime.
  pub resolve_runtime : ExportEntry → Result ExportEntry
  resolve_runtime e =
      if not (e.kind == "runtime")
      then ok e
      else if features containerd_exporter
      then ok (record e { kind = "image" })
      else if features docker_exporter
      then ok (record e { kind = "docker" })
      else err no_runtime

  tag_name : String → Result String
  tag_name tag = wrap (parse_reference tag)
    where
      wrap : Result String → Result String
      wrap (ok name) = ok name
      wrap (err e) = err (wrapf e "invalid tag %q" (tag ∷ []))

  abbrev pub takes_name : String → Bool
  takes_name kind = kind == "image" || kind == "oci" || kind == "docker"

  pub set_name : List String → ExportEntry → ExportEntry
  set_name tags e =
      if takes_name e.kind then record e { attrs = insert "name" (join "," tags) e.attrs } else e

  abbrev pub is_pushing : ExportEntry → Bool
  is_pushing e = parse_bool_or_false (lookup_or "" "push" e.attrs)

  pub check_untagged : ExportEntry → Result ExportEntry
  check_untagged e =
      if e.kind == "image" && lookup_or "" "name" e.attrs == "" && is_pushing e
      then err (errorf "tag is needed when pushing to registry" [])
      else ok e

  pub name_exports : List String → List ExportEntry → Result (List ExportEntry)
  unfolding tag_name set_name check_untagged
  name_exports [] es = map_results check_untagged es
  name_exports (t ∷ ts) es =
      and_then (map_results tag_name (t ∷ ts)) (λ tags. ok (map (set_name tags) es))

  -- `dl("")` and what follows it
  loaded : ExportEntry → Result (Unit {0}) → Io Held ExportEntry
  loaded e (ok u) w = (
    ok (record e { output = some loader }),
    record w { loaders = suc w.loaders; defers = w.defers ++ cancel ∷ [] },
  )
  loaded e (err x) w = (err x, w)

  abbrev pub has_output : Option Output → Bool
  has_output none = false
  has_output (some o) = true

  docker_export : ExportEntry → Io Held ExportEntry
  unfolding loaded
  docker_export e =
      if not (features docker_exporter)
      then throw (not_supported docker_exporter)
      else if has_output e.output
      then pure e
      else loaded e start_loader

  abbrev pub multi_node : List ℕ → Bool
  multi_node [] = false
  multi_node (n ∷ []) = ltb 1 n
  multi_node (n ∷ m ∷ ns) = true

  image_to_nodes : ExportEntry → Result (List ℕ) → Io Held ExportEntry
  unfolding loaded
  image_to_nodes e (err x) = throw x
  image_to_nodes e (ok nodes) =
      if not (has_output e.output) && multi_node nodes
      then loaded (record e { kind = "oci" }) start_loader
      else pure e

  image_export : ExportEntry → Io Held ExportEntry
  unfolding image_to_nodes
  image_export e =
      if not (features containerd_exporter)
      then throw (not_supported containerd_exporter)
      else image_to_nodes e builder_nodes

  -- The body of the loop that sets up the exporters.
  pub set_up_export : Options → ExportEntry → Io Held ExportEntry
  unfolding docker_export image_export
  set_up_export opt e =
      if (e.kind == "local" || e.kind == "tar") && not (opt.image_id_file == "")
      then throw (errorf "local and tar exporters are incompatible with image ID file" [])
      else if e.kind == "oci" && not (features oci_exporter)
      then throw (not_supported oci_exporter)
      else if e.kind == "docker"
      then docker_export e
      else if e.kind == "containerd"
      then throw (not_supported containerd_exporter)
      else if e.kind == "image" && not (is_pushing e)
      then image_export e
      else pure e

  pub set_up_exports : Options → List ExportEntry → Io Held (List ExportEntry)
  unfolding set_up_export
  set_up_exports opt [] = pure []
  set_up_exports opt (e ∷ es) = do
    e' ← set_up_export opt e
    es' ← set_up_exports opt es
    pure (e' ∷ es')

  -- The part before the exporters are set up, which holds nothing.
  pub prepare : Bool → Options → Result (List ExportEntry)
  unfolding check_image_id cache_to check_cache check_count resolve_runtime name_exports
  prepare multi_driver opt = and_then (check_image_id multi_driver opt) (λ u.
      and_then (check_cache (cache_to opt)) (λ v.
        and_then (check_count opt.exports)
          (λ w. and_then (map_results resolve_runtime opt.exports) (name_exports opt.tags))))

  -- `LoadInputs` on the directories that exist; its release function goes to `defers`.
  held_inputs :
      SolveOpt → Held → Result (Target × List String) × List String → Result SolveOpt × Held
  held_inputs so w (ok (t, ds), dirs) = (
    ok (record so { inputs = t }),
    record w { dirs = dirs; defers = w.defers ++ release_dirs ds ∷ [] },
  )
  held_inputs so w (err e, dirs) = (err e, record w { dirs = dirs })

  pub with_inputs : BuildInputs → SolveOpt → Io Held SolveOpt
  unfolding held_inputs
  with_inputs inp so w = held_inputs so w (load_inputs host inp so.inputs w.dirs)

  insert_all : String → Map String → Map String → Map String
  insert_all prefix [] m = m
  insert_all prefix ((k, v) ∷ kvs) m = insert_all prefix kvs (insert (prefix <> k) v m)

  pub set_attrs : Options → Map String → Map String
  unfolding insert_all
  set_attrs opt m =
      let pulled = if opt.pull then insert "image-resolve-mode" "pull" m else m in
      let targeted = if opt.target == "" then pulled else insert "target" opt.target pulled in
      let uncached = if opt.no_cache then insert "no-cache" "" targeted else targeted in
      insert_all "label:" opt.labels (insert_all "build-arg:" opt.build_args uncached)

  pub set_platforms : List String → Map String → Result (Map String)
  set_platforms [] m = ok m
  set_platforms (q ∷ qs) m =
      if ltb 1 (length (q ∷ qs)) && not (features multi_platform)
      then err (not_supported multi_platform)
      else ok (insert "platform" (join "," (q ∷ qs)) m)

  abbrev pub with_attrs : SolveOpt → Map String → SolveOpt
  with_attrs so m = record so { inputs = record so.inputs { frontend_attrs = m } }

  pub set_network : String → SolveOpt → Result SolveOpt
  set_network mode so =
      if mode == "host" || mode == "none"
      then ok (record (with_attrs so (insert "force-network-mode" mode so.inputs.frontend_attrs)) {
        allowed_entitlements = so.allowed_entitlements ++ network_host ∷ [];
      })
      else if mode == "" || mode == "default"
      then ok so
      else err (errorf "network mode %q not supported by buildkit" (mode ∷ []))

  pub set_hosts : List String → SolveOpt → Result SolveOpt
  set_hosts hosts so =
      and_then (to_buildkit_extra_hosts hosts)
        (λ text. ok (with_attrs so (insert "add-hosts" text so.inputs.frontend_attrs)))

  -- What stands behind `LoadInputs`.
  pub finish : Options → SolveOpt → Result SolveOpt
  unfolding set_attrs set_platforms set_network set_hosts
  finish opt so =
      and_then (set_platforms opt.platforms (set_attrs opt so.inputs.frontend_attrs))
        (λ m. and_then (set_network opt.network_mode (with_attrs so m)) (set_hosts opt.extra_hosts))

  pub solve : Bool → Options → Io Held SolveOpt
  unfolding prepare set_up_exports with_inputs finish initial
  solve multi_driver opt = do
    named ← lift (prepare multi_driver opt)
    exports ← set_up_exports opt named
    so ← with_inputs opt.inputs (record (initial multi_driver opt) { exports = exports })
    lift (finish opt so)

  -- The deferred function: an error runs `releaseF`; otherwise the caller gets it, as the list `defers`.
  released : Result SolveOpt × Held → Result (SolveOpt × List Defer) × Held
  unfolding run_defers
  released (ok so, w) = (ok (so, w.defers), w)
  released (err e, w) = (err e, run_defers w.defers w)

  unfoldable pub to_solve_opt : Bool → Options → Io Held (SolveOpt × List Defer)
  unfolding released solve
  to_solve_opt multi_driver opt w = released (solve multi_driver opt (record w { defers = [] }))
