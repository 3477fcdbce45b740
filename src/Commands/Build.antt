-- ===== src/Commands/Build.antt =====
-- `runBuild` of pkg/cmd/build.go: the flags of a build become its options. `BuildApi` stands for what the
-- calls of other libraries answer.
pub mod Exports
pub mod Defaults
use buildkit_cli_for_kubectl.Prelude.{
  String, ◌≡◌, refl, Bool, true, false, not, ◌&&◌, ◌||◌, Option, none, some, List, [], ◌∷◌, map,
  Map, insert, lookup, lookup-insert, Result, ok, err, Error, errorf, if◌then◌else◌, ◌==◌, Ensures,
  fail_if, Bool-cases, inl, inr, eq_of_text, eq_refl, ◌>>=◌ as and_then,
}
use buildkit_cli_for_kubectl.Prelude.Io.{Io}
use buildkit_cli_for_kubectl.Platform.{Platforms, parse, format_all}
use buildkit_cli_for_kubectl.Build.Cache.{parse_cache_entry}
use buildkit_cli_for_kubectl.Build.Entitlements.{parse_entitlements}
use buildkit_cli_for_kubectl.Build.Secrets.{Source, parse_secret_specs}
use buildkit_cli_for_kubectl.Build.Ssh.{AgentConfig, parse_ssh_specs}
use buildkit_cli_for_kubectl.Build.Outputs.{Os, ExportEntry, new_entry, parse_outputs}
use buildkit_cli_for_kubectl.Build.SolveOpt.{Options}
use buildkit_cli_for_kubectl.Commands.Maps.{list_to_map}

-- `buildOptions`; `no_cache` and `pull` can be nil.
pub record BuildOptions : Type 0 where
  pub context_path : String
  pub dockerfile_name : String
  pub tags : List String
  pub labels : List String
  pub build_args : List String
  pub cache_from : List String
  pub cache_to : List String
  pub target : String
  pub platforms : List String
  pub secrets : List String
  pub ssh : List String
  pub outputs : List String
  pub image_id_file : String
  pub extra_hosts : List String
  pub network_mode : String
  pub squash : Bool
  pub quiet : Bool
  pub allow : List String
  pub frontend : String
  pub no_cache : Option Bool
  pub pull : Option Bool
  pub export_push : Bool
  pub export_load : Bool

flag_or_false : Option Bool → Bool
flag_or_false none = false
flag_or_false (some b) = b

push_attr : ExportEntry → ExportEntry
push_attr e = record e { attrs = insert "push" "true" e.attrs }

-- `if in.exportPush`
push_outputs : Bool → List ExportEntry → Result (List ExportEntry)
unfolding push_attr
push_outputs load [] =
    if load
    then err (errorf "push and load may not be set together at the moment" [])
    else ok (new_entry "image" (("push", "true") ∷ []) ∷ [])
push_outputs load (e ∷ es) =
    if load
    then err (errorf "push and load may not be set together at the moment" [])
    else if e.kind == "image"
    then ok (push_attr e ∷ es)
    else err (errorf "push and %q output can't be used together" (e.kind ∷ []))

-- `if in.exportLoad`
load_outputs : List ExportEntry → Result (List ExportEntry)
load_outputs [] = ok (new_entry "runtime" [] ∷ [])
load_outputs (e ∷ es) =
    if e.kind == "containerd" || e.kind == "docker"
    then ok (e ∷ es)
    else err (errorf "load and %q output can't be used together" (e.kind ∷ []))

unfoldable pub choose_exports : Bool → Bool → List ExportEntry → Result (List ExportEntry)
unfolding push_outputs load_outputs
choose_exports true load es = push_outputs load es
choose_exports false true es = load_outputs es
choose_exports false false es = ok es

-- The files of `--output`, the environment, the platforms, and the constructors of the session's providers
pub record BuildApi : Type 1 where
  pub os : Os
  pub env : String → Option String
  pub platforms : Platforms
  pub Store : Type 0
  pub Provider : Type 0
  pub new_store : List Source → Result Store
  pub new_ssh_agent_provider : List AgentConfig → Result Provider

module _ (api : BuildApi) where
  open api use {os, env, Store, Provider, new_store, new_ssh_agent_provider}

  -- What `runBuild` hands to `buildTargets`: the options, with the two providers of the session
  pub record Request : Type 0 where
    pub options : Options
    pub secrets : Store
    pub ssh : Provider

  record Parsed : Type 0 where
    platforms : List String
    secrets : Store
    ssh : Provider

  -- Up to the session's providers
  parsed : BuildOptions → Result Parsed
  parsed o = and_then (fail_if o.squash (errorf "squash currently not implemented" [])) (λ u.
      and_then (fail_if o.quiet (errorf "quiet currently not implemented" [])) (λ v.
        and_then (parse api.platforms o.platforms) (λ qs.
          and_then (parse_secret_specs new_store o.secrets) (λ secrets.
            and_then (parse_ssh_specs new_ssh_agent_provider o.ssh) (λ ssh. ok (record {
              platforms = format_all api.platforms qs;
              secrets = secrets;
              ssh = ssh;
            }))))))

  -- The rest, from the exports on
  finished : BuildOptions → Parsed → List ExportEntry → Result Request
  unfolding flag_or_false
  finished o p exports = and_then (parse_cache_entry o.cache_from) (λ cache_from.
      and_then (parse_cache_entry o.cache_to) (λ cache_to.
        and_then (parse_entitlements o.allow) (λ allow. ok (record {
          options = record {
            inputs = record { context_path = o.context_path; dockerfile_path = o.dockerfile_name };
            tags = o.tags;
            labels = list_to_map env o.labels false;
            build_args = list_to_map env o.build_args true;
            pull = flag_or_false o.pull;
            image_id_file = o.image_id_file;
            extra_hosts = o.extra_hosts;
            network_mode = o.network_mode;
            no_cache = flag_or_false o.no_cache;
            target = o.target;
            platforms = p.platforms;
            exports = exports;
            cache_from = cache_from;
            cache_to = cache_to;
            allow = allow;
            frontend_image = o.frontend;
          };
          secrets = p.secrets;
          ssh = p.ssh;
        }))))

  with_outputs : BuildOptions → Parsed → Result (List ExportEntry) → Result Request
  unfolding choose_exports finished
  with_outputs o p outputs =
      and_then outputs
        (λ es. and_then (choose_exports o.export_push o.export_load es) (finished o p))

  with_parsed : BuildOptions → Result Parsed → Io os.World Request
  unfolding with_outputs
  with_parsed o (err e) w = (err e, w)
  with_parsed o (ok p) w =
      let (outputs, v) = parse_outputs os o.outputs w in (with_outputs o p outputs, v)

  -- Up to the call of `buildTargets`
  unfoldable pub build_request : BuildOptions → Io os.World Request
  unfolding parsed with_parsed
  build_request o = with_parsed o (parsed o)
