-- ===== src/Examples/Solve.antt =====
-- The inputs of a build, its solve options and the choice of its drivers.
use mathlib.Core.List.{Perm}
use buildkit_cli_for_kubectl.Prelude.{
  Ensures, map, lookup, insert, ℕ, String, ◌≡◌, refl, true, false, none, some, List, [], ◌∷◌, Map,
  All, Result, ok, err, external, is_in,
}
use buildkit_cli_for_kubectl.Build.Inputs.{
  Host, BuildInputs, Target, load_inputs, create_temp_dockerfile,
}
use buildkit_cli_for_kubectl.Build.Inputs.Release.{RestoresInputs, load_inputs-release}
use buildkit_cli_for_kubectl.Build.Outputs.{ExportEntry}
use buildkit_cli_for_kubectl.Build.SolveOpt.{Services, Options, SolveOpt, Defer, Held, to_solve_opt}
use buildkit_cli_for_kubectl.Build.SolveOpt.Exports.{IsSupported}
use buildkit_cli_for_kubectl.Build.SolveOpt.Exports.Whole.{to_solve_opt-IsSupported}
use buildkit_cli_for_kubectl.Build.SolveOpt.Release.{IsReleased, to_solve_opt-IsReleased}
use buildkit_cli_for_kubectl.Build.Hosts.{to_buildkit_extra_hosts}
use buildkit_cli_for_kubectl.Text.Case.{parse_bool, parse_bool_or_false}
use buildkit_cli_for_kubectl.Text.Split.{join, split}
use buildkit_cli_for_kubectl.Platform.{Platforms}
use buildkit_cli_for_kubectl.Build.Drivers.Bounds.{IsIndex, available_from-IsIndex}
use buildkit_cli_for_kubectl.Build.Drivers.{
  DriverInfo, DriverPair, no_platforms, undetected, filter_available_drivers, resolve_drivers,
  driver_indexes, available_from, split_to_driver_pairs, all_pairs, split_platforms,
}
use buildkit_cli_for_kubectl.Build.Drivers.Pairs.{
  platforms_of, indexes_of, DistinctIndexes, IsOffered, split_platforms-Perm,
}
use buildkit_cli_for_kubectl.Build.Drivers.Booting.{
  Clients, ensure_booted, choose_drivers, is_known,
}
use buildkit_cli_for_kubectl.Build.Launch.{launch_build}
use buildkit_cli_for_kubectl.Build.Launch.Served.{HasJobClient, slot_of, slots, launch_build-served}
use buildkit_cli_for_kubectl.Build.MultiNode.{mark_exports, mark_nodes, to_repo_only}
use buildkit_cli_for_kubectl.Build.MultiNode.Settled.{mark_nodes-mark_exports}
use buildkit_cli_for_kubectl.Build.Orchestration.{Part, set_up, LeavesLoaders, set_up-LeavesLoaders}

-- A name that is longer by one character for each directory that exists.
abbrev fresh_name : String → List String → Result String
fresh_name pattern [] = ok "tmp"
fresh_name pattern (d ∷ w) = err (external "no space left on device")

-- A Dockerfile on the input stream, and room for one directory.
abbrev host : Host
host = record {
  is_local_dir = λ name. true;
  is_remote = λ name. false;
  is_tar = λ header. false;
  dir = λ name. ".";
  base = λ name. name;
  peek = ok [];
  upload_address = "http://upload";
  temp_dir = fresh_name;
  create_file = λ name. ok tt;
  copy_reader = ok tt;
}

host_fresh :
    (pattern d : String) (w : List String) → host.temp_dir pattern w ≡ ok d → is_in d w ≡ false
unfolding is_in
host_fresh pattern d [] h = refl
host_fresh pattern d (x ∷ w) h = absurd (cc)

no_empty : is_in "" [] ≡ false
unfolding is_in
no_empty = refl

abbrev inp : BuildInputs
inp = record { context_path = "src"; dockerfile_path = "-" }

abbrev target : Target
target = record { frontend_attrs = []; local_dirs = []; uploads = [] }

load_inputs-release_example : RestoresInputs [] (load_inputs host inp target [])
load_inputs-release_example = load_inputs-release host host_fresh [] no_empty inp target

abbrev services : Services
services = record {
  host = host;
  driver_name = "kubernetes";
  features = λ f. true;
  builder_nodes = ok (2 ∷ []);
  parse_reference = λ tag. ok tag;
  start_loader = ok tt;
  remove_file = λ name. ok tt;
  is_not_exist = λ e. false;
}

abbrev export : ExportEntry
export = record { kind = "runtime"; attrs = []; output = none; output_dir = "" }

abbrev opt : Options
opt = record {
  inputs = inp;
  tags = "app" ∷ [];
  labels = [];
  build_args = ("GO", "1.14") ∷ [];
  pull = true;
  image_id_file = "";
  extra_hosts = [];
  network_mode = "";
  no_cache = false;
  target = "";
  platforms = [];
  exports = export ∷ [];
  cache_from = [];
  cache_to = [];
  allow = [];
  frontend_image = "";
}

abbrev nothing_held : Held
nothing_held = record { dirs = []; loaders = 0; defers = [] }

to_solve_opt-IsReleased_example :
    IsReleased nothing_held (to_solve_opt services false opt nothing_held)
to_solve_opt-IsReleased_example =
    to_solve_opt-IsReleased services host_fresh false opt nothing_held no_empty

abbrev out_of : Result (SolveOpt × List Defer) → SolveOpt × List Defer
out_of (ok out) = out
out_of (err e) = (
  record {
    frontend = "";
    inputs = target;
    cache_exports = [];
    cache_imports = [];
    allowed_entitlements = [];
    exports = [];
  },
  [],
)

passes :
    (to_solve_opt services false opt nothing_held).0
    ≡ ok (out_of (to_solve_opt services false opt nothing_held).0)
unfolding to_solve_opt load_inputs create_temp_dockerfile parse_bool_or_false parse_bool
    to_buildkit_extra_hosts lookup insert join
passes = refl

to_solve_opt-IsSupported_example :
    All
      (IsSupported services opt)
      (out_of (to_solve_opt services false opt nothing_held).0).0.exports
to_solve_opt-IsSupported_example = to_solve_opt-IsSupported services false opt nothing_held passes

-- Platforms that are their own text.
abbrev texts : Platforms
texts = record {
  Platform = String;
  normalize = λ q. q;
  format = λ q. q;
  parse_spec = λ text. ok text;
  default_spec = "amd64";
}

abbrev available : Map ℕ
available = ("amd64", 0) ∷ ("arm64", 1) ∷ []

split_platforms-Perm_example :
    Perm
      (platforms_of texts (split_platforms texts available [] ("arm64" ∷ "amd64" ∷ [])))
      ("arm64" ∷ "amd64" ∷ [])
    × DistinctIndexes texts
        (indexes_of texts (split_platforms texts available [] ("arm64" ∷ "amd64" ∷ [])))
    × All (IsOffered texts available) (split_platforms texts available [] ("arm64" ∷ "amd64" ∷ []))
split_platforms-Perm_example = split_platforms-Perm texts available ("arm64" ∷ "amd64" ∷ [])

abbrev amd_driver : DriverInfo texts (Unit {0})
amd_driver = record { driver = some tt; name = "amd"; platforms = "amd64" ∷ []; error = none }

abbrev arm_driver : DriverInfo texts (Unit {0})
arm_driver = record { driver = some tt; name = "arm"; platforms = "arm64" ∷ []; error = none }

available_from-IsIndex_example : All (IsIndex texts 2) (
    all_pairs texts (
      split_to_driver_pairs texts
        (available_from texts 0 (amd_driver ∷ arm_driver ∷ []) [])
        (("default", "arm64" ∷ "amd64" ∷ []) ∷ [])))
available_from-IsIndex_example =
    available_from-IsIndex texts amd_driver (arm_driver ∷ [])
      (("default", "arm64" ∷ "amd64" ∷ []) ∷ [])

-- A parser that completes no name
abbrev parsed_name : String → Result String
parsed_name text = ok text

-- Each driver boots with a client on its only node.
abbrev boot_node : Unit {0} → Result (String × ℕ)
boot_node d = ok ("node", 7)

abbrev no_workers : Clients texts boot_node [] → Result (List (List String))
no_workers clients = ok []

abbrev asked : Map (List String)
asked = ("default", "arm64" ∷ "amd64" ∷ []) ∷ []

abbrev two_drivers : List (DriverInfo texts (Unit {0}))
two_drivers = amd_driver ∷ arm_driver ∷ []

abbrev two_pairs : Map (List (DriverPair texts))
two_pairs =
    (
      "default",
      record { driver_index = 1; platforms = "arm64" ∷ [] }
          ∷ record { driver_index = 0; platforms = "amd64" ∷ [] }
          ∷ [],
    )
    ∷ []

abbrev booted : Map (Map ℕ)
booted = ("arm", ("node", 7) ∷ []) ∷ ("amd", ("node", 7) ∷ []) ∷ []

drivers_chosen :
    choose_drivers texts boot_node no_workers two_drivers asked
    ≡ ok (two_drivers, two_pairs, booted)
unfolding choose_drivers filter_available_drivers resolve_drivers lookup insert ensure_booted
    driver_indexes split_to_driver_pairs
drivers_chosen = refl

all_known : is_known texts boot_node no_workers asked two_drivers ≡ true
unfolding is_known no_platforms undetected available_from lookup insert
all_known = refl

abbrev one_target : Map (List ExportEntry)
one_target = ("default", []) ∷ []

launch_build-served_example :
    All HasJobClient
      (launch_build texts boot_node no_workers parsed_name two_drivers asked one_target []).1
    × Ensures
        (λ names.
          map slot_of
            (launch_build texts boot_node no_workers parsed_name two_drivers asked one_target []).1
          ≡ slots texts two_pairs one_target)
        (launch_build texts boot_node no_workers parsed_name two_drivers asked one_target []).0
launch_build-served_example =
    launch_build-served texts boot_node no_workers parsed_name two_drivers asked one_target
      two_drivers two_pairs booted drivers_chosen all_known

abbrev parts : List Part
parts =
    record { is_first = true; services = services; multi_driver = true; options = opt }
    ∷ record { is_first = false; services = services; multi_driver = true; options = opt }
    ∷ []

set_up-LeavesLoaders_example : LeavesLoaders nothing_held (set_up parts nothing_held)
set_up-LeavesLoaders_example = set_up-LeavesLoaders parts nothing_held

abbrev pushed : List ExportEntry
pushed =
    record {
      kind = "image";
      attrs = ("name", "a,b,a") ∷ ("push", "true") ∷ [];
      output = none;
      output_dir = "";
    }
    ∷ []

mark_exports_test :
    mark_exports parsed_name "" pushed
    ≡ ok (
      "a,b,a",
      record {
        kind = "image";
        attrs = ("name", "a,b") ∷ ("push", "true") ∷ ("push-by-digest", "true") ∷ [];
        output = none;
        output_dir = "";
      }
          ∷ [],
    )
unfolding mark_exports lookup insert parse_bool_or_false parse_bool join split to_repo_only
mark_exports_test = refl

mark_nodes-mark_exports_example :
    mark_nodes parsed_name 3 "" pushed ≡ mark_exports parsed_name "" pushed
mark_nodes-mark_exports_example = mark_nodes-mark_exports parsed_name 2 "" pushed
