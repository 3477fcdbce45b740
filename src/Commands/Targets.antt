-- ===== src/Commands/Targets.antt =====
-- `buildTargets` of pkg/cmd/build.go up to the goroutines of `Build`, and the mode that `NewPrinter` of
-- pkg/progress/printer.go settles on.
use buildkit_cli_for_kubectl.Prelude.{
  String, Bool, not, ◌&&◌, ◌||◌, Option, none, some, List, [], ◌∷◌, Map, Result, ◌>>=◌,
  if◌then◌else◌, ◌==◌,
}
use buildkit_cli_for_kubectl.Platform.{Platforms}
use buildkit_cli_for_kubectl.Driver.{Factory, get_driver}
use buildkit_cli_for_kubectl.Build.Drivers.{DriverInfo}
use buildkit_cli_for_kubectl.Build.Drivers.Booting.{Clients, Choice, choose_drivers}
use buildkit_cli_for_kubectl.Commands.Maps.{build_driver_opts}

-- The configuration of the driver: its name, its options and `ContextPathHash`
pub record TargetConfig : Type 0 where
  pub name : String
  pub driver_opts : Map String
  pub context_path_hash : String

module _ (env : String → Option String) (p : Platforms) {D C : Type 0}
    (new : Factory → TargetConfig → Result D) (boot : D → Result (String × C))
    (list_workers : Clients p boot [] → Result (List (List p.Platform))) where
  config_of : String → String → TargetConfig
  config_of instance_name hash = record {
    name = if instance_name == "" then "buildkit" else instance_name;
    driver_opts = build_driver_opts env;
    context_path_hash = hash;
  }

  info_of : String → D → List (DriverInfo p D)
  info_of name d = record { driver = some d; name = name; platforms = []; error = none } ∷ []

  -- The driver of the builder, with the pairs and the clients that the targets are solved with
  unfoldable pub build_targets :
      Map Factory → Map (List p.Platform) → String → String → Result (Choice p boot list_workers)
  unfolding config_of info_of
  build_targets drivers opts hash instance_name =
      let cfg = config_of instance_name hash in
      get_driver new none cfg drivers >>= λ d.
      choose_drivers p boot list_workers (info_of cfg.name d) opts

-- `NewPrinter`: the mode, with the variable `BUILDKIT_PROGRESS`, and whether the console is drawn on
unfoldable pub mode_of : String → String → String
mode_of variable mode = if not (variable == "") && mode == "auto" then variable else mode

unfoldable pub draws_on_console : Bool → String → Bool
draws_on_console is_console mode = is_console && (mode == "auto" || mode == "tty")
