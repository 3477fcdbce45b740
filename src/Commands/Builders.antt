-- ===== src/Commands/Builders.antt =====
-- `runRm` of pkg/cmd/rm.go, `runLs` of pkg/cmd/ls.go and `getBuilderVersion` of pkg/cmd/version.go, over the
-- registry of drivers. What a driver does is a parameter.
pub mod Removal
use buildkit_cli_for_kubectl.Prelude.{
  String, Bool, Option, none, some, List, [], ◌∷◌, ◌++◌, map, Map, Result, ok, err, Error,
  if◌then◌else◌, ◌==◌,
}
use buildkit_cli_for_kubectl.Prelude.Io.{Io, pure, lift, ◌>>=◌}
use buildkit_cli_for_kubectl.Text.Split.{join}
use buildkit_cli_for_kubectl.Platform.{Platforms, format_in_groups}
use buildkit_cli_for_kubectl.Driver.{Factory, get_driver}
use buildkit_cli_for_kubectl.Kubernetes.Operations.{Builder, Node}

-- A driver is made for a name; all else of its configuration is empty here.
pub record Drivers : Type 1 where
  pub World : Type 0
  pub Driver : Type 0
  pub new : Factory → String → Result Driver
  pub list : Driver → Io World (List Builder)
  pub rm : Driver → Io World (Unit {0})
  pub get_version : Driver → Io World String
  pub driver_name : Builder → String
  pub platforms : Platforms
  pub platforms_of : Node → List platforms.Platform
  pub error_text : Error → String

module _ (api : Drivers) where
  open api use {
    World, Driver, new, list, rm, get_version, driver_name, platforms, platforms_of, error_text,
  }

  -- The driver of that name, made by the factory that is given or by the default one
  driver_for : Option Factory → Map Factory → String → Result Driver
  driver_for f drivers name = get_driver new f name drivers

  remove_one : Factory → Map Factory → String → Io World (Unit {0})
  unfolding driver_for
  remove_one f drivers name = do d ← lift (driver_for (some f) drivers name); rm d

  -- The names to delete, compared with one builder
  remove_named : Factory → Map Factory → String → List String → Io World (Unit {0})
  unfolding remove_one
  remove_named f drivers name [] = pure tt
  remove_named f drivers name (n ∷ ns) = do
    _ ← (if name == n then remove_one f drivers n else pure tt)
    remove_named f drivers name ns

  remove_builders : Factory → Map Factory → List String → List Builder → Io World (Unit {0})
  unfolding remove_named
  remove_builders f drivers names [] = pure tt
  remove_builders f drivers names (b ∷ bs) = do
    _ ← remove_named f drivers b.name names
    remove_builders f drivers names bs

  remove_from : Map Factory → List String → Map Factory → Io World (Unit {0})
  unfolding remove_builders driver_for
  remove_from drivers names [] = pure tt
  remove_from drivers names ((k, f) ∷ m) = do
    d ← lift (driver_for (some f) drivers k)
    builders ← list d
    _ ← remove_builders f drivers names builders
    remove_from drivers names m

  -- `runRm`
  unfoldable pub run_rm : Map Factory → List String → Io World (Unit {0})
  unfolding remove_from
  run_rm drivers names = remove_from drivers names drivers

  collect_from : Map Factory → Map Factory → Io World (List Builder)
  unfolding driver_for
  collect_from drivers [] = pure []
  collect_from drivers ((k, f) ∷ m) = do
    d ← lift (driver_for (some f) drivers k)
    builders ← list d
    rest ← collect_from drivers m
    pure (builders ++ rest)

  -- The fields of a row of the table
  row : Builder → Node → List String
  row b n =
      b.name
      ∷ n.name
      ∷ driver_name b
      ∷ n.status
      ∷ join ", " (format_in_groups platforms (platforms_of n ∷ []))
      ∷ []

  rows_of : List Builder → List (List String)
  unfolding row
  rows_of [] = []
  rows_of (b ∷ bs) = map (row b) b.nodes ++ rows_of bs

  -- `runLs`: the rows below the head of the table
  unfoldable pub run_ls : Map Factory → Io World (List (List String))
  unfolding collect_from rows_of
  run_ls drivers = do builders ← collect_from drivers drivers; pure (rows_of builders)

  text_of : Result String × World → String × World
  text_of (ok version, w) = (version, w)
  text_of (err e, w) = (error_text e, w)

  version_of : Result Driver → World → String × World
  unfolding text_of
  version_of (ok d) w = text_of (get_version d w)
  version_of (err e) w = (error_text e, w)

  -- `getBuilderVersion`, which answers with the text of an error in place of a version
  unfoldable pub get_builder_version : Map Factory → String → World → String × World
  unfolding version_of driver_for
  get_builder_version drivers builder w =
      version_of (driver_for none drivers (if builder == "" then "buildkit" else builder)) w
