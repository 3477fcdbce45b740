-- ===== src/Commands/Creation.antt =====
-- `runCreate` of pkg/cmd/create.go, from the flags to the driver that boots.
use buildkit_cli_for_kubectl.Prelude.{
  String, true, Option, none, some, List, [], ◌∷◌, Map, Result, ok, err, errorf, wrapf,
  if◌then◌else◌, ◌==◌,
}
use buildkit_cli_for_kubectl.Prelude.Io.{Io, throw, lift, ◌>>=◌}
use buildkit_cli_for_kubectl.Text.Number.{ℤ}
use buildkit_cli_for_kubectl.Driver.{Factory, get_factory, get_driver}
use buildkit_cli_for_kubectl.Kubernetes.Config.{InitConfig}
use buildkit_cli_for_kubectl.Commands.Create.{CreateOptions, create_opts}

-- The parser of the daemon's flags, and the drivers that a factory makes, which boot in one world
pub record Creator : Type 1 where
  pub World : Type 0
  pub Driver : Type 0
  pub itoa : ℤ → String
  pub split_flags : String → Result (List String)
  pub new : Factory → InitConfig → Result Driver
  pub boot : Driver → Io World (Unit {0})

module _ (api : Creator) where
  open api use {World, Driver, itoa, split_flags, new, boot}

  found : String → Result (Option Factory) → Result Factory
  found driver (ok (some f)) = ok f
  found driver (ok none) = err (errorf "failed to find driver %q" (driver ∷ []))
  found driver (err e) = err e

  wrap_flags : Result (List String) → Result (List String)
  wrap_flags (ok flags) = ok flags
  wrap_flags (err e) = err (wrapf e "failed to parse buildkit flags" [])

  flags_of : String → Result (List String)
  unfolding wrap_flags
  flags_of text = if text == "" then ok [] else wrap_flags (split_flags text)

  config_of : CreateOptions → String → List String → InitConfig
  unfolding create_opts
  config_of o config_file flags = record {
    name = o.name;
    buildkit_flags = flags;
    config_file = config_file;
    driver_opts = create_opts itoa o;
  }

  make_and_boot : Map Factory → CreateOptions → String → String → String → Io World (Unit {0})
  unfolding found flags_of config_of
  make_and_boot drivers o driver flags config_file = do
    f ← lift (found driver (get_factory "kubernetes" true drivers))
    fs ← lift (flags_of flags)
    d ← lift (get_driver new (some f) (config_of o config_file fs) drivers)
    boot d

  -- The options, with the flags `--driver`, `--buildkitd-flags` and `--config`
  unfoldable pub run_create :
      Map Factory → CreateOptions → String → String → String → Io World (Unit {0})
  unfolding make_and_boot
  run_create drivers o driver flags config_file =
      if o.name == "default"
      then throw
          (errorf "default is a reserved name and cannot be used to identify builder instance" [])
      else make_and_boot drivers o driver flags config_file
