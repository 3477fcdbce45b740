-- ===== src/Commands/Maps.antt =====
-- `listToMap` and the proxy settings of `buildTargets` in pkg/cmd/build.go. `env` is `os.LookupEnv`.
pub mod Proxies
use buildkit_cli_for_kubectl.Prelude.{
  String, ◌<>◌, ◌≡◌, refl, sym, ap, ◌∙◌, Bool, true, false, ◌||◌, Option, none, some, List, [], ◌∷◌,
  Map, lookup, insert, lookup-insert, if◌then◌else◌, ◌==◌, arith, eq_iff, All, is_in, Distinct, ◌≢◌,
  map, Option-cases, Bool-cases, inl, inr,
}
use buildkit_cli_for_kubectl.Text.Split.{cut, split, join, split-join, Lacks, has_code}
use buildkit_cli_for_kubectl.Text.Fields.{key_value, cut-key_value}
use buildkit_cli_for_kubectl.Kubernetes.Config.{set_env, set_envs}

-- One value: its name and text; `none` where nothing is set.
abbrev env_setting : String → Option String → Option (String × String)
env_setting name none = none
env_setting name (some v) = some (name, v)

setting_parts :
    (String → Option String) → Bool → String → Option (String × String) → Option (String × String)
setting_parts env default_env value (some kv) = some kv
setting_parts env default_env value none =
    if default_env then env_setting value (env value) else some (value, "")

unfoldable pub setting : (String → Option String) → Bool → String → Option (String × String)
unfolding setting_parts
setting env default_env value = setting_parts env default_env value (cut b'=' value)

abbrev put : Option (String × String) → Map String → Map String
put none m = m
put (some (k, v)) m = insert k v m

-- The loop of `listToMap` from the map that it has filled up to then
from_map : (String → Option String) → Bool → List String → Map String → Map String
unfolding setting
from_map env default_env [] m = m
from_map env default_env (value ∷ values) m =
    from_map env default_env values (put (setting env default_env value) m)

unfoldable pub list_to_map : (String → Option String) → List String → Bool → Map String
unfolding from_map
list_to_map env values default_env = from_map env default_env values []

-- The setting that counts for a name: the last one with it
abbrev chosen : String → Option (String × String) → Option String → Option String
chosen k none found = found
chosen k (some (j, v)) found = if j == k then some v else found

pub last_setting :
    (String → Option String) → Bool → String → List String → Option String → Option String
last_setting env default_env k [] found = found
last_setting env default_env k (value ∷ values) found =
    last_setting env default_env k values (chosen k (setting env default_env value) found)

lookup-put :
    (k : String) (s : Option (String × String)) (m : Map String)
    → lookup k (put s m) ≡ chosen k s (lookup k m)
lookup-put k none m = refl
lookup-put k (some (j, v)) m = lookup-insert j k v m

lookup-from_map :
    (env : String → Option String) (default_env : Bool) (k : String) (values : List String)
    (m : Map String)
    → lookup k (from_map env default_env values m)
      ≡ last_setting env default_env k values (lookup k m)
unfolding from_map last_setting
lookup-from_map env default_env k [] m = refl
lookup-from_map env default_env k (value ∷ values) m =
    lookup-from_map env default_env k values (put (setting env default_env value) m)
    ∙ ap (last_setting env default_env k values) (lookup-put k (setting env default_env value) m)

-- A key of the map that `listToMap` makes has the value of the last setting with this name, and no other
-- name is a key.
pub list_to_map-last_setting :
    (env : String → Option String) (default_env : Bool) (k : String) (values : List String)
    → lookup k (list_to_map env values default_env) ≡ last_setting env default_env k values none
unfolding list_to_map lookup
list_to_map-last_setting env default_env k values = lookup-from_map env default_env k values []

abbrev pub proxy_names : List String
proxy_names =
    "http_proxy" ∷ "https_proxy" ∷ "no_proxy" ∷ "HTTP_PROXY" ∷ "HTTPS_PROXY" ∷ "NO_PROXY" ∷ []

add_env : String → Option String → List String → List String
add_env name none envs = envs
add_env name (some v) envs = (name <> ("=" <> v)) ∷ envs

-- The loop over the names
unfoldable pub set_envs_of : (String → Option String) → List String → List String
unfolding add_env
set_envs_of env [] = []
set_envs_of env (name ∷ names) = add_env name (env name) (set_envs_of env names)

-- The driver options of a build
unfoldable pub build_driver_opts : (String → Option String) → Map String
unfolding set_envs_of
build_driver_opts env = ("env", join ";" (set_envs_of env proxy_names)) ∷ []
