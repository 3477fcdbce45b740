-- ===== src/Commands/Context.antt =====
-- `Complete` and `Validate` of `commonKubeOptions` in pkg/cmd/build.go, and `ExactArgs` of pkg/cmd/utils.go. The
-- flags and the configuration file are parameters.
use buildkit_cli_for_kubectl.Prelude.{
  ℕ, String, Option, none, some, List, [], ◌∷◌, length, Map, lookup, Result, ok, err, Error, errorf,
  ◌>>=◌, if◌then◌else◌, ◌==◌, nat_eq, fail_if,
}

-- `api.Context`, as far as the code sets it
pub record Context : Type 0 where
  pub cluster : String
  pub auth_info : String
  pub namespace : String

pub record RawConfig : Type 0 where
  pub current_context : String
  pub contexts : Map Context

-- What the flags answer
pub record Flags : Type 0 where
  pub raw_config : Result RawConfig
  pub namespace : Result String
  pub context : Result String
  pub cluster : Result String
  pub user : Result String

abbrev pub no_context : Error
no_context =
    errorf "no context is currently set, use %q to select a new one"
      ("kubectl config use-context <context>" ∷ [])

-- A value that the user gives in place of another; the empty text is none.
unfoldable pub or_given : String → String → String
or_given before given = if given == "" then before else given

-- The context that the user names, if there is one, else the cluster and the user of the current one
reference : RawConfig → String → Context → Context
reference raw name current = elim (if name == "" then none else lookup name raw.contexts) [
  | some c ↦ c
  | none ↦ record { cluster = current.cluster; auth_info = current.auth_info; namespace = "" }
]

override : String → String → String → Context → Context
unfolding or_given
override namespace cluster user c = record {
  cluster = or_given c.cluster cluster;
  auth_info = or_given c.auth_info user;
  namespace = namespace;
}

current_of : RawConfig → Result Context
current_of raw = elim (lookup raw.current_context raw.contexts) [
  | none ↦ err no_context
  | some c ↦ ok c
]

resulting : Flags → RawConfig → String → Result (Option Context)
unfolding reference override current_of
resulting fl raw namespace = do
  context ← fl.context
  cluster ← fl.cluster
  user ← fl.user
  current ← current_of raw
  ok (some (override namespace cluster user (reference raw context current)))

with_namespace : Flags → RawConfig → String → Result (Option Context)
unfolding resulting
with_namespace fl raw namespace = if namespace == "" then ok none else resulting fl raw namespace

-- `Complete`: the resulting context, if there is one, beside the configuration that was read
unfoldable pub complete : Flags → Result (RawConfig × Option Context)
unfolding with_namespace
complete fl = do
  raw ← fl.raw_config
  namespace ← fl.namespace
  c ← with_namespace fl raw namespace
  ok (raw, c)

-- `Validate`
unfoldable pub validate : RawConfig → Result (Unit {0})
validate raw = fail_if (raw.current_context == "") no_context

-- What a command does before it runs
unfoldable pub prepare : Flags → Result (Option Context)
unfolding complete validate
prepare fl = do r ← complete fl; _ ← validate r.0; ok r.1

-- `ExactArgs`
unfoldable pub exact_args : ℕ → (List String → List String) → List String → Result (Unit {0})
exact_args count usage args =
    if nat_eq (length args) count
    then ok tt
    else err
        (errorf "%q requires exactly %d %s.\nSee '%s --help'.\n\nUsage:  %s\n\n%s" (usage args))
