-- ===== src/Commands/Maps/Proxies.antt =====
-- The proxies of the caller's environment reach the environment of the builder through the option `env`.
use buildkit_cli_for_kubectl.Prelude.{
  String, ◌<>◌, ◌≡◌, refl, subst, ap, ◌∙◌, Bool, true, false, ◌||◌, Option, none, some, List, [],
  ◌∷◌, Map, lookup, lookup_or, insert, lookup-insert, if◌then◌else◌, ◌==◌, arith, All, is_in,
  eq_of_text,
}
use buildkit_cli_for_kubectl.Text.Split.{cut, split, join, split-join, Lacks, has_code}
use buildkit_cli_for_kubectl.Text.Fields.{cut-key_value, has_code-append}
use buildkit_cli_for_kubectl.Kubernetes.Config.{set_env, set_envs}
use buildkit_cli_for_kubectl.Commands.Maps.{set_envs_of, add_env, proxy_names, build_driver_opts}

-- What stands for a name in the end
abbrev or_found : Option String → Option String → Option String
or_found none found = found
or_found (some v) found = some v

unset_found :
    (b c : Bool) (o found : Option String)
    → (b ≡ true → o ≡ none)
    → (if c then or_found o found else found) ≡ (if b || c then or_found o found else found)
unset_found true true o found h = refl
unset_found true false o found h = rw (h refl) refl
unset_found false c o found h = refl

set_found :
    (b c : Bool) (o found : Option String) (v : String)
    → (b ≡ true → o ≡ some v)
    → (if c then or_found o (if b then some v else found) else (if b then some v else found))
      ≡ (if b || c then or_found o found else found)
set_found true true o found v h = rw (h refl) refl
set_found true false o found v h = rw (h refl) refl
set_found false c o found v h = refl

found_alone :
    (c : Bool) (o : Option String) → (if c then or_found o none else none) ≡ (if c then o else none)
found_alone true none = refl
found_alone true (some v) = refl
found_alone false o = refl

lookup-set_envs_of :
    (env : String → Option String) (k : String) (names : List String) (m : Map String)
    → All (Lacks b'=') names
    → lookup k (set_envs (set_envs_of env names) m)
      ≡ (if is_in k names then or_found (env k) (lookup k m) else lookup k m)
unfolding set_envs set_env set_envs_of is_in add_env
lookup-set_envs_of env k [] m h = refl
lookup-set_envs_of env k (name ∷ names) m h =
    go (λ n. lookup-set_envs_of env k names n h.1) (env name) refl
  where
    is_name : (o : Option String) → env name ≡ o → (name == k) ≡ true → env k ≡ o
    is_name o e same = subst (λ x. env x ≡ o) (eq_of_text name k same) e

    go :
        ((n : Map String)
          → lookup k (set_envs (set_envs_of env names) n)
            ≡ (if is_in k names then or_found (env k) (lookup k n) else lookup k n))
        → (o : Option String) → env name ≡ o
        → lookup k (set_envs (add_env name o (set_envs_of env names)) m)
          ≡ (if name == k || is_in k names then or_found (env k) (lookup k m) else lookup k m)
    go rest none e =
        rest m ∙ unset_found (name == k) (is_in k names) (env k) (lookup k m) (is_name none e)
    go rest (some v) e =
        ap (λ p. lookup k (set_envs (set_envs_of env names) (set_env p m)))
          (cut-key_value name v h.0)
        ∙ rest (insert name v m)
        ∙ rw (lookup-insert name k v m)
            (set_found (name == k) (is_in k names) (env k) (lookup k m) v (is_name (some v) e))

-- Splitting at the semicolons gives the settings back, and without a setting there is none.
pub set_envs-split :
    (es : List String) (m : Map String)
    → All (Lacks b';') es
    → set_envs (split b';' (join ";" es)) m ≡ set_envs es m
unfolding set_envs join split cut set_env
set_envs-split [] m h = refl
set_envs-split (e ∷ es) m h = rw (split-join ";" (e ∷ es) (λ p. absurd (cc)) h) refl

no_semicolon : has_code b';' "=" ≡ false
unfolding has_code
no_semicolon = refl

set_envs_of-Lacks :
    (env : String → Option String) (names : List String)
    → All (Lacks b';') names
    → ((name v : String) → env name ≡ some v → Lacks b';' v)
    → All (Lacks b';') (set_envs_of env names)
unfolding set_envs_of add_env
set_envs_of-Lacks env [] h k = tt
set_envs_of-Lacks env (name ∷ names) h k = go (set_envs_of-Lacks env names h.1 k) (env name) refl
  where
    go :
        All (Lacks b';') (set_envs_of env names)
        → (o : Option String) → env name ≡ o
        → All (Lacks b';') (add_env name o (set_envs_of env names))
    go rest none e = rest
    go rest (some v) e = (
      ground (
        arith,
        has_code-append b';' name ("=" <> v),
        has_code-append b';' "=" v,
        k name v e,
        h.0,
        no_semicolon,
      ),
      rest,
    )

proxy_names-Lacks : All (Lacks b';') proxy_names × All (Lacks b'=') proxy_names
unfolding has_code
proxy_names-Lacks = (
  (refl, (refl, (refl, (refl, (refl, (refl, tt)))))),
  (refl, (refl, (refl, (refl, (refl, (refl, tt)))))),
)

-- Where no value in the caller's environment holds a semicolon, the environment that the builder gets from
-- the driver options of a build has the proxy settings that are set in the caller's, with their values, and
-- nothing else.
pub build_driver_opts-set_envs :
    (env : String → Option String) (k : String)
    → ((name v : String) → env name ≡ some v → Lacks b';' v)
    → lookup k (set_envs (split b';' (lookup_or "" "env" (build_driver_opts env))) [])
      ≡ (if is_in k proxy_names then env k else none)
unfolding build_driver_opts lookup
build_driver_opts-set_envs env k h =
    rw
      (set_envs-split (set_envs_of env proxy_names) []
        (set_envs_of-Lacks env proxy_names proxy_names-Lacks.0 h))
      (lookup-set_envs_of env k proxy_names [] proxy_names-Lacks.1
        ∙ found_alone (is_in k proxy_names) (env k))
