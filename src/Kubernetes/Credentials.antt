-- ===== src/Kubernetes/Credentials.antt =====
-- pkg/driver/kubernetes/authprovider.go: the credentials that a build's session asks for, from a
-- Kubernetes secret. `SecretApi` stands for the cluster's secrets, Go's JSON and its base64. A byte is the
-- character with its code, as in the rest of the development.
pub mod Decoding
pub mod Answers
use Prim.Native.Char.{code}
use Prim.Native.String.{◌∷◌ as consS, [] as nilS}
use buildkit_cli_for_kubectl.Prelude.{
  ℕ, zero, suc, ◌*◌, ◌-◌, String, ◌<>◌, Bool, ◌&&◌, ◌||◌, not, Option, none, some, List, [], ◌∷◌,
  Map, lookup, Result, ok, err, Error, errorf, wrapf, if◌then◌else◌, ◌==◌, ltb, nat_eq,
}
use buildkit_cli_for_kubectl.Images.Push.{AuthConfig, auth_host}
use buildkit_cli_for_kubectl.Kubernetes.Config.{buildx_name_to_deployment_name}
use buildkit_cli_for_kubectl.Kubernetes.Credentials.Decoding.{Base64, decode_auth}

-- `creds`
pub record Creds : Type 0 where
  pub username : String
  pub password : String
  pub auth : String
  pub identity_token : String

-- `auth.CredentialsResponse`
pub record Response : Type 0 where
  pub username : String
  pub secret : String

-- What `Get` answers.
pub data Fetched : Type 0 where
  found : Map String → Fetched
  missing refused : Error → Fetched

pub record SecretApi : Type 1 where
  pub World : Type 0
  pub get : String → World → Fetched × World
  pub error_text : Error → String
  pub unmarshal : String → Result (Map Creds)
  pub base64 : Base64

-- `authProvider` with the hint of its driver; the secret is what `Data` holds.
pub record Provider : Type 0 where
  pub name : String
  pub secret : Option (Map String)
  pub auth_hint_message : String

-- `GetAuthProvider` and `GetAuthWrapper`, from the name of the driver's builder
unfoldable pub get_auth_provider : String → String → Provider
get_auth_provider builder secret_name = record {
  name = if secret_name == "" then buildx_name_to_deployment_name builder else secret_name;
  secret = none;
  auth_hint_message = "";
}

-- `GetAuthConfig`
unfoldable pub get_auth_config : String → Result AuthConfig
get_auth_config host = err (errorf "GetAuthConfig not yet implemented for kube secrets" [])

not_found_hint : String → String
not_found_hint name =
    "unable to find secret \"" <> name
    <> "\" - if you used a different name specify with --registry-secret - if you haven't created a secret yet follow these instructions https://kubernetes.io/docs/tasks/configure-pod-container/pull-image-private-registry/"

pub anonymous : Response
anonymous = record { username = ""; secret = "" }

no_creds : Creds
no_creds = record { username = ""; password = ""; auth = ""; identity_token = "" }

response_of : Creds → Response
response_of c =
    if not (c.identity_token == "")
    then record { username = ""; secret = c.identity_token }
    else record { username = c.username; secret = c.password }

with_login : Creds → Result (String × String) → Result Creds
with_login c (ok (user, pass)) = ok (record c { username = user; password = pass })
with_login c (err e) =
    err (wrapf e "malformed kubernetes registry secret - failed to decode auth %w" [])

module _ (api : SecretApi) where
  open api use {World, get, error_text, unmarshal, base64}

  -- The entry that was found, with the name and the password from its `auth` where they are not there
  filled : Option Creds → Result Creds
  unfolding with_login no_creds
  filled none = ok no_creds
  filled (some c) =
      if (c.username == "" || c.password == "") && not (c.auth == "")
      then with_login c (decode_auth base64 c.auth)
      else ok c

  respond : Result Creds → Result Response
  unfolding response_of
  respond (ok c) = ok (response_of c)
  respond (err e) = err e

  from_store : String → Result (Map Creds) → Result Response
  unfolding filled respond
  from_store host (ok auths) = respond (filled (lookup host auths))
  from_store host (err e) = err (
      wrapf e
        "malformed kubernetes registry secret - '.dockerconfigjson' didn't contain valid cred store: %w"
        [])

  from_data : String → Option String → Result Response
  unfolding from_store
  from_data host none =
      err (errorf "malformed kubernetes registry secret - missing '.dockerconfigjson' data key" [])
  from_data host (some bytes) = from_store host (unmarshal bytes)

  -- From the secret on
  unfoldable pub from_secret : String → Map String → Result Response
  unfolding from_data auth_host
  from_secret host secret = from_data (auth_host host) (lookup ".dockerconfigjson" secret)

  after_get : String → Provider → Fetched × World → Result Response × Provider × World
  unfolding from_secret anonymous not_found_hint
  after_get host ap (found secret, w) =
      (from_secret host secret, record ap { secret = some secret }, w)
  after_get host ap (missing e, w) =
      (ok anonymous, record ap { auth_hint_message = not_found_hint ap.name }, w)
  after_get host ap (refused e, w) = (
    ok anonymous,
    record ap {
      auth_hint_message = "failed to lookup secret \"" <> ap.name <> "\": " <> error_text e;
    },
    w,
  )

  with_secret : String → Provider → World → Option (Map String) → Result Response × Provider × World
  unfolding after_get
  with_secret host ap w none = after_get host ap (get ap.name w)
  with_secret host ap w (some secret) = (from_secret host secret, ap, w)

  -- `Credentials`
  unfoldable pub credentials : String → Provider → World → Result Response × Provider × World
  unfolding with_secret
  credentials host ap w = with_secret host ap w ap.secret
