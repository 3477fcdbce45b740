-- ===== src/Images/Push.antt =====
-- `Push` of pkg/imagetools/create.go, and `toCredentialsFunc` of pkg/imagetools/inspect.go.
use buildkit_cli_for_kubectl.Prelude.{
  String, Bool, Result, ok, err, Error, if◌then◌else◌, ◌==◌, ◌>>=◌ as and_then,
}
use buildkit_cli_for_kubectl.Prelude.Io.{Io, lift, ◌>>=◌}
use buildkit_cli_for_kubectl.Images.{Registry, Descriptor, Bytes}

-- `AuthConfig`, without the fields that nothing reads
pub record AuthConfig : Type 0 where
  pub username : String
  pub password : String
  pub identity_token : String

pick_secret : AuthConfig → String × String
pick_secret ac =
    if ac.identity_token == "" then (ac.username, ac.password) else ("", ac.identity_token)

-- The registry under which the credentials for Docker Hub are kept
unfoldable pub auth_host : String → String
auth_host host = if host == "registry-1.docker.io" then "https://index.docker.io/v1/" else host

unfoldable pub to_credentials : (String → Result AuthConfig) → String → Result (String × String)
unfolding pick_secret auth_host
to_credentials get_auth_config host =
    and_then (get_auth_config (auth_host host)) (λ ac. ok (pick_secret ac))

module _ (r : Registry) (is_already_exists : Error → Bool) where
  open r use {World, Platform, Named, Writer, tag_name_only, ref_text, pusher, start_push, copy}

  -- What is there already need not be pushed.
  unless_exists : Result (Unit {0}) × World → Result (Unit {0}) × World
  unless_exists (ok u, w) = (ok u, w)
  unless_exists (err e, w) = if is_already_exists e then (ok tt, w) else (err e, w)

  copy_to : Descriptor Platform → Bytes → Result Writer × World → Result (Unit {0}) × World
  unfolding unless_exists
  copy_to desc dt (ok cw, w) = unless_exists (copy cw dt desc.size desc.digest w)
  copy_to desc dt (err e, w) = unless_exists (err e, w)

  unfoldable pub push : Named → Descriptor Platform → Bytes → Io World (Unit {0})
  unfolding copy_to
  push name desc dt = do
    p ← lift (pusher (ref_text (tag_name_only name)))
    λ w. copy_to desc dt (start_push p desc w)
