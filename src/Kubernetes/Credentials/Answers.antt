-- ===== src/Kubernetes/Credentials/Answers.antt =====
-- The answers to the requests of a session.
use Prim.Native.String.{◌∷◌ as cons_char}
use buildkit_cli_for_kubectl.Prelude.{
  String, ◌≡◌, refl, ap, none, some, List, [], ◌∷◌, ◌++◌, map, Map, Result, ok,
}
use buildkit_cli_for_kubectl.Kubernetes.Credentials.{
  SecretApi, Provider, Response, Creds, Fetched, found, missing, refused, credentials, from_secret,
  after_get, with_secret, anonymous,
}

module _ (api : SecretApi) where
  open api use {World, get, unmarshal, base64}

  -- An entry of the store that holds the login in its `auth` alone
  abbrev pub encoded_entry : String → Creds
  encoded_entry auth = record { username = ""; password = ""; auth = auth; identity_token = "" }

  -- The requests of a session, one after the other
  pub serve : List String → Provider → World → List (Result Response) × Provider × World
  serve [] ap w = ([], ap, w)
  serve (host ∷ hosts) ap w =
      let (answer, ap', w') = credentials api host ap w in
      let (answers, ap'', w'') = serve hosts ap' w' in (answer ∷ answers, ap'', w'')

  credentials-cached :
      (host : String) (prov : Provider) (secret : Map String) (w : World)
      → prov.secret ≡ some secret
      → credentials api host prov w ≡ (from_secret api host secret, prov, w)
  unfolding credentials with_secret
  credentials-cached host prov secret w h = ap (with_secret api host prov w) h

  credentials-first :
      (host : String) (prov : Provider) (w : World)
      → prov.secret ≡ none
      → credentials api host prov w ≡ after_get api host prov (get prov.name w)
  unfolding credentials with_secret
  credentials-first host prov w h = ap (with_secret api host prov w) h

  serve-cached :
      (hosts : List String) (prov : Provider) (secret : Map String) (w : World)
      → prov.secret ≡ some secret
      → (serve hosts prov w).0 ≡ map (λ host. from_secret api host secret) hosts
  unfolding serve
  serve-cached [] prov secret w h = refl
  serve-cached (host ∷ hosts) prov secret w h =
      rw (credentials-cached host prov secret w h)
        (ap (λ answers. from_secret api host secret ∷ answers) (serve-cached hosts prov secret w h))

  pub Phases : List String → List (Result Response) → Type 0
  Phases hosts answers =
      (before after : List String) × (secret : Map String) × (hosts ≡ before ++ after)
      × (answers
          ≡ map (λ host. ok anonymous) before ++ map (λ host. from_secret api host secret) after)

  anonymous_then :
      (host : String) (hosts : List String) (answers : List (Result Response))
      → Phases hosts answers
      → Phases (host ∷ hosts) (ok anonymous ∷ answers)
  unfolding Phases
  anonymous_then host hosts answers (before, after, secret, p, q) =
      (host ∷ before, after, secret, ap (λ hs. host ∷ hs) p, ap (λ rs. ok anonymous ∷ rs) q)

  after-Phases :
      (host : String) (hosts : List String) (prov : Provider) (f : Fetched × World)
      → prov.secret ≡ none
      → ((next : Provider) (v : World) → next.secret ≡ none → Phases hosts (serve hosts next v).0)
      → Phases (host ∷ hosts) (
          (after_get api host prov f).0
          ∷ (serve hosts (after_get api host prov f).1 (after_get api host prov f).2).0)
  unfolding after_get Phases
  after-Phases host hosts prov (found secret, v) h later = (
    [],
    host ∷ hosts,
    secret,
    refl,
    ap (λ answers. from_secret api host secret ∷ answers)
        (serve-cached hosts (record prov { secret = some secret }) secret v refl),
  )
  after-Phases host hosts prov (missing e, v) h later =
      anonymous_then host hosts _ (later ((after_get api host prov (missing e, v)).1) v h)
  after-Phases host hosts prov (refused e, v) h later =
      anonymous_then host hosts _ (later ((after_get api host prov (refused e, v)).1) v h)

  -- The answers to the requests of a provider that has no secret yet have two phases: up to some request they
  -- are empty and without an error, and from there on they all come from one secret.
  pub serve-Phases :
      (hosts : List String) (prov : Provider) (w : World)
      → prov.secret ≡ none
      → Phases hosts (serve hosts prov w).0
  unfolding serve Phases
  serve-Phases [] prov w h = ([], [], [], refl, refl)
  serve-Phases (host ∷ hosts) prov w h =
      rw (credentials-first host prov w h)
        (after-Phases host hosts prov (get prov.name w) h (λ next v k. serve-Phases hosts next v k))
