-- ===== src/Examples/Registry.antt =====
-- Images, and the credentials for their registries.
use buildkit_cli_for_kubectl.Prelude.{
  ℕ, String, ◌≡◌, refl, none, some, List, [], ◌∷◌, ok, map_results, true, false, zero, suc, Map,
  external,
}
use Prim.Native.String.{◌∷◌ as cons_char}
use buildkit_cli_for_kubectl.Images.{Registry, Descriptor, Bytes, parse_ref, get_descriptor}
use buildkit_cli_for_kubectl.Images.Combine.{prepare, is_list, oci_index, oci_manifest, combine}
use buildkit_cli_for_kubectl.Images.Combine.Whole.{combine-Merges, Merges, held_in, is_single_list}
use buildkit_cli_for_kubectl.Text.Number.{ℤ, pos, negsuc}
use buildkit_cli_for_kubectl.Kubernetes.Credentials.{
  SecretApi, Creds, found, missing, Fetched, get_auth_provider,
}
use buildkit_cli_for_kubectl.Kubernetes.Credentials.Answers.{serve, serve-Phases, Phases}

abbrev pub desc : String → String → ℕ → Descriptor (String)
desc mt g n = record {
  media_type = mt;
  digest = g;
  size = pos n;
  platform = some "linux";
  annotations = none;
}

abbrev pub bytes_of : ℤ → Bytes
bytes_of (pos n) = n ∷ []
bytes_of (negsuc n) = []

-- A registry with a list of two images.
abbrev pub registry : Registry
registry = record {
  World = ℕ;
  Platform = String;
  Named = String;
  Fetcher = String;
  Reader = ℤ;
  Pusher = String;
  Writer = String;
  parse_normalized_named = λ s. ok s;
  tag_name_only = λ s. s;
  ref_text = λ s. s;
  resolve_ref = λ s. ok (s, desc oci_index "sha256:1" 1);
  fetcher = λ s. ok s;
  fetch = λ f d. ok d.size;
  read_all = λ n. ok (bytes_of n);
  pusher = λ s. ok s;
  start_push = λ p d w. (ok p, w);
  copy = λ cw dt n g w. (ok tt, w);
  normalize = λ p. p;
  unmarshal_index = λ dt. ok (desc oci_manifest "sha256:2" 2 ∷ desc oci_manifest "sha256:3" 3 ∷ []);
  unmarshal_config = λ dt. ok (desc "" "sha256:4" 4);
  unmarshal_platform = λ dt. ok "linux";
  unmarshal_header = λ dt. ok (record { media_type = ""; has_config = true; fs_layers = [] });
  marshal_index = λ mt ds. ok (1 ∷ []);
  digest_of = λ dt. "sha256:5";
}

abbrev sources : List (Descriptor String)
sources = desc oci_index "sha256:1" 1 ∷ desc oci_manifest "sha256:2" 2 ∷ []

abbrev prepared : List (Bytes × Descriptor String)
prepared = (1 ∷ [], desc oci_index "sha256:1" 1) ∷ (2 ∷ [], desc oci_manifest "sha256:2" 2) ∷ []

abbrev images : List (Descriptor String)
images =
    desc oci_manifest "sha256:2" 2
    ∷ desc oci_manifest "sha256:3" 3
    ∷ desc oci_manifest "sha256:2" 2
    ∷ []

alpine_parses : parse_ref registry "alpine" ≡ ok "alpine"
unfolding parse_ref
alpine_parses = refl

sources_ready : map_results (prepare registry "alpine" "alpine") sources ≡ ok prepared
unfolding prepare get_descriptor
sources_ready = refl

sources_many : is_single_list registry prepared ≡ false
unfolding is_single_list is_list
sources_many = refl

sources_held : held_in registry prepared ≡ ok images
unfolding held_in is_list
sources_held = refl

combine-Merges_example : Merges registry images (combine registry "alpine" sources)
combine-Merges_example =
    combine-Merges registry "alpine" sources "alpine" prepared images alpine_parses sources_ready
      sources_many sources_held

-- A cluster whose secret appears with the second request; the world is the number of the requests.
abbrev store : Map Creds
store =
    (
      "https://index.docker.io/v1/",
      record { username = ""; password = ""; auth = "bWU6cHc="; identity_token = "" },
    )
    ∷ []

abbrev get_later : ℕ → Fetched × ℕ
get_later zero = (missing (external "not found"), 1)
get_later (suc n) = (found ((".dockerconfigjson", "{}") ∷ []), suc (suc n))

abbrev secrets : SecretApi
secrets = record {
  World = ℕ;
  get = λ name n. get_later n;
  error_text = λ e. "";
  unmarshal = λ s. ok store;
  base64 = record { decode = λ s. ok "me:pw" };
}

abbrev secret : Map String
secret = (".dockerconfigjson", "{}") ∷ []

abbrev hosts : List String
hosts = "quay.io" ∷ "registry-1.docker.io" ∷ []

no_secret : (get_auth_provider "" "").secret ≡ none
unfolding get_auth_provider
no_secret = refl

serve-Phases_example : Phases secrets hosts (serve secrets hosts (get_auth_provider "" "") 0).0
serve-Phases_example = serve-Phases secrets hosts (get_auth_provider "" "") 0 no_secret
