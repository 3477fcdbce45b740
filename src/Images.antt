-- ===== src/Images.antt =====
-- pkg/imagetools/inspect.go, and the types that pkg/imagetools/create.go works on. `Registry` stands for
-- containerd's resolver, the reference parser of docker/distribution, Go's JSON and the digests.
pub mod Push
pub mod Combine
use buildkit_cli_for_kubectl.Prelude.{
  ℕ, String, Bool, Option, none, List, Map, Result, ok, err, if◌then◌else◌, ◌==◌, ◌>>=◌,
}
use buildkit_cli_for_kubectl.Text.Number.{ℤ}
use buildkit_cli_for_kubectl.Prelude.Io.{Io}

abbrev pub Bytes : Type 0
Bytes = List ℕ

-- `ocispec.Descriptor`; a platform and a map of annotations can be nil.
pub record Descriptor (P : Type 0) : Type 0 where
  pub media_type : String
  pub digest : String
  pub size : ℤ
  pub platform : Option P
  pub annotations : Option (Map String)

-- What `detectMediaType` reads of a manifest
pub record Header : Type 0 where
  pub media_type : String
  pub has_config : Bool
  pub fs_layers : List String

-- A registry that answers the same to the same question while it is only read.
pub record Registry : Type 1 where
  pub World : Type 0
  pub Platform : Type 0
  pub Named : Type 0
  pub Fetcher : Type 0
  pub Reader : Type 0
  pub Pusher : Type 0
  pub Writer : Type 0
  pub parse_normalized_named : String → Result Named
  pub tag_name_only : Named → Named
  pub ref_text : Named → String
  pub resolve_ref : String → Result (String × Descriptor Platform)
  pub fetcher : String → Result Fetcher
  pub fetch : Fetcher → Descriptor Platform → Result Reader
  pub read_all : Reader → Result Bytes
  pub pusher : String → Result Pusher
  pub start_push : Pusher → Descriptor Platform → Io World Writer
  pub copy : Writer → Bytes → ℤ → String → Io World (Unit {0})
  pub normalize : Platform → Platform
  pub unmarshal_index : Bytes → Result (List (Descriptor Platform))
  pub unmarshal_config : Bytes → Result (Descriptor Platform)
  pub unmarshal_platform : Bytes → Result Platform
  pub unmarshal_header : Bytes → Result Header
  pub marshal_index : String → List (Descriptor Platform) → Result Bytes
  pub digest_of : Bytes → String

module _ (r : Registry) where
  open r use {
    Platform, Named, parse_normalized_named, tag_name_only, ref_text, resolve_ref, fetcher, fetch,
    read_all,
  }

  unfoldable pub parse_ref : String → Result Named
  parse_ref s = do ref ← parse_normalized_named s; ok (tag_name_only ref)

  unfoldable pub resolve : String → Result (String × Descriptor Platform)
  unfolding parse_ref
  resolve name = do ref ← parse_ref name; resolve_ref (ref_text ref)

  unfoldable pub get_descriptor : String → Descriptor Platform → Result Bytes
  get_descriptor name desc = do f ← fetcher name; rc ← fetch f desc; read_all rc

  unfoldable pub get : String → Result (Bytes × Descriptor Platform)
  unfolding resolve get_descriptor
  get name = do found ← resolve name; dt ← get_descriptor found.0 found.1; ok (dt, found.1)
