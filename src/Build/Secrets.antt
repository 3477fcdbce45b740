-- ===== src/Build/Secrets.antt =====
-- `ParseSecretSpecs` and `parseSecret` of pkg/build/secrets.go. The secret store and its provider are
-- buildkit's: `new_store` is an argument.
use buildkit_cli_for_kubectl.Prelude.{
  String, ◌⊎◌, inl, inr, ◌≡◌, refl, Option, none, some, List, [], ◌∷◌, Result, ok, err, errorf,
  wrapf, ◌>>=◌, if◌then◌else◌, ◌==◌, ◌||◌, map_results,
}
use buildkit_cli_for_kubectl.Text.Split.{has_code, cut, join}
use buildkit_cli_for_kubectl.Text.Case.{to_lower}
use buildkit_cli_for_kubectl.Text.Csv.{csv_read}
use buildkit_cli_for_kubectl.Text.Fields.{
  key_value, cut-key_value, IsField, csv_read-join, key_value-ne-nil,
}

-- `secretsprovider.Source`
pub record Source : Type 0 where
  pub id : String
  pub file_path : String

set_source : Source → String → String → String → Result Source
set_source fs field key value =
    if key == "type"
    then (if value == "file" then ok fs else err (errorf "unsupported secret type %q" (value ∷ [])))
    else if key == "id"
    then ok (record fs { id = value })
    else if key == "source" || key == "src"
    then ok (record fs { file_path = value })
    else err (errorf "unexpected key '%s' in '%s'" (key ∷ field ∷ []))

secret_field : Source → String → Option (String × String) → Result Source
secret_field fs field none = err (errorf "invalid field '%s' must be a key=value pair" (field ∷ []))
secret_field fs field (some (key, value)) = set_source fs field (to_lower key) value

secret_fields : Source → List String → Result Source
secret_fields fs [] = ok fs
secret_fields fs (field ∷ fields) = do
  fs' ← secret_field fs field (cut b'=' field)
  secret_fields fs' fields

wrap_csv : Result (List String) → Result (List String)
wrap_csv (ok fields) = ok fields
wrap_csv (err e) = err (wrapf e "failed to parse csv secret" [])

unfoldable pub parse_secret : String → Result Source
unfolding wrap_csv secret_fields secret_field set_source
parse_secret value = do
  fields ← wrap_csv (csv_read value)
  secret_fields (record { id = ""; file_path = "" }) fields

unfoldable pub parse_secret_specs {ℓ} :
    {Store : Type ℓ} → (List Source → Result Store) → List String → Result Store
parse_secret_specs new_store sl = do fs ← map_results parse_secret sl; new_store fs

secret_fields-join :
    (id path key : String)
    → (key ≡ "src") ⊎ (key ≡ "source")
    → secret_fields
        (record { id = ""; file_path = "" })
        (key_value "id" id ∷ key_value key path ∷ [])
      ≡ ok (record { id = id; file_path = path })
unfolding secret_fields secret_field set_source to_lower
secret_fields-join id path key (inl e) = rw e (
    rw (cut-key_value "id" id (unfold has_code in refl))
      (rw (cut-key_value "src" path (unfold has_code in refl))))
secret_fields-join id path key (inr e) = rw e (
    rw (cut-key_value "id" id (unfold has_code in refl))
      (rw (cut-key_value "source" path (unfold has_code in refl))))

-- A flag that gives a file's path under an id, with either spelling of the path's key, is read as
-- that id and path.
pub parse_secret-join :
    (id path key : String)
    → (key ≡ "src") ⊎ (key ≡ "source")
    → IsField (key_value "id" id)
    → IsField (key_value key path)
    → parse_secret (join "," (key_value "id" id ∷ key_value key path ∷ []))
      ≡ ok (record { id = id; file_path = path })
unfolding parse_secret
parse_secret-join id path key k f g =
    rw
      (csv_read-join (key_value "id" id) (key_value key path ∷ []) (key_value-ne-nil "id" id)
        (f, (g, tt)))
      (secret_fields-join id path key k)
