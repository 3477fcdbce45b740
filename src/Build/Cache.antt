-- ===== src/Build/Cache.antt =====
-- `ParseCacheEntry` of pkg/build/cache.go.
pub mod Laws
use buildkit_cli_for_kubectl.Prelude.{
  String, Bool, true, false, not, Option, none, some, List, [], ◌∷◌, ◌++◌, map, Result, ok, err,
  errorf, ◌>>=◌, if◌then◌else◌, ◌==◌, Map, insert,
}
use buildkit_cli_for_kubectl.Text.Split.{has_code, cut}
use buildkit_cli_for_kubectl.Text.Case.{to_lower}
use buildkit_cli_for_kubectl.Text.Csv.{csv_read}

-- `client.CacheOptionsEntry`; the field `Type` is `kind`.
pub record CacheOptionsEntry : Type 0 where
  pub kind : String
  pub attrs : Map String

unfoldable pub is_ref_only_format : List String → Bool
is_ref_only_format [] = true
is_ref_only_format (v ∷ fields) =
    let rest = is_ref_only_format fields in if has_code b'=' v then false else rest

abbrev pub registry_entry : String → CacheOptionsEntry
registry_entry field = record { kind = "registry"; attrs = ("ref", field) ∷ [] }

-- `switch key`
pub set_attr : CacheOptionsEntry → String → String → CacheOptionsEntry
set_attr im key value =
    if key == "type"
    then record im { kind = value }
    else record im { attrs = insert key value im.attrs }

pub set_field : CacheOptionsEntry → String → Option (String × String) → Result CacheOptionsEntry
set_field im field none = err (errorf "invalid value %s" (field ∷ []))
set_field im field (some (key, value)) = ok (set_attr im (to_lower key) value)

pub set_fields : CacheOptionsEntry → List String → Result CacheOptionsEntry
set_fields im [] = ok im
set_fields im (field ∷ fields) = do im' ← set_field im field (cut b'=' field); set_fields im' fields

pub typed : String → CacheOptionsEntry → Result (List CacheOptionsEntry)
typed text im =
    if im.kind == "" then err (errorf "type required form> %q" (text ∷ [])) else ok (im ∷ [])

-- The body of the loop: what one flag appends.
unfoldable pub cache_entries : String → Result (List CacheOptionsEntry)
unfolding set_fields set_field set_attr typed
cache_entries text = do
  fields ← csv_read text
  if is_ref_only_format fields
      then ok (map registry_entry fields)
      else do im ← set_fields (record { kind = ""; attrs = [] }) fields; typed text im

unfoldable pub parse_cache_entry : List String → Result (List CacheOptionsEntry)
parse_cache_entry [] = ok []
parse_cache_entry (text ∷ rest) = do
  entries ← cache_entries text
  later ← parse_cache_entry rest
  ok (entries ++ later)
