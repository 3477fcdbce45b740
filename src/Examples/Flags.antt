-- ===== src/Examples/Flags.antt =====
-- Flags of the build command, and platforms.
use buildkit_cli_for_kubectl.Prelude.{
  String, ◌≡◌, refl, true, none, List, [], ◌∷◌, map, All, ok, Distinct, is_in, text_ne,
  if◌then◌else◌, ◌==◌, arith, eq_iff, insert, lookup,
}
use buildkit_cli_for_kubectl.Text.Split.{has_code, cut}
use buildkit_cli_for_kubectl.Text.Case.{to_lower, trim_space}
use buildkit_cli_for_kubectl.Text.Csv.{csv_read, IsPlain}
use buildkit_cli_for_kubectl.Text.Fields.{IsField}
use buildkit_cli_for_kubectl.Build.Cache.{
  CacheOptionsEntry, parse_cache_entry, cache_entries, is_ref_only_format,
}
use buildkit_cli_for_kubectl.Build.Cache.Laws.{print_entry, parse_cache_entry-print_entry}
use buildkit_cli_for_kubectl.Build.Outputs.{Os, absent, ExportEntry, parse_outputs}
use buildkit_cli_for_kubectl.Build.Outputs.Resolved.{IsResolved, parse_outputs-IsResolved}
use buildkit_cli_for_kubectl.Platform.{Platforms, dedupe}
use buildkit_cli_for_kubectl.Platform.Laws.{key, dedupe_lem}

abbrev local_cache : CacheOptionsEntry
local_cache = record { kind = "local"; attrs = ("dest", "out") ∷ [] }

local_cache_text : parse_cache_entry ("type=local,dest=out" ∷ []) ≡ ok (local_cache ∷ [])
unfolding parse_cache_entry csv_read to_lower cache_entries is_ref_only_format has_code cut insert
local_cache_text = refl

local_type_IsField : IsField "type=local"
unfolding has_code
local_type_IsField = record {
  plain = record { no_quote = refl; no_newline = refl; no_return = refl };
  no_comma = refl;
}

local_dest_IsField : IsField "dest=out"
unfolding has_code
local_dest_IsField = record {
  plain = record { no_quote = refl; no_newline = refl; no_return = refl };
  no_comma = refl;
}

parse_cache_entry-print_entry_example :
    parse_cache_entry (print_entry local_cache ∷ []) ≡ ok (local_cache ∷ [])
unfolding has_code to_lower lookup
parse_cache_entry-print_entry_example =
    parse_cache_entry-print_entry local_cache (text_ne "local" "" refl) local_type_IsField
      (refl, refl, text_ne "dest" "type" refl, local_dest_IsField, refl, tt)

name_IsField : IsField "user/app"
unfolding has_code
name_IsField = record {
  plain = record { no_quote = refl; no_newline = refl; no_return = refl };
  no_comma = refl;
}

-- A file system with nothing in it, behind a console.
abbrev empty_os : Os
empty_os = record {
  World = List String;
  stdout_is_console = λ w. true;
  stat = λ w name. absent;
  create = λ name w. (ok tt, name ∷ w);
}

abbrev tar_entry : ExportEntry
tar_entry = record { kind = "image"; attrs = ("push", "true") ∷ []; output = none; output_dir = "" }

registry_text : (parse_outputs empty_os ("type=registry" ∷ []) []).0 ≡ ok (tar_entry ∷ [])
unfolding parse_outputs csv_read to_lower cut trim_space insert
registry_text = refl

parse_outputs-IsResolved_example : All IsResolved (tar_entry ∷ [])
parse_outputs-IsResolved_example =
    parse_outputs-IsResolved empty_os ("type=registry" ∷ []) [] registry_text

out_IsPlain : IsPlain "out"
unfolding has_code
out_IsPlain = record { no_quote = refl; no_newline = refl; no_return = refl }

-- Platforms that are their own text, where `x86` is an old name.
abbrev plain_platforms : Platforms
plain_platforms = record {
  Platform = String;
  normalize = λ q. if q == "x86" then "amd64" else q;
  format = λ q. q;
  parse_spec = λ text. ok text;
  default_spec = "amd64";
}

idem :
    (q : String)
    → plain_platforms.normalize (plain_platforms.normalize q) ≡ plain_platforms.normalize q
idem q = ground (arith, eq_iff q "x86")

dedupe_lem_example :
    Distinct (map plain_platforms.format (dedupe plain_platforms ("x86" ∷ "amd64" ∷ [])))
    × ((k : String)
        → is_in k (map plain_platforms.format (dedupe plain_platforms ("x86" ∷ "amd64" ∷ [])))
          ≡ is_in k (map (key plain_platforms) ("x86" ∷ "amd64" ∷ [])))
dedupe_lem_example = dedupe_lem plain_platforms ("x86" ∷ "amd64" ∷ [])
