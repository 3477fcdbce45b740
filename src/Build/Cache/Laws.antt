-- ===== src/Build/Cache/Laws.antt =====
-- What `ParseCacheEntry` returns.
use mathlib.Core.List.{append-nil, append_assoc}
use buildkit_cli_for_kubectl.Prelude.{
  String, ◌≡◌, ◌≢◌, refl, ap, true, none, List, [], ◌∷◌, ◌++◌, map, ok, ◌==◌, Map, lookup, All,
  All-append, arith, eq_iff, Ensures, Ensures-ok, Ensures-intro, Ensures-bind, insert-append,
  Bool-cases, inl, inr,
}
use buildkit_cli_for_kubectl.Text.Split.{has_code, join, Lacks}
use buildkit_cli_for_kubectl.Text.Case.{to_lower}
use buildkit_cli_for_kubectl.Text.Csv.{csv_read}
use buildkit_cli_for_kubectl.Text.Fields.{
  key_value, cut-key_value, IsField, csv_read-join, key_value-ne-nil, has_code-key_value,
}
use buildkit_cli_for_kubectl.Build.Cache.{
  CacheOptionsEntry, is_ref_only_format, registry_entry, set_attr, set_field, set_fields, typed,
  cache_entries, parse_cache_entry,
}

abbrev pub HasKind : CacheOptionsEntry → Type 0
HasKind e = e.kind ≢ ""

registry-HasKind : (fields : List String) → All HasKind (map registry_entry fields)
registry-HasKind [] = tt
registry-HasKind (f ∷ fields) = (ground (arith, eq_iff "registry" ""), registry-HasKind fields)

typed-HasKind : (text : String) (im : CacheOptionsEntry) → Ensures (All HasKind) (typed text im)
unfolding typed
typed-HasKind text im = elim (Bool-cases (im.kind == "")) [
  | inl empty ↦ rw empty tt
  | inr full ↦ rw full (ground (arith, eq_iff im.kind ""), tt)
]

cache_entries-HasKind : (text : String) → Ensures (All HasKind) (cache_entries text)
unfolding cache_entries
cache_entries-HasKind text =
    Ensures-bind (λ _. Unit {0}) (All HasKind) (csv_read text) _ (Ensures-intro _ _ (λ _ _. tt))
      λ fields _. elim (Bool-cases (is_ref_only_format fields)) [
        | inl refs ↦ rw refs (registry-HasKind fields)
        | inr pairs ↦ rw pairs (
            Ensures-bind (λ _. Unit {0}) (All HasKind) (set_fields _ fields) (typed text)
              (Ensures-intro _ _ (λ _ _. tt)) (λ im _. typed-HasKind text im))
      ]

parse-HasKind : (texts : List String) → Ensures (All HasKind) (parse_cache_entry texts)
unfolding parse_cache_entry
parse-HasKind [] = tt
parse-HasKind (text ∷ rest) =
    Ensures-bind (All HasKind) (All HasKind) (cache_entries text) _ (cache_entries-HasKind text)
      λ entries h.
        Ensures-bind (All HasKind) (All HasKind) (parse_cache_entry rest) _ (parse-HasKind rest)
          λ later k. All-append HasKind entries later h k

-- Every entry that the parser returns has a type.
pub parse_cache_entry-HasKind :
    (texts : List String) {es : List CacheOptionsEntry}
    → parse_cache_entry texts ≡ ok es
    → All HasKind es
parse_cache_entry-HasKind texts =
    Ensures-ok (All HasKind) (parse_cache_entry texts) (parse-HasKind texts)

-- The text form of an entry: its type, then each attribute.
pairs : Map String → List String
pairs [] = []
pairs ((k, v) ∷ attrs) = key_value k v ∷ pairs attrs

unfoldable pub print_entry : CacheOptionsEntry → String
unfolding pairs
print_entry e = join "," (key_value "type" e.kind ∷ pairs e.attrs)

-- Attributes that can be written: keys in lower case, none of them `type` and none twice,
-- and neither keys nor values with a character that the csv reader or the split at `=` would act on.
abbrev pub Printable : Map String → Map String → Type 0
Printable before [] = Unit
Printable before ((k, v) ∷ attrs) =
    (Lacks b'=' k)
    × (to_lower k ≡ k)
    × (k ≢ "type")
    × IsField (key_value k v)
    × (lookup k before ≡ none)
    × Printable (before ++ (k, v) ∷ []) attrs

set_fields-pairs :
    (kind : String) (before attrs : Map String)
    → Printable before attrs
    → set_fields (record { kind = kind; attrs = before }) (pairs attrs)
      ≡ ok (record { kind = kind; attrs = before ++ attrs })
unfolding set_fields set_field set_attr pairs
set_fields-pairs kind before [] h = rw append-nil
set_fields-pairs kind before ((k, v) ∷ attrs) h = rw (cut-key_value k v h.0) (
    rw (h.1, insert-append k v before h.4)
      (ground (
        arith,
        eq_iff k "type",
        set_fields-pairs kind (before ++ (k, v) ∷ []) attrs h.5,
        append_assoc before ((k, v) ∷ []) attrs,
      )))

All-IsField : (before attrs : Map String) → Printable before attrs → All IsField (pairs attrs)
unfolding pairs
All-IsField before [] h = tt
All-IsField before ((k, v) ∷ attrs) h = (h.3, All-IsField _ attrs h.5)

cache_entries-print_entry :
    (e : CacheOptionsEntry)
    → HasKind e
    → IsField (key_value "type" e.kind)
    → Printable [] e.attrs
    → cache_entries (print_entry e) ≡ ok (e ∷ [])
unfolding cache_entries print_entry is_ref_only_format to_lower join
cache_entries-print_entry e k f p =
    rw
      (csv_read-join (key_value "type" e.kind) (pairs e.attrs) (key_value-ne-nil "type" e.kind)
        (f, All-IsField [] e.attrs p))
      (rw (has_code-key_value "type" e.kind, cut-key_value "type" e.kind (unfold has_code in refl))
        (rw (set_fields-pairs e.kind [] e.attrs p) (ground (arith, eq_iff e.kind ""))))

ref_only-Lacks : (fields : List String) → All (Lacks b'=') fields → is_ref_only_format fields ≡ true
unfolding is_ref_only_format
ref_only-Lacks [] h = refl
ref_only-Lacks (f ∷ fields) h = rw h.0 (ref_only-Lacks fields h.1)

-- Parsing the text form of an entry gives the entry back, where its type is not empty, its keys are
-- in lower case other than `type`, none twice and none with an equals sign, and no type, key or value has
-- a character that the csv reader acts on.
pub parse_cache_entry-print_entry :
    (e : CacheOptionsEntry)
    → HasKind e
    → IsField (key_value "type" e.kind)
    → Printable [] e.attrs
    → parse_cache_entry (print_entry e ∷ []) ≡ ok (e ∷ [])
unfolding parse_cache_entry
parse_cache_entry-print_entry e k f p = rw (cache_entries-print_entry e k f p) refl

-- A plain flag without `=` gives one registry entry for each part between the commas.
pub parse_cache_entry_refs :
    (p : String) (ps : List String)
    → p ≢ ""
    → All IsField (p ∷ ps)
    → All (Lacks b'=') (p ∷ ps)
    → parse_cache_entry (join "," (p ∷ ps) ∷ []) ≡ ok (map registry_entry (p ∷ ps))
unfolding parse_cache_entry cache_entries
parse_cache_entry_refs p ps ne f l =
    rw (csv_read-join p ps ne f) (rw (ref_only-Lacks (p ∷ ps) l) (ap ok (append-nil _)))
