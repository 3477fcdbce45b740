-- ===== src/Build/Outputs.antt =====
-- `ParseOutputs` of pkg/build/output.go. The console and the file system are the record `Os`: a world
-- with what the code asks of it, and `create` as its one change.
pub mod Resolved
use text.Mathlib.Text.{starts_with}
use buildkit_cli_for_kubectl.Prelude.{
  String, Bool, true, false, not, ◌&&◌, ◌||◌, Option, none, some, List, [], ◌∷◌, ◌++◌, Result, ok,
  err, Error, errorf, wrapf, if◌then◌else◌, ◌==◌, Map, insert, delete, lookup, ◌>>=◌ as and_then,
}
use buildkit_cli_for_kubectl.Prelude.Io.{Io, pure, throw, lift, ◌>>=◌}
use buildkit_cli_for_kubectl.Text.Split.{cut}
use buildkit_cli_for_kubectl.Text.Case.{to_lower, trim_space}
use buildkit_cli_for_kubectl.Text.Csv.{csv_read}

-- `os.Stat`: nothing there, another error, a directory or another file
pub data Stat : Type 0 where
  absent is_dir is_file : Stat
  failed : Error → Stat

pub record Os : Type 1 where
  pub World : Type 0
  pub stdout_is_console : World → Bool
  pub stat : World → String → Stat
  pub create : String → Io World (Unit {0})

-- What `wrapWriteCloser` wraps; `loader` is the stream into the runtimes of the builder's nodes.
pub data Output : Type 0 where
  stdout loader : Output
  file : String → Output

-- `client.ExportEntry`; the field `Type` is `kind`.
pub record ExportEntry : Type 0 where
  pub kind : String
  pub attrs : Map String
  pub output : Option Output
  pub output_dir : String

abbrev pub new_entry : String → Map String → ExportEntry
new_entry kind attrs = record { kind = kind; attrs = attrs; output = none; output_dir = "" }

abbrev pub local_entry : String → ExportEntry
local_entry s = record { kind = "local"; attrs = []; output = none; output_dir = s }

set_attr : ExportEntry → String → String → ExportEntry
set_attr out key value =
    if key == "type"
    then record out { kind = value }
    else record out { attrs = insert key value out.attrs }

set_field : ExportEntry → String → Option (String × String) → Result ExportEntry
set_field out field none = err (errorf "invalid value %s" (field ∷ []))
set_field out field (some (key, value)) = ok (set_attr out (trim_space (to_lower key)) value)

set_fields : ExportEntry → List String → Result ExportEntry
unfolding set_attr set_field
set_fields out [] = ok out
set_fields out (f ∷ fields) =
    and_then (set_field out f (cut b'=' f)) (λ out'. set_fields out' fields)

-- The text is one field that is the text itself, and does not begin with `type=`.
is_shorthand : String → List String → Bool
is_shorthand s (f ∷ []) = f == s && not (starts_with s "type=")
is_shorthand s _ = false

typed : ExportEntry → Result ExportEntry
typed out = if out.kind == "" then err (errorf "type is required for output" []) else ok out

abbrev pub without_dest : ExportEntry → Map String
without_dest out = delete "dest" out.attrs

-- The key `dest`, or its default.
dest_of : ExportEntry → String
dest_of out = elim (lookup "dest" out.attrs) [
  | some dest ↦ dest
  | none ↦ if out.kind == "docker" then "" else "-"
]

set_output_dir : ExportEntry → Option String → Result ExportEntry
set_output_dir out none = err (errorf "dest is required for local output" [])
set_output_dir out (some dest) = ok (record out { output_dir = dest; attrs = without_dest out })

abbrev pub with_output : ExportEntry → Option Output → ExportEntry
with_output out o = record out { output = o; attrs = without_dest out }

abbrev pub is_stream : String → Bool
is_stream kind = kind == "oci" || kind == "docker" || kind == "tar"

-- `os.Create` has returned: the writer of the new file, or its error printed into another.
opened {ℓ} : {W : Type ℓ} → ExportEntry → String → Result (Unit {0}) × W → Result ExportEntry × W
opened out dest (ok u, w) = (ok (with_output out (some (file dest))), w)
opened out dest (err e, w) = (err (wrapf e "failed to open %s" []), w)

entry_of : String → List String → Result ExportEntry
unfolding set_fields
entry_of s fields =
    if is_shorthand s fields
    then ok (new_entry "tar" (("dest", s) ∷ []))
    else set_fields (new_entry "" []) fields

module _ (os : Os) where
  open os use {World, stdout_is_console, stat, create}

  open_dest : ExportEntry → String → Stat → Io World ExportEntry
  unfolding opened
  open_dest out dest is_dir w = throw (errorf "destination file %s is a directory" (dest ∷ [])) w
  open_dest out dest (failed e) w = throw (wrapf e "invalid destination file: %s" (dest ∷ [])) w
  open_dest out dest _ w = opened out dest (create dest w)

  open_stream : ExportEntry → String → Io World ExportEntry
  open_stream out dest w =
      if dest == "-"
      then (if stdout_is_console w
          then throw
              (errorf "output file is required for %s exporter. refusing to write to console"
                (out.kind ∷ []))
              w
          else pure (with_output out (some stdout)) w)
      else if dest == ""
      then pure (with_output out out.output) w
      else open_dest out dest (stat w dest) w

  -- `switch out.Type`
  client_side : ExportEntry → Io World ExportEntry
  unfolding open_stream open_dest set_output_dir dest_of
  client_side out =
      if out.kind == "local"
      then lift (set_output_dir out (lookup "dest" out.attrs))
      else if is_stream out.kind
      then open_stream out (dest_of out)
      else if out.kind == "registry"
      then pure (record out { kind = "image"; attrs = insert "push" "true" out.attrs })
      else pure out

  -- The body of the loop.
  pub parse_output : String → Io World ExportEntry
  unfolding client_side entry_of typed is_shorthand
  parse_output s = do
    fields ← lift (csv_read s)
    if is_shorthand s fields && not (s == "-")
        then pure (local_entry s)
        else do untyped ← lift (entry_of s fields); out ← lift (typed untyped); client_side out

  unfoldable pub parse_outputs : List String → Io World (List ExportEntry)
  unfolding parse_output
  parse_outputs [] = pure []
  parse_outputs (s ∷ inp) = do out ← parse_output s; outs ← parse_outputs inp; pure (out ∷ outs)
