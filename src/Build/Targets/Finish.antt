-- ===== src/Build/Targets/Finish.antt =====
-- What the goroutine of a target in `Build` of pkg/build/build.go does once the drivers of the target have
-- solved: it keeps the first response, and merges the images of several drivers into one list.
pub mod Responses
use buildkit_cli_for_kubectl.Prelude.{
  ℕ, String, Bool, Option, none, some, List, [], ◌∷◌, Map, lookup, lookup_or, Result, ok, err,
  Error, if◌then◌else◌, ◌==◌, not,
}
use buildkit_cli_for_kubectl.Prelude.Io.{Io, pure, throw, lift, ◌>>=◌}
use buildkit_cli_for_kubectl.Text.Number.{negsuc}
use buildkit_cli_for_kubectl.Text.Split.{split}
use buildkit_cli_for_kubectl.Images.{Registry, Descriptor, Bytes}
use buildkit_cli_for_kubectl.Images.Combine.{combine, schema2_list}
use buildkit_cli_for_kubectl.Images.Push.{push}

-- `ExporterResponse` of a `client.SolveResponse`
pub record Response : Type 0 where
  pub exporter : Map String

-- How a goroutine ends
pub data Outcome : Type 0 where
  returned : Result (Unit {0}) → Outcome
  panicked : Outcome

abbrev digest_key : String
digest_key = "containerimage.digest"

-- The target's file for the image ID and its names to push, the driver's hint, and what the code calls
pub record Finishing : Type 1 where
  pub registry : Registry
  pub open registry use {World}
  pub is_already_exists : Error → Bool
  pub write_file : String → String → Io World (Unit {0})
  pub error_text : Error → String
  pub hint : ℕ → String
  pub image_id_file : String
  pub push_names : String

module _ (f : Finishing) where
  open f use {registry, World, is_already_exists, write_file, image_id_file, push_names}
  open registry use {Platform, parse_normalized_named}

  abbrev Desc : Type 0
  Desc = Descriptor Platform

  list_desc : String → Desc
  list_desc digest = record {
    media_type = schema2_list;
    digest = digest;
    size = negsuc 0;
    platform = none;
    annotations = none;
  }

  with_digest : Option String → List Desc → List Desc
  unfolding list_desc
  with_digest none ds = ds
  with_digest (some digest) ds = list_desc digest ∷ ds

  cons_digest : Response → Option (List Desc) → Option (List Desc)
  unfolding with_digest
  cons_digest r none = none
  cons_digest r (some ds) = some (with_digest (lookup digest_key r.exporter) ds)

  -- The descriptors of the responses; `none` where one of them is nil
  pub descs_of : List (Option Response) → Option (List Desc)
  unfolding cons_digest
  descs_of [] = some []
  descs_of (none ∷ rs) = none
  descs_of (some r ∷ rs) = cons_digest r (descs_of rs)

  push_each : List String → Desc → Bytes → Io World (Unit {0})
  push_each [] desc dt = pure tt
  push_each (n ∷ ns) desc dt = do
    nn ← lift (parse_normalized_named n)
    _ ← push registry is_already_exists nn desc dt
    push_each ns desc dt

  write_digest : Desc → Io World (Option Response)
  write_digest desc = do _ ← write_file image_id_file desc.digest; pure none

  push_list : List String → Bytes → Desc → Io World (Option Response)
  unfolding push_each
  push_list names dt desc = do
    _ ← push_each names desc dt
    pure (some (record { exporter = (digest_key, desc.digest) ∷ [] }))

  -- After the merge: the digest is written to the file, or the list is pushed and answered with.
  publish : List String → Bytes → Desc → Io World (Option Response)
  unfolding push_list write_digest
  publish names dt desc =
      if not (image_id_file == "") then write_digest desc else push_list names dt desc

  first_name : List String → String
  first_name [] = ""
  first_name (n ∷ ns) = n

  -- The function that `progress.Write` runs; what it answers is the new entry of the target, if any.
  merge_list : List Desc → Io World (Option Response)
  unfolding publish first_name
  merge_list [] = pure none
  merge_list (d ∷ ds) = do
    let names = split 44 push_names
    found ← lift (combine registry (first_name names) (d ∷ ds))
    publish names found.0 found.1

  or_entry : Option Response → Option Response → Option Response
  or_entry entry none = entry
  or_entry entry (some r) = some r

  -- `progress.Write` keeps the error to itself.
  written : Option Response → Result (Option Response) × World → (Option Response × Outcome) × World
  unfolding or_entry
  written entry (ok r, w) = ((or_entry entry r, returned (ok tt)), w)
  written entry (err e, w) = ((entry, returned (ok tt)), w)

  pub merged : Option Response → Option (List Desc) → World → (Option Response × Outcome) × World
  merged entry none w = ((entry, panicked), w)
  merged entry (some ds) w = written entry (merge_list ds w)

  ended : Option Response → Result (Unit {0}) × World → (Option Response × Outcome) × World
  ended entry (r, w) = ((entry, returned r), w)

  pub write_id : Option Response → World → (Option Response × Outcome) × World
  unfolding ended
  write_id none w = ((none, panicked), w)
  write_id (some r) w =
      ended (some r) (write_file image_id_file (lookup_or "" digest_key r.exporter) w)

  -- The entry of the target in `resp`, and how the goroutine ends
  unfoldable pub finish : List (Option Response) → World → (Option Response × Outcome) × World
  finish [] w = ((none, panicked), w)
  finish (r ∷ []) w = if not (image_id_file == "") then write_id r w else ((r, returned (ok tt)), w)
  finish (r ∷ s ∷ rs) w =
      if not (push_names == "")
      then merged r (descs_of (r ∷ s ∷ rs)) w
      else ((r, returned (ok tt)), w)
