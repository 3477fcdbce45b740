-- ===== src/Images/Combine.antt =====
-- `Combine` of pkg/imagetools/create.go, with what it calls. The preparations of the descriptors run side
-- by side in the code and share nothing; here they stand in the list's order, and the error that comes
-- back where several fail is the first in that order. The state of the second loop is the new list with
-- the map `m` from a digest to its index.
pub mod Merge
pub mod Whole
use buildkit_cli_for_kubectl.Prelude.{
  ℕ, zero, suc, String, Bool, ◌||◌, Option, none, some, List, [], ◌∷◌, ◌++◌, length, Map, lookup,
  insert, Result, ok, err, Error, errorf, wrapf, if◌then◌else◌, ◌==◌, ◌>>=◌, not, map_results, map,
  ltb,
}
use buildkit_cli_for_kubectl.Text.Number.{pos}
use buildkit_cli_for_kubectl.Images.{Registry, Descriptor, Bytes, Header, parse_ref, get_descriptor}

abbrev pub schema2_manifest : String
schema2_manifest = "application/vnd.docker.distribution.manifest.v2+json"

abbrev pub schema2_list : String
schema2_list = "application/vnd.docker.distribution.manifest.list.v2+json"

abbrev pub schema1_manifest : String
schema1_manifest = "application/vnd.docker.distribution.manifest.v1+prettyjws"

abbrev pub oci_manifest : String
oci_manifest = "application/vnd.oci.image.manifest.v1+json"

abbrev pub oci_index : String
oci_index = "application/vnd.oci.image.index.v1+json"

-- The two cases of the code's switches
unfoldable pub is_manifest : String → Bool
is_manifest mt = mt == schema2_manifest || mt == oci_manifest

unfoldable pub is_list : String → Bool
is_list mt = mt == schema2_list || mt == oci_index

unfoldable pub media_type_of : Header → String
media_type_of h =
    if not (h.media_type == "")
    then h.media_type
    else if h.has_config
    then schema2_manifest
    else if ltb 0 (length h.fs_layers)
    then schema1_manifest
    else schema2_list

insert_all : List (String × String) → Map String → Map String
insert_all [] m = m
insert_all ((k, v) ∷ kvs) m = insert_all kvs (insert k v m)

or_empty : Option (Map String) → Map String
or_empty none = []
or_empty (some m) = m

or_else {ℓ} : {A : Type ℓ} → Option A → Option A → Option A
or_else none o = o
or_else (some a) o = some a

-- `addDesc`, where the digest is there
unfoldable pub merge : {P : Type 0} → Descriptor P → Descriptor P → Descriptor P
unfolding insert_all or_empty or_else
merge old d = record old {
  media_type = if old.media_type == "" then d.media_type else old.media_type;
  platform = or_else d.platform old.platform;
  annotations = some (insert_all (or_empty d.annotations) (or_empty old.annotations));
}

-- `newDescs[i] = f(newDescs[i])`
unfoldable pub update_at {ℓ} : {A : Type ℓ} → ℕ → (A → A) → List A → List A
update_at i f [] = []
update_at zero f (x ∷ xs) = f x ∷ xs
update_at (suc i) f (x ∷ xs) = x ∷ update_at i f xs

-- `m` and `newDescs`
pub record Collected (P : Type 0) : Type 0 where
  pub index : Map ℕ
  pub descs : List (Descriptor P)

add_at : {P : Type 0} → Descriptor P → Collected P → Option ℕ → Collected P
unfolding merge update_at
add_at d st none = record {
  index = insert d.digest (length st.descs) st.index;
  descs = st.descs ++ d ∷ [];
}
add_at d st (some i) = record st { descs = update_at i (λ old. merge old d) st.descs }

unfoldable pub add_desc : {P : Type 0} → Descriptor P → Collected P → Collected P
unfolding add_at
add_desc d st = add_at d st (lookup d.digest st.index)

unfoldable pub add_descs : {P : Type 0} → List (Descriptor P) → Collected P → Collected P
unfolding add_desc
add_descs [] st = st
add_descs (d ∷ ds) st = add_descs ds (add_desc d st)

module _ (r : Registry) where
  open r use {
    Platform, ref_text, normalize, unmarshal_index, unmarshal_config, unmarshal_platform,
    unmarshal_header, marshal_index, digest_of,
  }

  abbrev Desc : Type 0
  Desc = Descriptor Platform

  unfoldable pub detect_media_type : Bytes → Result String
  unfolding media_type_of
  detect_media_type dt = do h ← unmarshal_header dt; ok (media_type_of h)

  unfoldable pub load_platform : String → Bytes → Result Platform
  load_platform name dt = do
    config ← unmarshal_config dt
    dt' ← get_descriptor r name config
    p ← unmarshal_platform dt'
    ok (normalize p)

  with_media_type : Bytes → Desc → Result Desc
  unfolding detect_media_type
  with_media_type dt d =
      if d.media_type == ""
      then (detect_media_type dt >>= λ mt. ok (record d { media_type = mt }))
      else ok d

  -- The manifest's platform, unless the descriptor has one
  with_platform : String → Bytes → Desc → Option Platform → Result Desc
  unfolding load_platform
  with_platform name dt d none = do p ← load_platform name dt; ok (record d { platform = some p })
  with_platform name dt d (some p) = ok d

  checked_kind : String → Bytes → Desc → Result Desc
  unfolding with_platform is_manifest
  checked_kind name dt d =
      if is_manifest d.media_type
      then with_platform name dt d d.platform
      else if d.media_type == schema1_manifest
      then err (errorf "schema1 manifests are not allowed in manifest lists" [])
      else ok d

  -- What one `eg.Go` does: `dts[i]` and the new `descs[i]`; `ref` is the text of the parsed reference.
  unfoldable pub prepare : String → String → Desc → Result (Bytes × Desc)
  unfolding with_media_type checked_kind
  prepare ref name d = do
    dt ← get_descriptor r ref d
    d' ← with_media_type dt d
    d'' ← checked_kind name dt d'
    ok (dt, d'')

  -- One pass of the second loop
  unfoldable pub add_source : Bytes × Desc → Collected Platform → Result (Collected Platform)
  unfolding is_list add_desc add_descs
  add_source (dt, d) st =
      if is_list d.media_type
      then (unmarshal_index dt >>= λ ds. ok (add_descs ds st))
      else ok (add_desc d st)

  unfoldable pub add_sources :
      List (Bytes × Desc) → Collected Platform → Result (Collected Platform)
  unfolding add_source
  add_sources [] st = ok st
  add_sources (s ∷ ss) st = do st' ← add_source s st; add_sources ss st'

  unfoldable pub write_index : List Desc → Result (Bytes × Desc)
  write_index ds = named (marshal_index schema2_list ds)
    where
      named : Result Bytes → Result (Bytes × Desc)
      named (err e) = err (wrapf e "failed to marshal index" [])
      named (ok bytes) = ok (
        bytes,
        record {
          media_type = schema2_list;
          digest = digest_of bytes;
          size = pos (length bytes);
          platform = none;
          annotations = none;
        },
      )

  combine_all : List (Bytes × Desc) → Result (Bytes × Desc)
  unfolding add_sources write_index
  combine_all ss = do st ← add_sources ss (record { index = []; descs = [] }); write_index st.descs

  -- On a single source that is a list, the original bytes.
  unfoldable pub combine_prepared : List (Bytes × Desc) → Result (Bytes × Desc)
  unfolding combine_all is_list
  combine_prepared ((dt, d) ∷ []) =
      if is_list d.media_type then ok (dt, d) else combine_all ((dt, d) ∷ [])
  combine_prepared ss = combine_all ss

  unfoldable pub combine : String → List Desc → Result (Bytes × Desc)
  unfolding prepare combine_prepared
  combine name ds = do
    ref ← parse_ref r name
    ss ← map_results (prepare (ref_text ref) name) ds
    combine_prepared ss
