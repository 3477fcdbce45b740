-- ===== src/Build/MultiNode.antt =====
-- The loop of `Build` in pkg/build/build.go that readies the exports of a target which is built on several
-- drivers, with `toRepoOnly`. The solve options of a target's drivers have one slice of exports, so the pass
-- for a driver works on what the pass for the driver before it left. The parser of references is a parameter.
pub mod Settled
use buildkit_cli_for_kubectl.Prelude.{
  ℕ, zero, suc, String, ◌≡◌, refl, sym, ◌∙◌, Bool, true, false, not, ◌&&◌, ◌||◌, ◌⊎◌, inl, inr,
  List, [], ◌∷◌, Map, keys, insert, lookup_or, Result, ok, err, errorf, ◌>>=◌, Ensures,
  Ensures-bind, Ensures-intro, Ensures-ok, Result-cases, Bool-cases, if◌then◌else◌, ◌==◌, arith,
  eq_of_text,
}
use buildkit_cli_for_kubectl.Build.Outputs.{ExportEntry}
use buildkit_cli_for_kubectl.Text.Case.{parse_bool_or_false}
use buildkit_cli_for_kubectl.Text.Split.{split, join}

-- The first export that pushes, where no push was found before
is_first_push : String → ExportEntry → Bool
is_first_push names e =
    let push = lookup_or "" "push" e.attrs in
    e.kind == "image" && (names == "" && (not (push == "") && parse_bool_or_false push))

-- `ParseNormalizedNamed` of docker/distribution, with the `Name` of what it returns
module _ (repository : String → Result String) where
  names_of : List String → Map (Unit {0}) → Result (Map (Unit {0}))
  names_of [] m = ok m
  names_of (p ∷ ps) m = do n ← repository p; names_of ps (insert n tt m)

  unfoldable pub to_repo_only : String → Result String
  unfolding names_of
  to_repo_only text = do m ← names_of (split 44 text) []; ok (join "," (keys m))

  by_digest : ExportEntry → String → Result (String × ExportEntry)
  by_digest e names =
      if names == "" then err (errorf "tag is needed when pushing to registry" []) else do
        repos ← to_repo_only names
        ok (
          names,
          record e { attrs = insert "push-by-digest" "true" (insert "name" repos e.attrs) },
        )

  unfoldable pub mark_export : String → ExportEntry → Result (String × ExportEntry)
  unfolding by_digest is_first_push
  mark_export names e =
      if e.kind == "oci" || e.kind == "tar"
      then err (errorf "%s for multi-node builds currently not supported" (e.kind ∷ []))
      else if is_first_push names e
      then by_digest e (lookup_or "" "name" e.attrs)
      else ok (names, e)

  -- The names to push, `pushNames`, and the exports after the pass for one driver
  unfoldable pub mark_exports : String → List ExportEntry → Result (String × List ExportEntry)
  unfolding mark_export
  mark_exports names [] = ok (names, [])
  mark_exports names (e ∷ es) = do
    (n, f) ← mark_export names e
    (m, fs) ← mark_exports n es
    ok (m, f ∷ fs)

  -- The passes for that many drivers, which there are `if multiDriver`
  unfoldable pub mark_nodes : ℕ → String → List ExportEntry → Result (String × List ExportEntry)
  unfolding mark_exports
  mark_nodes zero names es = ok (names, es)
  mark_nodes (suc count) names es = do (m, fs) ← mark_exports names es; mark_nodes count m fs
