-- ===== src/Build/Targets/Finish/Responses.antt =====
-- Where all drivers of a target have answered, the goroutine that waits for them ends with an entry.
use buildkit_cli_for_kubectl.Prelude.{
  ◌≡◌, refl, ap, false, Option, none, some, List, [], ◌∷◌, map, Result, ok, err, Bool-cases, inl,
  inr, ◌==◌,
}
use buildkit_cli_for_kubectl.Images.{Descriptor}
use buildkit_cli_for_kubectl.Build.Targets.Finish.{
  Response, Outcome, Finishing, finish, merged, descs_of, cons_digest, written, or_entry, write_id,
  ended, merge_list,
}

module _ (f : Finishing) where
  -- There is an entry, and the goroutine returns.
  unfoldable pub Responds : (Option Response × Outcome) × f.World → Type 0
  Responds r =
      (entry : Response) × (res : Result (Unit {0})) × (r.0 ≡ (some entry, Outcome.returned res))

  written-Responds :
      (r : Response) (m : Result (Option Response) × f.World) → Responds (written f (some r) m)
  unfolding written or_entry Responds
  written-Responds r (ok none, w) = (r, ok tt, refl)
  written-Responds r (ok (some s), w) = (s, ok tt, refl)
  written-Responds r (err e, w) = (r, ok tt, refl)

  descs_of-stored :
      (rs : List Response)
      → (ds : List (Descriptor f.registry.Platform)) × (descs_of f (map some rs) ≡ some ds)
  unfolding descs_of cons_digest
  descs_of-stored [] = ([], refl)
  descs_of-stored (r ∷ rs) = let (ds, e) = descs_of-stored rs in (_, ap (cons_digest f r) e)

  merged-Responds :
      (r : Response) (rs : List Response) (w : f.World)
      → Responds (merged f (some r) (descs_of f (map some rs)) w)
  unfolding merged
  merged-Responds r rs w =
      let (ds, e) = descs_of-stored rs in rw e (written-Responds r (merge_list f ds w))

  -- Where all drivers have answered, the goroutine does not panic, and there is an entry.
  pub finish-Responds :
      (r : Response) (rs : List Response) (w : f.World) → Responds (finish f (map some (r ∷ rs)) w)
  unfolding finish write_id ended Responds
  finish-Responds r [] w = elim (Bool-cases (f.image_id_file == "")) [
    | inl no_file ↦ rw no_file (r, ok tt, refl)
    | inr file ↦ rw file (r, _, refl)
  ]
  finish-Responds r (s ∷ rs) w = elim (Bool-cases (f.push_names == "")) [
    | inl no_names ↦ rw no_names (r, ok tt, refl)
    | inr names ↦ rw names (merged-Responds r (r ∷ s ∷ rs) w)
  ]

  -- Where the one driver has not answered and an image ID is to be written, the goroutine panics.
  pub finish-nil :
      (w : f.World)
      → (f.image_id_file == "") ≡ false
      → finish f (none ∷ []) w ≡ ((none, Outcome.panicked), w)
  unfolding finish write_id
  finish-nil w file = rw file refl
