-- ===== src/Commands/Build/Exports.antt =====
-- The exports of a build with `--push` or `--load`.
use buildkit_cli_for_kubectl.Prelude.{
  ◌≡◌, refl, Bool, true, false, ◌||◌, some, List, [], ◌∷◌, lookup, lookup-insert, Result, ok, err,
  ◌==◌, Ensures, Bool-cases, inl, inr, Ensures-rest, Ensures-bind, Ensures-intro, eq_of_text,
}
use buildkit_cli_for_kubectl.Build.Outputs.{ExportEntry, parse_outputs}
use buildkit_cli_for_kubectl.Build.Cache.{parse_cache_entry}
use buildkit_cli_for_kubectl.Build.Entitlements.{parse_entitlements}
use buildkit_cli_for_kubectl.Commands.Build.{
  BuildApi, BuildOptions, Request, build_request, Parsed, parsed, finished, with_outputs,
  with_parsed, choose_exports, push_outputs, load_outputs, push_attr, new_entry,
}

-- An export that pushes an image
IsPush : ExportEntry → Type 0
IsPush e = (e.kind ≡ "image") × (lookup "push" e.attrs ≡ some "true")

-- What `--load` makes of the exports that were asked for: one into the runtime where there are none; and else
-- the same ones, the first of which is of the kind `containerd` or `docker`, a file of that kind included.
Loads : List ExportEntry → List ExportEntry → Type 0
Loads [] out = out ≡ new_entry "runtime" [] ∷ []
Loads (e ∷ es) out = (out ≡ e ∷ es) × ((e.kind == "containerd" || e.kind == "docker") ≡ true)

-- What the two flags promise of the exports, from those that were asked for
pub FollowsFlags : Bool → Bool → List ExportEntry → List ExportEntry → Type 0
FollowsFlags true true asked es = ⊥
FollowsFlags true false asked [] = ⊥
FollowsFlags true false asked (e ∷ es) = IsPush e
FollowsFlags false true asked es = Loads asked es
FollowsFlags false false asked es = es ≡ asked

push_outputs-FollowsFlags :
    (load : Bool) (es : List ExportEntry)
    → Ensures (FollowsFlags true load es) (push_outputs load es)
unfolding push_outputs FollowsFlags IsPush push_attr lookup
push_outputs-FollowsFlags true [] = tt
push_outputs-FollowsFlags true (e ∷ es) = tt
push_outputs-FollowsFlags false [] = (refl, refl)
push_outputs-FollowsFlags false (e ∷ es) = elim (Bool-cases (e.kind == "image")) [
  | inl image ↦
      rw image (eq_of_text e.kind "image" image, lookup-insert "push" "push" "true" e.attrs)
  | inr other ↦ rw other tt
]

load_outputs-FollowsFlags :
    (es : List ExportEntry) → Ensures (FollowsFlags false true es) (load_outputs es)
unfolding load_outputs FollowsFlags Loads
load_outputs-FollowsFlags [] = refl
load_outputs-FollowsFlags (e ∷ es) =
    elim (Bool-cases (e.kind == "containerd" || e.kind == "docker")) [
      | inl runtime ↦ rw runtime (refl, runtime)
      | inr other ↦ rw other tt
    ]

choose_exports-FollowsFlags :
    (push load : Bool) (es : List ExportEntry)
    → Ensures (FollowsFlags push load es) (choose_exports push load es)
unfolding choose_exports FollowsFlags
choose_exports-FollowsFlags true load es = push_outputs-FollowsFlags load es
choose_exports-FollowsFlags false true es = load_outputs-FollowsFlags es
choose_exports-FollowsFlags false false es = refl

module _ (api : BuildApi) (o : BuildOptions) where
  -- The output option stands for some exports, and those of the request are what the flags make of them.
  pub IsServed : Result (List ExportEntry) → Request api → Type 0
  IsServed outputs r =
      (asked : List ExportEntry) × (outputs ≡ ok asked)
      × FollowsFlags o.export_push o.export_load asked r.options.exports

  finished-IsServed :
      (p : Parsed api) (outputs : Result (List ExportEntry)) (asked es : List ExportEntry)
      → outputs ≡ ok asked
      → FollowsFlags o.export_push o.export_load asked es
      → Ensures (IsServed outputs) (finished api o p es)
  unfolding finished IsServed
  finished-IsServed p outputs asked es e h =
      Ensures-rest (IsServed outputs) (parse_cache_entry o.cache_from) _ (λ from.
        Ensures-rest (IsServed outputs) (parse_cache_entry o.cache_to) _ (λ to.
          Ensures-rest (IsServed outputs) (parse_entitlements o.allow) _ (λ allow. (asked, e, h))))

  with_outputs-IsServed :
      (p : Parsed api) (outputs : Result (List ExportEntry))
      → Ensures (IsServed outputs) (with_outputs api o p outputs)
  unfolding with_outputs
  with_outputs-IsServed p outputs =
      Ensures-bind (λ asked. outputs ≡ ok asked) (IsServed outputs) outputs _
        (Ensures-intro (λ asked. outputs ≡ ok asked) outputs (λ a e. e))
        (λ asked e.
          Ensures-bind (FollowsFlags o.export_push o.export_load asked) (IsServed outputs)
            (choose_exports o.export_push o.export_load asked) (finished api o p)
            (choose_exports-FollowsFlags o.export_push o.export_load asked)
            (λ es h. finished-IsServed p outputs asked es e h))

  with_parsed-IsServed :
      (m : Result (Parsed api)) (w : api.os.World)
      → Ensures (IsServed (parse_outputs api.os o.outputs w).0) (with_parsed api o m w).0
  unfolding with_parsed
  with_parsed-IsServed (err e) w = tt
  with_parsed-IsServed (ok p) w = with_outputs-IsServed p (parse_outputs api.os o.outputs w).0

  -- Where `runBuild` comes to the call of `buildTargets`, `--push` and `--load` do not stand together; with
  -- `--push` the first export is an image that is pushed; with `--load` there is one export into the runtime
  -- where no output was asked for, and else the outputs are as they were, the first a `containerd` or `docker`
  -- one; and without the two the outputs are as they were.
  pub build_request-IsServed :
      (w : api.os.World)
      → Ensures (IsServed (parse_outputs api.os o.outputs w).0) (build_request api o w).0
  unfolding build_request
  build_request-IsServed w = with_parsed-IsServed (parsed api o) w
