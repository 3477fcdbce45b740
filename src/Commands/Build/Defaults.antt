-- ===== src/Commands/Build/Defaults.antt =====
-- The default of the build command of pkg/cmd/build.go: without an output and without `--push`, the image is
-- loaded into the runtime.
use buildkit_cli_for_kubectl.Prelude.{
  String, ◌≡◌, refl, Bool, true, false, not, ◌&&◌, ◌||◌, List, [], ◌∷◌, Result, ok, err, Ensures,
  Ensures-rest, Ensures-bind, Bool-cases, inl, inr, ◌==◌,
}
use buildkit_cli_for_kubectl.Prelude.Io.{Io, Io-Ensures}
use buildkit_cli_for_kubectl.Build.Outputs.{ExportEntry, parse_outputs, parse_output}
use buildkit_cli_for_kubectl.Commands.Build.{
  BuildApi, BuildOptions, Request, build_request, Parsed, parsed, finished, with_outputs,
  with_parsed, choose_exports, push_outputs, load_outputs,
}
use buildkit_cli_for_kubectl.Build.Cache.{parse_cache_entry}
use buildkit_cli_for_kubectl.Build.Entitlements.{parse_entitlements}

abbrev is_empty {ℓ} : {A : Type ℓ} → List A → Bool
is_empty [] = true
is_empty (x ∷ xs) = false

-- `if len(options.outputs) == 0 && !options.exportPush`
unfoldable pub default_load : BuildOptions → BuildOptions
default_load o = record o {
  export_load = o.export_load || (is_empty o.outputs && not o.export_push);
}

-- What the command hands to `buildTargets`
unfoldable pub build_command : (api : BuildApi) → BuildOptions → Io api.os.World (Request api)
unfolding default_load
build_command api o = build_request api (default_load o)

HasOne : List ExportEntry → Type 0
HasOne es = is_empty es ≡ false

choose_exports-HasOne :
    (push load : Bool) (es : List ExportEntry)
    → (push || (load || not (is_empty es))) ≡ true
    → Ensures HasOne (choose_exports push load es)
unfolding choose_exports push_outputs load_outputs HasOne
choose_exports-HasOne true true [] h = tt
choose_exports-HasOne true false [] h = refl
choose_exports-HasOne true true (e ∷ es) h = tt
choose_exports-HasOne true false (e ∷ es) h = elim (Bool-cases (e.kind == "image")) [
  | inl image ↦ rw image refl
  | inr other ↦ rw other tt
]
choose_exports-HasOne false true [] h = refl
choose_exports-HasOne false true (e ∷ es) h =
    elim (Bool-cases (e.kind == "containerd" || e.kind == "docker")) [
      | inl runtime ↦ rw runtime refl
      | inr other ↦ rw other tt
    ]
choose_exports-HasOne false false [] h = absurd (cc)
choose_exports-HasOne false false (e ∷ es) h = refl

anything {ℓ} : {A : Type ℓ} (m : Result A) → Ensures (λ (a : A). Unit {0}) m
anything (ok a) = tt
anything (err e) = tt

module _ (api : BuildApi) where
  -- The request has an export.
  pub Exports : Request api → Type 0
  Exports r = HasOne r.options.exports

  -- An output for each flag, so that none are lost
  SameEmpty : List String → List ExportEntry → Type 0
  SameEmpty inp es = is_empty es ≡ is_empty inp

  parse_outputs-SameEmpty :
      (inp : List String) (w : api.os.World)
      → Ensures (SameEmpty inp) (parse_outputs api.os inp w).0
  unfolding parse_outputs SameEmpty
  parse_outputs-SameEmpty [] w = refl
  parse_outputs-SameEmpty (s ∷ inp) w =
      Io-Ensures (λ (e : ExportEntry). Unit {0}) (SameEmpty (s ∷ inp)) (parse_output api.os s) _ w
        (anything (parse_output api.os s w).0)
        (λ out v u.
          Io-Ensures (λ (es : List ExportEntry). Unit {0}) (SameEmpty (s ∷ inp))
            (parse_outputs api.os inp) _ v (anything (parse_outputs api.os inp v).0)
            (λ outs x t. refl))

  finished-Exports :
      (o : BuildOptions) (p : Parsed api) (es : List ExportEntry)
      → HasOne es
      → Ensures Exports (finished api o p es)
  unfolding finished Exports
  finished-Exports o p es h = Ensures-rest Exports (parse_cache_entry o.cache_from) _ (λ from.
      Ensures-rest Exports (parse_cache_entry o.cache_to) _
        (λ to. Ensures-rest Exports (parse_entitlements o.allow) _ (λ allow. h)))

  with_outputs-Exports :
      (o : BuildOptions) (p : Parsed api) (outputs : Result (List ExportEntry))
      → Ensures (SameEmpty o.outputs) outputs
      → (o.export_push || (o.export_load || not (is_empty o.outputs))) ≡ true
      → Ensures Exports (with_outputs api o p outputs)
  unfolding with_outputs SameEmpty
  with_outputs-Exports o p (err e) same h = tt
  with_outputs-Exports o p (ok es) same h =
      Ensures-bind HasOne Exports (choose_exports o.export_push o.export_load es) (finished api o p)
        (choose_exports-HasOne o.export_push o.export_load es (rw same h)) (finished-Exports o p)

  with_parsed-Exports :
      (o : BuildOptions) (m : Result (Parsed api)) (w : api.os.World)
      → (o.export_push || (o.export_load || not (is_empty o.outputs))) ≡ true
      → Ensures Exports (with_parsed api o m w).0
  unfolding with_parsed
  with_parsed-Exports o (err e) w h = tt
  with_parsed-Exports o (ok p) w h =
      with_outputs-Exports o p (parse_outputs api.os o.outputs w).0
        (parse_outputs-SameEmpty o.outputs w) h

  some_output :
      (push load none_given : Bool)
      → (push || ((load || (none_given && not push)) || not none_given)) ≡ true
  some_output true load none_given = refl
  some_output false true none_given = refl
  some_output false false true = refl
  some_output false false false = refl

  -- Whatever flags the build command is given, where it comes to the build there is an export.
  pub build_command-Exports :
      (o : BuildOptions) (w : api.os.World) → Ensures Exports (build_command api o w).0
  unfolding build_command build_request default_load
  build_command-Exports o w =
      with_parsed-Exports (default_load o) (parsed api (default_load o)) w
        (some_output o.export_push o.export_load (is_empty o.outputs))
