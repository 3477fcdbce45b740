-- ===== src/Build/SolveOpt/Release.antt =====
-- What is held after `toSolveOpt`.
pub mod Loaders
use buildkit_cli_for_kubectl.Prelude.{
  ℕ, suc, ◌+◌, ◌-◌, String, ◌≡◌, refl, sym, subst, ◌∙◌, Bool, true, false, List, [], ◌∷◌, ◌++◌,
  Result, ok, err, Error, if◌then◌else◌, is_in, arith,
}
use buildkit_cli_for_kubectl.Prelude.Io.{Io, Io-cases, pure, throw, lift, ◌>>=◌}
use buildkit_cli_for_kubectl.Build.Outputs.{ExportEntry}
use buildkit_cli_for_kubectl.Build.Inputs.{BuildInputs, Target, load_inputs, release}
use buildkit_cli_for_kubectl.Build.Inputs.Release.{RestoresInputs, load_inputs-release}
use buildkit_cli_for_kubectl.Build.SolveOpt.{
  Services, Options, SolveOpt, Defer, cancel, release_dirs, Held, run_defer, run_defers, loaded,
  docker_export, image_to_nodes, image_export, set_up_export, set_up_exports, prepare, held_inputs,
  with_inputs, finish, solve, released, to_solve_opt,
}

pub cancels : List Defer → ℕ
cancels [] = 0
cancels (cancel ∷ ds) = suc (cancels ds)
cancels (release_dirs xs ∷ ds) = cancels ds

only_cancels : List Defer → Bool
only_cancels [] = true
only_cancels (cancel ∷ ds) = only_cancels ds
only_cancels (release_dirs xs ∷ ds) = false

dirs_after : List Defer → List String → List String
dirs_after [] w = w
dirs_after (cancel ∷ ds) w = dirs_after ds w
dirs_after (release_dirs xs ∷ ds) w = dirs_after ds (release xs w)

pub run_defers-loaders :
    (ds : List Defer) (w : Held) → (run_defers ds w).loaders ≡ w.loaders - cancels ds
unfolding run_defers run_defer cancels
run_defers-loaders [] w = omega arith
run_defers-loaders (cancel ∷ ds) w = omega (arith, run_defers-loaders ds (run_defer cancel w))
run_defers-loaders (release_dirs xs ∷ ds) w = run_defers-loaders ds (run_defer (release_dirs xs) w)

run_defers-dirs : (ds : List Defer) (w : Held) → (run_defers ds w).dirs ≡ dirs_after ds w.dirs
unfolding run_defers run_defer dirs_after
run_defers-dirs [] w = refl
run_defers-dirs (cancel ∷ ds) w = run_defers-dirs ds (run_defer cancel w)
run_defers-dirs (release_dirs xs ∷ ds) w = run_defers-dirs ds (run_defer (release_dirs xs) w)

cancels-append : (ds es : List Defer) → cancels (ds ++ es) ≡ cancels ds + cancels es
unfolding cancels
cancels-append [] es = omega arith
cancels-append (cancel ∷ ds) es = omega (arith, cancels-append ds es)
cancels-append (release_dirs xs ∷ ds) es = cancels-append ds es

only_cancels-append : (ds : List Defer) → only_cancels (ds ++ cancel ∷ []) ≡ only_cancels ds
unfolding only_cancels
only_cancels-append [] = refl
only_cancels-append (cancel ∷ ds) = only_cancels-append ds
only_cancels-append (release_dirs xs ∷ ds) = refl

dirs_after-append :
    (ds es : List Defer) (w : List String)
    → only_cancels ds ≡ true
    → dirs_after (ds ++ es) w ≡ dirs_after es w
unfolding dirs_after only_cancels
dirs_after-append [] es w h = refl
dirs_after-append (cancel ∷ ds) es w h = dirs_after-append ds es w h
dirs_after-append (release_dirs xs ∷ ds) es w h = absurd (cc)

-- Before the inputs: the loaders behind the first `n` will be cancelled, and the directories are `dirs`.
Holds : ℕ → List String → Held → Type 0
Holds n dirs w =
    (w.loaders ≡ n + cancels w.defers) × (w.dirs ≡ dirs) × (only_cancels w.defers ≡ true)

-- The deferred calls put back what was held.
Balanced : ℕ → List String → Held → Type 0
Balanced n dirs w = (w.loaders ≡ n + cancels w.defers) × (dirs_after w.defers w.dirs ≡ dirs)

Keeps : {A : Type 0} → Io Held A → Type 0
Keeps m = (n : ℕ) (dirs : List String) (w : Held) → Holds n dirs w → Holds n dirs (m w).1

module _ {A B : Type 0} where
  bind-Keeps :
      (m : Io Held A) (f : A → Io Held B) → Keeps m → ((a : A) → Keeps (f a)) → Keeps (m >>= f)
  unfolding Keeps
  bind-Keeps m f k l n dirs w h =
      Io-cases (λ r. Holds n dirs r.1) m f w
        (λ a v e. l a n dirs v (subst (λ r. Holds n dirs r.1) e (k n dirs w h)))
        (λ x v e. subst (λ r. Holds n dirs r.1) e (k n dirs w h))

module _ {A : Type 0} where
  if-Keeps : (b : Bool) (m k : Io Held A) → Keeps m → Keeps k → Keeps (if b then m else k)
  if-Keeps true m k h l = h
  if-Keeps false m k h l = l

  same-Keeps : (r : Result A) → Keeps (lift r)
  unfolding Keeps
  same-Keeps r n dirs w h = h

  pure-Keeps : (a : A) → Keeps (pure {W = Held} a)
  unfolding Keeps
  pure-Keeps a n dirs w h = h

throw-Keeps : (A : Type 0) (e : Error) → Keeps {A = A} (throw e)
unfolding Keeps
throw-Keeps A e n dirs w h = h

module _ (services : Services) where
  loaded-Keeps : (e : ExportEntry) (r : Result (Unit {0})) → Keeps (loaded services e r)
  unfolding Keeps Holds loaded cancels
  loaded-Keeps e (err x) n dirs w h = h
  loaded-Keeps e (ok u) n dirs w h = (
    omega (arith, h.0, cancels-append w.defers (cancel ∷ [])),
    h.1,
    only_cancels-append w.defers ∙ h.2,
  )

  docker_export-Keeps : (e : ExportEntry) → Keeps (docker_export services e)
  unfolding docker_export
  docker_export-Keeps e = search (if-Keeps, pure-Keeps, throw-Keeps, loaded-Keeps)

  image_to_nodes-Keeps :
      (e : ExportEntry) (r : Result (List ℕ)) → Keeps (image_to_nodes services e r)
  unfolding image_to_nodes
  image_to_nodes-Keeps e (err x) = throw-Keeps ExportEntry x
  image_to_nodes-Keeps e (ok nodes) = search (if-Keeps, pure-Keeps, loaded-Keeps)

  image_export-Keeps : (e : ExportEntry) → Keeps (image_export services e)
  unfolding image_export
  image_export-Keeps e = search (if-Keeps, throw-Keeps, image_to_nodes-Keeps)

  set_up_export-Keeps : (opt : Options) (e : ExportEntry) → Keeps (set_up_export services opt e)
  unfolding set_up_export
  set_up_export-Keeps opt e =
      search (if-Keeps, pure-Keeps, throw-Keeps, docker_export-Keeps, image_export-Keeps) depth 10

  set_up_exports-Keeps :
      (opt : Options) (es : List ExportEntry) → Keeps (set_up_exports services opt es)
  unfolding set_up_exports
  set_up_exports-Keeps opt [] = pure-Keeps []
  set_up_exports-Keeps opt (e ∷ es) =
      bind-Keeps _ _ (set_up_export-Keeps opt e)
        (λ e'. bind-Keeps _ _ (set_up_exports-Keeps opt es) (λ es'. pure-Keeps (e' ∷ es')))

  prepared-Keeps :
      (multi_driver : Bool) (opt : Options) → Keeps (lift (prepare services multi_driver opt))
  prepared-Keeps multi_driver opt = same-Keeps (prepare services multi_driver opt)

-- After the code: an error leaves no loader running, and a success leaves what the returned `release`
-- puts back.
abbrev pub IsReleased : Held → Result (SolveOpt × List Defer) × Held → Type 0
IsReleased w (ok (so, ds), v) =
    ((run_defers ds v).loaders ≡ w.loaders) × ((run_defers ds v).dirs ≡ w.dirs)
IsReleased w (err e, v) = v.loaders ≡ w.loaders

-- The same before the deferred function.
Settled : ℕ → List String → Result SolveOpt × Held → Type 0
Settled n dirs (ok so, v) = Balanced n dirs v
Settled n dirs (err e, v) = v.loaders ≡ n + cancels v.defers

released-IsReleased :
    (services : Services) (w : Held) (r : Result SolveOpt × Held)
    → Settled w.loaders w.dirs r
    → IsReleased w (released services r)
unfolding released Settled Balanced
released-IsReleased services w (ok so, v) h =
    (run_defers-loaders v.defers v ∙ omega (arith, h.0), run_defers-dirs v.defers v ∙ h.1)
released-IsReleased services w (err e, v) h = run_defers-loaders v.defers v ∙ omega (arith, h)

lift-Settled :
    (n : ℕ) (dirs : List String) (r : Result SolveOpt) (v : Held)
    → Balanced n dirs v
    → Settled n dirs (lift r v)
unfolding Settled Balanced
lift-Settled n dirs (ok so) v h = h
lift-Settled n dirs (err e) v h = h.0

error-Settled :
    (n : ℕ) (dirs : List String) (e : Error) (v : Held) → Holds n dirs v → Settled n dirs (err e, v)
unfolding Settled Holds
error-Settled n dirs e v h = h.0

held_inputs-Settled :
    (services : Services) (so : SolveOpt) (n : ℕ) (dirs : List String) (w : Held)
    (r : Result (Target × List String) × List String)
    → Holds n dirs w
    → RestoresInputs dirs r
    → Settled n dirs (held_inputs services so w r)
unfolding Settled Balanced Holds held_inputs dirs_after cancels
held_inputs-Settled services so n dirs w (ok (t, ds), dirs') h k = (
  omega (arith, h.0, cancels-append w.defers (release_dirs ds ∷ [])),
  dirs_after-append w.defers (release_dirs ds ∷ []) dirs' h.2 ∙ k,
)
held_inputs-Settled services so n dirs w (err e, dirs') h k = h.0

module _ (services : Services)
    (fresh : (pattern d : String) (w : List String)
      → services.host.temp_dir pattern w ≡ ok d
      → is_in d w ≡ false) where
  with_inputs-Settled :
      (inp : BuildInputs) (so : SolveOpt) (n : ℕ) (dirs : List String) (w : Held)
      → is_in "" dirs ≡ false
      → Holds n dirs w
      → Settled n dirs (with_inputs services inp so w)
  unfolding with_inputs
  with_inputs-Settled inp so n dirs w empty h = held_inputs-Settled services so n dirs w _ h (
      subst (λ ds. RestoresInputs ds (load_inputs services.host inp so.inputs w.dirs)) (dirs_eq h)
        (load_inputs-release services.host fresh w.dirs
          (subst (λ ds. is_in "" ds ≡ false) (sym (dirs_eq h)) empty) inp so.inputs))
    where
      dirs_eq : Holds n dirs w → w.dirs ≡ dirs
      dirs_eq h = unfold Holds in h.1

  -- What `toSolveOpt` holds it gives back: after an error every loader that it started is cancelled, and
  -- after a success the returned function cancels the loaders and removes the temporary directories, and
  -- nothing else. New temporary directories do not have the name of one that exists, and no directory
  -- that existed before has the empty name.
  pub to_solve_opt-IsReleased :
      (multi_driver : Bool) (opt : Options) (w : Held)
      → is_in "" w.dirs ≡ false
      → IsReleased w (to_solve_opt services multi_driver opt w)
  unfolding to_solve_opt solve Settled
  to_solve_opt-IsReleased multi_driver opt w empty = released-IsReleased services w _ (
      Io-cases (Settled n dirs) (lift (prepare services multi_driver opt)) _ start
        (λ named v e.
          Io-cases (Settled n dirs) (set_up_exports services opt named) _ v
            (λ es v' e'.
              let h' =
                after (set_up_exports services opt named) v v' (ok es)
                  (set_up_exports-Keeps services opt named)
                  (after _ start v (ok named) (prepared-Keeps services multi_driver opt) begin e)
                  e' in
              Io-cases (Settled n dirs) (with_inputs services opt.inputs _) _ v'
                (λ so u e''. lift-Settled n dirs (finish services opt so) u (
                  subst (Settled n dirs) e'' (with_inputs-Settled opt.inputs _ n dirs v' empty h')))
                (λ x u e''.
                  subst (Settled n dirs) e'' (with_inputs-Settled opt.inputs _ n dirs v' empty h')))
            (λ x v' e'. error-Settled n dirs x v' (
              after (set_up_exports services opt named) v v' (err x)
                (set_up_exports-Keeps services opt named)
                (after _ start v (ok named) (prepared-Keeps services multi_driver opt) begin e)
                e')))
        (λ x v e.
          error-Settled n dirs x v
            (after _ start v (err x) (prepared-Keeps services multi_driver opt) begin e)))
    where
      n : ℕ
      n = w.loaders

      dirs : List String
      dirs = w.dirs

      start : Held
      start = record w { defers = [] }

      begin : Holds n dirs start
      begin = unfold Holds cancels only_cancels in (omega arith, refl, refl)

      after :
          {A : Type 0} (m : Io Held A) (v v' : Held) (r : Result A)
          → Keeps m
          → Holds n dirs v
          → m v ≡ (r, v')
          → Holds n dirs v'
      after m v v' r k h e = subst (λ q. Holds n dirs q.1) e (unfold Keeps in k n dirs v h)
