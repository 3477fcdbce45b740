-- ===== src/Build/SolveOpt/Release/Loaders.antt =====
-- The loaders that run after `toSolveOpt`, wherever the directories are.
use buildkit_cli_for_kubectl.Prelude.{
  ℕ, ◌+◌, ◌≡◌, refl, ◌∙◌, subst, Bool, List, [], ◌∷◌, String, Result, ok, err, arith,
}
use buildkit_cli_for_kubectl.Prelude.Io.{Io, Io-cases, lift}
use buildkit_cli_for_kubectl.Build.Inputs.{BuildInputs, Target, load_inputs}
use buildkit_cli_for_kubectl.Build.SolveOpt.{
  Services, Options, SolveOpt, Defer, release_dirs, Held, set_up_exports, prepare, held_inputs,
  with_inputs, solve, released, to_solve_opt,
}
use buildkit_cli_for_kubectl.Build.SolveOpt.Release.{
  cancels, only_cancels, cancels-append, run_defers-loaders, Holds, Keeps, set_up_exports-Keeps,
  prepared-Keeps,
}

-- The loaders behind the first `n` will be cancelled.
Counts : ℕ → Held → Type 0
Counts n w = w.loaders ≡ n + cancels w.defers

module _ (services : Services) (n : ℕ) where
  held_inputs-Counts :
      (so : SolveOpt) (w : Held) (r : Result (Target × List String) × List String)
      → Counts n w
      → Counts n (held_inputs services so w r).1
  unfolding held_inputs Counts cancels
  held_inputs-Counts so w (ok (t, ds), dirs) h =
      omega (arith, h, cancels-append w.defers (release_dirs ds ∷ []))
  held_inputs-Counts so w (err e, dirs) h = h

  with_inputs-Counts :
      (inp : BuildInputs) (so : SolveOpt) (w : Held)
      → Counts n w
      → Counts n (with_inputs services inp so w).1
  unfolding with_inputs
  with_inputs-Counts inp so w h =
      held_inputs-Counts so w (load_inputs services.host inp so.inputs w.dirs) h

  solve-Counts :
      (multi_driver : Bool) (opt : Options) (w : Held)
      → Holds n w.dirs w
      → Counts n (solve services multi_driver opt w).1
  unfolding solve Counts
  solve-Counts multi_driver opt w begin =
      Io-cases (λ q. Counts n q.1) (lift (prepare services multi_driver opt)) _ w
        (λ named v e.
          Io-cases (λ q. Counts n q.1) (set_up_exports services opt named) _ v
            (λ es v' e'.
              let k = counts v' (
                after (set_up_exports services opt named) v v' (ok es)
                  (set_up_exports-Keeps services opt named)
                  (after _ w v (ok named) (prepared-Keeps services multi_driver opt) begin e) e') in
              Io-cases (λ q. Counts n q.1) (with_inputs services opt.inputs _) _ v'
                (λ so u e''. subst (λ q. Counts n q.1) e'' (with_inputs-Counts opt.inputs _ v' k))
                (λ x u e''. subst (λ q. Counts n q.1) e'' (with_inputs-Counts opt.inputs _ v' k)))
            (λ x v' e'. counts v' (
              after (set_up_exports services opt named) v v' (err x)
                (set_up_exports-Keeps services opt named)
                (after _ w v (ok named) (prepared-Keeps services multi_driver opt) begin e) e')))
        (λ x v e. counts v (after _ w v (err x) (prepared-Keeps services multi_driver opt) begin e))
    where
      counts : (v : Held) → Holds n w.dirs v → Counts n v
      counts v h = unfold Holds Counts in h.0

      after :
          {A : Type 0} (m : Io Held A) (v v' : Held) (r : Result A)
          → Keeps m
          → Holds n w.dirs v
          → m v ≡ (r, v')
          → Holds n w.dirs v'
      after m v v' r k h e = subst (λ q. Holds n w.dirs q.1) e (unfold Keeps in k n w.dirs v h)

-- The loaders that were started run until the returned calls cancel them; after an error none is left.
unfoldable pub CountsCancels : Held → Result (SolveOpt × List Defer) × Held → Type 0
CountsCancels w (ok (so, ds), v) = v.loaders ≡ w.loaders + cancels ds
CountsCancels w (err e, v) = v.loaders ≡ w.loaders

released-CountsCancels :
    (services : Services) (w : Held) (m : Result SolveOpt × Held)
    → Counts w.loaders m.1
    → CountsCancels w (released services m)
unfolding released Counts CountsCancels
released-CountsCancels services w (ok so, v) h = h
released-CountsCancels services w (err e, v) h = run_defers-loaders v.defers v ∙ omega (arith, h)

pub to_solve_opt-CountsCancels :
    (services : Services) (multi_driver : Bool) (opt : Options) (w : Held)
    → CountsCancels w (to_solve_opt services multi_driver opt w)
unfolding to_solve_opt
to_solve_opt-CountsCancels services multi_driver opt w = released-CountsCancels services w _ (
    solve-Counts services w.loaders multi_driver opt (record w { defers = [] })
      (unfold Holds cancels only_cancels in (omega arith, refl, refl)))
