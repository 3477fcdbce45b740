-- ===== src/Build/Orchestration.antt =====
-- The first loop of `Build` in pkg/build/build.go: the solve options of each target and driver, and the
-- deferred release of what they hold. The loops over the targets and over a target's drivers are one list,
-- in their order.
use buildkit_cli_for_kubectl.Prelude.{
  ℕ, ◌+◌, ◌-◌, ◌≡◌, Bool, List, [], ◌∷◌, ◌++◌, Result, ok, err, arith, ◌∙◌, if◌then◌else◌,
}
use buildkit_cli_for_kubectl.Build.Outputs.{ExportEntry}
use buildkit_cli_for_kubectl.Build.SolveOpt.{
  Services, Options, SolveOpt, Defer, Held, run_defers, to_solve_opt,
}
use buildkit_cli_for_kubectl.Build.SolveOpt.Release.{cancels, run_defers-loaders}
use buildkit_cli_for_kubectl.Build.SolveOpt.Release.Loaders.{
  CountsCancels, to_solve_opt-CountsCancels,
}

-- A driver of a target: whether it is the target's first, what answers it, whether the target has several, and
-- the options with the pair's platforms. The drivers of a target share one slice of exports, in which
-- `toSolveOpt` writes: behind the first, a driver has the exports as the one before it left them.
pub record Part : Type 0 where
  pub is_first : Bool
  pub services : Services
  pub multi_driver : Bool
  pub options : Options

-- `defers`, with what is held
pub record Setting : Type 0 where
  pub defers : List (List Defer)
  pub held : Held

cons_result : SolveOpt → Result (List SolveOpt) × Setting → Result (List SolveOpt) × Setting
cons_result so (ok sos, s) = (ok (so ∷ sos), s)
cons_result so (err e, s) = (err e, s)

after_part :
    List (List Defer)
    → (SolveOpt → Setting → Result (List SolveOpt) × Setting)
    → Result (SolveOpt × List Defer) × Held
    → Result (List SolveOpt) × Setting
unfolding cons_result
after_part defers next (err e, v) = (err e, record { defers = defers; held = v })
after_part defers next (ok (so, release), v) =
    cons_result so (next so (record { defers = defers ++ release ∷ []; held = v }))

-- The options with the shared exports
options_of : List ExportEntry → Part → Options
options_of shared p = if p.is_first then p.options else record p.options { exports = shared }

-- From the exports that the driver before has left
unfoldable pub set_up_parts :
    List ExportEntry → List Part → Setting → Result (List SolveOpt) × Setting
unfolding after_part options_of
set_up_parts shared [] s = (ok [], s)
set_up_parts shared (p ∷ ps) s =
    after_part s.defers (λ so t. set_up_parts so.exports ps t)
      (to_solve_opt p.services p.multi_driver (options_of shared p) s.held)

-- The functions of `defers`, in their order
unfoldable pub run_all : List (List Defer) → Held → Held
run_all [] w = w
run_all (ds ∷ dss) w = run_all dss (run_defers ds w)

-- The deferred function, which runs them where there is an error
deferred : Result (List SolveOpt) × Setting → Result (List SolveOpt) × Setting
unfolding run_all
deferred (ok sos, s) = (ok sos, s)
deferred (err e, s) = (err e, record s { held = run_all s.defers s.held })

unfoldable pub set_up : List Part → Held → Result (List SolveOpt) × Setting
unfolding deferred set_up_parts
set_up ps w = deferred (set_up_parts [] ps (record { defers = []; held = w }))

all_cancels : List (List Defer) → ℕ
all_cancels [] = 0
all_cancels (ds ∷ dss) = cancels ds + all_cancels dss

all_cancels-append :
    (dss : List (List Defer)) (ds : List Defer)
    → all_cancels (dss ++ ds ∷ []) ≡ all_cancels dss + cancels ds
unfolding all_cancels
all_cancels-append [] ds = omega arith
all_cancels-append (es ∷ dss) ds = omega (arith, all_cancels-append dss ds)

run_all-loaders :
    (dss : List (List Defer)) (w : Held) → (run_all dss w).loaders ≡ w.loaders - all_cancels dss
unfolding run_all all_cancels
run_all-loaders [] w = omega arith
run_all-loaders (ds ∷ dss) w =
    omega (arith, run_all-loaders dss (run_defers ds w), run_defers-loaders ds w)

-- The loaders behind the first `n` are those that the deferred calls cancel.
Awaits : ℕ → Result (List SolveOpt) × Setting → Type 0
Awaits n (r, s) = s.held.loaders ≡ n + all_cancels s.defers

cons_result-Awaits :
    (n : ℕ) (so : SolveOpt) (m : Result (List SolveOpt) × Setting)
    → Awaits n m
    → Awaits n (cons_result so m)
unfolding cons_result Awaits
cons_result-Awaits n so (ok sos, s) h = h
cons_result-Awaits n so (err e, s) h = h

after_part-Awaits :
    (n : ℕ) (defers : List (List Defer))
    (next : SolveOpt → Setting → Result (List SolveOpt) × Setting) (w : Held)
    (m : Result (SolveOpt × List Defer) × Held)
    → w.loaders ≡ n + all_cancels defers
    → CountsCancels w m
    → ((so : SolveOpt) (t : Setting)
        → t.held.loaders ≡ n + all_cancels t.defers
        → Awaits n (next so t))
    → Awaits n (after_part defers next m)
unfolding after_part Awaits CountsCancels
after_part-Awaits n defers next w (err e, v) h k later = k ∙ h
after_part-Awaits n defers next w (ok (so, ds), v) h k later =
    cons_result-Awaits n so _ (later so _ (omega (arith, h, k, all_cancels-append defers ds)))

set_up_parts-Awaits :
    (n : ℕ) (shared : List ExportEntry) (ps : List Part) (s : Setting)
    → s.held.loaders ≡ n + all_cancels s.defers
    → Awaits n (set_up_parts shared ps s)
unfolding set_up_parts Awaits
set_up_parts-Awaits n shared [] s h = h
set_up_parts-Awaits n shared (p ∷ ps) s h =
    after_part-Awaits n s.defers (λ so t. set_up_parts so.exports ps t) s.held
      (to_solve_opt p.services p.multi_driver (options_of shared p) s.held) h
      (to_solve_opt-CountsCancels p.services p.multi_driver (options_of shared p) s.held)
      (λ so t k. set_up_parts-Awaits n so.exports ps t k)

-- What comes out of the set-up: after an error the loaders of before, and after a success those together
-- with the loaders that the functions in `defers` cancel.
pub LeavesLoaders : Held → Result (List SolveOpt) × Setting → Type 0
LeavesLoaders w (ok sos, s) = (run_all s.defers s.held).loaders ≡ w.loaders
LeavesLoaders w (err e, s) = s.held.loaders ≡ w.loaders

deferred-LeavesLoaders :
    (w : Held) (m : Result (List SolveOpt) × Setting)
    → Awaits w.loaders m
    → LeavesLoaders w (deferred m)
unfolding deferred Awaits LeavesLoaders
deferred-LeavesLoaders w (ok sos, s) h = run_all-loaders s.defers s.held ∙ omega (arith, h)
deferred-LeavesLoaders w (err e, s) h = run_all-loaders s.defers s.held ∙ omega (arith, h)

-- Where the solve options of some target cannot be set up, every loader that `Build` has started for this and
-- the other targets is cancelled; where they all can, the functions in `defers` would cancel them.
pub set_up-LeavesLoaders : (ps : List Part) (w : Held) → LeavesLoaders w (set_up ps w)
unfolding set_up
set_up-LeavesLoaders ps w = deferred-LeavesLoaders w _ (
    set_up_parts-Awaits w.loaders [] ps (record { defers = []; held = w })
      (unfold all_cancels in (omega arith)))
