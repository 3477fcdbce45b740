-- ===== src/Examples/Targets.antt =====
-- The goroutines of a target, and the loaders.
use buildkit_cli_for_kubectl.Prelude.{
  ℕ, zero, suc, String, ◌≡◌, refl, not, ◌||◌, false, Option, none, some, List, [], ◌∷◌, Result, ok,
  err, Error, external, arith, ◌⊎◌, inl, inr,
}
use buildkit_cli_for_kubectl.Build.Targets.Finish.{Response, Outcome, Finishing, finish}
use buildkit_cli_for_kubectl.Build.Targets.{
  Group, Run, here, next, step, start, solve_returns, wakes, at_end, stored,
}
use buildkit_cli_for_kubectl.Build.Targets.Answers.{IsQuiet, HasAnswer, Settled, Run-HasAnswer}
use buildkit_cli_for_kubectl.Build.Targets.Invariant.{running, failing}
use buildkit_cli_for_kubectl.Build.Targets.Liveness.{Run-EndsQuiet, AllObey}
use buildkit_cli_for_kubectl.Build.Loaders.{close, write_all}
use buildkit_cli_for_kubectl.Build.Loaders.Closing.{starts, goroutine, close_lem, is_some, is_empty}
use buildkit_cli_for_kubectl.Examples.Registry.{registry}

abbrev finishing : Finishing
finishing = record {
  registry = registry;
  is_already_exists = λ e. false;
  write_file = λ name text w. (ok tt, w);
  error_text = λ e. "refused";
  hint = λ i. "log in";
  image_id_file = "id.txt";
  push_names = "";
}

abbrev response : Response
response = record { exporter = ("containerimage.digest", "sha256:7") ∷ [] }

-- Both drivers answer, the second one first.
abbrev last : Group ℕ
last = record {
  phases = stored response ∷ stored response ∷ [];
  wg = 0;
  cancelled = false;
  first_error = none;
  waiter = at_end (some response) (Outcome.returned (ok tt));
  world = 0;
}

both_answer : Run finishing (start finishing 2 false 0) last
unfolding start step finish
both_answer =
    next
      (next (next here (solve_returns 1 (ok response)) refl) (solve_returns 0 (ok response)) refl)
      wakes refl

last-IsQuiet : IsQuiet last
unfolding running failing Settled
last-IsQuiet = record { none_running = refl; none_failing = refl; settled = tt }

Run-HasAnswer_example : HasAnswer finishing 2 0 both_answer
Run-HasAnswer_example =
    Run-HasAnswer finishing 2 false 0 last (omega arith) both_answer last-IsQuiet refl

-- The first driver fails, and the second one answers.
abbrev mixed : ℕ → Result Response
mixed i = elim i [ zero ↦ err (external "no space left") | suc j ↦ ok response ]

Run-EndsQuiet_example :
    (h : Group ℕ) × (r : Run finishing (start finishing 2 false 0) h) × AllObey finishing mixed r
    × IsQuiet h
Run-EndsQuiet_example = Run-EndsQuiet finishing mixed 2 false 0 (start finishing 2 false 0) here

-- The runtime of the first pod refuses the image; that of the second unpacks one.
abbrev answers : ℕ → Option Error ⊎ Result (List (Option Error))
answers i = elim i [ zero ↦ inl (some (external "refused")) | suc j ↦ inr (ok (none ∷ [])) ]

abbrev no_write : ℕ → List ℕ → Option Error
no_write i bytes = none

abbrev no_close : ℕ → Option Error
no_close i = none

abbrev pods : List String
pods = "a" ∷ "b" ∷ []

abbrev writes : List (List ℕ)
writes = (1 ∷ []) ∷ []

close_lem_example :
    ((i : ℕ) → starts (goroutine no_write no_close answers i) ≡ 1)
    × (is_some (
          close no_write no_close (goroutine no_write no_close answers) (
            write_all no_write no_close
              (goroutine no_write no_close answers)
              writes
              (record { names = pods; once = false })))
        ≡ (not (is_empty writes) || is_empty pods))
close_lem_example = close_lem no_write no_close answers pods writes
