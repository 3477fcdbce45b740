-- ===== src/Build/Targets.antt =====
-- The goroutines of a target in `Build` of pkg/build/build.go: those that solve on the target's drivers, and
-- the one that waits for them. `Targets.Finish` is what the latter does with the responses; here are the
-- steps of all of them, one event each, in any order. A goroutine that returns tells its wait group first,
-- and the error group learns of its error in a later step.
pub mod Finish
pub mod Invariant
pub mod Replies
pub mod Answers
pub mod Liveness
use buildkit_cli_for_kubectl.Prelude.{
  ℕ, zero, suc, ◌-◌, String, Bool, true, false, Option, none, some, List, [], ◌∷◌, map, Result, ok,
  err, Error, wrapf, external, nat_eq, if◌then◌else◌, ◌≡◌,
}
use buildkit_cli_for_kubectl.Text.Case.{to_lower}
use buildkit_cli_for_kubectl.Text.Contains.{contains}
use Finish.{Response, Outcome, Finishing, finish}

-- Where the goroutine of a driver is: in `Solve`, returned with its response, returned with an error that
-- the error group has not seen, or seen
pub data Phase : Type 0 where
  solving : Phase
  stored : Response → Phase
  failed : Error → Phase
  seen : Error → Phase

-- Where the goroutine that waits is: before `wg.Wait` returns, at its return with what it has done, stopped
-- by the context, and after the error group has seen the error
pub data Waiter : Type 0 where
  waits : Waiter
  at_end : Option Response → Outcome → Waiter
  stopped : Waiter
  left : Waiter

-- A target's part of the error group: the phases, the wait group's counter, whether the context is done, and
-- the error group's first error
pub record Group (W : Type 0) : Type 0 where
  pub phases : List Phase
  pub wg : ℕ
  pub cancelled : Bool
  pub first_error : Option Error
  pub waiter : Waiter
  pub world : W

pub data Event : Type 0 where
  -- `Solve` returns on the driver with that index.
  solve_returns : ℕ → Result Response → Event
  -- The error group sees what the goroutine of a driver, or the one that waits, returned.
  sees_solve : ℕ → Event
  sees_waiter : Event
  wakes : Event
  -- The caller's context is done.
  interrupted : Event

abbrev pub context_done : Error
context_done = external "context canceled"

-- `res[i]`
abbrev pub slot : Phase → Option Response
slot solving = none
slot (stored r) = some r
slot (failed e) = none
slot (seen e) = none

after_solve : Result Response → Phase
after_solve (ok r) = stored r
after_solve (err e) = failed e

cons_phase : Phase → Option (List Phase) → Option (List Phase)
cons_phase p none = none
cons_phase p (some ps) = some (p ∷ ps)

cons_seen : Phase → Option (Error × List Phase) → Option (Error × List Phase)
cons_seen p none = none
cons_seen p (some (e, ps)) = some (e, p ∷ ps)

-- The goroutine with that index leaves `Solve`.
pub solve_at : ℕ → Result Response → List Phase → Option (List Phase)
unfolding after_solve cons_phase
solve_at i r [] = none
solve_at zero r (solving ∷ ps) = some (after_solve r ∷ ps)
solve_at zero r (stored s ∷ ps) = none
solve_at zero r (failed e ∷ ps) = none
solve_at zero r (seen e ∷ ps) = none
solve_at (suc i) r (p ∷ ps) = cons_phase p (solve_at i r ps)

pub see_at : ℕ → List Phase → Option (Error × List Phase)
unfolding cons_seen
see_at i [] = none
see_at zero (solving ∷ ps) = none
see_at zero (stored r ∷ ps) = none
see_at zero (failed e ∷ ps) = some (e, seen e ∷ ps)
see_at zero (seen e ∷ ps) = none
see_at (suc i) (p ∷ ps) = cons_seen p (see_at i ps)

-- An error of `Solve` that speaks of a missing login gets the driver's hint.
module _ (error_text : Error → String) (hint : ℕ → String) where
  hinted : ℕ → Result Response → Result Response
  hinted i (ok r) = ok r
  hinted i (err e) =
      if contains (to_lower (error_text e)) "401 unauthorized"
      then err (wrapf e (hint i) [])
      else err e

-- The first error of a group stays, and every error ends its context.
first_of : Option Error → Error → Error
first_of none e = e
first_of (some first) e = first

module _ {W : Type 0} where
  see_error : Error → Group W → Group W
  unfolding first_of
  see_error e g = record g { cancelled = true; first_error = some (first_of g.first_error e) }

  after_return : Group W → Option (List Phase) → Option (Group W)
  after_return g none = none
  after_return g (some ps) = some (record g { phases = ps; wg = g.wg - 1 })

  after_sight : Group W → Option (Error × List Phase) → Option (Group W)
  unfolding see_error
  after_sight g none = none
  after_sight g (some (e, ps)) = some (see_error e (record g { phases = ps }))

  see_end : Group W → Waiter → Option (Group W)
  unfolding see_error
  see_end g waits = none
  see_end g (at_end entry (Outcome.returned (ok u))) = none
  see_end g (at_end entry (Outcome.returned (err e))) =
      some (see_error e (record g { waiter = left }))
  see_end g (at_end entry Outcome.panicked) = none
  see_end g stopped = some (see_error context_done (record g { waiter = left }))
  see_end g left = none

  interrupt : Group W → Bool → Option (Group W)
  interrupt g true = none
  interrupt g false = some (record g { cancelled = true })

module _ {W : Type 0} where
  with_end : Group W → (Option Response × Outcome) × W → Group W
  with_end g ((entry, out), w) = record g { waiter = at_end entry out; world = w }

module _ (f : Finishing) where
  -- After `wg.Wait`, the context is looked at once.
  woken : Group f.World → Bool → Group f.World
  unfolding with_end
  woken g true = record g { waiter = stopped }
  woken g false = with_end g (finish f (map slot g.phases) g.world)

  wake : Group f.World → Waiter → Option (Group f.World)
  unfolding woken
  wake g waits = if nat_eq g.wg 0 then some (woken g g.cancelled) else none
  wake g (at_end entry out) = none
  wake g stopped = none
  wake g left = none

  unfoldable pub step : Event → Group f.World → Option (Group f.World)
  unfolding solve_at see_at hinted after_return after_sight see_end interrupt wake
  step (solve_returns i r) g = after_return g (solve_at i (hinted f.error_text f.hint i r) g.phases)
  step (sees_solve i) g = after_sight g (see_at i g.phases)
  step sees_waiter g = see_end g g.waiter
  step wakes g = wake g g.waiter
  step interrupted g = interrupt g g.cancelled

  -- The runs of a target's goroutines
  pub data Run (g : Group f.World) : Group f.World → Type 0 where
    here : Run g g
    next : {h k : Group f.World} → Run g h → (e : Event) → step e h ≡ some k → Run g k

  replicate : ℕ → List Phase
  replicate zero = []
  replicate (suc n) = solving ∷ replicate n

  -- `wg.Add(len(dps))`, and the goroutines begin; `done` tells whether the context is done by then.
  unfoldable pub start : ℕ → Bool → f.World → Group f.World
  unfolding replicate
  start n done w = record {
    phases = replicate n;
    wg = n;
    cancelled = done;
    first_error = none;
    waiter = waits;
    world = w;
  }
