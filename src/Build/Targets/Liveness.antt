-- ===== src/Build/Targets/Liveness.antt =====
-- The runs of a target's goroutines: each is short, and each can go on until all have ended.
use buildkit_cli_for_kubectl.Prelude.{
  ℕ, zero, suc, ◌+◌, ◌-◌, ◌*◌, ◌≤◌, ◌<◌, ◌≡◌, refl, ap, Bool, true, false, Option, none, some, List,
  [], ◌∷◌, map, Result, ok, err, Error, arith, Bool-cases, inl, inr, ◌⊎◌, nat_eq, Given, Given-some,
}
use buildkit_cli_for_kubectl.Build.Targets.Finish.{Response, Outcome, Finishing, finish}
use buildkit_cli_for_kubectl.Build.Targets.{
  Phase, solving, stored, failed, seen, Waiter, waits, at_end, stopped, left, Group, Event,
  solve_returns, sees_solve, sees_waiter, wakes, interrupted, slot, solve_at, see_at, cons_phase,
  cons_seen, hinted, after_return, after_sight, see_error, see_end, interrupt, woken, wake, step,
  start, with_end, Run, here, next, context_done, after_solve,
}
use buildkit_cli_for_kubectl.Build.Targets.Invariant.{
  running, failing, Inv, Run-Inv, start-Inv, Solved, Seen, solve_at-Solved, see_at-Seen, step-Inv,
}
use buildkit_cli_for_kubectl.Build.Targets.Answers.{Settled, IsQuiet}

-- What is left to do for the goroutine that waits, and for the context
abbrev pub waiter_work : Waiter → ℕ
waiter_work waits = 2
waiter_work (at_end entry (Outcome.returned (ok u))) = 0
waiter_work (at_end entry (Outcome.returned (err e))) = 1
waiter_work (at_end entry Outcome.panicked) = 0
waiter_work stopped = 1
waiter_work left = 0

abbrev pub context_work : Bool → ℕ
context_work true = 0
context_work false = 1

pub work : {W : Type 0} → Group W → ℕ
work g = 2 * running g.phases + failing g.phases + waiter_work g.waiter + context_work g.cancelled

context_le : (b : Bool) → context_work true ≤ context_work b
context_le true = omega arith
context_le false = omega arith

outcome_le : (entry : Option Response) (out : Outcome) → waiter_work (at_end entry out) ≤ 1
outcome_le entry (Outcome.returned (ok u)) = omega arith
outcome_le entry (Outcome.returned (err e)) = omega arith
outcome_le entry Outcome.panicked = omega arith

module _ {W : Type 0} where
  after_return-work :
      (g : Group W) (o : Option (List Phase))
      → Given (Solved g.phases) o
      → Given (λ (h : Group W). work h < work g) (after_return g o)
  unfolding after_return work
  after_return-work g none s = tt
  after_return-work g (some qs) s = omega (arith, s.one_less, s.new_errors)

  after_sight-work :
      (g : Group W) (o : Option (Error × List Phase))
      → Given (Seen g.phases) o
      → Given (λ (h : Group W). work h < work g) (after_sight g o)
  unfolding after_sight see_error work
  after_sight-work g none s = tt
  after_sight-work g (some (e, qs)) s =
      omega (arith, s.one_less, s.same_running, context_le g.cancelled)

  see_end-work :
      (g : Group W) (t : Waiter)
      → g.waiter ≡ t
      → Given (λ (h : Group W). work h < work g) (see_end g t)
  unfolding see_end see_error work
  see_end-work g waits e = tt
  see_end-work g (at_end entry (Outcome.returned (ok u))) e = tt
  see_end-work g (at_end entry (Outcome.returned (err x))) e =
      omega (arith, ap waiter_work e, context_le g.cancelled)
  see_end-work g (at_end entry Outcome.panicked) e = tt
  see_end-work g stopped e = omega (arith, ap waiter_work e, context_le g.cancelled)
  see_end-work g left e = tt

  interrupt-work :
      (g : Group W) (done : Bool)
      → g.cancelled ≡ done
      → Given (λ (h : Group W). work h < work g) (interrupt g done)
  unfolding interrupt work
  interrupt-work g true c = tt
  interrupt-work g false c = omega (arith, ap context_work c)

  with_end-work :
      (g : Group W) (r : (Option Response × Outcome) × W)
      → g.waiter ≡ waits
      → work (with_end g r) < work g
  unfolding with_end work
  with_end-work g ((entry, out), w) e = omega (arith, ap waiter_work e, outcome_le entry out)

CanSolve : (ℕ → Result Response) → List Phase → Type 0
CanSolve rs ps = (i : ℕ) × (qs : List Phase) × (solve_at i (rs i) ps ≡ some qs)

solve_later :
    (rs : ℕ → Result Response) (p : Phase) (ps : List Phase)
    → CanSolve (λ i. rs (suc i)) ps
    → CanSolve rs (p ∷ ps)
unfolding CanSolve solve_at cons_phase
solve_later rs p ps (i, qs, e) = (suc i, p ∷ qs, ap (cons_phase p) e)

solve_enabled : (rs : ℕ → Result Response) (ps : List Phase) → 0 < running ps → CanSolve rs ps
unfolding running CanSolve solve_at
solve_enabled rs [] h = absurd (omega (arith, h))
solve_enabled rs (solving ∷ ps) h = (0, after_solve (rs 0) ∷ ps, refl)
solve_enabled rs (stored r ∷ ps) h =
    solve_later rs (stored r) ps (solve_enabled (λ i. rs (suc i)) ps (omega (arith, h)))
solve_enabled rs (failed e ∷ ps) h =
    solve_later rs (failed e) ps (solve_enabled (λ i. rs (suc i)) ps (omega (arith, h)))
solve_enabled rs (seen e ∷ ps) h =
    solve_later rs (seen e) ps (solve_enabled (λ i. rs (suc i)) ps (omega (arith, h)))

CanSee : List Phase → Type 0
CanSee ps = (i : ℕ) × (r : Error × List Phase) × (see_at i ps ≡ some r)

see_later : (p : Phase) (ps : List Phase) → CanSee ps → CanSee (p ∷ ps)
unfolding CanSee see_at cons_seen
see_later p ps (i, (x, qs), e) = (suc i, (x, p ∷ qs), ap (cons_seen p) e)

see_enabled : (ps : List Phase) → 0 < failing ps → CanSee ps
unfolding failing CanSee see_at
see_enabled [] h = absurd (omega (arith, h))
see_enabled (solving ∷ ps) h = see_later solving ps (see_enabled ps (omega (arith, h)))
see_enabled (stored r ∷ ps) h = see_later (stored r) ps (see_enabled ps (omega (arith, h)))
see_enabled (failed e ∷ ps) h = (0, (e, seen e ∷ ps), refl)
see_enabled (seen e ∷ ps) h = see_later (seen e) ps (see_enabled ps (omega (arith, h)))

module _ (f : Finishing) where
  woken-work : (g : Group f.World) (done : Bool) → g.waiter ≡ waits → work (woken f g done) < work g
  unfolding woken work
  woken-work g true e = omega (arith, ap waiter_work e)
  woken-work g false e = with_end-work g (finish f (map slot g.phases) g.world) e

  wake-work :
      (g : Group f.World) (t : Waiter)
      → g.waiter ≡ t
      → Given (λ (h : Group f.World). work h < work g) (wake f g t)
  unfolding wake
  wake-work g waits e = elim (Bool-cases (nat_eq g.wg 0)) [
    | inl quiet ↦ rw quiet (woken-work g g.cancelled e)
    | inr busy ↦ rw busy tt
  ]
  wake-work g (at_end entry out) e = tt
  wake-work g stopped e = tt
  wake-work g left e = tt

  -- Every step takes some of the work that is left.
  step-work :
      (e : Event) (g : Group f.World) → Given (λ (h : Group f.World). work h < work g) (step f e g)
  unfolding step
  step-work (solve_returns i r) g = after_return-work g _ (solve_at-Solved i _ g.phases)
  step-work (sees_solve i) g = after_sight-work g _ (see_at-Seen i g.phases)
  step-work sees_waiter g = see_end-work g g.waiter refl
  step-work wakes g = wake-work g g.waiter refl
  step-work interrupted g = interrupt-work g g.cancelled refl

  trans : {g h k : Group f.World} → Run f g h → Run f h k → Run f g k
  trans r here = r
  trans r (next q e s) = next (trans r q) e s

  -- Each driver answers with what `answers` says.
  module _ (answers : ℕ → Result Response) where
    -- Where `Solve` returns in a step, it is with that answer; and the caller's context is left alone.
    pub Obeys : Event → Type 0
    Obeys (solve_returns i r) = r ≡ answers i
    Obeys (sees_solve i) = Unit
    Obeys sees_waiter = Unit
    Obeys wakes = Unit
    Obeys interrupted = ⊥

    -- All steps of a run do.
    pub AllObey : {g h : Group f.World} → Run f g h → Type 0
    unfolding Obeys
    AllObey here = Unit
    AllObey (next r e s) = AllObey r × Obeys e

    trans-AllObey :
        {g h k : Group f.World} (r : Run f g h) (q : Run f h k)
        → AllObey r
        → AllObey q
        → AllObey (trans r q)
    unfolding AllObey trans
    trans-AllObey r here a b = a
    trans-AllObey r (next q e s) a b = (trans-AllObey r q a b.0, b.1)

    -- A step that can be taken
    IsEnabled : Group f.World → Type 0
    IsEnabled g = (e : Event) × (h : Group f.World) × (step f e g ≡ some h) × Obeys e

    hinted_answers : ℕ → Result Response
    hinted_answers i = hinted f.error_text f.hint i (answers i)

    IsEnabled-solve : (g : Group f.World) → CanSolve hinted_answers g.phases → IsEnabled g
    unfolding CanSolve IsEnabled step hinted_answers after_return
    IsEnabled-solve g (i, qs, e) = (
      solve_returns i (answers i),
      record g { phases = qs; wg = g.wg - 1 },
      ap (after_return g) e,
      unfold Obeys in refl,
    )

    IsEnabled-see : (g : Group f.World) → CanSee g.phases → IsEnabled g
    unfolding CanSee IsEnabled step after_sight
    IsEnabled-see g (i, (x, qs), e) = (
      sees_solve i,
      see_error x (record g { phases = qs }),
      ap (after_sight g) e,
      unfold Obeys in tt,
    )

    IsEnabled-waiter :
        (g : Group f.World) (t : Waiter) → g.waiter ≡ t → g.wg ≡ 0 → Settled t ⊎ IsEnabled g
    unfolding IsEnabled step wake see_end Settled Obeys
    IsEnabled-waiter g waits e z = inr (wakes, woken f g g.cancelled, rw e (rw z refl), tt)
    IsEnabled-waiter g (at_end entry (Outcome.returned (ok u))) e z = inl tt
    IsEnabled-waiter g (at_end entry (Outcome.returned (err x))) e z =
        inr (sees_waiter, see_error x (record g { waiter = left }), rw e refl, tt)
    IsEnabled-waiter g (at_end entry Outcome.panicked) e z = inl tt
    IsEnabled-waiter g stopped e z =
        inr (sees_waiter, see_error context_done (record g { waiter = left }), rw e refl, tt)
    IsEnabled-waiter g left e z = inl tt

    module _ (n : ℕ) (before : f.World) where
      next_or_end : (g : Group f.World) → Inv f n before g → IsQuiet g ⊎ IsEnabled g
      next_or_end g v = elim (Bool-cases (nat_eq (running g.phases) 0)) [
        | inr busy ↦
            inr (IsEnabled-solve g (solve_enabled hinted_answers g.phases (ground (arith, busy))))
        | inl solved ↦ elim (Bool-cases (nat_eq (failing g.phases) 0)) [
          | inr unseen ↦ inr (IsEnabled-see g (see_enabled g.phases (ground (arith, unseen))))
          | inl all_seen ↦
              by_waiter (ground (arith, solved)) (ground (arith, all_seen))
                (IsEnabled-waiter g g.waiter refl (ground (arith, solved, v.counted)))
        ]
      ]
        where
          by_waiter :
              running g.phases ≡ 0
              → failing g.phases ≡ 0
              → Settled g.waiter ⊎ IsEnabled g
              → IsQuiet g ⊎ IsEnabled g
          by_waiter z k (inl s) = inl (record { none_running = z; none_failing = k; settled = s })
          by_waiter z k (inr e) = inr e

      EndsQuiet : Group f.World → Type 0
      EndsQuiet g = (h : Group f.World) × (r : Run f g h) × AllObey r × IsQuiet h

      ends_quiet : (fuel : ℕ) (g : Group f.World) → Inv f n before g → work g < fuel → EndsQuiet g
      unfolding EndsQuiet IsEnabled
      ends_quiet zero g v h = absurd (omega (arith, h))
      ends_quiet (suc fuel) g v h = elim (next_or_end g v) [
        | inl quiet ↦ (g, here, unfold AllObey in tt, quiet)
        | inr (e, k, s, o) ↦
            let less : work k < work g =
              Given-some (λ (u : Group f.World). work u < work g) (step f e g) k (step-work e g)
                s in
            let (u, r, a, q) =
              ends_quiet fuel k
                (Given-some (Inv f n before) (step f e g) k (step-Inv f n before e g v) s)
                (omega (arith, h, less)) in
            (
              u,
              trans (next here e s) r,
              trans-AllObey (next here e s) r (unfold AllObey in (tt, o)) a,
              q,
            )
      ]

    -- Whatever the drivers answer from now on, and wherever the goroutines of a target have come to, they can go
    -- on with these answers, and with no end of the caller's context, until all of them have ended.
    pub Run-EndsQuiet :
        (n : ℕ) (done : Bool) (w : f.World) (g : Group f.World)
        → Run f (start f n done w) g
        → (h : Group f.World) × (r : Run f g h) × AllObey r × IsQuiet h
    unfolding EndsQuiet
    Run-EndsQuiet n done w g r =
        ends_quiet n w (suc (work g)) g (Run-Inv f n w r (start-Inv f n w done)) (omega arith)
