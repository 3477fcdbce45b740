-- ===== src/Build/Targets/Replies.antt =====
-- Where the responses of a target's drivers come from: each is the one with which `Solve` returned.
use buildkit_cli_for_kubectl.Prelude.{
  ℕ, zero, suc, ◌≡◌, refl, ap, Bool, true, false, Option, none, some, List, [], ◌∷◌, get_elem?,
  Result, ok, err, Error, Bool-cases, inl, inr, ◌⊎◌, nat_eq, Given, Given-some, if◌then◌else◌,
  wrapf,
}
use buildkit_cli_for_kubectl.Text.Case.{to_lower}
use buildkit_cli_for_kubectl.Text.Contains.{contains}
use buildkit_cli_for_kubectl.Build.Targets.Finish.{Response, Outcome, Finishing}
use buildkit_cli_for_kubectl.Build.Targets.{
  Phase, solving, stored, failed, seen, Waiter, waits, at_end, stopped, left, Group, Event,
  solve_returns, sees_solve, sees_waiter, wakes, interrupted, solve_at, see_at, cons_phase,
  cons_seen, hinted, after_return, after_sight, see_error, see_end, interrupt, woken, wake, step,
  start, with_end, Run, here, next, replicate, after_solve,
}

-- What was stored in a place after a step was there before, or comes from the step.
Stores : (ℕ → Response → Type 0) → List Phase → List Phase → Type 0
Stores new ps qs =
    (j : ℕ) (x : Response)
    → get_elem? qs j ≡ some (stored x)
    → new j x ⊎ (get_elem? ps j ≡ some (stored x))

same-Stores : (new : ℕ → Response → Type 0) (ps : List Phase) → Stores new ps ps
unfolding Stores
same-Stores new ps j x h = inr h

abbrev Solves : ℕ → Result Response → ℕ → Response → Type 0
Solves i q j x = (i ≡ j) × (q ≡ ok x)

solve_at-Stores :
    (i : ℕ) (q : Result Response) (ps : List Phase)
    → Given (Stores (Solves i q) ps) (solve_at i q ps)
unfolding solve_at after_solve cons_phase Stores
solve_at-Stores i q [] = tt
solve_at-Stores zero (ok r) (solving ∷ ps) = λ j x h. go j x h
  where
    stored_injective : (x : Response) → some (stored r) ≡ some (stored x) → r ≡ x
    stored_injective x h = cc

    go :
        (j : ℕ) (x : Response)
        → get_elem? (stored r ∷ ps) j ≡ some (stored x)
        → Solves zero (ok r) j x ⊎ (get_elem? (solving ∷ ps) j ≡ some (stored x))
    go zero x h = inl (refl, ap ok (stored_injective x h))
    go (suc j) x h = inr h
solve_at-Stores zero (err e) (solving ∷ ps) = λ j x h. go j x h
  where
    go :
        (j : ℕ) (x : Response)
        → get_elem? (failed e ∷ ps) j ≡ some (stored x)
        → Solves zero (err e) j x ⊎ (get_elem? (solving ∷ ps) j ≡ some (stored x))
    go zero x h = absurd (cc)
    go (suc j) x h = inr h
solve_at-Stores zero q (stored s ∷ ps) = tt
solve_at-Stores zero q (failed e ∷ ps) = tt
solve_at-Stores zero q (seen e ∷ ps) = tt
solve_at-Stores (suc i) q (p ∷ ps) = go (solve_at i q ps) (solve_at-Stores i q ps)
  where
    go :
        (o : Option (List Phase))
        → Given (Stores (Solves i q) ps) o
        → Given (Stores (Solves (suc i) q) (p ∷ ps)) (cons_phase p o)
    go none h = tt
    go (some qs) h = λ j x k. at_place j x k
      where
        later :
            (j : ℕ) (x : Response)
            → Solves i q j x ⊎ (get_elem? ps j ≡ some (stored x))
            → Solves (suc i) q (suc j) x ⊎ (get_elem? ps j ≡ some (stored x))
        later j x (inl (e, s)) = inl (ap suc e, s)
        later j x (inr s) = inr s

        at_place :
            (j : ℕ) (x : Response)
            → get_elem? (p ∷ qs) j ≡ some (stored x)
            → Solves (suc i) q j x ⊎ (get_elem? (p ∷ ps) j ≡ some (stored x))
        at_place zero x k = inr k
        at_place (suc j) x k = later j x (h j x k)

see_at-Stores :
    (new : ℕ → Response → Type 0) (i : ℕ) (ps : List Phase)
    → Given (λ r. Stores new ps r.1) (see_at i ps)
unfolding see_at cons_seen Stores
see_at-Stores new i [] = tt
see_at-Stores new zero (solving ∷ ps) = tt
see_at-Stores new zero (stored r ∷ ps) = tt
see_at-Stores new zero (failed e ∷ ps) = λ j x h. go j x h
  where
    go :
        (j : ℕ) (x : Response)
        → get_elem? (seen e ∷ ps) j ≡ some (stored x)
        → new j x ⊎ (get_elem? (failed e ∷ ps) j ≡ some (stored x))
    go zero x h = absurd (cc)
    go (suc j) x h = inr h
see_at-Stores new zero (seen e ∷ ps) = tt
see_at-Stores new (suc i) (p ∷ ps) = go (see_at i ps) (see_at-Stores (λ j x. new (suc j) x) i ps)
  where
    go :
        (o : Option (Error × List Phase))
        → Given (λ r. Stores (λ j x. new (suc j) x) ps r.1) o
        → Given (λ r. Stores new (p ∷ ps) r.1) (cons_seen p o)
    go none h = tt
    go (some (e, qs)) h = λ j x k. at_place j x k
      where
        at_place :
            (j : ℕ) (x : Response)
            → get_elem? (p ∷ qs) j ≡ some (stored x)
            → new j x ⊎ (get_elem? (p ∷ ps) j ≡ some (stored x))
        at_place zero x k = inr k
        at_place (suc j) x k = h j x k

module _ (f : Finishing) where
  hinted-ok :
      (i : ℕ) (q : Result Response) (x : Response)
      → hinted f.error_text f.hint i q ≡ ok x
      → q ≡ ok x
  unfolding hinted
  hinted-ok i (ok r) x h = h
  hinted-ok i (err e) x h = absurd (go (contains (to_lower (f.error_text e)) "401 unauthorized") h)
    where
      go : (b : Bool) → (if b then err (wrapf e (f.hint i) []) else err e) ≡ ok x → ⊥
      go true k = cc
      go false k = cc

  -- A step stores a response where `Solve` returns with it.
  Brings : Event → Group f.World → Group f.World → Type 0
  Brings e g h = Stores (λ j x. e ≡ solve_returns j (ok x)) g.phases h.phases

  after_return-Brings :
      (g : Group f.World) (i : ℕ) (q : Result Response) (o : Option (List Phase))
      → Given (Stores (Solves i (hinted f.error_text f.hint i q)) g.phases) o
      → Given (Brings (solve_returns i q) g) (after_return g o)
  unfolding after_return Brings Stores
  after_return-Brings g i q none h = tt
  after_return-Brings g i q (some qs) h = λ j x k. go j x (h j x k)
    where
      go :
          (j : ℕ) (x : Response)
          → Solves i (hinted f.error_text f.hint i q) j x ⊎ (get_elem? g.phases j ≡ some (stored x))
          → (solve_returns i q ≡ solve_returns j (ok x)) ⊎ (get_elem? g.phases j ≡ some (stored x))
      go j x (inl (e, s)) = inl (λ t. solve_returns (e t) (hinted-ok i q x s t))
      go j x (inr s) = inr s

  after_sight-Brings :
      (d : Event) (g : Group f.World) (o : Option (Error × List Phase))
      → Given (λ r. Stores (λ j x. d ≡ solve_returns j (ok x)) g.phases r.1) o
      → Given (Brings d g) (after_sight g o)
  unfolding after_sight see_error Brings
  after_sight-Brings d g none h = tt
  after_sight-Brings d g (some (e, qs)) h = h

  see_end-Brings : (d : Event) (g : Group f.World) (w : Waiter) → Given (Brings d g) (see_end g w)
  unfolding see_end see_error Brings
  see_end-Brings d g waits = tt
  see_end-Brings d g (at_end entry (Outcome.returned (ok u))) = tt
  see_end-Brings d g (at_end entry (Outcome.returned (err x))) = same-Stores _ g.phases
  see_end-Brings d g (at_end entry Outcome.panicked) = tt
  see_end-Brings d g stopped = same-Stores _ g.phases
  see_end-Brings d g left = tt

  woken-Brings : (d : Event) (g : Group f.World) (done : Bool) → Brings d g (woken f g done)
  unfolding woken with_end Brings
  woken-Brings d g true = same-Stores _ g.phases
  woken-Brings d g false = same-Stores _ g.phases

  wake-Brings : (d : Event) (g : Group f.World) (w : Waiter) → Given (Brings d g) (wake f g w)
  unfolding wake
  wake-Brings d g waits = elim (Bool-cases (nat_eq g.wg 0)) [
    | inr busy ↦ rw busy tt
    | inl quiet ↦ rw quiet (woken-Brings d g g.cancelled)
  ]
  wake-Brings d g (at_end entry out) = tt
  wake-Brings d g stopped = tt
  wake-Brings d g left = tt

  interrupt-Brings :
      (d : Event) (g : Group f.World) (done : Bool) → Given (Brings d g) (interrupt g done)
  unfolding interrupt Brings
  interrupt-Brings d g true = tt
  interrupt-Brings d g false = same-Stores _ g.phases

  step-Brings : (e : Event) (g : Group f.World) → Given (Brings e g) (step f e g)
  unfolding step
  step-Brings (solve_returns i q) g = after_return-Brings g i q _ (solve_at-Stores i _ g.phases)
  step-Brings (sees_solve i) g = after_sight-Brings (sees_solve i) g _ (see_at-Stores _ i g.phases)
  step-Brings sees_waiter g = see_end-Brings sees_waiter g g.waiter
  step-Brings wakes g = wake-Brings wakes g g.waiter
  step-Brings interrupted g = interrupt-Brings interrupted g g.cancelled

  -- The event is a step of the run.
  unfoldable pub Occurs : {g h : Group f.World} → Event → Run f g h → Type 0
  Occurs e here = ⊥
  Occurs e (next r d s) = Occurs e r ⊎ (d ≡ e)

  replicate-solving : (n j : ℕ) (x : Response) → get_elem? (replicate f n) j ≡ some (stored x) → ⊥
  unfolding replicate
  replicate-solving zero j x h = cc
  replicate-solving (suc n) zero x h = cc
  replicate-solving (suc n) (suc j) x h = replicate-solving n j x h

  -- What a driver's place holds in a run from the start is what its `Solve` returned.
  pub Run-Occurs :
      (n : ℕ) (done : Bool) (w : f.World) {g : Group f.World} (r : Run f (start f n done w) g)
      (j : ℕ) (x : Response)
      → get_elem? g.phases j ≡ some (stored x)
      → Occurs (solve_returns j (ok x)) r
  unfolding Occurs start
  Run-Occurs n done w here j x h = absurd (replicate-solving n j x h)
  Run-Occurs n done w (next {h = m} {k} r e s) j x h =
      go (Run-Occurs n done w r j x)
        (unfold Brings Stores in (Given-some (Brings e m) (step f e m) k (step-Brings e m) s) j x h)
    where
      go :
          (get_elem? m.phases j ≡ some (stored x) → Occurs (solve_returns j (ok x)) r)
          → (e ≡ solve_returns j (ok x)) ⊎ (get_elem? m.phases j ≡ some (stored x))
          → Occurs (solve_returns j (ok x)) r ⊎ (e ≡ solve_returns j (ok x))
      go before (inl q) = inr q
      go before (inr q) = inl (before q)
