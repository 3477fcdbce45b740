-- ===== src/Build/Targets/Invariant.antt =====
-- What holds between two steps of a target's goroutines.
use buildkit_cli_for_kubectl.Prelude.{
  ℕ, zero, suc, ◌+◌, ◌≤◌, ◌≡◌, refl, Bool, true, false, Bool-cases, Option, none, some, List, [],
  ◌∷◌, map, Result, ok, err, Error, arith, inl, inr, nat_eq, length, Given, Given-some, ap, sym,
  ◌∙◌, ◌||◌,
}
use buildkit_cli_for_kubectl.Build.Targets.Finish.{Response, Outcome, Finishing, finish}
use buildkit_cli_for_kubectl.Build.Targets.{
  Phase, solving, stored, failed, seen, Waiter, waits, at_end, stopped, left, Group, Event,
  solve_returns, sees_solve, sees_waiter, wakes, interrupted, slot, solve_at, see_at, after_solve,
  cons_phase, cons_seen, after_return, after_sight, see_error, see_end, interrupt, woken, wake,
  step, start, with_end, Run, here, next, replicate,
}

-- The goroutines that are in `Solve`
abbrev pub weight : Phase → ℕ
weight solving = 1
weight (stored r) = 0
weight (failed e) = 0
weight (seen e) = 0

unfoldable pub running : List Phase → ℕ
running [] = 0
running (p ∷ ps) = weight p + running ps

-- Those that have returned an error, which the error group has not seen
abbrev pub unseen : Phase → ℕ
unseen solving = 0
unseen (stored r) = 0
unseen (failed e) = 1
unseen (seen e) = 0

unfoldable pub failing : List Phase → ℕ
failing [] = 0
failing (p ∷ ps) = unseen p + failing ps

abbrev pub was_seen : Phase → Bool
was_seen solving = false
was_seen (stored r) = false
was_seen (failed e) = false
was_seen (seen e) = true

-- The error group has seen an error of one of them.
unfoldable pub any_seen : List Phase → Bool
any_seen [] = false
any_seen (p ∷ ps) = was_seen p || any_seen ps

-- One goroutine less is in `Solve`, and the error group has seen no more than before.
pub record Solved (ps qs : List Phase) : Type 0 where
  pub one_less : running ps ≡ suc (running qs)
  pub new_errors : failing qs ≤ suc (failing ps)
  pub same_seen : any_seen qs ≡ any_seen ps
  pub same_length : length qs ≡ length ps

pub solve_at-Solved :
    (i : ℕ) (r : Result Response) (ps : List Phase) → Given (Solved ps) (solve_at i r ps)
unfolding solve_at running failing any_seen after_solve
solve_at-Solved i r [] = tt
solve_at-Solved zero (ok r) (solving ∷ ps) = record {
  one_less = omega arith;
  new_errors = omega arith;
  same_seen = refl;
  same_length = refl;
}
solve_at-Solved zero (err e) (solving ∷ ps) = record {
  one_less = omega arith;
  new_errors = omega arith;
  same_seen = refl;
  same_length = refl;
}
solve_at-Solved zero r (stored s ∷ ps) = tt
solve_at-Solved zero r (failed e ∷ ps) = tt
solve_at-Solved zero r (seen e ∷ ps) = tt
solve_at-Solved (suc i) r (p ∷ ps) = go (solve_at i r ps) (solve_at-Solved i r ps)
  where
    go : (o : Option (List Phase)) → Given (Solved ps) o → Given (Solved (p ∷ ps)) (cons_phase p o)
    go none h = tt
    go (some qs) h = record {
      one_less = omega (arith, h.one_less);
      new_errors = omega (arith, h.new_errors);
      same_seen = ap (λ b. was_seen p || b) h.same_seen;
      same_length = ap suc h.same_length;
    }

-- The error group has seen one more, and the responses are what they were.
pub record Seen (ps : List Phase) (r : Error × List Phase) : Type 0 where
  pub same_running : running r.1 ≡ running ps
  pub one_less : failing ps ≡ suc (failing r.1)
  pub same_slots : map slot r.1 ≡ map slot ps
  pub same_length : length r.1 ≡ length ps

pub see_at-Seen : (i : ℕ) (ps : List Phase) → Given (Seen ps) (see_at i ps)
unfolding see_at running failing
see_at-Seen i [] = tt
see_at-Seen zero (solving ∷ ps) = tt
see_at-Seen zero (stored r ∷ ps) = tt
see_at-Seen zero (failed e ∷ ps) = record {
  same_running = refl;
  one_less = omega arith;
  same_slots = refl;
  same_length = refl;
}
see_at-Seen zero (seen e ∷ ps) = tt
see_at-Seen (suc i) (p ∷ ps) = go (see_at i ps) (see_at-Seen i ps)
  where
    go :
        (o : Option (Error × List Phase))
        → Given (Seen ps) o
        → Given (Seen (p ∷ ps)) (cons_seen p o)
    go none h = tt
    go (some (e, qs)) h = record {
      same_running = ap (λ n. weight p + n) h.same_running;
      one_less = omega (arith, h.one_less);
      same_slots = ap (λ l. slot p ∷ l) h.same_slots;
      same_length = ap suc h.same_length;
    }

abbrev pub is_left : Waiter → Bool
is_left waits = false
is_left (at_end entry out) = false
is_left stopped = false
is_left left = true

abbrev pub is_some {ℓ} : {A : Type ℓ} → Option A → Bool
is_some none = false
is_some (some a) = true

module _ (f : Finishing) (n : ℕ) (before : f.World) where
  -- The goroutine that waits has gone on only after all responses, and its end is what `finish` makes of them
  -- in the world of before, which stays up to then.
  unfoldable pub Ended : List Phase → f.World → Waiter → Type 0
  Ended ps u waits = u ≡ before
  Ended ps u (at_end entry out) =
      (running ps ≡ 0) × (finish f (map slot ps) before ≡ ((entry, out), u))
  Ended ps u stopped = running ps ≡ 0
  Ended ps u left = running ps ≡ 0

  -- With `n` drivers
  pub record Inv (g : Group f.World) : Type 0 where
    pub sized : length g.phases ≡ n
    pub counted : g.wg ≡ running g.phases
    pub ended : Ended g.phases g.world g.waiter
    pub told : (any_seen g.phases || is_left g.waiter) ≡ true → is_some g.first_error ≡ true

  Ended-solve :
      (ps qs : List Phase) (u : f.World) (w : Waiter)
      → running ps ≡ suc (running qs)
      → Ended ps u w
      → Ended qs u w
  unfolding Ended
  Ended-solve ps qs u waits h e = e
  Ended-solve ps qs u (at_end entry out) h e = absurd (omega (arith, h, e.0))
  Ended-solve ps qs u stopped h e = absurd (omega (arith, h, e))
  Ended-solve ps qs u left h e = absurd (omega (arith, h, e))

  Ended-see :
      (ps qs : List Phase) (u : f.World) (w : Waiter)
      → running qs ≡ running ps
      → map slot qs ≡ map slot ps
      → Ended ps u w
      → Ended qs u w
  unfolding Ended
  Ended-see ps qs u waits h k e = e
  Ended-see ps qs u (at_end entry out) h k e = (h ∙ e.0, rw k e.1)
  Ended-see ps qs u stopped h k e = h ∙ e
  Ended-see ps qs u left h k e = h ∙ e

  after_return-Inv :
      (g : Group f.World) (o : Option (List Phase))
      → Given (Solved g.phases) o
      → Inv g
      → Given Inv (after_return g o)
  unfolding after_return
  after_return-Inv g none s v = tt
  after_return-Inv g (some qs) s v = record {
    sized = s.same_length ∙ v.sized;
    counted = omega (arith, v.counted, s.one_less);
    ended = Ended-solve g.phases qs g.world g.waiter s.one_less v.ended;
    told = λ h. v.told (rw (← s.same_seen) h);
  }

  after_sight-Inv :
      (g : Group f.World) (o : Option (Error × List Phase))
      → Given (Seen g.phases) o
      → Inv g
      → Given Inv (after_sight g o)
  unfolding after_sight see_error
  after_sight-Inv g none s v = tt
  after_sight-Inv g (some (e, qs)) s v = record {
    sized = s.same_length ∙ v.sized;
    counted = v.counted ∙ sym s.same_running;
    ended = Ended-see g.phases qs g.world g.waiter s.same_running s.same_slots v.ended;
    told = λ h. refl;
  }

  see_end-Inv :
      (g : Group f.World) (w : Waiter) → Inv g → Ended g.phases g.world w → Given Inv (see_end g w)
  unfolding see_end see_error Ended
  see_end-Inv g waits v e = tt
  see_end-Inv g (at_end entry (Outcome.returned (ok u))) v e = tt
  see_end-Inv g (at_end entry (Outcome.returned (err x))) v e = record {
    sized = v.sized;
    counted = v.counted;
    ended = e.0;
    told = λ h. refl;
  }
  see_end-Inv g (at_end entry Outcome.panicked) v e = tt
  see_end-Inv g stopped v e = record {
    sized = v.sized;
    counted = v.counted;
    ended = e;
    told = λ h. refl;
  }
  see_end-Inv g left v e = tt

  told_seen :
      (g : Group f.World)
      → Inv g
      → (any_seen g.phases || false) ≡ true
      → is_some g.first_error ≡ true
  told_seen g v h = v.told (ground (arith, h))

  with_end-Inv :
      (g : Group f.World) (r : (Option Response × Outcome) × f.World)
      → Inv g
      → running g.phases ≡ 0
      → finish f (map slot g.phases) before ≡ r
      → Inv (with_end g r)
  unfolding with_end Ended
  with_end-Inv g ((entry, out), w) v z e = record {
    sized = v.sized;
    counted = v.counted;
    ended = (z, e);
    told = told_seen g v;
  }

  woken-Inv :
      (g : Group f.World) (done : Bool)
      → Inv g
      → running g.phases ≡ 0
      → g.world ≡ before
      → Inv (woken f g done)
  unfolding woken Ended
  woken-Inv g true v z u = record {
    sized = v.sized;
    counted = v.counted;
    ended = z;
    told = told_seen g v;
  }
  woken-Inv g false v z u =
      with_end-Inv g (finish f (map slot g.phases) g.world) v z
        (ap (finish f (map slot g.phases)) (sym u))

  wake-Inv :
      (g : Group f.World) (w : Waiter) → Inv g → Ended g.phases g.world w → Given Inv (wake f g w)
  unfolding wake Ended
  wake-Inv g waits v u = elim (Bool-cases (nat_eq g.wg 0)) [
    | inr busy ↦ rw busy tt
    | inl quiet ↦ rw quiet (woken-Inv g g.cancelled v (ground (arith, quiet, v.counted)) u)
  ]
  wake-Inv g (at_end entry out) v u = tt
  wake-Inv g stopped v u = tt
  wake-Inv g left v u = tt

  interrupt-Inv : (g : Group f.World) (done : Bool) → Inv g → Given Inv (interrupt g done)
  unfolding interrupt
  interrupt-Inv g true v = tt
  interrupt-Inv g false v = record {
    sized = v.sized;
    counted = v.counted;
    ended = v.ended;
    told = v.told;
  }

  pub step-Inv : (e : Event) (g : Group f.World) → Inv g → Given Inv (step f e g)
  unfolding step
  step-Inv (solve_returns i r) g v = after_return-Inv g _ (solve_at-Solved i _ g.phases) v
  step-Inv (sees_solve i) g v = after_sight-Inv g _ (see_at-Seen i g.phases) v
  step-Inv sees_waiter g v = see_end-Inv g g.waiter v v.ended
  step-Inv wakes g v = wake-Inv g g.waiter v v.ended
  step-Inv interrupted g v = interrupt-Inv g g.cancelled v

  pub Run-Inv : {g h : Group f.World} → Run f g h → Inv g → Inv h
  Run-Inv here v = v
  Run-Inv (next {h = m} {k} r e s) v = Given-some Inv (step f e m) k (step-Inv e m (Run-Inv r v)) s

  replicate-running :
      (m : ℕ)
      → (running (replicate f m) ≡ m)
        × (any_seen (replicate f m) ≡ false)
        × (length (replicate f m) ≡ m)
  unfolding running any_seen replicate
  replicate-running zero = (refl, refl, refl)
  replicate-running (suc m) = let (r, a, l) = replicate-running m in (omega (arith, r), a, ap suc l)

  pub start-Inv : (done : Bool) → Inv (start f n done before)
  unfolding start Ended
  start-Inv done = record {
    sized = (replicate-running n).2;
    counted = sym (replicate-running n).0;
    ended = refl;
    told = λ h. ground (arith, h, (replicate-running n).1);
  }
