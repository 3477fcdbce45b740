-- ===== src/Build/Targets/Answers.antt =====
-- What a target has in the end, where the error group has no error.
use buildkit_cli_for_kubectl.Prelude.{
  ℕ, zero, suc, get_elem?, ◌<◌, ◌≡◌, refl, ap, sym, ◌∙◌, Bool, true, false, ◌||◌, Option, some,
  List, [], ◌∷◌, map, length, Result, ok, err, arith,
}
use buildkit_cli_for_kubectl.Build.Targets.Finish.{Response, Outcome, Finishing, finish}
use buildkit_cli_for_kubectl.Build.Targets.Finish.Responses.{Responds, finish-Responds}
use buildkit_cli_for_kubectl.Build.Targets.{
  Phase, solving, stored, failed, seen, Waiter, waits, at_end, stopped, left, Group, slot, start,
  Run, solve_returns,
}
use buildkit_cli_for_kubectl.Build.Targets.Replies.{Occurs, Run-Occurs}
use buildkit_cli_for_kubectl.Build.Targets.Invariant.{
  running, failing, any_seen, is_some, Ended, Inv, Run-Inv, start-Inv,
}

-- The goroutine that waits has come to its end, and the error group has seen its error.
unfoldable pub Settled : Waiter → Type 0
Settled waits = ⊥
Settled (at_end entry (Outcome.returned (ok u))) = Unit
Settled (at_end entry (Outcome.returned (err e))) = ⊥
Settled (at_end entry Outcome.panicked) = Unit
Settled stopped = ⊥
Settled left = Unit

-- All goroutines have ended: what the error group waits for.
pub record IsQuiet {W : Type 0} (g : Group W) : Type 0 where
  pub none_running : running g.phases ≡ 0
  pub none_failing : failing g.phases ≡ 0
  pub settled : Settled g.waiter

-- Every driver has answered with a response.
stored_slots :
    (ps : List Phase)
    → running ps ≡ 0
    → failing ps ≡ 0
    → any_seen ps ≡ false
    → (rs : List Response) × (ps ≡ map stored rs)
unfolding running failing any_seen
stored_slots [] h k l = ([], refl)
stored_slots (solving ∷ ps) h k l = absurd (omega (arith, h))
stored_slots (stored r ∷ ps) h k l =
    let (rs, same) = stored_slots ps (omega (arith, h)) (omega (arith, k)) l in
    (r ∷ rs, ap (λ t. stored r ∷ t) same)
stored_slots (failed e ∷ ps) h k l = absurd (omega (arith, k))
stored_slots (seen e ∷ ps) h k l = absurd (cc)

slots-stored : (rs : List Response) → map slot (map stored rs) ≡ map some rs
slots-stored [] = refl
slots-stored (r ∷ rs) = ap (λ t. some r ∷ t) (slots-stored rs)

length-stored : (rs : List Response) → length (map stored rs) ≡ length rs
length-stored [] = refl
length-stored (r ∷ rs) = ap suc (length-stored rs)

get_elem?-stored :
    (rs : List Response) (i : ℕ) (x : Response)
    → get_elem? rs i ≡ some x
    → get_elem? (map stored rs) i ≡ some (stored x)
get_elem?-stored [] i x h = absurd (cc)
get_elem?-stored (r ∷ rs) zero x h = cc
get_elem?-stored (r ∷ rs) (suc i) x h = get_elem?-stored rs i x h

module _ (f : Finishing) where
  -- Every driver has a place with the response that its `Solve` returned in the run, and the target's entry is
  -- what `finish` makes of these responses in the world of the start, which it leaves as it is now.
  pub record HasAnswer (n : ℕ) (w : f.World) {g h : Group f.World} (r : Run f g h) : Type 0 where
    pub responses : List Response
    pub all_of_them : length responses ≡ n
    pub stored_there : h.phases ≡ map stored responses
    pub came :
        (i : ℕ) (x : Response)
        → get_elem? responses i ≡ some x
        → Occurs f (solve_returns i (ok x)) r
    pub entry : Response
    pub finishes :
        finish f (map some responses) w ≡ ((some entry, Outcome.returned (ok tt)), h.world)
    pub kept : h.waiter ≡ at_end (some entry) (Outcome.returned (ok tt))

  -- The end of the goroutine that waits
  record HasEntry (w : f.World) (g : Group f.World) (rs : List Response) : Type 0 where
    entry : Response
    finishes : finish f (map some rs) w ≡ ((some entry, Outcome.returned (ok tt)), g.world)
    kept : g.waiter ≡ at_end (some entry) (Outcome.returned (ok tt))

  has_entry :
      (n : ℕ) (g : Group f.World) (rs : List Response)
      → 0 < n
      → length rs ≡ n
      → (w : f.World) (e : Option Response) (o : Outcome)
      → finish f (map some rs) w ≡ ((e, o), g.world)
      → Settled (at_end e o)
      → g.waiter ≡ at_end e o
      → HasEntry w g rs
  unfolding Settled Responds
  has_entry n g [] h k w e o m s x = absurd (omega (arith, h, k))
  has_entry n g (r ∷ rs) h k w e (Outcome.returned (err y)) m s x = absurd s
  has_entry n g (r ∷ rs) h k w e (Outcome.returned (ok u)) m s x =
      let (entry, res, p) = finish-Responds f r rs w in
      let same : e ≡ some entry = ap (λ q. q.0) (sym (ap (λ q. q.0) m) ∙ p) in
      record {
        entry = entry;
        finishes = m ∙ ap (λ q. ((q, Outcome.returned (ok tt)), g.world)) same;
        kept = x ∙ ap (λ q. at_end q (Outcome.returned (ok tt))) same;
      }
  has_entry n g (r ∷ rs) h k w e Outcome.panicked m s x =
      let (entry, res, p) = finish-Responds f r rs w in
      absurd (distinct (ap (λ q. q.1) (sym (ap (λ q. q.0) m) ∙ p)))
    where
      distinct : {y : Result (Unit {0})} → Outcome.panicked ≡ Outcome.returned y → ⊥
      distinct q = cc

  module _ (n : ℕ) (w : f.World) (g : Group f.World) (v : Inv f n w g) where
    unseen_errors : is_some g.first_error ≡ false → any_seen g.phases ≡ false
    unseen_errors no_error = ground (arith, v.told, no_error)

    by_waiter :
        0 < n
        → is_some g.first_error ≡ false
        → (rs : List Response) → g.phases ≡ map stored rs
        → (t : Waiter) → g.waiter ≡ t
        → Ended f n w g.phases g.world t
        → Settled t
        → HasEntry w g rs
    unfolding Ended Settled
    by_waiter h no_error rs same waits x d s = absurd s
    by_waiter h no_error rs same (at_end e o) x (z, m) s =
        has_entry n g rs h (sym (length-stored rs) ∙ ap length (sym same) ∙ v.sized) w e o
          (ap (λ l. finish f l w) (sym (ap (map slot) same ∙ slots-stored rs)) ∙ m) s x
    by_waiter h no_error rs same stopped x d s = absurd s
    by_waiter h no_error rs same left x d s =
        absurd (contradiction (v.told (rw x (any_or (any_seen g.phases)))))
      where
        any_or : (b : Bool) → (b || true) ≡ true
        any_or true = refl
        any_or false = refl

        contradiction : is_some g.first_error ≡ true → ⊥
        contradiction k = cc

  -- Where a run of a target with one driver or more has ended, in whatever order, and the error group has no
  -- error, each driver has in its place the response with which its `Solve` returned in the run, and the
  -- target's entry is the response that the code makes of all these in the world of the start.
  pub Run-HasAnswer :
      (n : ℕ) (done : Bool) (w : f.World) (g : Group f.World)
      → 0 < n
      → (r : Run f (start f n done w) g) → IsQuiet g
      → is_some g.first_error ≡ false
      → HasAnswer n w r
  Run-HasAnswer n done w g h r q no_error =
      let v = Run-Inv f n w r (start-Inv f n w done) in
      let (rs, same) =
        stored_slots g.phases q.none_running q.none_failing (unseen_errors n w g v no_error) in
      let end = by_waiter n w g v h no_error rs same g.waiter refl v.ended q.settled in
      record {
        responses = rs;
        all_of_them = sym (length-stored rs) ∙ ap length (sym same) ∙ v.sized;
        stored_there = same;
        came = λ i x e.
            Run-Occurs f n done w r i x
              (ap (λ ps. get_elem? ps i) same ∙ get_elem?-stored rs i x e);
        entry = end.entry;
        finishes = end.finishes;
        kept = end.kept;
      }
