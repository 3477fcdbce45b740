-- ===== src/Progress/Multi.antt =====
-- `MultiWriter` of pkg/progress/multiwriter.go: the goroutines of its writers with a prefix, and the one that
-- closes the main writer's channel when all of them have ended. Each event is a step of one of them.
use buildkit_cli_for_kubectl.Prelude.{
  ◌⊎◌, Bool-cases, inl, inr, ℕ, ◌+◌, ◌-◌, ◌≡◌, refl, Bool, true, false, not, ◌&&◌, ◌||◌, Option,
  none, some, arith, if◌then◌else◌, nat_eq, ltb, Given, Given-some,
}

-- The goroutines that have not begun and those that have, whether `ready` and the main channel are closed, and
-- whether a goroutine has panicked
pub record Multi : Type 0 where
  pub waiting : ℕ
  pub running : ℕ
  pub ready : Bool
  pub closed : Bool
  pub panicked : Bool

pub data Event : Type 0 where
  -- `WithPrefix` is called; its goroutine begins, passes a message on, and ends.
  opens begins passes_on ends : Event
  -- `eg.Wait` has returned.
  closes : Event

-- `NewMultiWriter`
abbrev pub new_multi : Multi
new_multi = record { waiting = 0; running = 0; ready = false; closed = false; panicked = false }

begin : Multi → Option Multi
begin m =
    if ltb 0 m.waiting
    then some (record m { waiting = m.waiting - 1; running = m.running + 1; ready = true })
    else none

-- A message to the closed channel panics.
pass : Multi → Option Multi
pass m = if ltb 0 m.running then some (record m { panicked = m.panicked || m.closed }) else none

finish : Multi → Option Multi
finish m = if ltb 0 m.running then some (record m { running = m.running - 1 }) else none

-- Closing the channel twice would panic.
close : Multi → Option Multi
close m =
    if m.ready && (nat_eq (m.waiting + m.running) 0 && not m.closed)
    then some (record m { closed = true })
    else none

unfoldable pub step : Event → Multi → Option Multi
unfolding begin pass finish close
step opens m = some (record m { waiting = m.waiting + 1 })
step begins m = begin m
step passes_on m = pass m
step ends m = finish m
step closes m = close m

-- `WithPrefix` comes before all writers have ended: some goroutine is there, or none has begun.
unfoldable pub is_timely : Event → Multi → Bool
is_timely opens m = ltb 0 (m.waiting + m.running) || not m.ready
is_timely begins m = true
is_timely passes_on m = true
is_timely ends m = true
is_timely closes m = true

-- The runs in which every call of `WithPrefix` is in time
pub data Run : Multi → Type 0 where
  here : Run new_multi
  next : {m n : Multi} → Run m → (e : Event) → is_timely e m ≡ true → step e m ≡ some n → Run n

pub record Inv (m : Multi) : Type 0 where
  pub all_ended : m.closed ≡ true → (m.waiting + m.running ≡ 0) × (m.ready ≡ true)
  pub no_panic : m.panicked ≡ false

step-Inv : (e : Event) (m : Multi) → is_timely e m ≡ true → Inv m → Given Inv (step e m)
unfolding step is_timely begin pass finish close
step-Inv opens m t v = record {
  all_ended = λ c. ground (arith, t, v.all_ended c);
  no_panic = v.no_panic;
}
step-Inv begins m t v = ground (arith, v.all_ended, v.no_panic)
step-Inv passes_on m t v = ground (arith, v.all_ended, v.no_panic)
step-Inv ends m t v = ground (arith, v.all_ended, v.no_panic)
step-Inv closes m t v = ground (arith, v.all_ended, v.no_panic)

Run-Inv : {m : Multi} → Run m → Inv m
Run-Inv here = record { all_ended = λ c. absurd (cc); no_panic = refl }
Run-Inv (next {m} {n} r e t s) = Given-some Inv (step e m) n (step-Inv e m t (Run-Inv r)) s

-- The steps of a writer that is opened, begins and passes a message on
unfoldable pub late_message : Multi → Option Multi
late_message m = elim (step opens m) [
  | none ↦ none
  | some n ↦ elim (step begins n) [ none ↦ none | some o ↦ step passes_on o ]
]

after_late : Multi → Multi
after_late m = record {
  waiting = m.waiting + 1 - 1;
  running = m.running + 1;
  ready = true;
  closed = m.closed;
  panicked = m.panicked || m.closed;
}

late_message-runs : (m : Multi) → late_message m ≡ some (after_late m)
unfolding late_message after_late step begin pass
late_message-runs m = ground arith

-- Where every call of `WithPrefix` comes before all earlier writers have ended, no message is sent on the closed
-- channel, and the channel is closed only where all of them have ended; but the first message of a writer that
-- is opened after that panics, and no other first message does.
pub Run-panicked :
    (m : Multi)
    → Run m
    → (m.panicked ≡ false)
      × ((m.closed ≡ false) ⊎ (m.waiting + m.running ≡ 0))
      × (n : Multi) × (late_message m ≡ some n)
      × (n.panicked ≡ m.closed)
unfolding after_late
Run-panicked m r =
    let v = Run-Inv r in
    (v.no_panic, open_or_ended v, after_late m, late_message-runs m, ground (arith, v.no_panic))
  where
    open_or_ended : Inv m → (m.closed ≡ false) ⊎ (m.waiting + m.running ≡ 0)
    open_or_ended v = elim (Bool-cases m.closed) [ inl c ↦ inr (v.all_ended c).0 | inr c ↦ inl c ]
