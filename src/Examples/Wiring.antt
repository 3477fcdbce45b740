-- ===== src/Examples/Wiring.antt =====
-- The writers of the progress, a driver that is made, and the commands on top of it.
use buildkit_cli_for_kubectl.Prelude.{
  map, ◌⊎◌, ◌+◌, ℕ, String, ◌≡◌, refl, true, false, none, some, List, [], ◌∷◌, Map, ok, Ensures,
  is_in, arith, if◌then◌else◌, ◌==◌, eq_iff, eq_of_text, Bool-cases, inl, inr, subst,
}
use buildkit_cli_for_kubectl.Text.Number.{pos}
use buildkit_cli_for_kubectl.Text.Integers.{◌+ℤ◌, ◌-ℤ◌}
use buildkit_cli_for_kubectl.Progress.{Vertex}
use buildkit_cli_for_kubectl.Progress.Reset.{
  SolveStatus, duration, negated, shift, shift_all, reset,
}
use buildkit_cli_for_kubectl.Progress.Reset.Shifts.{
  shifted, reset-shifted, reset-anchor, last_started, InDuration, vertex_span, status_spans,
}
use buildkit_cli_for_kubectl.Progress.Multi.{
  Multi, Run, here, next, step, is_timely, opens, begins, passes_on, ends, closes, late_message,
  Run-panicked,
}
use buildkit_cli_for_kubectl.Kubernetes.Making.{ClientConfig, new}
use buildkit_cli_for_kubectl.Kubernetes.Operations.{Builder}
use buildkit_cli_for_kubectl.Driver.{Factory, get_driver}
use buildkit_cli_for_kubectl.Commands.Builders.{Drivers, run_rm}
use buildkit_cli_for_kubectl.Commands.Builders.Removal.{run_rm-keeps}
use buildkit_cli_for_kubectl.Commands.Build.Defaults.{build_command, Exports, build_command-Exports}
use buildkit_cli_for_kubectl.Examples.Commands.{pushed, build_api}

abbrev vertex : String → ℕ → Vertex
vertex name t = record {
  digest = name;
  name = name;
  started = some (pos t);
  completed = none;
  error = "";
}

abbrev waiting : Vertex
waiting = record { digest = "c"; name = "c"; started = none; completed = none; error = "" }

-- The clock of the worker is behind.
abbrev first_status : SolveStatus
first_status = record {
  vertexes = vertex "a" 3 ∷ vertex "b" 5 ∷ waiting ∷ [];
  statuses = [];
  logs = [];
}

abbrev stream : List SolveStatus
stream =
    record { vertexes = waiting ∷ []; statuses = []; logs = [] }
    ∷ first_status
    ∷ record { vertexes = vertex "d" 9 ∷ []; statuses = []; logs = [] }
    ∷ []

reset_test :
    reset (pos 100) none stream
    ≡ record { vertexes = waiting ∷ []; statuses = []; logs = [] }
      ∷ record {
        vertexes = vertex "a" 98 ∷ vertex "b" 100 ∷ waiting ∷ [];
        statuses = [];
        logs = [];
      }
      ∷ record { vertexes = vertex "d" 104 ∷ []; statuses = []; logs = [] }
      ∷ []
unfolding reset shift_all shift duration ◌+ℤ◌ ◌-ℤ◌ negated
reset_test = refl

reset-shifted_example : reset (pos 100) none stream ≡ shifted (pos 100) stream
reset-shifted_example = reset-shifted (pos 100) stream

five_started : last_started first_status.vertexes ≡ some (pos 5)
unfolding last_started
five_started = refl

behind : InDuration (pos 5 -ℤ pos 100)
unfolding ◌-ℤ◌
behind = omega arith

reset-anchor_example :
    let out = shift_all (duration (pos 5 -ℤ pos 100)) first_status in
    (last_started out.vertexes ≡ some (pos 100))
    × (map vertex_span out.vertexes ≡ map vertex_span first_status.vertexes)
    × (map status_spans out.statuses ≡ map status_spans first_status.statuses)
reset-anchor_example = reset-anchor (pos 100) (pos 5) first_status five_started behind

-- A writer that is opened, passes a message on and ends
abbrev used : Multi
used = record { waiting = 0; running = 0; ready = true; closed = true; panicked = false }

all_closed : Run used
unfolding step is_timely
all_closed =
    next
      (next (next (next (next here opens refl refl) begins refl refl) passes_on refl refl) ends refl
        refl)
      closes refl refl

Run-panicked_example :
    (used.panicked ≡ false)
    × ((used.closed ≡ false) ⊎ (used.waiting + used.running ≡ 0))
    × (n : Multi) × (late_message used ≡ some n)
    × (n.panicked ≡ used.closed)
Run-panicked_example = Run-panicked used all_closed

abbrev kube : ClientConfig
kube = record { namespace = ok "default"; client_config = ok tt; clientset = ok tt }

-- Builders in a world that is the list of their names
remove_name : String → List String → List String
remove_name n [] = []
remove_name n (m ∷ ms) = let rest = remove_name n ms in if n == m then rest else m ∷ rest

abbrev named : List String → List Builder
named [] = []
named (n ∷ ns) = record { name = n; nodes = [] } ∷ named ns

abbrev factories : Map Factory
factories =
    ("kubernetes", record { name = "kubernetes"; allows_instances = true; priority = pos 40 }) ∷ []

abbrev cluster : Drivers
cluster = record {
  World = List String;
  Driver = String;
  new = λ f name. ok name;
  list = λ d w. (ok (named w), w);
  rm = λ d w. (ok tt, remove_name d w);
  get_version = λ d w. (ok "v1", w);
  driver_name = λ b. "kubernetes";
  platforms = build_api.platforms;
  platforms_of = λ n. [];
  error_text = λ e. "failed";
}

run_rm_test : run_rm cluster factories ("b" ∷ "x" ∷ []) ("a" ∷ "b" ∷ []) ≡ (ok tt, "a" ∷ [])
unfolding run_rm get_driver remove_name
run_rm_test = refl

-- The builder `a` is there.
HasA : List String → Type 0
HasA w = is_in "a" w ≡ true

remove_name-HasA :
    (n : String) (w : List String) → (n == "a") ≡ false → HasA w → HasA (remove_name n w)
unfolding remove_name HasA is_in
remove_name-HasA n [] other h = h
remove_name-HasA n (m ∷ w) other h =
    ground (arith, remove_name-HasA n w other, eq_iff n "a", eq_iff m "a", eq_iff n m)

other_named : (n : String) → is_in n ("b" ∷ "x" ∷ []) ≡ true → (n == "a") ≡ false
unfolding is_in
other_named n h = elim (Bool-cases (n == "a")) [
  | inl same ↦
      absurd (not_there (subst (λ m. is_in m ("b" ∷ "x" ∷ []) ≡ true) (eq_of_text n "a" same) h))
  | inr other ↦ other
]
  where
    not_there : is_in "a" ("b" ∷ "x" ∷ []) ≡ true → ⊥
    not_there e = cc

removes :
    (f : Factory) (name d : String)
    → is_in name ("b" ∷ "x" ∷ []) ≡ true
    → get_driver cluster.new (some f) name factories ≡ ok d
    → (w : List String) → HasA w
    → HasA (cluster.rm d w).1
unfolding get_driver
removes f name d h e w p =
    remove_name-HasA d w (subst (λ n. (n == "a") ≡ false) (ok_injective e) (other_named name h)) p
  where
    ok_injective : {x y : String} → ok x ≡ ok y → x ≡ y
    ok_injective q = cc

a_there : HasA ("a" ∷ "b" ∷ [])
unfolding HasA is_in
a_there = refl

run_rm-keeps_example : HasA (run_rm cluster factories ("b" ∷ "x" ∷ []) ("a" ∷ "b" ∷ [])).1
run_rm-keeps_example =
    run_rm-keeps cluster factories ("b" ∷ "x" ∷ []) HasA (λ d w p. p) removes ("a" ∷ "b" ∷ [])
      a_there

build_command-Exports_example : Ensures (Exports build_api) (build_command build_api pushed []).0
build_command-Exports_example = build_command-Exports build_api pushed []
