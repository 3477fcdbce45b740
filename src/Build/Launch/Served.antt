-- ===== src/Build/Launch/Served.antt =====
-- The goroutines that `Build` starts have clients, and there is one for each place that is waited for.
use mathlib.Core.List.{append-nil, append_assoc, map-append}
use buildkit_cli_for_kubectl.Prelude.{
  ℕ, suc, String, ◌≡◌, refl, sym, ap, ◌∙◌, Bool, true, ◌||◌, some, List, [], ◌∷◌, ◌++◌, map, length,
  Map, lookup, lookup_or, ltb, All, All-append, Result, ok, err, subst, arith, Ensures,
  Ensures-intro,
}
use buildkit_cli_for_kubectl.Prelude.Io.{Io, pure, lift, ◌>>=◌, Io-cases}
use buildkit_cli_for_kubectl.Platform.{Platforms}
use buildkit_cli_for_kubectl.Build.Outputs.{ExportEntry}
use buildkit_cli_for_kubectl.Build.Drivers.{DriverInfo, DriverPair, all_pairs, has_index}
use buildkit_cli_for_kubectl.Build.Drivers.Pairs.{indexes_of}
use buildkit_cli_for_kubectl.Build.Drivers.Booting.{
  Choice, Clients, HasClient, AllServed, has_client-first_client, driver_at, choose_drivers,
  is_known, choose_drivers-AllServed,
}
use buildkit_cli_for_kubectl.Build.Launch.{
  Job, ready_exports, job_for, start_job, launch_pairs, launch_target, launch, launch_chosen,
  launch_build,
}

module _ (p : Platforms) where
  slots_from : String → ℕ → List (DriverPair p) → List (String × ℕ)
  slots_from k i [] = []
  slots_from k i (dp ∷ dps) = (k, i) ∷ slots_from k (suc i) dps

  -- The places in `res` that the wait groups count, one for each driver of each target
  pub slots : Map (List (DriverPair p)) → Map (List ExportEntry) → List (String × ℕ)
  unfolding slots_from
  slots m [] = []
  slots m ((k, es) ∷ ts) = slots_from k 0 (lookup_or [] k m) ++ slots m ts

module _ {C : Type 0} where
  -- The place that a goroutine fills
  abbrev pub slot_of : Job C → String × ℕ
  slot_of j = (j.target, j.index)

  abbrev pub HasJobClient : Job C → Type 0
  HasJobClient j = (c : C) × (j.client ≡ some c)

  -- What was started has clients if what was there has, and where all went well it fills those places.
  pub record Starts {A : Type 0} (places : List (String × ℕ)) (jobs : List (Job C))
      (m : Result A × List (Job C)) : Type 0 where
    pub served : All HasJobClient jobs → All HasJobClient m.1
    pub started : (a : A) → m.0 ≡ ok a → map slot_of m.1 ≡ map slot_of jobs ++ places

  none-Starts : {A : Type 0} (a : A) (jobs : List (Job C)) → Starts [] jobs (ok a, jobs)
  none-Starts a jobs = record {
    served = λ h. h;
    started = λ b e. sym (append-nil (map slot_of jobs));
  }

  cons-Starts :
      {A : Type 0} (j : Job C) (places : List (String × ℕ)) (jobs : List (Job C))
      (m : Result A × List (Job C))
      → HasJobClient j
      → Starts places (jobs ++ j ∷ []) m
      → Starts (slot_of j ∷ places) jobs m
  cons-Starts j places jobs m h s = record {
    served = λ all. s.served (All-append HasJobClient jobs (j ∷ []) all (h, tt));
    started = λ a e.
        s.started a e ∙ rw map-append (append_assoc (map slot_of jobs) (slot_of j ∷ []) places);
  }

  lift-Starts :
      {A B : Type 0} (places : List (String × ℕ)) (r : Result A) (f : A → Io (List (Job C)) B)
      (jobs : List (Job C))
      → ((a : A) → Starts places jobs (f a jobs))
      → Starts places jobs ((lift r >>= f) jobs)
  lift-Starts places (ok a) f jobs h = h a
  lift-Starts places (err e) f jobs h = record { served = λ all. all; started = λ a q. absurd (cc) }

  bind-Starts :
      {A B : Type 0} (ps qs : List (String × ℕ)) (m : Io (List (Job C)) A)
      (f : A → Io (List (Job C)) B) (jobs : List (Job C))
      → Starts ps jobs (m jobs)
      → ((a : A) (v : List (Job C)) → Starts qs v (f a v))
      → Starts (ps ++ qs) jobs ((m >>= f) jobs)
  bind-Starts {A} {B} ps qs m f jobs s h =
      Io-cases (Starts (ps ++ qs) jobs) m f jobs
        (λ a v e. go a v (subst (Starts ps jobs) e s) (h a v))
        (λ e v q. record {
          served = (subst (Starts ps jobs) q s).served;
          started = λ a z. absurd (cc);
        })
    where
      go :
          (a : A) (v : List (Job C))
          → Starts ps jobs (ok a, v)
          → Starts qs v (f a v)
          → Starts (ps ++ qs) jobs (f a v)
      go a v s t = record {
        served = λ all. t.served (s.served all);
        started = λ b e.
            t.started b e
            ∙ ap (λ l. l ++ qs) (s.started a refl)
            ∙ append_assoc (map slot_of jobs) ps qs;
      }

  map-Starts :
      {A B : Type 0} (ps : List (String × ℕ)) (m : Io (List (Job C)) A) (g : A → B)
      (jobs : List (Job C))
      → Starts ps jobs (m jobs)
      → Starts ps jobs ((m >>= λ a. pure (g a)) jobs)
  map-Starts ps m g jobs s =
      subst (λ qs. Starts qs jobs ((m >>= λ a. pure (g a)) jobs)) (append-nil ps)
        (bind-Starts ps [] m (λ a. pure (g a)) jobs s (λ a v. none-Starts (g a) v))

module _ (p : Platforms) {D C : Type 0} (boot : D → Result (String × C))
    (repository : String → Result String) (drivers : List (DriverInfo p D))
    (clients : Map (Map C)) where
  job_for-HasJobClient :
      (k : String) (i : ℕ) (prefixed : Bool) (es : List ExportEntry) (n : ℕ)
      (h : HasClient p boot drivers clients n)
      → HasJobClient (job_for p boot repository drivers clients k i prefixed es h.info)
  unfolding job_for
  job_for-HasJobClient k i prefixed es n h =
      has_client-first_client p boot drivers h.info.name clients h.found

  -- The drivers of a list of pairs have clients.
  abbrev Reached : List (DriverPair p) → Type 0
  Reached dps =
      (i : ℕ) → has_index p i (indexes_of p dps) ≡ true → HasClient p boot drivers clients i

  launch_pairs-Starts :
      (k : String) (prefixed multi : Bool) (i : ℕ) (names : String) (es : List ExportEntry)
      (dps : List (DriverPair p)) (jobs : List (Job C))
      → Reached dps
      → Starts
          (slots_from p k i dps)
          jobs
          (launch_pairs p boot repository drivers clients k prefixed multi i names es dps jobs)
  unfolding launch_pairs slots_from has_index start_job driver_at
  launch_pairs-Starts k prefixed multi i names es [] jobs r = none-Starts names jobs
  launch_pairs-Starts k prefixed multi i names es (dp ∷ dps) jobs r =
      let h = r dp.driver_index (ground arith) in
      lift-Starts (slots_from p k i (dp ∷ dps))
        (ready_exports p boot repository drivers clients multi names es) _ jobs
        (λ ready. rw h.in_list (
          cons-Starts (job_for p boot repository drivers clients k i prefixed ready.1 h.info)
            (slots_from p k (suc i) dps) jobs _
            (job_for-HasJobClient k i prefixed ready.1 dp.driver_index h)
            (launch_pairs-Starts k prefixed multi (suc i) ready.0 ready.1 dps _
              (λ j e. r j (ground (arith, e))))))

  has_index-append :
      (i : ℕ) (xs ys : List (DriverPair p))
      → has_index p i (indexes_of p (xs ++ ys))
        ≡ (has_index p i (indexes_of p xs) || has_index p i (indexes_of p ys))
  unfolding has_index
  has_index-append i [] ys = refl
  has_index-append i (x ∷ xs) ys = ground (arith, has_index-append i xs ys)

  has_index-all_pairs :
      (i : ℕ) (k : String) (m : Map (List (DriverPair p)))
      → has_index p i (indexes_of p (lookup_or [] k m)) ≡ true
      → has_index p i (indexes_of p (all_pairs p m)) ≡ true
  unfolding has_index all_pairs lookup
  has_index-all_pairs i k [] h = absurd (cc)
  has_index-all_pairs i k ((j, dps) ∷ m) h =
      rw (has_index-append i dps (all_pairs p m)) (ground (arith, h, has_index-all_pairs i k m))

  launch-Starts :
      (m : Map (List (DriverPair p))) (multi_target : Bool) (ts : Map (List ExportEntry))
      (jobs : List (Job C))
      → AllServed p boot drivers (m, clients)
      → Starts (slots p m ts) jobs (launch p boot repository drivers clients m multi_target ts jobs)
  unfolding launch launch_target slots AllServed
  launch-Starts m multi_target [] jobs a = none-Starts [] jobs
  launch-Starts m multi_target ((k, es) ∷ ts) jobs a =
      bind-Starts (slots_from p k 0 (lookup_or [] k m)) (slots p m ts)
        (launch_target p boot repository drivers clients m multi_target k es (lookup_or [] k m)) _
        jobs
        (launch_pairs-Starts k multi_target (ltb 1 (length (lookup_or [] k m))) 0 "" es
          (lookup_or [] k m) jobs (λ i h. a i (has_index-all_pairs i k m h)))
        (λ names v.
          map-Starts (slots p m ts) (launch p boot repository drivers clients m multi_target ts)
            (λ rest. (k, names) ∷ rest) v (launch-Starts m multi_target ts v a))

module _ (p : Platforms) {D C : Type 0} (boot : D → Result (String × C))
    (list_workers : Clients p boot [] → Result (List (List p.Platform)))
    (repository : String → Result String) where
  launch_chosen-ok :
      (ts : Map (List ExportEntry)) (c : Result (Choice p boot list_workers))
      (left : List (DriverInfo p D)) (pairs : Map (List (DriverPair p))) (clients : Map (Map C))
      → c ≡ ok (left, pairs, clients)
      → launch p boot repository left clients pairs (ltb 1 (length ts)) ts []
        ≡ launch_chosen p boot list_workers repository ts c []
  unfolding launch_chosen
  launch_chosen-ok ts c left pairs clients e = rw e refl

  -- Where `Build` has chosen its drivers and no worker had to be asked for its platforms, every goroutine that
  -- it starts to solve has a client, also where it then returns an error; and where it starts them all, they
  -- are those that the wait groups count, one for each driver of each target.
  pub launch_build-served :
      (dis : List (DriverInfo p D)) (opt : Map (List p.Platform)) (ts : Map (List ExportEntry))
      (left : List (DriverInfo p D)) (pairs : Map (List (DriverPair p))) (clients : Map (Map C))
      → choose_drivers p boot list_workers dis opt ≡ ok (left, pairs, clients)
      → is_known p boot list_workers opt left ≡ true
      → All HasJobClient (launch_build p boot list_workers repository dis opt ts []).1
        × Ensures
            (λ names.
              map slot_of (launch_build p boot list_workers repository dis opt ts []).1
              ≡ slots p pairs ts)
            (launch_build p boot list_workers repository dis opt ts []).0
  unfolding launch_build
  launch_build-served dis opt ts left pairs clients e k =
      let s : Starts (slots p pairs ts) []
          (launch_build p boot list_workers repository dis opt ts []) =
        subst (Starts (slots p pairs ts) [])
          (launch_chosen-ok ts (choose_drivers p boot list_workers dis opt) left pairs clients e)
          (launch-Starts p boot repository left clients pairs (ltb 1 (length ts)) ts []
            (choose_drivers-AllServed p boot list_workers dis opt left pairs clients e k)) in
      (
        s.served tt,
        Ensures-intro
            (λ names.
              map slot_of (launch_build p boot list_workers repository dis opt ts []).1
              ≡ slots p pairs ts)
            (launch_build p boot list_workers repository dis opt ts []).0 s.started,
      )
