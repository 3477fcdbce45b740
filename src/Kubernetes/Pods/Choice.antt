-- ===== src/Kubernetes/Pods/Choice.antt =====
-- What the pod choosers return.
use mathlib.Core.List.{Perm, append-nil}
use mathlib.Core.List.Perm
use Prim.Native.Nat.{◌%◌}
use buildkit_cli_for_kubectl.Prelude.{
  ℕ, zero, suc, ◌-◌, ◌<◌, String, ◌≡◌, refl, ap, sym, ◌∙◌, true, false, ◌==◌, Option, some, List,
  [], ◌∷◌, ◌++◌, map, length, get_elem?, take, drop, keep, Map, insert, lookup, lookup-insert,
  Result, ok, if◌then◌else◌, Bool-cases, inl, inr, is_in, Distinct, eq_of_text, arith,
}
use buildkit_cli_for_kubectl.Kubernetes.Pods.Order.{
  sort_by, sort_by-Perm, sort_by-IsSorted, IsSorted,
}
use buildkit_cli_for_kubectl.Kubernetes.Pods.{
  Pod, is_running, list_running_pods, Chosen, pick_at, pick_random, pod_map, empty_slots,
  other_pods, pick_named, pick_node, pick_sticky,
}

-- `ListRunningPods` returns the running ones of the pods that the cluster lists under the deployment's
-- name, or under `buildkit` where it has none, each once for each time it is listed, sorted by name.
pub list_running_pods_lem :
    (list : String → Result (List Pod)) (name : String) (items : List Pod)
    → list (if name == "" then "buildkit" else name) ≡ ok items
    → (pods : List Pod) × (list_running_pods list name ≡ ok pods)
      × Perm pods (keep is_running items)
      × IsSorted Pod.name pods
unfolding list_running_pods
list_running_pods_lem list name items h = (
  sort_by Pod.name (keep is_running items),
  rw h refl,
  sort_by-Perm Pod.name (keep is_running items),
  sort_by-IsSorted Pod.name (keep is_running items),
)

-- The chosen pod and the others are the pods, each once, and no other is missing.
pub Picks : List Pod → Result Chosen → Type 0
Picks pods r =
    (p : Pod) × (others : List Pod) × (r ≡ ok (record { pod = p; others = map some others }))
    × Perm (p ∷ others) pods

pick_at-Picks :
    (pods : List Pod) (n : ℕ)
    → n < length pods
    → (p : Pod) × (get_elem? pods n ≡ some p) × Perm (p ∷ (take n pods ++ drop (suc n) pods)) pods
pick_at-Picks [] n h = absurd (omega (arith, h))
pick_at-Picks (p ∷ ps) zero h = (p, refl, Perm.refl (p ∷ ps))
pick_at-Picks (p ∷ ps) (suc n) h =
    let (q, e, perm) = pick_at-Picks ps n (omega (arith, h)) in
    (q, e, Perm.trans (Perm.swap p q (take n ps ++ drop (suc n) ps)) (Perm.cons p perm))

mod_bound : (m n : ℕ) → m % suc n < suc n
mod_bound m n = omega arith

-- The random choice succeeds on one or more pods, whatever the random number is: it picks one of them,
-- and the others are the rest.
pub pick_random-Picks :
    (random : ℕ) (p : Pod) (ps : List Pod) → Picks (p ∷ ps) (pick_random random (p ∷ ps))
unfolding Picks pick_random pick_at
pick_random-Picks random p ps =
    let n = random % suc (length ps) in
    let (q, e, perm) = pick_at-Picks (p ∷ ps) n (mod_bound random (length ps)) in
    (q, take n (p ∷ ps) ++ drop (suc n) (p ∷ ps), rw e refl, perm)

absent-pod_map :
    (c : String) (ps : List Pod) (m : Map Pod)
    → is_in c (map Pod.name ps) ≡ false
    → (lookup c (pod_map m ps) ≡ lookup c m) × (other_pods c ps ≡ ps)
unfolding pod_map other_pods is_in
absent-pod_map c [] m h = (refl, refl)
absent-pod_map c (p ∷ ps) m h = elim (Bool-cases (p.name == c)) [
  | inl e ↦ absurd (ground (arith, h, e))
  | inr n ↦
      let rest = absent-pod_map c ps (insert p.name p m) (ground (arith, h, n)) in
      (rest.0 ∙ (lookup-insert p.name c p m ∙ rw n refl), rw n (ap (◌∷◌ p) rest.1))
]

present-pod_map :
    (c : String) (ps : List Pod) (m : Map Pod)
    → Distinct (map Pod.name ps)
    → is_in c (map Pod.name ps) ≡ true
    → (p : Pod) × (lookup c (pod_map m ps) ≡ some p)
      × (p.name ≡ c)
      × Perm (p ∷ other_pods c ps) ps
      × (suc (length (other_pods c ps)) ≡ length ps)
unfolding pod_map other_pods is_in
present-pod_map c [] m d h = absurd (cc)
present-pod_map c (p ∷ ps) m d h = elim (Bool-cases (p.name == c)) [
  | inl e ↦
      let same = eq_of_text p.name c e in
      let rest = absent-pod_map c ps (insert p.name p m) (rw (sym same) d.0) in
      (
        p,
        rest.0 ∙ (lookup-insert p.name c p m ∙ rw e refl),
        same,
        rw e (rw rest.1 (Perm.refl (p ∷ ps))),
        rw e (rw rest.1 refl),
      )
  | inr n ↦
      let (q, e, same, perm, len) =
        present-pod_map c ps (insert p.name p m) d.1 (ground (arith, h, n)) in
      (
        q,
        e,
        same,
        rw n (Perm.trans (Perm.swap p q (other_pods c ps)) (Perm.cons p perm)),
        rw n (ap suc len),
      )
]

named-Picks :
    (pods : List Pod) (q : Pod) (others : List Pod)
    → other_pods q.name pods ≡ others
    → suc (length others) ≡ length pods
    → pick_named pods (some q) ≡ ok (record { pod = q; others = map some others })
unfolding pick_named empty_slots
named-Picks pods q others e n =
    rw e (rw (sym n) (rw (no_slots (length others)) (rw (append-nil (map some others)) refl)))
  where
    no_slots : (m : ℕ) → suc m - 1 - m ≡ 0
    no_slots m = omega arith

-- The sticky choice, on one or more pods with distinct names: where the ring answers with one of the
-- names, that pod is chosen, the others are the rest, and no slot of the slice stays nil.
pub pick_sticky-Picks :
    (ring : List String → String → Option String) (again : Result (List Pod)) (random : ℕ)
    (key c : String) (p : Pod) (ps : List Pod)
    → Distinct (map Pod.name (p ∷ ps))
    → ring (map Pod.name (p ∷ ps)) key ≡ some c
    → is_in c (map Pod.name (p ∷ ps)) ≡ true
    → (q : Pod) × (others : List Pod) × (pick_sticky ring again random key (p ∷ ps)
        ≡ ok (record { pod = q; others = map some others }))
      × (q.name ≡ c)
      × Perm (q ∷ others) (p ∷ ps)
unfolding pick_sticky pick_node
pick_sticky-Picks ring again random key c p ps d e i =
    let (q, found, same, perm, len) = present-pod_map c (p ∷ ps) [] d i in
    (
      q,
      other_pods c (p ∷ ps),
      rw e (
          rw found (
            named-Picks (p ∷ ps) q (other_pods c (p ∷ ps)) (ap (λ x. other_pods x (p ∷ ps)) same)
              len)),
      same,
      perm,
    )
