-- ===== src/Kubernetes/Pods.antt =====
-- pkg/driver/kubernetes/podchooser/podchooser.go: the running pods of a deployment, and the choice of
-- one of them. The cluster's answer to a list call and the hash ring are parameters.
pub mod Order
pub mod Choice
use buildkit_cli_for_kubectl.Prelude.{
  ℕ, zero, suc, ◌-◌, ◌%◌, String, Bool, true, false, not, ◌==◌, Option, none, some, List, [], ◌∷◌,
  ◌++◌, map, length, get_elem?, take, drop, keep, Map, insert, lookup, Result, ok, err, errorf,
  ◌>>=◌, if◌then◌else◌,
}
use buildkit_cli_for_kubectl.Kubernetes.Pods.Order.{sort_by}

-- The fields of a pod that the code reads.
pub record Pod : Type 0 where
  pub name : String
  pub phase : String
  pub containers : List String
  pub labels : Map String
  pub pod_ip : String
  pub message : String

abbrev pub is_running : Pod → Bool
is_running p = p.phase == "Running"

-- `ListRunningPods`: `list` answers the call with the selector `app = name`.
unfoldable pub list_running_pods : (String → Result (List Pod)) → String → Result (List Pod)
list_running_pods list name = do
  items ← list (if name == "" then "buildkit" else name)
  ok (sort_by Pod.name (keep is_running items))

-- The chosen pod and the others. The others of the sticky chooser are a slice that was made with a
-- nil pointer at each index.
pub record Chosen : Type 0 where
  pub pod : Pod
  pub others : List (Option Pod)

abbrev pub no_pods : {A : Type 0} → Result A
no_pods = err (errorf "no builder pods are running" [])

abbrev pub panic : {A : Type 0} → String → Result A
panic what = err (errorf "panic" (what ∷ []))

pick_at : List Pod → ℕ → Option Pod → Result Chosen
pick_at pods n none = panic "index out of range"
pick_at pods n (some p) =
    ok (record { pod = p; others = map some (take n pods ++ drop (suc n) pods) })

-- `RandomPodChooser.ChoosePod` behind the list call; `random` is the number `rnd.Int()`.
unfoldable pub pick_random : ℕ → List Pod → Result Chosen
unfolding pick_at
pick_random random [] = no_pods
pick_random random (p ∷ ps) =
    let n = random % length (p ∷ ps) in pick_at (p ∷ ps) n (get_elem? (p ∷ ps) n)

-- `podMap`
pod_map : Map Pod → List Pod → Map Pod
pod_map m [] = m
pod_map m (p ∷ ps) = pod_map (insert p.name p m) ps

empty_slots : ℕ → List (Option Pod)
empty_slots zero = []
empty_slots (suc n) = none ∷ empty_slots n

other_pods : String → List Pod → List Pod
other_pods chosen pods = keep (λ p. not (p.name == chosen)) pods

pick_named : List Pod → Option Pod → Result Chosen
unfolding empty_slots other_pods
pick_named pods none = panic "nil pointer dereference"
pick_named pods (some p) = ok (record {
  pod = p;
  others =
      map some (other_pods p.name pods)
      ++ empty_slots (length pods - 1 - length (other_pods p.name pods));
})

-- Without a node the random chooser lists the pods again, which `again` answers.
pick_node : Result (List Pod) → ℕ → List Pod → Option String → Result Chosen
unfolding pick_named pod_map pick_random
pick_node again random pods none = again >>= pick_random random
pick_node again random pods (some chosen) = pick_named pods (lookup chosen (pod_map [] pods))

-- `StickyPodChooser.ChoosePod` behind the list call; `ring` is `GetNode` on a ring of the names.
unfoldable pub pick_sticky :
    (List String → String → Option String)
    → Result (List Pod)
    → ℕ
    → String
    → List Pod
    → Result Chosen
unfolding pick_node
pick_sticky ring again random key [] = no_pods
pick_sticky ring again random key (p ∷ ps) =
    pick_node again random (p ∷ ps) (ring (map Pod.name (p ∷ ps)) key)

unfoldable pub choose_random : (String → Result (List Pod)) → String → ℕ → Result Chosen
choose_random list name random = do pods ← list_running_pods list name; pick_random random pods

unfoldable pub choose_sticky :
    (String → Result (List Pod))
    → String
    → (List String → String → Option String)
    → (String → Result (List Pod))
    → ℕ
    → String
    → Result Chosen
choose_sticky list name ring relist random key = do
  pods ← list_running_pods list name
  pick_sticky ring (list_running_pods relist name) random key pods
