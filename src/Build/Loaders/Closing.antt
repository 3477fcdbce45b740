-- ===== src/Build/Loaders/Closing.antt =====
-- When a loader can be closed.
use buildkit_cli_for_kubectl.Prelude.{
  ℕ, suc, ◌≡◌, refl, ap, ◌∙◌, ◌⊎◌, inl, inr, not, String, Bool, true, false, ◌||◌, Option, none,
  some, List, [], ◌∷◌, Result, ok, err, Error, arith,
}
use buildkit_cli_for_kubectl.Build.Loaders.{
  Effect, close_reader, close_started, open_progress, copy_body, close_body, Loader, docker_load,
  containerd_load, unpack_each, closes_started, all_started, close, write_all,
}

-- How often a goroutine closes its channel of `started`; closing it twice panics.
unfoldable pub starts : List Effect → ℕ
starts [] = 0
starts (close_started ∷ es) = suc (starts es)
starts (close_reader ∷ es) = starts es
starts (open_progress ∷ es) = starts es
starts (copy_body ∷ es) = starts es
starts (close_body ∷ es) = starts es

docker_load-starts : (answer : Option Error) → starts (docker_load answer) ≡ 1
unfolding starts docker_load
docker_load-starts (some e) = refl
docker_load-starts none = refl

unpack_each-starts : (us : List (Option Error)) → starts (unpack_each us) ≡ 1
unfolding starts unpack_each
unpack_each-starts [] = refl
unpack_each-starts (none ∷ us) = unpack_each-starts us
unpack_each-starts (some e ∷ us) = refl

containerd_load-starts :
    (answer : Result (List (Option Error))) → starts (containerd_load answer) ≡ 1
unfolding starts containerd_load
containerd_load-starts (ok us) = unpack_each-starts us
containerd_load-starts (err e) = refl

-- The goroutines of the two loaders, by what the runtime answers
unfoldable pub load : Option Error ⊎ Result (List (Option Error)) → List Effect
load (inl docker) = docker_load docker
load (inr containerd) = containerd_load containerd

load-starts : (a : Option Error ⊎ Result (List (Option Error))) → starts (load a) ≡ 1
unfolding load
load-starts (inl docker) = docker_load-starts docker
load-starts (inr containerd) = containerd_load-starts containerd

closes_started-starts : (es : List Effect) → starts es ≡ 1 → closes_started es ≡ true
unfolding starts closes_started
closes_started-starts [] h = absurd (omega (arith, h))
closes_started-starts (close_started ∷ es) h = refl
closes_started-starts (close_reader ∷ es) h = closes_started-starts es h
closes_started-starts (open_progress ∷ es) h = closes_started-starts es h
closes_started-starts (copy_body ∷ es) h = closes_started-starts es h
closes_started-starts (close_body ∷ es) h = closes_started-starts es h

abbrev pub is_some {ℓ} : {A : Type ℓ} → Option A → Bool
is_some none = false
is_some (some a) = true

abbrev pub is_empty {ℓ} : {A : Type ℓ} → List A → Bool
is_empty [] = true
is_empty (x ∷ xs) = false

module _ (write_pipe : ℕ → List ℕ → Option Error) (close_pipe : ℕ → Option Error)
    (answers : ℕ → Option Error ⊎ Result (List (Option Error))) where
  abbrev pub goroutine : ℕ → List Effect
  goroutine i = load (answers i)

  all_started-once :
      (i : ℕ) (names : List String)
      → all_started write_pipe close_pipe goroutine i names true ≡ true
  unfolding all_started
  all_started-once i [] = refl
  all_started-once i (n ∷ ns) =
      rw (closes_started-starts (load (answers i)) (load-starts (answers i)))
        (all_started-once (suc i) ns)

  once_after : List (List ℕ) → Bool → Bool
  once_after ws once = not (is_empty ws) || once

  write_all-once :
      (ws : List (List ℕ)) (l : Loader)
      → write_all write_pipe close_pipe goroutine ws l ≡ record l { once = once_after ws l.once }
  unfolding write_all once_after
  write_all-once [] l = refl
  write_all-once (w ∷ ws) l =
      write_all-once ws (record l { once = true })
      ∙ ap (λ b. record l { once = b }) (unfold once_after in any_or (not (is_empty ws)))
    where
      any_or : (b : Bool) → (b || true) ≡ true
      any_or true = refl
      any_or false = refl

  close-once :
      (names : List String) (once : Bool)
      → is_some (close write_pipe close_pipe goroutine (record { names = names; once = once }))
        ≡ (once || is_empty names)
  unfolding close
  close-once names true = rw (all_started-once 0 names) refl
  close-once [] false = unfold all_started in refl
  close-once (n ∷ ns) false = unfold all_started in refl

  -- Whatever the runtime of a pod answers, the pod's goroutine closes its channel once, neither never nor twice;
  -- so `Close` after any writes to a new loader comes back exactly where there was a write, or no pod.
  pub close_lem :
      (names : List String) (ws : List (List ℕ))
      → ((i : ℕ) → starts (goroutine i) ≡ 1)
        × (is_some (
              close write_pipe close_pipe goroutine (
                write_all write_pipe close_pipe goroutine ws
                  (record { names = names; once = false })))
            ≡ (not (is_empty ws) || is_empty names))
  unfolding once_after
  close_lem names ws = (
    λ i. load-starts (answers i),
    rw (write_all-once ws (record { names = names; once = false }))
        (close-once names (not (is_empty ws) || false) ∙ or_false (not (is_empty ws))),
  )
    where
      or_false : (b : Bool) → ((b || false) || is_empty names) ≡ (b || is_empty names)
      or_false true = refl
      or_false false = refl
