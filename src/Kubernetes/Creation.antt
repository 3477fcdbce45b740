-- ===== src/Kubernetes/Creation.antt =====
-- `createConfigMap` of pkg/driver/kubernetes/creation.go: a loop until the calls succeed or the context
-- is done. `ConfigMapApi` stands for the cluster, the context and the pause between two attempts. The
-- loop runs on fuel; a measure of the time that is left bounds the fuel that it needs.
use buildkit_cli_for_kubectl.Prelude.{
  ℕ, ◌<◌, ◌≡◌, Bool, false, Result, ok, err, Error, errorf, if◌then◌else◌, [],
}
use buildkit_cli_for_kubectl.Prelude.Io.{Io}
use buildkit_cli_for_kubectl.Prelude.Loops.{
  Step, returned, goes_on, Tries, Ends, try_until_done, try_until_done-Ends,
}

-- What `Get` answers.
pub data Found : Type 0 where
  present : Found
  not_found failed : Error → Found

pub record ConfigMapApi : Type 1 where
  pub World : Type 0
  pub is_done : World → Bool
  pub get : World → Found × World
  pub create : Io World (Unit {0})
  pub update : Io World (Unit {0})
  pub pause : World → World

module _ (api : ConfigMapApi) where
  open api use {World, is_done, get, create, update, pause}

  -- The end of the body: a failed call is followed by a pause.
  paused : Result (Unit {0}) × World → Result (Unit {0}) × World
  paused (ok u, w) = (ok u, w)
  paused (err e, w) = (err e, pause w)

  after_get : Bool → Found × World → Result (Unit {0}) × World
  unfolding paused
  after_get specified (not_found e, w) = paused (create w)
  after_get specified (failed e, w) = (err e, pause w)
  after_get specified (present, w) = if specified then paused (update w) else (ok tt, w)

  -- One pass of the loop; `specified` is the driver's `userSpecifiedConfig`.
  unfoldable pub attempt : Bool → Io World (Unit {0})
  unfolding after_get
  attempt specified w = after_get specified (get w)

  -- The loop goes on after every error.
  next_of : Result (Unit {0}) × World → Step Error (Result (Unit {0})) × World
  next_of (ok u, w) = (returned (ok u), w)
  next_of (err e, w) = (goes_on e, w)

  unfoldable pub tries : Bool → Tries Error (Result (Unit {0})) World
  unfolding attempt next_of
  tries specified = record {
    out_of_fuel = err (errorf "out of fuel" []);
    is_done = is_done;
    give_up = λ e. err e;
    step = λ w. next_of (attempt specified w);
  }

  unfoldable pub create_config_map : ℕ → Bool → Io World (Unit {0})
  unfolding tries try_until_done
  create_config_map fuel specified w =
      try_until_done (tries specified) fuel (errorf "timeout before first attempt" []) w

  -- An attempt that succeeded
  abbrev pub Succeeds : Result (Unit {0}) → World → Type 0
  Succeeds r w = r ≡ ok tt

  next_of-Succeeds :
      (m : Result (Unit {0}) × World) (v : World) (r : Result (Unit {0}))
      → next_of m ≡ (returned r, v)
      → Succeeds r v
  unfolding next_of
  next_of-Succeeds (ok u, w) v r h = cc
  next_of-Succeeds (err e, w) v r h = absurd (cc)

  module _ (left : World → ℕ) (specified : Bool)
      (passes : (w v : World) (e : Error)
        → is_done w ≡ false
        → attempt specified w ≡ (err e, v)
        → left v < left w) where
    next_of-err :
        (m : Result (Unit {0}) × World) (v : World) (e : Error)
        → next_of m ≡ (goes_on e, v)
        → m ≡ (err e, v)
    unfolding next_of
    next_of-err (ok u, w) v e h = absurd (cc)
    next_of-err (err x, w) v e h = cc

    -- Where each failed attempt takes some of the time that is left, and the fuel is more than the time at
    -- the start, the loop comes to its end: it returns the error of the latest attempt once the context is
    -- done, or what an attempt that succeeded before that returned.
    pub create_config_map-Ends :
        (fuel : ℕ) (w : World)
        → left w < fuel
        → Ends (tries specified) Succeeds (create_config_map fuel specified w)
    unfolding create_config_map tries
    create_config_map-Ends fuel w h =
        try_until_done-Ends (tries specified) Succeeds
          (λ u v x k. next_of-Succeeds (attempt specified u) v x k) left
          (λ u v e d k. passes u v e d (next_of-err (attempt specified u) v e k)) fuel
          (errorf "timeout before first attempt" []) w h
