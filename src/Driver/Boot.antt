-- ===== src/Driver/Boot.antt =====
-- `Boot` of pkg/driver/driver.go: asks a driver for its clients, and bootstraps the builder before that where
-- it is not running. `Bootable` stands for the driver, the context and the pauses.
use buildkit_cli_for_kubectl.Prelude.{
  ℕ, zero, suc, arith, ◌<◌, ◌≡◌, refl, Bool, true, false, not, [], Result, ok, err, Error, errorf,
  wrapf, if◌then◌else◌, Bool-cases, inl, inr,
}
use buildkit_cli_for_kubectl.Prelude.Io.{Io}
use buildkit_cli_for_kubectl.Prelude.Loops.{
  Step, returned, goes_on, Tries, continue, try_until_done,
}
use buildkit_cli_for_kubectl.Kubernetes.Operations.{
  Info, Status, inactive, starting, running, stopping, stopped,
}

pub record Bootable : Type 1 where
  pub World : Type 0
  pub BuilderClients : Type 0
  pub is_done : World → Bool
  pub pause : ℕ → World → World
  pub info : Io World Info
  pub bootstrap : Io World (Unit {0})
  pub clients : Io World BuilderClients

unfoldable pub is_running : Status → Bool
is_running running = true
is_running inactive = false
is_running starting = false
is_running stopping = false
is_running stopped = false

module _ (d : Bootable) where
  open d use {World, BuilderClients, is_done, pause, info, bootstrap, clients}

  abbrev Booted : Type 0
  Booted = Result BuilderClients

  after_clients : Booted × World → Step Error Booted × World
  after_clients (ok r, w) = (returned (ok r), w)
  after_clients (err e, w) = (goes_on e, pause 1000 w)

  after_bootstrap : Result (Unit {0}) × World → Step Error Booted × World
  unfolding after_clients
  after_bootstrap (ok u, w) = after_clients (clients w)
  after_bootstrap (err e, w) = (goes_on e, pause 100 w)

  after_info : Result Info × World → Step Error Booted × World
  unfolding after_bootstrap is_running
  after_info (err e, w) = (returned (err e), w)
  after_info (ok i, w) =
      if not (is_running i.status) then after_bootstrap (bootstrap w) else after_clients (clients w)

  -- The body of the loop, behind the look at the context
  unfoldable pub boot_once : World → Step Error Booted × World
  unfolding after_info
  boot_once w = after_info (info w)

  unfoldable pub tries : Tries Error Booted World
  unfolding boot_once
  tries = record {
    out_of_fuel = err (errorf "out of fuel" []);
    is_done = is_done;
    give_up = λ e. err (wrapf e "timed out trying to bootstrap builder" []);
    step = boot_once;
  }

  unfoldable pub boot : ℕ → World → Booted × World
  unfolding tries try_until_done
  boot fuel w = try_until_done tries fuel (errorf "timeout before starting" []) w

  -- The builder runs when the clients are asked for: it ran, or `Bootstrap` has started it.
  pub data Ready : World → World → Type 0 where
    up : {w u : World} (i : Info) → info w ≡ (ok i, u) → is_running i.status ≡ true → Ready w u
    started :
        {w t u : World} (i : Info)
        → info w ≡ (ok i, t)
        → is_running i.status ≡ false
        → bootstrap t ≡ (ok tt, u)
        → Ready w u

  -- One round, by what the driver answers in it: how it ends, and the world that it leaves
  pub data Round : World → Step Error Booted → World → Type 0 where
    no_info : {w v : World} (e : Error) → info w ≡ (err e, v) → Round w (returned (err e)) v
    no_start :
        {w u v : World} (i : Info) (e : Error)
        → info w ≡ (ok i, u)
        → is_running i.status ≡ false
        → bootstrap u ≡ (err e, v)
        → Round w (goes_on e) (pause 100 v)
    has_clients :
        {w u v : World} (r : BuilderClients)
        → Ready w u
        → clients u ≡ (ok r, v)
        → Round w (returned (ok r)) v
    no_clients :
        {w u v : World} (e : Error)
        → Ready w u
        → clients u ≡ (err e, v)
        → Round w (goes_on e) (pause 1000 v)

  -- The rounds from a world, with the error of the round before, to a result and a last world
  pub data Rounds : Error → World → Booted → World → Type 0 where
    gives_up :
        {e : Error} {w : World}
        → is_done w ≡ true
        → Rounds e w (err (wrapf e "timed out trying to bootstrap builder" [])) w
    ends :
        {e : Error} {w v : World} {x : Booted}
        → is_done w ≡ false
        → Round w (returned x) v
        → Rounds e w x v
    continues :
        {e x : Error} {w u v : World} {r : Booted}
        → is_done w ≡ false
        → Round w (goes_on x) u
        → Rounds x u r v
        → Rounds e w r v

  after_clients-Round :
      (w u : World) (m : Booted × World)
      → Ready w u
      → clients u ≡ m
      → Round w (after_clients m).0 (after_clients m).1
  unfolding after_clients
  after_clients-Round w u (ok r, v) h k = has_clients r h k
  after_clients-Round w u (err e, v) h k = no_clients e h k

  after_bootstrap-Round :
      (w u : World) (i : Info) (m : Result (Unit {0}) × World)
      → info w ≡ (ok i, u)
      → is_running i.status ≡ false
      → bootstrap u ≡ m
      → Round w (after_bootstrap m).0 (after_bootstrap m).1
  unfolding after_bootstrap
  after_bootstrap-Round w u i (ok z, v) h k l =
      after_clients-Round w v (clients v) (started i h k l) refl
  after_bootstrap-Round w u i (err e, v) h k l = no_start i e h k l

  after_info-Round :
      (w : World) (m : Result Info × World) → info w ≡ m → Round w (after_info m).0 (after_info m).1
  unfolding after_info
  after_info-Round w (err e, v) h = no_info e h
  after_info-Round w (ok i, v) h = elim (Bool-cases (is_running i.status)) [
    | inl runs ↦ rw runs (after_clients-Round w v (clients v) (up i h runs) refl)
    | inr rests ↦ rw rests (after_bootstrap-Round w v i (bootstrap v) h rests refl)
  ]

  boot_once-Round : (w : World) → Round w (boot_once w).0 (boot_once w).1
  unfolding boot_once
  boot_once-Round w = after_info-Round w (info w) refl

  -- Each round that goes on takes some of the time that is left.
  module _ (left : World → ℕ)
      (passes : (u v : World) (e : Error)
        → is_done u ≡ false
        → boot_once u ≡ (goes_on e, v)
        → left v < left u) where
    tries-Rounds :
        (fuel : ℕ) (e : Error) (w : World)
        → left w < fuel
        → Rounds e w (try_until_done tries fuel e w).0 (try_until_done tries fuel e w).1
    unfolding try_until_done tries
    tries-Rounds zero e w h = absurd (omega (arith, h))
    tries-Rounds (suc fuel) e w h = elim (Bool-cases (is_done w)) [
      | inl d ↦ rw d (gives_up d)
      | inr d ↦ rw d (
          go (boot_once w) d (boot_once-Round w)
            (λ x v k. tries-Rounds fuel x v (omega (arith, h, passes w v x d k))) refl)
    ]
      where
        go :
            (m : Step Error Booted × World)
            → is_done w ≡ false
            → Round w m.0 m.1
            → ((x : Error) (v : World)
                → boot_once w ≡ (goes_on x, v)
                → Rounds x v (try_until_done tries fuel x v).0 (try_until_done tries fuel x v).1)
            → boot_once w ≡ m
            → Rounds e w
                (continue tries (λ x v. try_until_done tries fuel x v) m).0
                (continue tries (λ x v. try_until_done tries fuel x v) m).1
        go (returned x, v) k r later q = ends k r
        go (goes_on x, v) k r later q = continues k r (later x v q)

    -- Where the fuel is more than the time at the start, `Boot` comes to its end in rounds of the driver's
    -- answers. A round in which `Info` fails ends it with that error, and one in which the running or started
    -- builder has clients with those; any other goes on with its own error, of `Bootstrap` or of the clients.
    -- Once the context is done, the error of the latest round comes back, wrapped.
    pub boot-Rounds :
        (fuel : ℕ) (w : World)
        → left w < fuel
        → Rounds (errorf "timeout before starting" []) w (boot fuel w).0 (boot fuel w).1
    unfolding boot
    boot-Rounds fuel w h = tries-Rounds fuel (errorf "timeout before starting" []) w h
