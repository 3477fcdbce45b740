-- ===== src/Build/Loaders.antt =====
-- `newDockerLoader`, `newContainerdLoader` and `waitingWriter` of pkg/build/build.go. What the goroutine of a
-- pod does is the list of its effects, in order; the answers of Docker, containerd and the pipes are
-- parameters. A loader starts the goroutines at the first write, and its `Close` waits for each of them.
pub mod Closing
use buildkit_cli_for_kubectl.Prelude.{
  ℕ, zero, suc, ◌+◌, String, Bool, true, false, ◌||◌, ◌&&◌, not, Option, none, some, List, [], ◌∷◌,
  ◌++◌, length, all, Result, ok, err, Error, errorf, wrapf, ◌>>=◌, map_results, if◌then◌else◌, ◌==◌,
  nat_eq, map,
}
use buildkit_cli_for_kubectl.Kubernetes.Operations.{Builder, Node}

pub data Effect : Type 0 where
  close_reader close_started open_progress copy_body close_body : Effect

names_of : List Node → List String
names_of [] = []
names_of (n ∷ ns) = n.name ∷ names_of ns

-- The nodes of the builders with that name
unfoldable pub node_names : String → List Builder → List String
unfolding names_of
node_names name [] = []
node_names name (b ∷ bs) =
    let rest = node_names name bs in if b.name == name then names_of b.nodes ++ rest else rest

-- A loader: for each pod the number that its client was made with, and the flag `once`
pub record Loader : Type 0 where
  pub names : List String
  pub once : Bool

-- Each pod gets a client; `wrap` words the error.
make_loader : (String → Result (Unit {0})) → (Error → Error) → List String → Result Loader
make_loader new_client wrap names = with_clients (map_results new_client names)
  where
    with_clients : Result (List (Unit {0})) → Result Loader
    with_clients (ok cs) = ok (record { names = names; once = false })
    with_clients (err e) = err (wrap e)

pub docker_client_error : Error → Error
docker_client_error e = wrapf e "failed to set up docker client via proxy" []

pub containerd_client_error : Error → Error
containerd_client_error e = wrapf e "failed to set up containerd client via proxy" []

module _ (list : Result (List Builder)) (new_client : String → Result (Unit {0})) where
  unfoldable pub new_docker_loader : String → Result Loader
  unfolding make_loader node_names docker_client_error
  new_docker_loader name = do
    builders ← list
    let names = node_names name builders
    if nat_eq (length names) 0
        then err (errorf "no builders found for %s" (name ∷ []))
        else make_loader new_client docker_client_error names

  unfoldable pub new_containerd_loader : String → Result Loader
  unfolding make_loader node_names containerd_client_error
  new_containerd_loader name = do
    builders ← list
    make_loader new_client containerd_client_error (node_names name builders)

-- The goroutine for Docker, by what `ImageLoad` answers
unfoldable pub docker_load : Option Error → List Effect
docker_load (some e) = close_reader ∷ close_started ∷ []
docker_load none = open_progress ∷ close_started ∷ copy_body ∷ close_body ∷ []

-- The images are unpacked one by one, up to the first error.
unpack_each : List (Option Error) → List Effect
unpack_each [] = close_started ∷ []
unpack_each (none ∷ us) = unpack_each us
unpack_each (some e ∷ us) = close_reader ∷ close_started ∷ []

-- The goroutine for containerd, by what `Import` answers, with what `Unpack` would for each image
unfoldable pub containerd_load : Result (List (Option Error)) → List Effect
unfolding unpack_each
containerd_load (err e) = close_reader ∷ close_started ∷ []
containerd_load (ok us) = unpack_each us

or_later : Option Error → Option Error → Option Error
or_later e none = e
or_later e (some later) = some later

closes_started : List Effect → Bool
closes_started [] = false
closes_started (close_started ∷ es) = true
closes_started (close_reader ∷ es) = closes_started es
closes_started (open_progress ∷ es) = closes_started es
closes_started (copy_body ∷ es) = closes_started es
closes_started (close_body ∷ es) = closes_started es

module _ (write_pipe : ℕ → List ℕ → Option Error) (close_pipe : ℕ → Option Error)
    (goroutine : ℕ → List Effect) where
  -- `io.MultiWriter`: the pipes in order, up to the first error
  write_pipes : ℕ → List String → List ℕ → Option Error
  write_pipes i [] bytes = none
  write_pipes i (n ∷ ns) bytes = elim (write_pipe i bytes) [
    | some e ↦ some e
    | none ↦ write_pipes (suc i) ns bytes
  ]

  -- `waitingWriter.Write`
  unfoldable pub write : List ℕ → Loader → Option Error × Loader
  unfolding write_pipes
  write bytes l = (write_pipes 0 l.names bytes, record l { once = true })

  -- All pipes are closed; the last error is kept.
  close_pipes : ℕ → List String → Option Error → Option Error
  unfolding or_later
  close_pipes i [] e = e
  close_pipes i (n ∷ ns) e = close_pipes (suc i) ns (or_later e (close_pipe i))

  -- Every channel of `started` is closed in the end.
  all_started : ℕ → List String → Bool → Bool
  unfolding closes_started
  all_started i [] once = true
  all_started i (n ∷ ns) once =
      (once && closes_started (goroutine i)) && all_started (suc i) ns once

  -- `waitingWriter.Close`; `none` where it waits for ever
  unfoldable pub close : Loader → Option (Option Error)
  unfolding close_pipes all_started
  close l = if all_started 0 l.names l.once then some (close_pipes 0 l.names none) else none

  -- The writes before the close
  unfoldable pub write_all : List (List ℕ) → Loader → Loader
  unfolding write
  write_all [] l = l
  write_all (bytes ∷ rest) l = write_all rest (write bytes l).1
