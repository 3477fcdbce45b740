-- ===== src/Kubernetes/Bootstrap.antt =====
-- `Bootstrap` of pkg/driver/kubernetes/driver.go: `wait` with a sub-logger, in the brackets of the progress.
-- What `wait` does to the messages is a parameter here, as is the decimal form of a number; `Waiting` has `wait`.
use buildkit_cli_for_kubectl.Prelude.{String, ◌<>◌}
use buildkit_cli_for_kubectl.Text.Number.{ℤ}
use buildkit_cli_for_kubectl.Progress.{Clock, Logged, Action, wrap, sub_wrap}
use buildkit_cli_for_kubectl.Progress.Brackets.{
  Appends, VertexBracket, wrap-VertexBracket, sub_wrap-Appends,
}
use buildkit_cli_for_kubectl.Kubernetes.Config.{Driver}

module _ (c : Clock) (itoa : ℤ → String) where
  pub waiting_text : Driver → String
  waiting_text d =
      "waiting for " <> (itoa d.min_replicas <> (" pods to be ready for " <> d.deployment.name))

  unfoldable pub bootstrap : Driver → (String → Action c) → Action c
  unfolding waiting_text
  bootstrap d wait =
      wrap c "[internal] booting buildkit"
        (λ digest. sub_wrap c digest (waiting_text d) (wait digest))

  -- Where `wait` only adds messages, `Bootstrap` adds one vertex with its start and its end around all others,
  -- and the end has the text of the error that it returns.
  pub bootstrap-VertexBracket :
      (d : Driver) (wait : String → Action c)
      → ((digest : String) → Appends c (wait digest))
      → (s : Logged c)
      → VertexBracket c "[internal] booting buildkit"
          (λ digest. sub_wrap c digest (waiting_text d) (wait digest))
          s
          (bootstrap d wait s)
  unfolding bootstrap
  bootstrap-VertexBracket d wait adds s =
      wrap-VertexBracket c "[internal] booting buildkit" _
        (λ digest. sub_wrap-Appends c digest (waiting_text d) (wait digest) (adds digest)) s
