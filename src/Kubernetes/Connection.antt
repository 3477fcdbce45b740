-- ===== src/Kubernetes/Connection.antt =====
-- `kubeConn` of pkg/driver/kubernetes/execconn/execconn.go: the two pipes of a connection through `exec`, and
-- how they are closed. The state keeps the calls of `Close` on the pipes, the latest first; what a pipe
-- answers is a parameter. The operations hold the lock around each access of a flag; here they follow each
-- other.
use buildkit_cli_for_kubectl.Prelude.{
  ℕ, suc, ◌≡◌, refl, Bool, true, false, not, Option, none, List, [], ◌∷◌, Error, ltb, if◌then◌else◌,
  arith,
}

pub data Pipe : Type 0 where
  stdin stdout : Pipe

-- `stdinClosed` and `stdoutClosed`
pub record Conn : Type 0 where
  pub stdin_closed : Bool
  pub stdout_closed : Bool
  pub closes : List Pipe

pub data Op : Type 0 where
  close_write_op close_read_op close_op : Op

same_pipe : Pipe → Pipe → Bool
same_pipe stdin stdin = true
same_pipe stdout stdout = true
same_pipe _ _ = false

abbrev pub new_conn : Conn
new_conn = record { stdin_closed = false; stdout_closed = false; closes = [] }

module _ (answer : Pipe → List Pipe → Option Error) where
  unfoldable pub close_write : Conn → Option Error × Conn
  close_write c =
      (answer stdin c.closes, record c { stdin_closed = true; closes = stdin ∷ c.closes })

  unfoldable pub close_read : Conn → Option Error × Conn
  close_read c =
      (answer stdout c.closes, record c { stdout_closed = true; closes = stdout ∷ c.closes })

  -- The second half of `Close`, whose error stands for that of the first
  close_rest : Option Error × Conn → Option Error × Conn
  unfolding close_read
  close_rest (e, c) = if not c.stdout_closed then close_read c else (e, c)

  unfoldable pub close : Conn → Option Error × Conn
  unfolding close_write close_rest
  close c = close_rest (if not c.stdin_closed then close_write c else (none, c))

  unfoldable pub apply_op : Op → Conn → Conn
  unfolding close_write close_read close
  apply_op close_write_op c = (close_write c).1
  apply_op close_read_op c = (close_read c).1
  apply_op close_op c = (close c).1

  unfoldable pub apply_ops : List Op → Conn → Conn
  unfolding apply_op
  apply_ops [] c = c
  apply_ops (o ∷ os) c = apply_ops os (apply_op o c)

  -- How often a pipe was closed
  unfoldable pub times : Pipe → List Pipe → ℕ
  unfolding same_pipe
  times p [] = 0
  times p (q ∷ qs) = let rest = times p qs in if same_pipe p q then suc rest else rest

  -- The flags say which pipes were closed.
  Tracked : Conn → Type 0
  Tracked c =
      (c.stdin_closed ≡ ltb 0 (times stdin c.closes))
      × (c.stdout_closed ≡ ltb 0 (times stdout c.closes))

  close_write-Tracked : (c : Conn) → Tracked c → Tracked (close_write c).1
  unfolding close_write Tracked times
  close_write-Tracked c h = (ground arith, h.1)

  close_read-Tracked : (c : Conn) → Tracked c → Tracked (close_read c).1
  unfolding close_read Tracked times
  close_read-Tracked c h = (h.0, ground arith)

  close_rest-Tracked :
      (e : Option Error) (a b : Bool) (l : List Pipe)
      → Tracked (record { stdin_closed = a; stdout_closed = b; closes = l })
      → Tracked (close_rest (e, record { stdin_closed = a; stdout_closed = b; closes = l })).1
  unfolding close_rest
  close_rest-Tracked e a true l h = h
  close_rest-Tracked e a false l h =
      close_read-Tracked (record { stdin_closed = a; stdout_closed = false; closes = l }) h

  close-Tracked :
      (a b : Bool) (l : List Pipe)
      → Tracked (record { stdin_closed = a; stdout_closed = b; closes = l })
      → Tracked (close (record { stdin_closed = a; stdout_closed = b; closes = l })).1
  unfolding close close_write
  close-Tracked true b l h = close_rest-Tracked none true b l h
  close-Tracked false b l h =
      close_rest-Tracked (answer stdin l) true b (stdin ∷ l)
        (close_write-Tracked (record { stdin_closed = false; stdout_closed = b; closes = l }) h)

  apply_op-Tracked : (o : Op) (c : Conn) → Tracked c → Tracked (apply_op o c)
  unfolding apply_op
  apply_op-Tracked close_write_op c h = close_write-Tracked c h
  apply_op-Tracked close_read_op c h = close_read-Tracked c h
  apply_op-Tracked close_op c h = close-Tracked c.stdin_closed c.stdout_closed c.closes h

  apply_ops-Tracked : (os : List Op) (c : Conn) → Tracked c → Tracked (apply_ops os c)
  unfolding apply_ops
  apply_ops-Tracked [] c h = h
  apply_ops-Tracked (o ∷ os) c h = apply_ops-Tracked os (apply_op o c) (apply_op-Tracked o c h)

  -- Both pipes are closed: one that was closed no once more, and one that was not once.
  pub ClosesOnce : Conn → Conn → Type 0
  ClosesOnce c d =
      (d.stdin_closed ≡ true)
      × (d.stdout_closed ≡ true)
      × ((p : Pipe) → times p d.closes ≡ (if ltb 0 (times p c.closes) then times p c.closes else 1))

  close-ClosesOnce :
      (a b : Bool) (l : List Pipe)
      → Tracked (record { stdin_closed = a; stdout_closed = b; closes = l })
      → ClosesOnce
          (record { stdin_closed = a; stdout_closed = b; closes = l })
          (close (record { stdin_closed = a; stdout_closed = b; closes = l })).1
  unfolding close Tracked ClosesOnce times
  close-ClosesOnce true true l h =
      (refl, refl, λ p. elim p [ stdin ↦ ground (arith, h.0) | stdout ↦ ground (arith, h.1) ])
  close-ClosesOnce true false l h =
      (refl, refl, λ p. elim p [ stdin ↦ ground (arith, h.0) | stdout ↦ ground (arith, h.1) ])
  close-ClosesOnce false true l h =
      (refl, refl, λ p. elim p [ stdin ↦ ground (arith, h.0) | stdout ↦ ground (arith, h.1) ])
  close-ClosesOnce false false l h =
      (refl, refl, λ p. elim p [ stdin ↦ ground (arith, h.0) | stdout ↦ ground (arith, h.1) ])

  -- After any sequence of the three ways to close a new connection, `Close` leaves both flags set, and it
  -- closes each pipe that was not closed before, and no other.
  pub apply_ops-ClosesOnce :
      (os : List Op) → ClosesOnce (apply_ops os new_conn) (close (apply_ops os new_conn)).1
  unfolding Tracked times
  apply_ops-ClosesOnce os =
      let c = apply_ops os new_conn in
      close-ClosesOnce c.stdin_closed c.stdout_closed c.closes
        (apply_ops-Tracked os new_conn (refl, refl))
