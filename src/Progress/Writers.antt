-- ===== src/Progress/Writers.antt =====
-- `Write` of pkg/progress/writer.go and `FromReader` of pkg/progress/fromreader.go, which send on the channel
-- of a writer, and what the goroutine of `MultiWriter.WithPrefix` of pkg/progress/multiwriter.go passes on.
use buildkit_cli_for_kubectl.Prelude.{
  String, ◌≡◌, refl, Bool, true, none, some, map, Result, ok, err, if◌then◌else◌,
}
use buildkit_cli_for_kubectl.Text.Number.{ℤ}
use buildkit_cli_for_kubectl.Progress.{
  Clock, Logged, Action, Vertex, vertex_message, wrap, complete_vertex, send, time, message_of,
  add_prefix,
}
use buildkit_cli_for_kubectl.Progress.Reset.{SolveStatus}

module _ (c : Clock) where
  -- The first vertex, which the second copies
  started_vertex : String → String → ℤ → Vertex
  started_vertex digest name tm = record {
    digest = digest;
    name = name;
    started = some tm;
    completed = none;
    error = "";
  }

  with_error : Vertex → Result (Unit {0}) → Vertex
  with_error v (ok u) = v
  with_error v (err e) = record v { error = c.error_text e }

  send_completed : Vertex → Result (Unit {0}) × Logged c → Logged c
  unfolding with_error
  send_completed v (r, s) =
      let (tm2, t) = time c s in
      send c (vertex_message (with_error (record v { completed = some tm2 }) r)) t

  -- `Write`, which keeps the error of the function to the message
  unfoldable pub write : String → Action c → Logged c → Logged c
  unfolding send_completed started_vertex with_error send time
  write name fn s =
      let (digest, w) = c.new_digest s.world in
      let (tm, t) = time c (record s { world = w }) in
      let v = started_vertex digest name tm in send_completed v (fn (send c (vertex_message v) t))

  -- What is sent on a channel, and whether it is closed
  pub record Channel : Type 0 where
    pub log : Logged c
    pub closed : Bool

  -- `FromReader`; the action is the copy of the reader.
  unfoldable pub from_reader : String → Action c → Logged c → Channel
  unfolding send_completed started_vertex with_error send time
  from_reader name copy s =
      let (digest, w) = c.new_digest s.world in
      let (tm, t) = time c (record s { world = w }) in
      let v = started_vertex digest name tm in
      record { log = send_completed v (copy (send c (vertex_message v) t)); closed = true }

  send_completed-complete_vertex :
      (digest name : String) (tm : ℤ) (m : Result (Unit {0}) × Logged c)
      → send_completed (started_vertex digest name tm) m ≡ (complete_vertex c digest name tm m).1
  unfolding send_completed complete_vertex message_of started_vertex
  send_completed-complete_vertex digest name tm (ok u, s) = refl
  send_completed-complete_vertex digest name tm (err e, s) = refl

  -- `Write` sends what `Wrap` does for the same function, and so does `FromReader`, which closes the channel.
  pub write-wrap :
      (name : String) (fn : Action c) (s : Logged c)
      → (write name fn s ≡ (wrap c name (λ _. fn) s).1)
        × (from_reader name fn s ≡ record { log = write name fn s; closed = true })
  unfolding write from_reader wrap
  write-wrap name fn s = (send_completed-complete_vertex _ name _ _, refl)

prefix_vertex : String → Vertex → Vertex
prefix_vertex pfx v = record v { name = add_prefix pfx v.name }

-- What goes on to the main writer for a message to a writer with a prefix
unfoldable pub pass_on : String → Bool → SolveStatus → SolveStatus
unfolding prefix_vertex
pass_on pfx force st =
    if force then record st { vertexes = map (prefix_vertex pfx) st.vertexes } else st
