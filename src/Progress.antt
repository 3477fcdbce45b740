-- ===== src/Progress.antt =====
-- pkg/progress/progress.go, and the prefixes of pkg/progress/multiwriter.go. `Clock` stands for the time, in
-- nanoseconds, and for the new identifiers; the messages that the logger has been given are part of the state, in order.
pub mod Brackets
pub mod Reset
pub mod Writers
pub mod Multi
use Prim.Native.String.{[] as no_text, ◌∷◌ as cons_char}
use buildkit_cli_for_kubectl.Prelude.{
  ℕ, String, ◌<>◌, Bool, Option, none, some, List, [], ◌∷◌, ◌++◌, map, Result, ok, err, Error,
  if◌then◌else◌,
}
use buildkit_cli_for_kubectl.Text.Contains.{has_prefix}
use buildkit_cli_for_kubectl.Text.Number.{ℤ}

-- `client.Vertex`, `client.VertexStatus` and `client.VertexLog`, the fields that the code sets
pub record Vertex : Type 0 where
  pub digest : String
  pub name : String
  pub started : Option ℤ
  pub completed : Option ℤ
  pub error : String

pub record VertexStatus : Type 0 where
  pub vertex : String
  pub id : String
  pub timestamp : ℤ
  pub started : Option ℤ
  pub completed : Option ℤ

pub data Message : Type 0 where
  vertex_message : Vertex → Message
  status_message : VertexStatus → Message
  log_message : String → ℕ → List ℕ → ℤ → Message

pub record Clock : Type 1 where
  pub World : Type 0
  pub now : World → ℤ × World
  pub new_digest : World → String × World
  pub error_text : Error → String

module _ (c : Clock) where
  open c use {World, now, new_digest, error_text}

  pub record Logged : Type 0 where
    pub sent : List Message
    pub world : World

  -- A function that logs and may fail
  abbrev pub Action : Type 0
  Action = Logged → Result (Unit {0}) × Logged

  time : Logged → ℤ × Logged
  time s = let (t, w) = now s.world in (t, record s { world = w })

  send : Message → Logged → Logged
  send m s = record s { sent = s.sent ++ m ∷ [] }

  message_of : Result (Unit {0}) → String
  message_of (ok u) = ""
  message_of (err e) = error_text e

  -- The deferred message of `Wrap`
  complete_vertex : String → String → ℤ → Result (Unit {0}) × Logged → Result (Unit {0}) × Logged
  unfolding message_of send time
  complete_vertex digest name tm (r, s) =
      let (tm2, t) = time s in
      (
        r,
        send
            (vertex_message (record {
              digest = digest;
              name = name;
              started = some tm;
              completed = some tm2;
              error = message_of r;
            }))
            t,
      )

  -- `Wrap`; the function takes the sub-logger's digest.
  unfoldable pub wrap : String → (String → Action) → Action
  unfolding complete_vertex
  wrap name fn s =
      let (digest, w) = new_digest s.world in
      let (tm, t) = time (record s { world = w }) in
      complete_vertex digest name tm (
        fn digest (
          send
            (vertex_message (record {
              digest = digest;
              name = name;
              started = some tm;
              completed = none;
              error = "";
            }))
            t))

  complete_status : String → String → ℤ → Result (Unit {0}) × Logged → Result (Unit {0}) × Logged
  unfolding send time
  complete_status digest name tm (r, s) =
      let (tm2, t) = time s in
      let (stamp, u) = time t in
      (
        r,
        send
            (status_message (record {
              vertex = digest;
              id = name;
              timestamp = stamp;
              started = some tm;
              completed = some tm2;
            }))
            u,
      )

  -- `subLogger.Wrap`
  unfoldable pub sub_wrap : String → String → Action → Action
  unfolding complete_status
  sub_wrap digest name fn s =
      let (tm, t) = time s in
      let (stamp, u) = time t in
      complete_status digest name tm (
        fn (
          send
            (status_message (record {
              vertex = digest;
              id = name;
              timestamp = stamp;
              started = some tm;
              completed = none;
            }))
            u))

  -- `subLogger.Log`
  unfoldable pub sub_log : String → ℕ → List ℕ → Logged → Logged
  unfolding send time
  sub_log digest stream bytes s =
      let (stamp, t) = time s in send (log_message digest stream bytes stamp) t

-- `name[1:]`
tail : String → String
tail no_text = no_text
tail (cons_char c s) = s

-- `addPrefix`
unfoldable pub add_prefix : String → String → String
unfolding tail
add_prefix pfx name =
    if has_prefix name "["
    then "[" <> (pfx <> (" " <> tail name))
    else "[" <> (pfx <> ("] " <> name))
