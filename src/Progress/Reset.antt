-- ===== src/Progress/Reset.antt =====
-- `ResetTime` of pkg/progress/reset.go: the messages of a writer with their times shifted, so that the first
-- vertex begins when the writer was made. The state is the field `diff`.
pub mod Shifts
use Prim.Native.Nat.{◌^◌}
use buildkit_cli_for_kubectl.Prelude.{
  ℕ, ◌-◌, String, Bool, Option, none, some, List, [], ◌∷◌, map, leb, ltb, nat_eq, if◌then◌else◌,
}
use buildkit_cli_for_kubectl.Text.Number.{ℤ, pos, negsuc}
use buildkit_cli_for_kubectl.Text.Integers.{◌+ℤ◌, ◌-ℤ◌}
use buildkit_cli_for_kubectl.Progress.{Vertex, VertexStatus}

-- `client.VertexLog`
pub record VertexLog : Type 0 where
  pub vertex : String
  pub stream : ℕ
  pub bytes : List ℕ
  pub timestamp : ℤ

pub record SolveStatus : Type 0 where
  pub vertexes : List Vertex
  pub statuses : List VertexStatus
  pub logs : List VertexLog

-- `Time.Sub`: the difference as a `time.Duration`, cut to 64 bits
unfoldable pub duration : ℤ → ℤ
duration (pos n) = if ltb n (2 ^ 63) then pos n else pos (2 ^ 63 - 1)
duration (negsuc n) = if ltb n (2 ^ 63) then negsuc n else negsuc (2 ^ 63 - 1)

-- `-d` of a duration, which is `d` itself for the least one
unfoldable pub negated : ℤ → ℤ
negated (pos n) = pos 0 -ℤ pos n
negated (negsuc n) = if nat_eq n (2 ^ 63 - 1) then negsuc n else pos 0 -ℤ negsuc n

-- `t.Add(-diff)`
unfoldable pub shift : ℤ → ℤ → ℤ
shift d t = t +ℤ negated d

shift_option : ℤ → Option ℤ → Option ℤ
shift_option d none = none
shift_option d (some t) = some (shift d t)

shift_vertex : ℤ → Vertex → Vertex
unfolding shift_option
shift_vertex d v = record v {
  started = shift_option d v.started;
  completed = shift_option d v.completed;
}

shift_status : ℤ → VertexStatus → VertexStatus
unfolding shift_option
shift_status d v = record v {
  started = shift_option d v.started;
  completed = shift_option d v.completed;
  timestamp = shift d v.timestamp;
}

shift_log : ℤ → VertexLog → VertexLog
shift_log d v = record v { timestamp = shift d v.timestamp }

-- The second half of the loop's body
unfoldable pub shift_all : ℤ → SolveStatus → SolveStatus
unfolding shift_vertex shift_status shift_log
shift_all d st = record {
  vertexes = map (shift_vertex d) st.vertexes;
  statuses = map (shift_status d) st.statuses;
  logs = map (shift_log d) st.logs;
}

diff_from : ℤ → Option ℤ → Option ℤ → Option ℤ
diff_from tm none before = before
diff_from tm (some t) before = some (duration (t -ℤ tm))

-- The last vertex that has started decides.
find_diff : ℤ → List Vertex → Option ℤ → Option ℤ
unfolding diff_from
find_diff tm [] before = before
find_diff tm (v ∷ vs) before = find_diff tm vs (diff_from tm v.started before)

next_diff : ℤ → Option ℤ → List Vertex → Option ℤ
unfolding find_diff
next_diff tm none vs = find_diff tm vs none
next_diff tm (some d) vs = some d

shift_by : Option ℤ → SolveStatus → SolveStatus
shift_by none st = st
shift_by (some d) st = shift_all d st

-- What goes out for what comes in, with the time when the writer was made
unfoldable pub reset : ℤ → Option ℤ → List SolveStatus → List SolveStatus
unfolding next_diff shift_by
reset tm diff [] = []
reset tm diff (st ∷ sts) =
    let next = next_diff tm diff st.vertexes in shift_by next st ∷ reset tm next sts
