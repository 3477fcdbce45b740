-- ===== src/Progress/Reset/Shifts.antt =====
-- The messages that `ResetTime` passes on.
use Prim.Native.Nat.{◌^◌}
use buildkit_cli_for_kubectl.Prelude.{
  ◌-◌, ◌≡◌, refl, ap, ◌∙◌, Option, none, some, List, [], ◌∷◌, map, arith, ◌<◌,
}
use buildkit_cli_for_kubectl.Text.Number.{ℤ, pos, negsuc}
use buildkit_cli_for_kubectl.Text.Integers.{◌-ℤ◌, int_laws}
use buildkit_cli_for_kubectl.Progress.{Vertex, VertexStatus}
use buildkit_cli_for_kubectl.Progress.Reset.{
  SolveStatus, duration, negated, shift, shift_all, shift_option, shift_vertex, shift_status,
  diff_from, find_diff, next_diff, shift_by, reset,
}

-- The time of the last vertex that has started
later : Option ℤ → Option ℤ → Option ℤ
later none t = t
later (some s) t = some s

unfoldable pub last_started : List Vertex → Option ℤ
unfolding later
last_started [] = none
last_started (v ∷ vs) = later (last_started vs) v.started

-- Every interval stays as long as it was.
shift-sub : (d a b : ℤ) → shift d b -ℤ shift d a ≡ b -ℤ a
unfolding shift
shift-sub d a b = omega int_laws

abbrev pub InDuration : ℤ → Type 0
InDuration (pos n) = n < 2 ^ 63
InDuration (negsuc n) = n < 2 ^ 63 - 1

negated-duration : (t : ℤ) → InDuration t → negated (duration t) ≡ pos 0 -ℤ t
unfolding negated duration
negated-duration (pos n) h = ground arith
negated-duration (negsuc n) h = ground arith

-- The vertex that decides begins when the writer was made.
shift-anchor : (tm t : ℤ) → InDuration (t -ℤ tm) → shift (duration (t -ℤ tm)) t ≡ tm
unfolding shift
shift-anchor tm t h = rw (negated-duration (t -ℤ tm) h) (omega int_laws)

-- All messages are shifted alike from the first on that has a vertex that has started; those before stay.
from_start : ℤ → Option ℤ → SolveStatus → List SolveStatus → List SolveStatus → List SolveStatus
from_start tm none st sts rest = st ∷ rest
from_start tm (some t) st sts rest = map (shift_all (duration (t -ℤ tm))) (st ∷ sts)

unfoldable pub shifted : ℤ → List SolveStatus → List SolveStatus
unfolding last_started from_start
shifted tm [] = []
shifted tm (st ∷ sts) = from_start tm (last_started st.vertexes) st sts (shifted tm sts)

diff_from-later :
    (tm : ℤ) (o p b : Option ℤ) → diff_from tm o (diff_from tm p b) ≡ diff_from tm (later o p) b
unfolding diff_from later
diff_from-later tm none p b = refl
diff_from-later tm (some t) p b = refl

find_diff-last_started :
    (tm : ℤ) (vs : List Vertex) (b : Option ℤ)
    → find_diff tm vs b ≡ diff_from tm (last_started vs) b
unfolding find_diff last_started
find_diff-last_started tm [] b = unfold diff_from in refl
find_diff-last_started tm (v ∷ vs) b =
    find_diff-last_started tm vs (diff_from tm v.started b)
    ∙ diff_from-later tm (last_started vs) v.started b

reset-shift_all :
    (tm d : ℤ) (sts : List SolveStatus) → reset tm (some d) sts ≡ map (shift_all d) sts
unfolding reset next_diff shift_by
reset-shift_all tm d [] = refl
reset-shift_all tm d (st ∷ sts) = ap (λ l. shift_all d st ∷ l) (reset-shift_all tm d sts)

go_on :
    (tm : ℤ) (o : Option ℤ) (st : SolveStatus) (sts : List SolveStatus)
    → reset tm none sts ≡ shifted tm sts
    → shift_by (diff_from tm o none) st ∷ reset tm (diff_from tm o none) sts
      ≡ from_start tm o st sts (shifted tm sts)
unfolding diff_from shift_by from_start
go_on tm none st sts same = ap (λ l. st ∷ l) same
go_on tm (some t) st sts same =
    ap (λ l. shift_all (duration (t -ℤ tm)) st ∷ l) (reset-shift_all tm (duration (t -ℤ tm)) sts)

-- The messages that `ResetTime` passes on are those before the first vertex that has started, as they come, and
-- all others with their times shifted by one duration: from the last vertex of that message that has started to
-- the time when the writer was made.
pub reset-shifted : (tm : ℤ) (sts : List SolveStatus) → reset tm none sts ≡ shifted tm sts
unfolding reset next_diff shifted
reset-shifted tm [] = refl
reset-shifted tm (st ∷ sts) =
    rw (find_diff-last_started tm st.vertexes none)
      (go_on tm (last_started st.vertexes) st sts (reset-shifted tm sts))

later-shift_option :
    (d : ℤ) (o p : Option ℤ)
    → later (shift_option d o) (shift_option d p) ≡ shift_option d (later o p)
unfolding later shift_option
later-shift_option d none p = refl
later-shift_option d (some t) p = refl

shift_vertex-last_started :
    (d : ℤ) (vs : List Vertex)
    → last_started (map (shift_vertex d) vs) ≡ shift_option d (last_started vs)
unfolding last_started shift_vertex
shift_vertex-last_started d [] = unfold shift_option in refl
shift_vertex-last_started d (v ∷ vs) =
    ap (λ o. later o (shift_option d v.started)) (shift_vertex-last_started d vs)
    ∙ later-shift_option d (last_started vs) v.started

-- The time from a first moment to a second one, where both are known
abbrev span : Option ℤ → Option ℤ → Option ℤ
span none b = none
span (some a) none = none
span (some a) (some b) = some (b -ℤ a)

-- How long a vertex took; how long a status took, and its time after the start
abbrev pub vertex_span : Vertex → Option ℤ
vertex_span v = span v.started v.completed

abbrev pub status_spans : VertexStatus → Option ℤ × Option ℤ
status_spans t = (span t.started t.completed, span t.started (some t.timestamp))

span-shift_option : (d : ℤ) (o p : Option ℤ) → span (shift_option d o) (shift_option d p) ≡ span o p
unfolding shift_option
span-shift_option d none p = refl
span-shift_option d (some a) none = refl
span-shift_option d (some a) (some b) = ap some (shift-sub d a b)

vertex_span-shift_all :
    (d : ℤ) (vs : List Vertex) → map vertex_span (map (shift_vertex d) vs) ≡ map vertex_span vs
unfolding shift_vertex
vertex_span-shift_all d [] = refl
vertex_span-shift_all d (v ∷ vs) =
    ap (λ o. o ∷ map vertex_span (map (shift_vertex d) vs))
      (span-shift_option d v.started v.completed)
    ∙ ap (λ os. vertex_span v ∷ os) (vertex_span-shift_all d vs)

status_spans-shift_status :
    (d : ℤ) (t : VertexStatus) → status_spans (shift_status d t) ≡ status_spans t
unfolding shift_status shift_option
status_spans-shift_status d t = λ i. (
  span-shift_option d t.started t.completed i,
  span-shift_option d t.started (some t.timestamp) i,
)

status_spans-shift_all :
    (d : ℤ) (ts : List VertexStatus)
    → map status_spans (map (shift_status d) ts) ≡ map status_spans ts
status_spans-shift_all d [] = refl
status_spans-shift_all d (t ∷ ts) =
    ap (λ o. o ∷ map status_spans (map (shift_status d) ts)) (status_spans-shift_status d t)
    ∙ ap (λ os. status_spans t ∷ os) (status_spans-shift_all d ts)

-- Where the time from the writer to the last vertex of a message that has started is a duration, that vertex
-- begins in the shifted message when the writer was made; and all vertexes and statuses of the message take as
-- long as before, with the time of a status as long after its start.
pub reset-anchor :
    (tm t : ℤ) (st : SolveStatus)
    → last_started st.vertexes ≡ some t
    → InDuration (t -ℤ tm)
    → let out = shift_all (duration (t -ℤ tm)) st in
      (last_started out.vertexes ≡ some tm)
      × (map vertex_span out.vertexes ≡ map vertex_span st.vertexes)
      × (map status_spans out.statuses ≡ map status_spans st.statuses)
unfolding shift_all
reset-anchor tm t st started h = (
  shift_vertex-last_started (duration (t -ℤ tm)) st.vertexes
      ∙ rw started (unfold shift_option in ap some (shift-anchor tm t h)),
  vertex_span-shift_all (duration (t -ℤ tm)) st.vertexes,
  status_spans-shift_all (duration (t -ℤ tm)) st.statuses,
)
