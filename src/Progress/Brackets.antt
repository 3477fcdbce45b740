-- ===== src/Progress/Brackets.antt =====
-- The messages of a wrapped function stand between its start and its end.
use mathlib.Core.List.{append_assoc}
use buildkit_cli_for_kubectl.Prelude.{
  String, ◌≡◌, refl, sym, ap, ◌∙◌, none, some, List, [], ◌∷◌, ◌++◌, Result, ok, err,
}
use buildkit_cli_for_kubectl.Text.Number.{ℤ}
use buildkit_cli_for_kubectl.Progress.{
  Clock, Logged, Action, Message, vertex_message, wrap, complete_vertex, status_message, sub_wrap,
  complete_status, send, time, message_of,
}

module _ (c : Clock) where
  -- An action only adds messages.
  unfoldable pub Appends : Action c → Type 0
  Appends fn = (s : Logged c) → (ms : List Message) × ((fn s).1.sent ≡ s.sent ++ ms)

  unfoldable pub started_vertex : String → String → ℤ → Message
  started_vertex digest name tm =
      vertex_message
        (record { digest = digest; name = name; started = some tm; completed = none; error = "" })

  -- The text of an error, and none without
  abbrev error_of : Result (Unit {0}) → String
  error_of (ok u) = ""
  error_of (err e) = c.error_text e

  message_of-error_of : (r : Result (Unit {0})) → message_of c r ≡ error_of r
  unfolding message_of
  message_of-error_of (ok u) = refl
  message_of-error_of (err e) = refl

  completed_vertex : String → String → ℤ → Result (Unit {0}) × Logged c → Message
  completed_vertex digest name tm m = vertex_message (record {
    digest = digest;
    name = name;
    started = some tm;
    completed = some (c.now m.1.world).0;
    error = message_of c m.0;
  })

  complete_vertex-adds :
      (digest name : String) (tm : ℤ) (m : Result (Unit {0}) × Logged c)
      → ((complete_vertex c digest name tm m).0 ≡ m.0)
        × ((complete_vertex c digest name tm m).1.sent
            ≡ m.1.sent ++ completed_vertex digest name tm m ∷ [])
  unfolding complete_vertex send time completed_vertex
  complete_vertex-adds digest name tm (r, s) = (refl, refl)

  -- What `Wrap` has done: its function ran behind the start of a vertex and has added the messages `inner`;
  -- what it returned comes back, and its error's text stands in the end of the vertex.
  pub record VertexBracket (name : String) (fn : String → Action c) (s : Logged c)
      (m : Result (Unit {0}) × Logged c) : Type 0 where
    pub digest : String
    pub started : ℤ
    pub completed : ℤ
    pub world : c.World
    pub inner : List Message
    pub ran :
        (fn digest (record {
          sent = s.sent ++ started_vertex digest name started ∷ [];
          world = world;
        })).1.sent
        ≡ (s.sent ++ started_vertex digest name started ∷ []) ++ inner
    pub returned :
        m.0
        ≡ (fn digest
            (record { sent = s.sent ++ started_vertex digest name started ∷ []; world = world })).0
    pub sent :
        m.1.sent
        ≡ s.sent
          ++ started_vertex digest name started
            ∷ (inner
                ++ vertex_message (record {
                  digest = digest;
                  name = name;
                  started = some started;
                  completed = some completed;
                  error = error_of m.0;
                })
                  ∷ [])

  -- Where the function only adds messages, `Wrap` returns what it returns and adds its messages between the
  -- start and the end of one vertex; the end has the text of the function's error, if there is one.
  pub wrap-VertexBracket :
      (name : String) (fn : String → Action c)
      → ((digest : String) → Appends (fn digest))
      → (s : Logged c) → VertexBracket name fn s (wrap c name fn s)
  unfolding wrap send time Appends started_vertex completed_vertex
  wrap-VertexBracket name fn adds s =
      let (digest, w) = c.new_digest s.world in
      let (tm, v) = c.now w in
      let start = started_vertex digest name tm in
      let m = fn digest (record { sent = s.sent ++ start ∷ []; world = v }) in
      let (inner, e) = adds digest (record { sent = s.sent ++ start ∷ []; world = v }) in
      let (same, added) = complete_vertex-adds digest name tm m in
      let end = completed_vertex digest name tm m in
      record {
        digest = digest;
        started = tm;
        completed = (c.now m.1.world).0;
        world = v;
        inner = inner;
        ran = e;
        returned = same;
        sent =
            added
            ∙ ap (λ l. l ++ end ∷ []) e
            ∙ append_assoc (s.sent ++ start ∷ []) inner (end ∷ [])
            ∙ append_assoc s.sent (start ∷ []) (inner ++ end ∷ [])
            ∙ ap
                (λ text.
                  s.sent
                  ++ start
                    ∷ (inner
                        ++ vertex_message (record {
                          digest = digest;
                          name = name;
                          started = some tm;
                          completed = some (c.now m.1.world).0;
                          error = text;
                        })
                          ∷ []))
                (message_of-error_of m.0 ∙ ap error_of (sym same));
      }

  complete_status-adds :
      (digest name : String) (tm : ℤ) (m : Result (Unit {0}) × Logged c)
      → (end : Message) × ((complete_status c digest name tm m).1.sent ≡ m.1.sent ++ end ∷ [])
  unfolding complete_status send time
  complete_status-adds digest name tm (r, s) = (_, refl)

  -- `subLogger.Wrap` of a function that only adds messages only adds messages.
  pub sub_wrap-Appends :
      (digest name : String) (fn : Action c) → Appends fn → Appends (sub_wrap c digest name fn)
  unfolding sub_wrap send time Appends
  sub_wrap-Appends digest name fn adds s =
      let (tm, v) = c.now s.world in
      let (stamp, u) = c.now v in
      let start = status_message (record {
        vertex = digest;
        id = name;
        timestamp = stamp;
        started = some tm;
        completed = none;
      }) in
      let m = fn (record { sent = s.sent ++ start ∷ []; world = u }) in
      let (inner, e) = adds (record { sent = s.sent ++ start ∷ []; world = u }) in
      let (end, added) = complete_status-adds digest name tm m in
      (
        start ∷ (inner ++ end ∷ []),
        added
            ∙ ap (λ l. l ++ end ∷ []) e
            ∙ append_assoc (s.sent ++ start ∷ []) inner (end ∷ [])
            ∙ append_assoc s.sent (start ∷ []) (inner ++ end ∷ []),
      )
