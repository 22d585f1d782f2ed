-- ===== src/Events/Log.antt =====
-- BackfillEIDs, AppendEvent and DedupEvents of internal/core/events.go.
use octo_docs_html_fork.Prelude.{
  String, Bool, false, ◌||◌, none, some, List, [], ◌∷◌, ◌++◌, ◌==◌, contains, if◌then◌else◌,
}
use octo_docs_html_fork.Prelude.Dict.{Dict, get, put}
use octo_docs_html_fork.Prelude.Int.{pos}
use octo_docs_html_fork.World.{M, ◌>>=◌, pure}
use octo_docs_html_fork.Types.{CommentEvent, EventKind, zero_event, Comment, log}
use octo_docs_html_fork.Events.Eid.{stamp_eid}

-- The second part is the returned `changed`.
unfoldable pub backfill_eids : List CommentEvent → M (List CommentEvent × Bool)
backfill_eids [] = pure ([], false)
backfill_eids (e ∷ es) = do
  e' ← stamp_eid e
  rest ← backfill_eids es
  pure (e' ∷ rest.0, e.eid == "" || rest.1)

unfoldable pub append_event : Comment → CommentEvent → M Comment
append_event c e = do e' ← stamp_eid e; pure (record c { events = some (log c ++ e' ∷ []) })

-- the first loop of DedupEvents
unfoldable pub last_by_eid : List CommentEvent → Dict CommentEvent → Dict CommentEvent
last_by_eid [] m = m
last_by_eid (e ∷ es) m = last_by_eid es (if e.eid == "" then m else put m e.eid e)

-- m[k], which is the zero value on a missing key
unfoldable pub value_at : Dict CommentEvent → String → CommentEvent
unfolding get
value_at m k = elim (get m k) [ none ↦ zero_event (EventKind.unknown "") (pos 0) "" | some e ↦ e ]

-- the second loop, with the set `emitted` as a list
unfoldable pub emit : Dict CommentEvent → List CommentEvent → List String → List CommentEvent
unfolding value_at
emit m [] emitted = []
emit m (e ∷ es) emitted =
    let same = emit m es emitted in
    let marked = emit m es (e.eid ∷ emitted) in
    if e.eid == ""
    then e ∷ same
    else if contains e.eid emitted
    then same
    else value_at m e.eid ∷ marked

unfoldable pub dedup_events : List CommentEvent → List CommentEvent
unfolding emit last_by_eid
dedup_events es = emit (last_by_eid es []) es []
