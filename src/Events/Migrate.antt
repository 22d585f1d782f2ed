-- ===== src/Events/Migrate.antt =====
-- EnsureEventLog, EnsureMigrated and CompactComments of internal/core/events.go.
use octo_docs_html_fork.Prelude.{
  String, Bool, true, false, ◌||◌, Option, none, some, List, [], ◌∷◌, ◌==◌, eqb, length,
  if◌then◌else◌,
}
use octo_docs_html_fork.Prelude.Int.{ℤ, pos}
use octo_docs_html_fork.World.{M, ◌>>=◌, pure, now_iso}
use octo_docs_html_fork.Types.{CommentEvent, Comment}
use octo_docs_html_fork.Events.Log.{backfill_eids, dedup_events}
use octo_docs_html_fork.Events.Legacy.{legacy_to_events}

-- c.CreatedIn after a migration, by the cases of the source
migrated_in : List CommentEvent → Comment → ℤ
migrated_in (e ∷ es) c = e.at_version
migrated_in [] c = elim c.version [ none ↦ pos 1 | some v ↦ v ]

migrated_created : List CommentEvent → M String
unfolding now_iso
migrated_created (e ∷ es) = pure e.at
migrated_created [] = now_iso

-- c.Events == nil and c.ID != "": the record is rebuilt from its flat fields
unfoldable pub migrate : Comment → M (Comment × Bool)
unfolding migrated_in migrated_created
migrate c = do
  events ← legacy_to_events c
  filled ← backfill_eids events
  created ← (if c.created == "" then migrated_created filled.0 else pure c.created)
  pure (
    record c { events = some filled.0; created_in = migrated_in filled.0 c; created = created },
    true,
  )

unfoldable pub backfill_log : Comment → List CommentEvent → M (Comment × Bool)
backfill_log c es = do
  filled ← backfill_eids es
  pure (record c { events = some filled.0 }, filled.1)

-- c.Events, then c: a nil slice without an id is left alone
unfoldable pub ensure_by : Option (List CommentEvent) → Comment → M (Comment × Bool)
unfolding migrate backfill_log
ensure_by (some es) c = backfill_log c es
ensure_by none c = if c.id == "" then pure (c, false) else migrate c

unfoldable pub ensure_event_log : Comment → M (Comment × Bool)
unfolding ensure_by
ensure_event_log c = ensure_by c.events c

unfoldable pub ensure_migrated : List Comment → M (List Comment × Bool)
ensure_migrated [] = pure ([], false)
ensure_migrated (c ∷ cs) = do
  r ← ensure_event_log c
  rest ← ensure_migrated cs
  pure (r.0 ∷ rest.0, r.1 || rest.1)

-- the body of the loop of CompactComments
unfoldable pub compact_log : Comment → List CommentEvent → M (Comment × Bool)
compact_log c es = do
  filled ← backfill_eids es
  let compacted = dedup_events filled.0
  pure (
      if eqb (length compacted) (length filled.0)
      then (record c { events = some filled.0 }, false)
      else (record c { events = some compacted }, true))

-- c.Events, then c: a nil slice is passed over
unfoldable pub compact_by : Option (List CommentEvent) → Comment → M (Comment × Bool)
unfolding compact_log
compact_by none c = pure (c, false)
compact_by (some es) c = compact_log c es

unfoldable pub compact_comment : Comment → M (Comment × Bool)
unfolding compact_by
compact_comment c = compact_by c.events c

unfoldable pub compact_comments : List Comment → M (List Comment × Bool)
compact_comments [] = pure ([], false)
compact_comments (c ∷ cs) = do
  r ← compact_comment c
  rest ← compact_comments cs
  pure (r.0 ∷ rest.0, r.1 || rest.1)
