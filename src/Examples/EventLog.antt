-- ===== src/Examples/EventLog.antt =====
-- Examples of the event log (internal/core/events.go).
use octo_docs_html_fork.Prelude.{◌≡◌, refl, List, [], ◌∷◌, false}
use octo_docs_html_fork.Prelude.Dict.{get, put}
use octo_docs_html_fork.Types.{CommentEvent}
use octo_docs_html_fork.Events.Log.{dedup_events}
use octo_docs_html_fork.Events.Migrate.{ensure_migrated}
use octo_docs_html_fork.Events.Migrated.{ensure_migrated_idem}
use octo_docs_html_fork.Events.Dedup.Fixed.{IsDeduplicated, dedup_events-IsDeduplicated}
use octo_docs_html_fork.Examples.Data.{start, created, edited, thumb, comment, legacy}

-- A log in which one id stands twice.
abbrev twice : List CommentEvent
twice = created ∷ thumb ∷ edited ∷ record thumb { at = "t8" } ∷ []

-- The later event stands where the earlier one stood.
dedup_test : dedup_events twice ≡ created ∷ record thumb { at = "t8" } ∷ edited ∷ []
unfolding dedup_events put get
dedup_test = refl

dedup_events-IsDeduplicated_example : IsDeduplicated twice (dedup_events twice)
dedup_events-IsDeduplicated_example = dedup_events-IsDeduplicated twice

ensure_migrated_idem_example :
    ensure_migrated (ensure_migrated (legacy ∷ comment ∷ []) start).0.0 start
    ≡ (((ensure_migrated (legacy ∷ comment ∷ []) start).0.0, false), start)
ensure_migrated_idem_example = ensure_migrated_idem (legacy ∷ comment ∷ []) start start
