-- ===== src/Fold/Compaction.antt =====
-- Compaction (internal/core/events.go) changes no reading of the comment (internal/core/fold.go).
use octo_docs_html_fork.Prelude.{
  ◌≡◌, refl, ap, ◌∙◌, Option, none, some, List, [], ◌∷◌, arith, is_empty,
}
use octo_docs_html_fork.Prelude.Int.{ℤ}
use octo_docs_html_fork.World.{World}
use octo_docs_html_fork.Types.{CommentEvent, Comment}
use octo_docs_html_fork.Events.Log.{emit, dedup_events}
use octo_docs_html_fork.Events.Migrate.{compact_comment}
use octo_docs_html_fork.Events.Migrated.{IsMigrated}
use octo_docs_html_fork.Events.Compact.{deduplicated, compact_comment-deduplicated}
use octo_docs_html_fork.Events.Dedup.Fixed.{dedup_events_idem}
use octo_docs_html_fork.Fold.State.{empty_state}
use octo_docs_html_fork.Fold.Order.{ordered_events}
use octo_docs_html_fork.Fold.Snapshot.{replay, snapshot_of}

is_empty-dedup_events : (es : List CommentEvent) → is_empty (dedup_events es) ≡ is_empty es
unfolding dedup_events emit
is_empty-dedup_events [] = refl
is_empty-dedup_events (e ∷ es) = ground arith

-- A comment whose log is given.
abbrev with_log : Comment → List CommentEvent → Comment
with_log c es = record c { events = some es }

snapshot_of-dedup_events :
    (c : Comment) (es : List CommentEvent) (v : ℤ)
    → snapshot_of (with_log c (dedup_events es)) v ≡ snapshot_of (with_log c es) v
unfolding snapshot_of replay empty_state ordered_events
snapshot_of-dedup_events c es v = rw (is_empty-dedup_events es, dedup_events_idem es)

-- Compaction changes no snapshot of a migrated comment.
pub snapshot_of-compact_comment :
    (c : Comment) (w : World) (v : ℤ)
    → IsMigrated c
    → snapshot_of (compact_comment c w).0.0 v ≡ snapshot_of c v
snapshot_of-compact_comment c w v h =
    ap (λ d. snapshot_of d v) (compact_comment-deduplicated c w h) ∙ go c.events refl
  where
    go :
        (o : Option (List CommentEvent))
        → c.events ≡ o
        → snapshot_of (deduplicated c) v ≡ snapshot_of c v
    go none missing = rw missing
    go (some es) found = rw found (snapshot_of-dedup_events c es v)
