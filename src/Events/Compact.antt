-- ===== src/Events/Compact.antt =====
-- CompactComments of internal/core/events.go stores the deduplicated log.
use octo_docs_html_fork.Prelude.{
  ℕ, true, ◌≡◌, refl, sym, ap, Option, none, some, List, arith, eqb, length, Bool-cases, inl, inr,
}
use octo_docs_html_fork.World.{World}
use octo_docs_html_fork.Types.{CommentEvent, Comment}
use octo_docs_html_fork.Events.Log.{dedup_events}
use octo_docs_html_fork.Events.Migrate.{compact_log, compact_by, compact_comment}
use octo_docs_html_fork.Events.Stamp.{Named, backfill_eids-fixed}
use octo_docs_html_fork.Events.Migrated.{IsMigrated}
use octo_docs_html_fork.Events.Dedup.Fixed.{dedup_events-length}

eqb_eq : (a b : ℕ) → eqb a b ≡ true → a ≡ b
eqb_eq a b h = ground arith

-- The comment with its log deduplicated, if it has one.
abbrev pub deduplicated : Comment → Comment
deduplicated c = elim c.events [ none ↦ c | some es ↦ record c { events = some (dedup_events es) } ]

compact_log-deduplicated :
    (c : Comment) (es : List CommentEvent) (w : World)
    → Named es
    → (compact_log c es w).0.0 ≡ record c { events = some (dedup_events es) }
unfolding compact_log
compact_log-deduplicated c es w h = elim (Bool-cases (eqb (length (dedup_events es)) (length es))) [
  | inl same ↦
      rw (backfill_eids-fixed es w h, same)
        (ap (λ l. record c { events = some l }) (sym (dedup_events-length es (eqb_eq _ _ same))))
  | inr shorter ↦ rw (backfill_eids-fixed es w h, shorter)
]

-- CompactComments leaves a migrated comment with its log deduplicated and all else as it was,
-- also where it reports no change.
pub compact_comment-deduplicated :
    (c : Comment) (w : World) → IsMigrated c → (compact_comment c w).0.0 ≡ deduplicated c
unfolding compact_comment compact_by
compact_comment-deduplicated c w h = go c.events refl
  where
    go : (o : Option (List CommentEvent)) → c.events ≡ o → (compact_by o c w).0.0 ≡ deduplicated c
    go none missing = rw missing
    go (some es) found = rw found (compact_log-deduplicated c es w (rw (found, IsMigrated) at h))
