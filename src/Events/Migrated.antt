-- ===== src/Events/Migrated.antt =====
-- Comments that EnsureEventLog of internal/core/events.go leaves alone.
use octo_docs_html_fork.Prelude.{
  Bool, true, false, ◌≡◌, refl, sym, ap, Option, none, some, List, [], ◌∷◌, ◌==◌, All, All-append,
  if◌then◌else◌,
}
use octo_docs_html_fork.World.{World, pure}
use octo_docs_html_fork.Types.{CommentEvent, Comment, log}
use octo_docs_html_fork.Events.Log.{append_event}
use octo_docs_html_fork.Events.Migrate.{ensure_event_log, ensure_migrated, ensure_by, migrate}
use octo_docs_html_fork.Events.Stamp.{
  Named, stamp_eid-ne_nil, backfill_eids-Named, backfill_eids-fixed,
}

-- A comment with an event log whose events have ids, or one with no log and no id to give it one.
abbrev pub IsMigrated : Comment → Type 0
IsMigrated c = elim c.events [ none ↦ (c.id == "") ≡ true | some es ↦ Named es ]

pub ensure_event_log-IsMigrated : (c : Comment) (w : World) → IsMigrated (ensure_event_log c w).0.0
unfolding ensure_event_log
ensure_event_log-IsMigrated c w = go c.events refl
  where
    flat :
        (b : Bool)
        → (c.id == "") ≡ b
        → c.events ≡ none
        → IsMigrated ((if b then pure (c, false) else migrate c) w).0.0
    flat true no_id missing = rw (missing, IsMigrated) no_id
    flat false has_id missing = backfill_eids-Named _ _

    go : (o : Option (List CommentEvent)) → c.events ≡ o → IsMigrated (ensure_by o c w).0.0
    go (some es) found = backfill_eids-Named es w
    go none missing = flat (c.id == "") refl missing

-- A migrated comment is left alone, and neither an id nor a time is drawn.
pub ensure_event_log-fixed :
    (c : Comment) (w : World) → IsMigrated c → ensure_event_log c w ≡ ((c, false), w)
unfolding ensure_event_log
ensure_event_log-fixed c w h = go c.events refl
  where
    go : (o : Option (List CommentEvent)) → c.events ≡ o → ensure_by o c w ≡ ((c, false), w)
    go (some es) found =
        rw (backfill_eids-fixed es w (rw (found, IsMigrated) at h))
          (ap (λ o. ((record c { events = o }, false), w)) (sym found))
    go none missing = rw (rw (missing, IsMigrated) at h)

pub ensure_migrated-IsMigrated :
    (cs : List Comment) (w : World) → All IsMigrated (ensure_migrated cs w).0.0
unfolding ensure_migrated
ensure_migrated-IsMigrated [] w = tt
ensure_migrated-IsMigrated (c ∷ cs) w =
    (ensure_event_log-IsMigrated c w, ensure_migrated-IsMigrated cs (ensure_event_log c w).1)

pub ensure_migrated-fixed :
    (cs : List Comment) (w : World) → All IsMigrated cs → ensure_migrated cs w ≡ ((cs, false), w)
unfolding ensure_migrated
ensure_migrated-fixed [] w h = refl
ensure_migrated-fixed (c ∷ cs) w h =
    rw (ensure_event_log-fixed c w h.0, ensure_migrated-fixed cs w h.1)

-- A second migration of a list changes nothing, reports no change, and neither reads the clock
-- nor draws an id.
pub ensure_migrated_idem :
    (cs : List Comment) (w w' : World)
    → ensure_migrated (ensure_migrated cs w).0.0 w' ≡ (((ensure_migrated cs w).0.0, false), w')
ensure_migrated_idem cs w w' =
    ensure_migrated-fixed (ensure_migrated cs w).0.0 w' (ensure_migrated-IsMigrated cs w)

-- An appended event has an id.
pub append_event-IsMigrated :
    (c : Comment) (e : CommentEvent) (w : World) → IsMigrated c → IsMigrated (append_event c e w).0
unfolding append_event
append_event-IsMigrated c e w h =
    All-append _ (log c) _ (named c.events refl) (stamp_eid-ne_nil e w, tt)
  where
    named :
        (o : Option (List CommentEvent))
        → c.events ≡ o
        → Named (elim o [ none ↦ [] | some es ↦ es ])
    named (some es) found = rw (found, IsMigrated) at h
    named none missing = tt
