-- ===== src/Events/Stamp.antt =====
-- What BackfillEIDs and AppendEvent of internal/core/events.go change: the ids only.
use Prim.Native.String.{◌++◌}
use text.Mathlib.TextLemmas.{append-ne-nil_of_right_ne-nil, cons-append, cons≢nil}
use octo_docs_html_fork.Prelude.{
  String, false, ◌≡◌, ◌≢◌, refl, ◌==◌, Bool-cases, inl, inr, List, [], ◌∷◌, All, test_of_ne,
}
use octo_docs_html_fork.World.{World}
use octo_docs_html_fork.Types.{CommentEvent, EventKind}
use octo_docs_html_fork.Events.Eid.{event_eid, stamp_eid, eid_by_kind}
use octo_docs_html_fork.Events.Log.{backfill_eids}

colon_append : (s t : String) → s ++ ":" ++ t ≢ ""
colon_append s t = append-ne-nil_of_right_ne-nil s (rw cons-append (λ e. cons≢nil e))

-- EventEID is never empty.
eid_by_kind-ne_nil : (k : EventKind) (e : CommentEvent) (w : World) → (eid_by_kind k e w).0 ≢ ""
unfolding eid_by_kind
eid_by_kind-ne_nil EventKind.reaction_added e w = colon_append _ _
eid_by_kind-ne_nil EventKind.marked_applied e w = colon_append _ _
eid_by_kind-ne_nil EventKind.reaction_removed e w = colon_append _ _
eid_by_kind-ne_nil EventKind.marked_open e w = colon_append _ _
eid_by_kind-ne_nil EventKind.deleted e w = colon_append _ _
eid_by_kind-ne_nil k e w = colon_append _ _

-- A stamped event has an id.
pub stamp_eid-ne_nil : (e : CommentEvent) (w : World) → ((stamp_eid e w).0.eid == "") ≡ false
unfolding stamp_eid event_eid
stamp_eid-ne_nil e w = elim (Bool-cases (e.eid == "")) [
  | inl missing ↦ rw missing (test_of_ne _ "" (eid_by_kind-ne_nil e.kind e w))
  | inr given ↦ rw given given
]

-- Every event of the list has an id.
abbrev pub Named : List CommentEvent → Type 0
Named = All (λ e. (e.eid == "") ≡ false)

pub backfill_eids-Named : (es : List CommentEvent) (w : World) → Named (backfill_eids es w).0.0
unfolding backfill_eids
backfill_eids-Named [] w = tt
backfill_eids-Named (e ∷ es) w = (stamp_eid-ne_nil e w, backfill_eids-Named es (stamp_eid e w).1)

-- Where every event has an id, nothing changes and no id is drawn.
pub backfill_eids-fixed :
    (es : List CommentEvent) (w : World) → Named es → backfill_eids es w ≡ ((es, false), w)
unfolding backfill_eids stamp_eid
backfill_eids-fixed [] w h = refl
backfill_eids-fixed (e ∷ es) w h = rw (h.0, backfill_eids-fixed es w h.1)
