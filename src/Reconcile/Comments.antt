-- ===== src/Reconcile/Comments.antt =====
-- reconcileComment and reconcileAnchors of internal/core/reconcile.go.
use octo_docs_html_fork.Prelude.{
  String, Bool, false, not, ◌&&◌, ◌||◌, Option, none, some, List, [], ◌∷◌, ◌++◌, ◌==◌, is_empty,
  get_elem?, if◌then◌else◌,
}
use octo_docs_html_fork.Prelude.Dict.{Dict, put}
use octo_docs_html_fork.Prelude.Int.{ℤ, pos, eqb_ℤ}
use octo_docs_html_fork.World.{M, ◌>>=◌, pure, now_iso}
use octo_docs_html_fork.Types.{
  Anchor, EventKind, CommentEvent, zero_event, Comment, CommentSnapshot, StampedArtifact,
}
use octo_docs_html_fork.Events.Log.{append_event}
use octo_docs_html_fork.Events.Migrate.{ensure_migrated}
use octo_docs_html_fork.Fold.Snapshot.{snapshot_at}
use octo_docs_html_fork.Reconcile.Text.{CaseTable}
use octo_docs_html_fork.Reconcile.Anchors.{
  Index, artifacts_at, is_element, is_lost, known_aid, next_anchor, lost_anchor,
  anchor_matches_artifact, only_one, migrated_anchor, pinned_anchor, canonical_alias_anchor,
}

-- What a run of reconcileAnchors shares between comments.
pub record Publish : Type 0 where
  pub aids : List StampedArtifact
  pub by_aid : Index
  pub by_legacy_aid : Index
  pub version : ℤ
  pub at : String
  pub pinned_aid : String
  pub pinned_tag : String
  pub migrations : Dict String

unfoldable pub reconcile_event : Anchor → ℤ → String → CommentEvent
reconcile_event a version at = record (zero_event EventKind.anchor_changed version at) {
  anchor = some a;
  reset_status = some false;
  by = "reconcile";
}

-- len(xs) == 1 && anchorMatchesArtifact(a, xs[0])
unfoldable pub one_match : CaseTable → Anchor → List StampedArtifact → Option Bool
unfolding only_one
one_match u a xs = only_one xs (anchor_matches_artifact u a)

unfoldable pub mismatch_reason : List StampedArtifact → String
mismatch_reason (x ∷ y ∷ xs) = "ambiguous_aid"
mismatch_reason _ = "fingerprint_mismatch"

-- the branches under `len(artifacts) == 0`
unfoldable pub by_legacy :
    CaseTable → Anchor → List StampedArtifact → Option (Option Anchor) → Option (Option Anchor)
unfolding mismatch_reason one_match
by_legacy u a legacy otherwise = elim (one_match u a legacy) [
  | none ↦ none
  | some fits ↦
      if fits
      then elim (get_elem? legacy 0) [
        | none ↦ none
        | some x ↦ some (some (canonical_alias_anchor a x))
      ]
      else if not (is_empty legacy)
      then some (lost_anchor a (mismatch_reason legacy))
      else otherwise
]

-- the branches under `aid != ""`; `none` is a return with no event
unfoldable pub by_known_aid :
    CaseTable
    → Anchor
    → List StampedArtifact
    → List StampedArtifact
    → Option (Option Anchor)
    → Option (Option Anchor)
unfolding one_match mismatch_reason by_legacy
by_known_aid u a artifacts legacy otherwise =
    if not (is_empty artifacts) && not (is_empty legacy)
    then some (lost_anchor a "ambiguous_aid")
    else elim (one_match u a artifacts) [
      | none ↦ none
      | some fits ↦
          if fits
          then some none
          else if not (is_empty artifacts)
          then some (lost_anchor a (mismatch_reason artifacts))
          else by_legacy u a legacy otherwise
    ]

-- the anchor that reconcileComment records for an anchor that is neither migrated nor pinned
unfoldable pub drifted : CaseTable → Publish → Anchor → Option (Option Anchor)
unfolding by_known_aid
drifted u p a =
    let aid = known_aid a in
    if aid == ""
    then next_anchor u a p.aids
    else by_known_aid u a (artifacts_at p.by_aid aid) (artifacts_at p.by_legacy_aid aid)
        (next_anchor u a p.aids)

-- if x := first; x != nil { record x } else go on; a panic stays one
unfoldable pub or_else : Option (Option Anchor) → Option (Option Anchor) → Option (Option Anchor)
or_else none rest = none
or_else (some none) rest = rest
or_else (some (some a)) rest = some (some a)

-- the anchor that reconcileComment records; `some none` where it returns without an event
unfoldable pub reconcile_anchor : CaseTable → Publish → Anchor → Option (Option Anchor)
unfolding drifted is_element is_lost or_else
reconcile_anchor u p a =
    if not (is_element a.kind || is_lost a.kind)
    then some none
    else if is_lost a.kind && not (is_empty p.migrations)
    then some none
    else or_else (migrated_anchor a p.by_aid p.pinned_aid p.pinned_tag p.migrations)
        (or_else (pinned_anchor a p.by_aid p.pinned_aid p.pinned_tag) (drifted u p a))

-- nil, deleted and unanchored snapshots are left alone
unfoldable pub reconcile_snapshot :
    CaseTable → Publish → Option CommentSnapshot → Option (Option Anchor)
unfolding reconcile_anchor
reconcile_snapshot u p none = some none
reconcile_snapshot u p (some snap) =
    if snap.deleted
    then some none
    else elim snap.anchor [ none ↦ some none | some a ↦ reconcile_anchor u p a ]

-- AppendEvent of the anchor, where there is one
unfoldable pub recorded : Publish → Comment → Option (Option Anchor) → M (Option Comment)
unfolding reconcile_event
recorded p c none = pure none
recorded p c (some none) = pure (some c)
recorded p c (some (some a)) = do
  c' ← append_event c (reconcile_event a p.version p.at)
  pure (some c')

unfoldable pub reconcile_comment : CaseTable → Publish → Comment → M (Option Comment)
unfolding reconcile_snapshot recorded
reconcile_comment u p c = do
  r ← snapshot_at c p.version
  recorded p r.1 (reconcile_snapshot u p r.0)

-- m[k] = append(m[k], x)
unfoldable pub add_to : Index → String → StampedArtifact → Index
add_to m k x = put m k (artifacts_at m k ++ x ∷ [])

unfoldable pub add_legacy : Index → List String → StampedArtifact → Index
unfolding add_to
add_legacy m [] x = m
add_legacy m (k ∷ ks) x = add_legacy (add_to m k x) ks x

unfoldable pub index_by_aid : Index → List StampedArtifact → Index
unfolding add_to
index_by_aid m [] = m
index_by_aid m (x ∷ xs) = index_by_aid (add_to m x.aid x) xs

unfoldable pub index_by_legacy_aid : Index → List StampedArtifact → Index
unfolding add_legacy
index_by_legacy_aid m [] = m
index_by_legacy_aid m (x ∷ xs) = index_by_legacy_aid (add_legacy m x.legacy_aids x) xs

unfoldable pub put_first : Option Comment → Option (List Comment) → Option (List Comment)
put_first none cs = none
put_first (some c) none = none
put_first (some c) (some cs) = some (c ∷ cs)

unfoldable pub reconcile_each : CaseTable → Publish → List Comment → M (Option (List Comment))
unfolding reconcile_comment put_first
reconcile_each u p [] = pure (some [])
reconcile_each u p (c ∷ cs) = do
  c' ← reconcile_comment u p c
  cs' ← reconcile_each u p cs
  pure (put_first c' cs')

abbrev pub publish_of : List StampedArtifact → ℤ → String → String → String → Dict String → Publish
publish_of aids v at pinned_aid pinned_tag migrations = record {
  aids = aids;
  by_aid = index_by_aid [] aids;
  by_legacy_aid = index_by_legacy_aid [] aids;
  version = if eqb_ℤ v (pos 0) then pos 1 else v;
  at = at;
  pinned_aid = pinned_aid;
  pinned_tag = pinned_tag;
  migrations = migrations;
}

unfoldable pub reconcile_anchors :
    CaseTable
    → List Comment
    → List StampedArtifact
    → ℤ
    → String
    → String
    → Dict String
    → M (Option (List Comment))
unfolding index_by_aid index_by_legacy_aid reconcile_each
reconcile_anchors u comments aids v pinned_aid pinned_tag migrations = do
  migrated ← ensure_migrated comments
  at ← now_iso
  reconcile_each u (publish_of aids v at pinned_aid pinned_tag migrations) migrated.0
