-- ===== src/Reconcile/Total.antt =====
-- reconcileAnchors (internal/core/reconcile.go) reads no slice out of range.
use octo_docs_html_fork.Prelude.{
  String, refl, Option, none, some, List, [], ◌∷◌, Bool-cases, inl, inr,
}
use octo_docs_html_fork.Prelude.Dict.{Dict}
use octo_docs_html_fork.Prelude.Int.{ℤ}
use octo_docs_html_fork.World.{World, now_iso}
use octo_docs_html_fork.Types.{Anchor, Comment, CommentSnapshot, StampedArtifact}
use octo_docs_html_fork.Events.Migrate.{ensure_migrated}
use octo_docs_html_fork.Fold.Snapshot.{snapshot_at}
use octo_docs_html_fork.Reconcile.Text.{CaseTable}
use octo_docs_html_fork.Reconcile.Comments.{
  Publish, publish_of, reconcile_anchor, reconcile_snapshot, recorded, reconcile_comment, put_first,
  reconcile_each, reconcile_anchors,
}
use octo_docs_html_fork.Reconcile.Branches.{ResolvesIf}
use octo_docs_html_fork.Reconcile.Resolves.{IsIndexed, reconcile_anchor-ResolvesIf}

-- A computation that does not panic.
abbrev pub Returns {ℓ} : {A : Type ℓ} → Option A → Type 0
Returns none = ⊥
Returns (some a) = Unit

module _ (u : CaseTable) (p : Publish) (ok : IsIndexed p) where
  ResolvesIf-Returns : (o : Option (Option Anchor)) → ResolvesIf p.aids o → Returns o
  ResolvesIf-Returns none h = h
  ResolvesIf-Returns (some none) h = tt
  ResolvesIf-Returns (some (some a)) h = tt

  reconcile_snapshot-Returns : (o : Option CommentSnapshot) → Returns (reconcile_snapshot u p o)
  unfolding reconcile_snapshot
  reconcile_snapshot-Returns none = tt
  reconcile_snapshot-Returns (some snap) = elim (Bool-cases snap.deleted) [
    | inl gone ↦ rw gone tt
    | inr live ↦ rw live (anchored snap.anchor)
  ]
    where
      anchored :
          (o : Option Anchor)
          → Returns (elim o as (λ _. Option (Option Anchor)) [
            | none ↦ some none
            | some a ↦ reconcile_anchor u p a
          ])
      anchored none = tt
      anchored (some a) =
          ResolvesIf-Returns (reconcile_anchor u p a) (reconcile_anchor-ResolvesIf u p ok a)

  recorded-Returns :
      (c : Comment) (o : Option (Option Anchor)) (w : World)
      → Returns o
      → Returns (recorded p c o w).0
  unfolding recorded
  recorded-Returns c none w h = h
  recorded-Returns c (some none) w h = tt
  recorded-Returns c (some (some a)) w h = tt

  put_first-Returns :
      (c : Option Comment) (cs : Option (List Comment))
      → Returns c
      → Returns cs
      → Returns (put_first c cs)
  unfolding put_first
  put_first-Returns none cs h hs = h
  put_first-Returns (some c) none h hs = hs
  put_first-Returns (some c) (some cs) h hs = tt

  reconcile_each-Returns : (cs : List Comment) (w : World) → Returns (reconcile_each u p cs w).0
  unfolding reconcile_each reconcile_comment
  reconcile_each-Returns [] w = tt
  reconcile_each-Returns (c ∷ cs) w =
      let read = snapshot_at c p.version w in
      let first = reconcile_comment u p c w in
      put_first-Returns first.0 (reconcile_each u p cs first.1).0
        (recorded-Returns read.0.1 (reconcile_snapshot u p read.0.0) read.1
          (reconcile_snapshot-Returns read.0.0))
        (reconcile_each-Returns cs first.1)

-- The indexes that reconcileAnchors builds are those of the artifacts.
pub reconcile_anchors-Returns :
    (u : CaseTable) (cs : List Comment) (aids : List StampedArtifact) (v : ℤ)
    (pinned_aid pinned_tag : String) (migrations : Dict String) (w : World)
    → Returns (reconcile_anchors u cs aids v pinned_aid pinned_tag migrations w).0
unfolding reconcile_anchors
reconcile_anchors-Returns u cs aids v pinned_aid pinned_tag migrations w =
    let migrated = ensure_migrated cs w in
    let now = now_iso migrated.1 in
    reconcile_each-Returns u (publish_of aids v now.0 pinned_aid pinned_tag migrations)
      (record { by_aid = refl; by_legacy_aid = refl }) migrated.0.0 now.1
