-- ===== src/Examples/Operations.antt =====
-- Examples of the operations (internal/core/ops.go) and of reconciliation (internal/core/reconcile.go).
use octo_docs_html_fork.Prelude.{not, ◌≡◌, refl, some, [], ◌∷◌, ◌++◌, arith, eq_iff}
use octo_docs_html_fork.Prelude.Dict.{put}
use octo_docs_html_fork.Prelude.Int.{pos}
use octo_docs_html_fork.Types.{CommentSnapshot}
use octo_docs_html_fork.Events.Migrate.{ensure_migrated}
use octo_docs_html_fork.Fold.Reaction.{apply_reaction, add_user}
use octo_docs_html_fork.Fold.ReactionSet.{has_reacted}
use octo_docs_html_fork.Fold.State.{is_finite_version, agent_status_emoji}
use octo_docs_html_fork.Fold.Apply.{apply_comment_event}
use octo_docs_html_fork.Fold.Order.{ordered_events}
use octo_docs_html_fork.Fold.Snapshot.{visible, replay, finalize, snapshot_of}
use octo_docs_html_fork.Fold.TimeTravel.{with_event}
use octo_docs_html_fork.Ops.Hosts.{reactions_for_user, reactions_of}
use octo_docs_html_fork.Ops.Handlers.{merge_local, toggle_event}
use octo_docs_html_fork.Ops.Apply.{apply_comment_op}
use octo_docs_html_fork.Ops.AppendOnly.{apply_comment_op-IsGrown}
use octo_docs_html_fork.Ops.Extend.{IsGrown}
use octo_docs_html_fork.Ops.Failures.{IsClean, apply_comment_op-IsClean}
use octo_docs_html_fork.Ops.React.{snapshot_of-toggle}
use octo_docs_html_fork.Ops.Merge.{IsMerged, merge_local-IsMerged}
use octo_docs_html_fork.Reconcile.Anchors.{
  canonical_alias_anchor, migrated_anchor, pinned_anchor, known_aid, artifacts_at,
  anchor_matches_artifact,
}
use octo_docs_html_fork.Reconcile.Comments.{
  Publish, index_by_aid, index_by_legacy_aid, reconcile_anchor,
}
use octo_docs_html_fork.Reconcile.Branches.{Resolves}
use octo_docs_html_fork.Reconcile.Resolves.{reconcile_anchor-Resolves}
use octo_docs_html_fork.Examples.Data.{
  start, comment, legacy, react, plain, figure, drifted_anchor, shown,
}
use octo_docs_html_fork.Examples.Folding.{shown_at_two}

-- the comment after eve's reaction
abbrev reacted : CommentSnapshot
reacted = record shown {
  reactions = ("👍", "bob" ∷ []) ∷ ("🎉", "eve" ∷ []) ∷ ("✅", "odoc-agent" ∷ []) ∷ [];
}

reacted_at_two :
    snapshot_of
      (with_event comment
        (record (toggle_event react "t9" ""
          (reactions_for_user (reactions_of shown "") "eve" "🎉")) { eid = "r1" }))
      (pos 2)
    ≡ some reacted
unfolding snapshot_of finalize replay ordered_events put visible apply_comment_event
    agent_status_emoji toggle_event reactions_for_user reactions_of apply_reaction add_user
reacted_at_two = refl

snapshot_of-toggle_example :
    has_reacted reacted.reactions "🎉" "eve" ≡ not (has_reacted shown.reactions "🎉" "eve")
unfolding is_finite_version
snapshot_of-toggle_example =
    snapshot_of-toggle react "t9" "r1" comment shown shown_at_two refl
      (ground (arith, eq_iff "r1" "")) refl reacted reacted_at_two (ground (arith, eq_iff "🎉" ""))
      (ground (arith, eq_iff "eve" "")) (ground (arith, eq_iff "eve" "odoc-agent"))

apply_comment_op-IsGrown_example :
    IsGrown
      (ensure_migrated (legacy ∷ comment ∷ []) start).0.0
      (apply_comment_op plain (legacy ∷ comment ∷ []) react start).0.0
apply_comment_op-IsGrown_example =
    apply_comment_op-IsGrown plain (legacy ∷ comment ∷ []) react start refl

apply_comment_op-IsClean_example :
    IsClean
      (ensure_migrated (legacy ∷ comment ∷ []) start).0.0
      (apply_comment_op plain (legacy ∷ comment ∷ []) react start).0
apply_comment_op-IsClean_example =
    apply_comment_op-IsClean plain (legacy ∷ comment ∷ []) react start

merge_local-IsMerged_example :
    IsMerged
      (comment ∷ [])
      (legacy ∷ comment ∷ [])
      ((comment ∷ []) ++ (merge_local (comment ∷ []) (legacy ∷ comment ∷ []) start).0)
merge_local-IsMerged_example = merge_local-IsMerged (comment ∷ []) (legacy ∷ comment ∷ []) start

abbrev publish : Publish
publish = record {
  aids = figure ∷ [];
  by_aid = index_by_aid [] (figure ∷ []);
  by_legacy_aid = index_by_legacy_aid [] (figure ∷ []);
  version = pos 2;
  at = "t9";
  pinned_aid = "";
  pinned_tag = "";
  migrations = [];
}

-- The anchor's old aid is an alias of the figure.
alias_test :
    reconcile_anchor plain publish drifted_anchor
    ≡ some (some (canonical_alias_anchor drifted_anchor figure))
unfolding reconcile_anchor migrated_anchor pinned_anchor known_aid artifacts_at index_by_aid put
    index_by_legacy_aid anchor_matches_artifact
alias_test = refl

reconcile_anchor-Resolves_example :
    Resolves (figure ∷ []) (canonical_alias_anchor drifted_anchor figure)
reconcile_anchor-Resolves_example =
    reconcile_anchor-Resolves plain publish (record { by_aid = refl; by_legacy_aid = refl })
      drifted_anchor (canonical_alias_anchor drifted_anchor figure) alias_test
