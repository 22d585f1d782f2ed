-- ===== src/Examples/Folding.antt =====
-- Examples of the fold (internal/core/fold.go).
use octo_docs_html_fork.Prelude.{false, ◌≡◌, ◌≢◌, refl, some, [], ◌∷◌, arith, eq_iff}
use octo_docs_html_fork.Prelude.Dict.{put, remove}
use octo_docs_html_fork.Prelude.Int.{pos}
use octo_docs_html_fork.Types.{EventKind, Comment}
use octo_docs_html_fork.Events.Migrate.{compact_comment}
use octo_docs_html_fork.Fold.Reaction.{apply_reaction, add_user, drop_user, users_at}
use octo_docs_html_fork.Fold.ReactionSet.{has_reacted, has_reacted-apply_reaction}
use octo_docs_html_fork.Fold.State.{is_finite_version, agent_status_emoji}
use octo_docs_html_fork.Fold.Apply.{apply_comment_event}
use octo_docs_html_fork.Fold.Order.{ordered_events}
use octo_docs_html_fork.Fold.Snapshot.{visible, replay, finalize, snapshot_of}
use octo_docs_html_fork.Fold.Sound.{IsSound, snapshot_of-IsSound}
use octo_docs_html_fork.Fold.TimeTravel.{with_event, snapshot_of-append_later}
use octo_docs_html_fork.Fold.Latest.{replay-append_now}
use octo_docs_html_fork.Fold.Duplicate.{at_time, snapshot_of-duplicate}
use octo_docs_html_fork.Fold.Compaction.{snapshot_of-compact_comment}
use octo_docs_html_fork.Examples.Data.{start, created, edited, thumb, comment, shown}

edited_named : edited.eid ≢ ""
edited_named = ground (arith, eq_iff "e3" "")

thumb_named : thumb.eid ≢ ""
thumb_named = ground (arith, eq_iff "reaction_added:👍:bob" "")

-- As of version 2 the comment is applied, and the verdict shows as a reaction.
pub shown_at_two : snapshot_of comment (pos 2) ≡ some shown
unfolding snapshot_of finalize replay ordered_events put visible apply_comment_event
    agent_status_emoji apply_reaction add_user users_at
shown_at_two = refl

snapshot_of-append_later_example :
    snapshot_of (with_event comment edited) (pos 2) ≡ snapshot_of comment (pos 2)
unfolding is_finite_version
snapshot_of-append_later_example =
    snapshot_of-append_later comment edited edited_named refl (pos 2) refl refl refl

replay-append_now_example :
    replay (with_event comment edited) (pos 3) ≡ apply_comment_event (replay comment (pos 3)) edited
unfolding is_finite_version
replay-append_now_example = replay-append_now comment edited edited_named refl refl

snapshot_of-duplicate_example :
    snapshot_of (with_event comment (at_time "t8" thumb)) (pos 2) ≡ snapshot_of comment (pos 2)
snapshot_of-duplicate_example =
    snapshot_of-duplicate comment thumb "t8" thumb_named refl refl (pos 2) refl

snapshot_of-compact_comment_example :
    snapshot_of (compact_comment comment start).0.0 (pos 2) ≡ snapshot_of comment (pos 2)
snapshot_of-compact_comment_example =
    snapshot_of-compact_comment comment start (pos 2) (refl, (refl, (refl, tt)))

snapshot_of-IsSound_example : IsSound comment shown
snapshot_of-IsSound_example = snapshot_of-IsSound comment (pos 2) shown shown_at_two

has_reacted-apply_reaction_example :
    has_reacted (apply_reaction (("👍", "bob" ∷ []) ∷ []) "👍" "bob" false) "👍" "bob" ≡ false
has_reacted-apply_reaction_example =
    has_reacted-apply_reaction (("👍", "bob" ∷ []) ∷ []) "👍" "bob" false "👍" "bob"
      (((refl, tt), refl), tt)

-- bob reacts, withdraws the reaction and reacts again, all at version 1.
abbrev again : Comment
again = record comment {
  events = some (
      created
      ∷ thumb
      ∷ record thumb {
        kind = EventKind.reaction_removed;
        eid = "reaction_removed:👍:bob";
        at = "t7";
      }
      ∷ at_time "t8" thumb
      ∷ []);
}

-- The second reaction takes the place of the first, before the withdrawal, and is lost.
lost_reaction_test : has_reacted (replay again (pos 1)).snap.reactions "👍" "bob" ≡ false
unfolding replay ordered_events put remove visible apply_comment_event apply_reaction users_at
    add_user drop_user
lost_reaction_test = refl
