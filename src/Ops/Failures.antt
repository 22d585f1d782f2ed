-- ===== src/Ops/Failures.antt =====
-- The error paths of internal/core/ops.go: refused operations, and reads through a nil snapshot or out
-- of range.
use octo_docs_html_fork.Prelude.{
  ℕ, zero, suc, String, false, ◌≡◌, ◌≢◌, ◌⊎◌, refl, ap, ◌∙◌, Option, none, some, List, [], ◌∷◌,
  ◌++◌, arith, All, is_empty, is_empty-append, length, set, get_elem?, Bool-cases, Option-cases,
  inl, inr, if◌then◌else◌,
}
use octo_docs_html_fork.Prelude.Int.{ℤ}
use octo_docs_html_fork.World.{World, M}
use octo_docs_html_fork.Types.{CommentEvent, Comment, CommentSnapshot, log}
use octo_docs_html_fork.Events.Eid.{stamp_eid}
use octo_docs_html_fork.Events.Log.{append_event}
use octo_docs_html_fork.Events.Migrate.{ensure_migrated}
use octo_docs_html_fork.Events.Migrated.{
  IsMigrated, ensure_migrated-IsMigrated, append_event-IsMigrated,
}
use octo_docs_html_fork.Fold.State.{is_finite_version, version_latest}
use octo_docs_html_fork.Fold.Snapshot.{snapshot_of, replay, finalize}
use octo_docs_html_fork.Ops.Types.{Body, OpKind, OpResult, CommentOp}
use octo_docs_html_fork.Ops.Hosts.{find_by_id, find_host, reactions_for_user, reactions_of}
use octo_docs_html_fork.Ops.Handlers.{
  Outcome, success, merge_local, op_create, op_reply, op_patch_anchor, op_react, op_delete,
  op_raw_events, op_publish_merge, compact_merged, at_index, react_on, react_by, toggle,
  toggle_event, react_result, add_reply_to, patch_anchor_of, delete_in, append_raw,
}
use octo_docs_html_fork.Ops.Apply.{dispatch, apply_comment_op}
use octo_docs_html_fork.Ops.Extend.{snapshot_at-fixed, All-get_elem?}
use octo_docs_html_fork.Reconcile.Text.{CaseTable}
use octo_docs_html_fork.Reconcile.Total.{Returns, reconcile_anchors-Returns}
use octo_docs_html_fork.Ops.Found.{find_by_id-get_elem?, find_host-get_elem?}

set_same : (cs : List Comment) (i : ℕ) (c : Comment) → get_elem? cs i ≡ some c → set cs i c ≡ cs
set_same [] i c h = refl
set_same (x ∷ cs) zero c h = cc
set_same (x ∷ cs) (suc i) c h = ap (λ l. x ∷ l) (set_same cs i c h)

-- A comment that is visible at a version stays visible when an event is appended.
snapshot_of-append_event :
    (c : Comment) (e : CommentEvent) (w : World) (v : ℤ) (s : CommentSnapshot)
    → snapshot_of c v ≡ some s
    → (s' : CommentSnapshot) × (snapshot_of (append_event c e w).0 v ≡ some s')
unfolding snapshot_of append_event
snapshot_of-append_event c e w v s h =
    let at = if is_finite_version v then v else version_latest in
    (
      finalize (replay (append_event c e w).0 at),
      ground (arith, is_empty-append (log c) ((stamp_eid e w).0 ∷ [])),
    )

-- An operation either succeeds or leaves its list as it found it, and it never crashes.
pub record IsClean (cs : List Comment) (r : Outcome) : Type 0 where
  pub no_crash : r.1.body ≢ Body.crash
  pub all_or_nothing : (r.1.status ≡ 200) ⊎ (r.0 ≡ cs)

-- What that asks of the action on one comment.
record IsCleanOn (c : Comment) (r : Comment × OpResult) : Type 0 where
  no_crash : r.1.body ≢ Body.crash
  all_or_nothing : (r.1.status ≡ 200) ⊎ (r.0 ≡ c)

at_index-IsClean :
    (cs : List Comment) (i : ℕ) (c : Comment) (f : Comment → M (Comment × OpResult)) (w : World)
    → get_elem? cs i ≡ some c
    → IsCleanOn c (f c w).0
    → IsClean cs (at_index cs i f w).0
unfolding at_index
at_index-IsClean cs i c f w found ok =
    rw (found, at_index)
      (record {
        no_crash = ok.no_crash;
        all_or_nothing = elim ok.all_or_nothing [
          | inl success ↦ inl success
          | inr same ↦ inr (ap (λ x. set cs i x) same ∙ set_same cs i c found)
        ];
      })

done :
    (c : Comment) (r : Comment × OpResult)
    → r.1.body ≢ Body.crash
    → r.1.status ≡ 200
    → IsCleanOn c r
done c r h ok = record { no_crash = h; all_or_nothing = inl ok }

module _ (op : CommentOp) (now : String) (w : World) where
  -- The second SnapshotAt of opReact sees the comment that the first one saw.
  toggle-IsCleanOn :
      (reply_id : String) (snap : CommentSnapshot) (c : Comment)
      → IsMigrated c
      → snapshot_of c op.version ≡ some snap
      → IsCleanOn c (toggle op now reply_id snap c w).0
  unfolding toggle react_result
  toggle-IsCleanOn reply_id snap c m h =
      let had = reactions_for_user (reactions_of snap reply_id) op.by op.emoji in
      let e = toggle_event op now reply_id had in
      let (c', w') = append_event c e w in
      let (s', seen) = snapshot_of-append_event c e w op.version snap h in
      rw (snapshot_at-fixed c' op.version w' (append_event-IsMigrated c e w m), seen)
        (done c (c', react_result (some s') reply_id) (λ crashed. cc) refl)

  react_on-IsCleanOn :
      (reply_id : String) (c : Comment)
      → IsMigrated c
      → IsCleanOn c (react_on op now reply_id c w).0
  unfolding react_on
  react_on-IsCleanOn reply_id c m =
      rw (snapshot_at-fixed c op.version w m) (go (snapshot_of c op.version) refl)
    where
      go :
          (o : Option CommentSnapshot)
          → snapshot_of c op.version ≡ o
          → IsCleanOn c (react_by op now reply_id c o w).0
      go none hidden = record { no_crash = λ e. cc; all_or_nothing = inr refl }
      go (some snap) seen = toggle-IsCleanOn reply_id snap c m seen

module _ (cs : List Comment) (op : CommentOp) (now : String) (w : World)
    (h : All IsMigrated cs) where
  missing-IsClean :
      (reason : String)
      → IsClean cs (cs, record { status = 404; body = Body.error reason; wipe = false })
  missing-IsClean reason = record { no_crash = λ e. cc; all_or_nothing = inr refl }

  op_reply-IsClean : IsClean cs (op_reply cs op now w).0
  unfolding op_reply
  op_reply-IsClean = elim (Option-cases (find_by_id cs op.parent_id)) [
    | inl missing ↦ rw (missing, op_reply) (missing-IsClean "parent_not_found")
    | inr (i, found) ↦
        let (c, at_i, named) = find_by_id-get_elem? cs op.parent_id i found in
        rw (found, op_reply)
          (at_index-IsClean cs i c (add_reply_to op now) w at_i
            (unfold add_reply_to in done c _ (λ e. cc) refl))
  ]

  op_patch_anchor-IsClean : IsClean cs (op_patch_anchor cs op now w).0
  unfolding op_patch_anchor
  op_patch_anchor-IsClean = elim (Option-cases (find_by_id cs op.id)) [
    | inl missing ↦ rw (missing, op_patch_anchor) (missing-IsClean "not_found")
    | inr (i, found) ↦
        let (c, at_i, named) = find_by_id-get_elem? cs op.id i found in
        rw (found, op_patch_anchor)
          (at_index-IsClean cs i c (patch_anchor_of op now) w at_i
            (unfold patch_anchor_of in done c _ (λ e. cc) refl))
  ]

  op_react-IsClean : IsClean cs (op_react cs op now w).0
  unfolding op_react
  op_react-IsClean = elim (Option-cases (find_host cs op.comment_id)) [
    | inl missing ↦ rw (missing, op_react) (missing-IsClean "not_found")
    | inr (host, found) ↦
        let (c, at_i) = find_host-get_elem? cs op.comment_id host.0 host.1 found in
        let reply_id = elim host.1 as (λ _. String) [ none ↦ "" | some _ ↦ op.comment_id ] in
        rw (found, op_react)
          (at_index-IsClean cs host.0 c (react_on op now reply_id) w at_i
            (react_on-IsCleanOn op now w reply_id c (All-get_elem? cs host.0 c h at_i)))
  ]

  op_delete-IsClean : IsClean cs (op_delete cs op now w).0
  unfolding op_delete
  op_delete-IsClean = elim (Option-cases (find_host cs op.id)) [
    | inl missing ↦ rw (missing, op_delete) (missing-IsClean "not_found")
    | inr (host, found) ↦
        let (c, at_i) = find_host-get_elem? cs op.id host.0 host.1 found in
        rw (found, op_delete)
          (at_index-IsClean cs host.0 c (delete_in op now host.1) w at_i
            (unfold delete_in in done c _ (λ e. cc) refl))
  ]

  raw_result-ne_crash :
      (b : Option String)
      → (elim b as (λ _. Body) [ none ↦ Body.ok | some t ↦ Body.response t ]) ≢ Body.crash
  raw_result-ne_crash none e = cc
  raw_result-ne_crash (some t) e = cc

  op_raw_events-IsClean : IsClean cs (op_raw_events cs op w).0
  unfolding op_raw_events
  op_raw_events-IsClean = elim (Option-cases (find_by_id cs op.id)) [
    | inl missing ↦ rw (missing, op_raw_events) (missing-IsClean "not_found")
    | inr (i, found) ↦
        let (c, at_i, named) = find_by_id-get_elem? cs op.id i found in
        rw (found, op_raw_events)
          (at_index-IsClean cs i c (append_raw op) w at_i
            (unfold append_raw in done c _ (raw_result-ne_crash op.response_body) refl))
  ]

success-IsClean :
    (cs : List Comment) (r : Outcome) → r.1.body ≢ Body.crash → r.1.status ≡ 200 → IsClean cs r
success-IsClean cs r h ok = record { no_crash = h; all_or_nothing = inl ok }

compact_merged-IsClean :
    (cs joined : List Comment) (n : ℕ) (o : Option (List Comment)) (w : World)
    → Returns o
    → IsClean cs (compact_merged joined (success (Body.merged n)) o w).0
unfolding compact_merged
compact_merged-IsClean cs joined n none w h = absurd h
compact_merged-IsClean cs joined n (some reconciled) w h = success-IsClean cs _ (λ e. cc) refl

op_publish_merge-IsClean :
    (u : CaseTable) (cs : List Comment) (op : CommentOp) (w : World)
    → IsClean cs (op_publish_merge u cs op w).0
unfolding op_publish_merge
op_publish_merge-IsClean u cs op w =
    let taken = merge_local cs op.local_comments w in
    elim (Bool-cases (is_empty (cs ++ taken.0))) [
      | inl nothing ↦ rw nothing (success-IsClean cs _ (λ e. cc) refl)
      | inr something ↦ rw something (
          compact_merged-IsClean cs (cs ++ taken.0) (length taken.0) _ _ (
            reconcile_anchors-Returns u (cs ++ taken.0) op.aids op.version op.pinned_aid
              op.pinned_tag op.anchor_migrations taken.1))
    ]

dispatch-IsClean :
    (u : CaseTable) (k : OpKind) (cs : List Comment) (op : CommentOp) (now : String) (w : World)
    → All IsMigrated cs
    → IsClean cs (dispatch u k cs op now w).0
unfolding dispatch
dispatch-IsClean u OpKind.create cs op now w h =
    unfold op_create in success-IsClean cs _ (λ e. cc) refl
dispatch-IsClean u OpKind.reply cs op now w h = op_reply-IsClean cs op now w h
dispatch-IsClean u OpKind.patch_anchor cs op now w h = op_patch_anchor-IsClean cs op now w h
dispatch-IsClean u OpKind.react cs op now w h = op_react-IsClean cs op now w h
dispatch-IsClean u OpKind.delete cs op now w h = op_delete-IsClean cs op now w h
dispatch-IsClean u OpKind.raw_events cs op now w h = op_raw_events-IsClean cs op now w h
dispatch-IsClean u OpKind.wipe cs op now w h = success-IsClean cs _ (λ e. cc) refl
dispatch-IsClean u OpKind.publish_merge cs op now w h = op_publish_merge-IsClean u cs op w
dispatch-IsClean u (OpKind.unknown s) cs op now w h = record {
  no_crash = λ e. cc;
  all_or_nothing = inr refl;
}

-- No operation reads through a nil snapshot or takes the comment that it works on, or an artifact
-- in the reconciliation of a publish merge, from an index out of range; and one whose status is
-- not 200 leaves the migrated list as it was.
pub apply_comment_op-IsClean :
    (u : CaseTable) (cs : List Comment) (op : CommentOp) (w : World)
    → IsClean (ensure_migrated cs w).0.0 (apply_comment_op u cs op w).0
unfolding apply_comment_op
apply_comment_op-IsClean u cs op w =
    dispatch-IsClean u op.kind (ensure_migrated cs w).0.0 op _ _ (ensure_migrated-IsMigrated cs w)
