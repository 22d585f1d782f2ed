-- ===== src/Ops/Handlers.antt =====
-- The operations of internal/core/ops.go, one function each. A handler gives back the list, in which
-- the Go code has changed a comment in place.
use octo_docs_html_fork.Prelude.{
  ℕ, String, Bool, false, Option, none, some, List, [], ◌∷◌, ◌++◌, ◌==◌, contains, is_empty, length,
  set, get_elem?, if◌then◌else◌,
}
use octo_docs_html_fork.World.{M, ◌>>=◌, pure}
use octo_docs_html_fork.Types.{
  CommentEvent, EventKind, zero_event, Comment, CommentSnapshot, ReplySeed,
}
use octo_docs_html_fork.Events.Log.{append_event, backfill_eids}
use octo_docs_html_fork.Events.Migrate.{ensure_event_log, compact_comments}
use octo_docs_html_fork.Fold.Snapshot.{snapshot_at}
use octo_docs_html_fork.Ops.Types.{Body, OpResult, CommentOp}
use octo_docs_html_fork.Ops.Hosts.{find_by_id, find_host, reactions_for_user, reactions_of}
use octo_docs_html_fork.Reconcile.Text.{CaseTable}
use octo_docs_html_fork.Reconcile.Comments.{reconcile_anchors}

abbrev pub Outcome : Type 0
Outcome = List Comment × OpResult

abbrev pub success : Body → OpResult
success b = record { status = 200; body = b; wipe = false }

abbrev pub missing : String → OpResult
missing e = record { status = 404; body = Body.error e; wipe = false }

-- A call through the pointer to element `i`, whose new value is the action's first result.
unfoldable pub at_index : List Comment → ℕ → (Comment → M (Comment × OpResult)) → M Outcome
at_index cs i f = elim (get_elem? cs i) [
  | none ↦ pure (cs, record { status = 500; body = Body.crash; wipe = false })
  | some c ↦ do r ← f c; pure (set cs i r.0, r.1)
]

unfoldable pub created_event : CommentOp → String → CommentEvent
created_event op now = record (zero_event EventKind.created op.version now) {
  anchor = op.anchor;
  text = op.text;
}

-- the composite literal `entry`, with its events filled in
unfoldable pub new_comment : CommentOp → String → List CommentEvent → Comment
new_comment op now es = record {
  id = op.id;
  author = op.author;
  created = now;
  created_in = op.version;
  events = some es;
  version = none;
  anchor = none;
  text = none;
  status = "";
  applied_in = none;
  replies = [];
  reactions = [];
}

unfoldable pub op_create : List Comment → CommentOp → String → M Outcome
unfolding created_event new_comment
op_create cs op now = do
  filled ← backfill_eids (created_event op now ∷ [])
  r ← snapshot_at (new_comment op now filled.0) op.version
  pure (cs ++ r.1 ∷ [], success (Body.snapshot r.0))

unfoldable pub reply_seed_event : CommentOp → String → CommentEvent
reply_seed_event op now = record (zero_event EventKind.reply_added op.version now) {
  reply = some (record { id = op.reply_id; author = op.author; text = op.text; agent_status = "" });
}

unfoldable pub add_reply_to : CommentOp → String → Comment → M (Comment × OpResult)
unfolding reply_seed_event
add_reply_to op now c = do
  c' ← append_event c (reply_seed_event op now)
  pure (c', success (Body.reply_view op.reply_id op.parent_id op.author op.text now op.version))

unfoldable pub op_reply : List Comment → CommentOp → String → M Outcome
unfolding add_reply_to at_index
op_reply cs op now = elim (find_by_id cs op.parent_id) [
  | none ↦ pure (cs, missing "parent_not_found")
  | some i ↦ at_index cs i (add_reply_to op now)
]

unfoldable pub patch_anchor_of : CommentOp → String → Comment → M (Comment × OpResult)
patch_anchor_of op now c = do
  c' ← append_event c (record (zero_event EventKind.anchor_changed op.version now) {
    reset_status = some op.reset_status;
    anchor = op.anchor;
    by = op.actor;
  })
  r ← snapshot_at c' op.version
  pure (r.1, success (Body.snapshot r.0))

unfoldable pub op_patch_anchor : List Comment → CommentOp → String → M Outcome
unfolding patch_anchor_of at_index
op_patch_anchor cs op now = elim (find_by_id cs op.id) [
  | none ↦ pure (cs, missing "not_found")
  | some i ↦ at_index cs i (patch_anchor_of op now)
]

-- the event that toggles the reaction; `reply_id` is "" for a reaction on the comment itself
unfoldable pub toggle_event : CommentOp → String → String → Bool → CommentEvent
toggle_event op now reply_id had =
    let kind =
      if reply_id == ""
      then (if had then EventKind.reaction_removed else EventKind.reaction_added)
      else (if had then EventKind.reply_reaction_removed else EventKind.reply_reaction_added) in
    record (zero_event kind op.version now) { emoji = op.emoji; by = op.by; reply_id = reply_id }

-- A nil `fresh` would be dereferenced.
unfoldable pub react_result : Option CommentSnapshot → String → OpResult
react_result none reply_id = record { status = 500; body = Body.crash; wipe = false }
react_result (some fresh) reply_id = success (Body.reacted (reactions_of fresh reply_id))

unfoldable pub toggle :
    CommentOp → String → String → CommentSnapshot → Comment → M (Comment × OpResult)
unfolding toggle_event react_result
toggle op now reply_id snap c = do
  let had = reactions_for_user (reactions_of snap reply_id) op.by op.emoji
  c' ← append_event c (toggle_event op now reply_id had)
  fresh ← snapshot_at c' op.version
  pure (fresh.1, react_result fresh.0 reply_id)

-- the rest of opReact, after the first SnapshotAt
unfoldable pub react_by :
    CommentOp → String → String → Comment → Option CommentSnapshot → M (Comment × OpResult)
unfolding toggle
react_by op now reply_id c none = pure (c, missing "not_visible_at_version")
react_by op now reply_id c (some snap) = toggle op now reply_id snap c

unfoldable pub react_on : CommentOp → String → String → Comment → M (Comment × OpResult)
unfolding react_by
react_on op now reply_id c = do r ← snapshot_at c op.version; react_by op now reply_id r.1 r.0

unfoldable pub op_react : List Comment → CommentOp → String → M Outcome
unfolding react_on at_index
op_react cs op now = elim (find_host cs op.comment_id) [
  | none ↦ pure (cs, missing "not_found")
  | some (i, seed) ↦
      at_index cs i (react_on op now (elim seed [ none ↦ "" | some _ ↦ op.comment_id ]))
]

unfoldable pub delete_event : CommentOp → String → Option ReplySeed → CommentEvent
delete_event op now none = record (zero_event EventKind.deleted op.version now) { by = op.actor }
delete_event op now (some _) = record (zero_event EventKind.reply_deleted op.version now) {
  reply_id = op.id;
  by = op.actor;
}

unfoldable pub delete_in : CommentOp → String → Option ReplySeed → Comment → M (Comment × OpResult)
unfolding delete_event
delete_in op now seed c = do
  c' ← append_event c (delete_event op now seed)
  pure (c', success Body.ok)

unfoldable pub op_delete : List Comment → CommentOp → String → M Outcome
unfolding delete_in at_index
op_delete cs op now = elim (find_host cs op.id) [
  | none ↦ pure (cs, missing "not_found")
  | some (i, seed) ↦ at_index cs i (delete_in op now seed)
]

unfoldable pub append_all : Comment → List CommentEvent → M Comment
append_all c [] = pure c
append_all c (e ∷ es) = do c' ← append_event c e; append_all c' es

unfoldable pub append_raw : CommentOp → Comment → M (Comment × OpResult)
unfolding append_all
append_raw op c = do
  c' ← append_all c op.events
  pure (c', success (elim op.response_body [ none ↦ Body.ok | some b ↦ Body.response b ]))

unfoldable pub op_raw_events : List Comment → CommentOp → M Outcome
unfolding append_raw at_index
op_raw_events cs op = elim (find_by_id cs op.id) [
  | none ↦ pure (cs, missing "not_found")
  | some i ↦ at_index cs i (append_raw op)
]

-- the ids in the map `have`
unfoldable pub nonempty_ids : List Comment → List String
nonempty_ids [] = []
nonempty_ids (c ∷ cs) = let rest = nonempty_ids cs in if c.id == "" then rest else c.id ∷ rest

-- The loop over LocalComments: what it appends to the list, whose length is `merged`.
unfoldable pub take_local : List String → List Comment → M (List Comment)
take_local have [] = pure []
take_local have (c ∷ cs) =
    let skip = take_local have cs in
    let add : M (List Comment) = (do
      r ← ensure_event_log c
      rest ← take_local (c.id ∷ have) cs
      pure (r.0 ∷ rest)) in
    if c.id == "" then skip else if contains c.id have then skip else add

unfoldable pub merge_local : List Comment → List Comment → M (List Comment)
unfolding nonempty_ids take_local
merge_local cs local = take_local (nonempty_ids cs) local

-- after reconcileAnchors, which `none` says panicked
unfoldable pub compact_merged : List Comment → OpResult → Option (List Comment) → M Outcome
compact_merged joined result none =
    pure (joined, record { status = 500; body = Body.crash; wipe = false })
compact_merged joined result (some reconciled) = do
  compacted ← compact_comments reconciled
  pure (compacted.0, result)

unfoldable pub op_publish_merge : CaseTable → List Comment → CommentOp → M Outcome
unfolding merge_local compact_merged
op_publish_merge u cs op = do
  taken ← merge_local cs op.local_comments
  let joined = cs ++ taken
  let result = success (Body.merged (length taken))
  if is_empty joined then pure (joined, result) else do
    reconciled ←
        reconcile_anchors u joined op.aids op.version op.pinned_aid op.pinned_tag
          op.anchor_migrations
    compact_merged joined result reconciled
