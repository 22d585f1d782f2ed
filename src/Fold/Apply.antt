-- ===== src/Fold/Apply.antt =====
-- The event handlers of internal/core/fold.go. A handler that returns false, having done nothing,
-- gives `none`.
use octo_docs_html_fork.Prelude.{
  String, Bool, true, false, not, ◌&&◌, Option, none, some, [], ◌∷◌, ◌++◌, ◌==◌, if◌then◌else◌,
}
use octo_docs_html_fork.Prelude.Dict.{get, put}
use octo_docs_html_fork.Prelude.Int.{ℤ}
use octo_docs_html_fork.Types.{EventKind, CommentEvent, ReplySeed, ReplySnapshot}
use octo_docs_html_fork.Fold.Reaction.{apply_reaction}
use octo_docs_html_fork.Fold.State.{FoldState}

abbrev pub is_set : Option Bool → Bool
is_set none = false
is_set (some b) = b

unfoldable pub content_event : EventKind → FoldState → CommentEvent → Option FoldState
content_event EventKind.created st e =
    some (record st { snap = record st.snap { anchor = e.anchor; text = e.text } })
content_event EventKind.text_edited st e =
    some (record st { snap = record st.snap { text = e.text } })
content_event EventKind.anchor_changed st e = some (record st {
  snap =
      if is_set e.reset_status
      then record st.snap { anchor = e.anchor; status = "open"; applied_in = none }
      else record st.snap { anchor = e.anchor };
})
content_event _ st e = none

unfoldable pub status_event : EventKind → FoldState → CommentEvent → Option FoldState
status_event EventKind.marked_applied st e =
    let applied_in : ℤ = elim e.applied_in [ none ↦ e.at_version | some v ↦ v ] in
    some (record st {
      snap = record st.snap { status = "applied"; applied_in = some applied_in };
      agent_verdict = some (if e.agent_status == "" then "applied" else e.agent_status);
    })
status_event EventKind.marked_open st e = some (record st {
  snap = record st.snap { status = "open"; applied_in = none };
  agent_verdict = if e.agent_status == "" then none else some e.agent_status;
})
status_event EventKind.deleted st e = some (record st { snap = record st.snap { deleted = true } })
status_event _ st e = none

-- e.Emoji != "" && e.By != ""
unfoldable pub names_reaction : CommentEvent → Bool
names_reaction e = not (e.emoji == "") && not (e.by == "")

unfoldable pub react_parent : FoldState → CommentEvent → Bool → Option FoldState
unfolding names_reaction
react_parent st e add =
    if names_reaction e
    then some (record st {
      snap = record st.snap { reactions = apply_reaction st.snap.reactions e.emoji e.by add };
    })
    else none

unfoldable pub parent_reaction : EventKind → FoldState → CommentEvent → Option FoldState
unfolding react_parent
parent_reaction EventKind.reaction_added st e = react_parent st e true
parent_reaction EventKind.reaction_removed st e = react_parent st e false
parent_reaction _ st e = none

unfoldable pub add_seed : FoldState → CommentEvent → ReplySeed → FoldState
add_seed st e seed = if seed.id == "" then st else record st {
  reply_order = st.reply_order ++ seed.id ∷ [];
  reply_by_id = put st.reply_by_id seed.id (record {
    id = seed.id;
    parent_id = st.snap.id;
    author = seed.author;
    text = seed.text;
    agent_status = if seed.agent_status == "" then none else some seed.agent_status;
    created = e.at;
    reactions = [];
    deleted = false;
  });
}

unfoldable pub add_reply : FoldState → CommentEvent → FoldState
unfolding add_seed
add_reply st e = elim e.reply [ none ↦ st | some seed ↦ add_seed st e seed ]

-- r := st.replyByID[id], and a write through the pointer where it is not nil
unfoldable pub update_reply : FoldState → String → (ReplySnapshot → ReplySnapshot) → FoldState
update_reply st id f = elim (get st.reply_by_id id) [
  | none ↦ st
  | some r ↦ record st { reply_by_id = put st.reply_by_id id (f r) }
]

unfoldable pub reply_reaction : FoldState → CommentEvent → Bool → FoldState
unfolding names_reaction update_reply
reply_reaction st e add =
    if names_reaction e
    then update_reply st e.reply_id
        (λ r. record r { reactions = apply_reaction r.reactions e.emoji e.by add })
    else st

unfoldable pub reply_event : EventKind → FoldState → CommentEvent → FoldState
unfolding add_reply update_reply reply_reaction
reply_event EventKind.reply_added st e = add_reply st e
reply_event EventKind.reply_text_edited st e =
    update_reply st e.reply_id (λ r. record r { text = e.text })
reply_event EventKind.reply_deleted st e =
    update_reply st e.reply_id (λ r. record r { deleted = true })
reply_event EventKind.reply_reaction_added st e = reply_reaction st e true
reply_event EventKind.reply_reaction_removed st e = reply_reaction st e false
reply_event _ st e = st

unfoldable pub apply_comment_event : FoldState → CommentEvent → FoldState
unfolding content_event status_event parent_reaction reply_event
apply_comment_event st e = elim (content_event e.kind st e) [
  | some st' ↦ st'
  | none ↦ elim (status_event e.kind st e) [
    | some st' ↦ st'
    | none ↦ elim (parent_reaction e.kind st e) [ some st' ↦ st' | none ↦ reply_event e.kind st e ]
  ]
]
