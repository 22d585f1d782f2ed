-- ===== src/Fold/Invariant.antt =====
-- What holds of the fold state of internal/core/fold.go after every event.
use octo_docs_html_fork.Prelude.{
  String, Bool, true, false, ◌≡◌, refl, ◌⊎◌, inl, inr, Option, none, some, List, [], ◌∷◌, ◌++◌,
  ◌==◌, subst, text_cases, Bool-cases, Option-cases, if◌then◌else◌,
}
use octo_docs_html_fork.Prelude.Dict.{get, put, get-put}
use octo_docs_html_fork.Prelude.Int.{ℤ}
use octo_docs_html_fork.Types.{
  EventKind, CommentEvent, ReplySeed, Comment, CommentSnapshot, ReplySnapshot,
}
use octo_docs_html_fork.Fold.Reaction.{apply_reaction}
use octo_docs_html_fork.Fold.ReactionSet.{WellFormed, apply_reaction-WellFormed}
use octo_docs_html_fork.Fold.State.{FoldState, empty_state}
use octo_docs_html_fork.Fold.Apply.{
  content_event, status_event, names_reaction, react_parent, parent_reaction, is_set, add_seed,
  add_reply, update_reply, reply_reaction, reply_event, apply_comment_event,
}

-- The status and the version in which the comment was applied go together.
abbrev pub StatusAgrees : CommentSnapshot → Type 0
StatusAgrees s =
    ((s.status ≡ "open") × (s.applied_in ≡ none))
    ⊎ ((v : ℤ) × (s.status ≡ "applied") × (s.applied_in ≡ some v))

-- A reply under its own id, that names its parent, with well-formed reactions.
pub record IsReplyOf (parent id : String) (r : ReplySnapshot) : Type 0 where
  pub own_id : r.id ≡ id
  pub names_parent : r.parent_id ≡ parent
  pub reactions : WellFormed r.reactions

pub record IsConsistent (c : Comment) (st : FoldState) : Type 0 where
  pub same_id : st.snap.id ≡ c.id
  pub same_created_in : st.snap.created_in ≡ c.created_in
  pub status : StatusAgrees st.snap
  pub reactions : WellFormed st.snap.reactions
  pub replies :
      (id : String) (r : ReplySnapshot) → get st.reply_by_id id ≡ some r → IsReplyOf c.id id r

-- What a handler gives back, if it takes the event, has the property.
abbrev Keeps : (FoldState → Type 0) → Option FoldState → Type 0
Keeps P none = Unit
Keeps P (some st) = P st

-- The dispatch of applyCommentEvent.
apply_comment_event_induction :
    (P : FoldState → Type 0) (st : FoldState) (e : CommentEvent)
    → Keeps P (content_event e.kind st e)
    → Keeps P (status_event e.kind st e)
    → Keeps P (parent_reaction e.kind st e)
    → P (reply_event e.kind st e)
    → P (apply_comment_event st e)
unfolding apply_comment_event
apply_comment_event_induction P st e content status parent reply =
    first (content_event e.kind st e) content
      (first (status_event e.kind st e) status (first (parent_reaction e.kind st e) parent reply))
  where
    first :
        {st' : FoldState} (o : Option FoldState)
        → Keeps P o
        → P st'
        → P (elim o [ some x ↦ x | none ↦ st' ])
    first (some x) h _ = h
    first none _ h = h

module _ (c : Comment) (st : FoldState) (e : CommentEvent) (ok : IsConsistent c st) where
  -- A handler that writes the snapshot and the verdict leaves the replies alone.
  restate :
      (s : CommentSnapshot) (verdict : Option String)
      → s.id ≡ c.id
      → s.created_in ≡ c.created_in
      → StatusAgrees s
      → WellFormed s.reactions
      → IsConsistent c (record st { snap = s; agent_verdict = verdict })
  restate s verdict own since status wf = record {
    same_id = own;
    same_created_in = since;
    status = status;
    reactions = wf;
    replies = ok.replies;
  }

  content_event-IsConsistent : (k : EventKind) → Keeps (IsConsistent c) (content_event k st e)
  unfolding content_event
  content_event-IsConsistent EventKind.created =
      restate _ _ ok.same_id ok.same_created_in ok.status ok.reactions
  content_event-IsConsistent EventKind.text_edited =
      restate _ _ ok.same_id ok.same_created_in ok.status ok.reactions
  content_event-IsConsistent EventKind.anchor_changed = anchor (is_set e.reset_status)
    where
      anchor :
          (reset : Bool)
          → IsConsistent c (record st {
            snap =
                if reset
                then record st.snap { anchor = e.anchor; status = "open"; applied_in = none }
                else record st.snap { anchor = e.anchor };
          })
      anchor true = restate _ _ ok.same_id ok.same_created_in (inl (refl, refl)) ok.reactions
      anchor false = restate _ _ ok.same_id ok.same_created_in ok.status ok.reactions
  content_event-IsConsistent _ = tt

  status_event-IsConsistent : (k : EventKind) → Keeps (IsConsistent c) (status_event k st e)
  unfolding status_event
  status_event-IsConsistent EventKind.marked_applied =
      restate _ _ ok.same_id ok.same_created_in
        (inr (elim e.applied_in [ none ↦ e.at_version | some v ↦ v ], refl, refl)) ok.reactions
  status_event-IsConsistent EventKind.marked_open =
      restate _ _ ok.same_id ok.same_created_in (inl (refl, refl)) ok.reactions
  status_event-IsConsistent EventKind.deleted =
      restate _ _ ok.same_id ok.same_created_in ok.status ok.reactions
  status_event-IsConsistent _ = tt

  react_parent-IsConsistent : (add : Bool) → Keeps (IsConsistent c) (react_parent st e add)
  unfolding react_parent
  react_parent-IsConsistent add = elim (Bool-cases (names_reaction e)) [
    | inr anonymous ↦ rw (anonymous, Keeps) tt
    | inl named ↦
        rw (named, Keeps)
          (restate
            (record st.snap { reactions = apply_reaction st.snap.reactions e.emoji e.by add })
            st.agent_verdict ok.same_id ok.same_created_in ok.status
            (apply_reaction-WellFormed st.snap.reactions e.emoji e.by add ok.reactions))
  ]

  parent_reaction-IsConsistent : (k : EventKind) → Keeps (IsConsistent c) (parent_reaction k st e)
  unfolding parent_reaction
  parent_reaction-IsConsistent EventKind.reaction_added = react_parent-IsConsistent true
  parent_reaction-IsConsistent EventKind.reaction_removed = react_parent-IsConsistent false
  parent_reaction-IsConsistent _ = tt

  -- A handler that writes one reply leaves the snapshot alone.
  put_reply :
      (id : String) (r : ReplySnapshot) (order : List String)
      → IsReplyOf c.id id r
      → IsConsistent c (record st { reply_order = order; reply_by_id = put st.reply_by_id id r })
  put_reply id r order good = record {
    same_id = ok.same_id;
    same_created_in = ok.same_created_in;
    status = ok.status;
    reactions = ok.reactions;
    replies = λ j x found. elim (text_cases id j) [
      | inl (same, test) ↦
          let is_new : some r ≡ some x = rw (get-put, test) at found in
          subst (IsReplyOf c.id j) (cc) (subst (λ k. IsReplyOf c.id k r) same good)
      | inr (differ, test) ↦ ok.replies j x (rw (get-put, test) at found)
    ];
  }

  update_reply-IsConsistent :
      (id : String) (f : ReplySnapshot → ReplySnapshot)
      → ((r : ReplySnapshot) → IsReplyOf c.id id r → IsReplyOf c.id id (f r))
      → IsConsistent c (update_reply st id f)
  unfolding update_reply
  update_reply-IsConsistent id f keep = elim (Option-cases (get st.reply_by_id id)) [
    | inl missing ↦ rw (missing, update_reply) ok
    | inr (r, found) ↦
        rw (found, update_reply)
          (put_reply id (f r) st.reply_order (keep r (ok.replies id r found)))
  ]

  add_seed-IsConsistent : (seed : ReplySeed) → IsConsistent c (add_seed st e seed)
  unfolding add_seed
  add_seed-IsConsistent seed = elim (Bool-cases (seed.id == "")) [
    | inl unnamed ↦ rw unnamed ok
    | inr named ↦ rw named (
        put_reply seed.id _ (st.reply_order ++ seed.id ∷ [])
          (record { own_id = refl; names_parent = ok.same_id; reactions = tt }))
  ]

  add_reply-IsConsistent : IsConsistent c (add_reply st e)
  unfolding add_reply
  add_reply-IsConsistent = elim (Option-cases e.reply) [
    | inl missing ↦ rw missing ok
    | inr (seed, found) ↦ rw found (add_seed-IsConsistent seed)
  ]

  reply_reaction-IsConsistent : (add : Bool) → IsConsistent c (reply_reaction st e add)
  unfolding reply_reaction
  reply_reaction-IsConsistent add = elim (Bool-cases (names_reaction e)) [
    | inr anonymous ↦ rw anonymous ok
    | inl named ↦ rw named (
        update_reply-IsConsistent e.reply_id _ (λ r good. record {
          own_id = good.own_id;
          names_parent = good.names_parent;
          reactions = apply_reaction-WellFormed r.reactions e.emoji e.by add good.reactions;
        }))
  ]

  reply_event-IsConsistent : (k : EventKind) → IsConsistent c (reply_event k st e)
  unfolding reply_event
  reply_event-IsConsistent EventKind.reply_added = add_reply-IsConsistent
  reply_event-IsConsistent EventKind.reply_text_edited =
      update_reply-IsConsistent e.reply_id _ (λ r good. record {
        own_id = good.own_id;
        names_parent = good.names_parent;
        reactions = good.reactions;
      })
  reply_event-IsConsistent EventKind.reply_deleted =
      update_reply-IsConsistent e.reply_id _ (λ r good. record {
        own_id = good.own_id;
        names_parent = good.names_parent;
        reactions = good.reactions;
      })
  reply_event-IsConsistent EventKind.reply_reaction_added = reply_reaction-IsConsistent true
  reply_event-IsConsistent EventKind.reply_reaction_removed = reply_reaction-IsConsistent false
  reply_event-IsConsistent _ = ok

  -- Every event keeps the invariant.
  pub apply_comment_event-IsConsistent : IsConsistent c (apply_comment_event st e)
  apply_comment_event-IsConsistent =
      apply_comment_event_induction (IsConsistent c) st e (content_event-IsConsistent e.kind)
        (status_event-IsConsistent e.kind) (parent_reaction-IsConsistent e.kind)
        (reply_event-IsConsistent e.kind)

pub empty_state-IsConsistent : (c : Comment) → IsConsistent c (empty_state c)
unfolding empty_state get
empty_state-IsConsistent c = record {
  same_id = refl;
  same_created_in = refl;
  status = inl (refl, refl);
  reactions = tt;
  replies = λ id r found. cc;
}
