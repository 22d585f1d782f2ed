-- ===== src/Events/Legacy.antt =====
-- legacyToEvents of internal/core/events.go: the event list of a legacy flat comment.
use Prim.Native.String.{compare}
use Prim.Native.Nat.{Ordering}
use octo_docs_html_fork.Prelude.{
  String, Option, none, some, List, [], ◌∷◌, ◌++◌, ◌==◌, if◌then◌else◌,
}
use octo_docs_html_fork.Prelude.Dict.{get, keys}
use octo_docs_html_fork.Prelude.Int.{ℤ, pos}
use octo_docs_html_fork.World.{M, ◌>>=◌, pure, now_iso}
use octo_docs_html_fork.Types.{
  CommentEvent, EventKind, zero_event, Comment, Reactions, RawReply, ReplySeed,
}

-- sort.Strings
insert_string : String → List String → List String
insert_string k [] = k ∷ []
insert_string k (j ∷ ks) = elim (compare k j) [
  | Ordering.gt ↦ j ∷ insert_string k ks
  | _ ↦ k ∷ j ∷ ks
]

unfoldable pub sort_strings : List String → List String
unfolding insert_string
sort_strings [] = []
sort_strings (k ∷ ks) = insert_string k (sort_strings ks)

unfoldable pub sorted_keys : Reactions → List String
unfolding sort_strings
sorted_keys m = sort_strings (keys m)

users_of : Reactions → String → List String
unfolding get
users_of m emoji = elim (get m emoji) [ none ↦ [] | some users ↦ users ]

-- the inner loop: an event for each login of one emoji
by_each : List String → ℤ → String → String → List CommentEvent
by_each [] v at emoji = []
by_each (by ∷ users) v at emoji =
    record (zero_event (EventKind.unknown "") v at) { emoji = emoji; by = by }
    ∷ by_each users v at emoji

by_emoji : List String → Reactions → ℤ → String → List CommentEvent
unfolding users_of by_each
by_emoji [] m v at = []
by_emoji (emoji ∷ ks) m v at = by_each (users_of m emoji) v at emoji ++ by_emoji ks m v at

unfoldable pub legacy_reaction_events : Reactions → ℤ → String → List CommentEvent
unfolding sorted_keys by_emoji
legacy_reaction_events m v at = by_emoji (sorted_keys m) m v at

mark_added : List CommentEvent → List CommentEvent
mark_added [] = []
mark_added (e ∷ es) = record e { kind = EventKind.reaction_added } ∷ mark_added es

unfoldable pub append_legacy_reactions :
    List CommentEvent → Reactions → ℤ → String → List CommentEvent
unfolding mark_added legacy_reaction_events
append_legacy_reactions es m v at = es ++ mark_added (legacy_reaction_events m v at)

mark_reply_added : String → List CommentEvent → List CommentEvent
mark_reply_added id [] = []
mark_reply_added id (e ∷ es) =
    record e { kind = EventKind.reply_reaction_added; reply_id = id } ∷ mark_reply_added id es

unfoldable pub append_legacy_reply : List CommentEvent → RawReply → ℤ → String → List CommentEvent
unfolding mark_reply_added legacy_reaction_events
append_legacy_reply es r v at =
    let rv : ℤ = elim r.version [ none ↦ v | some x ↦ x ] in
    let when : String = if r.created == "" then at else r.created in
    let seed : ReplySeed = record {
      id = r.id;
      author = r.author;
      text = r.text;
      agent_status = r.agent_status;
    } in
    (es ++ record (zero_event EventKind.reply_added rv when) { reply = some seed } ∷ [])
    ++ mark_reply_added r.id (legacy_reaction_events r.reactions rv when)

-- A reply that does not decode, or has no id, is skipped.
unfoldable pub append_legacy_replies :
    List CommentEvent → List (Option RawReply) → ℤ → String → List CommentEvent
unfolding append_legacy_reply
append_legacy_replies es [] v at = es
append_legacy_replies es (none ∷ rs) v at = append_legacy_replies es rs v at
append_legacy_replies es (some r ∷ rs) v at =
    append_legacy_replies (if r.id == "" then es else append_legacy_reply es r v at) rs v at

-- c.Created, or the time where it is empty
created_or_now : Comment → M String
unfolding now_iso
created_or_now c = if c.created == "" then now_iso else pure c.created

unfoldable pub legacy_version : Comment → ℤ
legacy_version c = elim c.version [ none ↦ pos 1 | some v ↦ v ]

legacy_applied : Comment → ℤ → String → List CommentEvent
legacy_applied c v at =
    let applied_in : ℤ = elim c.applied_in [ none ↦ v | some a ↦ a ] in
    if c.status == "applied"
    then record (zero_event EventKind.marked_applied applied_in at) {
      applied_in = some applied_in;
      by = "odoc-agent";
      agent_status = "applied";
    }
      ∷ []
    else []

unfoldable pub legacy_created : Comment → String → CommentEvent
unfolding legacy_version
legacy_created c at = record (zero_event EventKind.created (legacy_version c) at) {
  anchor = c.anchor;
  text = elim c.text [ none ↦ "" | some t ↦ t ];
}

unfoldable pub legacy_to_events : Comment → M (List CommentEvent)
unfolding created_or_now legacy_applied append_legacy_reactions append_legacy_replies legacy_created
legacy_to_events c = do
  at ← created_or_now c
  let v = legacy_version c
  let events = legacy_created c at ∷ legacy_applied c v at
  let reacted = append_legacy_reactions events c.reactions v at
  pure (append_legacy_replies reacted c.replies v at)
