-- ===== src/Ops/Hosts.antt =====
-- FindHost, findByID, reactionsForUser and reactionsOf of internal/core/ops.go. The pointer into the
-- list that the Go functions return is the comment's index.
use octo_docs_html_fork.Prelude.{
  ℕ, suc, String, Bool, true, false, Option, none, some, List, [], ◌∷◌, ◌==◌, if◌then◌else◌,
}
use octo_docs_html_fork.Types.{
  EventKind, CommentEvent, ReplySeed, Comment, CommentSnapshot, ReplySnapshot, Reactions, log,
}
use octo_docs_html_fork.Fold.Reaction.{index_of, users_at}

unfoldable pub is_reply_added : EventKind → Bool
is_reply_added EventKind.reply_added = true
is_reply_added _ = false

-- e.Kind == "reply_added" && e.Reply != nil && e.Reply.ID == id, with e.Reply
unfoldable pub seed_named : String → CommentEvent → Option ReplySeed
unfolding is_reply_added
seed_named id e =
    if is_reply_added e.kind
    then elim e.reply [ none ↦ none | some seed ↦ if seed.id == id then some seed else none ]
    else none

unfoldable pub find_seed : String → List CommentEvent → Option ReplySeed
unfolding seed_named
find_seed id [] = none
find_seed id (e ∷ es) =
    let later = find_seed id es in elim (seed_named id e) [ some seed ↦ some seed | none ↦ later ]

unfoldable pub find_by_id : List Comment → String → Option ℕ
find_by_id [] id = none
find_by_id (c ∷ cs) id =
    let later = find_by_id cs id in
    if c.id == id then some 0 else elim later [ none ↦ none | some i ↦ some (suc i) ]

-- the second pair of loops of FindHost
unfoldable pub find_reply : List Comment → String → Option (ℕ × ReplySeed)
unfolding find_seed
find_reply [] id = none
find_reply (c ∷ cs) id =
    let later = find_reply cs id in
    elim (find_seed id (log c)) [
      | some seed ↦ some (0, seed)
      | none ↦ elim later [ none ↦ none | some (i, seed) ↦ some (suc i, seed) ]
    ]

unfoldable pub find_host : List Comment → String → Option (ℕ × Option ReplySeed)
unfolding find_by_id find_reply
find_host cs id = elim (find_by_id cs id) [
  | some i ↦ some (i, none)
  | none ↦ elim (find_reply cs id) [ none ↦ none | some (i, seed) ↦ some (i, some seed) ]
]

unfoldable pub reactions_for_user : Reactions → String → String → Bool
unfolding index_of users_at
reactions_for_user r by emoji = elim (index_of (users_at r emoji) by) [
  | none ↦ false
  | some i ↦ true
]

reply_reactions : List ReplySnapshot → String → Reactions
reply_reactions [] id = []
reply_reactions (r ∷ rs) id =
    let later = reply_reactions rs id in if r.id == id then r.reactions else later

unfoldable pub reactions_of : CommentSnapshot → String → Reactions
unfolding reply_reactions
reactions_of snap reply_id =
    if reply_id == "" then snap.reactions else reply_reactions snap.replies reply_id
