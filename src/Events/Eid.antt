-- ===== src/Events/Eid.antt =====
-- EventEID, BackfillEIDs and AppendEvent of internal/core/events.go.
use Prim.Native.String.{◌++◌, char_at}
use octo_docs_html_fork.Prelude.{ℕ, zero, suc, ◌+◌, ◌/◌, ◌%◌, String, ◌==◌, ltb, if◌then◌else◌}
use octo_docs_html_fork.Prelude.Int.{ℤ, pos, negsuc}
use octo_docs_html_fork.World.{M, ◌>>=◌, pure, unix_micro, next_nonce}
use octo_docs_html_fork.Types.{CommentEvent, EventKind}

-- strconv.FormatUint(n, base): a uint64 has at most 64 digits in any base.
digits : ℕ → ℕ → ℕ → String → String
digits zero base n out = out
digits (suc fuel) base n out =
    let out' = String.◌∷◌ (char_at "0123456789abcdefghijklmnopqrstuvwxyz" (n % base)) out in
    let more = digits fuel base (n / base) out' in if ltb n base then out' else more

unfoldable pub format_uint : ℕ → ℕ → String
unfolding digits
format_uint n base = digits 64 base n ""

-- strconv.Itoa
unfoldable pub itoa : ℤ → String
unfolding format_uint
itoa (pos n) = format_uint n 10
itoa (negsuc n) = "-" ++ format_uint (n + 1) 10

-- the JSON spelling of a kind
unfoldable pub kind_name : EventKind → String
kind_name EventKind.created = "created"
kind_name EventKind.text_edited = "text_edited"
kind_name EventKind.anchor_changed = "anchor_changed"
kind_name EventKind.marked_applied = "marked_applied"
kind_name EventKind.marked_open = "marked_open"
kind_name EventKind.deleted = "deleted"
kind_name EventKind.reaction_added = "reaction_added"
kind_name EventKind.reaction_removed = "reaction_removed"
kind_name EventKind.reply_added = "reply_added"
kind_name EventKind.reply_text_edited = "reply_text_edited"
kind_name EventKind.reply_deleted = "reply_deleted"
kind_name EventKind.reply_reaction_added = "reply_reaction_added"
kind_name EventKind.reply_reaction_removed = "reply_reaction_removed"
kind_name (EventKind.unknown s) = s

-- the switch of EventEID, for an event of kind `k`
reaction_eid : EventKind → CommentEvent → M String
unfolding kind_name
reaction_eid k e = pure (kind_name k ++ ":" ++ e.emoji ++ ":" ++ e.by)

flag_eid : EventKind → CommentEvent → M String
unfolding kind_name itoa
flag_eid k e = pure (kind_name k ++ ":" ++ itoa e.at_version)

one_shot_eid : EventKind → CommentEvent → M String
unfolding kind_name format_uint next_nonce unix_micro
one_shot_eid k e = do
  nonce ← next_nonce
  hi ← unix_micro
  pure (kind_name k ++ ":" ++ e.at ++ ":" ++ format_uint nonce 36 ++ "_" ++ format_uint hi 36)

unfoldable pub eid_by_kind : EventKind → CommentEvent → M String
unfolding reaction_eid flag_eid one_shot_eid
eid_by_kind EventKind.reaction_added e = reaction_eid EventKind.reaction_added e
eid_by_kind EventKind.reaction_removed e = reaction_eid EventKind.reaction_removed e
eid_by_kind EventKind.marked_applied e = flag_eid EventKind.marked_applied e
eid_by_kind EventKind.marked_open e = flag_eid EventKind.marked_open e
eid_by_kind EventKind.deleted e = flag_eid EventKind.deleted e
eid_by_kind k e = one_shot_eid k e

unfoldable pub event_eid : CommentEvent → M String
unfolding eid_by_kind
event_eid e = eid_by_kind e.kind e

-- if event.EID == "" { event.EID = EventEID(&event) }
unfoldable pub stamp_eid : CommentEvent → M CommentEvent
stamp_eid e = if e.eid == "" then (do eid ← event_eid e; pure (record e { eid = eid })) else pure e
