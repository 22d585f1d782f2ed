-- ===== src/Fold/State.antt =====
-- foldState, emptySnapshot and the version guard of internal/core/fold.go.
use octo_docs_html_fork.Prelude.{
  String, Bool, false, not, ◌&&◌, Option, none, List, [], ◌==◌, if◌then◌else◌,
}
use octo_docs_html_fork.Prelude.Dict.{Dict}
use octo_docs_html_fork.Prelude.Int.{ℤ, pos, leb_ℤ, eqb_ℤ, max_int}
use octo_docs_html_fork.Types.{Comment, CommentSnapshot, ReplySnapshot}

pub record FoldState : Type 0 where
  pub snap : CommentSnapshot
  pub reply_order : List String
  pub reply_by_id : Dict ReplySnapshot
  pub agent_verdict : Option String

abbrev pub version_latest : ℤ
version_latest = max_int

unfoldable pub is_finite_version : ℤ → Bool
is_finite_version v = leb_ℤ (pos 0) v && not (eqb_ℤ v version_latest)

-- agentStatusEmoji[s], "" on a missing key
unfoldable pub agent_status_emoji : String → String
agent_status_emoji s =
    if s == "applied"
    then "✅"
    else if s == "partial"
    then "🟡"
    else if s == "question"
    then "❓"
    else ""

unfoldable pub empty_snapshot : Comment → CommentSnapshot
empty_snapshot c = record {
  id = c.id;
  author = c.author;
  created = c.created;
  created_in = c.created_in;
  version = c.created_in;
  anchor = none;
  text = "";
  status = "open";
  applied_in = none;
  replies = [];
  reactions = [];
  deleted = false;
}

unfoldable pub empty_state : Comment → FoldState
unfolding empty_snapshot
empty_state c = record {
  snap = empty_snapshot c;
  reply_order = [];
  reply_by_id = [];
  agent_verdict = none;
}
