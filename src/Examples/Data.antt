-- ===== src/Examples/Data.antt =====
-- Inputs that the examples share: a comment of internal/core with a reply and a reaction.
use octo_docs_html_fork.Prelude.{true, false, ◌+◌, none, some, [], ◌∷◌}
use octo_docs_html_fork.Prelude.Int.{pos}
use octo_docs_html_fork.World.{World}
use octo_docs_html_fork.Types.{
  Author, Anchor, AnchorKind, EventKind, CommentEvent, zero_event, Comment, CommentSnapshot,
  StampedArtifact,
}
use octo_docs_html_fork.Ops.Types.{OpKind, CommentOp}
use octo_docs_html_fork.Reconcile.Text.{CaseTable}

abbrev pub start : World
start = record {
  counter = 0;
  drawn = 0;
  others = λ n. 0;
  reads = 0;
  micros = λ n. 1000 + n;
  iso = λ n. "2026-01-01T00:00:00.000Z";
}

abbrev pub bob : Author
bob = record { login = "bob"; name = ""; avatar_url = none; kind = "" }

abbrev pub created : CommentEvent
created = record (zero_event EventKind.created (pos 1) "t0") { eid = "c0"; text = "hello" }

abbrev pub edited : CommentEvent
edited = record (zero_event EventKind.text_edited (pos 3) "t3") { eid = "e3"; text = "later" }

abbrev pub applied : CommentEvent
applied = record (zero_event EventKind.marked_applied (pos 2) "t2") { eid = "marked_applied:2" }

abbrev pub thumb : CommentEvent
thumb = record (zero_event EventKind.reaction_added (pos 1) "t1") {
  eid = "reaction_added:👍:bob";
  emoji = "👍";
  by = "bob";
}

abbrev pub comment : Comment
comment = record {
  id = "c";
  author = some bob;
  created = "t0";
  created_in = pos 1;
  events = some (created ∷ thumb ∷ applied ∷ []);
  version = none;
  anchor = none;
  text = none;
  status = "";
  applied_in = none;
  replies = [];
  reactions = [];
}

-- a record of the time before event logs
abbrev pub legacy : Comment
legacy = record comment {
  id = "old";
  events = none;
  text = some "flat";
  status = "applied";
  reactions = ("👍", "bob" ∷ []) ∷ [];
}

abbrev pub react : CommentOp
react = record {
  kind = OpKind.react;
  at = "t9";
  id = "";
  author = none;
  text = "";
  anchor = none;
  parent_id = "";
  reply_id = "";
  reset_status = false;
  actor = "";
  comment_id = "c";
  emoji = "🎉";
  by = "eve";
  events = [];
  response_body = none;
  local_comments = [];
  aids = [];
  pinned_aid = "";
  pinned_tag = "";
  anchor_migrations = [];
  version = pos 2;
}

-- Case folding that is the identity.
abbrev pub plain : CaseTable
plain = record { lower = λ c. c; same_fold = λ c d. true }

abbrev pub figure : StampedArtifact
figure = record { aid = "f1"; tag = "figure"; head = ""; heading = none; legacy_aids = "f0" ∷ [] }

abbrev pub drifted_anchor : Anchor
drifted_anchor = record {
  kind = AnchorKind.element;
  text = "";
  context_before = "";
  context_after = "";
  aid = "f0";
  selector = "";
  label = "";
  reason = "";
  fingerprint = none;
  fallback = none;
}

-- the comment as of version 2
abbrev pub shown : CommentSnapshot
shown = record {
  id = "c";
  author = some bob;
  created = "t0";
  created_in = pos 1;
  version = pos 1;
  anchor = none;
  text = "hello";
  status = "applied";
  applied_in = some (pos 2);
  replies = [];
  reactions = ("👍", "bob" ∷ []) ∷ ("✅", "odoc-agent" ∷ []) ∷ [];
  deleted = false;
}
