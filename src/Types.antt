-- ===== src/Types.antt =====
-- internal/core/types.go: the comment event log and its point-in-time views.
-- A pointer that may be nil is an `Option`, an int is a `ℤ`. A string that discriminates a variant
-- is a data type with a constructor for each value the code names, and `unknown` for any other.
-- The float64 `ratio` and the raw JSON of a response are carried as their text: no code in this
-- package computes with them.
use octo_docs_html_fork.Prelude.{String, Bool, Option, none, some, List, []}
use octo_docs_html_fork.Prelude.Int.{ℤ}
use octo_docs_html_fork.Prelude.Dict.{Dict}

pub record Author : Type 0 where
  pub login : String
  pub name : String
  pub avatar_url : Option String
  pub kind : String

pub record AnchorFallback : Type 0 where
  pub nearest_heading : Option String
  pub ratio : Option String

pub record AnchorFingerprint : Type 0 where
  pub tag : String

-- Anchor.Kind
pub data AnchorKind : Type 0 where
  text element lost : AnchorKind
  unknown : String → AnchorKind

pub record Anchor : Type 0 where
  pub kind : AnchorKind
  pub text : String
  pub context_before : String
  pub context_after : String
  pub aid : String
  pub selector : String
  pub label : String
  pub reason : String
  pub fingerprint : Option AnchorFingerprint
  pub fallback : Option AnchorFallback

pub record ReplySeed : Type 0 where
  pub id : String
  pub author : Option Author
  pub text : String
  pub agent_status : String

-- CommentEvent.Kind
pub data EventKind : Type 0 where
  created text_edited anchor_changed : EventKind
  marked_applied marked_open deleted : EventKind
  reaction_added reaction_removed : EventKind
  reply_added reply_text_edited reply_deleted : EventKind
  reply_reaction_added reply_reaction_removed : EventKind
  unknown : String → EventKind

pub record CommentEvent : Type 0 where
  pub kind : EventKind
  pub eid : String
  pub at_version : ℤ
  pub at : String
  pub anchor : Option Anchor
  pub reset_status : Option Bool
  pub text : String
  pub applied_in : Option ℤ
  pub by : String
  pub agent_status : String
  pub emoji : String
  pub reply : Option ReplySeed
  pub reply_id : String

-- A composite literal sets the fields it names; the others are zero values.
abbrev pub zero_event : EventKind → ℤ → String → CommentEvent
zero_event kind at_version at = record {
  kind = kind;
  eid = "";
  at_version = at_version;
  at = at;
  anchor = none;
  reset_status = none;
  text = "";
  applied_in = none;
  by = "";
  agent_status = "";
  emoji = "";
  reply = none;
  reply_id = "";
}

-- emoji to the logins that reacted
abbrev pub Reactions : Type 0
Reactions = Dict (List String)

-- rawReply of events.go, the shape in which a legacy reply is decoded
pub record RawReply : Type 0 where
  pub id : String
  pub author : Option Author
  pub text : String
  pub agent_status : String
  pub version : Option ℤ
  pub created : String
  pub reactions : Reactions

-- `events` is `none` where the Go slice is nil. Of a raw legacy reply the model holds the outcome
-- of its decoding: `none` where json.Unmarshal reports an error.
pub record Comment : Type 0 where
  pub id : String
  pub author : Option Author
  pub created : String
  pub created_in : ℤ
  pub events : Option (List CommentEvent)
  pub version : Option ℤ
  pub anchor : Option Anchor
  pub text : Option String
  pub status : String
  pub applied_in : Option ℤ
  pub replies : List (Option RawReply)
  pub reactions : Reactions

pub record ReplySnapshot : Type 0 where
  pub id : String
  pub parent_id : String
  pub author : Option Author
  pub text : String
  pub agent_status : Option String
  pub created : String
  pub reactions : Reactions
  pub deleted : Bool

pub record CommentSnapshot : Type 0 where
  pub id : String
  pub author : Option Author
  pub created : String
  pub created_in : ℤ
  pub version : ℤ
  pub anchor : Option Anchor
  pub text : String
  pub status : String
  pub applied_in : Option ℤ
  pub replies : List ReplySnapshot
  pub reactions : Reactions
  pub deleted : Bool

pub record StampedArtifact : Type 0 where
  pub aid : String
  pub tag : String
  pub head : String
  pub heading : Option String
  pub legacy_aids : List String

-- len(c.Events), ranged over: a nil slice is empty
abbrev pub log : Comment → List CommentEvent
log c = elim c.events [ none ↦ [] | some es ↦ es ]
