-- ===== src/Ops/Types.antt =====
-- OpResult and CommentOp of internal/core/ops.go.
use octo_docs_html_fork.Prelude.{ℕ, String, Bool, Option, List}
use octo_docs_html_fork.Prelude.Dict.{Dict}
use octo_docs_html_fork.Prelude.Int.{ℤ}
use octo_docs_html_fork.Types.{
  Author, Anchor, CommentEvent, Comment, CommentSnapshot, Reactions, StampedArtifact,
}

-- The shapes of OpResult.Body. `crash` is no body: it stands for a read through a nil snapshot.
pub data Body : Type 0 where
  error : String → Body
  snapshot : Option CommentSnapshot → Body
  reply_view : String → String → Option Author → String → String → ℤ → Body
  reacted : Reactions → Body
  ok : Body
  wiped : ℕ → Body
  merged : ℕ → Body
  response : String → Body
  crash : Body

pub record OpResult : Type 0 where
  pub status : ℕ
  pub body : Body
  pub wipe : Bool

pub data OpKind : Type 0 where
  create reply patch_anchor react delete raw_events wipe publish_merge : OpKind
  unknown : String → OpKind

-- `response_body` is the text of an arbitrary JSON value.
pub record CommentOp : Type 0 where
  pub kind : OpKind
  pub at : String
  pub id : String
  pub author : Option Author
  pub text : String
  pub anchor : Option Anchor
  pub parent_id : String
  pub reply_id : String
  pub reset_status : Bool
  pub actor : String
  pub comment_id : String
  pub emoji : String
  pub by : String
  pub events : List CommentEvent
  pub response_body : Option String
  pub local_comments : List Comment
  pub aids : List StampedArtifact
  pub pinned_aid : String
  pub pinned_tag : String
  pub anchor_migrations : Dict String
  pub version : ℤ
