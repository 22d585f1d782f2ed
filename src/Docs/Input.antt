-- ===== src/Docs/Input.antt =====
-- What a publish is given, and the tests on its texts (internal/service/doc.go).
use Prim.Native.Char.{Char, code}
use Prim.Native.String.{len}
use octo_docs_html_fork.Prelude.{
  String, Bool, true, not, ◌&&◌, ◌||◌, Option, List, ◌==◌, leb, eqb, if◌then◌else◌,
}
use octo_docs_html_fork.Prelude.Dict.{Dict}
use octo_docs_html_fork.Prelude.Int.{ℤ}
use octo_docs_html_fork.Types.{Comment}
use octo_docs_html_fork.Reconcile.Text.{CaseTable, to_lower}

-- The errors of the service. `panicked` is a panic of the store, `refused` the error of an authorizer.
pub data Fault : Type 0 where
  html_required html_too_large provenance_conflict space_id_invalid mount_type_invalid : Fault
  space_conflict mount_conflict refused blob_write_lost not_found membership_required : Fault
  delete_via_backend panicked : Fault

-- a result or an error
pub data Attempt {ℓ} (A : Type ℓ) : Type ℓ where
  failed : Fault → Attempt A
  done : A → Attempt A

-- the durable ownership context of a write
pub record PublishProvenance : Type 0 where
  pub user_publish : Bool
  pub space_id : String
  pub creator_uid : String

-- `authorize` answers true where the authorizer reports no error.
pub record PublishInput : Type 0 where
  pub slug : String
  pub html : String
  pub version : ℤ
  pub title : String
  pub local_comments : List Comment
  pub mount_type : String
  pub mount_type_present : Bool
  pub group_no : String
  pub thread_id : String
  pub creator_uid : String
  pub publisher_token : String
  pub space_id : String
  pub user_publish : Bool
  pub authorize_provenance : Option (PublishProvenance → Bool)
  pub mount_context_known : Bool
  pub pinned_aid : String
  pub pinned_tag : String
  pub anchor_migrations : Dict String

-- unicode.IsSpace
unfoldable pub is_space : Char → Bool
is_space c =
    let n = code c in
    (leb 9 n && leb n 13)
    || eqb n 32
    || eqb n 133
    || eqb n 160
    || eqb n 5760
    || (leb 8192 n && leb n 8202)
    || eqb n 8232
    || eqb n 8233
    || eqb n 8239
    || eqb n 8287
    || eqb n 12288

unfoldable pub trim_left : String → String
unfolding is_space
trim_left String.[] = ""
trim_left (String.◌∷◌ c s) = let rest = trim_left s in if is_space c then rest else String.◌∷◌ c s

unfoldable pub trim_right : String → String
unfolding is_space
trim_right String.[] = ""
trim_right (String.◌∷◌ c s) =
    let rest = trim_right s in if rest == "" && is_space c then "" else String.◌∷◌ c rest

-- strings.TrimSpace
unfoldable pub trim_space : String → String
unfolding trim_left trim_right
trim_space s = trim_right (trim_left s)

-- [A-Za-z0-9_-]
unfoldable pub space_id_char : Char → Bool
space_id_char c =
    let n = code c in
    (leb b'A' n && leb n b'Z')
    || (leb b'a' n && leb n b'z')
    || (leb b'0' n && leb n b'9')
    || eqb n b'_'
    || eqb n b'-'

unfoldable pub space_id_chars : String → Bool
unfolding space_id_char
space_id_chars String.[] = true
space_id_chars (String.◌∷◌ c s) = space_id_char c && space_id_chars s

-- spaceIDRe.MatchString
unfoldable pub matches_space_id : String → Bool
unfolding space_id_chars
matches_space_id s = leb 1 (len s) && leb (len s) 64 && space_id_chars s

unfoldable pub valid_space_id : String → Bool
unfolding matches_space_id trim_space
valid_space_id space_id = matches_space_id (trim_space space_id)

-- the switch over a mount type
unfoldable pub known_mount : String → Attempt String
known_mount mount =
    if mount == "" || mount == "group" || mount == "space" || mount == "thread"
    then Attempt.done mount
    else Attempt.failed Fault.mount_type_invalid

unfoldable pub normalize_mount_type : CaseTable → String → Attempt String
unfolding known_mount to_lower trim_space
normalize_mount_type u mount_type = known_mount (to_lower u (trim_space mount_type))

unfoldable pub inferred_legacy_mount : Bool → String → String → String → String
inferred_legacy_mount user_publish space_id group_no thread_id =
    if not (thread_id == "")
    then "thread"
    else if not (group_no == "")
    then "group"
    else if user_publish || not (space_id == "")
    then "space"
    else ""
