-- ===== src/Storage/Meta.antt =====
-- DocMeta and its accessors, of internal/storage/store.go. An accessor on a nil `Extra` answers as on
-- an empty one, and on a nil pointer to the metadata too: there the argument is `none`.
use octo_docs_html_fork.Prelude.{
  String, Bool, true, false, Option, none, some, List, [], ◌==◌, if◌then◌else◌,
}
use octo_docs_html_fork.Prelude.Dict.{Dict, get}
use octo_docs_html_fork.Prelude.Int.{ℤ}
use octo_docs_html_fork.Storage.Value.{Value, Fields, field_at, as_text, as_object}

pub record VersionRef : Type 0 where
  pub n : ℤ
  pub created : Option String

-- `versions` and `extra` are `none` where the Go slice or map is nil.
pub record DocMeta : Type 0 where
  pub slug : String
  pub title : String
  pub versions : Option (List VersionRef)
  pub extra : Option (Dict Value)

-- the guard `m == nil || m.Extra == nil`
unfoldable pub extra_of : Option DocMeta → Dict Value
extra_of none = []
extra_of (some m) = elim m.extra [ none ↦ [] | some d ↦ d ]

-- the string under a key, "" where it is missing or no string
unfoldable pub text_or_empty : Option Value → String
unfolding as_text
text_or_empty none = ""
text_or_empty (some v) = elim (as_text v) [ none ↦ "" | some s ↦ s ]

unfoldable pub creator_uid : Option DocMeta → String
unfolding extra_of text_or_empty
creator_uid m = text_or_empty (get (extra_of m) "creator_uid")

unfoldable pub mount_type : Option DocMeta → String × Bool
unfolding extra_of as_text
mount_type m = elim (get (extra_of m) "mount_type") [
  | none ↦ ("", false)
  | some v ↦ elim (as_text v) [ none ↦ ("", false) | some s ↦ (s, true) ]
]

unfoldable pub as_flag : Option Value → Bool
as_flag (some (Value.bool b)) = b
as_flag _ = false

pub record Provenance : Type 0 where
  pub user_publish : Bool
  pub space_id : String
  pub group_no : String
  pub thread_id : String

unfoldable pub publish_provenance : Option DocMeta → Provenance
unfolding extra_of text_or_empty as_flag
publish_provenance m = record {
  user_publish = as_flag (get (extra_of m) "user_publish");
  space_id = text_or_empty (get (extra_of m) "space_id");
  group_no = text_or_empty (get (extra_of m) "group_no");
  thread_id = text_or_empty (get (extra_of m) "thread_id");
}

-- v.(map[string]any)["role"].(string)
unfoldable pub role_of_entry : Option Value → String
unfolding field_at as_object text_or_empty
role_of_entry none = ""
role_of_entry (some v) = elim (as_object v) [
  | none ↦ ""
  | some entry ↦ text_or_empty (field_at entry "role")
]

unfoldable pub role_in : Fields → String → String
unfolding field_at role_of_entry
role_in grants uid = role_of_entry (field_at grants uid)

-- the map of the grants, if there is one
unfoldable pub grants_of : Option DocMeta → Option Fields
unfolding extra_of as_object
grants_of m = elim (get (extra_of m) "grants") [ none ↦ none | some v ↦ as_object v ]

unfoldable pub grant_role : Option DocMeta → String → String
unfolding grants_of role_in
grant_role m uid =
    if uid == "" then "" else elim (grants_of m) [ none ↦ "" | some grants ↦ role_in grants uid ]

unfoldable pub has_draft : Option DocMeta → Bool
unfolding extra_of
has_draft m = elim (get (extra_of m) "draft") [ none ↦ false | some _ ↦ true ]
