-- ===== src/Storage/Value.antt =====
-- The JSON values that the open part of a document's metadata holds (internal/storage/store.go).
-- A number that is not whole is carried as its text.
use octo_docs_html_fork.Prelude.{String, Bool, Option, none, some, ◌==◌, if◌then◌else◌}
use octo_docs_html_fork.Prelude.Int.{ℤ}

mutual
  pub data Value : Type 0 where
    null : Value
    bool : Bool → Value
    number : ℤ → Value
    fraction : String → Value
    text : String → Value
    array : Values → Value
    object : Fields → Value

  pub data Values : Type 0 where
    no_values : Values
    value : Value → Values → Values

  pub data Fields : Type 0 where
    no_fields : Fields
    field : String → Value → Fields → Fields

-- m[k] on a nested object, with the comma-ok form's flag
unfoldable pub field_at : Fields → String → Option Value
field_at Fields.no_fields k = none
field_at (Fields.field j v fs) k = if j == k then some v else field_at fs k

-- v.(string), with the flag
unfoldable pub as_text : Value → Option String
as_text (Value.text s) = some s
as_text _ = none

-- v.(map[string]any), with the flag
unfoldable pub as_object : Value → Option Fields
as_object (Value.object fs) = some fs
as_object _ = none
