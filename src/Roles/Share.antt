-- ===== src/Roles/Share.antt =====
-- Share codes, of internal/service/capability.go. sha256 in hexadecimal is a parameter `hash`, of
-- which nothing is assumed here; constantTimeEqual is equality of texts. A read of the metadata that
-- reports an error is not modelled.
use octo_docs_html_fork.Prelude.{String, Option, none, some, ◌==◌, is_empty, if◌then◌else◌}
use octo_docs_html_fork.Prelude.Dict.{Dict, get, put, remove}
use octo_docs_html_fork.Roles.Capability.{Capability}
use octo_docs_html_fork.Storage.Value.{Value, Fields, field_at}
use octo_docs_html_fork.Storage.Meta.{DocMeta, extra_of, text_or_empty}

-- h, _ := share["code_hash"].(string), where share is an object
unfoldable pub hash_in : Option Value → String
hash_in (some (Value.object share)) = text_or_empty (field_at share "code_hash")
hash_in _ = ""

unfoldable pub share_code_hash : Option DocMeta → String
unfolding hash_in extra_of
share_code_hash m = hash_in (get (extra_of m) "share")

-- CapabilityFor, on the metadata that it reads
unfoldable pub capability_for : (String → String) → Option DocMeta → String → Capability
capability_for hash m cred =
    let want = share_code_hash m in
    if cred == ""
    then Capability.cap_none
    else if want == ""
    then Capability.cap_none
    else if hash cred == want
    then Capability.cap_read
    else Capability.cap_none

abbrev pub share_value : String → String → Value
share_value code_hash now = Value.object (
    Fields.field "code_hash" (Value.text code_hash)
      (Fields.field "created_at" (Value.text now) Fields.no_fields))

-- GenerateCode for the code `code` at time `now`; `none` is NotFound
unfoldable pub generate_code : (String → String) → Option DocMeta → String → String → Option DocMeta
generate_code hash none code now = none
generate_code hash (some m) code now =
    some (record m { extra = some (put (extra_of (some m)) "share" (share_value (hash code) now)) })

unfoldable pub nil_if_empty : Dict Value → Option (Dict Value)
nil_if_empty d = if is_empty d then none else some d

-- The metadata without the share code.
unfoldable pub without_code : Option Value → DocMeta → DocMeta
without_code none m = m
without_code (some _) m = record m { extra = nil_if_empty (remove (extra_of (some m)) "share") }

-- RevokeCode; `none` is NotFound
unfoldable pub revoke_code : Option DocMeta → Option DocMeta
unfolding without_code
revoke_code none = none
revoke_code (some m) = some (without_code (get (extra_of (some m)) "share") m)
