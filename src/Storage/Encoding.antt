-- ===== src/Storage/Encoding.antt =====
-- DocMeta.MarshalJSON and UnmarshalJSON of internal/storage/docmeta.go, between the record and the
-- fields of a JSON object. A decoding that reports an error is `none`. The decoder of encoding/json
-- also takes a field of a version whose name differs in case, which the encoder never writes: not
-- modelled.
use octo_docs_html_fork.Prelude.{String, Option, none, some, List, [], ◌∷◌, is_empty, if◌then◌else◌}
use octo_docs_html_fork.Prelude.Dict.{Dict, get, put, remove}
use octo_docs_html_fork.Prelude.Int.{ℤ, pos}
use octo_docs_html_fork.Storage.Value.{Value, Values, Fields, field_at}
use octo_docs_html_fork.Storage.Float.{decode_dict}
use octo_docs_html_fork.Storage.Meta.{VersionRef, DocMeta}

unfoldable pub encode_ref : VersionRef → Value
encode_ref r = Value.object (
    Fields.field "n" (Value.number r.n) (elim r.created [
      | none ↦ Fields.no_fields
      | some t ↦ Fields.field "created" (Value.text t) Fields.no_fields
    ]))

unfoldable pub encode_refs : List VersionRef → Values
encode_refs [] = Values.no_values
encode_refs (r ∷ rs) = Values.value (encode_ref r) (encode_refs rs)

unfoldable pub encode_versions : Option (List VersionRef) → Value
unfolding encode_refs
encode_versions none = Value.null
encode_versions (some rs) = Value.array (encode_refs rs)

-- A missing key and null leave the zero value.
unfoldable pub decode_number : Option Value → Option ℤ
decode_number none = some (pos 0)
decode_number (some Value.null) = some (pos 0)
decode_number (some (Value.number z)) = some z
decode_number (some _) = none

unfoldable pub decode_created : Option Value → Option (Option String)
decode_created none = some none
decode_created (some Value.null) = some none
decode_created (some (Value.text t)) = some (some t)
decode_created (some _) = none

unfoldable pub decode_ref : Value → Option VersionRef
unfolding field_at decode_number decode_created
decode_ref Value.null = some (record { n = pos 0; created = none })
decode_ref (Value.object fs) = elim (decode_number (field_at fs "n")) [
  | none ↦ none
  | some n ↦ elim (decode_created (field_at fs "created")) [
    | none ↦ none
    | some created ↦ some (record { n = n; created = created })
  ]
]
decode_ref _ = none

unfoldable pub decode_refs : Values → Option (List VersionRef)
unfolding decode_ref
decode_refs Values.no_values = some []
decode_refs (Values.value v vs) =
    let rest = decode_refs vs in
    elim (decode_ref v) [
      | none ↦ none
      | some r ↦ elim rest [ none ↦ none | some rs ↦ some (r ∷ rs) ]
    ]

unfoldable pub decode_versions : Option Value → Option (Option (List VersionRef))
unfolding decode_refs
decode_versions none = some none
decode_versions (some Value.null) = some none
decode_versions (some (Value.array vs)) = elim (decode_refs vs) [
  | none ↦ none
  | some rs ↦ some (some rs)
]
decode_versions (some _) = none

unfoldable pub decode_text : Option Value → Option String
decode_text none = some ""
decode_text (some Value.null) = some ""
decode_text (some (Value.text s)) = some s
decode_text (some _) = none

-- maps.Copy(out, m.Extra) and the three known fields
unfoldable pub marshal : DocMeta → Dict Value
unfolding encode_versions
marshal m =
    let out : Dict Value = elim m.extra [ none ↦ [] | some d ↦ d ] in
    put (put (put out "slug" (Value.text m.slug)) "title" (Value.text m.title)) "versions"
      (encode_versions m.versions)

-- the fields but the three known ones, each decoded into an `any`; an empty rest leaves a nil map
unfoldable pub collect_extra : Dict Value → Option (Dict Value)
unfolding decode_dict
collect_extra raw =
    let rest = decode_dict (remove (remove (remove raw "slug") "title") "versions") in
    if is_empty rest then none else some rest

-- the receiver, if none of the three decodings reports an error
unfoldable pub assemble :
    Option String
    → Option String
    → Option (Option (List VersionRef))
    → Option (Dict Value)
    → Option DocMeta
assemble (some slug) (some title) (some versions) extra =
    some (record { slug = slug; title = title; versions = versions; extra = extra })
assemble _ _ _ extra = none

unfoldable pub unmarshal : Dict Value → Option DocMeta
unfolding decode_text decode_versions collect_extra assemble
unmarshal raw =
    assemble (decode_text (get raw "slug")) (decode_text (get raw "title"))
      (decode_versions (get raw "versions")) (collect_extra raw)
