-- ===== src/Grants/Copies.antt =====
-- What cloneJSON keeps of the open part of metadata (internal/storage/memory/memory.go).
use octo_docs_html_fork.Prelude.{
  String, false, ◌≡◌, refl, ap, ◌∙◌, Option, none, some, [], ◌==◌, ◌∷◌, is_empty, if◌then◌else◌,
}
use octo_docs_html_fork.Prelude.Dict.{Dict, get, put, get-put, remove, get-remove}
use octo_docs_html_fork.Storage.Value.{Value, Fields, as_object, as_text}
use octo_docs_html_fork.Storage.Float.{
  decode_any, decode_fields, decode_dict, decoded, get-decode_dict,
}
use octo_docs_html_fork.Storage.Meta.{
  DocMeta, extra_of, text_or_empty, as_flag, creator_uid, grants_of,
}
use octo_docs_html_fork.Storage.Encoding.{
  marshal, unmarshal, collect_extra, assemble, decode_text, decode_versions,
}
use octo_docs_html_fork.Storage.Stored.{
  get-marshal_slug, get-marshal_title, get-marshal_versions, decode_versions-encode_versions,
}
use octo_docs_html_fork.Storage.State.{Store}
use octo_docs_html_fork.Storage.Tables.{
  clone_meta, get_meta, put_meta, store_meta, copy_out, pointer,
}

-- the copy
abbrev pub copied : DocMeta → DocMeta
copied m = record m { extra = collect_extra (marshal m) }

-- cloneJSON does not panic on metadata.
pub clone_meta-copied : (m : DocMeta) → clone_meta m ≡ some (copied m)
unfolding clone_meta unmarshal decode_text assemble
clone_meta-copied m = λ i.
    assemble (decode_text (get-marshal_slug m i)) (decode_text (get-marshal_title m i))
      ((ap decode_versions (get-marshal_versions m) ∙ decode_versions-encode_versions m.versions) i)
      (collect_extra (marshal m))

-- A name other than those of the three known fields.
pub record IsFree (k : String) : Type 0 where
  pub not_slug : ("slug" == k) ≡ false
  pub not_title : ("title" == k) ≡ false
  pub not_versions : ("versions" == k) ≡ false

module _ (k : String) (free : IsFree k) where
  pub get-nil :
      (rest : Dict Value)
      → get (elim (if is_empty rest then none else some rest) [ none ↦ [] | some d ↦ d ]) k
        ≡ get rest k
  get-nil [] = refl
  get-nil (x ∷ xs) = refl

  get-collect_extra :
      (raw : Dict Value)
      → get (elim (collect_extra raw) [ none ↦ [] | some d ↦ d ]) k ≡ decoded (get raw k)
  unfolding collect_extra
  get-collect_extra raw =
      let rest = remove (remove (remove raw "slug") "title") "versions" in
      get-nil (decode_dict rest)
      ∙ get-decode_dict rest k
      ∙ ap decoded (
          get-remove (remove (remove raw "slug") "title") "versions" k
          ∙ rw free.not_versions (
              get-remove (remove raw "slug") "title" k
              ∙ rw free.not_title (get-remove raw "slug" k ∙ rw free.not_slug refl)))

  get-marshal : (m : DocMeta) → get (marshal m) k ≡ get (extra_of (some m)) k
  unfolding marshal extra_of
  get-marshal m =
      get-put _ "versions" k _
      ∙ rw free.not_versions
          (get-put _ "title" k _ ∙ rw free.not_title (get-put _ "slug" k _ ∙ rw free.not_slug refl))

  -- A copy answers as the original, with the numbers rounded.
  pub get-copied :
      (m : DocMeta) → get (extra_of (some (copied m))) k ≡ decoded (get (extra_of (some m)) k)
  unfolding extra_of
  get-copied m = get-collect_extra (marshal m) ∙ ap decoded (get-marshal m)

pub grants-IsFree : IsFree "grants"
grants-IsFree = record { not_slug = refl; not_title = refl; not_versions = refl }

pub creator_uid-IsFree : IsFree "creator_uid"
creator_uid-IsFree = record { not_slug = refl; not_title = refl; not_versions = refl }

pub text_or_empty-decoded : (o : Option Value) → text_or_empty (decoded o) ≡ text_or_empty o
unfolding text_or_empty as_text decode_any
text_or_empty-decoded none = refl
text_or_empty-decoded (some Value.null) = refl
text_or_empty-decoded (some (Value.bool b)) = refl
text_or_empty-decoded (some (Value.number z)) = refl
text_or_empty-decoded (some (Value.fraction t)) = refl
text_or_empty-decoded (some (Value.text t)) = refl
text_or_empty-decoded (some (Value.array vs)) = refl
text_or_empty-decoded (some (Value.object fs)) = refl

pub as_flag-decoded : (o : Option Value) → as_flag (decoded o) ≡ as_flag o
unfolding as_flag decode_any
as_flag-decoded none = refl
as_flag-decoded (some Value.null) = refl
as_flag-decoded (some (Value.bool b)) = refl
as_flag-decoded (some (Value.number z)) = refl
as_flag-decoded (some (Value.fraction t)) = refl
as_flag-decoded (some (Value.text t)) = refl
as_flag-decoded (some (Value.array vs)) = refl
as_flag-decoded (some (Value.object fs)) = refl

-- the fields of an object, decoded
abbrev pub decoded_fields : Option Fields → Option Fields
decoded_fields none = none
decoded_fields (some fs) = some (decode_fields fs)

abbrev object_at : Option Value → Option Fields
object_at o = elim o as (λ _. Option Fields) [ none ↦ none | some v ↦ as_object v ]

object_at-decoded : (o : Option Value) → object_at (decoded o) ≡ decoded_fields (object_at o)
unfolding as_object decode_any
object_at-decoded none = refl
object_at-decoded (some Value.null) = refl
object_at-decoded (some (Value.bool b)) = refl
object_at-decoded (some (Value.number z)) = refl
object_at-decoded (some (Value.fraction t)) = refl
object_at-decoded (some (Value.text t)) = refl
object_at-decoded (some (Value.array vs)) = refl
object_at-decoded (some (Value.object fs)) = refl

pub grants_of-copied :
    (m : DocMeta) → grants_of (some (copied m)) ≡ decoded_fields (grants_of (some m))
unfolding grants_of as_object
grants_of-copied m =
    ap object_at (get-copied "grants" grants-IsFree m)
    ∙ object_at-decoded (get (extra_of (some m)) "grants")

pub creator_uid-copied : (m : DocMeta) → creator_uid (some (copied m)) ≡ creator_uid (some m)
unfolding creator_uid
creator_uid-copied m =
    ap text_or_empty (get-copied "creator_uid" creator_uid-IsFree m)
    ∙ text_or_empty-decoded (get (extra_of (some m)) "creator_uid")

pub copy_out-some : (m : DocMeta) → copy_out (some m) ≡ some (some (copied m))
unfolding copy_out pointer
copy_out-some m = ap pointer (clone_meta-copied m)

-- A read does not panic.
pub get_meta-found :
    (s : Store) (slug : String) (m : DocMeta)
    → get s.meta slug ≡ some m
    → get_meta s slug ≡ some (some (copied m))
unfolding get_meta
get_meta-found s slug m h = ap copy_out h ∙ copy_out-some m

-- A write does not panic, and keeps a copy.
pub put_meta-copied :
    (s : Store) (slug : String) (m : DocMeta)
    → put_meta s slug m ≡ some (record s { meta = put s.meta slug (copied m) })
unfolding put_meta store_meta
put_meta-copied s slug m = ap (λ o. store_meta o s slug) (clone_meta-copied m)
