-- ===== src/Docs/Metadata.antt =====
-- What upsertMeta of internal/service/doc.go writes to the metadata of a document.
use octo_docs_html_fork.Prelude.{
  String, Bool, true, false, not, ◌&&◌, ◌||◌, Option, none, some, List, [], ◌∷◌, ◌++◌, ◌==◌,
  if◌then◌else◌,
}
use octo_docs_html_fork.Prelude.Dict.{Dict, put}
use octo_docs_html_fork.Prelude.Int.{ℤ, eqb_ℤ, ltb_ℤ}
use octo_docs_html_fork.Storage.Value.{Value}
use octo_docs_html_fork.Storage.Meta.{VersionRef, DocMeta, extra_of, creator_uid}
use octo_docs_html_fork.Storage.State.{Store}
use octo_docs_html_fork.Storage.Tables.{put_meta}
use octo_docs_html_fork.Docs.Input.{PublishInput, trim_space}

pub record PublishMetaResult : Type 0 where
  pub title : String
  pub had_meta : Bool
  pub title_changed : Bool

unfoldable pub has_version : List VersionRef → ℤ → Bool
has_version [] version = false
has_version (v ∷ vs) version = eqb_ℤ v.n version || has_version vs version

-- The inner loop: a reference moves left past those of later versions.
unfoldable pub insert_ref : VersionRef → List VersionRef → List VersionRef
insert_ref r [] = r ∷ []
insert_ref r (v ∷ vs) =
    let later = v ∷ insert_ref r vs in if ltb_ℤ r.n v.n then r ∷ v ∷ vs else later

unfoldable pub sort_onto : List VersionRef → List VersionRef → List VersionRef
unfolding insert_ref
sort_onto sorted [] = sorted
sort_onto sorted (v ∷ vs) = sort_onto (insert_ref v sorted) vs

unfoldable pub sort_versions : List VersionRef → List VersionRef
unfolding sort_onto
sort_versions vs = sort_onto [] vs

-- in.mountContextKnown
unfoldable pub with_mount : PublishInput → Dict Value → Dict Value
with_mount input extra =
    if input.mount_context_known
    then put
        (put (put extra "mount_type" (Value.text input.mount_type)) "group_no"
          (Value.text input.group_no))
        "thread_id" (Value.text input.thread_id)
    else extra

-- in.UserPublish
unfoldable pub with_user : PublishInput → ℤ → Dict Value → Dict Value
with_user input version extra =
    if input.user_publish
    then put
        (put
          (put (put extra "user_publish" (Value.bool true)) "space_id" (Value.text input.space_id))
          "docs_backend_registration_state" (Value.text "pending"))
        "docs_backend_registration_version" (Value.number version)
    else extra

-- in.CreatorUID != "" && prev.CreatorUID() == ""
unfoldable pub sets_creator : PublishInput → DocMeta → Bool
unfolding creator_uid
sets_creator input prev = not (input.creator_uid == "") && creator_uid (some prev) == ""

unfoldable pub with_owner : PublishInput → DocMeta → Dict Value → Dict Value
unfolding sets_creator
with_owner input prev extra =
    if sets_creator input prev
    then put extra "creator_uid" (Value.text input.creator_uid)
    else extra

unfoldable pub published_extra : PublishInput → DocMeta → ℤ → Option (Dict Value)
unfolding with_mount with_user with_owner sets_creator extra_of
published_extra input prev version =
    if input.mount_context_known || input.user_publish || sets_creator input prev
    then some
        (with_owner input prev (with_user input version (with_mount input (extra_of (some prev)))))
    else prev.extra

unfoldable pub published_versions : List VersionRef → ℤ → String → List VersionRef
unfolding has_version sort_versions
published_versions vs version created = sort_versions (
    if has_version vs version
    then vs
    else vs ++ record { n = version; created = some created } ∷ [])

-- a nil slice is empty
abbrev pub refs_of : DocMeta → List VersionRef
refs_of m = elim m.versions [ none ↦ [] | some vs ↦ vs ]

unfoldable pub published_title : PublishInput → DocMeta → String
published_title input prev =
    let title = if input.title == "" then prev.title else input.title in
    if title == "" then input.slug else title

-- &storage.DocMeta{…}, where there is none
abbrev pub new_meta : String → DocMeta
new_meta slug = record { slug = slug; title = slug; versions = some []; extra = none }

-- what upsertMeta writes
unfoldable pub published_meta : PublishInput → DocMeta → ℤ → String → DocMeta
unfolding published_versions published_title published_extra
published_meta input prev version created = record {
  slug = input.slug;
  title = published_title input prev;
  versions = some (published_versions (refs_of prev) version created);
  extra = published_extra input prev version;
}

unfoldable pub upserted_meta :
    Option Store → Bool → PublishInput → DocMeta → Option (PublishMetaResult × Store)
unfolding published_title trim_space
upserted_meta none had_meta input prev = none
upserted_meta (some s) had_meta input prev =
    let title = published_title input prev in
    some (
      record {
        title = title;
        had_meta = had_meta;
        title_changed = had_meta && not (trim_space prev.title == "") && not (prev.title == title);
      },
      s,
    )

-- upsertMeta, where GetMeta has answered; `none` is a panic of the store.
unfoldable pub upsert_meta :
    Option (Option DocMeta) → Store → PublishInput → ℤ → String → Option (PublishMetaResult × Store)
unfolding published_meta upserted_meta put_meta
upsert_meta none s input version created = none
upsert_meta (some none) s input version created =
    let prev = new_meta input.slug in
    upserted_meta (put_meta s input.slug (published_meta input prev version created)) false input
      prev
upsert_meta (some (some prev)) s input version created =
    upserted_meta (put_meta s input.slug (published_meta input prev version created)) true input
      prev
