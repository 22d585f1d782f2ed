-- ===== src/Docs/Reading.antt =====
-- The reads of internal/service/doc.go. The outer `none` is a panic of the store, and an inner one
-- Go's nil.
use octo_docs_html_fork.Prelude.{
  String, Option, none, some, List, [], ◌∷◌, ◌==◌, is_empty, if◌then◌else◌,
}
use octo_docs_html_fork.Prelude.Int.{ℤ, pos, eqb_ℤ, ltb_ℤ}
use octo_docs_html_fork.Storage.Meta.{VersionRef, DocMeta}
use octo_docs_html_fork.Storage.State.{Store, MetaEntry}
use octo_docs_html_fork.Storage.Tables.{get_meta, list_meta}
use octo_docs_html_fork.Storage.Blobs.{get_doc, get_draft, head_doc, list_versions}
use octo_docs_html_fork.Docs.Input.{Fault, Attempt}
use octo_docs_html_fork.Docs.Metadata.{refs_of}
use octo_docs_html_fork.Docs.Publish.{max_version}

unfoldable pub resolve_read_version : Store → String → ℤ → Attempt ℤ
unfolding max_version list_versions
resolve_read_version s slug explicit =
    let latest = max_version (pos 0) (list_versions s slug) in
    if ltb_ℤ (pos 0) explicit
    then Attempt.done explicit
    else if eqb_ℤ latest (pos 0)
    then Attempt.failed Fault.not_found
    else Attempt.done latest

pub record RenderData : Type 0 where
  pub html : String
  pub versions : List VersionRef
  pub title : String

unfoldable pub rendered : Option (Option DocMeta) → String → Option (Option RenderData)
rendered none html = none
rendered (some none) html = some (some (record { html = html; versions = []; title = "" }))
rendered (some (some m)) html =
    some (some (record { html = html; versions = refs_of m; title = m.title }))

unfoldable pub render : Store → String → ℤ → Option (Option RenderData)
unfolding rendered get_doc get_meta
render s slug version = elim (get_doc s slug version) [
  | none ↦ some none
  | some html ↦ rendered (get_meta s slug) html
]

-- GetDraft
unfoldable pub render_draft : Store → String → Option (Option RenderData)
unfolding rendered get_draft get_meta
render_draft s slug = elim (get_draft s slug) [
  | none ↦ some none
  | some html ↦ rendered (get_meta s slug) html
]

pub record VersionList : Type 0 where
  pub slug : String
  pub title : String
  pub versions : List VersionRef

unfoldable pub bare_refs : List ℤ → List VersionRef
bare_refs [] = []
bare_refs (n ∷ ns) = record { n = n; created = none } ∷ bare_refs ns

-- the references and the title of the metadata, where it has a reference
unfoldable pub versions_of : DocMeta → String → List ℤ → VersionList
unfolding bare_refs
versions_of m slug stored =
    if is_empty (refs_of m)
    then record { slug = slug; title = slug; versions = bare_refs stored }
    else record {
      slug = slug;
      title = if m.title == "" then slug else m.title;
      versions = refs_of m;
    }

unfoldable pub listed_versions :
    Option (Option DocMeta) → String → List ℤ → Option (Option VersionList)
unfolding versions_of bare_refs
listed_versions none slug stored = none
listed_versions (some none) slug stored = some (
    if is_empty stored
    then none
    else some (record { slug = slug; title = slug; versions = bare_refs stored }))
listed_versions (some (some m)) slug stored = some (some (versions_of m slug stored))

-- ListVersions
unfoldable pub doc_versions : Store → String → Option (Option VersionList)
unfolding listed_versions get_meta list_versions
doc_versions s slug = listed_versions (get_meta s slug) slug (list_versions s slug)

pub record OwnerDoc : Type 0 where
  pub slug : String
  pub title : String
  pub latest : ℤ
  pub latest_created : Option String

-- the last of the references, version 1 where there is none
unfoldable pub last_ref : List VersionRef → VersionRef
last_ref [] = record { n = pos 1; created = none }
last_ref (v ∷ []) = v
last_ref (v ∷ w ∷ vs) = last_ref (w ∷ vs)

unfoldable pub owner_docs : Store → List MetaEntry → List OwnerDoc
unfolding last_ref head_doc
owner_docs s [] = []
owner_docs s (e ∷ es) =
    let rest = owner_docs s es in
    let latest = last_ref (refs_of e.meta) in
    elim (head_doc s e.slug latest.n) [
      | none ↦ rest
      | some _ ↦
          record {
            slug = e.slug;
            title = if e.meta.title == "" then e.slug else e.meta.title;
            latest = latest.n;
            latest_created = latest.created;
          }
          ∷ rest
    ]

unfoldable pub list_all_for_owner : Store → Option (List OwnerDoc)
unfolding owner_docs list_meta
list_all_for_owner s = elim (list_meta s) [ none ↦ none | some es ↦ some (owner_docs s es) ]
