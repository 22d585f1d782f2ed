-- ===== src/Docs/Removal.antt =====
-- RemoveAuthorized of internal/service/doc.go, up to what it tells other services.
use octo_docs_html_fork.Prelude.{
  String, Bool, true, not, ◌||◌, Option, none, some, List, [], ◌∷◌, ◌==◌, if◌then◌else◌,
}
use octo_docs_html_fork.Prelude.Dict.{get}
use octo_docs_html_fork.World.{M, ◌>>=◌, pure}
use octo_docs_html_fork.Reconcile.Text.{CaseTable}
use octo_docs_html_fork.Storage.Meta.{
  DocMeta, publish_provenance, creator_uid, extra_of, text_or_empty,
}
use octo_docs_html_fork.Storage.State.{Store, AssetMeta}
use octo_docs_html_fork.Storage.Tables.{get_meta, delete_meta, list_asset_meta, delete_asset_meta}
use octo_docs_html_fork.Storage.Blobs.{delete_doc}
use octo_docs_html_fork.Comments.Service.{wipe}
use octo_docs_html_fork.Docs.Input.{Fault, PublishProvenance, trim_space}
use octo_docs_html_fork.Docs.Drafts.{registration_state}

-- the document id of DocsBackendRegistration()
unfoldable pub registered_id : DocMeta → String
unfolding extra_of text_or_empty trim_space
registered_id m = trim_space (text_or_empty (get (extra_of (some m)) "docs_backend_doc_id"))

-- Why a document of a user is not removed here; `none` where it is.
unfoldable pub refusal : DocMeta → Option (PublishProvenance → Bool) → Option Fault
unfolding publish_provenance creator_uid registration_state registered_id
refusal m authorize = elim authorize [
  | none ↦ some Fault.membership_required
  | some allow ↦
      if not (
        allow (record {
          user_publish = true;
          space_id = (publish_provenance (some m)).space_id;
          creator_uid = creator_uid (some m);
        }))
      then some Fault.refused
      else if not (registration_state m == "local_only") || not (registered_id m == "")
      then some Fault.delete_via_backend
      else none
]

-- the checks, where there is metadata
unfoldable pub check_removal : Option DocMeta → Option (PublishProvenance → Bool) → Option Fault
unfolding refusal publish_provenance
check_removal none authorize = none
check_removal (some m) authorize =
    if (publish_provenance (some m)).user_publish then refusal m authorize else none

-- for _, a := range assets
unfoldable pub delete_assets : Store → String → List AssetMeta → Store
unfolding delete_asset_meta
delete_assets s slug [] = s
delete_assets s slug (a ∷ more) = delete_assets (delete_asset_meta s slug a.sha256) slug more

unfoldable pub purge_slug : CaseTable → Store → String → M Store
unfolding delete_doc delete_assets list_asset_meta delete_meta wipe
purge_slug u s slug = do
  let purged = delete_doc s slug
  let bare = delete_meta (delete_assets purged slug (list_asset_meta purged slug)) slug
  wiped ← wipe u bare slug
  pure wiped.1

unfoldable pub remove_checked : CaseTable → Option Fault → Store → String → M (Option Fault × Store)
unfolding purge_slug
remove_checked u (some fault) s slug = pure (some fault, s)
remove_checked u none s slug = do gone ← purge_slug u s slug; pure (none, gone)

unfoldable pub remove_found :
    CaseTable
    → Option (Option DocMeta)
    → Store
    → String
    → Option (PublishProvenance → Bool)
    → M (Option Fault × Store)
unfolding remove_checked check_removal
remove_found u none s slug authorize = pure (some Fault.panicked, s)
remove_found u (some m) s slug authorize = remove_checked u (check_removal m authorize) s slug

-- RemoveAuthorized
unfoldable pub remove_authorized :
    CaseTable → Store → String → Option (PublishProvenance → Bool) → M (Option Fault × Store)
unfolding remove_found get_meta
remove_authorized u s slug authorize = remove_found u (get_meta s slug) s slug authorize
