-- ===== src/Docs/Removed.antt =====
-- What RemoveAuthorized of internal/service/doc.go leaves, and what it refuses.
use octo_docs_html_fork.Prelude.{
  String, Bool, true, false, ◌≡◌, ◌≢◌, refl, sym, ap, ◌∙◌, subst, Option, none, some, List, [], ◌∷◌,
  arith, eq_iff, eq_refl, test_of_ne, Bool-cases, inl, inr, if◌then◌else◌,
}
use octo_docs_html_fork.Prelude.Dict.{Dict, get, remove, get-remove}
use octo_docs_html_fork.Prelude.Int.{ℤ}
use octo_docs_html_fork.World.{World}
use octo_docs_html_fork.Types.{Comment}
use octo_docs_html_fork.Reconcile.Text.{CaseTable}
use octo_docs_html_fork.Ops.Apply.{apply_comment_op, dispatch, op_time}
use octo_docs_html_fork.Storage.Meta.{DocMeta, publish_provenance, creator_uid}
use octo_docs_html_fork.Storage.State.{Store, AssetMeta}
use octo_docs_html_fork.Storage.Tables.{
  get_meta, copy_out, delete_meta, get_comments, delete_comments, list_asset_meta,
  delete_asset_meta,
}
use octo_docs_html_fork.Storage.Blobs.{blob_key, get_doc, draft_key, get_draft, delete_doc}
use octo_docs_html_fork.Storage.Purge.{delete_doc-IsPurged}
use octo_docs_html_fork.Comments.Service.{persist, apply_op, wipe}
use octo_docs_html_fork.Docs.Input.{Fault, PublishProvenance}
use octo_docs_html_fork.Docs.Drafts.{registration_state}
use octo_docs_html_fork.Docs.Removal.{
  registered_id, refusal, check_removal, delete_assets, purge_slug, remove_checked, remove_found,
  remove_authorized,
}

-- Nothing of the slug is found, and the metadata and the comments of every other slug are as before.
pub record IsRemoved (s : Store) (slug : String) (s' : Store) : Type 0 where
  pub no_meta : get_meta s' slug ≡ some none
  pub no_comments : get_comments s' slug ≡ []
  pub no_doc : (version : ℤ) → get_doc s' slug version ≡ none
  pub no_draft : get_draft s' slug ≡ none
  pub others :
      (other : String)
      → slug ≢ other
      → (get_meta s' other ≡ get_meta s other) × (get_comments s' other ≡ get_comments s other)

module _ {ℓ} {V : Type ℓ} (d : Dict V) (k : String) where
  removed_gone : get (remove d k) k ≡ none
  removed_gone = get-remove d k k ∙ ap (λ b. if b then none else get d k) (eq_refl k)

  removed_left : (j : String) → k ≢ j → get (remove d k) j ≡ get d j
  removed_left j differ =
      get-remove d k j ∙ ap (λ b. if b then none else get d j) (test_of_ne k j differ)

-- The rows of the assets are all that goes.
record IsBare (s s' : Store) : Type 0 where
  meta : s'.meta ≡ s.meta
  comments : s'.comments ≡ s.comments
  blobs : s'.blobs ≡ s.blobs

delete_assets-IsBare :
    (s : Store) (slug : String) (rows : List AssetMeta) → IsBare s (delete_assets s slug rows)
unfolding delete_assets delete_asset_meta
delete_assets-IsBare s slug [] = record { meta = refl; comments = refl; blobs = refl }
delete_assets-IsBare s slug (a ∷ more) =
    let rest = delete_assets-IsBare (delete_asset_meta s slug a.sha256) slug more in
    record { meta = rest.meta; comments = rest.comments; blobs = rest.blobs }

purge_slug-IsRemoved :
    (u : CaseTable) (s : Store) (slug : String) (w : World)
    → IsRemoved s slug (purge_slug u s slug w).0
unfolding purge_slug wipe apply_op persist apply_comment_op dispatch op_time delete_meta
    delete_comments get_meta get_comments get_doc get_draft copy_out
purge_slug-IsRemoved u s slug w =
    let purged = delete_doc s slug in
    let bare = delete_assets-IsBare purged slug (list_asset_meta purged slug) in
    let gone = delete_doc-IsPurged s slug in
    record {
      no_meta = ap copy_out (removed_gone _ slug);
      no_comments = ap read (removed_gone _ slug);
      no_doc = λ version. ap (λ d. get d (blob_key slug version)) bare.blobs ∙ gone.no_doc version;
      no_draft = ap (λ d. get d (draft_key slug)) bare.blobs ∙ gone.no_draft;
      others = λ other differ. (
        ap copy_out (removed_left _ slug other differ ∙ ap (λ d. get d other) bare.meta),
        ap read (removed_left _ slug other differ ∙ ap (λ d. get d other) bare.comments),
      );
    }
  where
    read : Option (List Comment) → List Comment
    read o = elim o as (λ _. List Comment) [ none ↦ [] | some cs ↦ cs ]

-- What a removal decides: a document of a user goes only where its membership has been authorized and
-- it was never registered, and any other one goes.
pub record IsDecided (s : Store) (slug : String) (m : Option DocMeta)
    (authorize : Option (PublishProvenance → Bool)) (after : Option Fault × Store) : Type 0 where
  pub refused : (fault : Fault) → after.0 ≡ some fault → after.1 ≡ s
  pub removed : after.0 ≡ none → IsRemoved s slug after.1
  pub free :
      ((meta : DocMeta) → m ≡ some meta → (publish_provenance (some meta)).user_publish ≡ false)
      → after.0 ≡ none
  pub guarded :
      (meta : DocMeta)
      → m ≡ some meta
      → (publish_provenance (some meta)).user_publish ≡ true
      → after.0 ≡ none
      → (allow : PublishProvenance → Bool) × (authorize ≡ some allow)
        × (allow (record {
          user_publish = true;
          space_id = (publish_provenance (some meta)).space_id;
          creator_uid = creator_uid (some meta);
        })
            ≡ true)
        × (registration_state meta ≡ "local_only")
        × (registered_id meta ≡ "")

refusal-none :
    (m : DocMeta) (authorize : Option (PublishProvenance → Bool))
    → refusal m authorize ≡ none
    → (allow : PublishProvenance → Bool) × (authorize ≡ some allow)
      × (allow (record {
        user_publish = true;
        space_id = (publish_provenance (some m)).space_id;
        creator_uid = creator_uid (some m);
      })
          ≡ true)
      × (registration_state m ≡ "local_only")
      × (registered_id m ≡ "")
unfolding refusal
refusal-none m none h = absurd (cc)
refusal-none m (some allow) h =
    let asked : PublishProvenance = record {
      user_publish = true;
      space_id = (publish_provenance (some m)).space_id;
      creator_uid = creator_uid (some m);
    } in
    elim (Bool-cases (allow asked)) [
      | inr denied ↦ absurd (ground (arith, h, denied))
      | inl allowed ↦ (
        allow,
        refl,
        allowed,
        ground (arith, h, allowed, eq_iff (registration_state m) "local_only"),
        ground (arith, h, allowed, eq_iff (registered_id m) ""),
      )
    ]

check_removal-none :
    (m : DocMeta) (authorize : Option (PublishProvenance → Bool))
    → (publish_provenance (some m)).user_publish ≡ true
    → check_removal (some m) authorize ≡ none
    → refusal m authorize ≡ none
unfolding check_removal
check_removal-none m authorize owned h =
    sym (ap (λ b. if b then refusal m authorize else none) owned) ∙ h

check_removal-free :
    (m : Option DocMeta) (authorize : Option (PublishProvenance → Bool))
    → ((meta : DocMeta) → m ≡ some meta → (publish_provenance (some meta)).user_publish ≡ false)
    → check_removal m authorize ≡ none
unfolding check_removal
check_removal-free none authorize free = refl
check_removal-free (some meta) authorize free =
    ap (λ b. if b then refusal meta authorize else none) (free meta refl)

decided :
    (u : CaseTable) (s : Store) (slug : String) (m : Option DocMeta)
    (authorize : Option (PublishProvenance → Bool)) (w : World) (verdict : Option Fault)
    → check_removal m authorize ≡ verdict
    → IsDecided s slug m authorize (remove_checked u verdict s slug w).0
unfolding remove_checked
decided u s slug m authorize w (some fault) is = record {
  refused = λ other h. refl;
  removed = λ h. absurd (cc);
  free = λ h. absurd (let no_way = sym is ∙ check_removal-free m authorize h in cc);
  guarded = λ meta there owned h. absurd (cc);
}
decided u s slug m authorize w none is = record {
  refused = λ fault h. absurd (cc);
  free = λ h. refl;
  removed = λ h. purge_slug-IsRemoved u s slug w;
  guarded = λ meta there owned h. refusal-none meta authorize (
      check_removal-none meta authorize owned
        (ap (λ o. check_removal o authorize) (sym there) ∙ is));
}

-- A removal that is refused leaves the store as it was; one that succeeds leaves no metadata,
-- comment, version or draft of the slug, and the metadata and comments of every other slug as
-- before. A document that is no user's is always removed, and a user's only where an authorizer
-- allows it and the document was never registered.
pub remove_authorized-IsDecided :
    (u : CaseTable) (s : Store) (slug : String) (authorize : Option (PublishProvenance → Bool))
    (w : World) (m : Option DocMeta)
    → get_meta s slug ≡ some m
    → IsDecided s slug m authorize (remove_authorized u s slug authorize w).0
unfolding remove_authorized remove_found
remove_authorized-IsDecided u s slug authorize w m read =
    subst (λ o. IsDecided s slug m authorize (remove_found u o s slug authorize w).0) (sym read)
      (decided u s slug m authorize w (check_removal m authorize) refl)
