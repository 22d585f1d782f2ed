-- ===== src/Docs/Promoting.antt =====
-- PromoteAuthorized of internal/service/doc.go keeps the owner of a document.
use octo_docs_html_fork.Prelude.{
  String, Bool, true, false, ◌≡◌, refl, sym, ap, ◌∙◌, subst, Option, none, some,
}
use octo_docs_html_fork.World.{World}
use octo_docs_html_fork.Reconcile.Text.{CaseTable}
use octo_docs_html_fork.Storage.Meta.{DocMeta, mount_type}
use octo_docs_html_fork.Storage.State.{Store}
use octo_docs_html_fork.Storage.Tables.{get_meta}
use octo_docs_html_fork.Storage.Blobs.{get_draft}
use octo_docs_html_fork.Docs.Input.{
  Fault, Attempt, PublishProvenance, PublishInput, normalize_mount_type,
}
use octo_docs_html_fork.Docs.Inherited.{Every}
use octo_docs_html_fork.Docs.Publish.{StampResult, publish_locked}
use octo_docs_html_fork.Docs.Kept.{HasOwner, unchanged-HasOwner, publish_locked-HasOwner}
use octo_docs_html_fork.Docs.Promote.{
  blank_input, existing_mount, existing_owner, existing_publish_input, with_existing, promote_input,
  promote_draft, promote,
}
use octo_docs_html_fork.Docs.Promoted.{IsPromoted, failed-IsPromoted, after_promote-IsPromoted}

-- The input of a promote is for its slug.
record IsFor (slug : String) (input : PublishInput) : Type 0 where
  named : input.slug ≡ slug

with_existing-IsFor :
    (a : Attempt String) (slug : String) (input : PublishInput)
    → IsFor slug input
    → Every (IsFor slug) (with_existing a input)
unfolding with_existing
with_existing-IsFor (Attempt.failed fault) slug input is = Every.on_failed fault
with_existing-IsFor (Attempt.done normalized) slug input is =
    Every.on_done _ (record { named = is.named })

existing_mount-IsFor :
    (u : CaseTable) (mount : String × Bool) (slug : String) (input : PublishInput)
    → IsFor slug input
    → Every (IsFor slug) (existing_mount u mount input)
unfolding existing_mount
existing_mount-IsFor u (mount, false) slug input is = Every.on_done input is
existing_mount-IsFor u (mount, true) slug input is =
    with_existing-IsFor (normalize_mount_type u mount) slug input is

existing_owner-IsFor :
    (a : Attempt PublishInput) (m : DocMeta) (slug : String)
    → Every (IsFor slug) a
    → Every (IsFor slug) (existing_owner a m)
unfolding existing_owner
existing_owner-IsFor (Attempt.failed fault) m slug h = Every.on_failed fault
existing_owner-IsFor (Attempt.done input) m slug (Every.on_done _ is) =
    Every.on_done _ (record { named = is.named })

module _ (u : CaseTable) (s : Store) (slug : String) (stamped : StampResult) (created : String)
    (w : World) (m : DocMeta) (there : get_meta s slug ≡ some (some m)) where
  promote_input-IsPromoted :
      (a : Attempt PublishInput)
      → Every (IsFor slug) a
      → IsPromoted slug m (promote_input u a s slug stamped created w).0
  unfolding promote_input
  promote_input-IsPromoted (Attempt.failed fault) h =
      failed-IsPromoted slug m fault s (unchanged-HasOwner slug m s there)
  promote_input-IsPromoted (Attempt.done input) (Every.on_done _ is) =
      after_promote-IsPromoted slug m (publish_locked u s input stamped created w).0 (
        subst (λ k. HasOwner k m (publish_locked u s input stamped created w).0.1) is.named
          (publish_locked-HasOwner u s input stamped created w m
            (ap (get_meta s) is.named ∙ there)))

-- Whether a promote of a document with metadata succeeds or fails, the slug has metadata of the
-- same owner after it; and where it succeeds, there is neither a page of a draft nor a mark of
-- one in the metadata.
pub promote-IsPromoted :
    (u : CaseTable) (stamp : String → StampResult) (s : Store) (slug title : String)
    (authorize : Option (PublishProvenance → Bool)) (created : String) (w : World) (m : DocMeta)
    → get_meta s slug ≡ some (some m)
    → IsPromoted slug m (promote u stamp s slug title authorize created w).0
unfolding promote promote_draft existing_publish_input
promote-IsPromoted u stamp s slug title authorize created w m there = go (get_draft s slug)
  where
    go :
        (o : Option String)
        → IsPromoted slug m (promote_draft u stamp o s slug title authorize created w).0
    go none = failed-IsPromoted slug m Fault.not_found s (unchanged-HasOwner slug m s there)
    go (some html) =
        let input = blank_input slug html title authorize in
        subst
          (λ o.
            IsPromoted slug m
              (promote_input u (existing_publish_input u o input) s slug (stamp html) created w).0)
          (sym there)
          (promote_input-IsPromoted u s slug (stamp html) created w m there _ (
            existing_owner-IsFor (existing_mount u (mount_type (some m)) input) m slug
              (existing_mount-IsFor u (mount_type (some m)) slug input (record { named = refl }))))
