-- ===== src/Docs/Kept.antt =====
-- publishLocked (internal/service/doc.go) keeps the owner of a document that is there, whether it
-- succeeds or fails.
use octo_docs_html_fork.Prelude.{
  ℕ, String, true, ◌≡◌, refl, sym, ap, ◌∙◌, subst, Option, none, some, eqb, eq_refl, if_either,
  if◌then◌else◌,
}
use octo_docs_html_fork.Prelude.Dict.{get, put, get-put}
use octo_docs_html_fork.Prelude.Int.{ℤ}
use octo_docs_html_fork.World.{World}
use octo_docs_html_fork.Reconcile.Text.{CaseTable}
use octo_docs_html_fork.Ops.Types.{CommentOp}
use octo_docs_html_fork.Ops.Handlers.{Outcome}
use octo_docs_html_fork.Ops.Apply.{apply_comment_op}
use octo_docs_html_fork.Storage.Meta.{DocMeta, publish_provenance}
use octo_docs_html_fork.Storage.State.{Store}
use octo_docs_html_fork.Storage.Tables.{
  get_meta, copy_out, get_comments, put_comments, delete_comments,
}
use octo_docs_html_fork.Storage.Blobs.{put_doc}
use octo_docs_html_fork.Grants.Copies.{copied, copy_out-some, put_meta-copied}
use octo_docs_html_fork.Comments.Service.{persist, apply_op, PublishMerge, publish_merge_locked}
use octo_docs_html_fork.Docs.Input.{Attempt, PublishInput}
use octo_docs_html_fork.Docs.Mount.{restore_mount_context}
use octo_docs_html_fork.Docs.Metadata.{
  PublishMetaResult, published_meta, upserted_meta, upsert_meta,
}
use octo_docs_html_fork.Docs.Publish.{
  StampResult, PublishResult, slug_exists, resolve_version, merge_comments, write_meta,
  write_version, authorized, publish_restored, publish_found, publish_locked,
}
use octo_docs_html_fork.Docs.Inherited.{Every, IsHeld}
use octo_docs_html_fork.Docs.Owned.{restore_mount_context-IsHeld}
use octo_docs_html_fork.Docs.Provenance.{
  IsSameOwner, same-IsSameOwner, then-IsSameOwner, copied-IsSameOwner, published-IsSameOwner,
}

-- All but the comments are as before.
pub record IsCommented (s s' : Store) : Type 0 where
  pub meta : s'.meta ≡ s.meta
  pub blobs : s'.blobs ≡ s.blobs
  pub asset_meta : s'.asset_meta ≡ s.asset_meta

pub persist-IsCommented :
    (s : Store) (slug : String) (r : Outcome) → IsCommented s (persist s slug r).1
unfolding persist put_comments delete_comments
persist-IsCommented s slug (list, res) =
    if_either (IsCommented s) (eqb res.status 200)
      (if_either (IsCommented s) res.wipe {x = delete_comments s slug}
        {y = put_comments s slug list} (record { meta = refl; blobs = refl; asset_meta = refl })
        (record { meta = refl; blobs = refl; asset_meta = refl }))
      (record { meta = refl; blobs = refl; asset_meta = refl })

pub apply_op-IsCommented :
    (u : CaseTable) (s : Store) (slug : String) (op : CommentOp) (w : World)
    → IsCommented s (apply_op u s slug op w).0.1
unfolding apply_op
apply_op-IsCommented u s slug op w =
    persist-IsCommented s slug (apply_comment_op u (get_comments s slug) op w).0

pub publish_merge_locked-IsCommented :
    (u : CaseTable) (s : Store) (slug : String) (p : PublishMerge) (w : World)
    → IsCommented s (publish_merge_locked u s slug p w).0.1
unfolding publish_merge_locked
publish_merge_locked-IsCommented u s slug p w = apply_op-IsCommented u s slug _ _

-- The slug has metadata of the same owner.
pub record HasOwner (slug : String) (m : DocMeta) (s : Store) : Type 0 where
  pub meta : DocMeta
  pub found : get_meta s slug ≡ some (some meta)
  pub same : IsSameOwner m meta

pub unchanged-HasOwner :
    (slug : String) (m : DocMeta) (s : Store) → get_meta s slug ≡ some (some m) → HasOwner slug m s
unchanged-HasOwner slug m s there = record { meta = m; found = there; same = same-IsSameOwner m }

module _ (u : CaseTable) (input : PublishInput) (m : DocMeta) {asked : PublishInput}
    (held : IsHeld asked (publish_provenance (some m)) input) (stamped : StampResult) (version : ℤ)
    (size : ℕ) (created : String) (w : World) where
  written-HasOwner :
      (s s' : Store) (meta : PublishMetaResult)
      → s'.meta ≡ put s.meta input.slug (copied (published_meta input m version created))
      → HasOwner input.slug m
          (merge_comments u (some (meta, s')) s input stamped version size w).0.1
  unfolding merge_comments get_meta
  written-HasOwner s s' meta is =
      let new = published_meta input m version created in
      record {
        meta = copied (copied new);
        found =
            ap copy_out (
              ap (λ d. get d input.slug)
                ((publish_merge_locked-IsCommented u s' input.slug _ w).meta ∙ is)
              ∙ get-put s.meta input.slug input.slug (copied new)
              ∙ ap (λ b. if b then some (copied new) else get s.meta input.slug)
                  (eq_refl input.slug))
            ∙ copy_out-some (copied new);
        same =
            then-IsSameOwner m new (copied (copied new))
              (published-IsSameOwner input m version held created)
              (then-IsSameOwner new (copied new) (copied (copied new)) (copied-IsSameOwner new)
                (copied-IsSameOwner (copied new)));
      }

  -- once the metadata is written
  merged-HasOwner :
      (s : Store)
      → HasOwner input.slug m
          (merge_comments u
            (upsert_meta (some (some m)) s input version created)
            s
            input
            stamped
            version
            size
            w).0.1
  unfolding upsert_meta upserted_meta
  merged-HasOwner s =
      subst
        (λ o.
          HasOwner input.slug m
            (merge_comments u (upserted_meta o true input m) s input stamped version size w).0.1)
        (sym (put_meta-copied s input.slug (published_meta input m version created)))
        (written-HasOwner s _ _ refl)

  write_meta-HasOwner :
      (o : Option ℕ) (s : Store)
      → get_meta s input.slug ≡ some (some m)
      → HasOwner input.slug m (write_meta u o s input stamped version size created w).0.1
  unfolding write_meta
  write_meta-HasOwner none s there = unchanged-HasOwner input.slug m s there
  write_meta-HasOwner (some _) s there =
      subst
        (λ o.
          HasOwner input.slug m
            (merge_comments u (upsert_meta o s input version created) s input stamped version size
              w).0.1)
        (sym there) (merged-HasOwner s)

module _ (u : CaseTable) (m : DocMeta) (stamped : StampResult) (created : String) (w : World) where
  write_version-HasOwner :
      (s : Store) (input : PublishInput) (version : ℤ) {asked : PublishInput}
      → get_meta s input.slug ≡ some (some m)
      → IsHeld asked (publish_provenance (some m)) input
      → HasOwner input.slug m (write_version u s input stamped version created w).0.1
  unfolding write_version put_doc get_meta
  write_version-HasOwner s input version there held =
      write_meta-HasOwner u input m held stamped version _ created w _ _ there

  publish_restored-HasOwner :
      (a : Attempt PublishInput) (s : Store) (asked : PublishInput)
      → get_meta s asked.slug ≡ some (some m)
      → Every (IsHeld asked (publish_provenance (some m))) a
      → HasOwner asked.slug m (publish_restored u a s stamped created w).0.1
  unfolding publish_restored
  publish_restored-HasOwner (Attempt.failed fault) s asked there held =
      unchanged-HasOwner asked.slug m s there
  publish_restored-HasOwner (Attempt.done input) s asked there (Every.on_done _ held) =
      let there' : get_meta s input.slug ≡ some (some m) = ap (get_meta s) held.named ∙ there in
      if_either
        (λ (f : World → (Attempt PublishResult × Store) × World). HasOwner asked.slug m (f w).0.1)
        (authorized input)
        (subst
          (λ k.
            HasOwner k m
              (write_version u s input stamped (resolve_version s input.slug input.version) created
                w).0.1)
          held.named
          (write_version-HasOwner s input (resolve_version s input.slug input.version) there' held))
        (unchanged-HasOwner asked.slug m s there)

-- Whether a publish of a document with metadata succeeds or fails, the slug has metadata after
-- it, with the same creator where there was one; and the document is a user's exactly if it was,
-- and then in the same space.
pub publish_locked-HasOwner :
    (u : CaseTable) (s : Store) (input : PublishInput) (stamped : StampResult) (created : String)
    (w : World) (m : DocMeta)
    → get_meta s input.slug ≡ some (some m)
    → HasOwner input.slug m (publish_locked u s input stamped created w).0.1
unfolding publish_locked publish_found
publish_locked-HasOwner u s input stamped created w m there =
    subst (λ o. HasOwner input.slug m (publish_found u o s input stamped created w).0.1) (sym there)
      (publish_restored-HasOwner u m stamped created w
        (restore_mount_context u (some m) (slug_exists (some m) s input.slug) input) s input there
        (restore_mount_context-IsHeld u m (slug_exists (some m) s input.slug) input))
