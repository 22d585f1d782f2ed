-- ===== src/Docs/Succeeds.antt =====
-- When publishLocked of internal/service/doc.go succeeds.
use octo_docs_html_fork.Prelude.{
  ℕ, String, true, false, ◌≡◌, refl, sym, ap, ◌∙◌, subst, Option, none, some, eq_refl, Option-cases,
  inl, inr, if◌then◌else◌,
}
use octo_docs_html_fork.Prelude.Dict.{get, put, get-put}
use octo_docs_html_fork.Prelude.Int.{ℤ}
use octo_docs_html_fork.World.{World}
use octo_docs_html_fork.Reconcile.Text.{CaseTable}
use octo_docs_html_fork.Storage.Meta.{DocMeta}
use octo_docs_html_fork.Storage.State.{Store}
use octo_docs_html_fork.Storage.Tables.{get_meta, copy_out}
use octo_docs_html_fork.Storage.Blobs.{blob_key, put_doc, head_doc, byte_len}
use octo_docs_html_fork.Grants.Copies.{copied, get_meta-found, put_meta-copied}
use octo_docs_html_fork.Docs.Input.{Fault, Attempt, PublishInput}
use octo_docs_html_fork.Docs.Mount.{restore_mount_context}
use octo_docs_html_fork.Docs.Metadata.{
  PublishMetaResult, new_meta, published_meta, upserted_meta, upsert_meta,
}
use octo_docs_html_fork.Docs.Publish.{
  StampResult, PublishResult, slug_exists, resolve_version, merge_comments, write_meta,
  write_version, authorized, publish_restored, publish_found, publish_locked,
}

-- A read of the metadata does not panic.
pub get_meta-total : (s : Store) (slug : String) → (o : Option DocMeta) × (get_meta s slug ≡ some o)
unfolding get_meta copy_out
get_meta-total s slug = elim (Option-cases (get s.meta slug)) [
  | inl free ↦ (none, ap copy_out free)
  | inr (m, found) ↦ (some (copied m), get_meta-found s slug m found)
]

-- what there is of metadata, or new metadata
abbrev pub prev_of : Option DocMeta → String → DocMeta
prev_of none slug = new_meta slug
prev_of (some m) slug = m

pub upsert_meta-total :
    (o : Option DocMeta) (s : Store) (input : PublishInput) (version : ℤ) (created : String)
    → (meta : PublishMetaResult) × (upsert_meta (some o) s input version created
        ≡ some (
          meta,
          record s {
            meta =
                put s.meta input.slug
                  (copied (published_meta input (prev_of o input.slug) version created));
          },
        ))
unfolding upsert_meta upserted_meta
upsert_meta-total none s input version created = (
  _,
  ap (λ t. upserted_meta t false input (new_meta input.slug))
      (put_meta-copied s input.slug (published_meta input (new_meta input.slug) version created)),
)
upsert_meta-total (some m) s input version created = (
  _,
  ap (λ t. upserted_meta t true input m)
      (put_meta-copied s input.slug (published_meta input m version created)),
)

-- A success, and the metadata that it leaves.
abbrev pub Succeeds : Attempt PublishResult × Store → Type 0
Succeeds after = (r : PublishResult) × (after.0 ≡ Attempt.done r)

module _ (u : CaseTable) (s : Store) (input : PublishInput) (stamped : StampResult)
    (created : String) (w : World) where
  merge_comments-Succeeds :
      (version : ℤ) (size : ℕ) (written : Store)
      → Succeeds
          (merge_comments u
            (upsert_meta (get_meta written input.slug) written input version created)
            written
            input
            stamped
            version
            size
            w).0
  unfolding merge_comments
  merge_comments-Succeeds version size written =
      let (o, read) = get_meta-total written input.slug in
      let (meta, upserted) = upsert_meta-total o written input version created in
      subst (λ x. Succeeds (merge_comments u x written input stamped version size w).0)
        (sym (ap (λ x. upsert_meta x written input version created) read ∙ upserted)) (_, refl)

  write_version-Succeeds :
      (version : ℤ) → Succeeds (write_version u s input stamped version created w).0
  unfolding write_version put_doc head_doc write_meta
  write_version-Succeeds version =
      let key = blob_key input.slug version in
      let written : Store = record s { blobs = put s.blobs key stamped.html } in
      let there : get written.blobs key ≡ some stamped.html =
        get-put s.blobs key key stamped.html ∙ rw (eq_refl key) refl in
      subst
        (λ o.
          Succeeds
            (write_meta u
              (elim o as (λ _. Option ℕ) [ none ↦ none | some html ↦ some (byte_len html) ]) written
              input stamped version (byte_len stamped.html) created w).0)
        (sym there) (merge_comments-Succeeds version (byte_len stamped.html) written)

-- A publish fails only where the restored context or the authorizer refuses it.
pub publish_locked-Succeeds :
    (u : CaseTable) (s : Store) (asked input : PublishInput) (stamped : StampResult)
    (created : String) (w : World) (m : Option DocMeta)
    → get_meta s asked.slug ≡ some m
    → restore_mount_context u m (slug_exists m s asked.slug) asked ≡ Attempt.done input
    → authorized input ≡ true
    → Succeeds (publish_locked u s asked stamped created w).0
unfolding publish_locked publish_found publish_restored
publish_locked-Succeeds u s asked input stamped created w m read restored allowed =
    subst (λ o. Succeeds (publish_found u o s asked stamped created w).0) (sym read)
      (subst (λ a. Succeeds (publish_restored u a s stamped created w).0) (sym restored)
        (subst
          (λ b.
            Succeeds
              ((if b
                  then write_version u s input stamped (resolve_version s input.slug input.version)
                      created
                  else (λ w'. ((Attempt.failed Fault.refused, s), w')))
                w).0)
          (sym allowed)
          (write_version-Succeeds u s input stamped created w
            (resolve_version s input.slug input.version))))
