-- ===== src/Docs/Added.antt =====
-- A publish that succeeds (internal/service/doc.go) adds one version and overwrites nothing.
use octo_docs_html_fork.Prelude.{
  ℕ, ◌+◌, ◌<◌, ◌^◌, String, Bool, true, false, ◌&&◌, ◌≡◌, refl, sym, ap, ◌∙◌, subst, Option, none,
  some, ◌==◌, if_either, if◌then◌else◌,
}
use octo_docs_html_fork.Prelude.Dict.{get, put, get-put}
use octo_docs_html_fork.Prelude.Int.{ℤ, pos, ltb_ℤ}
use octo_docs_html_fork.World.{World}
use octo_docs_html_fork.Reconcile.Text.{CaseTable}
use octo_docs_html_fork.Storage.Meta.{DocMeta, publish_provenance}
use octo_docs_html_fork.Storage.State.{Store}
use octo_docs_html_fork.Storage.Tables.{get_meta, put_meta}
use octo_docs_html_fork.Storage.Blobs.{
  blob_key, put_doc, get_doc, head_doc, list_versions, byte_len,
}
use octo_docs_html_fork.Grants.Copies.{put_meta-copied}
use octo_docs_html_fork.Docs.Input.{Fault, Attempt, PublishInput}
use octo_docs_html_fork.Docs.Mount.{restore_mount_context}
use octo_docs_html_fork.Docs.Metadata.{PublishMetaResult, new_meta, upserted_meta, upsert_meta}
use octo_docs_html_fork.Docs.Publish.{
  StampResult, PublishResult, slug_exists, max_version, resolve_version, merge_comments, write_meta,
  write_version, authorized, publish_restored, publish_found, publish_locked,
}
use octo_docs_html_fork.Docs.Inherited.{Every, IsHeld}
use octo_docs_html_fork.Docs.Owned.{restore_mount_context-IsHeld}
use octo_docs_html_fork.Docs.Kept.{publish_merge_locked-IsCommented}
use octo_docs_html_fork.Docs.Fresh.{resolve_version-next, get_doc-next}

put_meta-blobs :
    (s s' : Store) (slug : String) (m : DocMeta) → put_meta s slug m ≡ some s' → s'.blobs ≡ s.blobs
put_meta-blobs s s' slug m h =
    let found = sym (put_meta-copied s slug m) ∙ h in
    let same : _ ≡ s' = some_inj found in ap (λ t. t.blobs) (sym same)
  where
    some_inj : {t t' : Store} → some t ≡ some t' → t ≡ t'
    some_inj h = cc

upserted_meta-blobs :
    (o : Option Store) (s : Store) (had : Bool) (input : PublishInput) (prev : DocMeta)
    (meta : PublishMetaResult) (s' : Store)
    → ((t : Store) → o ≡ some t → t.blobs ≡ s.blobs)
    → upserted_meta o had input prev ≡ some (meta, s')
    → s'.blobs ≡ s.blobs
unfolding upserted_meta
upserted_meta-blobs none s had input prev meta s' kept h = absurd (cc)
upserted_meta-blobs (some t) s had input prev meta s' kept h =
    let same : t ≡ s' = cc in ap (λ x. x.blobs) (sym same) ∙ kept t refl

upsert_meta-blobs :
    (o : Option (Option DocMeta)) (s : Store) (input : PublishInput) (version : ℤ)
    (created : String) (meta : PublishMetaResult) (s' : Store)
    → upsert_meta o s input version created ≡ some (meta, s')
    → s'.blobs ≡ s.blobs
unfolding upsert_meta
upsert_meta-blobs none s input version created meta s' h = absurd (cc)
upsert_meta-blobs (some none) s input version created meta s' h =
    upserted_meta-blobs _ s false input (new_meta input.slug) meta s'
      (λ t is. put_meta-blobs s t input.slug _ is) h
upsert_meta-blobs (some (some prev)) s input version created meta s' h =
    upserted_meta-blobs _ s true input prev meta s' (λ t is. put_meta-blobs s t input.slug _ is) h

-- The pages after a publish that has succeeded: those before, and the new one under its key.
pub record IsAdded (s : Store) (slug html : String) (version : ℤ)
    (after : Attempt PublishResult × Store) : Type 0 where
  pub stored :
      (r : PublishResult)
      → after.0 ≡ Attempt.done r
      → (r.version ≡ version)
        × ((key : String)
            → get after.1.blobs key
              ≡ (if blob_key slug version == key then some html else get s.blobs key))

failed-IsAdded :
    (s : Store) (slug html : String) (version : ℤ) (fault : Fault) (s' : Store)
    → IsAdded s slug html version (Attempt.failed fault, s')
failed-IsAdded s slug html version fault s' = record { stored = λ r h. absurd (cc) }

module _ (u : CaseTable) (s : Store) (input : PublishInput) (stamped : StampResult) (version : ℤ)
    (created : String) (w : World) where
  merge_comments-IsAdded :
      (o : Option (PublishMetaResult × Store)) (written : Store) (size : ℕ)
      → ((meta : PublishMetaResult) (s' : Store)
          → o ≡ some (meta, s')
          → s'.blobs ≡ put s.blobs (blob_key input.slug version) stamped.html)
      → IsAdded s input.slug stamped.html version
          (merge_comments u o written input stamped version size w).0
  unfolding merge_comments
  merge_comments-IsAdded none written size kept =
      failed-IsAdded s input.slug stamped.html version Fault.panicked written
  merge_comments-IsAdded (some (meta, s')) written size kept = record {
    stored = λ r h. (
      numbered r h,
      λ key.
          ap (λ d. get d key)
            ((publish_merge_locked-IsCommented u s' input.slug _ w).blobs ∙ kept meta s' refl)
          ∙ get-put s.blobs (blob_key input.slug version) key stamped.html,
    );
  }
    where
      numbered :
          {x : PublishResult} (r : PublishResult)
          → Attempt.done x ≡ Attempt.done r
          → r.version ≡ x.version
      numbered {x} r h = let same : x ≡ r = cc in ap (λ y. y.version) (sym same)

  write_version-IsAdded :
      IsAdded s input.slug stamped.html version
        (write_version u s input stamped version created w).0
  unfolding write_version write_meta put_doc
  write_version-IsAdded =
      let written : Store = record s {
        blobs = put s.blobs (blob_key input.slug version) stamped.html;
      } in
      go (head_doc written input.slug version) written (byte_len stamped.html) refl
    where
      go :
          (o : Option ℕ) (written : Store) (size : ℕ)
          → written.blobs ≡ put s.blobs (blob_key input.slug version) stamped.html
          → IsAdded s input.slug stamped.html version
              (write_meta u o written input stamped version size created w).0
      go none written size is =
          failed-IsAdded s input.slug stamped.html version Fault.blob_write_lost written
      go (some _) written size is =
          merge_comments-IsAdded _ written size
            (λ meta s' h. upsert_meta-blobs _ written input version created meta s' h ∙ is)

-- The slug and the version that are asked for.
record IsAsked (asked input : PublishInput) : Type 0 where
  named : input.slug ≡ asked.slug
  numbered : input.version ≡ asked.version

Every-IsAsked :
    (asked : PublishInput) (m : DocMeta) (a : Attempt PublishInput)
    → Every (IsHeld asked (publish_provenance (some m))) a
    → Every (IsAsked asked) a
Every-IsAsked asked m (Attempt.failed fault) h = Every.on_failed fault
Every-IsAsked asked m (Attempt.done input) (Every.on_done _ held) =
    Every.on_done input (record { named = held.named; numbered = held.numbered })

restore_mount_context-IsAsked :
    (u : CaseTable) (o : Option DocMeta) (exists : Bool) (input : PublishInput)
    → Every (IsAsked input) (restore_mount_context u o exists input)
unfolding restore_mount_context
restore_mount_context-IsAsked u none exists input =
    if_either (Every (IsAsked input)) (exists && input.user_publish)
      (Every.on_failed Fault.provenance_conflict)
      (Every.on_done _ (record { named = refl; numbered = refl }))
restore_mount_context-IsAsked u (some m) exists input =
    Every-IsAsked input m _ (restore_mount_context-IsHeld u m exists input)

module _ (u : CaseTable) (s : Store) (asked : PublishInput) (stamped : StampResult)
    (created : String) (w : World) where
  publish_restored-IsAdded :
      (a : Attempt PublishInput)
      → Every (IsAsked asked) a
      → IsAdded s asked.slug stamped.html
          (resolve_version s asked.slug asked.version)
          (publish_restored u a s stamped created w).0
  unfolding publish_restored
  publish_restored-IsAdded (Attempt.failed fault) h = failed-IsAdded s _ _ _ fault s
  publish_restored-IsAdded (Attempt.done input) (Every.on_done _ is) =
      if_either
        (λ (f : World → (Attempt PublishResult × Store) × World).
          IsAdded s asked.slug stamped.html (resolve_version s asked.slug asked.version) (f w).0)
        (authorized input)
        (subst
          (λ (k : String × ℤ).
            IsAdded s k.0 stamped.html (resolve_version s k.0 k.1)
              (write_version u s input stamped (resolve_version s input.slug input.version) created
                w).0)
          (λ i. (is.named i, is.numbered i))
          (write_version-IsAdded u s input stamped (resolve_version s input.slug input.version)
            created w))
        (failed-IsAdded s _ _ _ Fault.refused s)

  publish_found-IsAdded :
      (o : Option (Option DocMeta))
      → IsAdded s asked.slug stamped.html
          (resolve_version s asked.slug asked.version)
          (publish_found u o s asked stamped created w).0
  unfolding publish_found
  publish_found-IsAdded none = failed-IsAdded s _ _ _ Fault.panicked s
  publish_found-IsAdded (some m) =
      publish_restored-IsAdded (restore_mount_context u m (slug_exists m s asked.slug) asked)
        (restore_mount_context-IsAsked u m (slug_exists m s asked.slug) asked)

-- The pages after a publish that succeeds, and the version before it.
pub publish_locked-IsAdded :
    (u : CaseTable) (s : Store) (input : PublishInput) (stamped : StampResult) (created : String)
    (w : World) (k : ℕ)
    → ltb_ℤ (pos 0) input.version ≡ false
    → max_version (pos 0) (list_versions s input.slug) ≡ pos k
    → k + 1 < 2 ^ 63
    → (get_doc s input.slug (pos (k + 1)) ≡ none)
      × IsAdded s input.slug stamped.html
          (pos (k + 1))
          (publish_locked u s input stamped created w).0
unfolding publish_locked
publish_locked-IsAdded u s input stamped created w k auto latest small = (
  get_doc-next s input.slug k latest small,
  subst (λ v. IsAdded s input.slug stamped.html v (publish_locked u s input stamped created w).0)
      (resolve_version-next s input.slug input.version k auto latest small)
      (publish_found-IsAdded u s input stamped created w (get_meta s input.slug)),
)
