-- ===== src/Docs/Published.antt =====
-- What a publish of internal/service/doc.go does where it picks the version itself.
use octo_docs_html_fork.Prelude.{
  ℕ, ◌+◌, ◌<◌, ◌^◌, String, true, false, ◌≡◌, Option, none, some, ◌==◌, if◌then◌else◌,
}
use octo_docs_html_fork.Prelude.Dict.{get}
use octo_docs_html_fork.Prelude.Int.{pos, ltb_ℤ}
use octo_docs_html_fork.World.{World}
use octo_docs_html_fork.Reconcile.Text.{CaseTable}
use octo_docs_html_fork.Storage.Meta.{DocMeta}
use octo_docs_html_fork.Storage.State.{Store}
use octo_docs_html_fork.Storage.Tables.{get_meta}
use octo_docs_html_fork.Storage.Blobs.{blob_key, get_doc, list_versions}
use octo_docs_html_fork.Docs.Input.{Attempt, PublishInput}
use octo_docs_html_fork.Docs.Mount.{restore_mount_context}
use octo_docs_html_fork.Docs.Publish.{
  StampResult, PublishResult, slug_exists, max_version, authorized, publish_locked,
}
use octo_docs_html_fork.Docs.Added.{publish_locked-IsAdded}
use octo_docs_html_fork.Docs.Succeeds.{publish_locked-Succeeds}

-- The version was free, and the pages are those before and the new one under its key.
pub record IsPublished (s : Store) (slug html : String) (k : ℕ)
    (after : Attempt PublishResult × Store) : Type 0 where
  pub free : get_doc s slug (pos (k + 1)) ≡ none
  pub result : PublishResult
  pub succeeded : after.0 ≡ Attempt.done result
  pub numbered : result.version ≡ pos (k + 1)
  pub stored :
      (key : String)
      → get after.1.blobs key
        ≡ (if blob_key slug (pos (k + 1)) == key then some html else get s.blobs key)

-- Let a publish name no version, let the latest version be `k` with `k + 1` an int, and let
-- neither the restored context nor the authorizer refuse the publish. Then it succeeds with
-- version `k + 1`, of which there was no page, and the pages after it are those before and the
-- new one under that version.
pub publish_locked-IsPublished :
    (u : CaseTable) (s : Store) (asked input : PublishInput) (stamped : StampResult)
    (created : String) (w : World) (m : Option DocMeta) (k : ℕ)
    → get_meta s asked.slug ≡ some m
    → restore_mount_context u m (slug_exists m s asked.slug) asked ≡ Attempt.done input
    → authorized input ≡ true
    → ltb_ℤ (pos 0) asked.version ≡ false
    → max_version (pos 0) (list_versions s asked.slug) ≡ pos k
    → k + 1 < 2 ^ 63
    → IsPublished s asked.slug stamped.html k (publish_locked u s asked stamped created w).0
publish_locked-IsPublished u s asked input stamped created w m k read restored allowed auto latest
      small =
    let (free, added) = publish_locked-IsAdded u s asked stamped created w k auto latest small in
    let (r, success) =
      publish_locked-Succeeds u s asked input stamped created w m read restored allowed in
    record {
      free = free;
      result = r;
      succeeded = success;
      numbered = (added.stored r success).0;
      stored = (added.stored r success).1;
    }
