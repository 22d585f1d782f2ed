-- ===== src/Assets/Live.antt =====
-- GCAssets of internal/service/gc.go never deletes an asset that a live page names.
use octo_docs_html_fork.Prelude.{
  ◌+◌, String, true, false, ◌≡◌, some, List, ◌==◌, All, length, contains,
}
use octo_docs_html_fork.Prelude.Int.{ℤ}
use octo_docs_html_fork.Storage.State.{Store}
use octo_docs_html_fork.Storage.Tables.{list_meta, list_asset_slugs}
use octo_docs_html_fork.Storage.Blobs.{get_doc, get_draft, list_versions}
use octo_docs_html_fork.Storage.Versions.{lists}
use octo_docs_html_fork.Assets.Scan.{long_runs}
use octo_docs_html_fork.Assets.Windows.{is_hex, Occurs}
use octo_docs_html_fork.Assets.Found.{IsShort}
use octo_docs_html_fork.Assets.Gc.{Pass, GcReport, live_slugs}
use octo_docs_html_fork.Assets.Kept.{swept}

-- A page that is served for a slug: a version that is listed, or the draft.
pub data LivePage (s : Store) (slug html : String) : Type 0 where
  version :
      (n : ℤ)
      → lists n (list_versions s slug) ≡ true
      → get_doc s slug n ≡ some html
      → LivePage s slug html
  draft : get_draft s slug ≡ some html → LivePage s slug html

-- An address in a page whose runs are not oversized.
pub record IsNamed (w html : String) : Type 0 where
  pub digits : is_hex w ≡ true
  pub short_runs : All IsShort (long_runs false html)
  pub occurs : Occurs w html

-- What a pass has done.
pub record IsCollected (p : Pass) (s : Store) (r : GcReport) (s' : Store) : Type 0 where
  pub done : s' ≡ swept p.dry_run r.deleted s
  pub counted : r.assets ≡ r.kept + length r.deleted
  pub unnamed :
      (slugs : List String) (slug w html : String)
      → live_slugs (list_meta s) (list_asset_slugs s) ≡ some slugs
      → contains slug slugs ≡ true
      → LivePage s slug html
      → IsNamed w html
      → All (λ d. (d.sha256 == w) ≡ false) r.deleted
