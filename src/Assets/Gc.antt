-- ===== src/Assets/Gc.antt =====
-- GCAssets of internal/service/gc.go over the store in memory, which reports no errors. A pass runs
-- alone here. The times are in nanoseconds, and what time.Parse makes of a text is a parameter. A
-- time.Duration is an int64, at whose ends time.Time.Sub stops.
use octo_docs_html_fork.Prelude.{
  ℕ, ◌+◌, String, Bool, true, Option, none, some, List, [], ◌∷◌, ◌++◌, contains, if◌then◌else◌,
}
use octo_docs_html_fork.Prelude.Int.{ℤ, ltb_ℤ, ◌-ℤ◌, max_int, min_int}
use octo_docs_html_fork.Storage.State.{AssetMeta, MetaEntry, Store}
use octo_docs_html_fork.Storage.Tables.{
  list_meta, list_asset_meta, list_asset_slugs, delete_asset_meta,
}
use octo_docs_html_fork.Storage.Blobs.{get_doc, get_draft, list_versions, delete_asset}
use octo_docs_html_fork.Assets.Scan.{scan_into}

unfoldable pub scan_page : Option String → List String → List String
unfolding scan_into
scan_page none refs = refs
scan_page (some html) refs = scan_into html refs

unfoldable pub scan_versions : Store → String → List ℤ → List String → List String
unfolding scan_page get_doc
scan_versions s slug [] refs = refs
scan_versions s slug (n ∷ ns) refs = scan_versions s slug ns (scan_page (get_doc s slug n) refs)

unfoldable pub scan_slug_into : Store → String → List String → List String
unfolding scan_versions scan_page list_versions get_draft
scan_slug_into s slug refs =
    scan_page (get_draft s slug) (scan_versions s slug (list_versions s slug) refs)

unfoldable pub scan_slugs : Store → List String → List String → List String
unfolding scan_slug_into
scan_slugs s [] refs = refs
scan_slugs s (slug ∷ slugs) refs = scan_slugs s slugs (scan_slug_into s slug refs)

unfoldable pub slugs_of : List MetaEntry → List String
slugs_of [] = []
slugs_of (e ∷ es) = e.slug ∷ slugs_of es

-- if _, done := scanned[slug]; done { continue }
unfoldable pub not_scanned : List String → List String → List String
not_scanned scanned [] = []
not_scanned scanned (slug ∷ slugs) =
    let rest = not_scanned scanned slugs in if contains slug scanned then rest else slug ∷ rest

-- Every slug with a row of metadata, and every other one with assets; `none` is a panic of the store.
unfoldable pub live_slugs : Option (List MetaEntry) → List String → Option (List String)
unfolding slugs_of not_scanned
live_slugs none asset_slugs = none
live_slugs (some docs) asset_slugs = some (slugs_of docs ++ not_scanned (slugs_of docs) asset_slugs)

unfoldable pub scan_live : Option (List String) → Store → Option (List String)
unfolding scan_slugs
scan_live none s = none
scan_live (some slugs) s = some (scan_slugs s slugs [])

unfoldable pub all_referenced_shas : Store → Option (List String)
unfolding live_slugs scan_live list_meta list_asset_slugs
all_referenced_shas s = scan_live (live_slugs (list_meta s) (list_asset_slugs s)) s

-- What a pass is asked for. `parse` is what withinGrace makes of a timestamp, `none` if it has neither
-- layout.
pub record Pass : Type 0 where
  pub grace : ℤ
  pub now : ℤ
  pub dry_run : Bool
  pub parse : String → Option ℤ

-- now.Sub(t)
unfoldable pub since : ℤ → ℤ → ℤ
since now t =
    let d = now -ℤ t in if ltb_ℤ max_int d then max_int else if ltb_ℤ d min_int then min_int else d

-- !parsed || within, where now.Sub(t) < grace is within
unfoldable pub spared_at : Option ℤ → Pass → Bool
unfolding since
spared_at none p = true
spared_at (some t) p = ltb_ℤ (since p.now t) p.grace

unfoldable pub is_spared : Pass → AssetMeta → Bool
unfolding spared_at
is_spared p a = spared_at (p.parse a.created) p

pub record GcDelete : Type 0 where
  pub slug : String
  pub sha256 : String
  pub size : ℕ
  pub reason : String

pub record GcReport : Type 0 where
  pub scanned : ℕ
  pub assets : ℕ
  pub deleted : List GcDelete
  pub kept : ℕ
  pub referenced : ℕ

-- deleteLocked
unfoldable pub delete_locked : Store → String → String → Store
unfolding delete_asset delete_asset_meta
delete_locked s slug sha256 = delete_asset_meta (delete_asset s slug sha256) slug sha256

-- The loop over a slug's assets. `refs` are the global and the fresh references together.
unfoldable pub gc_assets_of :
    Pass → String → List String → List AssetMeta → GcReport → Store → GcReport × Store
unfolding delete_locked is_spared
gc_assets_of p slug refs [] r s = (r, s)
gc_assets_of p slug refs (a ∷ more) r s =
    let seen : GcReport = record r { assets = r.assets + 1 } in
    let referenced =
      gc_assets_of p slug refs more
        (record seen { kept = seen.kept + 1; referenced = seen.referenced + 1 }) s in
    let spared = gc_assets_of p slug refs more (record seen { kept = seen.kept + 1 }) s in
    let deleted =
      gc_assets_of p slug refs more
        (record seen {
          deleted =
              seen.deleted
              ++ record { slug = slug; sha256 = a.sha256; size = a.size; reason = "unreferenced" }
                ∷ [];
        })
        (if p.dry_run then s else delete_locked s slug a.sha256) in
    if contains a.sha256 refs then referenced else if is_spared p a then spared else deleted

unfoldable pub gc_slug : Pass → String → List String → GcReport → Store → GcReport × Store
unfolding gc_assets_of scan_slug_into list_asset_meta
gc_slug p slug global_refs r s =
    gc_assets_of p slug (global_refs ++ scan_slug_into s slug []) (list_asset_meta s slug) r s

unfoldable pub gc_slugs : Pass → List String → List String → GcReport → Store → GcReport × Store
unfolding gc_slug
gc_slugs p [] refs r s = (r, s)
gc_slugs p (slug ∷ slugs) refs r s =
    let step = gc_slug p slug refs (record r { scanned = r.scanned + 1 }) s in
    gc_slugs p slugs refs step.0 step.1

abbrev pub empty_report : GcReport
empty_report = record { scanned = 0; assets = 0; deleted = []; kept = 0; referenced = 0 }

unfoldable pub gc_with : Option (List String) → Pass → Store → Option (GcReport × Store)
unfolding gc_slugs list_asset_slugs
gc_with none p s = none
gc_with (some refs) p s = some (gc_slugs p (list_asset_slugs s) refs empty_report s)

unfoldable pub gc_assets : Pass → Store → Option (GcReport × Store)
unfolding gc_with all_referenced_shas
gc_assets p s = gc_with (all_referenced_shas s) p s
