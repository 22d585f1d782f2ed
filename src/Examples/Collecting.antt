-- ===== src/Examples/Collecting.antt =====
-- Examples of the collection of assets (internal/service/gc.go).
use octo_docs_html_fork.Prelude.{◌≡◌, refl, inl, inr, String, some, [], ◌∷◌, true, false, contains}
use octo_docs_html_fork.Prelude.Int.{pos}
use octo_docs_html_fork.Storage.State.{AssetMeta, Store, empty_store}
use octo_docs_html_fork.Storage.Tables.{list_asset_meta}
use octo_docs_html_fork.Assets.Scan.{first_chars, long_runs, scan_into}
use octo_docs_html_fork.Assets.Found.{contains-scan_into}
use octo_docs_html_fork.Assets.Gc.{Pass, GcReport, gc_slug, empty_report}
use octo_docs_html_fork.Assets.Exact.{is_named, IsExact, gc_slug-IsExact}

abbrev sha : String
sha = "0123456789abcdef0123456789abcdef0123456789abcdef0123456789abcdef"

abbrev image : AssetMeta
image = record {
  slug = "doc";
  sha256 = sha;
  mime = "image/png";
  size = 3;
  original_name = "x.png";
  created = "t0";
}

-- an asset that no page names
abbrev unused : Store
unused = record empty_store {
  asset_meta =
      ("doc\00123456789abcdef0123456789abcdef0123456789abcdef0123456789abcdef", image) ∷ [];
}

-- a pass, long after every asset was made
abbrev pass : Pass
pass = record { grace = pos 10; now = pos 100; dry_run = false; parse = λ t. some (pos 0) }

abbrev report : GcReport
report = record {
  scanned = 1;
  assets = 1;
  deleted = record { slug = "doc"; sha256 = sha; size = 3; reason = "unreferenced" } ∷ [];
  kept = 0;
  referenced = 0;
}

gc_slug-IsExact_example :
    IsExact pass "doc"
      (is_named unused "doc" [])
      (list_asset_meta unused "doc")
      empty_report
      unused
      (gc_slug pass "doc" [] empty_report unused)
gc_slug-IsExact_example = gc_slug-IsExact pass "doc" [] empty_report unused (refl, refl)

contains-scan_into_example :
    contains sha (scan_into "/0123456789abcdef0123456789abcdef0123456789abcdef0123456789abcdef" [])
    ≡ true
unfolding first_chars long_runs
contains-scan_into_example =
    contains-scan_into "/0123456789abcdef0123456789abcdef0123456789abcdef0123456789abcdef" sha []
      refl (refl, tt) (inr (inl refl))
