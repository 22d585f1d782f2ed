-- ===== src/Assets/Exact.antt =====
-- Which assets of a slug GCAssets of internal/service/gc.go deletes: those, and only those.
use octo_docs_html_fork.Prelude.{
  ◌+◌, String, Bool, true, false, not, ◌||◌, ◌≡◌, refl, sym, ap, ◌∙◌, Option, none, some, List, [],
  ◌∷◌, ◌++◌, append-nil, append_assoc, arith, length, contains, if_split, if◌then◌else◌,
}
use octo_docs_html_fork.Prelude.Int.{ℤ, pos, negsuc, ltb_ℤ, leb_ℤ, ◌+ℤ◌, is_int64, min_int}
use octo_docs_html_fork.Storage.State.{AssetMeta, Store}
use octo_docs_html_fork.Storage.Tables.{list_asset_meta}
use octo_docs_html_fork.Storage.Blobs.{get_doc, get_draft, list_versions}
use octo_docs_html_fork.Assets.Scan.{scan_into}
use octo_docs_html_fork.Assets.Found.{contains-append, contains-scan_split}
use octo_docs_html_fork.Assets.Gc.{
  Pass, GcDelete, GcReport, since, spared_at, is_spared, delete_locked, scan_page, scan_versions,
  scan_slug_into, gc_assets_of, gc_slug,
}
use octo_docs_html_fork.Assets.Kept.{swept}

abbrev pub deletion : String → AssetMeta → GcDelete
deletion slug a = record { slug = slug; sha256 = a.sha256; size = a.size; reason = "unreferenced" }

-- The grace period of the asset is over. Where the time of the asset cannot be read, it never is.
abbrev pub is_over : Pass → AssetMeta → Bool
is_over p a = elim (p.parse a.created) [ none ↦ false | some t ↦ leb_ℤ (t +ℤ p.grace) p.now ]

-- A duration that is not the least one.
abbrev pub IsDuration : ℤ → Type 0
IsDuration d = (is_int64 d ≡ true) × (ltb_ℤ min_int d ≡ true)

-- A scan of the page by itself finds the address.
abbrev pub page_names : Option String → String → Bool
page_names none w = false
page_names (some html) w = contains w (scan_into html [])

abbrev pub versions_name : Store → String → List ℤ → String → Bool
versions_name s slug [] w = false
versions_name s slug (n ∷ ns) w = page_names (get_doc s slug n) w || versions_name s slug ns w

-- The references of the snapshot, a version of the slug or its draft name the address.
abbrev pub is_named : Store → String → List String → String → Bool
is_named s slug refs w =
    contains w refs
    || versions_name s slug (list_versions s slug) w
    || page_names (get_draft s slug) w

-- The records that nothing names and whose grace is over.
abbrev pub due : Pass → (String → Bool) → List AssetMeta → List AssetMeta
due p named [] = []
due p named (a ∷ more) =
    let rest = due p named more in if named a.sha256 || not (is_over p a) then rest else a ∷ rest

abbrev pub deletions : String → List AssetMeta → List GcDelete
deletions slug [] = []
deletions slug (a ∷ more) = deletion slug a ∷ deletions slug more

pub record IsExact (p : Pass) (slug : String) (named : String → Bool) (as_of : List AssetMeta)
    (r : GcReport) (s : Store) (after : GcReport × Store) : Type 0 where
  pub reported : after.0.deleted ≡ r.deleted ++ deletions slug (due p named as_of)
  pub done : after.1 ≡ swept p.dry_run (deletions slug (due p named as_of)) s
  pub examined : after.0.assets ≡ r.assets + length as_of
  pub kept : after.0.kept + length (due p named as_of) ≡ r.kept + length as_of

since-over :
    (now t grace : ℤ) → IsDuration grace → ltb_ℤ (since now t) grace ≡ not (leb_ℤ (t +ℤ grace) now)
unfolding since
since-over (pos a) (pos b) (pos c) ok = ground (arith, ok)
since-over (pos a) (pos b) (negsuc c) ok = ground (arith, ok)
since-over (pos a) (negsuc b) (pos c) ok = ground (arith, ok)
since-over (pos a) (negsuc b) (negsuc c) ok = ground (arith, ok)
since-over (negsuc a) (pos b) (pos c) ok = ground (arith, ok)
since-over (negsuc a) (pos b) (negsuc c) ok = ground (arith, ok)
since-over (negsuc a) (negsuc b) (pos c) ok = ground (arith, ok)
since-over (negsuc a) (negsuc b) (negsuc c) ok = ground (arith, ok)

is_spared-is_over :
    (p : Pass) (a : AssetMeta) → IsDuration p.grace → is_spared p a ≡ not (is_over p a)
unfolding is_spared spared_at
is_spared-is_over p a grace = go (p.parse a.created)
  where
    go :
        (o : Option ℤ)
        → spared_at o p
          ≡ not (elim o as (λ _. Bool) [ none ↦ false | some t ↦ leb_ℤ (t +ℤ p.grace) p.now ])
    go none = refl
    go (some t) = since-over p.now t p.grace grace

contains-scan_page :
    (o : Option String) (refs : List String) (w : String)
    → contains w (scan_page o refs) ≡ (page_names o w || contains w refs)
unfolding scan_page
contains-scan_page none refs w = refl
contains-scan_page (some html) refs w = contains-scan_split html refs w

contains-scan_versions :
    (s : Store) (slug : String) (ns : List ℤ) (refs : List String) (w : String)
    → contains w (scan_versions s slug ns refs) ≡ (versions_name s slug ns w || contains w refs)
unfolding scan_versions
contains-scan_versions s slug [] refs w = refl
contains-scan_versions s slug (n ∷ ns) refs w =
    let rest = contains-scan_versions s slug ns (scan_page (get_doc s slug n) refs) w in
    let here = contains-scan_page (get_doc s slug n) refs w in ground (arith, rest, here)

contains-is_named :
    (s : Store) (slug : String) (refs : List String) (w : String)
    → contains w (refs ++ scan_slug_into s slug []) ≡ is_named s slug refs w
unfolding scan_slug_into
contains-is_named s slug refs w =
    let pages = scan_versions s slug (list_versions s slug) [] in
    let draft = contains-scan_page (get_draft s slug) pages w in
    let versions = contains-scan_versions s slug (list_versions s slug) [] w in
    ground (arith, contains-append w refs (scan_page (get_draft s slug) pages), draft, versions)

module _ (p : Pass) (slug : String) (named : String → Bool) where
  kept-IsExact :
      (a : AssetMeta) (more : List AssetMeta) (r r' : GcReport) (s : Store)
      (after : GcReport × Store)
      → due p named (a ∷ more) ≡ due p named more
      → r'.deleted ≡ r.deleted
      → r'.assets ≡ r.assets + 1
      → r'.kept ≡ r.kept + 1
      → IsExact p slug named more r' s after
      → IsExact p slug named (a ∷ more) r s after
  kept-IsExact a more r r' s after same deleted assets kept rest = record {
    reported =
        rest.reported
        ∙ ap (λ ds. ds ++ deletions slug (due p named more)) deleted
        ∙ ap (λ ds. r.deleted ++ deletions slug ds) (sym same);
    done = rest.done ∙ ap (λ ds. swept p.dry_run (deletions slug ds) s) (sym same);
    examined = omega (arith, rest.examined, assets);
    kept = omega (arith, rest.kept, kept, ap length same);
  }

  deleted-IsExact :
      (a : AssetMeta) (more : List AssetMeta) (r r' : GcReport) (s : Store)
      (after : GcReport × Store)
      → due p named (a ∷ more) ≡ a ∷ due p named more
      → r'.deleted ≡ r.deleted ++ deletion slug a ∷ []
      → r'.assets ≡ r.assets + 1
      → r'.kept ≡ r.kept
      → IsExact p slug named more r' (if p.dry_run then s else delete_locked s slug a.sha256) after
      → IsExact p slug named (a ∷ more) r s after
  deleted-IsExact a more r r' s after same deleted assets kept rest = record {
    reported =
        rest.reported
        ∙ ap (λ ds. ds ++ deletions slug (due p named more)) deleted
        ∙ append_assoc r.deleted (deletion slug a ∷ []) (deletions slug (due p named more))
        ∙ ap (λ ds. r.deleted ++ deletions slug ds) (sym same);
    done = rest.done ∙ ap (λ ds. swept p.dry_run (deletions slug ds) s) (sym same);
    examined = omega (arith, rest.examined, assets);
    kept = omega (arith, rest.kept, kept, ap length same);
  }

  gc_assets_of-IsExact :
      (refs : List String)
      → ((w : String) → contains w refs ≡ named w)
      → IsDuration p.grace
      → (as_of : List AssetMeta) (r : GcReport) (s : Store)
      → IsExact p slug named as_of r s (gc_assets_of p slug refs as_of r s)
  unfolding gc_assets_of
  gc_assets_of-IsExact refs agree grace [] r s = record {
    reported = sym (append-nil r.deleted);
    done = refl;
    examined = omega arith;
    kept = omega arith;
  }
  gc_assets_of-IsExact refs agree grace (a ∷ more) r s =
      let seen : GcReport = record r { assets = r.assets + 1 } in
      let rest = due p named more in
      let pick : Bool → List AssetMeta = λ b. if b then rest else a ∷ rest in
      let kept_when : Bool = named a.sha256 || not (is_over p a) in
      let timing : is_spared p a ≡ not (is_over p a) = is_spared-is_over p a grace in
      if_split (IsExact p slug named (a ∷ more) r s) (contains a.sha256 refs)
        (λ owned.
          let by_name : named a.sha256 ≡ true = sym (agree a.sha256) ∙ owned in
          let stays : kept_when ≡ true = ground (arith, by_name) in
          kept-IsExact a more r (record seen { kept = r.kept + 1; referenced = r.referenced + 1 }) s
            _ (ap pick stays) refl refl refl (gc_assets_of-IsExact refs agree grace more _ s))
        (λ free.
          let unnamed : named a.sha256 ≡ false = sym (agree a.sha256) ∙ free in
          if_split (IsExact p slug named (a ∷ more) r s) (is_spared p a)
            (λ spared.
              let stays : kept_when ≡ true = ground (arith, timing, spared) in
              kept-IsExact a more r (record seen { kept = r.kept + 1 }) s _ (ap pick stays) refl
                refl refl (gc_assets_of-IsExact refs agree grace more _ s))
            (λ over.
              let goes : kept_when ≡ false = ground (arith, unnamed, timing, over) in
              deleted-IsExact a more r (record seen { deleted = r.deleted ++ deletion slug a ∷ [] })
                s _ (ap pick goes) refl refl refl (gc_assets_of-IsExact refs agree grace more _ _)))

-- Let the grace period be an int64 other than the least. Of one slug, a pass deletes exactly the
-- records whose address neither the references of the snapshot nor the scan of any version or of
-- the draft of the slug by itself finds, and whose time can be read and lies at least the grace
-- period before now. It reports them in order after those that it had reported, deletes none in a
-- dry run and just these otherwise, and counts every record as kept or reports its deletion.
pub gc_slug-IsExact :
    (p : Pass) (slug : String) (refs : List String) (r : GcReport) (s : Store)
    → IsDuration p.grace
    → IsExact p slug (is_named s slug refs) (list_asset_meta s slug) r s (gc_slug p slug refs r s)
unfolding gc_slug
gc_slug-IsExact p slug refs r s grace =
    gc_assets_of-IsExact p slug (is_named s slug refs) (refs ++ scan_slug_into s slug [])
      (contains-is_named s slug refs) grace (list_asset_meta s slug) r s
