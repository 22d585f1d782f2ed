-- ===== src/Assets/Kept.antt =====
-- What GCAssets of internal/service/gc.go deletes, and what it reports.
use octo_docs_html_fork.Prelude.{
  ◌+◌, String, Bool, false, ◌≡◌, refl, sym, ap, ◌∙◌, List, [], ◌∷◌, ◌++◌, append-nil, append_assoc,
  arith, All, All-append, All-map, length, length-append, contains, ◌⊎◌, inl, inr, if_split,
  if◌then◌else◌,
}
use octo_docs_html_fork.Storage.State.{AssetMeta, Store}
use octo_docs_html_fork.Storage.Tables.{list_asset_meta}
use octo_docs_html_fork.Assets.Gc.{
  Pass, GcDelete, GcReport, is_spared, delete_locked, scan_slug_into, gc_assets_of, gc_slug,
  gc_slugs,
}
use octo_docs_html_fork.Assets.Found.{contains-append}

-- The store after the deletions of a report.
abbrev pub swept : Bool → List GcDelete → Store → Store
swept dry [] s = s
swept dry (d ∷ ds) s = swept dry ds (if dry then s else delete_locked s d.slug d.sha256)

swept-append :
    (dry : Bool) (ds ds' : List GcDelete) (s : Store)
    → swept dry (ds ++ ds') s ≡ swept dry ds' (swept dry ds s)
swept-append dry [] ds' s = refl
swept-append dry (d ∷ ds) ds' s = swept-append dry ds ds' _

-- A record that is listed.
abbrev pub In : AssetMeta → List AssetMeta → Type 0
In a [] = ⊥
In a (x ∷ xs) = (x ≡ a) ⊎ In a xs

-- A deletion that is due: of a record that is listed, which no reference names and whose grace is over.
pub record IsDue (p : Pass) (slug : String) (refs : List String) (as_of : List AssetMeta)
    (d : GcDelete) : Type 0 where
  pub asset : AssetMeta
  pub listed : In asset as_of
  pub of_slug : d.slug ≡ slug
  pub of_sha : d.sha256 ≡ asset.sha256
  pub unreferenced : contains asset.sha256 refs ≡ false
  pub expired : is_spared p asset ≡ false

-- What a step of a pass has done: the report grows by the deletions that were made, and counts each
-- asset once.
pub record IsStep (P : GcDelete → Type 0) (dry : Bool) (r : GcReport) (s : Store)
    (after : GcReport × Store) : Type 0 where
  pub made : List GcDelete
  pub reported : after.0.deleted ≡ r.deleted ++ made
  pub done : after.1 ≡ swept dry made s
  pub each : All P made
  pub counted : after.0.assets + r.kept ≡ r.assets + after.0.kept + length made

nothing-IsStep :
    (P : GcDelete → Type 0) (dry : Bool) (r : GcReport) (s : Store) → IsStep P dry r s (r, s)
nothing-IsStep P dry r s = record {
  made = [];
  reported = sym (append-nil r.deleted);
  done = refl;
  each = tt;
  counted = omega arith;
}

weaker-IsStep :
    {P Q : GcDelete → Type 0} (dry : Bool) (r : GcReport) (s : Store) (after : GcReport × Store)
    → ((d : GcDelete) → P d → Q d)
    → IsStep P dry r s after
    → IsStep Q dry r s after
weaker-IsStep dry r s after f step = record {
  made = step.made;
  reported = step.reported;
  done = step.done;
  each = All-map f step.made step.each;
  counted = step.counted;
}

then-IsStep :
    (P : GcDelete → Type 0) (dry : Bool) (r : GcReport) (s : Store) (mid after : GcReport × Store)
    → IsStep P dry r s mid
    → IsStep P dry mid.0 mid.1 after
    → IsStep P dry r s after
then-IsStep P dry r s mid after one two = record {
  made = one.made ++ two.made;
  reported =
      two.reported
      ∙ ap (λ ds. ds ++ two.made) one.reported
      ∙ append_assoc r.deleted one.made two.made;
  done =
      two.done
      ∙ ap (λ t. swept dry two.made t) one.done
      ∙ sym (swept-append dry one.made two.made s);
  each = All-append P one.made two.made one.each two.each;
  counted = omega (arith, one.counted, two.counted, length-append one.made two.made);
}

-- A count of one asset that is kept comes before the step.
counted-IsStep :
    (P : GcDelete → Type 0) (dry : Bool) (r r' : GcReport) (s : Store) (after : GcReport × Store)
    → r'.deleted ≡ r.deleted
    → r'.assets + r.kept ≡ r.assets + r'.kept
    → IsStep P dry r' s after
    → IsStep P dry r s after
counted-IsStep P dry r r' s after same counts step = record {
  made = step.made;
  reported = step.reported ∙ ap (λ ds. ds ++ step.made) same;
  done = step.done;
  each = step.each;
  counted = omega (arith, step.counted, counts);
}

later-IsDue :
    (p : Pass) (slug : String) (refs : List String) (a : AssetMeta) (more : List AssetMeta)
    (d : GcDelete)
    → IsDue p slug refs more d
    → IsDue p slug refs (a ∷ more) d
later-IsDue p slug refs a more d due = record {
  asset = due.asset;
  listed = inr due.listed;
  of_slug = due.of_slug;
  of_sha = due.of_sha;
  unreferenced = due.unreferenced;
  expired = due.expired;
}

module _ (p : Pass) (slug : String) (refs : List String) where
  -- the deletion of one asset that is due
  deleted-IsStep :
      (a : AssetMeta) (more : List AssetMeta) (r : GcReport) (s : Store)
      → contains a.sha256 refs ≡ false
      → is_spared p a ≡ false
      → IsStep (IsDue p slug refs (a ∷ more)) p.dry_run r s (
        record r {
          assets = r.assets + 1;
          deleted =
              r.deleted
              ++ record { slug = slug; sha256 = a.sha256; size = a.size; reason = "unreferenced" }
                ∷ [];
        },
        if p.dry_run then s else delete_locked s slug a.sha256,
      )
  deleted-IsStep a more r s free due = record {
    made = record { slug = slug; sha256 = a.sha256; size = a.size; reason = "unreferenced" } ∷ [];
    reported = refl;
    done = refl;
    each = (
      record {
        asset = a;
        listed = inl refl;
        of_slug = refl;
        of_sha = refl;
        unreferenced = free;
        expired = due;
      },
      tt,
    );
    counted = omega arith;
  }

  gc_assets_of-IsStep :
      (as_of : List AssetMeta) (r : GcReport) (s : Store)
      → IsStep (IsDue p slug refs as_of) p.dry_run r s (gc_assets_of p slug refs as_of r s)
  unfolding gc_assets_of
  gc_assets_of-IsStep [] r s = nothing-IsStep (IsDue p slug refs []) p.dry_run r s
  gc_assets_of-IsStep (a ∷ more) r s =
      let P = IsDue p slug refs (a ∷ more) in
      let later : (r' : GcReport) (s' : Store)
          → IsStep P p.dry_run r' s' (gc_assets_of p slug refs more r' s') =
        λ r' s'.
          weaker-IsStep p.dry_run r' s' (gc_assets_of p slug refs more r' s')
            (λ d. later-IsDue p slug refs a more d) (gc_assets_of-IsStep more r' s') in
      let with_referenced : GcReport = record r {
        assets = r.assets + 1;
        kept = r.kept + 1;
        referenced = r.referenced + 1;
      } in
      let with_kept : GcReport = record r { assets = r.assets + 1; kept = r.kept + 1 } in
      if_split (IsStep P p.dry_run r s) (contains a.sha256 refs)
        (λ yes.
          counted-IsStep P p.dry_run r with_referenced s _ refl (omega arith)
            (later with_referenced s))
        (λ free.
          if_split (IsStep P p.dry_run r s) (is_spared p a)
            (λ yes.
              counted-IsStep P p.dry_run r with_kept s _ refl (omega arith) (later with_kept s))
            (λ due.
              then-IsStep P p.dry_run r s _ _ (deleted-IsStep a more r s free due) (later _ _)))

-- What a pass may delete: nothing that the references of the snapshot name.
abbrev pub Unnamed : List String → GcDelete → Type 0
Unnamed refs d = contains d.sha256 refs ≡ false

-- One slug of a pass: it deletes only records of the slug that neither the snapshot nor the slug's own
-- pages name and whose grace is over, reports what it deletes, and counts each asset once.
pub gc_slug-IsStep :
    (p : Pass) (slug : String) (refs : List String) (r : GcReport) (s : Store)
    → IsStep
        (IsDue p slug (refs ++ scan_slug_into s slug []) (list_asset_meta s slug))
        p.dry_run
        r
        s
        (gc_slug p slug refs r s)
unfolding gc_slug
gc_slug-IsStep p slug refs r s =
    gc_assets_of-IsStep p slug (refs ++ scan_slug_into s slug []) (list_asset_meta s slug) r s

due-Unnamed :
    (p : Pass) (slug : String) (refs fresh : List String) (as_of : List AssetMeta) (d : GcDelete)
    → IsDue p slug (refs ++ fresh) as_of d
    → Unnamed refs d
due-Unnamed p slug refs fresh as_of d due =
    ap (λ k. contains k refs) due.of_sha
    ∙ ground (arith, contains-append due.asset.sha256 refs fresh, due.unreferenced)

pub gc_slugs-IsStep :
    (p : Pass) (slugs refs : List String) (r : GcReport) (s : Store)
    → IsStep (Unnamed refs) p.dry_run r s (gc_slugs p slugs refs r s)
unfolding gc_slugs
gc_slugs-IsStep p [] refs r s = nothing-IsStep (Unnamed refs) p.dry_run r s
gc_slugs-IsStep p (slug ∷ slugs) refs r s =
    let r' : GcReport = record r { scanned = r.scanned + 1 } in
    let step = gc_slug p slug refs r' s in
    counted-IsStep (Unnamed refs) p.dry_run r r' s _ refl (omega arith) (
      then-IsStep (Unnamed refs) p.dry_run r' s step (gc_slugs p slugs refs step.0 step.1)
        (weaker-IsStep p.dry_run r' s step
          (λ d. due-Unnamed p slug refs (scan_slug_into s slug []) (list_asset_meta s slug) d)
          (gc_slug-IsStep p slug refs r' s))
        (gc_slugs-IsStep p slugs refs step.0 step.1))
