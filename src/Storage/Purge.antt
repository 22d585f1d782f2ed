-- ===== src/Storage/Purge.antt =====
-- What DeleteDoc of internal/storage/memory/memory.go leaves.
use Prim.Native.String.{◌++◌, len}
use Prim.Native.String.len
use text.Mathlib.TextLemmas.{append_assoc}
use text.Mathlib.TextPositions.{len-append, starts_with-append, len_utf8-pos}
use octo_docs_html_fork.Prelude.{
  String, true, ◌≡◌, ◌≢◌, refl, none, [], ◌∷◌, ltb, arith, eq_iff, if◌then◌else◌,
}
use octo_docs_html_fork.Prelude.Dict.{Dict, get}
use octo_docs_html_fork.Prelude.Int.{ℤ}
use octo_docs_html_fork.Storage.State.{Store}
use octo_docs_html_fork.Storage.Tables.{asset_key, extends_prefix}
use octo_docs_html_fork.Storage.Decimal.{itoa}
use octo_docs_html_fork.Storage.Digits.{itoa-ne_nil}
use octo_docs_html_fork.Storage.Blobs.{
  purge, delete_doc, get_doc, get_draft, get_asset, blob_key, draft_key,
}

len-pos : (s : String) → s ≢ "" → ltb 0 (len s) ≡ true
len-pos String.[] h = absurd (h refl)
len-pos (String.◌∷◌ c s) h =
    let (k, is_pos) = len_utf8-pos c in rw (len.cons c s, is_pos) (ground arith)

-- A key that goes on behind the prefix is found.
pub extends_prefix-append :
    (prefix rest : String) → rest ≢ "" → extends_prefix prefix (prefix ++ rest) ≡ true
unfolding extends_prefix
extends_prefix-append prefix rest h =
    rw (starts_with-append prefix rest, len-append prefix rest) (ground (arith, len-pos rest h))

-- A look-up after the loop finds what does not go on behind the prefix.
pub get-purge {ℓ} :
    {V : Type ℓ} (prefix : String) (d : Dict V) (k : String)
    → get (purge prefix d) k ≡ (if extends_prefix prefix k then none else get d k)
unfolding purge get
get-purge prefix [] k = ground arith
get-purge prefix ((j, v) ∷ d) k = ground (arith, eq_iff j k, get-purge prefix d k)

-- every document, the draft and every asset of a slug
pub record IsPurged (s : Store) (slug : String) : Type 0 where
  pub no_doc : (version : ℤ) → get_doc s slug version ≡ none
  pub no_draft : get_draft s slug ≡ none
  pub no_asset : (sha256 : String) → sha256 ≢ "" → get_asset s slug sha256 ≡ none

get-purge_behind {ℓ} :
    {V : Type ℓ} (slug rest : String) (d : Dict V)
    → rest ≢ ""
    → get (purge (slug ++ "\0") d) (slug ++ "\0" ++ rest) ≡ none
get-purge_behind slug rest d h =
    rw
      (
        get-purge (slug ++ "\0") d (slug ++ "\0" ++ rest),
        ← append_assoc slug "\0" rest,
        extends_prefix-append (slug ++ "\0") rest h,
      )
      refl

-- After DeleteDoc no version, no draft and no asset under a non-empty hash is found for the slug.
pub delete_doc-IsPurged : (s : Store) (slug : String) → IsPurged (delete_doc s slug) slug
unfolding delete_doc get_doc get_draft get_asset blob_key draft_key asset_key
delete_doc-IsPurged s slug = record {
  no_doc = λ version. get-purge_behind slug (itoa version) s.blobs (itoa-ne_nil version);
  no_draft = get-purge_behind slug "draft" s.blobs (ground (arith, eq_iff "draft" ""));
  no_asset = λ sha256 h. get-purge_behind slug sha256 s.assets h;
}
