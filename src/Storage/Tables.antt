-- ===== src/Storage/Tables.antt =====
-- The MetadataStore side of internal/storage/memory/memory.go. A range over a map visits each key
-- once in no fixed order, and each result is sorted by a key that is unique in it.
use Prim.Native.String.{◌++◌, compare, len}
use octo_docs_html_fork.Prelude.{
  String, Bool, not, ◌&&◌, Option, none, some, List, [], ◌∷◌, ltb, is_empty, contains,
  if◌then◌else◌,
}
use text.Mathlib.Text.{is_lt, starts_with}
use octo_docs_html_fork.Prelude.Dict.{Dict, get, put, remove}
use octo_docs_html_fork.Prelude.Int.{ℤ, ltb_ℤ, ◌+ℤ◌, scale_ℤ, wrap_int64}
use octo_docs_html_fork.Types.{Comment}
use octo_docs_html_fork.Events.Legacy.{sort_strings}
use octo_docs_html_fork.Storage.Meta.{DocMeta}
use octo_docs_html_fork.Storage.Encoding.{marshal, unmarshal}
use octo_docs_html_fork.Storage.State.{
  Session, TokenRecord, AssetMeta, MetaEntry, SessionEntry, Store,
}

-- cloneJSON on metadata; `none` is its panic
unfoldable pub clone_meta : DocMeta → Option DocMeta
unfolding marshal unmarshal
clone_meta m = unmarshal (marshal m)

-- a pointer to the copy
unfoldable pub pointer : Option DocMeta → Option (Option DocMeta)
pointer none = none
pointer (some c) = some (some c)

-- The copy of what is found. The outer `none` is the panic of cloneJSON, the inner one a missing slug.
unfoldable pub copy_out : Option DocMeta → Option (Option DocMeta)
unfolding pointer
copy_out none = some none
copy_out (some m) = pointer (clone_meta m)

unfoldable pub get_meta : Store → String → Option (Option DocMeta)
unfolding copy_out
get_meta s slug = copy_out (get s.meta slug)

-- s.meta[slug] = copy
unfoldable pub store_meta : Option DocMeta → Store → String → Option Store
store_meta none s slug = none
store_meta (some c) s slug = some (record s { meta = put s.meta slug c })

unfoldable pub put_meta : Store → String → DocMeta → Option Store
unfolding store_meta
put_meta s slug m = store_meta (clone_meta m) s slug

unfoldable pub delete_meta : Store → String → Store
delete_meta s slug = record s { meta = remove s.meta slug }

-- sort.Slice by slug, on entries with distinct slugs
unfoldable pub insert_entry : MetaEntry → List MetaEntry → List MetaEntry
insert_entry e [] = e ∷ []
insert_entry e (x ∷ xs) =
    let later = x ∷ insert_entry e xs in if is_lt (compare x.slug e.slug) then later else e ∷ x ∷ xs

unfoldable pub list_meta_of : Dict DocMeta → Option (List MetaEntry)
unfolding insert_entry clone_meta
list_meta_of [] = some []
list_meta_of ((slug, m) ∷ d) =
    let rest = list_meta_of d in
    elim (clone_meta m) [
      | none ↦ none
      | some c ↦ elim rest [
        | none ↦ none
        | some es ↦ some (insert_entry (record { slug = slug; meta = c }) es)
      ]
    ]

unfoldable pub list_meta : Store → Option (List MetaEntry)
unfolding list_meta_of
list_meta s = list_meta_of s.meta

unfoldable pub get_comments : Store → String → List Comment
get_comments s slug = elim (get s.comments slug) [ none ↦ [] | some cs ↦ cs ]

unfoldable pub put_comments : Store → String → List Comment → Store
put_comments s slug cs = record s { comments = put s.comments slug cs }

unfoldable pub delete_comments : Store → String → Store
delete_comments s slug = record s { comments = remove s.comments slug }

-- What GetSession does with what it finds; an expired session is removed.
unfoldable pub found_session : Option SessionEntry → Store → String → ℤ → Option Session × Store
found_session none s sid now = (none, s)
found_session (some e) s sid now =
    if ltb_ℤ e.expires_at now
    then (none, record s { sessions = remove s.sessions sid })
    else (some e.session, s)

-- The time is that of time.Now().UnixMilli().
unfoldable pub get_session : Store → String → ℤ → Option Session × Store
unfolding found_session
get_session s sid now = found_session (get s.sessions sid) s sid now

-- time.Now().UnixMilli() + int64(ttlSeconds)*1000, on int64
unfoldable pub put_session : Store → String → Session → ℤ → ℤ → Store
unfolding wrap_int64
put_session s sid session ttl_seconds now = record s {
  sessions = put s.sessions sid (record {
    session = session;
    expires_at = wrap_int64 (now +ℤ wrap_int64 (scale_ℤ 1000 ttl_seconds));
  });
}

unfoldable pub delete_session : Store → String → Store
delete_session s sid = record s { sessions = remove s.sessions sid }

unfoldable pub get_token : Store → String → Option TokenRecord
get_token s token = get s.tokens token

-- ON CONFLICT DO NOTHING
unfoldable pub add_token : Option TokenRecord → Store → String → TokenRecord → Store
add_token none s token rec = record s { tokens = put s.tokens token rec }
add_token (some _) s token rec = s

unfoldable pub put_token : Store → String → TokenRecord → Store
unfolding add_token
put_token s token rec = add_token (get s.tokens token) s token rec

unfoldable pub any_token : Store → Bool
any_token s = not (is_empty s.tokens)

unfoldable pub asset_key : String → String → String
asset_key slug sha256 = slug ++ "\0" ++ sha256

-- if existing, ok := …; ok { meta.Created = existing.Created }
unfoldable pub keep_created : Option AssetMeta → AssetMeta → AssetMeta
keep_created none m = m
keep_created (some old) m = record m { created = old.created }

unfoldable pub put_asset_meta : Store → AssetMeta → Store
unfolding asset_key keep_created
put_asset_meta s m =
    let key = asset_key m.slug m.sha256 in
    record s { asset_meta = put s.asset_meta key (keep_created (get s.asset_meta key) m) }

unfoldable pub get_asset_meta : Store → String → String → Option AssetMeta
unfolding asset_key
get_asset_meta s slug sha256 = get s.asset_meta (asset_key slug sha256)

-- len(k) > len(prefix) && k[:len(prefix)] == prefix
unfoldable pub extends_prefix : String → String → Bool
extends_prefix prefix k = ltb (len prefix) (len k) && starts_with k prefix

unfoldable pub insert_asset : AssetMeta → List AssetMeta → List AssetMeta
insert_asset m [] = m ∷ []
insert_asset m (x ∷ xs) =
    let later = x ∷ insert_asset m xs in
    if is_lt (compare x.sha256 m.sha256) then later else m ∷ x ∷ xs

unfoldable pub assets_under : String → Dict AssetMeta → List AssetMeta
unfolding insert_asset extends_prefix
assets_under prefix [] = []
assets_under prefix ((k, m) ∷ d) =
    let rest = assets_under prefix d in
    if extends_prefix prefix k then insert_asset m rest else rest

unfoldable pub list_asset_meta : Store → String → List AssetMeta
unfolding assets_under
list_asset_meta s slug = assets_under (slug ++ "\0") s.asset_meta

unfoldable pub delete_asset_meta : Store → String → String → Store
unfolding asset_key
delete_asset_meta s slug sha256 = record s {
  asset_meta = remove s.asset_meta (asset_key slug sha256);
}

-- the set `seen`, as a list without duplicates
unfoldable pub slugs_seen : Dict AssetMeta → List String
slugs_seen [] = []
slugs_seen ((k, m) ∷ d) =
    let rest = slugs_seen d in if contains m.slug rest then rest else m.slug ∷ rest

unfoldable pub list_asset_slugs : Store → List String
unfolding slugs_seen sort_strings
list_asset_slugs s = sort_strings (slugs_seen s.asset_meta)
