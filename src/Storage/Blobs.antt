-- ===== src/Storage/Blobs.antt =====
-- The BlobStore side of internal/storage/memory/memory.go.
use Prim.Native.Char.{Char, code}
use Prim.Native.String.{◌++◌, len, slice}
use octo_docs_html_fork.Prelude.{
  ℕ, ◌+◌, String, Option, none, some, List, [], ◌∷◌, ltb, if◌then◌else◌,
}
use octo_docs_html_fork.Prelude.Dict.{Dict, get, put, remove}
use octo_docs_html_fork.Prelude.Int.{ℤ, ltb_ℤ}
use octo_docs_html_fork.Storage.State.{Store}
use octo_docs_html_fork.Storage.Tables.{asset_key, extends_prefix}
use octo_docs_html_fork.Storage.Decimal.{itoa, atoi}

unfoldable pub blob_key : String → ℤ → String
blob_key slug version = slug ++ "\0" ++ itoa version

-- the bytes of a character in UTF-8
unfoldable pub char_bytes : Char → ℕ
char_bytes c =
    if ltb (code c) 128
    then 1
    else if ltb (code c) 2048
    then 2
    else if ltb (code c) 65536
    then 3
    else 4

-- len of a Go string
unfoldable pub byte_len : String → ℕ
unfolding char_bytes
byte_len String.[] = 0
byte_len (String.◌∷◌ c s) = char_bytes c + byte_len s

unfoldable pub put_doc : Store → String → ℤ → String → Store × ℕ
unfolding blob_key byte_len
put_doc s slug version html =
    (record s { blobs = put s.blobs (blob_key slug version) html }, byte_len html)

unfoldable pub get_doc : Store → String → ℤ → Option String
unfolding blob_key
get_doc s slug version = get s.blobs (blob_key slug version)

unfoldable pub head_doc : Store → String → ℤ → Option ℕ
unfolding blob_key byte_len
head_doc s slug version = elim (get s.blobs (blob_key slug version)) [
  | none ↦ none
  | some html ↦ some (byte_len html)
]

-- sort.Ints
unfoldable pub insert_version : ℤ → List ℤ → List ℤ
insert_version n [] = n ∷ []
insert_version n (m ∷ ms) =
    let later = m ∷ insert_version n ms in if ltb_ℤ m n then later else n ∷ m ∷ ms

-- k[len(prefix):]
unfoldable pub suffix_of : String → String → String
suffix_of prefix k = slice k (len prefix) (len k)

-- the version that a key spells behind the prefix
unfoldable pub version_of : String → String → Option ℤ
version_of prefix k = if extends_prefix prefix k then atoi (suffix_of prefix k) else none

unfoldable pub add_version : Option ℤ → List ℤ → List ℤ
unfolding insert_version
add_version none ms = ms
add_version (some n) ms = insert_version n ms

unfoldable pub versions_under : String → Dict String → List ℤ
versions_under prefix [] = []
versions_under prefix ((k, html) ∷ d) = add_version (version_of prefix k) (versions_under prefix d)

unfoldable pub list_versions : Store → String → List ℤ
unfolding versions_under
list_versions s slug = versions_under (slug ++ "\0") s.blobs

-- the loop that deletes every key behind the prefix
unfoldable pub purge {ℓ} : {V : Type ℓ} → String → Dict V → Dict V
unfolding extends_prefix
purge prefix [] = []
purge prefix ((k, v) ∷ d) =
    let rest = purge prefix d in if extends_prefix prefix k then rest else (k, v) ∷ rest

unfoldable pub delete_doc : Store → String → Store
unfolding purge
delete_doc s slug =
    let prefix = slug ++ "\0" in
    record s { blobs = purge prefix s.blobs; assets = purge prefix s.assets }

unfoldable pub draft_key : String → String
draft_key slug = slug ++ "\0draft"

unfoldable pub put_draft : Store → String → String → Store × ℕ
unfolding draft_key byte_len
put_draft s slug html = (record s { blobs = put s.blobs (draft_key slug) html }, byte_len html)

unfoldable pub get_draft : Store → String → Option String
unfolding draft_key
get_draft s slug = get s.blobs (draft_key slug)

unfoldable pub delete_draft : Store → String → Store
unfolding draft_key
delete_draft s slug = record s { blobs = remove s.blobs (draft_key slug) }

-- The bytes are copied.
unfoldable pub put_asset : Store → String → String → List ℕ → Store
unfolding asset_key
put_asset s slug sha256 bytes = record s { assets = put s.assets (asset_key slug sha256) bytes }

unfoldable pub get_asset : Store → String → String → Option (List ℕ)
unfolding asset_key
get_asset s slug sha256 = get s.assets (asset_key slug sha256)

unfoldable pub delete_asset : Store → String → String → Store
unfolding asset_key
delete_asset s slug sha256 = record s { assets = remove s.assets (asset_key slug sha256) }
