-- ===== src/Storage/State.antt =====
-- The in-memory store of internal/storage/memory/memory.go, and the records of
-- internal/storage/store.go that it keeps. Each of its methods holds the store's mutex throughout, so
-- a method is one step. cloneJSON gives an independent copy; in this model values are not shared, so
-- of the copy only what the encoding changes is left: see `put_meta` in Tables.
use octo_docs_html_fork.Prelude.{ℕ, String, Option, List, []}
use octo_docs_html_fork.Prelude.Dict.{Dict}
use octo_docs_html_fork.Prelude.Int.{ℤ}
use octo_docs_html_fork.Types.{Comment}
use octo_docs_html_fork.Storage.Meta.{DocMeta}

-- `owner_uid` is kept in memory only.
pub record Session : Type 0 where
  pub login : String
  pub name : String
  pub avatar_url : Option String
  pub role : String
  pub created : String
  pub owner_uid : String

pub record TokenRecord : Type 0 where
  pub token : String
  pub created : String
  pub label : String

pub record AssetMeta : Type 0 where
  pub slug : String
  pub sha256 : String
  pub mime : String
  pub size : ℕ
  pub original_name : String
  pub created : String

pub record MetaEntry : Type 0 where
  pub slug : String
  pub meta : DocMeta

pub record SessionEntry : Type 0 where
  pub session : Session
  pub expires_at : ℤ

pub record Store : Type 0 where
  pub meta : Dict DocMeta
  pub comments : Dict (List Comment)
  pub sessions : Dict SessionEntry
  pub tokens : Dict TokenRecord
  pub blobs : Dict String
  pub assets : Dict (List ℕ)
  pub asset_meta : Dict AssetMeta

-- New()
abbrev pub empty_store : Store
empty_store = record {
  meta = [];
  comments = [];
  sessions = [];
  tokens = [];
  blobs = [];
  assets = [];
  asset_meta = [];
}
