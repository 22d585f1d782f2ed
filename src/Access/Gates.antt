-- ===== src/Access/Gates.antt =====
-- The gates of internal/transport/httpx/capability.go, which ask for a request's capability.
use octo_docs_html_fork.Prelude.{
  String, Bool, true, false, not, ◌&&◌, ◌||◌, Option, none, some, ◌==◌, is_empty, if◌then◌else◌,
}
use octo_docs_html_fork.Storage.Meta.{DocMeta, creator_uid, has_draft}
use octo_docs_html_fork.Storage.State.{Session}
use octo_docs_html_fork.Storage.Tables.{get_meta}
use octo_docs_html_fork.Roles.Capability.{Capability, at_least}
use octo_docs_html_fork.Access.Decision.{Server, Request, best_cred}

-- what a gate does with a request
pub data Gate : Type 0 where
  serve hidden errored : Gate

unfoldable pub gate_at : Option Capability → Capability → Gate
unfolding at_least
gate_at none min = Gate.errored
gate_at (some c) min = if at_least c min then Gate.serve else Gate.hidden

-- requireDocCapability and requirePathCapability
unfoldable pub require_doc_capability : Server → Request → String → Capability → Gate
unfolding gate_at best_cred
require_doc_capability s r slug min = gate_at (best_cred s r slug) min

unfoldable pub has_login : Option Session → Bool
has_login none = false
has_login (some session) = not (session.login == "")

unfoldable pub has_write_session : Request → Bool
unfolding has_login
has_write_session r = has_login r.bot_session || has_login r.session

-- no creator, no version, no draft
unfoldable pub is_vacant : DocMeta → Bool
unfolding creator_uid has_draft
is_vacant m =
    creator_uid (some m) == ""
    && elim m.versions [ none ↦ true | some vs ↦ is_empty vs ]
    && not (has_draft (some m))

unfoldable pub first_create : Option (Option DocMeta) → Server → Request → String → Gate
unfolding is_vacant has_write_session require_doc_capability
first_create none s r slug = Gate.errored
first_create (some none) s r slug = if has_write_session r then Gate.serve else Gate.hidden
first_create (some (some m)) s r slug =
    if is_vacant m
    then (if has_write_session r then Gate.serve else Gate.hidden)
    else require_doc_capability s r slug Capability.cap_edit

unfoldable pub require_doc_author_or_first_create : Server → Request → String → Gate
unfolding first_create get_meta
require_doc_author_or_first_create s r slug = first_create (get_meta s.auth.store slug) s r slug
