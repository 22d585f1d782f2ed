-- ===== src/Access/Decision.antt =====
-- bestCred of internal/transport/httpx/capability.go, with its tiers in their order. `none` is
-- an error. The service that answers whether a document is bound is a parameter.
use octo_docs_html_fork.Prelude.{
  String, Bool, true, false, not, ◌&&◌, ◌||◌, Option, none, some, List, [], ◌∷◌, keep, ◌==◌, ltb,
  if◌then◌else◌,
}
use octo_docs_html_fork.Prelude.Int.{ℤ, eqb_ℤ}
use octo_docs_html_fork.Storage.Meta.{DocMeta, grant_role}
use octo_docs_html_fork.Storage.State.{Session}
use octo_docs_html_fork.Storage.Tables.{get_meta}
use octo_docs_html_fork.Roles.Capability.{
  Capability, rank, role_admin, capability_for_doc_role, capability_for_grant_role,
}
use octo_docs_html_fork.Roles.Share.{capability_for}
use octo_docs_html_fork.Grants.Service.{Auth, is_creator}
use octo_docs_html_fork.Access.Lookup.{
  RoleAnswer, role_by_slug_uid, doc_members_wired, Config, is_owner,
}

-- What a request carries; a credential that is missing is "".
pub record Request : Type 0 where
  pub bearer : String
  pub cookie : String
  pub code : String
  pub session : Option Session
  pub bot_session : Option Session
  pub octo_token : String

-- `binding` is docBinding.Resolve, if there is a client: an error, no binding, or the creator's uid of one.
pub record Server : Type 0 where
  pub auth : Auth
  pub config : Config
  pub hash : String → String
  pub binding : Option (String → String → Option (Option String))

unfoldable pub cred_candidates : Request → List String
cred_candidates r = keep (λ c. not (c == "")) (r.bearer ∷ r.cookie ∷ r.code ∷ [])

-- if c > best { best = c }
unfoldable pub stronger : Capability → Capability → Capability
stronger best c = if ltb (rank best) (rank c) then c else best

-- The loop over the credentials. Each reads the metadata.
unfoldable pub creds_tier :
    Server → Option (Option DocMeta) → List String → Capability → Option Capability
unfolding capability_for stronger
creds_tier s found [] best = some best
creds_tier s none (c ∷ cs) best = none
creds_tier s (some m) (c ∷ cs) best =
    creds_tier s (some m) cs (stronger best (capability_for s.hash m c))

pub record Uids : Type 0 where
  pub self : String
  pub owner : String

unfoldable pub owner_uid : Option Session → Session → String
owner_uid none session = session.login
owner_uid (some bot) session = if bot.owner_uid == "" then session.login else bot.owner_uid

unfoldable pub session_uids : Option Session → Option Session → Uids
unfolding owner_uid
session_uids none bot = record { self = ""; owner = "" }
session_uids (some session) bot = record { self = session.login; owner = owner_uid bot session }

unfoldable pub role_capability : Option ℤ → Capability
unfolding capability_for_doc_role
role_capability none = Capability.cap_none
role_capability (some role) = capability_for_doc_role role

-- the grants in the metadata
unfoldable pub legacy_tier : Option (Option DocMeta) → String → Capability → Option Capability
unfolding stronger capability_for_grant_role grant_role
legacy_tier none uid best = none
legacy_tier (some none) uid best = some best
legacy_tier (some (some m)) uid best =
    some (stronger best (capability_for_grant_role (grant_role (some m) uid)))

unfoldable pub fallback_tier : Bool → Auth → String → String → Capability → Option Capability
unfolding legacy_tier get_meta
fallback_tier allowed a slug uid best =
    if ltb (rank best) (rank Capability.cap_edit) && allowed && not (uid == "")
    then legacy_tier (get_meta a.store slug) uid best
    else some best

unfoldable pub row_tier :
    Option RoleAnswer → Auth → String → String → Capability → Option Capability
unfolding fallback_tier role_capability stronger
row_tier none a slug uid best = none
row_tier (some answer) a slug uid best =
    fallback_tier (not answer.registered) a slug uid (stronger best (role_capability answer.role))

-- The member tier: the row in doc_member, and the metadata where the document is not registered.
unfoldable pub member_tier : Auth → String → Uids → Capability → Option Capability
unfolding row_tier fallback_tier role_by_slug_uid doc_members_wired
member_tier a slug uids best =
    if ltb (rank best) (rank Capability.cap_manage)
    then (if doc_members_wired a && not (uids.self == "")
        then row_tier (role_by_slug_uid a slug uids.self) a slug uids.owner best
        else fallback_tier true a slug uids.owner best)
    else some best

-- creator != "" && creator == uid, where there is metadata
unfoldable pub created_by : Option DocMeta → String → Bool
unfolding is_creator
created_by none uid = false
created_by (some m) uid = is_creator m uid

unfoldable pub is_admin : Option ℤ → Bool
is_admin none = false
is_admin (some role) = eqb_ℤ role role_admin

-- the outcome of a tier that ends the search, or does not
pub data Verdict : Type 0 where
  failed author passed : Verdict

unfoldable pub verdict_if : Bool → Verdict
verdict_if true = Verdict.author
verdict_if false = Verdict.passed

unfoldable pub owner_hit : Option RoleAnswer → Option DocMeta → String → Verdict
unfolding verdict_if is_admin created_by
owner_hit none m uid = Verdict.failed
owner_hit (some answer) m uid = verdict_if (is_admin answer.role || created_by m uid)

-- the tier of the owner's admin row
unfoldable pub owner_tier : Auth → String → Option DocMeta → String → Verdict
unfolding owner_hit role_by_slug_uid doc_members_wired verdict_if created_by
owner_tier a slug m owner =
    if owner == ""
    then Verdict.passed
    else if doc_members_wired a
    then owner_hit (role_by_slug_uid a slug owner) m owner
    else verdict_if (created_by m owner)

-- the tier of the creator, which comes before
unfoldable pub creator_tier : Option (Option DocMeta) → Auth → String → Uids → Verdict
unfolding owner_tier created_by
creator_tier none a slug uids = Verdict.failed
creator_tier (some m) a slug uids =
    if created_by m uids.self && not (uids.self == "")
    then Verdict.author
    else owner_tier a slug m uids.owner

unfoldable pub author_tier : Auth → String → Uids → Verdict
unfolding creator_tier get_meta
author_tier a slug uids =
    if uids.self == "" && uids.owner == ""
    then Verdict.passed
    else creator_tier (get_meta a.store slug) a slug uids

unfoldable pub bound : Option (Option String) → String → Capability → Capability
unfolding stronger
bound none uid best = best
bound (some none) uid best = best
bound (some (some creator)) uid best = stronger best (
    if not (creator == "") && not (uid == "") && creator == uid
    then Capability.cap_manage
    else Capability.cap_read)

unfoldable pub binding_tier :
    Option (String → String → Option (Option String))
    → Request
    → String
    → String
    → Capability
    → Capability
unfolding bound
binding_tier none r slug uid best = best
binding_tier (some resolve) r slug uid best =
    if r.octo_token == "" then best else bound (resolve r.octo_token slug) uid best

-- The tiers of the members and of the bindings; the latter asks only for a session.
unfoldable pub finish_with :
    Option Capability → Server → Request → String → String → Option Capability
unfolding binding_tier
finish_with none s r slug uid = none
finish_with (some best) s r slug uid = elim r.session [
  | none ↦ some best
  | some _ ↦ some (binding_tier s.binding r slug uid best)
]

unfoldable pub after_author :
    Verdict → Server → Request → String → Uids → Capability → Option Capability
unfolding stronger finish_with member_tier
after_author Verdict.failed s r slug uids best = none
after_author Verdict.author s r slug uids best = some (stronger best Capability.cap_manage)
after_author Verdict.passed s r slug uids best =
    finish_with (member_tier s.auth slug uids best) s r slug uids.owner

unfoldable pub owns : Config → Option Session → Bool
unfolding is_owner
owns cfg none = false
owns cfg (some session) = is_owner cfg session

unfoldable pub after_creds : Option Capability → Server → Request → String → Option Capability
unfolding after_author author_tier session_uids owns stronger
after_creds none s r slug = none
after_creds (some best) s r slug =
    let uids = session_uids r.session r.bot_session in
    if owns s.config r.session
    then some (stronger best Capability.cap_manage)
    else after_author (author_tier s.auth slug uids) s r slug uids best

unfoldable pub best_cred : Server → Request → String → Option Capability
unfolding after_creds creds_tier cred_candidates get_meta
best_cred s r slug =
    after_creds (creds_tier s (get_meta s.auth.store slug) (cred_candidates r) Capability.cap_none)
      s r slug
