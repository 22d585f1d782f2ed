-- ===== src/Access/Managers.antt =====
-- Who may manage a document (internal/transport/httpx/capability.go).
use octo_docs_html_fork.Prelude.{
  String, Bool, true, false, not, ◌&&◌, ◌||◌, ◌≡◌, refl, ap, ◌∙◌, Option, none, some, ◌==◌, arith,
  eq_iff, Bool-cases, inl, inr, if_either, if_split,
}
use octo_docs_html_fork.Prelude.Int.{ℤ, eq_of_test}
use octo_docs_html_fork.Storage.Meta.{DocMeta}
use octo_docs_html_fork.Storage.State.{Session}
use octo_docs_html_fork.Storage.Tables.{get_meta}
use octo_docs_html_fork.Roles.Capability.{Capability, at_least, role_admin}
use octo_docs_html_fork.Grants.Service.{is_creator}
use octo_docs_html_fork.Access.Lookup.{RoleAnswer, role_by_slug_uid, doc_members_wired}
use octo_docs_html_fork.Access.Decision.{
  Request, Server, cred_candidates, stronger, creds_tier, Uids, session_uids, member_tier,
  created_by, is_admin, Verdict, verdict_if, owner_hit, owner_tier, creator_tier, author_tier,
  bound, binding_tier, finish_with, after_author, owns, after_creds, best_cred,
}
use octo_docs_html_fork.Access.Lesser.{
  IsLess, Justified, stronger-IsLess, less-Justified, none-Justified, creds_tier-IsLess,
  HasAdminRow, member_tier-Justified,
}

is_admin-role : (role : Option ℤ) → is_admin role ≡ true → role ≡ some role_admin
unfolding is_admin
is_admin-role none h = absurd (cc)
is_admin-role (some role) h = ap some (eq_of_test role role_admin h)

-- The reasons for which a request may manage a document.
pub data Manager (s : Server) (r : Request) (slug : String) : Type 0 where
  super_admin : owns s.config r.session ≡ true → Manager s r slug
  creator :
      (m : DocMeta)
      → get_meta s.auth.store slug ≡ some (some m)
      → is_creator m (session_uids r.session r.bot_session).self ≡ true
      → Manager s r slug
  owner_of_creator :
      (m : DocMeta)
      → get_meta s.auth.store slug ≡ some (some m)
      → is_creator m (session_uids r.session r.bot_session).owner ≡ true
      → Manager s r slug
  owner_row :
      HasAdminRow s.auth slug (session_uids r.session r.bot_session).owner → Manager s r slug
  self_row : HasAdminRow s.auth slug (session_uids r.session r.bot_session).self → Manager s r slug
  bound_creator :
      (resolve : String → String → Option (Option String))
      → s.binding ≡ some resolve
      → resolve r.octo_token slug ≡ some (some (session_uids r.session r.bot_session).owner)
      → Manager s r slug

module _ (s : Server) (r : Request) (slug : String) where
  abbrev uids : Uids
  uids = session_uids r.session r.bot_session

  created_by-Manager :
      (m : Option DocMeta) (uid : String)
      → created_by m uid ≡ true
      → (x : DocMeta) × (m ≡ some x) × (is_creator x uid ≡ true)
  unfolding created_by
  created_by-Manager none uid h = absurd (cc)
  created_by-Manager (some m) uid h = (m, refl, h)

  verdict : (b : Bool) → verdict_if b ≡ Verdict.author → b ≡ true
  unfolding verdict_if
  verdict true h = refl
  verdict false h = absurd (cc)

  owner_tier-Manager :
      (m : Option DocMeta)
      → get_meta s.auth.store slug ≡ some m
      → owner_tier s.auth slug m uids.owner ≡ Verdict.author
      → Manager s r slug
  unfolding owner_tier
  owner_tier-Manager m there =
      if_either Ends (uids.owner == "") (λ no. absurd (cc))
        (if_either Ends (doc_members_wired s.auth)
          (hit (role_by_slug_uid s.auth slug uids.owner) refl)
          (λ is. by_creator (verdict (created_by m uids.owner) is)))
    where
      Ends : Verdict → Type 0
      Ends v = v ≡ Verdict.author → Manager s r slug

      by_creator : created_by m uids.owner ≡ true → Manager s r slug
      by_creator h =
          let (x, is, mine) = created_by-Manager m uids.owner h in
          Manager.owner_of_creator x (there ∙ ap some is) mine

      admin_answer :
          (answer : RoleAnswer)
          → is_admin answer.role ≡ true
          → some answer ≡ some (record { role = some role_admin; registered = answer.registered })
      admin_answer answer high = λ i.
          some (record { role = is_admin-role answer.role high i; registered = answer.registered })

      hit :
          (o : Option RoleAnswer)
          → role_by_slug_uid s.auth slug uids.owner ≡ o
          → Ends (owner_hit o m uids.owner)
      hit none h is = absurd (cc)
      hit (some answer) h is = elim (Bool-cases (is_admin answer.role)) [
        | inl high ↦ Manager.owner_row (answer.registered, h ∙ admin_answer answer high)
        | inr low ↦
            by_creator
              (ground (arith, verdict (is_admin answer.role || created_by m uids.owner) is, low))
      ]

  creator_tier-Manager :
      (o : Option (Option DocMeta))
      → get_meta s.auth.store slug ≡ o
      → creator_tier o s.auth slug uids ≡ Verdict.author
      → Manager s r slug
  unfolding creator_tier
  creator_tier-Manager none there is = absurd (cc)
  creator_tier-Manager (some m) there is =
      if_split (λ v. v ≡ Verdict.author → Manager s r slug)
        (created_by m uids.self && not (uids.self == ""))
        (λ both done.
          let (x, found, mine) = created_by-Manager m uids.self (ground (arith, both)) in
          Manager.creator x (there ∙ ap some found) mine)
        (λ other. owner_tier-Manager m there) is

  author_tier-Manager : author_tier s.auth slug uids ≡ Verdict.author → Manager s r slug
  unfolding author_tier
  author_tier-Manager =
      if_either (λ v. v ≡ Verdict.author → Manager s r slug) (uids.self == "" && uids.owner == "")
        (λ no. absurd (cc)) (creator_tier-Manager (get_meta s.auth.store slug) refl)

  Ok : Option Capability → Type 0
  Ok = Justified (Manager s r slug)

  bound-Justified :
      (resolve : String → String → Option (Option String)) (o : Option (Option String))
      (best : Capability)
      → s.binding ≡ some resolve
      → resolve r.octo_token slug ≡ o
      → IsLess best
      → Ok (some (bound o uids.owner best))
  unfolding Ok bound at_least
  bound-Justified resolve none best wired answer less = less-Justified (Manager s r slug) best less
  bound-Justified resolve (some none) best wired answer less =
      less-Justified (Manager s r slug) best less
  bound-Justified resolve (some (some by)) best wired answer less =
      elim (Bool-cases (not (by == "") && not (uids.owner == "") && by == uids.owner)) [
        | inr other ↦ rw other (
            less-Justified (Manager s r slug) (stronger best Capability.cap_read)
              (stronger-IsLess best Capability.cap_read less refl))
        | inl mine ↦
            let is_owner : by ≡ uids.owner = (eq_iff by uids.owner).0 (ground (arith, mine)) in
            λ c is.
              inr (Manager.bound_creator resolve wired (answer ∙ ap (λ x. some (some x)) is_owner))
      ]

  binding_tier-Justified :
      (o : Option (String → String → Option (Option String))) (best : Capability)
      → s.binding ≡ o
      → IsLess best
      → Ok (some (binding_tier o r slug uids.owner best))
  unfolding Ok binding_tier
  binding_tier-Justified none best wired less = less-Justified (Manager s r slug) best less
  binding_tier-Justified (some resolve) best wired less =
      if_either (λ c. Justified (Manager s r slug) (some c)) (r.octo_token == "")
        (less-Justified (Manager s r slug) best less)
        (bound-Justified resolve (resolve r.octo_token slug) best wired refl less)

  finish_with-Justified :
      (o : Option Capability)
      → Justified (HasAdminRow s.auth slug uids.self) o
      → Ok (finish_with o s r slug uids.owner)
  unfolding Ok finish_with
  finish_with-Justified none h = none-Justified (Manager s r slug)
  finish_with-Justified (some best) h = elim (h best refl) [
    | inr row ↦ λ c is. inr (Manager.self_row row)
    | inl less ↦ in_session r.session best less
  ]
    where
      in_session :
          (session : Option Session) (best : Capability)
          → IsLess best
          → Ok (elim session as (λ _. Option Capability) [
            | none ↦ some best
            | some _ ↦ some (binding_tier s.binding r slug uids.owner best)
          ])
      in_session none best less = less-Justified (Manager s r slug) best less
      in_session (some session) best less = binding_tier-Justified s.binding best refl less

  after_author-Justified :
      (v : Verdict) (best : Capability)
      → author_tier s.auth slug uids ≡ v
      → IsLess best
      → Ok (after_author v s r slug uids best)
  unfolding Ok after_author
  after_author-Justified Verdict.failed best h less = none-Justified (Manager s r slug)
  after_author-Justified Verdict.author best h less = λ c is. inr (author_tier-Manager h)
  after_author-Justified Verdict.passed best h less =
      finish_with-Justified (member_tier s.auth slug uids best)
        (member_tier-Justified s.auth slug uids best less)

  after_creds-Justified :
      (o : Option Capability)
      → ((best : Capability) → o ≡ some best → IsLess best)
      → Ok (after_creds o s r slug)
  unfolding Ok after_creds
  after_creds-Justified none less = none-Justified (Manager s r slug)
  after_creds-Justified (some best) less =
      if_split (Justified (Manager s r slug)) (owns s.config r.session)
        (λ yes c is. inr (Manager.super_admin yes))
        (λ no. after_author-Justified (author_tier s.auth slug uids) best refl (less best refl))

-- A request may manage a document only where it is a super admin's or the configured owner's, or
-- its session's uid, or the uid of the bot's owner, is the creator's or has an admin's row, or a
-- binding names the latter as the creator. No share code, no row of another role and no grant in
-- the metadata gives that right.
pub best_cred-Manager :
    (s : Server) (r : Request) (slug : String)
    → best_cred s r slug ≡ some Capability.cap_manage
    → Manager s r slug
unfolding best_cred Ok at_least
best_cred-Manager s r slug h =
    elim (after_creds-Justified s r slug
      (creds_tier s (get_meta s.auth.store slug) (cred_candidates r) Capability.cap_none)
      (λ best is.
        creds_tier-IsLess s (get_meta s.auth.store slug) (cred_candidates r) _ best refl is)
      Capability.cap_manage h) [ inl less ↦ absurd (cc) | inr reason ↦ reason ]
