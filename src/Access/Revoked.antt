-- ===== src/Access/Revoked.antt =====
-- What RemoveGrant (internal/service/grants.go) takes away from the member tier of
-- internal/transport/httpx/capability.go.
use octo_docs_html_fork.Prelude.{
  String, Bool, true, false, not, ◌&&◌, ◌≡◌, refl, sym, ap, ◌∙◌, Option, none, some, ◌==◌, ltb,
  eq_refl, Bool-cases, inl, inr, if_either, if◌then◌else◌,
}
use octo_docs_html_fork.Prelude.Dict.{get}
use octo_docs_html_fork.Storage.Meta.{DocMeta}
use octo_docs_html_fork.Storage.State.{Store}
use octo_docs_html_fork.Storage.Tables.{get_meta, copy_out}
use octo_docs_html_fork.Roles.Capability.{Capability, rank, capability_for_grant_role}
use octo_docs_html_fork.Grants.Table.{Db}
use octo_docs_html_fork.Grants.Copies.{copied, copy_out-some}
use octo_docs_html_fork.Grants.Service.{
  Fault, Auth, is_creator, remove_grant_from_meta_locked, remove_grant_from_doc_member, sweep_if,
  remove_grant_locked, remove_checked, remove_grant,
}
use octo_docs_html_fork.Grants.Legacy.{role_read, legacy_role, remove_grant_from_meta_locked-role}
use octo_docs_html_fork.Access.Lookup.{role_in_mirror, role_by_slug_uid, doc_members_wired}
use octo_docs_html_fork.Access.Cleared.{
  cleared_if, cleared_if-unregistered, IsCleared, remove_grant_from_doc_member-IsCleared,
}
use octo_docs_html_fork.Access.Decision.{
  role_capability, stronger, legacy_tier, fallback_tier, row_tier, member_tier,
}

-- A read of the metadata does not panic.
pub get_meta-some : (s : Store) (slug : String) → (m : Option DocMeta) × (get_meta s slug ≡ some m)
unfolding get_meta copy_out
get_meta-some s slug = go (get s.meta slug)
  where
    go : (o : Option DocMeta) → (m : Option DocMeta) × (copy_out o ≡ some m)
    go none = (none, refl)
    go (some m) = (some (copied m), copy_out-some m)

pub stronger-none : (best : Capability) → stronger best Capability.cap_none ≡ best
unfolding stronger
stronger-none Capability.cap_none = refl
stronger-none Capability.cap_read = refl
stronger-none Capability.cap_comment = refl
stronger-none Capability.cap_edit = refl
stronger-none Capability.cap_manage = refl

module _ (a : Auth) (slug uid : String) where
  -- Without a role in the metadata, the fallback adds nothing.
  fallback_tier-none :
      (allowed : Bool) (best : Capability)
      → legacy_role a.store slug uid ≡ ""
      → fallback_tier allowed a slug uid best ≡ some best
  unfolding fallback_tier
  fallback_tier-none allowed best h =
      elim (Bool-cases (ltb (rank best) (rank Capability.cap_edit) && allowed && not (uid == ""))) [
        | inr skipped ↦ rw skipped refl
        | inl asked ↦
            let (m, there) = get_meta-some a.store slug in
            rw asked (
              ap (λ o. legacy_tier o uid best) there
              ∙ no_role m (sym (ap (λ o. role_read o uid) there) ∙ h))
      ]
    where
      no_role :
          (m : Option DocMeta)
          → role_read (some m) uid ≡ ""
          → legacy_tier (some m) uid best ≡ some best
      no_role none h = refl
      no_role (some m) h =
          ap (λ r. some (stronger best (capability_for_grant_role r))) h
          ∙ ap some (stronger-none best)

  -- Without a row and without a role in the metadata, the member tier adds nothing.
  pub member_tier-none :
      (b : Bool) (best : Capability)
      → legacy_role a.store slug uid ≡ ""
      → role_by_slug_uid a slug uid ≡ some (record { role = none; registered = b })
      → member_tier a slug (record { self = uid; owner = uid }) best ≡ some best
  unfolding member_tier row_tier role_capability
  member_tier-none b best h none_there =
      elim (Bool-cases (ltb (rank best) (rank Capability.cap_manage))) [
        | inr high ↦ rw high refl
        | inl low ↦ elim (Bool-cases (doc_members_wired a && not (uid == ""))) [
          | inr unwired ↦ rw (low, unwired) (fallback_tier-none true best h)
          | inl wired ↦
              rw (low, wired)
                (ap (λ o. row_tier o a slug uid best) none_there
                  ∙ ap (λ c. fallback_tier (not b) a slug uid c) (stronger-none best)
                  ∙ fallback_tier-none (not b) best h)
        ]
      ]

-- What is left of the grants after one is revoked.
pub record IsRevoked (a a' : Auth) (slug uid : String) : Type 0 where
  pub no_access :
      (best : Capability)
      → member_tier a' slug (record { self = uid; owner = uid }) best ≡ some best
  pub no_legacy :
      (u : String)
      → legacy_role a'.store slug u ≡ (if uid == u then "" else legacy_role a.store slug u)
  pub no_row :
      (u : String) → role_by_slug_uid a' slug u ≡ cleared_if (uid == u) (role_by_slug_uid a slug u)

module _ (a : Auth) (slug uid : String) where
  unwired-IsRevoked :
      a.mirror ≡ none
      → (r : Option Fault × Store) → r ≡ remove_grant_from_meta_locked a.store slug uid
      → r.0 ≡ none
      → IsRevoked a (record { store = r.1; mirror = none }) slug uid
  unfolding role_by_slug_uid role_in_mirror
  unwired-IsRevoked unwired r is ok =
      let swept : (u : String)
          → legacy_role r.1 slug u ≡ (if uid == u then "" else legacy_role a.store slug u) =
        λ u. swept_by r is ok u in
      record {
        no_access = λ best.
            member_tier-none (record { store = r.1; mirror = none }) slug uid false best
              (swept uid ∙ rw (eq_refl uid) refl) refl;
        no_legacy = swept;
        no_row = λ u. sym (
            ap (λ o. cleared_if (uid == u) (role_in_mirror o slug u)) unwired
            ∙ cleared_if-unregistered (uid == u));
      }
    where
      swept_by :
          (r : Option Fault × Store)
          → r ≡ remove_grant_from_meta_locked a.store slug uid
          → r.0 ≡ none
          → (u : String)
          → legacy_role r.1 slug u ≡ (if uid == u then "" else legacy_role a.store slug u)
      swept_by r is ok u =
          ap (λ x. legacy_role x.1 slug u) is
          ∙ remove_grant_from_meta_locked-role a.store slug uid u (sym (ap (λ x. x.0) is) ∙ ok)

  wired-IsRevoked :
      (db db' : Db) (o : Option Fault)
      → a.mirror ≡ some db
      → (o ≡ none → IsCleared db db' slug uid)
      → (sweep_if o db' a.store slug uid).0 ≡ none
      → IsRevoked a (sweep_if o db' a.store slug uid).1 slug uid
  unfolding sweep_if role_by_slug_uid
  wired-IsRevoked db db' (some fault) wired clears ok = absurd (cc)
  wired-IsRevoked db db' none wired clears ok =
      let is = clears refl in
      let s' : Store = (remove_grant_from_meta_locked a.store slug uid).1 in
      record {
        no_access = λ best.
            member_tier-none (record { store = s'; mirror = some db' }) slug uid is.registered best
              (remove_grant_from_meta_locked-role a.store slug uid uid ok ∙ rw (eq_refl uid) refl)
              is.gone;
        no_legacy = λ u. remove_grant_from_meta_locked-role a.store slug uid u ok;
        no_row = λ u.
            is.others u ∙ sym (ap (λ o. cleared_if (uid == u) (role_in_mirror o slug u)) wired);
      }

  locked-IsRevoked :
      (o : Option Db)
      → a.mirror ≡ o
      → (remove_grant_locked o a.store slug uid).0 ≡ none
      → IsRevoked a (remove_grant_locked o a.store slug uid).1 slug uid
  unfolding remove_grant_locked
  locked-IsRevoked none unwired ok =
      unwired-IsRevoked unwired (remove_grant_from_meta_locked a.store slug uid) refl ok
  locked-IsRevoked (some db) wired ok =
      let deleted = remove_grant_from_doc_member db slug uid in
      wired-IsRevoked db deleted.1 deleted.0 wired
        (remove_grant_from_doc_member-IsCleared db slug uid) ok

-- After RemoveGrant has succeeded, whether a mirror is wired or not, the member tier adds nothing
-- for a session of the uid, not by a row and not by a grant that is left in the metadata. The row
-- and the grant in the metadata of every other uid are as before.
pub remove_grant-IsRevoked :
    (a : Auth) (slug uid : String)
    → (remove_grant a slug uid).0 ≡ none
    → IsRevoked a (remove_grant a slug uid).1 slug uid
unfolding remove_grant remove_checked
remove_grant-IsRevoked a slug uid = if_either Leaves (uid == "") no_uid (go (get_meta a.store slug))
  where
    Leaves : Option Fault × Auth → Type 0
    Leaves r = r.0 ≡ none → IsRevoked a r.1 slug uid

    no_uid : Leaves (some Fault.uid_required, a)
    no_uid ok = absurd (cc)

    go : (o : Option (Option DocMeta)) → Leaves (remove_checked o a slug uid)
    go none ok = absurd (cc)
    go (some none) ok = absurd (cc)
    go (some (some m)) ok =
        if_either Leaves (is_creator m uid) (λ refused. absurd (cc))
          (locked-IsRevoked a slug uid a.mirror refl) ok
