-- ===== src/Access/Lesser.antt =====
-- The tiers of internal/transport/httpx/capability.go that give less than the right to manage, and
-- when the member tier gives it.
use octo_docs_html_fork.Prelude.{
  String, Bool, true, false, not, ◌≡◌, refl, ap, ◌∙◌, subst, Option, none, some, List, [], ◌∷◌, ◌⊎◌,
  ltb, arith, Bool-cases, inl, inr, if_either,
}
use octo_docs_html_fork.Prelude.Int.{ℤ, eqb_ℤ, eq_of_test}
use octo_docs_html_fork.Storage.Meta.{DocMeta, grant_role}
use octo_docs_html_fork.Storage.Tables.{get_meta}
use octo_docs_html_fork.Roles.Capability.{
  Capability, rank, at_least, role_admin, capability_for_doc_role,
}
use octo_docs_html_fork.Roles.Agree.{grant_role-not_manage}
use octo_docs_html_fork.Roles.Share.{capability_for}
use octo_docs_html_fork.Grants.Service.{Auth}
use octo_docs_html_fork.Access.Lookup.{RoleAnswer, role_by_slug_uid}
use octo_docs_html_fork.Access.Decision.{
  Server, stronger, creds_tier, Uids, role_capability, legacy_tier, fallback_tier, row_tier,
  member_tier,
}

-- A capability that does not allow to manage.
abbrev pub IsLess : Capability → Type 0
IsLess c = at_least c Capability.cap_manage ≡ false

-- An answer that allows to manage only for a reason.
abbrev pub Justified : Type 0 → Option Capability → Type 0
Justified Reason o = (c : Capability) → o ≡ some c → IsLess c ⊎ Reason

pub stronger-IsLess : (b c : Capability) → IsLess b → IsLess c → IsLess (stronger b c)
unfolding stronger
stronger-IsLess b c less less' = if_either IsLess (ltb (rank b) (rank c)) less' less

pub less-Justified : (Reason : Type 0) (b : Capability) → IsLess b → Justified Reason (some b)
less-Justified Reason b less c is = let same : b ≡ c = cc in inl (subst IsLess same less)

pub none-Justified : (Reason : Type 0) → Justified Reason none
none-Justified Reason c is = absurd (cc)

capability_for-IsLess :
    (hash : String → String) (m : Option DocMeta) (cred : String)
    → IsLess (capability_for hash m cred)
unfolding capability_for at_least
capability_for-IsLess hash m cred = ground arith

pub creds_tier-IsLess :
    (s : Server) (o : Option (Option DocMeta)) (creds : List String) (best c : Capability)
    → IsLess best
    → creds_tier s o creds best ≡ some c
    → IsLess c
unfolding creds_tier
creds_tier-IsLess s o [] best c less is = let same : best ≡ c = cc in subst IsLess same less
creds_tier-IsLess s none (x ∷ xs) best c less is = absurd (cc)
creds_tier-IsLess s (some m) (x ∷ xs) best c less is =
    creds_tier-IsLess s (some m) xs _ c
      (stronger-IsLess best _ less (capability_for-IsLess s.hash m x)) is

-- Only the admin's role gives the right to manage.
role_capability-IsLess :
    (role : Option ℤ) → IsLess (role_capability role) ⊎ (role ≡ some role_admin)
unfolding role_capability capability_for_doc_role at_least
role_capability-IsLess none = inl refl
role_capability-IsLess (some role) = elim (Bool-cases (eqb_ℤ role role_admin)) [
  | inl high ↦ inr (ap some (eq_of_test role role_admin high))
  | inr low ↦ inl (ground (arith, low))
]

module _ (a : Auth) (slug : String) where
  legacy_tier-Justified :
      (Reason : Type 0) (o : Option (Option DocMeta)) (uid : String) (best : Capability)
      → IsLess best
      → Justified Reason (legacy_tier o uid best)
  unfolding legacy_tier
  legacy_tier-Justified Reason none uid best less = none-Justified Reason
  legacy_tier-Justified Reason (some none) uid best less = less-Justified Reason best less
  legacy_tier-Justified Reason (some (some m)) uid best less =
      less-Justified Reason _
        (stronger-IsLess best _ less (grant_role-not_manage (grant_role (some m) uid)))

  fallback_tier-Justified :
      (Reason : Type 0) (allowed : Bool) (uid : String) (best : Capability)
      → IsLess best
      → Justified Reason (fallback_tier allowed a slug uid best)
  unfolding fallback_tier
  fallback_tier-Justified Reason allowed uid best less =
      if_either (Justified Reason) _
        (legacy_tier-Justified Reason (get_meta a.store slug) uid best less)
        (less-Justified Reason best less)

  -- The member's row is an admin's.
  abbrev pub HasAdminRow : String → Type 0
  HasAdminRow uid =
      (b : Bool) × (role_by_slug_uid a slug uid
        ≡ some (record { role = some role_admin; registered = b }))

  pub member_tier-Justified :
      (uids : Uids) (best : Capability)
      → IsLess best
      → Justified (HasAdminRow uids.self) (member_tier a slug uids best)
  unfolding member_tier
  member_tier-Justified uids best less =
      if_either Ok _
        (if_either Ok _ (row (role_by_slug_uid a slug uids.self) refl)
          (fallback_tier-Justified (HasAdminRow uids.self) true uids.owner best less))
        (less-Justified (HasAdminRow uids.self) best less)
    where
      Ok : Option Capability → Type 0
      Ok = Justified (HasAdminRow uids.self)

      row :
          (o : Option RoleAnswer)
          → role_by_slug_uid a slug uids.self ≡ o
          → Justified (HasAdminRow uids.self) (row_tier o a slug uids.owner best)
      row none h = none-Justified (HasAdminRow uids.self)
      row (some answer) h = elim (role_capability-IsLess answer.role) [
        | inl low ↦
            fallback_tier-Justified (HasAdminRow uids.self) (not answer.registered) uids.owner _
              (stronger-IsLess best _ less low)
        | inr high ↦ λ c is. inr (
          answer.registered,
          h ∙ (λ i. some (record { role = high i; registered = answer.registered })),
        )
      ]
