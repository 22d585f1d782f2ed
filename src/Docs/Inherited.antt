-- ===== src/Docs/Inherited.antt =====
-- What a write by a user inherits from the document (internal/service/doc.go, restoreMountContext).
use octo_docs_html_fork.Prelude.{
  String, Bool, true, not, ◌&&◌, ◌||◌, ◌≡◌, refl, ◌==◌, if_either, if◌then◌else◌,
}
use octo_docs_html_fork.Reconcile.Text.{CaseTable}
use octo_docs_html_fork.Storage.Meta.{Provenance}
use octo_docs_html_fork.Docs.Input.{
  Fault, Attempt, PublishInput, valid_space_id, normalize_mount_type, inferred_legacy_mount,
}
use octo_docs_html_fork.Docs.Mount.{inherit, conflicts, restore_mounted, restore_user}

-- What holds of the result, if there is one.
pub data Every {ℓ} {A : Type ℓ} (P : A → Type 0) : Attempt A → Type ℓ where
  on_failed : (fault : Fault) → Every P (Attempt.failed fault)
  on_done : (a : A) → P a → Every P (Attempt.done a)

-- The input is for the slug and the version that are asked for, and a user's exactly if the document is, and then for the document's space.
pub record IsHeld (asked : PublishInput) (p : Provenance) (input : PublishInput) : Type 0 where
  pub named : input.slug ≡ asked.slug
  pub numbered : input.version ≡ asked.version
  pub user : input.user_publish ≡ p.user_publish
  pub space : p.user_publish ≡ true → input.space_id ≡ p.space_id

inherit-IsHeld :
    (asked input : PublishInput) (p : Provenance) (creator : String)
    → input.slug ≡ asked.slug
    → input.version ≡ asked.version
    → IsHeld asked p (inherit input p creator)
unfolding inherit
inherit-IsHeld asked input p creator named numbered = record {
  named = named;
  numbered = numbered;
  user = refl;
  space = λ h. refl;
}

restore_mounted-IsHeld :
    (a : Attempt String) (input : PublishInput) (p : Provenance) (creator : String)
    → Every (IsHeld input p) (restore_mounted a input p creator)
unfolding restore_mounted
restore_mounted-IsHeld (Attempt.failed fault) input p creator = Every.on_failed fault
restore_mounted-IsHeld (Attempt.done normalized) input p creator =
    if_either (Every (IsHeld input p))
      (not (normalized == "") && input.mount_context_known && conflicts input.mount_type normalized)
      (Every.on_failed Fault.mount_conflict)
      (if_either (Every (IsHeld input p))
        (conflicts input.group_no p.group_no || conflicts input.thread_id p.thread_id)
        (Every.on_failed Fault.mount_conflict)
        (Every.on_done _ (
          inherit-IsHeld input
            (record input {
              mount_type =
                  if not (normalized == "") || input.mount_type == ""
                  then normalized
                  else input.mount_type;
              mount_context_known = true;
            })
            p creator refl refl)))

pub restore_user-IsHeld :
    (u : CaseTable) (input : PublishInput) (p : Provenance) (mount : String × Bool)
    (creator : String)
    → Every (IsHeld input p) (restore_user u input p mount creator)
unfolding restore_user
restore_user-IsHeld u input p (mount, has_mount) creator =
    let existing =
      if has_mount
      then mount
      else inferred_legacy_mount p.user_publish p.space_id p.group_no p.thread_id in
    if_either (Every (IsHeld input p)) (creator == "" || not (valid_space_id p.space_id))
      (Every.on_failed Fault.provenance_conflict)
      (if_either (Every (IsHeld input p))
        (not (p.space_id == "") && conflicts input.space_id p.space_id)
        (Every.on_failed Fault.space_conflict)
        (if_either (Every (IsHeld input p)) (has_mount || not (existing == ""))
          (restore_mounted-IsHeld (normalize_mount_type u existing) input p creator)
          (Every.on_done _ (inherit-IsHeld input input p creator refl refl))))
