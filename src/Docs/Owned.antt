-- ===== src/Docs/Owned.antt =====
-- A publish gives a document to no one else (internal/service/doc.go): what the restored input holds.
use octo_docs_html_fork.Prelude.{
  String, Bool, true, false, not, ◌&&◌, ◌||◌, ◌≡◌, refl, sym, ◌∙◌, subst, some, ◌==◌, arith,
  Bool-cases, inl, inr, if_either, if_split, if◌then◌else◌,
}
use octo_docs_html_fork.Reconcile.Text.{CaseTable}
use octo_docs_html_fork.Storage.Meta.{
  DocMeta, Provenance, publish_provenance, mount_type, creator_uid,
}
use octo_docs_html_fork.Docs.Input.{Attempt, PublishInput, trim_space}
use octo_docs_html_fork.Docs.Mount.{
  place, legacy_mounted, with_legacy, restore_legacy_mount, with_creator, completed, restore_as,
  restore_mount_context,
}
use octo_docs_html_fork.Docs.Inherited.{Every, IsHeld, restore_user-IsHeld}

-- The input is a user's where the other is.
record Same (input other : PublishInput) : Type 0 where
  named : other.slug ≡ input.slug
  numbered : other.version ≡ input.version
  user : other.user_publish ≡ input.user_publish

place-Same :
    (input : PublishInput) (group_no thread_id : String)
    → Same input (place input group_no thread_id)
unfolding place
place-Same input group_no thread_id =
    if_either (Same input) (input.mount_type == "group")
      {x = record input {
        group_no = if input.group_no == "" then group_no else input.group_no;
        thread_id = "";
      }}
      (record { named = refl; numbered = refl; user = refl })
      (if_either (Same input) (input.mount_type == "thread")
        {x = record input {
          thread_id = if input.thread_id == "" then thread_id else input.thread_id;
          group_no = "";
        }}
        {y = record input { group_no = ""; thread_id = "" }}
        (record { named = refl; numbered = refl; user = refl })
        (record { named = refl; numbered = refl; user = refl }))

legacy_mounted-Same :
    (input : PublishInput) (has_mount : Bool) (group_no thread_id normalized : String)
    → Same input (legacy_mounted input has_mount group_no thread_id normalized)
unfolding legacy_mounted
legacy_mounted-Same input has_mount group_no thread_id normalized =
    let request_known = input.mount_context_known || input.mount_type_present in
    let mount =
      if input.mount_type == "" && (not request_known || (has_mount && not (normalized == "")))
      then normalized
      else input.mount_type in
    let placed = place-Same (record input { mount_type = mount }) group_no thread_id in
    record { named = placed.named; numbered = placed.numbered; user = placed.user }

with_legacy-Same :
    (a : Attempt String) (input : PublishInput) (has_mount : Bool) (group_no thread_id : String)
    → Every (Same input) (with_legacy a input has_mount group_no thread_id)
unfolding with_legacy
with_legacy-Same (Attempt.failed fault) input has_mount group_no thread_id = Every.on_failed fault
with_legacy-Same (Attempt.done normalized) input has_mount group_no thread_id =
    Every.on_done _ (legacy_mounted-Same input has_mount group_no thread_id _)

restore_legacy_mount-Same :
    (u : CaseTable) (input : PublishInput) (mount : String) (has_mount : Bool)
    (group_no thread_id : String)
    → Every (Same input) (restore_legacy_mount u input mount has_mount group_no thread_id)
unfolding restore_legacy_mount
restore_legacy_mount-Same u input mount has_mount group_no thread_id =
    with_legacy-Same _ input has_mount group_no thread_id

with_creator-Same :
    (input : PublishInput) (a : Attempt PublishInput) (creator : String)
    → Every (Same input) a
    → Every (Same input) (with_creator a creator)
unfolding with_creator
with_creator-Same input (Attempt.failed fault) creator h = Every.on_failed fault
with_creator-Same input (Attempt.done other) creator (Every.on_done _ same) = Every.on_done _ (
    if_either (Same input) (creator == "") same
      (record { named = same.named; numbered = same.numbered; user = same.user }))

of_free :
    {p : Provenance} (a : Attempt PublishInput) (input : PublishInput)
    → input.user_publish ≡ p.user_publish
    → p.user_publish ≡ false
    → Every (Same input) a
    → Every (IsHeld input p) a
of_free (Attempt.failed fault) input h free same = Every.on_failed fault
of_free (Attempt.done other) input h free (Every.on_done _ same) = Every.on_done other (record {
  named = same.named;
  numbered = same.numbered;
  user = same.user ∙ h;
  space = λ owned. absurd (let no_way = sym owned ∙ free in cc);
})

completed-owned :
    (input : PublishInput) (p : Provenance) → p.user_publish ≡ true → completed input p ≡ p
unfolding completed
completed-owned input p owned = rw owned refl

completed-free :
    (input : PublishInput) (p : Provenance)
    → input.user_publish ≡ false
    → p.user_publish ≡ false
    → (completed input p).user_publish ≡ false
unfolding completed
completed-free input p asked free =
    if_either (λ (q : Provenance). q.user_publish ≡ false)
      (not p.user_publish
        && p.space_id == ""
        && (not (input.mount_type == "") || not (input.space_id == "")))
      {x = record p { user_publish = input.user_publish; space_id = input.space_id }} {y = p} asked
      free

restore_as-owned :
    (u : CaseTable) (input : PublishInput) (m : DocMeta) (p : Provenance)
    → p.user_publish ≡ true
    → Every (IsHeld input p) (restore_as u input m p)
unfolding restore_as
restore_as-owned u input m p owned =
    if_split (Every (IsHeld input p)) p.user_publish
      (λ h. restore_user-IsHeld u input p (mount_type (some m)) (trim_space (creator_uid (some m))))
      (λ h. absurd (let no_way = sym owned ∙ h in cc))

restore_as-free :
    (u : CaseTable) (input : PublishInput) (m : DocMeta) (p : Provenance)
    → p.user_publish ≡ false
    → Every (Same input) (restore_as u input m p)
unfolding restore_as
restore_as-free u input m p free =
    if_split (Every (Same input)) p.user_publish (λ h. absurd (let no_way = sym h ∙ free in cc))
      (λ h.
        let mount = mount_type (some m) in
        with_creator-Same input
          (restore_legacy_mount u input mount.0 mount.1 p.group_no p.thread_id)
          (creator_uid (some m))
          (restore_legacy_mount-Same u input mount.0 mount.1 p.group_no p.thread_id))

-- What restoreMountContext gives for a document that is there.
pub restore_mount_context-IsHeld :
    (u : CaseTable) (m : DocMeta) (exists : Bool) (input : PublishInput)
    → Every
        (IsHeld input (publish_provenance (some m)))
        (restore_mount_context u (some m) exists input)
unfolding restore_mount_context
restore_mount_context-IsHeld u m exists input =
    let p = publish_provenance (some m) in
    if_split (Every (IsHeld input p)) (input.user_publish && not p.user_publish)
      (λ h. Every.on_failed _)
      (λ apart. elim (Bool-cases p.user_publish) [
        | inl owned ↦
            subst (λ q. Every (IsHeld input p) (restore_as u input m q))
              (sym (completed-owned input p owned)) (restore_as-owned u input m p owned)
        | inr free ↦
            let asked : input.user_publish ≡ false = ground (arith, apart, free) in
            of_free (restore_as u input m (completed input p)) input (asked ∙ sym free) free
              (restore_as-free u input m (completed input p) (completed-free input p asked free))
      ])
