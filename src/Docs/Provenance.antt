-- ===== src/Docs/Provenance.antt =====
-- What upsertMeta of internal/service/doc.go writes keeps the owner of a document.
use octo_docs_html_fork.Prelude.{
  String, Bool, true, false, ◌||◌, ◌≡◌, refl, sym, ap, ◌∙◌, Option, none, some, [], ◌==◌, arith,
  if_either, if_split,
}
use octo_docs_html_fork.Prelude.Dict.{Dict, get, get-put}
use octo_docs_html_fork.Prelude.Int.{ℤ}
use octo_docs_html_fork.Storage.Value.{Value}
use octo_docs_html_fork.Storage.Meta.{
  DocMeta, publish_provenance, creator_uid, extra_of, text_or_empty, as_flag,
}
use octo_docs_html_fork.Grants.Copies.{
  copied, IsFree, get-copied, creator_uid-copied, as_flag-decoded, text_or_empty-decoded,
}
use octo_docs_html_fork.Docs.Input.{PublishInput}
use octo_docs_html_fork.Docs.Metadata.{
  with_mount, with_user, sets_creator, with_owner, published_extra, published_meta,
}
use octo_docs_html_fork.Docs.Inherited.{IsHeld}

-- A creator stays; a document stays a user's or not, and a user's stays in its space.
pub record IsSameOwner (m m' : DocMeta) : Type 0 where
  pub creator : (creator_uid (some m) == "") ≡ false → creator_uid (some m') ≡ creator_uid (some m)
  pub user :
      (publish_provenance (some m')).user_publish ≡ (publish_provenance (some m)).user_publish
  pub space :
      (publish_provenance (some m)).user_publish ≡ true
      → (publish_provenance (some m')).space_id ≡ (publish_provenance (some m)).space_id

pub user_publish-IsFree : IsFree "user_publish"
user_publish-IsFree = record { not_slug = refl; not_title = refl; not_versions = refl }

pub space_id-IsFree : IsFree "space_id"
space_id-IsFree = record { not_slug = refl; not_title = refl; not_versions = refl }

pub copied-IsSameOwner : (m : DocMeta) → IsSameOwner m (copied m)
unfolding publish_provenance
copied-IsSameOwner m = record {
  creator = λ there. creator_uid-copied m;
  user =
      ap as_flag (get-copied "user_publish" user_publish-IsFree m)
      ∙ as_flag-decoded (get (extra_of (some m)) "user_publish");
  space = λ owned.
      ap text_or_empty (get-copied "space_id" space_id-IsFree m)
      ∙ text_or_empty-decoded (get (extra_of (some m)) "space_id");
}

pub same-IsSameOwner : (m : DocMeta) → IsSameOwner m m
same-IsSameOwner m = record { creator = λ there. refl; user = refl; space = λ owned. refl }

pub then-IsSameOwner :
    (m m' m'' : DocMeta) → IsSameOwner m m' → IsSameOwner m' m'' → IsSameOwner m m''
then-IsSameOwner m m' m'' one two = record {
  creator =
      λ there. let same = one.creator there in two.creator (ap (λ c. c == "") same ∙ there) ∙ same;
  user = two.user ∙ one.user;
  space = λ owned. two.space (one.user ∙ owned) ∙ one.space owned;
}

get-with_mount :
    (input : PublishInput) (d : Dict Value) (k : String)
    → ("mount_type" == k) ≡ false
    → ("group_no" == k) ≡ false
    → ("thread_id" == k) ≡ false
    → get (with_mount input d) k ≡ get d k
unfolding with_mount
get-with_mount input d k a b c =
    if_either (λ e. get e k ≡ get d k) input.mount_context_known
      (get-put _ "thread_id" k _
        ∙ rw c (get-put _ "group_no" k _ ∙ rw b (get-put d "mount_type" k _ ∙ rw a refl)))
      refl

get-with_owner :
    (input : PublishInput) (m : DocMeta) (d : Dict Value) (k : String)
    → ("creator_uid" == k) ≡ false
    → get (with_owner input m d) k ≡ get d k
unfolding with_owner
get-with_owner input m d k a =
    if_either (λ e. get e k ≡ get d k) (sets_creator input m)
      (get-put d "creator_uid" k _ ∙ rw a refl) refl

module _ (input : PublishInput) (m : DocMeta) (version : ℤ) where
  -- the flag of a user, after it is written
  with_user-flag :
      (d : Dict Value) (b : Bool)
      → input.user_publish ≡ b
      → as_flag (get d "user_publish") ≡ b
      → as_flag (get (with_user input version d) "user_publish") ≡ b
  unfolding with_user as_flag
  with_user-flag d b asked there =
      if_split (λ e. as_flag (get e "user_publish") ≡ b) input.user_publish
        (λ on.
          ap as_flag (
            get-put _ "docs_backend_registration_version" "user_publish" _
            ∙ get-put _ "docs_backend_registration_state" "user_publish" _
            ∙ get-put _ "space_id" "user_publish" _
            ∙ get-put d "user_publish" "user_publish" _)
          ∙ sym on
          ∙ asked)
        (λ off. there)

  with_user-space :
      (d : Dict Value)
      → input.user_publish ≡ true
      → text_or_empty (get (with_user input version d) "space_id") ≡ input.space_id
  unfolding with_user text_or_empty
  with_user-space d asked =
      if_split (λ e. text_or_empty (get e "space_id") ≡ input.space_id) input.user_publish
        (λ on. ap text_or_empty (
          get-put _ "docs_backend_registration_version" "space_id" _
          ∙ get-put _ "docs_backend_registration_state" "space_id" _
          ∙ get-put _ "space_id" "space_id" _))
        (λ off. absurd (let no_way = sym asked ∙ off in cc))

  get-with_user :
      (d : Dict Value) → get (with_user input version d) "creator_uid" ≡ get d "creator_uid"
  unfolding with_user as_flag
  get-with_user d =
      if_either (λ e. get e "creator_uid" ≡ get d "creator_uid") input.user_publish
        (get-put _ "docs_backend_registration_version" "creator_uid" _
          ∙ get-put _ "docs_backend_registration_state" "creator_uid" _
          ∙ get-put _ "space_id" "creator_uid" _
          ∙ get-put d "user_publish" "creator_uid" _)
        refl

  module _ {asked : PublishInput} (held : IsHeld asked (publish_provenance (some m)) input)
      (created : String) where
    published-user :
        (publish_provenance (some (published_meta input m version created))).user_publish
        ≡ (publish_provenance (some m)).user_publish
    unfolding publish_provenance published_meta published_extra extra_of
    published-user =
        let d = with_mount input (extra_of (some m)) in
        if_either
          (λ (o : Option (Dict Value)).
            as_flag (get (elim o as (λ _. Dict Value) [ none ↦ [] | some e ↦ e ]) "user_publish")
            ≡ (publish_provenance (some m)).user_publish)
          (input.mount_context_known || input.user_publish || sets_creator input m)
          (ap as_flag (get-with_owner input m (with_user input version d) "user_publish" refl)
            ∙ with_user-flag d (publish_provenance (some m)).user_publish held.user (
                ap as_flag
                  (get-with_mount input (extra_of (some m)) "user_publish" refl refl refl)))
          refl

    published-space :
        (publish_provenance (some m)).user_publish ≡ true
        → (publish_provenance (some (published_meta input m version created))).space_id
          ≡ (publish_provenance (some m)).space_id
    unfolding publish_provenance published_meta published_extra extra_of
    published-space owned =
        let d = with_mount input (extra_of (some m)) in
        if_either
          (λ (o : Option (Dict Value)).
            text_or_empty (get (elim o as (λ _. Dict Value) [ none ↦ [] | some e ↦ e ]) "space_id")
            ≡ (publish_provenance (some m)).space_id)
          (input.mount_context_known || input.user_publish || sets_creator input m)
          (ap text_or_empty (get-with_owner input m (with_user input version d) "space_id" refl)
            ∙ with_user-space d (held.user ∙ owned)
            ∙ held.space owned)
          refl

    published-creator :
        (creator_uid (some m) == "") ≡ false
        → creator_uid (some (published_meta input m version created)) ≡ creator_uid (some m)
    unfolding creator_uid published_meta published_extra extra_of with_owner sets_creator
    published-creator there =
        let d = with_user input version (with_mount input (extra_of (some m))) in
        let read =
          get-with_user (with_mount input (extra_of (some m)))
          ∙ get-with_mount input (extra_of (some m)) "creator_uid" refl refl refl in
        if_either
          (λ (o : Option (Dict Value)).
            text_or_empty
              (get (elim o as (λ _. Dict Value) [ none ↦ [] | some e ↦ e ]) "creator_uid")
            ≡ creator_uid (some m))
          (input.mount_context_known || input.user_publish || sets_creator input m)
          (ap text_or_empty (
            if_split (λ e. get e "creator_uid" ≡ get (extra_of (some m)) "creator_uid")
              (sets_creator input m) (λ on. absurd (ground (arith, on, there))) (λ off. read)))
          refl

    pub published-IsSameOwner : IsSameOwner m (published_meta input m version created)
    published-IsSameOwner = record {
      creator = published-creator;
      user = published-user;
      space = published-space;
    }
