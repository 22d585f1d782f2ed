-- ===== src/Docs/Promoted.antt =====
-- What the last steps of PromoteAuthorized of internal/service/doc.go leave of a draft.
use octo_docs_html_fork.Prelude.{
  String, Bool, true, false, ◌≡◌, refl, sym, ap, ◌∙◌, subst, Option, none, some, ◌==◌, eq_refl,
  Option-cases, inl, inr, if◌then◌else◌,
}
use octo_docs_html_fork.Prelude.Dict.{Dict, get, put, remove, get-put, get-remove}
use octo_docs_html_fork.Storage.Value.{Value}
use octo_docs_html_fork.Storage.Float.{decoded}
use octo_docs_html_fork.Storage.Meta.{
  DocMeta, publish_provenance, creator_uid, extra_of, text_or_empty, as_flag, has_draft,
}
use octo_docs_html_fork.Storage.State.{Store}
use octo_docs_html_fork.Storage.Tables.{get_meta, put_meta, copy_out}
use octo_docs_html_fork.Storage.Blobs.{get_draft, delete_draft, draft_key}
use octo_docs_html_fork.Grants.Copies.{
  copied, IsFree, get-nil, get-copied, creator_uid-IsFree, copy_out-some, put_meta-copied,
}
use octo_docs_html_fork.Docs.Input.{Fault, Attempt}
use octo_docs_html_fork.Docs.Publish.{PublishResult}
use octo_docs_html_fork.Docs.Provenance.{
  IsSameOwner, user_publish-IsFree, space_id-IsFree, then-IsSameOwner, copied-IsSameOwner,
}
use octo_docs_html_fork.Docs.Kept.{HasOwner}
use octo_docs_html_fork.Docs.Promote.{
  without_draft, clear_found, clear_draft_meta, cleared_or, after_promote,
}

get_meta-put :
    (s' : Store) (d : Dict DocMeta) (slug : String) (new : DocMeta)
    → s'.meta ≡ put d slug (copied new)
    → get_meta s' slug ≡ some (some (copied (copied new)))
unfolding get_meta
get_meta-put s' d slug new is =
    ap copy_out (
      ap (λ e. get e slug) is
      ∙ get-put d slug slug (copied new)
      ∙ ap (λ b. if b then some (copied new) else get d slug) (eq_refl slug))
    ∙ copy_out-some (copied new)

draft-IsFree : IsFree "draft"
draft-IsFree = record { not_slug = refl; not_title = refl; not_versions = refl }

get-without_draft :
    (m : DocMeta) (k : String)
    → IsFree k
    → get (extra_of (some (without_draft m))) k
      ≡ (if "draft" == k then none else get (extra_of (some m)) k)
unfolding without_draft extra_of
get-without_draft m k free =
    get-nil k free (remove (extra_of (some m)) "draft") ∙ get-remove (extra_of (some m)) "draft" k

without_draft-IsSameOwner : (m : DocMeta) → IsSameOwner m (without_draft m)
unfolding publish_provenance creator_uid
without_draft-IsSameOwner m = record {
  creator = λ there. ap text_or_empty (get-without_draft m "creator_uid" creator_uid-IsFree);
  user = ap as_flag (get-without_draft m "user_publish" user_publish-IsFree);
  space = λ owned. ap text_or_empty (get-without_draft m "space_id" space_id-IsFree);
}

-- No page of a draft, and no mark of one in the metadata.
pub record HasNoDraft (slug : String) (s : Store) : Type 0 where
  pub page : get_draft s slug ≡ none
  pub marker : (m : DocMeta) → get_meta s slug ≡ some (some m) → has_draft (some m) ≡ false

-- After a promote the owner is the same, and where it has succeeded the draft is gone.
pub record IsPromoted (slug : String) (m : DocMeta) (after : Attempt PublishResult × Store)
    : Type 0 where
  pub owner : HasOwner slug m after.1
  pub emptied : (r : PublishResult) → after.0 ≡ Attempt.done r → HasNoDraft slug after.1

pub failed-IsPromoted :
    (slug : String) (m : DocMeta) (fault : Fault) (s : Store)
    → HasOwner slug m s
    → IsPromoted slug m (Attempt.failed fault, s)
failed-IsPromoted slug m fault s owner = record { owner = owner; emptied = λ r h. absurd (cc) }

found_some :
    {m m' : DocMeta} {o : Option (Option DocMeta)} → o ≡ some (some m) → o ≡ some (some m') → m ≡ m'
found_some h k = let same = sym h ∙ k in cc

module _ (slug : String) (m : DocMeta) (s : Store) (owner : HasOwner slug m s) where
  no_page : get_draft (delete_draft s slug) slug ≡ none
  unfolding get_draft delete_draft
  no_page =
      get-remove s.blobs (draft_key slug) (draft_key slug)
      ∙ ap (λ b. if b then none else get s.blobs (draft_key slug)) (eq_refl (draft_key slug))

  -- The metadata after the marker is dropped, or where there was none.
  marked :
      (s' : Store) {m' : DocMeta}
      → get_meta s' slug ≡ some (some m')
      → get (extra_of (some m')) "draft" ≡ none
      → (m'' : DocMeta) → get_meta s' slug ≡ some (some m'')
      → has_draft (some m'') ≡ false
  unfolding has_draft
  marked s' read free m'' read' =
      ap
        (λ (x : DocMeta). elim (get (extra_of (some x)) "draft") as (λ _. Bool) [
          | none ↦ false
          | some _ ↦ true
        ])
        (found_some read' read)
      ∙ ap (λ (o : Option Value). elim o as (λ _. Bool) [ none ↦ false | some _ ↦ true ]) free

  kept_marker :
      (r : PublishResult)
      → get (extra_of (some owner.meta)) "draft" ≡ none
      → IsPromoted slug m (Attempt.done r, delete_draft s slug)
  unfolding get_meta delete_draft
  kept_marker r free = record {
    owner = record { meta = owner.meta; found = owner.found; same = owner.same };
    emptied =
        λ _ _. record { page = no_page; marker = marked (delete_draft s slug) owner.found free };
  }

  dropped_marker :
      (r : PublishResult) (s' : Store)
      → s'.blobs ≡ (delete_draft s slug).blobs
      → s'.meta ≡ put s.meta slug (copied (without_draft owner.meta))
      → IsPromoted slug m (Attempt.done r, s')
  unfolding get_draft
  dropped_marker r s' pages metas =
      let new = without_draft owner.meta in
      let read = get_meta-put s' s.meta slug new metas in
      record {
        owner = record {
          meta = copied (copied new);
          found = read;
          same = then-IsSameOwner m owner.meta (copied (copied new)) owner.same (
              then-IsSameOwner owner.meta new (copied (copied new))
                (without_draft-IsSameOwner owner.meta)
                (then-IsSameOwner new (copied new) (copied (copied new)) (copied-IsSameOwner new)
                  (copied-IsSameOwner (copied new))));
        };
        emptied = λ _ _. record {
          page = ap (λ d. get d (draft_key slug)) pages ∙ no_page;
          marker = marked s' read (
              get-copied "draft" draft-IsFree (copied new)
              ∙ ap decoded (get-copied "draft" draft-IsFree new)
              ∙ ap (λ o. decoded (decoded o)) (get-without_draft owner.meta "draft" draft-IsFree));
        };
      }

  cleared-IsPromoted :
      (r : PublishResult)
      → IsPromoted slug m (
        Attempt.done r,
        cleared_or (clear_draft_meta (delete_draft s slug) slug) (delete_draft s slug),
      )
  unfolding clear_draft_meta clear_found cleared_or get_meta delete_draft
  cleared-IsPromoted r =
      let bare = delete_draft s slug in
      subst (λ o. IsPromoted slug m (Attempt.done r, cleared_or (clear_found o bare slug) bare))
        (sym owner.found)
        (elim (Option-cases (get (extra_of (some owner.meta)) "draft")) [
          | inl free ↦
              subst (λ o. IsPromoted slug m (Attempt.done r, cleared_or (clear_at o bare) bare))
                (sym free) (kept_marker r free)
          | inr (v, there) ↦
              subst (λ o. IsPromoted slug m (Attempt.done r, cleared_or (clear_at o bare) bare))
                (sym there)
                (subst (λ o. IsPromoted slug m (Attempt.done r, cleared_or o bare))
                  (sym (put_meta-copied bare slug (without_draft owner.meta)))
                  (dropped_marker r _ refl refl))
        ])
    where
      clear_at : Option Value → Store → Option Store
      clear_at o t = elim o as (λ _. Option Store) [
        | none ↦ some t
        | some _ ↦ put_meta t slug (without_draft owner.meta)
      ]

pub after_promote-IsPromoted :
    (slug : String) (m : DocMeta) (after : Attempt PublishResult × Store)
    → HasOwner slug m after.1
    → IsPromoted slug m (after_promote after slug)
unfolding after_promote
after_promote-IsPromoted slug m (Attempt.failed fault, s) owner =
    failed-IsPromoted slug m fault s owner
after_promote-IsPromoted slug m (Attempt.done r, s) owner = cleared-IsPromoted slug m s owner r
