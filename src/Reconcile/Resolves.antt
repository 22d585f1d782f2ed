-- ===== src/Reconcile/Resolves.antt =====
-- Where the anchors that internal/core/reconcile.go records point.
use mathlib.Core.Bool.{false≢true}
use octo_docs_html_fork.Prelude.{
  String, Bool, true, false, not, ◌&&◌, ◌||◌, ◌≡◌, refl, sym, subst, Option, none, some, List, [],
  ◌∷◌, ◌==◌, arith, eq_iff, contains, is_empty, All, All-map, Bool-cases, inl, inr, if◌then◌else◌,
}
use octo_docs_html_fork.Types.{Anchor, AnchorKind, StampedArtifact}
use octo_docs_html_fork.Reconcile.Text.{CaseTable}
use octo_docs_html_fork.Reconcile.Anchors.{
  artifacts_at, is_element, is_lost, known_aid, next_anchor, only_tagged, copy_if, pin,
  migrated_anchor, pinned_anchor,
}
use octo_docs_html_fork.Reconcile.Comments.{
  Publish, index_by_aid, index_by_legacy_aid, drifted, or_else, reconcile_anchor,
}
use octo_docs_html_fork.Reconcile.Found.{
  aid_list, aid_list_self, Indexed-nil, index_by_aid-Indexed, index_by_legacy_aid-Indexed,
}
use octo_docs_html_fork.Reconcile.Branches.{
  Resolves, ResolvesIf, next_anchor-Resolves, only_one-cases, by_known_aid-Resolves,
}

-- The indexes are those that reconcileAnchors builds from the artifacts.
pub record IsIndexed (p : Publish) : Type 0 where
  pub by_aid : p.by_aid ≡ index_by_aid [] p.aids
  pub by_legacy_aid : p.by_legacy_aid ≡ index_by_legacy_aid [] p.aids

module _ (u : CaseTable) (p : Publish) (ok : IsIndexed p) where
  legacy_found :
      (k : String)
      → All (λ x. contains x.aid (aid_list p.aids) ≡ true) (artifacts_at p.by_legacy_aid k)
  legacy_found k = rw (ok.by_legacy_aid) (
      index_by_legacy_aid-Indexed (λ j x. contains x.aid (aid_list p.aids) ≡ true) [] p.aids
        (All-map (λ x h j. h) p.aids (aid_list_self p.aids))
        (Indexed-nil (λ j x. contains x.aid (aid_list p.aids) ≡ true)) k)

  drifted-Resolves : (a : Anchor) → ResolvesIf p.aids (drifted u p a)
  unfolding drifted
  drifted-Resolves a = elim (Bool-cases (known_aid a == "")) [
    | inl unknown_aid ↦ rw (unknown_aid, ResolvesIf) (next_anchor-Resolves u a p.aids)
    | inr known ↦
        rw (known, ResolvesIf)
          (by_known_aid-Resolves u a (artifacts_at p.by_aid (known_aid a))
            (artifacts_at p.by_legacy_aid (known_aid a)) p.aids (next_anchor u a p.aids)
            (legacy_found (known_aid a)) (next_anchor-Resolves u a p.aids))
  ]

  -- A copy under a key of the index is made only where just one artifact stands, and resolves then.
  copy_if-Resolves :
      (k tag : String) (a : Anchor)
      → (contains k (aid_list p.aids) ≡ true → Resolves p.aids a)
      → ResolvesIf p.aids (copy_if (only_tagged (artifacts_at p.by_aid k) tag) a)
  unfolding copy_if only_tagged
  copy_if-Resolves k tag a there =
      elim (only_one-cases (artifacts_at p.by_aid k) (λ x. x.tag == tag)) [
        | inr other ↦ rw other tt
        | inl one ↦ rw (one.2) (copied (one.0.tag == tag) (there (first _ (one.1) indexed)))
      ]
    where
      indexed :
          All
            (λ x. (x.aid ≡ k) × (contains x.aid (aid_list p.aids) ≡ true))
            (artifacts_at p.by_aid k)
      indexed =
          let Q = λ (j : String) (x : StampedArtifact).
            (x.aid ≡ j) × (contains x.aid (aid_list p.aids) ≡ true) in
          rw (ok.by_aid) (
            index_by_aid-Indexed Q [] p.aids
              (All-map (λ x h. (refl, h)) p.aids (aid_list_self p.aids)) (Indexed-nil Q) k)

      first :
          {x : StampedArtifact} (xs : List StampedArtifact)
          → xs ≡ x ∷ []
          → All (λ x. (x.aid ≡ k) × (contains x.aid (aid_list p.aids) ≡ true)) xs
          → contains k (aid_list p.aids) ≡ true
      first [] e q = absurd (cc)
      first (x ∷ xs) e q = subst (λ j. contains j (aid_list p.aids) ≡ true) q.0.0 q.0.1

      copied :
          (fits : Bool)
          → Resolves p.aids a
          → ResolvesIf p.aids (some (if fits then some a else none))
      copied true h = h
      copied false h = tt

  migrated_anchor-Resolves :
      (a : Anchor)
      → ResolvesIf p.aids (migrated_anchor a p.by_aid p.pinned_aid p.pinned_tag p.migrations)
  unfolding migrated_anchor pin
  migrated_anchor-Resolves a = guarded _ _
    where
      guarded :
          (canonical : String) (skip : Bool)
          → ResolvesIf p.aids (
              if skip
              then some none
              else copy_if
                  (only_tagged (artifacts_at p.by_aid canonical) p.pinned_tag)
                  (record (pin a canonical p.pinned_tag) { kind = AnchorKind.element }))
      guarded canonical true = tt
      guarded canonical false =
          copy_if-Resolves canonical p.pinned_tag
            (record (pin a canonical p.pinned_tag) { kind = AnchorKind.element })
            (λ there. inr (unfold is_element in refl, there))

  known_aid-element : (a : Anchor) → (known_aid a == "") ≡ false → is_element a.kind ≡ true
  unfolding known_aid
  known_aid-element a h = elim (Bool-cases (is_element a.kind)) [
    | inl element ↦ element
    | inr other ↦ absurd (false≢true (sym (rw other at h)))
  ]

  pinned_anchor-Resolves :
      (a : Anchor) → ResolvesIf p.aids (pinned_anchor a p.by_aid p.pinned_aid p.pinned_tag)
  unfolding pinned_anchor pin
  pinned_anchor-Resolves a =
      elim (Bool-cases
        (p.pinned_aid == "" || p.pinned_tag == "" || not (known_aid a == p.pinned_aid))) [
          | inl skip ↦ rw (skip, ResolvesIf) tt
          | inr pinned ↦
              rw (pinned, ResolvesIf)
                (copy_if-Resolves p.pinned_aid p.pinned_tag (pin a p.pinned_aid p.pinned_tag)
                  (λ there. inr (
                    known_aid-element a (ground (arith, eq_iff (known_aid a) p.pinned_aid)),
                    there,
                  )))
        ]

  or_else-Resolves :
      (o rest : Option (Option Anchor))
      → ResolvesIf p.aids o
      → ResolvesIf p.aids rest
      → ResolvesIf p.aids (or_else o rest)
  unfolding or_else
  or_else-Resolves none rest q _ = q
  or_else-Resolves (some none) rest _ q = q
  or_else-Resolves (some (some a)) rest q _ = q

  pub reconcile_anchor-ResolvesIf : (a : Anchor) → ResolvesIf p.aids (reconcile_anchor u p a)
  unfolding reconcile_anchor
  reconcile_anchor-ResolvesIf a = elim (Bool-cases (is_element a.kind || is_lost a.kind)) [
    | inr neither ↦ rw (neither, ResolvesIf) tt
    | inl anchored ↦ elim (Bool-cases (is_lost a.kind && not (is_empty p.migrations))) [
      | inl migrating ↦ rw (anchored, migrating, ResolvesIf) tt
      | inr open_anchor ↦
          rw (anchored, open_anchor)
            (or_else-Resolves (migrated_anchor a p.by_aid p.pinned_aid p.pinned_tag p.migrations) _
              (migrated_anchor-Resolves a)
              (or_else-Resolves (pinned_anchor a p.by_aid p.pinned_aid p.pinned_tag) (drifted u p a)
                (pinned_anchor-Resolves a) (drifted-Resolves a)))
    ]
  ]

  -- Where the two indexes are those built from the artifacts of the published version, an
  -- anchor that reconciliation records is lost, or is an element whose aid is that of one of
  -- the artifacts.
  pub reconcile_anchor-Resolves :
      (a a' : Anchor) → reconcile_anchor u p a ≡ some (some a') → Resolves p.aids a'
  reconcile_anchor-Resolves a a' h = subst (ResolvesIf p.aids) h (reconcile_anchor-ResolvesIf a)
