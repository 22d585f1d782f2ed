-- ===== src/Reconcile/Branches.antt =====
-- Where the anchors point that the branches of internal/core/reconcile.go record.
use octo_docs_html_fork.Prelude.{
  String, Bool, eqb, length, true, false, not, ◌&&◌, ◌≡◌, ◌⊎◌, refl, Option, none, some, List, [],
  ◌∷◌, ◌==◌, arith, contains, is_empty, All, Bool-cases, inl, inr, if◌then◌else◌,
}
use octo_docs_html_fork.Types.{Anchor, StampedArtifact}
use octo_docs_html_fork.Reconcile.Text.{CaseTable}
use octo_docs_html_fork.Reconcile.Anchors.{
  is_element, is_lost, find_rebind_aid, lost_of, rebound, next_anchor, lost_anchor, only_one,
  moved_to, canonical_alias_anchor, anchor_matches_artifact,
}
use octo_docs_html_fork.Reconcile.Comments.{by_legacy, by_known_aid, one_match, mismatch_reason}
use octo_docs_html_fork.Reconcile.Found.{aid_list, Finds, find_rebind_aid-Finds}

-- Lost, or an element that is one of the artifacts.
abbrev pub Resolves : List StampedArtifact → Anchor → Type 0
Resolves aids a =
    (is_lost a.kind ≡ true) ⊎ ((is_element a.kind ≡ true) × (contains a.aid (aid_list aids) ≡ true))

-- The computation does not panic, and if it records an anchor, the anchor resolves.
abbrev pub ResolvesIf : List StampedArtifact → Option (Option Anchor) → Type 0
ResolvesIf aids none = ⊥
ResolvesIf aids (some none) = Unit
ResolvesIf aids (some (some a)) = Resolves aids a

pub moved_to-Resolves :
    (a : Anchor) (aids : List StampedArtifact) (o : Option String)
    → Finds aids o
    → ResolvesIf aids (elim o [ none ↦ none | some aid ↦ some (moved_to a aid) ])
unfolding moved_to rebound lost_of is_lost is_element
moved_to-Resolves a aids none h = h
moved_to-Resolves a aids (some aid) h = elim (Bool-cases (aid == "")) [
  | inr found ↦ rw (found, ResolvesIf) (inr (refl, h found))
  | inl missing ↦ elim (Bool-cases (is_lost a.kind)) [
    | inl already ↦ rw (missing, already, ResolvesIf) tt
    | inr fresh ↦ rw (missing, fresh, ResolvesIf) (inl refl)
  ]
]

pub next_anchor-Resolves :
    (u : CaseTable) (a : Anchor) (aids : List StampedArtifact)
    → ResolvesIf aids (next_anchor u a aids)
unfolding next_anchor
next_anchor-Resolves u a aids =
    moved_to-Resolves a aids (find_rebind_aid u a aids) (find_rebind_aid-Finds u a aids)

pub lost_anchor-Resolves :
    (a : Anchor) (reason : String) (aids : List StampedArtifact)
    → ResolvesIf aids (some (lost_anchor a reason))
unfolding lost_anchor lost_of is_lost
lost_anchor-Resolves a reason aids = elim (Bool-cases (is_lost a.kind && a.reason == reason)) [
  | inl already ↦ rw (already, ResolvesIf) tt
  | inr fresh ↦ rw (fresh, ResolvesIf) (inl refl)
]

-- The only element of a list, where there is just one and it passes the test.
pub only_one-cases :
    (xs : List StampedArtifact) (test : StampedArtifact → Bool)
    → ((x : StampedArtifact) × (xs ≡ x ∷ []) × (only_one xs test ≡ some (test x)))
      ⊎ (only_one xs test ≡ some false)
unfolding only_one
only_one-cases [] test = inr refl
only_one-cases (x ∷ []) test = inl (x, refl, refl)
only_one-cases (x ∷ y ∷ xs) test = inr (ground arith)

pub by_legacy-Resolves :
    (u : CaseTable) (a : Anchor) (legacy aids : List StampedArtifact)
    (otherwise : Option (Option Anchor))
    → All (λ x. contains x.aid (aid_list aids) ≡ true) legacy
    → ResolvesIf aids otherwise
    → ResolvesIf aids (by_legacy u a legacy otherwise)
unfolding by_legacy canonical_alias_anchor is_element one_match only_one
by_legacy-Resolves u a [] aids otherwise q h = h
by_legacy-Resolves u a (x ∷ []) aids otherwise q h =
    elim (Bool-cases (anchor_matches_artifact u a x)) [
      | inl fits ↦ rw (fits, ResolvesIf) (inr (refl, q.0))
      | inr differs ↦ rw (differs, ResolvesIf) (lost_anchor-Resolves a "fingerprint_mismatch" aids)
    ]
by_legacy-Resolves u a (x ∷ y ∷ xs) aids otherwise q h =
    let two : eqb (length (x ∷ y ∷ xs)) 1 ≡ false = ground arith in
    rw (two, ResolvesIf) (lost_anchor-Resolves a "ambiguous_aid" aids)

pub by_known_aid-Resolves :
    (u : CaseTable) (a : Anchor) (artifacts legacy aids : List StampedArtifact)
    (otherwise : Option (Option Anchor))
    → All (λ x. contains x.aid (aid_list aids) ≡ true) legacy
    → ResolvesIf aids otherwise
    → ResolvesIf aids (by_known_aid u a artifacts legacy otherwise)
unfolding by_known_aid one_match
by_known_aid-Resolves u a artifacts legacy aids otherwise q h =
    elim (Bool-cases (not (is_empty artifacts) && not (is_empty legacy))) [
      | inl both ↦ rw (both, ResolvesIf) (lost_anchor-Resolves a "ambiguous_aid" aids)
      | inr one_kind ↦ rw one_kind (unless (only_one-cases artifacts (anchor_matches_artifact u a)))
    ]
  where
    rest : ResolvesIf aids (
        if not (is_empty artifacts)
        then some (lost_anchor a (mismatch_reason artifacts))
        else by_legacy u a legacy otherwise)
    rest = elim (Bool-cases (is_empty artifacts)) [
      | inl no_artifact ↦
          rw (no_artifact, ResolvesIf) (by_legacy-Resolves u a legacy aids otherwise q h)
      | inr some_artifact ↦
          rw (some_artifact, ResolvesIf) (lost_anchor-Resolves a (mismatch_reason artifacts) aids)
    ]

    when :
        (fits : Bool)
        → ResolvesIf aids (
            if fits
            then some none
            else if not (is_empty artifacts)
            then some (lost_anchor a (mismatch_reason artifacts))
            else by_legacy u a legacy otherwise)
    when true = tt
    when false = rest

    unless :
        ((x : StampedArtifact) × (artifacts ≡ x ∷ [])
            × (only_one artifacts (anchor_matches_artifact u a)
                ≡ some (anchor_matches_artifact u a x)))
          ⊎ (only_one artifacts (anchor_matches_artifact u a) ≡ some false)
        → ResolvesIf aids
            (elim (only_one artifacts (anchor_matches_artifact u a))
              as (λ _. Option (Option Anchor)) [
                | none ↦ none
                | some fits ↦
                    if fits
                    then some none
                    else if not (is_empty artifacts)
                    then some (lost_anchor a (mismatch_reason artifacts))
                    else by_legacy u a legacy otherwise
              ])
    unless (inl one) = rw (one.2) (when (anchor_matches_artifact u a one.0))
    unless (inr other) = rw other (when false)
