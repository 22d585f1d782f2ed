-- ===== src/Reconcile/Found.antt =====
-- The indexes and the search of internal/core/reconcile.go find artifacts of the version only.
use octo_docs_html_fork.Prelude.{
  String, Bool, Option, none, some, eqb, length, is_empty, Bool-cases, ◌&&◌, true, false, ◌&&◌, ◌≡◌,
  subst, List, [], ◌∷◌, ◌++◌, ◌==◌, arith, eq_iff, contains, keep, All, All-append, All-map, inl,
  inr, text_cases, if◌then◌else◌,
}
use octo_docs_html_fork.Prelude.Dict.{get-put}
use octo_docs_html_fork.Types.{Anchor, StampedArtifact}
use octo_docs_html_fork.Reconcile.Text.{CaseTable}
use octo_docs_html_fork.Reconcile.Anchors.{
  Index, artifacts_at, only_aid, find_rebind_aid, choose, want_tag, tag_ok, head_ok, heading_of,
}
use octo_docs_html_fork.Reconcile.Comments.{add_to, add_legacy, index_by_aid, index_by_legacy_aid}

abbrev pub aid_list : List StampedArtifact → List String
aid_list [] = []
aid_list (x ∷ xs) = x.aid ∷ aid_list xs

-- Everything under a key has the property of that key.
abbrev pub Indexed : (String → StampedArtifact → Type 0) → Index → Type 0
Indexed Q m = (k : String) → All (Q k) (artifacts_at m k)

module _ (Q : String → StampedArtifact → Type 0) where
  pub Indexed-nil : Indexed Q []
  unfolding artifacts_at
  Indexed-nil k = tt

  artifacts_at-add_to :
      (m : Index) (k : String) (x : StampedArtifact) (j : String)
      → artifacts_at (add_to m k x) j
        ≡ (if k == j then artifacts_at m k ++ x ∷ [] else artifacts_at m j)
  unfolding add_to artifacts_at
  artifacts_at-add_to m k x j = ground (arith, get-put m k j (artifacts_at m k ++ x ∷ []))

  add_to-Indexed :
      (m : Index) (k : String) (x : StampedArtifact)
      → Q k x
      → Indexed Q m
      → Indexed Q (add_to m k x)
  add_to-Indexed m k x q h j = elim (text_cases k j) [
    | inl (same, test) ↦
        rw (artifacts_at-add_to m k x j, test)
          (subst (λ i. All (Q i) (artifacts_at m k ++ x ∷ [])) same
            (All-append (Q k) (artifacts_at m k) (x ∷ []) (h k) (q, tt)))
    | inr (differ, test) ↦ rw (artifacts_at-add_to m k x j, test) (h j)
  ]

  pub index_by_aid-Indexed :
      (m : Index) (xs : List StampedArtifact)
      → All (λ x. Q x.aid x) xs
      → Indexed Q m
      → Indexed Q (index_by_aid m xs)
  unfolding index_by_aid
  index_by_aid-Indexed m [] q h = h
  index_by_aid-Indexed m (x ∷ xs) q h =
      index_by_aid-Indexed (add_to m x.aid x) xs q.1 (add_to-Indexed m x.aid x q.0 h)

  add_legacy-Indexed :
      (m : Index) (ks : List String) (x : StampedArtifact)
      → ((k : String) → Q k x)
      → Indexed Q m
      → Indexed Q (add_legacy m ks x)
  unfolding add_legacy
  add_legacy-Indexed m [] x q h = h
  add_legacy-Indexed m (k ∷ ks) x q h =
      add_legacy-Indexed (add_to m k x) ks x q (add_to-Indexed m k x (q k) h)

  pub index_by_legacy_aid-Indexed :
      (m : Index) (xs : List StampedArtifact)
      → All (λ x. (k : String) → Q k x) xs
      → Indexed Q m
      → Indexed Q (index_by_legacy_aid m xs)
  unfolding index_by_legacy_aid
  index_by_legacy_aid-Indexed m [] q h = h
  index_by_legacy_aid-Indexed m (x ∷ xs) q h =
      index_by_legacy_aid-Indexed (add_legacy m x.legacy_aids x) xs q.1
        (add_legacy-Indexed m x.legacy_aids x q.0 h)

-- Every artifact of a list has its aid there.
pub aid_list_self : (xs : List StampedArtifact) → All (λ x. contains x.aid (aid_list xs) ≡ true) xs
aid_list_self [] = tt
aid_list_self (x ∷ xs) =
    (ground (arith, eq_iff x.aid x.aid), All-map (λ y h. ground (arith, h)) xs (aid_list_self xs))

-- The reads give a text, and one that is not empty is the aid of an artifact.
abbrev pub Finds : List StampedArtifact → Option String → Type 0
Finds aids none = ⊥
Finds aids (some k) = (k == "") ≡ false → contains k (aid_list aids) ≡ true

only_aid-Finds : (xs : List StampedArtifact) → Finds xs (only_aid xs)
unfolding only_aid
only_aid-Finds [] = λ h. absurd (ground arith)
only_aid-Finds (x ∷ []) = λ h. ground (arith, eq_iff x.aid x.aid)
only_aid-Finds (x ∷ y ∷ xs) =
    let two : eqb (length (x ∷ y ∷ xs)) 1 ≡ false = ground arith in
    rw (two, Finds) (λ h. absurd (ground arith))

contains-keep :
    (p : StampedArtifact → Bool) (k : String) (xs : List StampedArtifact)
    → contains k (aid_list (keep p xs)) ≡ true
    → contains k (aid_list xs) ≡ true
contains-keep p k [] h = h
contains-keep p k (x ∷ xs) h = ground (arith, contains-keep p k xs)

Finds-keep :
    (p : StampedArtifact → Bool) (aids : List StampedArtifact) (o : Option String)
    → Finds (keep p aids) o
    → Finds aids o
Finds-keep p aids none h = h
Finds-keep p aids (some k) h = λ found. contains-keep p k aids (h found)

-- findRebindAid reads no slice out of range, and an aid that it returns is that of an artifact of the
-- version.
pub find_rebind_aid-Finds :
    (u : CaseTable) (a : Anchor) (aids : List StampedArtifact)
    → Finds aids (find_rebind_aid u a aids)
unfolding find_rebind_aid choose
find_rebind_aid-Finds u a aids =
    let tag = want_tag u a in
    let both = λ (x : StampedArtifact). tag_ok tag x && head_ok u (heading_of a.fallback) x in
    elim (Bool-cases (is_empty (keep both aids))) [
      | inl nothing ↦
          rw nothing (Finds-keep (tag_ok tag) aids _ (only_aid-Finds (keep (tag_ok tag) aids)))
      | inr something ↦ rw something (Finds-keep both aids _ (only_aid-Finds (keep both aids)))
    ]
