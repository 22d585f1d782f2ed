-- ===== src/Docs/Fresh.antt =====
-- The version that resolveVersion of internal/service/doc.go picks is no version that is stored.
use octo_docs_html_fork.Prelude.{
  ℕ, ◌+◌, ◌<◌, ◌^◌, String, true, false, ◌≡◌, sym, ap, ◌∙◌, none, List, [], ◌∷◌, arith, Bool-cases,
  Option-cases, inl, inr, if◌then◌else◌,
}
use octo_docs_html_fork.Prelude.Dict.{get}
use octo_docs_html_fork.Prelude.Int.{ℤ, pos, ltb_ℤ, leb_ℤ, leb_trans, leb_refl, eq_of_test, eqb_ℤ}
use octo_docs_html_fork.Storage.State.{Store}
use octo_docs_html_fork.Storage.Blobs.{blob_key, get_doc, list_versions}
use octo_docs_html_fork.Storage.Versions.{lists, lists-stored}
use octo_docs_html_fork.Docs.Publish.{max_version, next_int, resolve_version}

-- the larger of two
max_left : (max n : ℤ) → leb_ℤ max (if ltb_ℤ max n then n else max) ≡ true
max_left max n = ground arith

max_right : (max n : ℤ) → leb_ℤ n (if ltb_ℤ max n then n else max) ≡ true
max_right max n = ground arith

max_version-above : (max : ℤ) (ns : List ℤ) → leb_ℤ max (max_version max ns) ≡ true
unfolding max_version
max_version-above max [] = leb_refl max
max_version-above max (n ∷ ns) =
    let larger = if ltb_ℤ max n then n else max in
    leb_trans max larger (max_version larger ns) (max_left max n) (max_version-above larger ns)

max_version-listed :
    (max w : ℤ) (ns : List ℤ) → lists w ns ≡ true → leb_ℤ w (max_version max ns) ≡ true
unfolding max_version
max_version-listed max w [] h = absurd (cc)
max_version-listed max w (n ∷ ns) h =
    let larger = if ltb_ℤ max n then n else max in
    elim (Bool-cases (eqb_ℤ n w)) [
      | inl same ↦
          leb_trans w larger (max_version larger ns)
            (ap (λ x. leb_ℤ x larger) (sym (eq_of_test n w same)) ∙ max_right max n)
            (max_version-above larger ns)
      | inr differ ↦ max_version-listed larger w ns (ground (arith, differ, h))
    ]

-- The version after the latest one.
pub resolve_version-next :
    (s : Store) (slug : String) (explicit : ℤ) (k : ℕ)
    → ltb_ℤ (pos 0) explicit ≡ false
    → max_version (pos 0) (list_versions s slug) ≡ pos k
    → k + 1 < 2 ^ 63
    → resolve_version s slug explicit ≡ pos (k + 1)
unfolding resolve_version next_int
resolve_version-next s slug explicit k auto latest small = rw (auto, latest) (ground (arith, small))

pub get_doc-next :
    (s : Store) (slug : String) (k : ℕ)
    → max_version (pos 0) (list_versions s slug) ≡ pos k
    → k + 1 < 2 ^ 63
    → get_doc s slug (pos (k + 1)) ≡ none
unfolding get_doc list_versions
get_doc-next s slug k latest small =
    elim (Option-cases (get s.blobs (blob_key slug (pos (k + 1))))) [
      | inl free ↦ free
      | inr (html, taken) ↦
          let listed = lists-stored slug html (k + 1) small s.blobs taken in
          let below = max_version-listed (pos 0) (pos (k + 1)) (list_versions s slug) listed in
          absurd (ground (arith, ap (leb_ℤ (pos (k + 1))) latest, below))
    ]
