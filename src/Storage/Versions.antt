-- ===== src/Storage/Versions.antt =====
-- The versions that internal/storage/memory/memory.go lists.
use Prim.Native.String.{◌++◌}
use text.Mathlib.TextLemmas.{append_assoc}
use text.Mathlib.TextPositions.{len-append, slice-append_right}
use octo_docs_html_fork.Prelude.{
  ℕ, ◌<◌, ◌^◌, String, Bool, true, false, ◌||◌, ◌≡◌, refl, sym, subst, Option, none, some, List, [],
  ◌∷◌, ◌==◌, arith, eq_iff, Bool-cases, inl, inr,
}
use octo_docs_html_fork.Prelude.Dict.{Dict, get, put}
use octo_docs_html_fork.Prelude.Int.{ℤ, pos, eqb_ℤ}
use octo_docs_html_fork.Storage.State.{Store}
use octo_docs_html_fork.Storage.Decimal.{itoa}
use octo_docs_html_fork.Storage.Digits.{atoi-itoa, itoa-ne_nil}
use octo_docs_html_fork.Storage.Purge.{extends_prefix-append}
use octo_docs_html_fork.Storage.Blobs.{
  blob_key, put_doc, insert_version, suffix_of, version_of, add_version, versions_under,
  list_versions,
}

-- Whether a version is listed.
abbrev pub lists : ℤ → List ℤ → Bool
lists n [] = false
lists n (m ∷ ms) = eqb_ℤ m n || lists n ms

lists-insert_version :
    (w n : ℤ) (ms : List ℤ) → lists w (insert_version n ms) ≡ (eqb_ℤ n w || lists w ms)
unfolding insert_version
lists-insert_version w n [] = refl
lists-insert_version w n (m ∷ ms) = ground (arith, lists-insert_version w n ms)

suffix_of-append : (prefix rest : String) → suffix_of prefix (prefix ++ rest) ≡ rest
unfolding suffix_of
suffix_of-append prefix rest = rw (len-append prefix rest) (slice-append_right prefix rest)

-- Whether a key spells a version.
abbrev spells : Option ℤ → ℤ → Bool
spells none w = false
spells (some n) w = eqb_ℤ n w

lists-add_version :
    (w : ℤ) (o : Option ℤ) (ms : List ℤ) → lists w (add_version o ms) ≡ (spells o w || lists w ms)
unfolding add_version
lists-add_version w none ms = refl
lists-add_version w (some n) ms = lists-insert_version w n ms

module _ (prefix k : String) (n w : ℤ) (spelled : version_of prefix k ≡ some n) where
  lists-versions_under :
      (d : Dict String) (html : String)
      → lists w (versions_under prefix (put d k html))
        ≡ (eqb_ℤ n w || lists w (versions_under prefix d))
  unfolding versions_under put
  lists-versions_under [] html = rw spelled (lists-add_version w (some n) [])
  lists-versions_under ((j, old) ∷ d) html = elim (Bool-cases (j == k)) [
    | inl same ↦
        let there : version_of prefix j ≡ some n =
          subst (λ x. version_of prefix x ≡ some n) (sym ((eq_iff j k).0 same)) spelled in
        ground (arith, spelled, there, lists-add_version w (some n) (versions_under prefix d))
    | inr differ ↦ ground (
      arith,
      lists-add_version w (version_of prefix j) (versions_under prefix d),
      lists-add_version w (version_of prefix j) (versions_under prefix (put d k html)),
      lists-versions_under d html,
    )
  ]

version_of-blob_key :
    (slug : String) (n : ℕ)
    → n < 2 ^ 63
    → version_of (slug ++ "\0") (blob_key slug (pos n)) ≡ some (pos n)
unfolding version_of blob_key
version_of-blob_key slug n small =
    rw
      (
        ← append_assoc slug "\0" (itoa (pos n)),
        extends_prefix-append (slug ++ "\0") (itoa (pos n)) (itoa-ne_nil (pos n)),
        suffix_of-append (slug ++ "\0") (itoa (pos n)),
      )
      (atoi-itoa (pos n) small)

-- After PutDoc of a version that is an int and not negative, ListVersions lists that version and
-- those that it listed before, and no others.
pub lists-put_doc :
    (s : Store) (slug html : String) (n : ℕ) (w : ℤ)
    → n < 2 ^ 63
    → lists w (list_versions (put_doc s slug (pos n) html).0 slug)
      ≡ (eqb_ℤ (pos n) w || lists w (list_versions s slug))
unfolding list_versions put_doc
lists-put_doc s slug html n w small =
    lists-versions_under (slug ++ "\0") (blob_key slug (pos n)) (pos n) w
      (version_of-blob_key slug n small) s.blobs html

-- A version that is stored is listed.
pub lists-stored :
    (slug html : String) (n : ℕ)
    → n < 2 ^ 63
    → (d : Dict String) → get d (blob_key slug (pos n)) ≡ some html
    → lists (pos n) (versions_under (slug ++ "\0") d) ≡ true
unfolding get versions_under
lists-stored slug html n small [] h = absurd (cc)
lists-stored slug html n small ((j, old) ∷ d) h = elim (Bool-cases (j == blob_key slug (pos n))) [
  | inl same ↦
      let there : version_of (slug ++ "\0") j ≡ some (pos n) =
        subst (λ k. version_of (slug ++ "\0") k ≡ some (pos n))
          (sym ((eq_iff j (blob_key slug (pos n))).0 same)) (version_of-blob_key slug n small) in
      ground (
        arith,
        lists-add_version (pos n) (version_of (slug ++ "\0") j) (versions_under (slug ++ "\0") d),
        there,
      )
  | inr differ ↦
      let rest = lists-stored slug html n small d (ground (arith, differ, h)) in
      ground (
        arith,
        lists-add_version (pos n) (version_of (slug ++ "\0") j) (versions_under (slug ++ "\0") d),
        rest,
      )
]
