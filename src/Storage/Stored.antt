-- ===== src/Storage/Stored.antt =====
-- DocMeta read back from its encoding (internal/storage/docmeta.go).
use octo_docs_html_fork.Prelude.{
  String, true, false, ◌≡◌, refl, ap, ◌∙◌, Option, none, some, List, [], ◌∷◌, ◌++◌, append-nil,
  ◌==◌, arith, contains, is_empty, if◌then◌else◌,
}
use octo_docs_html_fork.Prelude.Dict.{Dict, get, put, get-put, remove, keys}
use octo_docs_html_fork.Prelude.Int.{ℤ}
use octo_docs_html_fork.Storage.Value.{Value, field_at}
use octo_docs_html_fork.Storage.Float.{decode_dict, exact_dict, decode_dict-exact}
use octo_docs_html_fork.Storage.Meta.{VersionRef, DocMeta}
use octo_docs_html_fork.Storage.Encoding.{
  encode_ref, encode_refs, encode_versions, decode_ref, decode_refs, decode_versions, decode_number,
  decode_created, decode_text, marshal, collect_extra, unmarshal, assemble,
}

-- The open part uses none of the three known names.
abbrev pub IsOpen : Dict Value → Type 0
IsOpen d =
    (contains "slug" (keys d) ≡ false)
    × (contains "title" (keys d) ≡ false)
    × (contains "versions" (keys d) ≡ false)

-- A map that the decoder gives back as it was: nil, or a non-empty map that uses no known name and in
-- which every number is below 2 ^ 53 in size.
abbrev pub IsStorable : Option (Dict Value) → Type 0
IsStorable none = Unit
IsStorable (some d) = (is_empty d ≡ false) × IsOpen d × (exact_dict d ≡ true)

decode_ref-encode_ref : (r : VersionRef) → decode_ref (encode_ref r) ≡ some r
unfolding decode_ref encode_ref field_at decode_number decode_created
decode_ref-encode_ref r = go r.n r.created
  where
    go :
        (n : ℤ) (o : Option String)
        → decode_ref (encode_ref (record { n = n; created = o }))
          ≡ some (record { n = n; created = o })
    go n none = refl
    go n (some t) = refl

decode_refs-encode_refs : (rs : List VersionRef) → decode_refs (encode_refs rs) ≡ some rs
unfolding decode_refs encode_refs encode_ref
decode_refs-encode_refs [] = refl
decode_refs-encode_refs (r ∷ rs) = rw (decode_ref-encode_ref r, decode_refs-encode_refs rs) refl

pub decode_versions-encode_versions :
    (o : Option (List VersionRef)) → decode_versions (some (encode_versions o)) ≡ some o
unfolding decode_versions encode_versions
decode_versions-encode_versions none = refl
decode_versions-encode_versions (some rs) = rw (decode_refs-encode_refs rs, decode_versions) refl

module _ {ℓ} {V : Type ℓ} where
  put_absent :
      (m : Dict V) (k : String) (v : V) → contains k (keys m) ≡ false → put m k v ≡ m ++ (k, v) ∷ []
  unfolding put
  put_absent [] k v h = refl
  put_absent ((j, w) ∷ m) k v h = ground (arith, put_absent m k v)

  remove_absent : (m : Dict V) (k : String) → contains k (keys m) ≡ false → remove m k ≡ m
  unfolding remove
  remove_absent [] k h = refl
  remove_absent ((j, w) ∷ m) k h = ground (arith, remove_absent m k)

  remove-append : (m m' : Dict V) (k : String) → remove (m ++ m') k ≡ remove m k ++ remove m' k
  unfolding remove
  remove-append [] m' k = refl
  remove-append ((j, w) ∷ m) m' k = ground (arith, remove-append m m' k)

  contains_other :
      (m : Dict V) (k j : String) (v : V)
      → (j == k) ≡ false
      → contains k (keys m) ≡ false
      → contains k (keys (m ++ (j, v) ∷ [])) ≡ false
  contains_other [] k j v differ h = ground arith
  contains_other ((i, w) ∷ m) k j v differ h = ground (arith, contains_other m k j v differ)

-- What the encoder adds to an open part, the decoder takes away.
collect_extra-put :
    (d : Dict Value) (s t v : Value)
    → IsOpen d
    → collect_extra (put (put (put d "slug" s) "title" t) "versions" v)
      ≡ (if is_empty (decode_dict d) then none else some (decode_dict d))
unfolding collect_extra remove
collect_extra-put d s t v (no_slug, no_title, no_versions) =
    let title_free = contains_other d "title" "slug" s refl no_title in
    let versions_free =
      contains_other (d ++ ("slug", s) ∷ []) "versions" "title" t refl
        (contains_other d "versions" "slug" s refl no_versions) in
    rw
      (
        put_absent d "slug" s no_slug,
        put_absent (d ++ ("slug", s) ∷ []) "title" t title_free,
        put_absent ((d ++ ("slug", s) ∷ []) ++ ("title", t) ∷ []) "versions" v versions_free,
      )
      (simp (
        remove-append,
        remove_absent d "slug" no_slug,
        remove_absent d "title" no_title,
        remove_absent d "versions" no_versions,
        append-nil,
      ))

-- the open part of a metadata record after a round trip
collect_extra-marshal : (m : DocMeta) → IsStorable m.extra → collect_extra (marshal m) ≡ m.extra
unfolding marshal decode_dict
collect_extra-marshal m ok = go m.extra ok (Value.text m.slug) (Value.text m.title) _
  where
    go :
        (e : Option (Dict Value))
        → IsStorable e
        → (s t v : Value)
        → (let out : Dict Value = elim e [ none ↦ [] | some d ↦ d ] in
            collect_extra (put (put (put out "slug" s) "title" t) "versions" v))
          ≡ e
    go none ok s t v = collect_extra-put [] s t v (refl, refl, refl)
    go (some d) (filled, unused, exact) s t v =
        collect_extra-put d s t v unused ∙ rw (decode_dict-exact d exact, filled) refl

module _ (m : DocMeta) where
  pub get-marshal_slug : get (marshal m) "slug" ≡ some (Value.text m.slug)
  unfolding marshal
  get-marshal_slug =
      get-put _ "versions" "slug" _ ∙ get-put _ "title" "slug" _ ∙ get-put _ "slug" "slug" _

  pub get-marshal_title : get (marshal m) "title" ≡ some (Value.text m.title)
  unfolding marshal
  get-marshal_title = get-put _ "versions" "title" _ ∙ get-put _ "title" "title" _

  pub get-marshal_versions : get (marshal m) "versions" ≡ some (encode_versions m.versions)
  unfolding marshal
  get-marshal_versions = get-put _ "versions" "versions" _

  -- Metadata whose open part is nil, or is not empty, uses none of the names slug, title and
  -- versions and has no number of 2 ^ 53 or more in size, is decoded from its encoding without
  -- an error and unchanged.
  pub unmarshal-marshal : IsStorable m.extra → unmarshal (marshal m) ≡ some m
  unfolding unmarshal decode_text assemble
  unmarshal-marshal ok = λ i.
      assemble (decode_text (get-marshal_slug i)) (decode_text (get-marshal_title i))
        ((ap decode_versions get-marshal_versions ∙ decode_versions-encode_versions m.versions) i)
        (collect_extra-marshal m ok i)
