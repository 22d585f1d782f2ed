-- ===== src/Roles/Codes.antt =====
-- What a share code opens (internal/service/capability.go).
use octo_docs_html_fork.Prelude.{
  String, ◌≡◌, ◌≢◌, refl, ap, ◌∙◌, Option, none, some, [], ◌∷◌, ◌==◌, test_of_ne, Bool-cases, inl,
  inr, if◌then◌else◌,
}
use octo_docs_html_fork.Prelude.Dict.{Dict, get, get-put, remove, get-remove}
use octo_docs_html_fork.Roles.Capability.{Capability}
use octo_docs_html_fork.Roles.Share.{
  hash_in, share_code_hash, capability_for, share_value, generate_code, nil_if_empty, without_code,
  revoke_code,
}
use octo_docs_html_fork.Storage.Value.{Value, field_at}
use octo_docs_html_fork.Storage.Meta.{DocMeta, extra_of, text_or_empty}

-- the map behind the pointer
extra_of-nil_if_empty :
    (m : DocMeta) (d : Dict Value) → extra_of (some (record m { extra = nil_if_empty d })) ≡ d
unfolding extra_of nil_if_empty
extra_of-nil_if_empty m [] = refl
extra_of-nil_if_empty m (entry ∷ d) = refl

no_code-without_code :
    (o : Option Value) (m : DocMeta)
    → get (extra_of (some m)) "share" ≡ o
    → share_code_hash (some (without_code o m)) ≡ ""
unfolding share_code_hash hash_in without_code
no_code-without_code none m missing = ap hash_in missing
no_code-without_code (some v) m found =
    ap (λ d. hash_in (get d "share")) (extra_of-nil_if_empty m (remove (extra_of (some m)) "share"))
    ∙ ap hash_in (get-remove (extra_of (some m)) "share" "share")

no_code-revoke_code : (o : Option DocMeta) → share_code_hash (revoke_code o) ≡ ""
unfolding revoke_code share_code_hash extra_of hash_in get
no_code-revoke_code none = refl
no_code-revoke_code (some m) = no_code-without_code (get (extra_of (some m)) "share") m refl

module _ (hash : String → String) where
  hash-generate_code :
      (m : DocMeta) (code now : String)
      → share_code_hash (generate_code hash (some m) code now) ≡ hash code
  unfolding generate_code share_code_hash extra_of hash_in field_at text_or_empty
  hash-generate_code m code now =
      ap hash_in (get-put (extra_of (some m)) "share" "share" (share_value (hash code) now))

  -- Let the hash of no text be empty. After a code is generated for a document, a non-empty
  -- credential opens the document for reading if its hash is that of the code, and not at all
  -- otherwise.
  pub capability_for-generate_code :
      (m : DocMeta) (code now cred : String)
      → ((s : String) → hash s ≢ "")
      → cred ≢ ""
      → capability_for hash (generate_code hash (some m) code now) cred
        ≡ (if hash cred == hash code then Capability.cap_read else Capability.cap_none)
  unfolding capability_for
  capability_for-generate_code m code now cred filled given =
      rw
        (
          hash-generate_code m code now,
          test_of_ne (hash code) "" (filled code),
          test_of_ne cred "" given,
        )
        refl

  -- After the code of a document is revoked, no credential opens it.
  pub capability_for-revoke_code :
      (o : Option DocMeta) (cred : String)
      → capability_for hash (revoke_code o) cred ≡ Capability.cap_none
  unfolding capability_for
  capability_for-revoke_code o cred = elim (Bool-cases (cred == "")) [
    | inl empty ↦ rw (no_code-revoke_code o, empty) refl
    | inr given ↦ rw (no_code-revoke_code o, given) refl
  ]
