-- ===== src/Examples/Storing.antt =====
-- Examples of the in-memory store (internal/storage).
use octo_docs_html_fork.Prelude.{◌||◌, ◌≡◌, refl, none, some, [], ◌∷◌, ◌==◌, arith, if◌then◌else◌}
use octo_docs_html_fork.Prelude.Dict.{get, put}
use octo_docs_html_fork.Prelude.Int.{pos, negsuc, eqb_ℤ, ltb_ℤ, ◌+ℤ◌, scale_ℤ}
use octo_docs_html_fork.Storage.Value.{Value}
use octo_docs_html_fork.Storage.Float.{exact_dict, as_float}
use octo_docs_html_fork.Storage.Meta.{DocMeta}
use octo_docs_html_fork.Storage.State.{Session, Store, empty_store}
use octo_docs_html_fork.Storage.Tables.{get_meta, put_meta, get_session, put_session}
use octo_docs_html_fork.Storage.Decimal.{itoa, atoi}
use octo_docs_html_fork.Storage.Digits.{atoi-itoa}
use octo_docs_html_fork.Storage.Blobs.{put_doc, delete_doc, list_versions}
use octo_docs_html_fork.Storage.Purge.{IsPurged, delete_doc-IsPurged}
use octo_docs_html_fork.Storage.Rows.{get_session-put_session, get_meta-put_meta}
use octo_docs_html_fork.Storage.Versions.{lists, lists-put_doc}

abbrev meta : DocMeta
meta = record {
  slug = "a";
  title = "A";
  versions = some (record { n = pos 1; created = some "t1" } ∷ []);
  extra = some (
      ("creator_uid", Value.text "bob")
      ∷ ("docs_backend_registration_version", Value.number (pos 1))
      ∷ []);
}

abbrev session : Session
session = record {
  login = "bob";
  name = "";
  avatar_url = none;
  role = "";
  created = "t0";
  owner_uid = "";
}

get_meta-put_meta_example :
    (s' : Store) × (put_meta empty_store "a" meta ≡ some s')
    × (get_meta s' "a" ≡ (if "a" == "a" then some (some meta) else get_meta empty_store "a"))
unfolding exact_dict
get_meta-put_meta_example =
    get_meta-put_meta empty_store "a" "a" meta (refl, (refl, refl, refl), refl)

get_session-put_session_example :
    (get_session (put_session empty_store "s" session (pos 60) (pos 1000)) "s" (pos 70000)).0 ≡ (
      if "s" == "s"
      then (if ltb_ℤ (pos 1000 +ℤ scale_ℤ 1000 (pos 60)) (pos 70000) then none else some session)
      else (get_session empty_store "s" (pos 70000)).0)
get_session-put_session_example =
    get_session-put_session empty_store "s" "s" session (pos 60) (pos 1000) (pos 70000) refl refl

atoi-itoa_example : atoi (itoa (pos 1207)) ≡ some (pos 1207)
atoi-itoa_example = atoi-itoa (pos 1207) (omega arith)

delete_doc-IsPurged_example :
    IsPurged (delete_doc (put_doc empty_store "a" (pos 1) "<p>").0 "a") "a"
delete_doc-IsPurged_example = delete_doc-IsPurged (put_doc empty_store "a" (pos 1) "<p>").0 "a"

lists-put_doc_example :
    lists (pos 2) (list_versions (put_doc empty_store "a" (pos 2) "<p>").0 "a")
    ≡ (eqb_ℤ (pos 2) (pos 2) || lists (pos 2) (list_versions empty_store "a"))
lists-put_doc_example = lists-put_doc empty_store "a" "<p>" 2 (pos 2) (omega arith)

-- 2 ^ 53 + 1 stands between two float64, and is rounded to the even one.
rounding_test : as_float (pos 9007199254740993) ≡ pos 9007199254740992
unfolding as_float
rounding_test = refl

-- A session with a negative lifetime is gone at once.
negative_ttl_test :
    (get_session (put_session empty_store "s" session (negsuc 0) (pos 1000)) "s" (pos 1000)).0
    ≡ none
unfolding get_session put_session get put
negative_ttl_test = refl
