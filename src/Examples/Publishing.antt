-- ===== src/Examples/Publishing.antt =====
-- Examples of the document service (internal/service/doc.go).
use octo_docs_html_fork.Prelude.{◌≡◌, refl, arith, true, none, some, [], ◌∷◌}
use octo_docs_html_fork.Prelude.Dict.{get, put, remove}
use octo_docs_html_fork.Storage.Value.{Value}
use octo_docs_html_fork.Storage.Meta.{DocMeta}
use octo_docs_html_fork.Storage.State.{Store, empty_store}
use octo_docs_html_fork.Storage.Tables.{get_meta, clone_meta}
use octo_docs_html_fork.Storage.Blobs.{list_versions}
use octo_docs_html_fork.Docs.Input.{PublishInput}
use octo_docs_html_fork.Docs.Mount.{restore_mount_context}
use octo_docs_html_fork.Docs.Publish.{
  StampResult, slug_exists, max_version, authorized, publish_locked,
}
use octo_docs_html_fork.Docs.Kept.{HasOwner, publish_locked-HasOwner}
use octo_docs_html_fork.Docs.Published.{IsPublished, publish_locked-IsPublished}
use octo_docs_html_fork.Docs.Promote.{blank_input, promote}
use octo_docs_html_fork.Docs.Promoted.{IsPromoted}
use octo_docs_html_fork.Docs.Promoting.{promote-IsPromoted}
use octo_docs_html_fork.Docs.Removal.{remove_authorized}
use octo_docs_html_fork.Docs.Removed.{IsDecided, remove_authorized-IsDecided}
use octo_docs_html_fork.Examples.Data.{start, plain, figure}

-- a document that a bot has published for bob
abbrev bob_doc : DocMeta
bob_doc = record {
  slug = "doc";
  title = "Doc";
  versions = some [];
  extra = some (("creator_uid", Value.text "bob") ∷ []);
}

abbrev stored : Store
stored = record empty_store { meta = ("doc", bob_doc) ∷ [] }

abbrev page : StampResult
page = record { html = "<p>"; aids = figure ∷ [] }

-- a publish by someone else
abbrev by_eve : PublishInput
by_eve = record (blank_input "doc" "<p>" "" none) { creator_uid = "eve" }

stored_read : get_meta stored "doc" ≡ some (some bob_doc)
unfolding get_meta get put remove clone_meta
stored_read = refl

publish_locked-HasOwner_example :
    HasOwner "doc" bob_doc (publish_locked plain stored by_eve page "t" start).0.1
publish_locked-HasOwner_example =
    publish_locked-HasOwner plain stored by_eve page "t" start bob_doc stored_read

publish_locked-IsPublished_example :
    IsPublished empty_store "doc" "<p>" 0 (publish_locked plain empty_store by_eve page "t" start).0
unfolding get_meta get restore_mount_context slug_exists authorized max_version list_versions
publish_locked-IsPublished_example =
    publish_locked-IsPublished plain empty_store by_eve
      (record by_eve { mount_context_known = true }) page "t" start none 0 refl refl refl refl refl
      (omega arith)

remove_authorized-IsDecided_example :
    IsDecided stored "doc" (some bob_doc) none (remove_authorized plain stored "doc" none start).0
remove_authorized-IsDecided_example =
    remove_authorized-IsDecided plain stored "doc" none start (some bob_doc) stored_read

-- the metadata with the mark of a draft
abbrev drafted_doc : DocMeta
drafted_doc = record bob_doc {
  extra = some (("creator_uid", Value.text "bob") ∷ ("draft", Value.null) ∷ []);
}

-- the document with a draft of its next version
abbrev drafted : Store
drafted = record empty_store {
  meta = ("doc", drafted_doc) ∷ [];
  blobs = ("doc\0draft", "<p>") ∷ [];
}

promote-IsPromoted_example :
    IsPromoted "doc" drafted_doc (promote plain (λ html. page) drafted "doc" "" none "t" start).0
unfolding get_meta get put remove clone_meta
promote-IsPromoted_example =
    promote-IsPromoted plain (λ html. page) drafted "doc" "" none "t" start drafted_doc refl
