-- ===== src/Examples/Granting.antt =====
-- Examples of the grants (internal/service/grants.go) and of who may do what
-- (internal/transport/httpx/capability.go).
use octo_docs_html_fork.Prelude.{refl, none, some, [], ◌∷◌, false}
use octo_docs_html_fork.Prelude.Dict.{get, put, remove}
use octo_docs_html_fork.Prelude.Int.{pos}
use octo_docs_html_fork.Storage.Value.{Value}
use octo_docs_html_fork.Storage.Meta.{DocMeta, grants_of}
use octo_docs_html_fork.Storage.State.{Store, empty_store}
use octo_docs_html_fork.Storage.Tables.{clone_meta}
use octo_docs_html_fork.Grants.Table.{Db}
use octo_docs_html_fork.Grants.Service.{Auth, add_grant, remove_grant}
use octo_docs_html_fork.Grants.Admins.{SameAdmins}
use octo_docs_html_fork.Grants.Adding.{rows_of}
use octo_docs_html_fork.Grants.Protected.{GrantCall, calls, calls-SameAdmins}
use octo_docs_html_fork.Access.Decision.{Request, Server, best_cred}
use octo_docs_html_fork.Access.Revoked.{IsRevoked, remove_grant-IsRevoked}
use octo_docs_html_fork.Access.Granted.{IsGranted}
use octo_docs_html_fork.Access.Adding.{add_grant-IsGranted}
use octo_docs_html_fork.Access.Managers.{Manager, best_cred-Manager}

abbrev owned : DocMeta
owned = record {
  slug = "doc";
  title = "Doc";
  versions = none;
  extra = some (("creator_uid", Value.text "alice") ∷ []);
}

abbrev store : Store
store = record empty_store { meta = ("doc", owned) ∷ [] }

-- The document is registered, bob may read it, and carol is an admin.
abbrev tables : Db
tables = record {
  docs = record { doc_id = "d1"; slug = "doc"; status = 1; epoch = 7 } ∷ [];
  members =
      record { doc_id = "d1"; uid = "bob"; role = pos 1; granted_by = "alice" }
      ∷ record { doc_id = "d1"; uid = "carol"; role = pos 3; granted_by = "alice" }
      ∷ [];
  fails = λ c. false;
}

abbrev auth : Auth
auth = record { store = store; mirror = some tables }

remove_grant-IsRevoked_example : IsRevoked auth (remove_grant auth "doc" "bob").1 "doc" "bob"
unfolding remove_grant get put remove clone_meta grants_of
remove_grant-IsRevoked_example = remove_grant-IsRevoked auth "doc" "bob" refl

add_grant-IsGranted_example :
    IsGranted auth (add_grant auth "doc" "bob" "writer" "alice" "now").1 "doc" "bob" "writer"
unfolding add_grant get put remove clone_meta grants_of
add_grant-IsGranted_example = add_grant-IsGranted auth "doc" "bob" "writer" "alice" "now" refl

calls-SameAdmins_example : SameAdmins (rows_of auth.mirror) (
    rows_of
      (calls
        (GrantCall.revoke "doc" "carol"
          ∷ GrantCall.add "doc" "carol" "reader" "bob" "now"
          ∷ GrantCall.reconcile "doc"
          ∷ [])
        auth).mirror)
calls-SameAdmins_example =
    calls-SameAdmins
      (GrantCall.revoke "doc" "carol"
        ∷ GrantCall.add "doc" "carol" "reader" "bob" "now"
        ∷ GrantCall.reconcile "doc"
        ∷ [])
      auth

abbrev server : Server
server = record {
  auth = auth;
  config = record { owner = ""; lower = λ s. s };
  hash = λ s. s;
  binding = none;
}

-- carol's request
abbrev by_carol : Request
by_carol = record {
  bearer = "";
  cookie = "";
  code = "";
  session = some (record {
    login = "carol";
    name = "Carol";
    avatar_url = none;
    role = "user";
    created = "now";
    owner_uid = "";
  });
  bot_session = none;
  octo_token = "";
}

best_cred-Manager_example : Manager server by_carol "doc"
unfolding best_cred get put remove clone_meta grants_of
best_cred-Manager_example = best_cred-Manager server by_carol "doc" refl
