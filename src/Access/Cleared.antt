-- ===== src/Access/Cleared.antt =====
-- What RoleBySlugUID (internal/service/auth.go) answers after a row is removed.
use octo_docs_html_fork.Prelude.{
  String, Bool, true, false, ◌≡◌, refl, sym, ap, ◌∙◌, Option, none, some, ◌==◌, eq_refl, Bool-cases,
  inl, inr, if◌then◌else◌,
}
use octo_docs_html_fork.Grants.Table.{
  Db, Call, find_member, doc_id_by_slug, role_of, role_by_doc_uid,
}
use octo_docs_html_fork.Grants.Service.{delete_registered, remove_grant_from_doc_member}
use octo_docs_html_fork.Grants.Deleted.{IsDeleted, delete_row-IsDeleted}
use octo_docs_html_fork.Access.Lookup.{RoleAnswer, role_answer, role_registered, role_in_mirror}

-- the answer without a role
abbrev pub cleared : Option RoleAnswer → Option RoleAnswer
cleared none = none
cleared (some r) = some (record r { role = none })

abbrev pub cleared_if : Bool → Option RoleAnswer → Option RoleAnswer
cleared_if b o = if b then cleared o else o

-- What the mirror answers for each uid, where the row of `uid` is cleared.
pub record IsCleared (db db' : Db) (slug uid : String) : Type 0 where
  pub registered : Bool
  pub gone :
      role_in_mirror (some db') slug uid ≡ some (record { role = none; registered = registered })
  pub others :
      (u : String)
      → role_in_mirror (some db') slug u ≡ cleared_if (uid == u) (role_in_mirror (some db) slug u)

abbrev pub unregistered : RoleAnswer
unregistered = record { role = none; registered = false }

pub cleared_if-unregistered : (b : Bool) → cleared_if b (some unregistered) ≡ some unregistered
cleared_if-unregistered true = refl
cleared_if-unregistered false = refl

-- The mirror's answer, once the document's id is known.
pub mirror_answer :
    (db : Db) (slug u : String) (o : Option (Option String))
    → doc_id_by_slug db slug ≡ o
    → role_in_mirror (some db) slug u
      ≡ (if u == "" then some unregistered else role_registered o db u)
unfolding role_in_mirror
mirror_answer db slug u o h =
    ap (λ x. if u == "" then some unregistered else role_registered x db u) h

pub if_unregistered :
    (b : Bool) → (if b then some unregistered else some unregistered) ≡ some unregistered
if_unregistered true = refl
if_unregistered false = refl

module _ (db : Db) (slug uid : String) where
  unregistered-IsCleared : doc_id_by_slug db slug ≡ some none → IsCleared db db slug uid
  unfolding role_registered
  unregistered-IsCleared h =
      let all : (u : String) → role_in_mirror (some db) slug u ≡ some unregistered =
        λ u. mirror_answer db slug u (some none) h ∙ if_unregistered (u == "") in
      record {
        registered = false;
        gone = all uid;
        others = λ u.
            all u ∙ sym (ap (cleared_if (uid == u)) (all u) ∙ cleared_if-unregistered (uid == u));
      }

  module _ (db' : Db) (doc : String) (deleted : IsDeleted db db' doc uid)
      (found : doc_id_by_slug db slug ≡ some (some doc)) where
    found_after : doc_id_by_slug db' slug ≡ some (some doc)
    unfolding doc_id_by_slug
    found_after =
        (λ i. if deleted.calls (Call.find_doc slug) i then none else some (deleted.docs slug i))
        ∙ found

    role_after :
        (u : String)
        → role_by_doc_uid db' doc u ≡ (
            if db.fails (Call.read_role doc u)
            then none
            else some (role_of (if uid == u then none else find_member db.members doc u)))
    unfolding role_by_doc_uid
    role_after u =
        let row : find_member db'.members doc u
            ≡ (if uid == u then none else find_member db.members doc u) =
          deleted.rows doc u ∙ rw (eq_refl doc) refl in
        λ i. if deleted.calls (Call.read_role doc u) i then none else some (role_of (row i))

    cleared_row :
        (u : String)
        → role_registered (some (some doc)) db' u
          ≡ cleared_if (uid == u) (role_registered (some (some doc)) db u)
    unfolding role_registered role_answer role_by_doc_uid role_of
    cleared_row u =
        ap role_answer (role_after u) ∙ elim (Bool-cases (db.fails (Call.read_role doc u))) [
          | inl broken ↦ rw broken (sym (cleared_if-none (uid == u)))
          | inr works ↦ rw works (go (uid == u))
        ]
      where
        cleared_if-none : (b : Bool) → cleared_if b none ≡ none
        cleared_if-none true = refl
        cleared_if-none false = refl

        go :
            (b : Bool)
            → role_answer (some (role_of (if b then none else find_member db.members doc u)))
              ≡ cleared_if b (role_answer (some (role_of (find_member db.members doc u))))
        go true = refl
        go false = refl

    deleted-IsCleared : db.fails (Call.read_role doc uid) ≡ false → IsCleared db db' slug uid
    unfolding role_registered role_answer role_of
    deleted-IsCleared works = elim (Bool-cases (uid == "")) [
      | inl blank ↦ record {
        registered = false;
        gone = mirror_answer db' slug uid _ found_after ∙ rw blank refl;
        others = others;
      }
      | inr named ↦ record {
        registered = true;
        gone = mirror_answer db' slug uid _ found_after ∙ rw named (ap role_answer no_role);
        others = others;
      }
    ]
      where
        no_role : role_by_doc_uid db' doc uid ≡ some none
        no_role = role_after uid ∙ rw (works, eq_refl uid) refl

        others :
            (u : String)
            → role_in_mirror (some db') slug u
              ≡ cleared_if (uid == u) (role_in_mirror (some db) slug u)
        others u = mirror_answer db' slug u _ found_after ∙ elim (Bool-cases (u == "")) [
          | inl blank ↦
              let before : role_in_mirror (some db) slug u ≡ some unregistered =
                mirror_answer db slug u _ found ∙ rw blank refl in
              rw blank
                (sym (ap (cleared_if (uid == u)) before ∙ cleared_if-unregistered (uid == u)))
          | inr named ↦
              let before : role_in_mirror (some db) slug u
                  ≡ role_registered (some (some doc)) db u =
                mirror_answer db slug u _ found ∙ rw named refl in
              rw named (cleared_row u ∙ sym (ap (cleared_if (uid == u)) before))
        ]

  pub remove_grant_from_doc_member-IsCleared :
      (remove_grant_from_doc_member db slug uid).0 ≡ none
      → IsCleared db (remove_grant_from_doc_member db slug uid).1 slug uid
  unfolding remove_grant_from_doc_member
  remove_grant_from_doc_member-IsCleared = go (doc_id_by_slug db slug) refl
    where
      go :
          (o : Option (Option String))
          → doc_id_by_slug db slug ≡ o
          → (delete_registered o db uid).0 ≡ none
          → IsCleared db (delete_registered o db uid).1 slug uid
      go none h ok = absurd (cc)
      go (some none) h ok = unregistered-IsCleared h
      go (some (some doc)) h ok =
          let (deleted, works) =
            delete_row-IsDeleted db doc uid (role_by_doc_uid db doc uid) refl ok in
          deleted-IsCleared _ doc deleted h works
