-- ===== src/Grants/Rows.antt =====
-- What a query finds after a write (internal/service/doc_member_mirror.go).
use octo_docs_html_fork.Prelude.{
  String, ◌&&◌, ◌≡◌, refl, sym, ap, ◌∙◌, none, some, List, [], ◌∷◌, ◌==◌, arith, eq_iff, Bool-cases,
  inl, inr, if◌then◌else◌,
}
use octo_docs_html_fork.Grants.Table.{
  Member, DocRow, is_at, find_member, put_member, drop_member, bump_epoch, find_doc_id,
}

pub find_member-put_member :
    (ms : List Member) (new : Member) (doc uid : String)
    → find_member (put_member ms new) doc uid
      ≡ (if is_at new doc uid then some new else find_member ms doc uid)
unfolding find_member put_member
find_member-put_member [] new doc uid = refl
find_member-put_member (m ∷ ms) new doc uid = ground (
  arith,
  eq_iff m.doc_id new.doc_id,
  eq_iff m.uid new.uid,
  eq_iff m.doc_id doc,
  eq_iff m.uid uid,
  eq_iff new.doc_id doc,
  eq_iff new.uid uid,
  find_member-put_member ms new doc uid,
)

pub find_member-drop_member :
    (ms : List Member) (d u doc uid : String)
    → find_member (drop_member ms d u) doc uid
      ≡ (if d == doc && u == uid then none else find_member ms doc uid)
unfolding find_member drop_member
find_member-drop_member [] d u doc uid = ground arith
find_member-drop_member (m ∷ ms) d u doc uid = ground (
  arith,
  eq_iff m.doc_id d,
  eq_iff m.uid u,
  eq_iff m.doc_id doc,
  eq_iff m.uid uid,
  eq_iff d doc,
  eq_iff u uid,
  find_member-drop_member ms d u doc uid,
)

-- A write of members registers no document.
pub find_doc_id-bump_epoch :
    (ds : List DocRow) (doc slug : String)
    → find_doc_id (bump_epoch ds doc) slug ≡ find_doc_id ds slug
unfolding find_doc_id bump_epoch
find_doc_id-bump_epoch [] doc slug = refl
find_doc_id-bump_epoch (d ∷ ds) doc slug = elim (Bool-cases (d.doc_id == doc)) [
  | inl same ↦ rw same (rw (find_doc_id-bump_epoch ds doc slug) refl)
  | inr differ ↦ rw differ (rw (find_doc_id-bump_epoch ds doc slug) refl)
]

-- The row that is found is a row of the key.
pub find_member-key :
    (ms : List Member) (doc uid : String) (m : Member)
    → find_member ms doc uid ≡ some m
    → (m.doc_id ≡ doc) × (m.uid ≡ uid)
unfolding find_member
find_member-key [] doc uid m h = absurd (cc)
find_member-key (x ∷ xs) doc uid m h = elim (Bool-cases (is_at x doc uid)) [
  | inl here ↦
      let found : some x ≡ some m = sym (rw here refl) ∙ h in
      let same : x ≡ m = cc in
      (
        ap (λ y. y.doc_id) (sym same) ∙ ground (arith, eq_iff x.doc_id doc),
        ap (λ y. y.uid) (sym same) ∙ ground (arith, eq_iff x.uid uid),
      )
  | inr other ↦ find_member-key xs doc uid m (ground (arith, other))
]
