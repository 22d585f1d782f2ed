-- ===== src/Storage/Rows.antt =====
-- The rows of internal/storage/memory/memory.go: what is read after a write.
use octo_docs_html_fork.Prelude.{
  String, true, ◌≡◌, refl, ap, ◌∙◌, Option, none, some, ◌==◌, Bool-cases, inl, inr, if◌then◌else◌,
}
use octo_docs_html_fork.Prelude.Dict.{get, put, get-put}
use octo_docs_html_fork.Prelude.Int.{
  ℤ, ltb_ℤ, ◌+ℤ◌, scale_ℤ, is_int64, wrap_int64, wrap_int64-small,
}
use octo_docs_html_fork.Storage.Meta.{DocMeta}
use octo_docs_html_fork.Storage.Stored.{IsStorable, unmarshal-marshal}
use octo_docs_html_fork.Storage.State.{Session, SessionEntry, Store}
use octo_docs_html_fork.Storage.Tables.{
  clone_meta, get_meta, put_meta, get_session, put_session, found_session, copy_out, pointer,
  store_meta,
}

found_session-other :
    (o : Option SessionEntry) (s s' : Store) (sid : String) (now : ℤ)
    → (found_session o s sid now).0 ≡ (found_session o s' sid now).0
unfolding found_session
found_session-other none s s' sid now = refl
found_session-other (some e) s s' sid now = elim (Bool-cases (ltb_ℤ e.expires_at now)) [
  | inl expired ↦ rw expired refl
  | inr live ↦ rw live refl
]

found_session-some :
    (e : SessionEntry) (s : Store) (sid : String) (now : ℤ)
    → (found_session (some e) s sid now).0
      ≡ (if ltb_ℤ e.expires_at now then none else some e.session)
unfolding found_session
found_session-some e s sid now = elim (Bool-cases (ltb_ℤ e.expires_at now)) [
  | inl expired ↦ rw expired refl
  | inr live ↦ rw live refl
]

-- Where the lifetime in milliseconds and the time of expiry are int64 values, a session is found
-- until its time of expiry is past, and no longer. A write of one session changes what is found
-- of no other.
pub get_session-put_session :
    (s : Store) (sid other : String) (x : Session) (ttl now later : ℤ)
    → is_int64 (scale_ℤ 1000 ttl) ≡ true
    → is_int64 (now +ℤ scale_ℤ 1000 ttl) ≡ true
    → (get_session (put_session s sid x ttl now) other later).0 ≡ (
        if sid == other
        then (if ltb_ℤ (now +ℤ scale_ℤ 1000 ttl) later then none else some x)
        else (get_session s other later).0)
unfolding get_session put_session
get_session-put_session s sid other x ttl now later small fits =
    let e : SessionEntry = record { session = x; expires_at = now +ℤ scale_ℤ 1000 ttl } in
    let due : wrap_int64 (now +ℤ wrap_int64 (scale_ℤ 1000 ttl)) ≡ now +ℤ scale_ℤ 1000 ttl =
      ap (λ z. wrap_int64 (now +ℤ z)) (wrap_int64-small (scale_ℤ 1000 ttl) small)
      ∙ wrap_int64-small (now +ℤ scale_ℤ 1000 ttl) fits in
    let s' : Store = put_session s sid x ttl now in
    ap (λ o. (found_session o s' other later).0)
      (get-put s.sessions sid other _
        ∙ ap
            (λ z.
              if sid == other
              then some (record { session = x; expires_at = z })
              else get s.sessions other)
            due)
    ∙ elim (Bool-cases (sid == other)) [
      | inl same ↦ rw same (found_session-some e s' other later)
      | inr differ ↦ rw differ (found_session-other (get s.sessions other) s' s other later)
    ]

-- Metadata whose open part is nil, or is not empty, uses none of the names slug, title and
-- versions and has no number of 2 ^ 53 or more in size, is written without a panic and read back
-- as it was. A write of one slug changes no other.
pub get_meta-put_meta :
    (s : Store) (slug other : String) (m : DocMeta)
    → IsStorable m.extra
    → (s' : Store) × (put_meta s slug m ≡ some s')
      × (get_meta s' other ≡ (if slug == other then some (some m) else get_meta s other))
unfolding get_meta put_meta store_meta copy_out clone_meta pointer
get_meta-put_meta s slug other m ok =
    let copied = unmarshal-marshal m ok in
    (
      record s { meta = put s.meta slug m },
      ap (λ o. store_meta o s slug) copied,
      ap copy_out (get-put s.meta slug other m) ∙ elim (Bool-cases (slug == other)) [
        | inl same ↦ rw same (ap pointer copied)
        | inr differ ↦ rw differ refl
      ],
    )
