-- ===== src/Ops/Extend.antt =====
-- The operations of internal/core/ops.go only append: to the list, and to the logs of its comments.
use octo_docs_html_fork.Prelude.{
  ℕ, zero, suc, String, ◌≡◌, refl, sym, ap, ◌∙◌, Option, some, List, [], ◌∷◌, ◌++◌, append-nil,
  append_assoc, subst, All, set, get_elem?, Option-cases, inl, inr,
}
use octo_docs_html_fork.Prelude.Int.{ℤ}
use octo_docs_html_fork.World.{World, M}
use octo_docs_html_fork.Types.{CommentEvent, Comment, CommentSnapshot, ReplySeed, log}
use octo_docs_html_fork.Events.Eid.{stamp_eid}
use octo_docs_html_fork.Events.Log.{append_event}
use octo_docs_html_fork.Events.Migrated.{
  IsMigrated, ensure_event_log-fixed, append_event-IsMigrated,
}
use octo_docs_html_fork.Fold.Snapshot.{snapshot_at, snapshot_of}
use octo_docs_html_fork.Ops.Types.{OpResult, CommentOp}
use octo_docs_html_fork.Ops.Handlers.{
  at_index, add_reply_to, patch_anchor_of, toggle, delete_in, append_all,
}

-- The same comment, with events added at the end of its log.
pub record Extends (c c' : Comment) : Type 0 where
  pub same_id : c'.id ≡ c.id
  pub same_author : c'.author ≡ c.author
  pub same_created : c'.created ≡ c.created
  pub same_created_in : c'.created_in ≡ c.created_in
  pub added : (es : List CommentEvent) × (log c' ≡ log c ++ es)

-- Every comment of the first list is extended at its place; comments may follow.
abbrev pub Grows : List Comment → List Comment → Type 0
Grows [] cs' = Unit
Grows (c ∷ cs) [] = ⊥
Grows (c ∷ cs) (c' ∷ cs') = Extends c c' × Grows cs cs'

pub Extends-refl : (c : Comment) → Extends c c
Extends-refl c = record {
  same_id = refl;
  same_author = refl;
  same_created = refl;
  same_created_in = refl;
  added = ([], sym (append-nil (log c)));
}

pub Extends-trans : (a b c : Comment) → Extends a b → Extends b c → Extends a c
Extends-trans a b c h k = record {
  same_id = k.same_id ∙ h.same_id;
  same_author = k.same_author ∙ h.same_author;
  same_created = k.same_created ∙ h.same_created;
  same_created_in = k.same_created_in ∙ h.same_created_in;
  added =
      let (xs, p) = h.added in
      let (ys, q) = k.added in (xs ++ ys, q ∙ ap (λ l. l ++ ys) p ∙ append_assoc (log a) xs ys);
}

pub Grows-refl : (cs : List Comment) → Grows cs cs
Grows-refl [] = tt
Grows-refl (c ∷ cs) = (Extends-refl c, Grows-refl cs)

pub Grows-append : (cs xs : List Comment) → Grows cs (cs ++ xs)
Grows-append [] xs = tt
Grows-append (c ∷ cs) xs = (Extends-refl c, Grows-append cs xs)

pub append_event-Extends :
    (c : Comment) (e : CommentEvent) (w : World) → Extends c (append_event c e w).0
unfolding append_event
append_event-Extends c e w = record {
  same_id = refl;
  same_author = refl;
  same_created = refl;
  same_created_in = refl;
  added = ((stamp_eid e w).0 ∷ [], refl);
}

-- On a migrated comment SnapshotAt only reads.
pub snapshot_at-fixed :
    (c : Comment) (v : ℤ) (w : World) → IsMigrated c → snapshot_at c v w ≡ ((snapshot_of c v, c), w)
unfolding snapshot_at
snapshot_at-fixed c v w h = rw (ensure_event_log-fixed c w h)

-- What an operation does to the comment that it works on.
pub record IsAppend (c c' : Comment) : Type 0 where
  pub extends : Extends c c'
  pub migrated : IsMigrated c'

append_event-IsAppend :
    (c : Comment) (e : CommentEvent) (w : World) → IsMigrated c → IsAppend c (append_event c e w).0
append_event-IsAppend c e w h = record {
  extends = append_event-Extends c e w;
  migrated = append_event-IsMigrated c e w h;
}

snapshot_at-IsAppend :
    (c d : Comment) (v : ℤ) (w : World) → IsAppend c d → IsAppend c (snapshot_at d v w).0.1
snapshot_at-IsAppend c d v w h = rw (snapshot_at-fixed d v w h.migrated) h

IsAppend-trans : (a b c : Comment) → IsAppend a b → IsAppend b c → IsAppend a c
IsAppend-trans a b c h k = record {
  extends = Extends-trans a b c h.extends k.extends;
  migrated = k.migrated;
}

module _ (op : CommentOp) (now : String) (c : Comment) (w : World) (h : IsMigrated c) where
  pub add_reply_to-IsAppend : IsAppend c (add_reply_to op now c w).0.0
  unfolding add_reply_to
  add_reply_to-IsAppend = append_event-IsAppend c _ w h

  pub patch_anchor_of-IsAppend : IsAppend c (patch_anchor_of op now c w).0.0
  unfolding patch_anchor_of
  patch_anchor_of-IsAppend = snapshot_at-IsAppend c _ op.version _ (append_event-IsAppend c _ w h)

  pub toggle-IsAppend :
      (reply_id : String) (snap : CommentSnapshot)
      → IsAppend c (toggle op now reply_id snap c w).0.0
  unfolding toggle
  toggle-IsAppend reply_id snap =
      snapshot_at-IsAppend c _ op.version _ (append_event-IsAppend c _ w h)

  pub delete_in-IsAppend : (seed : Option ReplySeed) → IsAppend c (delete_in op now seed c w).0.0
  unfolding delete_in
  delete_in-IsAppend seed = append_event-IsAppend c _ w h

pub append_all-IsAppend :
    (es : List CommentEvent) (c : Comment) (w : World)
    → IsMigrated c
    → IsAppend c (append_all c es w).0
unfolding append_all
append_all-IsAppend [] c w h = record { extends = Extends-refl c; migrated = h }
append_all-IsAppend (e ∷ es) c w h =
    let first = append_event-IsAppend c e w h in
    let (c', w') = append_event c e w in
    IsAppend-trans c c' (append_all c' es w').0 first (append_all-IsAppend es c' w' first.migrated)

-- The list that an operation leaves behind.
pub record IsGrown (cs cs' : List Comment) : Type 0 where
  pub grows : Grows cs cs'
  pub migrated : All IsMigrated cs'

pub IsGrown-refl : (cs : List Comment) → All IsMigrated cs → IsGrown cs cs
IsGrown-refl cs h = record { grows = Grows-refl cs; migrated = h }

pub set-IsGrown :
    (cs : List Comment) (i : ℕ) (c c' : Comment)
    → All IsMigrated cs
    → get_elem? cs i ≡ some c
    → IsAppend c c'
    → IsGrown cs (set cs i c')
set-IsGrown [] i c c' h found step = absurd (cc)
set-IsGrown (x ∷ cs) zero c c' h found step =
    let same : c ≡ x = cc in
    record {
      grows = (subst (λ y. Extends y c') same step.extends, Grows-refl cs);
      migrated = (step.migrated, h.1);
    }
set-IsGrown (x ∷ cs) (suc i) c c' h found step =
    let rest = set-IsGrown cs i c c' h.1 found step in
    record { grows = (Extends-refl x, rest.grows); migrated = (h.0, rest.migrated) }

pub All-get_elem? :
    (cs : List Comment) (i : ℕ) (c : Comment)
    → All IsMigrated cs
    → get_elem? cs i ≡ some c
    → IsMigrated c
All-get_elem? [] i c h found = absurd (cc)
All-get_elem? (x ∷ cs) zero c h found = let same : x ≡ c = cc in subst IsMigrated same h.0
All-get_elem? (x ∷ cs) (suc i) c h found = All-get_elem? cs i c h.1 found

-- An action on one element that appends to it grows the list.
pub at_index-IsGrown :
    (cs : List Comment) (i : ℕ) (f : Comment → M (Comment × OpResult)) (w : World)
    → All IsMigrated cs
    → ((c : Comment) → IsMigrated c → IsAppend c (f c w).0.0)
    → IsGrown cs (at_index cs i f w).0.0
unfolding at_index
at_index-IsGrown cs i f w h appends = elim (Option-cases (get_elem? cs i)) [
  | inl missing ↦ rw (missing, at_index) (IsGrown-refl cs h)
  | inr (c, found) ↦
      rw (found, at_index)
        (set-IsGrown cs i c (f c w).0.0 h found (appends c (All-get_elem? cs i c h found)))
]
