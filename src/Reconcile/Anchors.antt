-- ===== src/Reconcile/Anchors.antt =====
-- The anchor computations of internal/core/reconcile.go. A read x[0] of a slice is get_elem? x 0, and
-- the result of a computation in which one is out of range is the outer `none`, a panic.
use octo_docs_html_fork.Prelude.{
  String, Bool, true, false, not, ◌&&◌, ◌||◌, Option, none, some, List, [], ◌==◌, keep, eqb, length,
  get_elem?, is_empty, if◌then◌else◌,
}
use octo_docs_html_fork.Prelude.Dict.{Dict, get}
use octo_docs_html_fork.Types.{Anchor, AnchorKind, AnchorFallback, StampedArtifact}
use octo_docs_html_fork.Reconcile.Text.{CaseTable, to_lower, equal_fold, selector_aid, aid_selector}

abbrev pub Index : Type 0
Index = Dict (List StampedArtifact)

-- m[k] in an index: a missing key gives the nil slice
unfoldable pub artifacts_at : Index → String → List StampedArtifact
unfolding get
artifacts_at m k = elim (get m k) [ none ↦ [] | some xs ↦ xs ]

unfoldable pub is_element : AnchorKind → Bool
is_element AnchorKind.element = true
is_element _ = false

unfoldable pub is_lost : AnchorKind → Bool
is_lost AnchorKind.lost = true
is_lost _ = false

unfoldable pub known_aid : Anchor → String
unfolding is_element
known_aid a =
    if is_element a.kind && not (a.aid == "")
    then a.aid
    else if is_element a.kind && not (a.selector == "")
    then elim (selector_aid a.selector) [ none ↦ "" | some w ↦ w ]
    else ""

-- a.Fingerprint.Tag, "" where there is no fingerprint
unfoldable pub fingerprint_tag : Anchor → String
fingerprint_tag a = elim a.fingerprint [ none ↦ "" | some f ↦ f.tag ]

unfoldable pub want_tag : CaseTable → Anchor → String
unfolding fingerprint_tag
want_tag u a =
    if not (fingerprint_tag a == "")
    then fingerprint_tag a
    else if not (a.label == "")
    then to_lower u a.label
    else ""

unfoldable pub heading_of : Option AnchorFallback → String
heading_of none = ""
heading_of (some f) = elim f.nearest_heading [ none ↦ "" | some text ↦ text ]

unfoldable pub tag_ok : String → StampedArtifact → Bool
tag_ok tag x = tag == "" || x.tag == tag

unfoldable pub head_ok : CaseTable → String → StampedArtifact → Bool
head_ok u head x = head == "" || elim x.heading [ none ↦ false | some h ↦ equal_fold u h head ]

-- if len(xs) == 1 { return xs[0].AID }, and "" otherwise
unfoldable pub only_aid : List StampedArtifact → Option String
only_aid xs =
    if eqb (length xs) 1
    then elim (get_elem? xs 0) [ none ↦ none | some x ↦ some x.aid ]
    else some ""

-- the matches by tag and heading, or where there are none those by tag alone
unfoldable pub choose : List StampedArtifact → List StampedArtifact → Option String
unfolding only_aid
choose matches tag_only = only_aid (if is_empty matches then tag_only else matches)

unfoldable pub find_rebind_aid : CaseTable → Anchor → List StampedArtifact → Option String
unfolding heading_of tag_ok head_ok choose want_tag
find_rebind_aid u a aids =
    let tag = want_tag u a in
    let head = heading_of a.fallback in
    choose (keep (λ x. tag_ok tag x && head_ok u head x) aids) (keep (tag_ok tag) aids)

-- &Anchor{Kind: "lost", Reason: reason, Label: …, Fingerprint: …, Fallback: …}
unfoldable pub lost_of : Anchor → String → Anchor
lost_of a reason = record {
  kind = AnchorKind.lost;
  text = "";
  context_before = "";
  context_after = "";
  aid = "";
  selector = "";
  label = a.label;
  reason = reason;
  fingerprint = a.fingerprint;
  fallback = a.fallback;
}

unfoldable pub rebound_label : Anchor → String
unfolding fingerprint_tag
rebound_label a =
    let label = if a.label == "" then fingerprint_tag a else a.label in
    if label == "" then "element" else label

unfoldable pub rebound : Anchor → String → Anchor
unfolding aid_selector rebound_label
rebound a aid = record {
  kind = AnchorKind.element;
  text = "";
  context_before = "";
  context_after = "";
  aid = aid;
  selector = aid_selector aid;
  label = rebound_label a;
  reason = "";
  fingerprint = a.fingerprint;
  fallback = a.fallback;
}

-- `none` is the nil result: no change.
unfoldable pub moved_to : Anchor → String → Option Anchor
unfolding lost_of rebound is_lost
moved_to a aid =
    if not (aid == "")
    then some (rebound a aid)
    else if is_lost a.kind
    then none
    else some (lost_of a "no_candidate")

unfoldable pub next_anchor : CaseTable → Anchor → List StampedArtifact → Option (Option Anchor)
unfolding moved_to
next_anchor u a aids = elim (find_rebind_aid u a aids) [
  | none ↦ none
  | some aid ↦ some (moved_to a aid)
]

unfoldable pub lost_anchor : Anchor → String → Option Anchor
unfolding lost_of is_lost
lost_anchor a reason =
    if is_lost a.kind && a.reason == reason then none else some (lost_of a reason)

unfoldable pub anchor_matches_artifact : CaseTable → Anchor → StampedArtifact → Bool
unfolding fingerprint_tag
anchor_matches_artifact u a x =
    if not (fingerprint_tag a == "") then x.tag == to_lower u (fingerprint_tag a) else true

-- len(xs) == 1 && test(xs[0])
unfoldable pub only_one : List StampedArtifact → (StampedArtifact → Bool) → Option Bool
only_one xs test =
    if eqb (length xs) 1
    then elim (get_elem? xs 0) [ none ↦ none | some x ↦ some (test x) ]
    else some false

-- len(xs) == 1 && xs[0].Tag == tag
unfoldable pub only_tagged : List StampedArtifact → String → Option Bool
unfolding only_one
only_tagged xs tag = only_one xs (λ x. x.tag == tag)

-- the copy where the test holds, nil where it fails
unfoldable pub copy_if : Option Bool → Anchor → Option (Option Anchor)
copy_if none a = none
copy_if (some fits) a = some (if fits then some a else none)

-- what migratedAnchor and pinnedAnchor write into their copy
unfoldable pub pin : Anchor → String → String → Anchor
unfolding aid_selector
pin a aid tag = record a {
  aid = aid;
  selector = aid_selector aid;
  label = tag;
  fingerprint = some (record { tag = tag });
}

unfoldable pub migrated_anchor :
    Anchor → Index → String → String → Dict String → Option (Option Anchor)
unfolding is_element only_tagged get pin copy_if
migrated_anchor a by_aid pinned_aid pinned_tag migrations =
    let canonical : String = elim (get migrations pinned_aid) [ none ↦ "" | some c ↦ c ] in
    if not (is_element a.kind)
      || canonical == ""
      || canonical == pinned_aid
      || not (known_aid a == pinned_aid)
    then some none
    else copy_if (only_tagged (artifacts_at by_aid canonical) pinned_tag)
        (record (pin a canonical pinned_tag) { kind = AnchorKind.element })

unfoldable pub pinned_anchor : Anchor → Index → String → String → Option (Option Anchor)
unfolding only_tagged pin copy_if
pinned_anchor a by_aid pinned_aid pinned_tag =
    if pinned_aid == "" || pinned_tag == "" || not (known_aid a == pinned_aid)
    then some none
    else copy_if (only_tagged (artifacts_at by_aid pinned_aid) pinned_tag)
        (pin a pinned_aid pinned_tag)

unfoldable pub canonical_alias_anchor : Anchor → StampedArtifact → Anchor
unfolding aid_selector
canonical_alias_anchor a x = record a {
  kind = AnchorKind.element;
  aid = x.aid;
  selector = aid_selector x.aid;
  label = if a.label == "" then x.tag else a.label;
}
