-- ===== src/Reconcile/Text.antt =====
-- The text operations that internal/core/reconcile.go takes from Go's strings and regexp.
use Prim.Native.Char.{Char, code}
use Prim.Native.String.{◌++◌}
use octo_docs_html_fork.Prelude.{
  ℕ, String, Bool, true, false, ◌&&◌, ◌||◌, Option, none, some, ◌==◌, leb, eqb, ◌≡◌, refl,
  if◌then◌else◌,
}

-- Go's Unicode tables (unicode.ToLower, unicode.SimpleFold), of which only this much is used.
pub record CaseTable : Type 0 where
  pub lower : Char → Char
  pub same_fold : Char → Char → Bool

-- strings.ToLower
unfoldable pub to_lower : CaseTable → String → String
to_lower u String.[] = ""
to_lower u (String.◌∷◌ c s) = String.◌∷◌ (u.lower c) (to_lower u s)

-- strings.EqualFold
unfoldable pub equal_fold : CaseTable → String → String → Bool
equal_fold u String.[] String.[] = true
equal_fold u String.[] (String.◌∷◌ d t) = false
equal_fold u (String.◌∷◌ c s) String.[] = false
equal_fold u (String.◌∷◌ c s) (String.◌∷◌ d t) = u.same_fold c d && equal_fold u s t

-- [0-9A-Za-z_], the \w of RE2
word_char : ℕ → Bool
word_char c =
    (leb b'0' c && leb c b'9')
    || (leb b'A' c && leb c b'Z')
    || (leb b'a' c && leb c b'z')
    || eqb c b'_'

-- what follows a prefix
strip_prefix : String → String → Option String
strip_prefix String.[] s = some s
strip_prefix (String.◌∷◌ p ps) String.[] = none
strip_prefix (String.◌∷◌ p ps) (String.◌∷◌ c s) =
    let rest = strip_prefix ps s in if eqb (code p) (code c) then rest else none

-- the longest run of word characters, if `"]` follows it
word_run : String → Option String
unfolding word_char strip_prefix
word_run String.[] = none
word_run (String.◌∷◌ c s) =
    let rest = word_run s in
    if word_char (code c)
    then elim rest [ none ↦ none | some w ↦ some (String.◌∷◌ c w) ]
    else elim (strip_prefix "\"]" (String.◌∷◌ c s)) [ none ↦ none | some _ ↦ some "" ]

-- \w+ takes one character at least
match_here : String → Option String
unfolding strip_prefix word_run
match_here s = elim (strip_prefix "[data-odoc-aid=\"" s) [
  | none ↦ none
  | some rest ↦ elim (word_run rest) [ none ↦ none | some w ↦ if w == "" then none else some w ]
]

-- aidSelectorRe.FindStringSubmatch(s)[1], of the leftmost match
unfoldable pub selector_aid : String → Option String
unfolding match_here
selector_aid String.[] = none
selector_aid (String.◌∷◌ c s) =
    let later = selector_aid s in
    elim (match_here (String.◌∷◌ c s)) [ some w ↦ some w | none ↦ later ]

-- `[data-odoc-aid="` + aid + `"]`
unfoldable pub aid_selector : String → String
aid_selector aid = "[data-odoc-aid=\"" ++ aid ++ "\"]"

selector_aid_test : selector_aid "div > [data-odoc-aid=\"ab_9\"] p" ≡ some "ab_9"
unfolding selector_aid
selector_aid_test = refl

no_aid_test : selector_aid "[data-odoc-aid=\"a-b\"]" ≡ none
unfolding selector_aid
no_aid_test = refl
