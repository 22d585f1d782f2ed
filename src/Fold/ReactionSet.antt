-- ===== src/Fold/ReactionSet.antt =====
-- applyReaction of internal/core/fold.go keeps, for each emoji, a set of logins without duplicates.
use octo_docs_html_fork.Prelude.{
  String, Bool, true, false, not, ◌&&◌, ◌||◌, ◌≡◌, refl, none, some, List, [], ◌∷◌, ◌++◌, ◌==◌,
  arith, eq_iff, contains, is_empty, Distinct, All, subst, Bool-cases, Option-cases, inl, inr,
  if◌then◌else◌,
}
use octo_docs_html_fork.Prelude.Dict.{get, put, remove, get-put, get-remove}
use octo_docs_html_fork.Types.{Reactions}
use octo_docs_html_fork.Fold.Reaction.{index_of, users_at, add_user, drop_user, apply_reaction}

-- The users of an emoji, with the first occurrence of one of them gone.
abbrev without : String → List String → List String
without b [] = []
without b (x ∷ us) = if x == b then us else x ∷ without b us

drop_user-without : (us : List String) (b : String) → drop_user us b ≡ without b us
unfolding drop_user
drop_user-without [] b = refl
drop_user-without (x ∷ us) b =
    ground (arith, eq_iff x b, drop_user-without us b, Option-cases (index_of us b))

pub contains-append :
    (x b : String) (us : List String) → contains x (us ++ b ∷ []) ≡ (contains x us || b == x)
contains-append x b [] = ground arith
contains-append x b (u ∷ us) = ground (arith, contains-append x b us)

pub index_of-contains :
    (us : List String) (b : String)
    → contains b us ≡ elim (index_of us b) [ none ↦ false | some i ↦ true ]
unfolding index_of
index_of-contains [] b = refl
index_of-contains (u ∷ us) b = ground (arith, index_of-contains us b, eq_iff u b)

pub contains-add_user :
    (x b : String) (us : List String) → contains x (add_user us b) ≡ (b == x || contains x us)
unfolding add_user
contains-add_user x b us =
    ground (arith, contains-append x b us, index_of-contains us b, eq_iff b x)

Distinct-append :
    (b : String) (us : List String) → Distinct us → contains b us ≡ false → Distinct (us ++ b ∷ [])
Distinct-append b [] d new = (refl, tt)
Distinct-append b (u ∷ us) d new = (
  ground (arith, contains-append u b us, eq_iff u b, eq_iff b u),
  Distinct-append b us d.1 (ground arith),
)

add_user-Distinct : (b : String) (us : List String) → Distinct us → Distinct (add_user us b)
unfolding add_user
add_user-Distinct b us d = elim (Option-cases (index_of us b)) [
  | inl new ↦ rw (new, Distinct) (Distinct-append b us d (ground (arith, index_of-contains us b)))
  | inr (i, old) ↦ rw (old, Distinct) d
]

contains-without :
    (x b : String) (us : List String)
    → Distinct us
    → contains x (without b us) ≡ (contains x us && not (b == x))
contains-without x b [] d = refl
contains-without x b (u ∷ us) d =
    ground (arith, contains-without x b us d.1, eq_iff u b, eq_iff u x, eq_iff b x, d.0)

without-Distinct : (b : String) (us : List String) → Distinct us → Distinct (without b us)
without-Distinct b [] d = tt
without-Distinct b (u ∷ us) d =
    ground (arith, without-Distinct b us d.1, contains-without u b us d.1, d.0)

-- Each emoji has at least one login, and none twice.
abbrev pub WellFormed : Reactions → Type 0
WellFormed = All (λ entry. Distinct entry.1 × (is_empty entry.1 ≡ false))

WellFormed-get :
    (r : Reactions) (emoji : String) (us : List String)
    → WellFormed r
    → get r emoji ≡ some us
    → Distinct us
unfolding get
WellFormed-get [] emoji us wf found = absurd (ground arith)
WellFormed-get ((j, vs) ∷ r) emoji us wf found = elim (Bool-cases (j == emoji)) [
  | inl here ↦ let same : vs ≡ us = ground arith in subst Distinct same wf.0.0
  | inr later ↦ WellFormed-get r emoji us wf.1 (ground arith)
]

WellFormed-put :
    (r : Reactions) (emoji : String) (us : List String)
    → Distinct us
    → is_empty us ≡ false
    → WellFormed r
    → WellFormed (put r emoji us)
unfolding put
WellFormed-put [] emoji us d some_user wf = ((d, some_user), tt)
WellFormed-put ((j, vs) ∷ r) emoji us d some_user wf = elim (Bool-cases (j == emoji)) [
  | inl here ↦ rw (here, All) ((d, some_user), wf.1)
  | inr later ↦ rw (later, All) (wf.0, WellFormed-put r emoji us d some_user wf.1)
]

WellFormed-remove : (r : Reactions) (emoji : String) → WellFormed r → WellFormed (remove r emoji)
unfolding remove
WellFormed-remove [] emoji wf = tt
WellFormed-remove ((j, vs) ∷ r) emoji wf = elim (Bool-cases (j == emoji)) [
  | inl here ↦ rw (here, All) (WellFormed-remove r emoji wf.1)
  | inr later ↦ rw (later, All) (wf.0, WellFormed-remove r emoji wf.1)
]

users_at-Distinct : (r : Reactions) (emoji : String) → WellFormed r → Distinct (users_at r emoji)
unfolding users_at
users_at-Distinct r emoji wf = elim (Option-cases (get r emoji)) [
  | inl missing ↦ rw (missing, Distinct) tt
  | inr (us, found) ↦ rw (found, Distinct) (WellFormed-get r emoji us wf found)
]

add_user-nonempty : (b : String) (us : List String) → is_empty (add_user us b) ≡ false
unfolding add_user index_of
add_user-nonempty b [] = refl
add_user-nonempty b (u ∷ us) = ground arith

-- The invariant of the reactions map is kept by adding and by removing.
pub apply_reaction-WellFormed :
    (r : Reactions) (emoji by : String) (add : Bool)
    → WellFormed r
    → WellFormed (apply_reaction r emoji by add)
unfolding apply_reaction
apply_reaction-WellFormed r emoji by true wf =
    WellFormed-put r emoji (add_user (users_at r emoji) by)
      (add_user-Distinct by (users_at r emoji) (users_at-Distinct r emoji wf))
      (add_user-nonempty by (users_at r emoji)) wf
apply_reaction-WellFormed r emoji by false wf =
    let us = drop_user (users_at r emoji) by in
    let d : Distinct us =
      rw (drop_user-without (users_at r emoji) by)
        (without-Distinct by (users_at r emoji) (users_at-Distinct r emoji wf)) in
    elim (Bool-cases (is_empty us)) [
      | inl nobody ↦ rw (nobody, All) (WellFormed-remove r emoji wf)
      | inr somebody ↦ rw (somebody, All) (WellFormed-put r emoji us d somebody wf)
    ]

-- Whether a login reacted with an emoji.
abbrev pub has_reacted : Reactions → String → String → Bool
has_reacted r emoji by = contains by (users_at r emoji)

-- On reactions in which each emoji has at least one login and none twice, an update sets whether
-- its login reacted with its emoji, and nothing else.
pub has_reacted-apply_reaction :
    (r : Reactions) (emoji by : String) (add : Bool) (emoji' by' : String)
    → WellFormed r
    → has_reacted (apply_reaction r emoji by add) emoji' by'
      ≡ (if emoji == emoji' && by == by' then add else has_reacted r emoji' by')
unfolding apply_reaction users_at
has_reacted-apply_reaction r emoji by true emoji' by' wf = ground (
  arith,
  get-put r emoji emoji' (add_user (users_at r emoji) by),
  eq_iff emoji emoji',
  contains-add_user by' by (users_at r emoji),
)
has_reacted-apply_reaction r emoji by false emoji' by' wf = ground (
  arith,
  get-put r emoji emoji' (drop_user (users_at r emoji) by),
  eq_iff emoji emoji',
  get-remove r emoji emoji',
  drop_user-without (users_at r emoji) by,
  contains-without by' by (users_at r emoji) (users_at-Distinct r emoji wf),
)
