-- ===== src/Fold/Reaction.antt =====
-- applyReaction and indexOf of internal/core/fold.go.
use octo_docs_html_fork.Prelude.{
  ℕ, zero, suc, String, Bool, true, false, Option, none, some, List, [], ◌∷◌, ◌++◌, ◌==◌, is_empty,
  if◌then◌else◌,
}
use octo_docs_html_fork.Prelude.Dict.{get, put, remove}
use octo_docs_html_fork.Types.{Reactions}

-- `none` stands for the index -1.
unfoldable pub index_of : List String → String → Option ℕ
index_of [] v = none
index_of (x ∷ xs) v =
    let later = index_of xs v in
    if x == v then some 0 else elim later [ none ↦ none | some i ↦ some (suc i) ]

-- append(users[:i], users[i+1:]...)
unfoldable pub remove_at : List String → ℕ → List String
remove_at [] i = []
remove_at (x ∷ xs) zero = xs
remove_at (x ∷ xs) (suc i) = x ∷ remove_at xs i

-- reactions[emoji], a nil slice where the key is missing
unfoldable pub users_at : Reactions → String → List String
unfolding get
users_at r emoji = elim (get r emoji) [ none ↦ [] | some users ↦ users ]

-- the two branches over `users`
unfoldable pub add_user : List String → String → List String
unfolding index_of
add_user users by = elim (index_of users by) [ none ↦ users ++ by ∷ [] | some i ↦ users ]

unfoldable pub drop_user : List String → String → List String
unfolding index_of remove_at
drop_user users by = elim (index_of users by) [ none ↦ users | some i ↦ remove_at users i ]

unfoldable pub apply_reaction : Reactions → String → String → Bool → Reactions
apply_reaction r emoji by true = put r emoji (add_user (users_at r emoji) by)
apply_reaction r emoji by false =
    let users = drop_user (users_at r emoji) by in
    if is_empty users then remove r emoji else put r emoji users
