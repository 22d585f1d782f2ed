-- ===== src/Fold/Order.antt =====
-- orderedEvents of internal/core/fold.go. Its call of sort.SliceStable is `stable_sort`: the library
-- promises the order of the keys, and that equal keys keep their order, which determines the result;
-- an insertion sort stands for it.
use octo_docs_html_fork.Prelude.{List, [], ◌∷◌, if◌then◌else◌}
use octo_docs_html_fork.Prelude.Int.{ltb_ℤ}
use octo_docs_html_fork.Types.{CommentEvent}
use octo_docs_html_fork.Events.Log.{dedup_events}

unfoldable pub insert_event : CommentEvent → List CommentEvent → List CommentEvent
insert_event e [] = e ∷ []
insert_event e (x ∷ xs) =
    let later = x ∷ insert_event e xs in
    if ltb_ℤ x.at_version e.at_version then later else e ∷ x ∷ xs

unfoldable pub stable_sort : List CommentEvent → List CommentEvent
unfolding insert_event
stable_sort [] = []
stable_sort (e ∷ es) = insert_event e (stable_sort es)

unfoldable pub ordered_events : List CommentEvent → List CommentEvent
unfolding stable_sort dedup_events
ordered_events es = stable_sort (dedup_events es)
