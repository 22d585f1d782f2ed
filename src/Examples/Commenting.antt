-- ===== src/Examples/Commenting.antt =====
-- Examples of the comment service (internal/service/comment.go).
use octo_docs_html_fork.Prelude.{
  ℕ, ◌≡◌, refl, ap, ◌∙◌, some, List, [], ◌∷◌, get_elem?, arith, eq_iff,
}
use octo_docs_html_fork.Prelude.Dict.{get}
use octo_docs_html_fork.World.{World}
use octo_docs_html_fork.Types.{Comment}
use octo_docs_html_fork.Storage.State.{Store, empty_store}
use octo_docs_html_fork.Storage.Tables.{get_comments}
use octo_docs_html_fork.Comments.Concurrent.{
  Job, Phase, Commit, Shared, after_load, after_commit, all_ready, Run,
}
use octo_docs_html_fork.Comments.Serial.{serial, Run-serial}
use octo_docs_html_fork.Examples.Data.{start, comment, react, plain}

abbrev stored : Store
stored = record empty_store { comments = ("doc", comment ∷ []) ∷ [] }

-- eve reacts in two documents
abbrev at_doc : Job
at_doc = record { slug = "doc"; op = react }

abbrev at_other : Job
at_other = record { slug = "other"; op = react }

abbrev before : Shared
before = record { store = stored; threads = all_ready (at_doc ∷ at_other ∷ []) }

-- both threads read before either of them writes
abbrev both_read : Shared
both_read = after_load (after_load before 0 at_doc) 1 at_other

-- Others draw two ids before each of the thread's own.
abbrev busy : World
busy = record start { others = λ n. 2 }

abbrev committed : Commit
committed = record { job = at_doc; world = busy }

abbrev after : Shared
after = after_commit plain both_read 0 at_doc (comment ∷ []) busy

none_read :
    (j : ℕ) {job : Job} {cs : List Comment}
    → get_elem? before.threads j ≡ some (Phase.loaded job cs)
    → ⊥
none_read ℕ.zero h = cc
none_read (ℕ.suc ℕ.zero) h = cc
none_read (ℕ.suc (ℕ.suc j)) h = cc

other_slug :
    (j : ℕ) {job : Job} {cs : List Comment}
    → get_elem? (after_load before 0 at_doc).threads j ≡ some (Phase.loaded job cs)
    → job.slug ≡ "other"
    → ⊥
other_slug ℕ.zero {job} h same =
    let is_job : at_doc ≡ job = cc in
    ground (arith, eq_iff "doc" "other", ap (λ x. x.slug) is_job ∙ same)
other_slug (ℕ.suc ℕ.zero) h same = cc
other_slug (ℕ.suc (ℕ.suc j)) h same = cc

after-Run : Run plain stored (committed ∷ []) after
unfolding get_comments get
after-Run =
    Run.commit
      (Run.load
        (Run.load (Run.begin (at_doc ∷ at_other ∷ [])) 0 at_doc refl
          (λ l. let (j, job, cs, at_j, same) = l in none_read j at_j))
        1 at_other refl (λ l. let (j, job, cs, at_j, same) = l in other_slug j at_j same))
      0 at_doc (comment ∷ []) busy refl

Run-serial_example : serial plain stored (committed ∷ []) ≡ after.store
Run-serial_example = Run-serial after-Run
