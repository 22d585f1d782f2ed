-- ===== src/Comments/Serial.antt =====
-- Concurrent mutations are serial (internal/service/comment.go).
use octo_docs_html_fork.Prelude.{
  ℕ, String, ◌≡◌, ◌≢◌, refl, sym, ap, ◌∙◌, Option, none, some, List, [], ◌∷◌, test_of_ne, get_elem?,
  get_elem?-set, eqb, inl, inr, if_either,
}
use octo_docs_html_fork.Prelude.Dict.{get, get-put, get-remove}
use octo_docs_html_fork.World.{World}
use octo_docs_html_fork.Types.{Comment}
use octo_docs_html_fork.Reconcile.Text.{CaseTable}
use octo_docs_html_fork.Ops.Handlers.{Outcome}
use octo_docs_html_fork.Ops.Apply.{apply_comment_op}
use octo_docs_html_fork.Storage.State.{Store}
use octo_docs_html_fork.Storage.Tables.{get_comments, put_comments, delete_comments}
use octo_docs_html_fork.Comments.Service.{MutationResult, persist, apply_op}
use octo_docs_html_fork.Comments.Concurrent.{
  Job, Phase, Commit, Shared, Locked, after_load, after_commit, all_ready, Run,
}

-- The calls one after the other, the latest first in the list, each in its own surroundings.
abbrev pub serial : CaseTable → Store → List Commit → Store
serial u s [] = s
serial u s (c ∷ log) = (apply_op u (serial u s log) c.job.slug c.job.op c.world).0.1

-- A write of one slug changes the comments of no other.
pub get_comments-persist :
    (s : Store) (slug other : String) (r : Outcome)
    → slug ≢ other
    → get_comments (persist s slug r).1 other ≡ get_comments s other
unfolding persist get_comments put_comments delete_comments
get_comments-persist s slug other (list, res) differ =
    let Same : Store → Type 0 = λ t. get_comments t other ≡ get_comments s other in
    let test = test_of_ne slug other differ in
    if_either Same (eqb res.status 200)
      (if_either Same res.wipe (read (get-remove s.comments slug other ∙ rw test refl))
        (read (get-put s.comments slug other list ∙ rw test refl)))
      refl
  where
    read :
        {o : Option (List Comment)}
        → o ≡ get s.comments other
        → elim o as (λ _. List Comment) [ none ↦ [] | some cs ↦ cs ]
          ≡ elim (get s.comments other) as (λ _. List Comment) [ none ↦ [] | some cs ↦ cs ]
    read h = ap (λ o. elim o as (λ _. List Comment) [ none ↦ [] | some cs ↦ cs ]) h

-- What each thread has read is what is stored, and one thread at most has read a slug's comments.
record IsFresh (t : Shared) : Type 0 where
  current :
      (i : ℕ) (job : Job) (cs : List Comment)
      → get_elem? t.threads i ≡ some (Phase.loaded job cs)
      → cs ≡ get_comments t.store job.slug
  alone :
      (i j : ℕ) (job job' : Job) (cs cs' : List Comment)
      → get_elem? t.threads i ≡ some (Phase.loaded job cs)
      → get_elem? t.threads j ≡ some (Phase.loaded job' cs')
      → job.slug ≡ job'.slug
      → i ≡ j

no_load :
    (jobs : List Job) (i : ℕ) (job : Job) (cs : List Comment)
    → get_elem? (all_ready jobs) i ≡ some (Phase.loaded job cs)
    → ⊥
no_load [] i job cs h = cc
no_load (x ∷ jobs) ℕ.zero job cs h = cc
no_load (x ∷ jobs) (ℕ.suc i) job cs h = no_load jobs i job cs h

load-IsFresh :
    (t : Shared) (i : ℕ) (job : Job)
    → IsFresh t
    → (Locked t job.slug → ⊥)
    → IsFresh (after_load t i job)
load-IsFresh t i job fresh unlocked = record {
  current = λ j job' cs h. elim (get_elem?-set t.threads i j _ _ h) [
    | inl here ↦ loaded_now job' cs here.1
    | inr there ↦ fresh.current j job' cs there.1
  ];
  alone = λ j k job' job'' cs cs' at_j at_k same. elim (get_elem?-set t.threads i j _ _ at_j) [
    | inl here ↦ elim (get_elem?-set t.threads i k _ _ at_k) [
      | inl here' ↦ sym here.0 ∙ here'.0
      | inr there ↦
          absurd (unlocked (k, job'', cs', there.1, sym same ∙ sym (job_is job' cs here.1)))
    ]
    | inr there ↦ elim (get_elem?-set t.threads i k _ _ at_k) [
      | inl here ↦ absurd (unlocked (j, job', cs, there.1, same ∙ sym (job_is job'' cs' here.1)))
      | inr there' ↦ fresh.alone j k job' job'' cs cs' there.1 there'.1 same
    ]
  ];
}
  where
    job_is :
        (job' : Job) (cs : List Comment)
        → Phase.loaded job (get_comments t.store job.slug) ≡ Phase.loaded job' cs
        → job.slug ≡ job'.slug
    job_is job' cs h = let same : job ≡ job' = cc in ap (λ x. x.slug) same

    loaded_now :
        (job' : Job) (cs : List Comment)
        → Phase.loaded job (get_comments t.store job.slug) ≡ Phase.loaded job' cs
        → cs ≡ get_comments t.store job'.slug
    loaded_now job' cs h =
        let same : cs ≡ get_comments t.store job.slug = cc in
        same ∙ ap (get_comments t.store) (job_is job' cs h)

commit-IsFresh :
    (u : CaseTable) (t : Shared) (i : ℕ) (job : Job) (cs : List Comment) (w : World)
    → IsFresh t
    → get_elem? t.threads i ≡ some (Phase.loaded job cs)
    → IsFresh (after_commit u t i job cs w)
commit-IsFresh u t i job cs w fresh at_i = record {
  current = λ j job' cs' h. elim (get_elem?-set t.threads i j _ _ h) [
    | inl here ↦ absurd (done_not_loaded job' cs' here.1)
    | inr there ↦
        fresh.current j job' cs' there.1
        ∙ sym (
            get_comments-persist t.store job.slug job'.slug (apply_comment_op u cs job.op w).0
              (λ same. there.0 (fresh.alone i j job job' cs cs' at_i there.1 same)))
  ];
  alone = λ j k job' job'' cs' cs'' at_j at_k same. elim (get_elem?-set t.threads i j _ _ at_j) [
    | inl here ↦ absurd (done_not_loaded job' cs' here.1)
    | inr there ↦ elim (get_elem?-set t.threads i k _ _ at_k) [
      | inl here ↦ absurd (done_not_loaded job'' cs'' here.1)
      | inr there' ↦ fresh.alone j k job' job'' cs' cs'' there.1 there'.1 same
    ]
  ];
}
  where
    done_not_loaded :
        {r : MutationResult} (job' : Job) (cs' : List Comment)
        → Phase.finished r ≡ Phase.loaded job' cs'
        → ⊥
    done_not_loaded job' cs' h = cc

Run-IsFresh :
    {u : CaseTable} {s : Store} {log : List Commit} {t : Shared} → Run u s log t → IsFresh t
Run-IsFresh (Run.begin jobs) = record {
  current = λ i job cs h. absurd (no_load jobs i job cs h);
  alone = λ i j job job' cs cs' at_i at_j same. absurd (no_load jobs i job cs at_i);
}
Run-IsFresh (Run.load {log} {t} before i job at_i unlocked) =
    load-IsFresh t i job (Run-IsFresh before) unlocked
Run-IsFresh {u} (Run.commit {log} {t} before i job cs w at_i) =
    commit-IsFresh u t i job cs w (Run-IsFresh before) at_i

-- However threads that mutate comments are scheduled, and whatever event ids and times each of
-- them draws in between the draws of others, the store is the one that the committed operations
-- leave when they run one after the other in the order in which they were committed, each with
-- the ids and times that it drew: no update is lost.
pub Run-serial :
    {u : CaseTable} {s : Store} {log : List Commit} {t : Shared}
    → Run u s log t
    → serial u s log ≡ t.store
unfolding apply_op
Run-serial (Run.begin jobs) = refl
Run-serial (Run.load before i job at_i unlocked) = Run-serial before
Run-serial {u} {s} (Run.commit {log} {t} before i job cs w at_i) =
    let current = (Run-IsFresh before).current i job cs at_i in
    ap (λ v. (apply_op u v job.slug job.op w).0.1) (Run-serial before)
    ∙ ap (λ read. (persist t.store job.slug (apply_comment_op u read job.op w).0).1) (sym current)
