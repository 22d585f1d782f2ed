-- ===== src/Comments/Concurrent.antt =====
-- Threads that run mutate of internal/service/comment.go. A thread reads the comments of its slug once
-- it has the slug's lock, and holds the lock until it has written; so no thread reads while another one
-- is between its read and its write on the same slug. What the lock promises is proved of its own code.
-- Threads on other slugs go on meanwhile: they may write between the two, and draw event ids and read
-- the clock while an operation is applied. So the surroundings in which a thread applies its operation
-- are any, with any number of ids drawn by others between two of its own.
use octo_docs_html_fork.Prelude.{ℕ, String, ◌≡◌, some, List, [], ◌∷◌, get_elem?, set}
use octo_docs_html_fork.World.{World}
use octo_docs_html_fork.Types.{Comment}
use octo_docs_html_fork.Reconcile.Text.{CaseTable}
use octo_docs_html_fork.Ops.Types.{CommentOp}
use octo_docs_html_fork.Ops.Apply.{apply_comment_op}
use octo_docs_html_fork.Storage.State.{Store}
use octo_docs_html_fork.Storage.Tables.{get_comments}
use octo_docs_html_fork.Comments.Service.{MutationResult, persist}

-- A call of mutate.
pub record Job : Type 0 where
  pub slug : String
  pub op : CommentOp

-- Where a thread stands: before its read, with what it has read, with its result.
pub data Phase : Type 0 where
  ready : Job → Phase
  loaded : Job → List Comment → Phase
  finished : MutationResult → Phase

-- A call that has been committed, with the surroundings in which it was applied.
pub record Commit : Type 0 where
  pub job : Job
  pub world : World

pub record Shared : Type 0 where
  pub store : Store
  pub threads : List Phase

-- Another thread holds the lock of the slug.
abbrev pub Locked : Shared → String → Type 0
Locked t slug =
    (j : ℕ) × (job : Job) × (cs : List Comment) × (get_elem? t.threads j
      ≡ some (Phase.loaded job cs))
    × (job.slug ≡ slug)

abbrev pub after_load : Shared → ℕ → Job → Shared
after_load t i job = record t {
  threads = set t.threads i (Phase.loaded job (get_comments t.store job.slug));
}

abbrev pub after_commit : CaseTable → Shared → ℕ → Job → List Comment → World → Shared
after_commit u t i job cs w =
    let written = persist t.store job.slug (apply_comment_op u cs job.op w).0 in
    record { store = written.1; threads = set t.threads i (Phase.finished written.0) }

abbrev pub all_ready : List Job → List Phase
all_ready [] = []
all_ready (job ∷ jobs) = Phase.ready job ∷ all_ready jobs

-- The runs of the threads, with what they have committed, the latest first.
pub data Run (u : CaseTable) (s : Store) : List Commit → Shared → Type 0 where
  begin : (jobs : List Job) → Run u s [] (record { store = s; threads = all_ready jobs })
  load :
      {log : List Commit} {t : Shared}
      → Run u s log t
      → (i : ℕ) (job : Job) → get_elem? t.threads i ≡ some (Phase.ready job)
      → (Locked t job.slug → ⊥)
      → Run u s log (after_load t i job)
  commit :
      {log : List Commit} {t : Shared}
      → Run u s log t
      → (i : ℕ) (job : Job) (cs : List Comment) (w : World)
      → get_elem? t.threads i ≡ some (Phase.loaded job cs)
      → Run u s (record { job = job; world = w } ∷ log) (after_commit u t i job cs w)
