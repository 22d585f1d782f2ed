-- ===== src/Lib.antt =====
-- The core of octo-docs-html: an event log per comment, the snapshots folded from it, the operations
-- that write it, and the reconciliation of anchors when a document is published; the store in memory
-- that keeps it; the lock that serialises its writers, and the services of comments and of documents
-- that work under it; the grants, with the mirror in the database and the grants left in the metadata;
-- the decision of what a request may do with a document; the roles and share codes; the collection of
-- unused assets; and the escaping of a page's data.
--
-- How the parts interact. A document's comments are a list; each comment carries a log of events.
-- An operation (internal/core/ops.go) migrates the list, reads the time and appends events
-- through AppendEvent (internal/core/events.go), which gives each event an id. A reader folds a
-- log (internal/core/fold.go) as of a version of the document. A publish merges the comments kept
-- in the browser, reconciles every anchor with the artifacts of the new version
-- (internal/core/reconcile.go) and compacts the logs. The comment service reads a list from the store,
-- applies the operation and writes the list, all under the lock of the slug. A grant is a row of the
-- mirror where the document is registered there, and an entry of its metadata otherwise; the decision
-- of a request reads both, and a write of the one sweeps the other.
--
-- Files and the code they model:
--   Types            internal/core/types.go: structs as records, strings that name a variant as data
--                    types with a constructor for any other string
--   World            eidCounter of internal/core/events.go, and the clock
--   Events           internal/core/events.go: Eid (EventEID), Log (BackfillEIDs, AppendEvent,
--                    DedupEvents), Legacy (legacyToEvents and its helpers), Migrate
--                    (EnsureEventLog, EnsureMigrated, CompactComments); Dedup, Stamp, Migrated and
--                    Compact hold the proofs
--   Fold             internal/core/fold.go: Reaction (applyReaction), State (foldState,
--                    emptySnapshot), Apply (the event handlers), Order (orderedEvents), Snapshot
--                    (replay, finalize, SnapshotAt, SnapshotList, HistoryList); the other files
--                    hold the proofs
--   Reconcile        internal/core/reconcile.go: Text (the selector expression, strings.ToLower,
--                    strings.EqualFold), Anchors (knownAid, findRebindAid, nextAnchor, lostAnchor
--                    and the like), Comments (reconcileComment, ReconcileAnchors); Found,
--                    Branches, Resolves and Total hold the proofs
--   Ops              internal/core/ops.go: Types (OpResult, CommentOp), Hosts (FindHost, findByID,
--                    reactionsOf), Handlers (opCreate to opPublishMerge), Apply (ApplyCommentOp);
--                    Extend, AppendOnly, Found, Failures, React and Merge hold the proofs
--   Storage          internal/storage: Value, Meta (internal/storage/store.go), Float and Encoding
--                    (internal/storage/docmeta.go), State, Tables, Blobs and Decimal
--                    (internal/storage/memory/memory.go); Stored, Rows, Digits, Purge and Versions
--                    hold the proofs
--   Comments         internal/service/comment.go: Service (Create, Reply, React and the like, applyOp),
--                    Concurrent (threads that run mutate); Serial holds the proofs
--   Docs             internal/service/doc.go: Input (PublishInput and the tests on its texts), Mount
--                    (restoreMountContext), Metadata (upsertMeta), Publish (publishLocked), Authorized
--                    (PublishAuthorized), Drafts and Saving (SaveDraftWithProvenance), Promote
--                    (PromoteAuthorized), Removal (RemoveAuthorized), Reading (the reads); Inherited,
--                    Owned, Provenance, Kept, Fresh, Added, Succeeds, Published, Promoted, Promoting
--                    and Removed hold the proofs
--   Grants           internal/service: Table (doc_member_mirror.go), Service and Listing (grants.go),
--                    Migration (ReconcileMetaGrantsToDocMember), Protected (the calls of the API as
--                    a sequence); the other files hold the proofs
--   Access           internal/transport/httpx/capability.go: Lookup (internal/service/auth.go,
--                    RoleBySlugUID, IsOwner and the credentials of a request), Decision (bestCred and
--                    its tiers), Gates; the other files hold the proofs
--   Assets           internal/service/gc.go: Scan (scanInto), Gc (GCAssets, gcSlug,
--                    allReferencedSHAs); Windows, Found, Kept, Exact and Live hold the proofs
--   Roles            internal/service: Capability (the role encodings of capability.go, grants.go
--                    and doc_member_mirror.go), Share (the share codes of capability.go); Agree and
--                    Codes hold the proofs
--   Slugs            internal/platform/sluglock/sluglock.go: Lock (acquire, release and With as steps
--                    of threads); Threads, Invariant, Holding, Holder, Acquiring, Releasing, Exclusion
--                    and Draining hold the proofs
--   Render           internal/core/render.go: Script (neutralizeScriptClose, EscapeHTML); Closed and
--                    Markup hold the proofs
--   Prelude          shared names, tests, lists, dictionaries and integers
--   Examples         tests and concrete instances
--
-- State is passed explicitly: a handler takes the list and returns it, where the Go code changes a
-- comment in place through a pointer into the slice. The counter of event ids and the clock are the
-- record World, which a small state monad threads; the clock is a function from the number of
-- readings, of which nothing is assumed, and so is the number of ids that other goroutines draw
-- between two draws of one operation. The counter wraps around at 2 ^ 64. A version is an integer,
-- compared as such, and the one place that counts versions up (next_int) wraps around as a 64-bit
-- int does. The expiry of a session wraps around as an int64 does, and a duration between two times
-- stops at its ends. A number that is decoded into the open part of the metadata becomes a float64:
-- a whole one is kept as an integer, rounded to 53 bits. The stable sort of the library
-- (sort.SliceStable) is an insertion sort. A Go map is an association list with one entry per key;
-- where the code ranges over a map it sorts the keys, and so does the model. A method of the
-- in-memory store holds the store's mutex throughout, so it is one step; a time is an argument.
--
-- The slug lock is a step relation over threads of which each stands at a program counter; a step
-- of one thread is atomic where the code holds the map's mutex, and locks an entry's mutex only
-- while no thread holds it. `Reach n` are the states that `n` threads can reach in any order of
-- steps.
--
-- Fuel: Events.Eid.format_uint prints a uint64, for which 64 steps are enough in any base, and
-- Storage.Decimal.itoa fills a buffer of 20 bytes, which holds any int. Storage.Float.round_from doubles
-- its unit up to 11 times, which is enough below 2 ^ 64. Every other loop is a structural recursion.
--
-- The comment service's threads are a step relation too (Comments.Concurrent): a thread reads once
-- no other stands between its read and its write on the same slug, which is what the slug lock's
-- exclusion gives. Operations on other slugs overlap with it: the ids and times that a thread draws
-- while it applies its operation are any, with any number drawn by others between two of them, so
-- that its application and its write can be one step. The database of the grants is its two tables
-- and the set of calls that it answers with an error, which is arbitrary; a failed call is rolled
-- back and changes nothing.
--
-- Not modelled: the decoding of JSON (a raw legacy reply is the outcome of its decoding) and the
-- tables of Unicode case folding, which are the parameter CaseTable. A read through a nil snapshot
-- or an index out of range is the result Body.crash, apart from every answer of the code. In
-- internal/core/reconcile.go, where the reads are x[0], it is the outer `none` of an Option, which
-- a publish merge turns into Body.crash. Artifact stamping (internal/core/stamp.go), the rest of
-- page rendering, the SQL and S3 stores, the registration of documents in docs-backend, the
-- replacing of an element, sessions and tokens of the authentication service, and of the HTTP
-- transport all but the decision of a capability are not modelled. A publish takes what StampAids
-- makes of a page as an argument. Parameters stand for sha256 (the hash of a share code),
-- strings.ToLower, the answers of the service of document bindings, and time.Parse.
pub mod Prelude
pub mod Types
pub mod World
pub mod Events
pub mod Fold
pub mod Reconcile
pub mod Ops
pub mod Storage
pub mod Assets
pub mod Comments
pub mod Docs
pub mod Roles
pub mod Grants
pub mod Access
pub mod Slugs
pub mod Render
mod Examples
