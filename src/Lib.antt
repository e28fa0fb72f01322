-- ===== src/Lib.antt =====
-- The durable store of cloud-swe's threads, what a client shows of them, and the public failures.
--
-- A thread is a user's conversation with an agent. Each request starts a run; the run's workflow
-- claims the ownership of its execution, sends commands to the thread's workspace (a sandbox with a
-- filesystem generation) and appends events to the thread's log, which clients follow by number. All
-- of this is state in PostgreSQL, which the functions of packages/db/src/threads change, each in one
-- transaction.
--
-- Store/Schema: the rows of packages/db/src/schema/{threads,git,questions}.ts as records, `Db` as the
--   tables with the clock and the source of ids. A transaction is `Action`, a function from a
--   database to a value and a database, or to an error with its code and status; what it throws
--   leaves the database as it was. Transactions run one after another, as the row locks of the
--   source make those that meet on a thread; a lock is then the row that it reads.
-- Store/Shared: packages/db/src/threads/shared.ts (appendEvent, the locks, the ownership check, the
--   guard of cleanups), with appendGitEvent of git-store.ts and setBrowserOwner of threads/browser.ts.
-- Store/Approvals: the invalidations of runs.ts and workspaces.ts, and cancelPendingQuestions of
--   question-store.ts.
-- Store/Queue, Store/Submission: startNextQueuedMessage, startQueuedMessage and pendingSteers of
--   threads/submission.ts.
-- Store/Submit: submit (Request: the request accepted before under the same client id; Checks: what
--   is checked of a new one; Accept: what it writes) and updatePendingMessage (Pending) of
--   threads/submission.ts. The model catalog of the AI library, which packages/db/src/
--   model-selection.ts reads, is the parameter `Catalog`; a stored selection is one that it accepted.
-- Store/Runs: threads/runs.ts: Start (beginAgentExecution, startRun, requestCancel), Claims
--   (claimExecutionOwnership, appendRunEvent), Finish (completeRun, failRun, cancelRun).
-- Store/Commands: threads/commands.ts: Begin, Admit and Settle.
-- Store/Workspaces: threads/workspaces.ts: Lifecycle (updateWorkspace and the transitions), Reset,
--   Cleanup (the provider's call is a parameter), Review (wakes, previews, diff counts).
-- Store/Deletion, Store/Delivery: threads/deletion.ts with the cascades of the schema, and
--   threads/outbox.ts.
-- Store/GitStore: the decisions on Git proposals, their expiry, claims and results, of
--   packages/db/src/git-store.ts.
-- Store/Queries: listEvents of threads/queries.ts.
-- Store/History: the calls of the store one after another, and the passing of time.
-- Store/Steps: the interface of the rows that the store writes and deletes (`Writes`), and that a
--   relation between databases which each of them keeps is kept by every operation and history.
-- Projection: apps/web/src/lib/thread-projection.ts, what a client shows of a thread. Data: the types
--   of chat-types.ts; Events: an event with what the schemas of packages/db/src/pi-events.ts and
--   tool-events.ts make of its payload, and the check of packages/api/src/events.ts; Texts, Parts,
--   Apply and Cases: applyThreadEvent, which returns a projection or throws; Snapshot: the snapshots
--   of the API beside a projection, and what is fetched again.
-- PublicFailure: packages/db/src/public-failure.ts, with its table of messages in full.
-- Base: tables as lists with their queries and writes, transactions, and the rules that carry a
--   relation or a condition through one.
--
-- The proofs: Store/Log (the event log), Store/Idempotency (requests that are sent again),
-- Store/Lifecycle (a run from start to end), Store/Exclusion (the dispatch of commands),
-- Store/Fencing (ownership), Store/Generations (resets), Store/Transitions, Store/CleanupOutcomes,
-- Store/ThreadRows (a thread's workspace in the table), Store/Wakes, Store/MessageOrder,
-- Store/Restart, Store/Proposals, Store/WriteStates and Store/Decisions (Git),
-- Store/Retries (outbox), Store/Erasure (deletion), PublicFailure/Allowlist; Projection/Replay (a
-- client and the log that it follows), Projection/Sound and Projection/Kept (what every projection
-- has), Projection/LiveOutput, Projection/Endings, Projection/Current and Projection/Follow (a
-- client that reads pages of the store's log). Store/Tests, Projection/Tests and
-- PublicFailure/Tests run the code on small data.
--
-- The text of a message is the list of its UTF-16 code units. A uuid, any other text, which the
-- store only passes on, and an instant are numbers; an id is one that was not given before, and 0
-- stands for such a text that is empty. Event types and dedupe keys that the source builds from
-- templates are constructors with the arguments of the template, so that keys of different
-- templates are taken to be different texts. Every recursion is on a list or a number of rows.
--
-- Not modelled: the uploads of attachments, checkpoints, titles, the other queries, the publication
-- and resumption of Git proposals, the answers to questions, the structured results of tools, the
-- cost in dollars of a call, and the apps around the store and the projection. The text of error
-- messages is left out.
pub mod Base
pub mod Projection
pub mod PublicFailure
pub mod Store
