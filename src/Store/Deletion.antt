-- ===== src/Store/Deletion.antt =====
-- packages/db/src/threads/deletion.ts: a tombstone, then a purge with the cascades of the schema.
use cloud_swe.Base.{
  ℕ, Bool, false, Option, none, some, ◌==◌, ◌&&◌, ◌||◌, find, any, update, delete, pure, fail_if,
  gets, modify, require, ◌>>=◌, ◌>>◌, is_some,
}
use cloud_swe.Store.Schema.{
  Db, Thread, Attachment, AttachmentState, GitOperation, thread_delete, is_settling,
}
use cloud_swe.Store.Shared.{
  Action, thrown, thread_not_found, thread_busy, thread_is, owned_thread, active_in,
}
use cloud_swe.Store.Queue.{insert_outbox}

abbrev pub settling_in : ℕ → GitOperation → Bool
settling_in thread_id op = (op.thread_id == thread_id) && is_settling op.execution

unfoldable pub assert_settled : ℕ → Action Unit
assert_settled thread_id = do
  fail_if (← gets (λ d. any (active_in thread_id) d.runs)) (thrown thread_busy 409)
  fail_if (← gets (λ d. any (settling_in thread_id) d.git_operations)) (thrown thread_busy 409)

unfoldable pub delete_thread : ℕ → ℕ → Action Unit
delete_thread user_id thread_id = do
  owned ← gets (λ d. find (owned_thread thread_id user_id) d.threads)
  require owned (thrown thread_not_found 404)
  assert_settled thread_id
  modify (λ d. record d {
    threads = update (thread_is thread_id) (λ t. record t { deleted_at = some d.clock }) d.threads;
  })
  insert_outbox thread_delete thread_id none

abbrev pub is_tombstone : ℕ → Thread → Bool
is_tombstone thread_id t = (t.id == thread_id) && is_some t.deleted_at

-- A row whose run, message or workspace is one of the thread's.
abbrev pub run_in : ℕ → Db → ℕ → Bool
run_in thread_id d id = any (λ r. (r.id == id) && (r.thread_id == thread_id)) d.runs

abbrev pub message_in : ℕ → Db → ℕ → Bool
message_in thread_id d id = any (λ m. (m.id == id) && (m.thread_id == thread_id)) d.messages

abbrev pub workspace_in : ℕ → Db → ℕ → Bool
workspace_in thread_id d id = any (λ w. (w.id == id) && (w.thread_id == thread_id)) d.workspaces

abbrev pub attached_in : ℕ → Db → Attachment → Bool
attached_in thread_id d a = elim a.message_id [ none ↦ false | some id ↦ message_in thread_id d id ]

abbrev pub refers_to_run : ℕ → Db → Option ℕ → Bool
refers_to_run thread_id d none = false
refers_to_run thread_id d (some id) = run_in thread_id d id

-- The update of the attachments that the thread's messages hold.
unfoldable pub detach_attachments : ℕ → Db → Db
detach_attachments thread_id d = record d {
  attachments =
      update (attached_in thread_id d)
        (λ a. record a {
          message_id = none;
          ordinal = none;
          state = AttachmentState.deleting;
          updated_at = d.clock;
        })
        d.attachments;
}

-- `delete(thread)` with `onDelete: "cascade"` on what refers to it.
unfoldable pub cascade_thread : ℕ → Db → Db
cascade_thread thread_id d = record d {
  threads = delete (thread_is thread_id) d.threads;
  messages =
      update (λ m. refers_to_run thread_id d m.run_id) (λ m. record m { run_id = none })
        (delete (λ m. m.thread_id == thread_id) d.messages);
  deliveries =
      delete (λ x. message_in thread_id d x.message_id || run_in thread_id d x.target_run_id)
        d.deliveries;
  runs = delete (λ r. r.thread_id == thread_id) d.runs;
  owners = delete (λ o. run_in thread_id d o.run_id) d.owners;
  workspaces = delete (λ w. w.thread_id == thread_id) d.workspaces;
  commands =
      delete (λ c. workspace_in thread_id d c.workspace_id || run_in thread_id d c.run_id)
        d.commands;
  events = delete (λ e. e.thread_id == thread_id) d.events;
  outbox = delete (λ o. (o.thread_id == thread_id) || refers_to_run thread_id d o.run_id) d.outbox;
  git_operations =
      delete (λ g. (g.thread_id == thread_id) || run_in thread_id d g.run_id) d.git_operations;
  questions = delete (λ q. (q.thread_id == thread_id) || run_in thread_id d q.run_id) d.questions;
}

unfoldable pub purge_deleted : ℕ → Option Thread → Action Unit
purge_deleted thread_id none = pure tt
purge_deleted thread_id (some _) = do
  assert_settled thread_id
  modify (detach_attachments thread_id)
  modify (cascade_thread thread_id)

unfoldable pub purge_thread : ℕ → Action Unit
purge_thread thread_id = do
  deleted ← gets (λ d. find (is_tombstone thread_id) d.threads)
  purge_deleted thread_id deleted
