-- ===== src/Store/Shared/Context.antt =====
-- The lock helpers of packages/db/src/threads/shared.ts. A transaction runs alone, as its row locks
-- make it; what remains of a lock is the row that it reads.
use cloud_swe.Base.{
  ℕ, Bool, false, Option, none, some, ◌==◌, ◌&&◌, ◌||◌, not, if◌then◌else◌, find, any, pure,
  fail_if, gets, require, ◌>>=◌, ◌>>◌, holds, is_some,
}
use cloud_swe.Store.Schema.{
  Db, Thread, Run, Workspace, CommandOperation, is_active_run, is_unsettled,
}
use cloud_swe.Store.Shared.Errors.{
  Action, thrown, thread_not_found, run_not_found, workspace_not_found, checkpoint_ownership_lost,
}
use cloud_swe.Store.Shared.Events.{thread_is}

abbrev pub run_is : ℕ → Run → Bool
run_is id r = r.id == id

abbrev pub workspace_is : ℕ → Workspace → Bool
workspace_is id w = w.id == id

abbrev pub workspace_of : ℕ → Workspace → Bool
workspace_of thread_id w = w.thread_id == thread_id

-- `ownedThread`
abbrev pub owned_thread : ℕ → ℕ → Thread → Bool
owned_thread thread_id user_id t =
    (t.id == thread_id) && ((t.user_id == user_id) && not (is_some t.deleted_at))

abbrev pub active_in : ℕ → Run → Bool
active_in thread_id r = (r.thread_id == thread_id) && is_active_run r.status

abbrev pub unsettled_in : ℕ → ℕ → CommandOperation → Bool
unsettled_in workspace_id generation c =
    (c.workspace_id == workspace_id) && ((c.generation == generation) && is_unsettled c.state)

unfoldable pub lock_thread_and_workspace : ℕ → Action (Option Workspace)
lock_thread_and_workspace thread_id = do
  owner ← gets (λ d. find (thread_is thread_id) d.threads)
  require owner (thrown thread_not_found 404)
  gets (λ d. find (workspace_of thread_id) d.workspaces)

unfoldable pub lock_workspace_context : ℕ → Action Workspace
lock_workspace_context workspace_id = do
  first ← gets (λ d. find (workspace_is workspace_id) d.workspaces)
  candidate ← require first (thrown workspace_not_found 404)
  owner ← gets (λ d. find (thread_is candidate.thread_id) d.threads)
  require owner (thrown thread_not_found 404)
  pure candidate

-- The run, and its thread's workspace where the caller asks for it.
unfoldable pub lock_run_context : ℕ → Bool → Action (Run × Option Workspace)
lock_run_context run_id lock_workspace = do
  rows ← gets (λ d. find (run_is run_id) d.runs)
  current ← require rows (thrown run_not_found 404)
  owner ← gets (λ d. find (thread_is current.thread_id) d.threads)
  require owner (thrown thread_not_found 404)
  workspace ← gets (λ d. find (workspace_of current.thread_id) d.workspaces)
  pure (current, if lock_workspace then workspace else none)

-- `workspace?.generation ?? 1`
abbrev pub generation_of : Option Workspace → ℕ
generation_of none = 1
generation_of (some w) = w.generation

unfoldable pub owns : Run → ℕ → ℕ → ℕ → Bool
owns current token attempt_id generation =
    not (token == 0)
    && (holds current.execution_owner_token token
        && (holds current.execution_owner_attempt_id attempt_id
            && holds current.execution_owner_generation generation))

unfoldable pub assert_execution_ownership : Run → ℕ → ℕ → ℕ → Action Unit
assert_execution_ownership current token attempt_id generation =
    fail_if (not (owns current token attempt_id generation)) (thrown checkpoint_ownership_lost 409)

pub data BlockReason : Type 0 where
  active_run unsettled_command : BlockReason

-- The run that may keep waiting through a pause: it waits for an approval or for answers.
abbrev pub is_waiting_run : Option ℕ → Run → Bool
is_waiting_run none r = false
is_waiting_run (some id) r =
    (r.id == id) && (is_some r.approval_wait_started_at || is_some r.question_wait_started_at)

abbrev pub blocks_cleanup : Option ℕ → Option Run → Bool
blocks_cleanup waiting none = false
blocks_cleanup waiting (some r) = not (is_waiting_run waiting r)

unfoldable pub cleanup_block_reason : ℕ → ℕ → ℕ → Option ℕ → Db → Option BlockReason
cleanup_block_reason workspace_id thread_id generation waiting d =
    if blocks_cleanup waiting (find (active_in thread_id) d.runs)
    then some active_run
    else (if any (unsettled_in workspace_id generation) d.commands
        then some unsettled_command
        else none)
