-- ===== src/Store/GitStore.antt =====
-- packages/db/src/git-store.ts: a user decides a run's proposal to write to a repository, and the
-- write is dispatched once.
use cloud_swe.Base.{
  ℕ, Bool, true, false, none, some, ◌==◌, ◌&&◌, ◌||◌, not, leb, if◌then◌else◌, find, select, any,
  update, pure, fail_if, gets, modify, require, for_each, ◌>>=◌, ◌>>◌, is_some, holds,
}
use cloud_swe.Store.Schema.{
  Run, Workspace, GitOperation, Approval, Execution, GitResult, not_written, git_approval_decided,
  git_operation_updated, of_approval, of_execution, git_decision, is_active_run, is_open_approval,
  is_not_started, is_settling,
}
use cloud_swe.Store.Shared.{
  Action, thrown, run_not_found, checkpoint_ownership_lost, git_operation_not_found,
  git_proposal_stale, git_decision_conflict, git_operation_unknown, parse_failure, append_git_event,
  unique_index, run_is, thread_is, workspace_of,
}
use cloud_swe.Store.Queue.{insert_outbox}

abbrev pub operation_is : ℕ → GitOperation → Bool
operation_is id op = op.id == id

-- `lockRun`: a run without a workspace is not found either.
unfoldable pub lock_git_run : ℕ → Action (Run × Workspace)
lock_git_run run_id = do
  rows ← gets (λ d. find (run_is run_id) d.runs)
  current ← require rows (thrown run_not_found 404)
  owner ← gets (λ d. find (thread_is current.thread_id) d.threads)
  sandboxes ← gets (λ d. find (workspace_of current.thread_id) d.workspaces)
  require owner (thrown run_not_found 404)
  sandbox ← require sandboxes (thrown run_not_found 404)
  pure (current, sandbox)

abbrev pub is_approved : Approval → Bool
is_approved Approval.approved = true
is_approved _ = false

abbrev pub is_pending_approval : Approval → Bool
is_pending_approval Approval.pending = true
is_pending_approval _ = false

abbrev pub decided : Approval → ℕ → GitOperation → GitOperation
decided approval now op = record op {
  approval = approval;
  decided_at = some now;
  result = if is_approved approval then none else some (not_written approval);
}

unfoldable pub settle_approval : Run → GitOperation → Approval → Action Unit
settle_approval current op approval = do
  modify (λ d. record d {
    git_operations = update (operation_is op.id) (decided approval d.clock) d.git_operations;
  })
  append_git_event current.thread_id git_approval_decided op.id
      (of_approval current.id op.id approval)
  insert_outbox git_decision current.thread_id (some current.id)

pub data Decision : Type 0 where
  approve reject : Decision

abbrev pub approval_of : Decision → Approval
approval_of approve = Approval.approved
approval_of reject = Approval.rejected

-- `op.approval === approval`
abbrev pub is_decided_as : Decision → Approval → Bool
is_decided_as approve Approval.approved = true
is_decided_as reject Approval.rejected = true
is_decided_as _ _ = false

-- The proposal has expired, or its run or its filesystem is gone.
abbrev pub is_stale : Run → Workspace → ℕ → GitOperation → Bool
is_stale current sandbox now op =
    leb op.expires_at now
    || (is_some current.cancel_requested_at
        || (not (is_active_run current.status) || not (sandbox.generation == op.generation)))

unfoldable pub decide_locked : Decision → Run → Workspace → GitOperation → Action Unit
decide_locked decision current sandbox op =
    if is_decided_as decision op.approval then pure tt else do
      fail_if (not (is_pending_approval op.approval)) (thrown git_decision_conflict 409)
      now ← gets (λ d. d.clock)
      fail_if (is_stale current sandbox now op) (thrown git_proposal_stale 409)
      settle_approval current op (approval_of decision)

-- The row as it is after the transaction.
unfoldable pub read_operation : ℕ → Action GitOperation
read_operation id = do
  rows ← gets (λ d. find (operation_is id) d.git_operations)
  require rows (thrown git_operation_not_found 404)

unfoldable pub git_decide : ℕ → ℕ → ℕ → Decision → ℕ → Action GitOperation
git_decide user_id thread_id id decision digest = do
  op ← read_operation id
  fail_if (not (op.user_id == user_id) || not (op.thread_id == thread_id))
      (thrown git_operation_not_found 404)
  (current, sandbox) ← lock_git_run op.run_id
  fail_if (not (op.digest == digest)) (thrown git_proposal_stale 409)
  decide_locked decision current sandbox op
  read_operation id

-- `expire`, for one open proposal: invalidated, expired, or left.
unfoldable pub expire_one : Run → Workspace → ℕ → GitOperation → Action Unit
expire_one current sandbox now op =
    if not (is_not_started op.execution)
    then pure tt
    else (if is_some current.cancel_requested_at
          || (not (is_active_run current.status) || not (op.generation == sandbox.generation))
        then settle_approval current op Approval.invalidated
        else (if leb op.expires_at now
            then settle_approval current op Approval.expired
            else pure tt))

abbrev pub open_in : ℕ → GitOperation → Bool
open_in run_id op = (op.run_id == run_id) && is_open_approval op.approval

unfoldable pub git_expire : ℕ → Action Unit
git_expire run_id = do
  (current, sandbox) ← lock_git_run run_id
  rows ← gets (λ d. select (open_in run_id) d.git_operations)
  now ← gets (λ d. d.clock)
  for_each rows λ op. expire_one current sandbox now op

abbrev pub set_execution : Execution → GitOperation → GitOperation
set_execution execution op = record op { execution = execution }

abbrev pub unsettled_on : ℕ → GitOperation → Bool
unsettled_on repository_id op = (op.repository_id == repository_id) && is_settling op.execution

-- The first claim of an approved proposal dispatches it.
unfoldable pub git_dispatch : Run → Workspace → GitOperation → Action (GitOperation × Bool)
git_dispatch current sandbox op = do
  now ← gets (λ d. d.clock)
  fail_if (is_stale current sandbox now op || not (is_approved op.approval))
      (thrown git_proposal_stale 409)
  fail_if (← gets (λ d. any (unsettled_on op.repository_id) d.git_operations))
      (thrown git_operation_unknown 409)
  modify (λ d. record d {
    git_operations =
        update (operation_is op.id) (set_execution Execution.executing) d.git_operations;
  })
  append_git_event current.thread_id git_operation_updated op.id
      (of_execution current.id op.id Execution.executing none)
  pure (op, true)

unfoldable pub git_claim : ℕ → ℕ → ℕ → ℕ → Action (GitOperation × Bool)
git_claim id run_id token generation = do
  (current, sandbox) ← lock_git_run run_id
  rows ← gets (λ d. find (operation_is id) d.git_operations)
  op ← require rows (thrown parse_failure 500)
  fail_if
      (not (op.run_id == current.id)
        || (not (holds current.execution_owner_token token)
            || not (sandbox.generation == generation)))
      (thrown checkpoint_ownership_lost 409)
  if not (is_not_started op.execution) then pure (op, false) else git_dispatch current sandbox op

-- What the dispatch of a write came to.
pub data WriteOutcome : Type 0 where
  succeeded failed unknown : WriteOutcome

abbrev pub execution_of : WriteOutcome → Execution
execution_of succeeded = Execution.succeeded
execution_of failed = Execution.failed
execution_of unknown = Execution.unknown

abbrev pub is_finished : Execution → Bool
is_finished Execution.succeeded = true
is_finished Execution.failed = true
is_finished _ = false

abbrev pub with_outcome : WriteOutcome → ℕ → GitOperation → GitOperation
with_outcome outcome result op = record op {
  execution = execution_of outcome;
  result = some (GitResult.reported result);
}

abbrev pub is_unknown : WriteOutcome → Bool
is_unknown unknown = true
is_unknown _ = false

-- `git_operation_unsettled_repo_idx`, for a row that is to be unsettled.
abbrev pub is_held : GitOperation → GitOperation → Bool
is_held op other = not (other.id == op.id) && unsettled_on op.repository_id other

-- `expected` is `expectedExecution === "not_started"`.
unfoldable pub finish_locked : Run → GitOperation → WriteOutcome → ℕ → Bool → Action Unit
finish_locked current op outcome result expected =
    if is_finished op.execution || (expected && not (is_not_started op.execution))
    then pure tt
    else do
      held ← gets (λ d. any (is_held op) d.git_operations)
      fail_if (is_unknown outcome && held) unique_index
      modify (λ d. record d {
        git_operations = update (operation_is op.id) (with_outcome outcome result) d.git_operations;
      })
      append_git_event current.thread_id git_operation_updated op.id
          (of_execution current.id op.id (execution_of outcome) (some result))

unfoldable pub git_finish : ℕ → WriteOutcome → ℕ → Bool → Action GitOperation
git_finish id outcome result expected = do
  op ← read_operation id
  (current, _) ← lock_git_run op.run_id
  finish_locked current op outcome result expected
  read_operation id
