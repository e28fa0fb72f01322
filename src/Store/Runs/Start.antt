-- ===== src/Store/Runs/Start.antt =====
-- packages/db/src/threads/runs.ts: a run starts, and a user asks for its end.
use cloud_swe.Base.{
  ℕ, true, false, Option, none, some, ◌==◌, ◌&&◌, ◌||◌, if◌then◌else◌, find, update, pure, fail_if,
  gets, modify, require, ◌>>=◌, ◌>>◌, is_some, or_else,
}
use cloud_swe.Store.Schema.{
  Db, Run, RunStatus, RunMoment, of_run, run_event, run_key, run_cancel, is_terminal_run,
}
use cloud_swe.Store.Shared.{
  Action, thrown, run_terminal, thread_not_found, run_not_found, append_event, lock_run_context,
  assert_execution_ownership, generation_of, run_is, owned_thread,
}
use cloud_swe.Store.Approvals.{invalidate_git_approvals, cancel_pending_questions}
use cloud_swe.Store.Queue.{insert_outbox}

abbrev pub set_run : ℕ → (ℕ → Run → Run) → Db → Db
set_run run_id f d = record d { runs = update (run_is run_id) (f d.clock) d.runs }

-- `current.executionOwnerAttemptId ?? ""`
abbrev pub attempt_of : Run → ℕ
attempt_of r = or_else r.execution_owner_attempt_id 0

-- `if (current.agentStartedAt) return current.agentStartedAt`
unfoldable pub first_start : ℕ → Option ℕ → Action ℕ
first_start run_id (some started) = pure started
first_start run_id none = do
  now ← gets (λ d. d.clock)
  modify (set_run run_id (λ now r. record r { agent_started_at = some now }))
  pure now

unfoldable pub begin_agent_execution : ℕ → ℕ → Action ℕ
begin_agent_execution run_id token = do
  (current, workspace) ← lock_run_context run_id true
  assert_execution_ownership current token (attempt_of current) (generation_of workspace)
  fail_if (is_terminal_run current.status) (thrown run_terminal 409)
  fail_if (is_some current.cancel_requested_at) (thrown run_terminal 409)
  first_start run_id current.agent_started_at

-- `if (current.status !== "queued") return`
unfoldable pub start_from : RunStatus → ℕ → ℕ → Action Unit
start_from RunStatus.queued run_id thread_id = do
  modify (
      set_run run_id
        (λ now r. record r { status = RunStatus.running; started_at = some now; updated_at = now }))
  append_event thread_id (run_event RunMoment.started) (of_run run_id)
      (run_key run_id RunMoment.started)
  pure tt
start_from _ run_id thread_id = pure tt

unfoldable pub start_run : ℕ → Action Unit
start_run run_id = do
  (current, _) ← lock_run_context run_id false
  start_from current.status run_id current.thread_id

unfoldable pub request_cancel : ℕ → ℕ → ℕ → Action Unit
request_cancel user_id thread_id run_id = do
  owner ← gets (λ d. find (owned_thread thread_id user_id) d.threads)
  require owner (thrown thread_not_found 404)
  rows ← gets (λ d.
      find (λ r. (r.id == run_id) && ((r.thread_id == thread_id) && (r.user_id == user_id))) d.runs)
  current ← require rows (thrown run_not_found 404)
  if is_terminal_run current.status || is_some current.cancel_requested_at then pure tt else do
    modify (set_run run_id (λ now r. record r { cancel_requested_at = some now; updated_at = now }))
    invalidate_git_approvals current
    cancel_pending_questions current
    append_event thread_id (run_event RunMoment.cancel_requested) (of_run run_id)
        (run_key run_id RunMoment.cancel_requested)
    insert_outbox run_cancel thread_id (some run_id)
