-- ===== src/Store/Approvals.antt =====
-- What ends with a run: `invalidateGitApprovals` of packages/db/src/threads/runs.ts, the same step of
-- `resetWorkspace`, and `cancelPendingQuestions` of packages/db/src/question-store.ts.
use cloud_swe.Base.{
  ℕ, Bool, some, ◌==◌, ◌&&◌, if◌then◌else◌, select, any, update, pure, gets, modify, ◌>>=◌, ◌>>◌,
  for_each,
}
use cloud_swe.Store.Schema.{
  Run, GitOperation, QuestionRequest, Approval, QuestionState, BrowserOwner, QuestionMoment,
  git_approval_decided, questions_event, question_key, of_approval, of_question, not_written,
  git_decision, is_open_approval, is_not_started, is_pending_question,
}
use cloud_swe.Store.Shared.{Action, append_event, append_git_event, set_browser_owner}
use cloud_swe.Store.Queue.{insert_outbox}

-- Not decided for good, and not handed to GitHub.
abbrev pub is_revocable : GitOperation → Bool
is_revocable op = is_open_approval op.approval && is_not_started op.execution

abbrev pub invalidate : ℕ → GitOperation → GitOperation
invalidate now op = record op {
  approval = Approval.invalidated;
  decided_at = some now;
  result = some (not_written Approval.invalidated);
}

unfoldable pub invalidate_git_approvals : Run → Action Unit
invalidate_git_approvals current = do
  let revoked = λ (op : GitOperation). (op.run_id == current.id) && is_revocable op
  invalidated ← gets (λ d. select revoked d.git_operations)
  modify (λ d. record d { git_operations = update revoked (invalidate d.clock) d.git_operations })
  for_each invalidated λ op.
      append_git_event current.thread_id git_approval_decided op.id
        (of_approval current.id op.id Approval.invalidated)

-- The reset invalidates the thread's proposals, and tells each run's workflow.
unfoldable pub invalidate_thread_approvals : ℕ → Action Unit
invalidate_thread_approvals thread_id = do
  let revoked = λ (op : GitOperation). (op.thread_id == thread_id) && is_revocable op
  invalidated ← gets (λ d. select revoked d.git_operations)
  modify (λ d. record d { git_operations = update revoked (invalidate d.clock) d.git_operations })
  for_each invalidated λ op. (do
    append_git_event thread_id git_approval_decided op.id
        (of_approval op.run_id op.id Approval.invalidated)
    insert_outbox git_decision thread_id (some op.run_id))

unfoldable pub cancel_pending_questions : Run → Action Unit
cancel_pending_questions current = do
  let waiting = λ (q : QuestionRequest). (q.run_id == current.id) && is_pending_question q.state
  cancelled ← gets (λ d. select waiting d.questions)
  modify (λ d. record d {
    questions =
        update waiting
          (λ q. record q { state = QuestionState.cancelled; cancelled_at = some d.clock })
          d.questions;
  })
  for_each cancelled λ q. (do
    append_event current.thread_id (questions_event QuestionMoment.cancelled)
        (of_question current.id q.id) (question_key q.id QuestionMoment.cancelled)
    pure tt)
  if any (λ q. q.browser_handoff) cancelled
      then set_browser_owner current.thread_id BrowserOwner.agent
      else pure tt
