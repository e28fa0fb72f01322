-- ===== src/Store/Runs/Finish.antt =====
-- packages/db/src/threads/runs.ts: a run ends.
use Prim.Native.String.{String}
use cloud_swe.Base.{
  ℕ, Bool, true, false, Option, none, some, [], ◌∷◌, ◌++◌, if◌then◌else◌, update, pure, modify,
  ◌>>=◌, ◌>>◌, is_some, or_else,
}
use cloud_swe.PublicFailure.{
  public_failure_for_code, public_failure_code_for_message, public_failure_message,
}
use cloud_swe.Store.Schema.{
  Message, Text, is_blank, Run, RunStatus, RunMoment, CommandResult, Role, RequestKind, of_run,
  of_failure, run_event, run_key, is_terminal_run,
}
use cloud_swe.Store.Shared.{
  Action, fresh, append_event, lock_run_context, assert_execution_ownership, generation_of,
}
use cloud_swe.Store.Approvals.{invalidate_git_approvals, cancel_pending_questions}
use cloud_swe.Store.Queue.{start_next_queued_message}
use cloud_swe.Store.Runs.Start.{set_run, attempt_of}
use cloud_swe.Store.Runs.Claims.{queued_for, fail_queued}

abbrev pub new_answer : ℕ → Run → Text → Message
new_answer id current content = record {
  id = id;
  thread_id = current.thread_id;
  run_id = some current.id;
  user_id = current.user_id;
  role = Role.assistant;
  content = content;
  client_message_id = none;
  request_kind = RequestKind.followup;
}

-- `if (assistantContent) await tx.insert(message)`
unfoldable pub insert_answer : Run → Text → Action Unit
insert_answer current content = if is_blank content then pure tt else do
  id ← fresh
  modify (λ d. record d { messages = d.messages ++ new_answer id current content ∷ [] })

abbrev pub end_run : RunStatus → ℕ → Run → Run
end_run status now r = record r { status = status; completed_at = some now; updated_at = now }

unfoldable pub complete_run : ℕ → Text → ℕ → Action Unit
complete_run run_id content token = do
  (current, workspace) ← lock_run_context run_id true
  assert_execution_ownership current token (attempt_of current) (generation_of workspace)
  if is_terminal_run current.status
      then pure tt
      else (if is_some current.cancel_requested_at
          then (do
            modify (set_run run_id (end_run RunStatus.cancelled))
            append_event current.thread_id (run_event RunMoment.cancelled) (of_run run_id)
                (run_key run_id RunMoment.cancelled)
            pure tt)
          else (do
            insert_answer current content
            modify (set_run run_id (end_run RunStatus.completed))
            append_event current.thread_id (run_event RunMoment.completed) (of_run run_id)
                (run_key run_id RunMoment.completed)
            start_next_queued_message current.thread_id current.user_id
            pure tt))

-- How `finish` ends a run.
pub data Ending : Type 0 where
  fails cancels : Ending

abbrev pub status_of : Ending → RunStatus
status_of fails = RunStatus.failed
status_of cancels = RunStatus.cancelled

abbrev pub moment_of : Ending → RunMoment
moment_of fails = RunMoment.failed
moment_of cancels = RunMoment.cancelled

-- `current.cancelRequestedAt ? "cancelled" : status`
abbrev pub terminal_status : Run → Ending → Ending
terminal_status current ending = if is_some current.cancel_requested_at then cancels else ending

-- `failureCode ?? publicFailureCodeForMessage(error ?? "")`, through `publicFailureForCode`
abbrev pub failure_code : Option String → Option String → String
failure_code error code =
    (public_failure_for_code
      (or_else code (public_failure_code_for_message (or_else error "")))).code

abbrev pub is_empty : String → Bool
is_empty String.[] = true
is_empty _ = false

-- `error ? publicFailureMessage(error) : null`
abbrev pub public_error : Option String → Option String
public_error none = none
public_error (some text) = if is_empty text then none else some (public_failure_message text)

-- `if (terminalStatus === "failed")`: the next message starts.
unfoldable pub start_after : Ending → Run → Action Unit
start_after fails current = do start_next_queued_message current.thread_id current.user_id; pure tt
start_after cancels current = pure tt

unfoldable pub finish : ℕ → Ending → Option String → Option String → Action Unit
finish run_id ending error code = do
  (current, _) ← lock_run_context run_id false
  if is_terminal_run current.status then pure tt else do
    let terminal = terminal_status current ending
    invalidate_git_approvals current
    cancel_pending_questions current
    modify (λ d. record d {
      commands =
          update (queued_for run_id) (fail_queued CommandResult.cancelled_before_dispatch d.clock)
            d.commands;
    })
    modify (
        set_run run_id
          (λ now r. record (end_run (status_of terminal) now r) { error = public_error error }))
    append_event current.thread_id (run_event (moment_of terminal))
        (of_failure run_id (public_error error) (failure_code error code))
        (run_key run_id (moment_of terminal))
    start_after terminal current

unfoldable pub fail_run : ℕ → String → Option String → Action Unit
fail_run run_id error code = finish run_id fails (some error) code

unfoldable pub cancel_run : ℕ → Action Unit
cancel_run run_id = finish run_id cancels none none
