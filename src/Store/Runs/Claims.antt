-- ===== src/Store/Runs/Claims.antt =====
-- packages/db/src/threads/runs.ts: the ownership of a run's execution, and the events of its owner.
use cloud_swe.Base.{
  ℕ, Bool, true, Option, none, some, [], ◌∷◌, ◌++◌, ◌==◌, ◌&&◌, not, find, any, update, pure,
  fail_if, gets, modify, ◌>>=◌, ◌>>◌, holds,
}
use cloud_swe.Store.Schema.{
  Run, RunExecutionOwner, CommandOperation, CommandState, CommandResult, ThreadEvent, EventType,
  Payload, DedupeKey, is_active_run, is_terminal_run, is_dispatched, is_queued,
}
use cloud_swe.Store.Shared.{
  Action, thrown, run_terminal, attempt_required, workspace_generation_mismatch,
  checkpoint_ownership_lost, command_unsettled, fresh, append_event, lock_run_context,
  assert_execution_ownership, generation_of,
}
use cloud_swe.Store.Runs.Start.{set_run, attempt_of}

pub record Ownership : Type 0 where
  pub attempt_id : ℕ
  pub token : ℕ
  pub generation : ℕ

abbrev pub claim_of : ℕ → ℕ → RunExecutionOwner → Bool
claim_of run_id attempt_id o = (o.run_id == run_id) && (o.attempt_id == attempt_id)

-- A command of the run that was dispatched on this generation and has not settled.
abbrev pub dispatched_for : ℕ → ℕ → CommandOperation → Bool
dispatched_for run_id generation c =
    (c.run_id == run_id) && ((c.generation == generation) && is_dispatched c.state)

abbrev pub queued_for : ℕ → CommandOperation → Bool
queued_for run_id c = (c.run_id == run_id) && is_queued c.state

abbrev pub fail_queued : CommandResult → ℕ → CommandOperation → CommandOperation
fail_queued reason now c = record c {
  state = CommandState.failed;
  cancellation_requested = true;
  completed_at = some now;
  result = some reason;
}

-- A claim by an attempt that has claimed before: good only while it is the owner.
unfoldable pub reclaim : Run → RunExecutionOwner → ℕ → Action Ownership
reclaim current prior generation = do
  fail_if
      (not (
        holds current.execution_owner_token prior.token
        && ((prior.generation == generation)
            && holds current.execution_owner_generation generation)))
      (thrown checkpoint_ownership_lost 409)
  pure (record { attempt_id = prior.attempt_id; token = prior.token; generation = generation })

unfoldable pub take_ownership : ℕ → ℕ → ℕ → Action Ownership
take_ownership run_id attempt_id generation = do
  fail_if (← gets (λ d. any (dispatched_for run_id generation) d.commands))
      (thrown command_unsettled 409)
  modify (λ d. record d {
    commands =
        update (queued_for run_id) (fail_queued CommandResult.superseded_before_dispatch d.clock)
          d.commands;
  })
  token ← fresh
  modify (λ d. record d {
    owners =
        d.owners
        ++ record {
          run_id = run_id;
          attempt_id = attempt_id;
          token = token;
          generation = generation;
        }
          ∷ [];
  })
  modify (
      set_run run_id (λ now r. record r {
        execution_owner_attempt_id = some attempt_id;
        execution_owner_token = some token;
        execution_owner_generation = some generation;
        updated_at = now;
      }))
  pure (record { attempt_id = attempt_id; token = token; generation = generation })

unfoldable pub claim_with : ℕ → ℕ → ℕ → Run → Option RunExecutionOwner → Action Ownership
claim_with run_id attempt_id generation current (some claim) = reclaim current claim generation
claim_with run_id attempt_id generation current none = take_ownership run_id attempt_id generation

unfoldable pub claim_execution_ownership : ℕ → ℕ → ℕ → Action Ownership
claim_execution_ownership run_id attempt_id generation = do
  fail_if (attempt_id == 0) (thrown attempt_required 400)
  (current, workspace) ← lock_run_context run_id true
  fail_if (not (is_active_run current.status)) (thrown run_terminal 409)
  let current_generation = generation_of workspace
  fail_if (not (generation == current_generation)) (thrown workspace_generation_mismatch 409)
  prior ← gets (λ d. find (claim_of run_id attempt_id) d.owners)
  claim_with run_id attempt_id current_generation current prior

unfoldable pub append_run_event : ℕ → ℕ → EventType → Payload → DedupeKey → Action ThreadEvent
append_run_event run_id token kind payload key = do
  (current, workspace) ← lock_run_context run_id true
  fail_if (is_terminal_run current.status) (thrown run_terminal 409)
  assert_execution_ownership current token (attempt_of current) (generation_of workspace)
  append_event current.thread_id kind payload key
