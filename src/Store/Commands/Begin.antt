-- ===== src/Store/Commands/Begin.antt =====
-- `beginCommand` of packages/db/src/threads/commands.ts: a command enters the queue of its workspace.
use cloud_swe.Base.{
  ℕ, Bool, true, false, Option, none, some, List, [], ◌∷◌, ◌++◌, ◌==◌, ◌&&◌, not, leb,
  if◌then◌else◌, find, select, length, pure, fail_if, gets, modify, require, ◌>>=◌, ◌>>◌, is_some,
  or_else,
}
use cloud_swe.Store.Schema.{
  Run, WorkspaceState, CommandOperation, CommandState, Access, is_active_run, is_terminal_run,
  is_terminal_command,
}
use cloud_swe.Store.Shared.{
  Action, thrown, workspace_generation_mismatch, workspace_unavailable,
  lifecycle_transition_pending, command_attempt_required, command_ownership_conflict, run_cancelled,
  run_terminal, run_not_active, command_queue_full, command_unsettled, command_queue_required,
  fresh, lock_workspace_context, assert_execution_ownership, unsettled_in,
}

pub record CommandBeginInput : Type 0 where
  pub ownership_token : ℕ
  pub access : Option Access
  pub queued : Bool
  pub command_id : Option ℕ
  pub workspace_id : ℕ
  pub generation : ℕ
  pub run_id : ℕ
  pub attempt_id : ℕ
  pub metadata : ℕ

abbrev pub command_is : ℕ → CommandOperation → Bool
command_is id c = c.command_id == id

-- `["paused", "quarantined", "recovery", "deleted", "failed"].includes(state)`
abbrev pub needs_recovery : WorkspaceState → Bool
needs_recovery WorkspaceState.provisioning = false
needs_recovery WorkspaceState.running = false
needs_recovery _ = true

-- `existing.workspaceId !== input.workspaceId || …`
abbrev pub same_command_owner : CommandBeginInput → CommandOperation → Bool
same_command_owner input c =
    (c.workspace_id == input.workspace_id)
    && ((c.generation == input.generation)
        && ((c.run_id == input.run_id) && (c.attempt_id == input.attempt_id)))

abbrev pub find_command : Option ℕ → List CommandOperation → Option CommandOperation
find_command none commands = none
find_command (some id) commands = find (command_is id) commands

unfoldable pub resume_command : CommandBeginInput → Run → CommandOperation → Action CommandOperation
resume_command input current existing = do
  fail_if (not (same_command_owner input existing)) (thrown command_ownership_conflict 409)
  fail_if (not (is_active_run current.status) && not (is_terminal_command existing.state))
      (thrown run_terminal 409)
  pure existing

abbrev pub new_command : CommandBeginInput → ℕ → ℕ → ℕ → CommandOperation
new_command input id order now = record {
  command_id = id;
  workspace_id = input.workspace_id;
  generation = input.generation;
  run_id = input.run_id;
  attempt_id = input.attempt_id;
  access = or_else input.access Access.exclusive;
  read_slot = none;
  ownership_token = some input.ownership_token;
  queue_order = order;
  state = if input.queued then CommandState.queued else CommandState.pending;
  cancellation_requested = false;
  metadata = input.metadata;
  result = none;
  created_at = now;
  updated_at = now;
  started_at = none;
  completed_at = none;
}

abbrev pub wants_read : Option Access → Bool
wants_read (some Access.read) = true
wants_read _ = false

unfoldable pub insert_command : CommandBeginInput → Run → Action CommandOperation
insert_command input current = do
  fail_if (not (is_active_run current.status))
      (thrown (if is_terminal_run current.status then run_terminal else run_not_active) 409)
  outstanding ← gets (λ d. select (unsettled_in input.workspace_id input.generation) d.commands)
  fail_if (leb 36 (length outstanding)) (thrown command_queue_full 429)
  fail_if (not input.queued && leb 1 (length outstanding)) (thrown command_unsettled 409)
  fail_if (not input.queued && wants_read input.access) (thrown command_queue_required 400)
  id ← fresh
  order ← fresh
  now ← gets (λ d. d.clock)
  let operation = new_command input (or_else input.command_id id) order now
  modify (λ d. record d { commands = d.commands ++ operation ∷ [] })
  pure operation

unfoldable pub begin_with :
    CommandBeginInput → Run → Option CommandOperation → Action CommandOperation
begin_with input current (some c) = resume_command input current c
begin_with input current none = insert_command input current

unfoldable pub begin_command : CommandBeginInput → Action CommandOperation
begin_command input = do
  workspace ← lock_workspace_context input.workspace_id
  fail_if (not (workspace.generation == input.generation))
      (thrown workspace_generation_mismatch 409)
  fail_if (needs_recovery workspace.state) (thrown workspace_unavailable 409)
  fail_if (is_some workspace.lifecycle_transition_id) (thrown lifecycle_transition_pending 409)
  fail_if (input.attempt_id == 0) (thrown command_attempt_required 400)
  rows ←
      gets (λ d. find (λ r. (r.id == input.run_id) && (r.thread_id == workspace.thread_id)) d.runs)
  current ← require rows (thrown command_ownership_conflict 409)
  assert_execution_ownership current input.ownership_token input.attempt_id input.generation
  fail_if (is_some current.cancel_requested_at) (thrown run_cancelled 409)
  existing ← gets (λ d. find_command input.command_id d.commands)
  begin_with input current existing
