-- ===== src/Store/Tests/Effects.antt =====
-- Wakes, cleanups, the message queue and updates of commands.
use cloud_swe.Base.{
  ℕ, ◌≡◌, refl, true, Option, none, some, [], ◌∷◌, ok, find, any, select, update, count, ◌>>=◌,
}
use cloud_swe.Store.Schema.{
  Db, Message, MessageDelivery, DeliveryMode, DeliveryState, Role, RequestKind, CommandOperation,
  CommandState, WorkspaceState,
}
use cloud_swe.Store.Shared.{
  append_event, append_found, add_event, insert_event, fresh, lock_thread_and_workspace,
  cleanup_block_reason,
}
use cloud_swe.Store.Queue.{
  Started, insert_run, insert_outbox, start_message, start_if_admitted, start_next_queued_message,
  next_pending, deliveries_of, earliest,
}
use cloud_swe.Store.Commands.{
  CommandUpdateInput, update_command, apply_update, meets_slot_check, command_is,
}
use cloud_swe.Store.Workspaces.{
  WakeResult, request_workspace_wake, CleanupInput, CleanupResult, ProviderResult,
  cleanup_transition, settle_pending, settle_unblocked, settle_with, record_cleanup, returned,
  entered,
}
use cloud_swe.Store.Submission.{start_queued_message, start_accepted}
use cloud_swe.Store.Restart.{start_queued_message-again}
use cloud_swe.Store.MessageOrder.{Next, start_next_queued_message-Next}
use cloud_swe.Store.Wakes.{request_workspace_wake-once}
use cloud_swe.Store.CleanupOutcomes.{Leaves, cleanup_transition-Leaves}
use cloud_swe.Store.Exclusion.Settle.{StillEnded, update_command-StillEnded}
use cloud_swe.Store.Tests.Data.{start, workspace, waiting_command, outcome}

-- The third thread has a paused workspace.
abbrev paused : Db
paused = record start {
  workspaces = record (workspace 23 3) { state = WorkspaceState.paused } ∷ [];
}

abbrev woken : WakeResult × Db
woken = outcome WakeResult.not_paused (request_workspace_wake 3 paused)

wakes : request_workspace_wake 3 paused ≡ ok (WakeResult.queued, woken.1)
unfolding request_workspace_wake lock_thread_and_workspace insert_outbox fresh find any ◌>>=◌
wakes = refl

request_workspace_wake-once_example :
    request_workspace_wake 3 woken.1 ≡ ok (WakeResult.queued, woken.1)
request_workspace_wake-once_example = request_workspace_wake-once 3 paused woken.1 wakes

-- The third thread's workspace is to be deleted.
abbrev ending : Db
ending = record start {
  workspaces =
      record (workspace 23 3) {
        lifecycle_transition_id = some 71;
        lifecycle_transition_state = some WorkspaceState.deleted;
      }
      ∷ [];
}

abbrev deletes : CleanupInput
deletes = record {
  thread_id = 3;
  transition_id = some 71;
  target_state = WorkspaceState.deleted;
  mutate = λ w. some (ProviderResult.completed none);
  waiting_run_id = none;
}

abbrev cleaned : CleanupResult × Db
cleaned = outcome (CleanupResult.unknown 0 (workspace 0 0)) (cleanup_transition deletes 71 ending)

cleans : cleanup_transition deletes 71 ending ≡ ok (cleaned.0, cleaned.1)
unfolding cleanup_transition settle_pending settle_unblocked settle_with record_cleanup returned
    entered cleanup_block_reason lock_thread_and_workspace append_event append_found add_event
    insert_event fresh find any update ◌>>=◌
cleans = refl

cleanup_transition-Leaves_example : Leaves deletes 71 ending cleaned.0 cleaned.1
cleanup_transition-Leaves_example =
    cleanup_transition-Leaves deletes 71 ending cleaned.0 cleaned.1 cleans

-- A command that has ended, and a report of its result.
abbrev ended_command : CommandOperation
ended_command = record waiting_command { state = CommandState.completed; completed_at = some 990 }

abbrev settled : Db
settled = record start { commands = ended_command ∷ [] }

abbrev report : CommandUpdateInput
report = record {
  command_id = 31;
  state = some CommandState.completed;
  cancellation_requested = none;
  metadata = some 5;
  result = none;
}

abbrev updated : CommandOperation × Db
updated = outcome ended_command (update_command report settled)

updates : update_command report settled ≡ ok (updated.0, updated.1)
unfolding update_command apply_update meets_slot_check find update ◌>>=◌
updates = refl

update_command-StillEnded_example :
    StillEnded ended_command updated.0 × (find (command_is 31) updated.1.commands ≡ some updated.0)
unfolding find
update_command-StillEnded_example =
    update_command-StillEnded report ended_command settled updated.0 updated.1 refl refl updates

-- The third thread has two messages to come; the second was accepted first.
abbrev message : ℕ → Message
message id = record {
  id = id;
  thread_id = 3;
  run_id = none;
  user_id = 7;
  role = Role.user;
  content = 3 ∷ [];
  client_message_id = none;
  request_kind = RequestKind.followup;
}

abbrev delivery : ℕ → ℕ → MessageDelivery
delivery id number = record {
  message_id = id;
  target_run_id = 11;
  mode = DeliveryMode.queue;
  state = DeliveryState.pending;
  accepted_as_pending = true;
  consumed_entry_id = none;
  original_prompt = 3 ∷ [];
  original_attachment_ids = [];
  model_selection = 1;
  sequence = number;
  max_active_runs = 3;
}

abbrev queued : Db
queued = record start {
  messages = message 51 ∷ message 52 ∷ [];
  deliveries = delivery 51 8 ∷ delivery 52 6 ∷ [];
}

abbrev started : Option Started × Db
started = outcome none (start_next_queued_message 3 7 queued)

abbrev first_started : Started
first_started = record { thread_id = 3; run_id = 101; message_id = 52 }

starts : start_next_queued_message 3 7 queued ≡ ok (some first_started, started.1)
unfolding start_next_queued_message next_pending deliveries_of earliest start_if_admitted
    start_message insert_run insert_outbox append_event append_found add_event insert_event fresh
    find any select update count ◌>>=◌
starts = refl

start_next_queued_message-Next_example : Next 3 queued first_started started.1
start_next_queued_message-Next_example =
    start_next_queued_message-Next 3 7 queued first_started started.1 starts

abbrev asked : Started × Db
asked =
    outcome (record { thread_id = 0; run_id = 0; message_id = 0 })
      (start_queued_message 7 3 52 queued)

asks : start_queued_message 7 3 52 queued ≡ ok (asked.0, asked.1)
unfolding start_queued_message start_accepted start_next_queued_message next_pending deliveries_of
    earliest start_if_admitted start_message insert_run insert_outbox append_event append_found
    add_event insert_event fresh find any select update count ◌>>=◌
asks = refl

start_queued_message-again_example : start_queued_message 7 3 52 asked.1 ≡ ok (asked.0, asked.1)
start_queued_message-again_example = start_queued_message-again 7 3 52 queued asked.0 asked.1 asks
