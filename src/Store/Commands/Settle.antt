-- ===== src/Store/Commands/Settle.antt =====
-- `updateCommand` and `listUnsettledCommands` of packages/db/src/threads/commands.ts.
use cloud_swe.Base.{
  ℕ, Bool, true, false, Option, none, some, List, ◌&&◌, ◌||◌, not, leb, if◌then◌else◌, find, select,
  update, pure, fail_if, gets, modify, require, ◌>>=◌, ◌>>◌, is_some, or_else,
}
use cloud_swe.Store.Schema.{
  Db, CommandOperation, CommandState, CommandResult, is_queued, is_terminal_command, is_exclusive,
  same_command_state,
}
use cloud_swe.Store.Shared.{
  Action, thrown, command_not_found, command_terminal, failed_check, unsettled_in,
}
use cloud_swe.Store.Commands.Begin.{command_is}

pub record CommandUpdateInput : Type 0 where
  pub command_id : ℕ
  pub state : Option CommandState
  pub cancellation_requested : Option Bool
  pub metadata : Option ℕ
  pub result : Option CommandResult

-- `state && isTerminalCommand(current.state) && state !== current.state`
abbrev pub leaves_terminal : Option CommandState → CommandState → Bool
leaves_terminal none current = false
leaves_terminal (some state) current =
    is_terminal_command current && not (same_command_state state current)

abbrev pub is_running : Option CommandState → Bool
is_running (some CommandState.running) = true
is_running _ = false

abbrev pub is_ending : Option CommandState → Bool
is_ending none = false
is_ending (some state) = is_terminal_command state

abbrev pub first_some : Option ℕ → ℕ → Option ℕ
first_some (some a) b = some a
first_some none b = some b

unfoldable pub apply_update : CommandUpdateInput → ℕ → CommandOperation → CommandOperation
apply_update input now c = record c {
  state = or_else input.state c.state;
  cancellation_requested = or_else input.cancellation_requested c.cancellation_requested;
  metadata = or_else input.metadata c.metadata;
  result = elim input.result [ none ↦ c.result | some r ↦ some r ];
  updated_at = now;
  started_at = if is_running input.state then first_some c.started_at now else c.started_at;
  completed_at = if is_ending input.state then first_some c.completed_at now else c.completed_at;
}

abbrev pub is_slot : Option ℕ → Bool
is_slot none = false
is_slot (some n) = leb 1 n && leb n 4

-- `command_operation_read_slot_check`
unfoldable pub meets_slot_check : CommandOperation → Bool
meets_slot_check c =
    if is_exclusive c.access
    then not (is_some c.read_slot)
    else ((is_queued c.state || is_terminal_command c.state) && not (is_some c.read_slot))
      || is_slot c.read_slot

unfoldable pub update_command : CommandUpdateInput → Action CommandOperation
unfolding apply_update meets_slot_check
update_command input = do
  rows ← gets (λ d. find (command_is input.command_id) d.commands)
  current ← require rows (thrown command_not_found 404)
  fail_if (leaves_terminal input.state current.state) (thrown command_terminal 409)
  now ← gets (λ d. d.clock)
  let updated = apply_update input now current
  fail_if (not (meets_slot_check updated)) failed_check
  modify (λ d. record d {
    commands = update (command_is input.command_id) (apply_update input now) d.commands;
  })
  pure updated

-- `listUnsettledCommands`, for one generation; the order is that of creation, the table's.
abbrev pub unsettled_commands : ℕ → ℕ → Db → List CommandOperation
unsettled_commands workspace_id generation d =
    select (unsettled_in workspace_id generation) d.commands
