-- ===== src/Store/Commands/Admit.antt =====
-- `admitCommand` of packages/db/src/threads/commands.ts: one exclusive command or up to four reads at a time.
use cloud_swe.Base.{
  ℕ, Bool, true, false, Option, none, some, List, [], ◌∷◌, ◌==◌, ◌&&◌, ◌||◌, not, ltb, leb,
  if◌then◌else◌, find, select, any, update, length, pure, fail_if, gets, modify, require, ◌>>=◌,
  ◌>>◌, is_some, holds, same_option, or_else,
}
use cloud_swe.Store.Schema.{
  Db, WorkspaceState, CommandOperation, CommandState, is_active_run, is_queued, is_unknown,
  is_exclusive,
}
use cloud_swe.Store.Shared.{
  Action, thrown, workspace_unavailable, run_cancelled, command_not_found, command_not_queued,
  lock_workspace_context, assert_execution_ownership, run_is, unsettled_in,
}
use cloud_swe.Store.Commands.Begin.{command_is}

-- The dispatch rule of `admitCommand`, on the workspace's unsettled commands.
abbrev pub is_waiting : CommandOperation → Bool
is_waiting c = is_queued c.state

abbrev pub is_in_flight : CommandOperation → Bool
is_in_flight c = not (is_queued c.state)

-- Unknown, or of another owner: to be reconciled first.
abbrev pub is_unreconciled : CommandOperation → CommandOperation → Bool
is_unreconciled mine c =
    is_unknown c.state || not (same_option c.ownership_token mine.ownership_token)

abbrev pub is_earlier : CommandOperation → CommandOperation → Bool
is_earlier mine c = is_queued c.state && ltb c.queue_order mine.queue_order

abbrev pub takes_all : CommandOperation → Bool
takes_all c = is_exclusive c.access

unfoldable pub must_wait : CommandOperation → List CommandOperation → List CommandOperation → Bool
must_wait mine active earlier =
    if takes_all mine
    then leb 1 (length active) || leb 1 (length earlier)
    else any takes_all active || any takes_all earlier

abbrev pub slot_is : ℕ → CommandOperation → Bool
slot_is n c = holds c.read_slot n

-- `[1, 2, 3, 4].find(…)`
unfoldable pub free_slot : List ℕ → List CommandOperation → Option ℕ
free_slot [] active = none
free_slot (n ∷ ns) active = if any (slot_is n) active then free_slot ns active else some n

abbrev pub read_slots : List ℕ
read_slots = 1 ∷ 2 ∷ 3 ∷ 4 ∷ []

-- `null` for an exclusive command; nothing where every slot is taken.
abbrev pub slot_for : CommandOperation → List CommandOperation → Option (Option ℕ)
slot_for mine active =
    if takes_all mine
    then some none
    else elim (free_slot read_slots active) [ none ↦ none | some n ↦ some (some n) ]

-- What the command gets now: a slot, or nothing, and it stays queued.
unfoldable pub admission : CommandOperation → List CommandOperation → Option (Option ℕ)
unfolding must_wait free_slot
admission mine outstanding =
    let active = select is_in_flight outstanding in
    let earlier = select (is_earlier mine) outstanding in
    if any (is_unreconciled mine) active
    then none
    else (if must_wait mine active earlier then none else slot_for mine active)

abbrev pub dispatched : Option ℕ → CommandOperation → CommandOperation
dispatched slot c = record c { state = CommandState.pending; read_slot = slot }

unfoldable pub dispatch_with : ℕ → Option (Option ℕ) → Action (Option CommandOperation)
dispatch_with command_id none = pure none
dispatch_with command_id (some slot) = do
  modify (λ d. record d { commands = update (command_is command_id) (dispatched slot) d.commands })
  gets (λ d. find (command_is command_id) d.commands)

abbrev pub accepts_dispatch : WorkspaceState → Bool
accepts_dispatch WorkspaceState.running = true
accepts_dispatch WorkspaceState.provisioning = true
accepts_dispatch _ = false

unfoldable pub admit_command : ℕ → Action (Option CommandOperation)
admit_command command_id = do
  rows ← gets (λ d. find (command_is command_id) d.commands)
  candidate ← require rows (thrown command_not_found 404)
  workspace ← lock_workspace_context candidate.workspace_id
  runs ← gets (λ d. find (run_is candidate.run_id) d.runs)
  current ← require runs (thrown run_cancelled 409)
  fail_if (not (is_active_run current.status) || is_some current.cancel_requested_at)
      (thrown run_cancelled 409)
  assert_execution_ownership current (or_else candidate.ownership_token 0) candidate.attempt_id
      workspace.generation
  fail_if
      (not (workspace.generation == candidate.generation)
        || (is_some workspace.lifecycle_transition_id || not (accepts_dispatch workspace.state)))
      (thrown workspace_unavailable 409)
  outstanding ←
      gets (λ d. select (unsettled_in candidate.workspace_id candidate.generation) d.commands)
  mine ← require (find (command_is command_id) outstanding) (thrown command_not_queued 409)
  fail_if (not (is_queued mine.state)) (thrown command_not_queued 409)
  dispatch_with command_id (admission mine outstanding)

abbrev pub read_command : ℕ → Db → Option CommandOperation
read_command command_id d = find (command_is command_id) d.commands
