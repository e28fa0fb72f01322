-- ===== src/Store/Workspaces/Reset.antt =====
-- `resetWorkspace` of packages/db/src/threads/workspaces.ts: a new generation after the provider has
-- confirmed that the old filesystem is missing.
use cloud_swe.Base.{
  ℕ, zero, suc, ◌+◌, Bool, true, false, Option, none, some, List, [], ◌∷◌, ◌==◌, ◌&&◌, not, leb,
  if◌then◌else◌, find, select, update, length, pure, fail_if, gets, modify, require, ◌>>=◌, ◌>>◌,
  holds, or_else,
}
use cloud_swe.Store.Schema.{
  Db, Workspace, WorkspaceState, CommandOperation, CommandState, CommandResult, ThreadEvent,
  EventType, Payload, of_reset, DedupeKey, reset_transition_key, reset_generation_key, is_unsettled,
}
use cloud_swe.Store.Shared.{
  Action, thrown, reset_not_confirmed, reset_state_unknown, workspace_not_found,
  workspace_generation_mismatch, append_event, lock_thread_and_workspace,
}
use cloud_swe.Store.Approvals.{invalidate_thread_approvals}
use cloud_swe.Store.Workspaces.Lifecycle.{set_workspace, clear_transition, returned}

pub record ResetInput : Type 0 where
  pub thread_id : ℕ
  pub expected_generation : ℕ
  pub confirmed_missing : Bool
  pub reason : ℕ
  pub transition_id : Option ℕ
  pub provider_id : Option (Option ℕ)
  pub state : Option WorkspaceState

pub record ResetResult : Type 0 where
  pub workspace : Workspace
  pub old_generation : ℕ
  pub new_generation : ℕ
  pub event : ThreadEvent
  pub already_applied : Bool

-- `payloadNumber`, for the two keys that the reset reads.
abbrev pub old_generation_of : Payload → Option ℕ
old_generation_of (of_reset p) = some p.old_generation
old_generation_of (Payload.custom j) = j.old_generation
old_generation_of _ = none

abbrev pub new_generation_of : Payload → Option ℕ
new_generation_of (of_reset p) = some p.new_generation
new_generation_of (Payload.custom j) = j.new_generation
new_generation_of _ = none

abbrev pub is_reset : EventType → Bool
is_reset EventType.workspace_reset = true
is_reset _ = false

-- `orderBy(desc(threadEvent.sequence))`
unfoldable pub insert_newest : ThreadEvent → List ThreadEvent → List ThreadEvent
insert_newest e [] = e ∷ []
insert_newest e (x ∷ xs) = if leb x.sequence e.sequence then e ∷ x ∷ xs else x ∷ insert_newest e xs

unfoldable pub newest_first : List ThreadEvent → List ThreadEvent
unfolding insert_newest
newest_first [] = []
newest_first (x ∷ xs) = insert_newest x (newest_first xs)

unfoldable pub take : ℕ → List ThreadEvent → List ThreadEvent
take zero xs = []
take (suc n) [] = []
take (suc n) (x ∷ xs) = x ∷ take n xs

abbrev pub reset_in : ℕ → ThreadEvent → Bool
reset_in thread_id e = (e.thread_id == thread_id) && is_reset e.kind

abbrev pub applies_reset : ℕ → ThreadEvent → Bool
applies_reset expected e =
    holds (old_generation_of e.payload) expected
    && holds (new_generation_of e.payload) (expected + 1)

unfoldable pub applied_reset : ℕ → ℕ → Db → Option ThreadEvent
unfolding newest_first take
applied_reset thread_id expected d =
    find (applies_reset expected) (take 20 (newest_first (select (reset_in thread_id) d.events)))

-- The replay of a reset that was applied before.
unfoldable pub replay_reset : ResetInput → Workspace → Action ResetResult
unfolding applied_reset
replay_reset input current = do
  fail_if (not (current.generation == input.expected_generation + 1))
      (thrown workspace_generation_mismatch 409)
  found ← gets (applied_reset input.thread_id input.expected_generation)
  event ← require found (thrown reset_state_unknown 500)
  pure (record {
    workspace = current;
    old_generation = input.expected_generation;
    new_generation = current.generation;
    event = event;
    already_applied = true;
  })

-- `lte(generation, expectedGeneration)` and unsettled
abbrev pub stale_command : ℕ → ℕ → CommandOperation → Bool
stale_command workspace_id expected c =
    (c.workspace_id == workspace_id) && (leb c.generation expected && is_unsettled c.state)

abbrev pub fail_stale : ℕ → CommandOperation → CommandOperation
fail_stale now c = record c {
  state = CommandState.failed;
  completed_at = some now;
  result = some CommandResult.workspace_reset;
  updated_at = now;
}

abbrev pub reset_key : ResetInput → DedupeKey
reset_key input = elim input.transition_id [
  | none ↦ reset_generation_key input.thread_id (input.expected_generation + 1)
  | some id ↦ reset_transition_key input.thread_id id
]

abbrev pub reset_row : ResetInput → ℕ → Workspace → Workspace
reset_row input now w = record (clear_transition now w) {
  state = or_else input.state WorkspaceState.recovery;
  provider_id = or_else input.provider_id none;
  generation = input.expected_generation + 1;
}

unfoldable pub apply_reset : ResetInput → Workspace → Action ResetResult
apply_reset input current = do
  let stale = stale_command current.id input.expected_generation
  older ← gets (λ d. select stale d.commands)
  modify (λ d. record d { commands = update stale (fail_stale d.clock) d.commands })
  invalidate_thread_approvals input.thread_id
  modify (set_workspace current.id (reset_row input))
  next ← returned current.id
  event ←
      append_event input.thread_id EventType.workspace_reset
        (of_reset (record {
          thread_id = input.thread_id;
          workspace_id = current.id;
          old_generation = input.expected_generation;
          new_generation = input.expected_generation + 1;
          reason = input.reason;
          reset_transition_id = input.transition_id;
          unsettled_older_operations = length older;
          confirmed_missing = input.confirmed_missing;
        }))
        (reset_key input)
  pure (record {
    workspace = next;
    old_generation = input.expected_generation;
    new_generation = input.expected_generation + 1;
    event = event;
    already_applied = false;
  })

unfoldable pub reset_workspace : ResetInput → Action ResetResult
reset_workspace input = do
  fail_if (not input.confirmed_missing) (thrown reset_not_confirmed 409)
  workspace ← lock_thread_and_workspace input.thread_id
  current ← require workspace (thrown workspace_not_found 404)
  if current.generation == input.expected_generation
      then apply_reset input current
      else replay_reset input current
