-- ===== src/Store/Tests/Data.antt =====
-- A user with three threads: the first has a run, a workspace and a queued command; the second is
-- deleted; the third is idle.
use cloud_swe.Base.{ℕ, ◌≡◌, refl, Bool, true, false, Option, none, some, [], ◌∷◌, Result, ok, err}
use cloud_swe.Store.Schema.{
  Db, Thread, Run, RunStatus, Workspace, WorkspaceState, Provider, default_for, CommandOperation,
  CommandState, Access, BrowserOwner,
}
use cloud_swe.Store.Shared.{StoreError}

abbrev pub thread : ℕ → Option ℕ → Thread
thread id deleted = record {
  id = id;
  user_id = 7;
  repository_url = none;
  repository_branch = none;
  event_sequence = 0;
  preview_slug = id;
  browser_owner = BrowserOwner.agent;
  deleted_at = deleted;
  updated_at = 0;
}

abbrev pub first_run : Run
first_run = record {
  id = 11;
  thread_id = 1;
  user_id = 7;
  status = RunStatus.running;
  prompt = 1 ∷ [];
  model_selection = none;
  agent_started_at = none;
  approval_wait_started_at = none;
  approval_wait_ms = 0;
  question_wait_started_at = none;
  question_wait_ms = 0;
  cancel_requested_at = none;
  started_at = some 900;
  completed_at = none;
  execution_owner_attempt_id = some 5;
  execution_owner_token = some 41;
  execution_owner_generation = some 1;
  error = none;
  updated_at = 900;
}

abbrev pub workspace : ℕ → ℕ → Workspace
workspace id thread_id = record {
  id = id;
  thread_id = thread_id;
  name = default_for thread_id;
  provider = Provider.docker;
  state = WorkspaceState.running;
  provider_id = some 61;
  generation = 1;
  lifecycle_transition_id = none;
  lifecycle_transition_state = none;
  reviewed_at = none;
  updated_at = 0;
}

abbrev pub waiting_command : CommandOperation
waiting_command = record {
  command_id = 31;
  workspace_id = 21;
  generation = 1;
  run_id = 11;
  attempt_id = 5;
  access = Access.exclusive;
  read_slot = none;
  ownership_token = some 41;
  queue_order = 1;
  state = CommandState.queued;
  cancellation_requested = false;
  metadata = 0;
  result = none;
  created_at = 950;
  updated_at = 950;
  started_at = none;
  completed_at = none;
}

abbrev pub start : Db
start = record {
  threads = thread 1 none ∷ thread 2 (some 800) ∷ thread 3 none ∷ [];
  messages = [];
  deliveries = [];
  attachments = [];
  runs = first_run ∷ [];
  owners = record { run_id = 11; attempt_id = 5; token = 41; generation = 1 } ∷ [];
  workspaces = workspace 21 1 ∷ workspace 22 2 ∷ [];
  commands = waiting_command ∷ [];
  events = [];
  outbox = [];
  git_operations = [];
  questions = [];
  users = record { id = 7; onboarding_completed = true } ∷ [];
  credentials = record { user_id = 7; provider = 1 } ∷ [];
  clock = 1000;
  next_id = 100;
}

-- What a run of an action returned.
abbrev pub outcome : {A : Type 0} → A → Result StoreError (A × Db) → A × Db
outcome a (ok (b, d)) = (b, d)
outcome a (err e) = (a, start)

abbrev pub is_ok : {A : Type 0} → Result StoreError (A × Db) → Bool
is_ok (ok p) = true
is_ok (err e) = false

pub ran :
    {A : Type 0} (a : A) (r : Result StoreError (A × Db))
    → is_ok r ≡ true
    → r ≡ ok ((outcome a r).0, (outcome a r).1)
ran a (ok (b, d)) h = refl
ran a (err e) h = cc
