-- ===== src/Store/Schema/Enums.antt =====
-- The enumerated columns of packages/db/src/schema, and the sets of states that the store tests.
use cloud_swe.Base.{arith, ◌≡◌, ℕ, Bool, true, false, ◌==◌}

pub data BrowserOwner : Type 0 where
  agent user : BrowserOwner

pub data Role : Type 0 where
  user assistant system : Role

pub data RequestKind : Type 0 where
  initial followup : RequestKind

pub data DeliveryMode : Type 0 where
  steer queue : DeliveryMode

pub data DeliveryState : Type 0 where
  pending consumed started removed : DeliveryState

pub data Classification : Type 0 where
  image file : Classification

pub data AttachmentState : Type 0 where
  uploading ready failed deleting : AttachmentState

pub data RunStatus : Type 0 where
  queued running completed failed cancelled : RunStatus

pub data Provider : Type 0 where
  docker modal : Provider

pub data WorkspaceState : Type 0 where
  provisioning running paused deleted failed quarantined recovery : WorkspaceState

pub data Access : Type 0 where
  exclusive read : Access

pub data CommandState : Type 0 where
  queued pending running completed failed unknown : CommandState

pub data OutboxType : Type 0 where
  run_requested run_cancel git_decision questions_answer workspace_wake thread_delete : OutboxType

pub data Approval : Type 0 where
  pending approved rejected expired invalidated : Approval

pub data Execution : Type 0 where
  not_started executing succeeded failed unknown : Execution

pub data QuestionState : Type 0 where
  pending answered cancelled : QuestionState

pub data CommandResult : Type 0 where
  cancelled_before_dispatch superseded_before_dispatch workspace_reset : CommandResult
  reported : ℕ → CommandResult

pub data GitResult : Type 0 where
  not_written : Approval → GitResult
  reported : ℕ → GitResult

-- `isActiveRun`
abbrev pub is_active_run : RunStatus → Bool
is_active_run RunStatus.queued = true
is_active_run RunStatus.running = true
is_active_run _ = false

-- `isTerminalRun`
abbrev pub is_terminal_run : RunStatus → Bool
is_terminal_run RunStatus.completed = true
is_terminal_run RunStatus.failed = true
is_terminal_run RunStatus.cancelled = true
is_terminal_run _ = false

-- `unsettledCommandStates`
abbrev pub is_unsettled : CommandState → Bool
is_unsettled CommandState.completed = false
is_unsettled CommandState.failed = false
is_unsettled _ = true

abbrev pub is_queued : CommandState → Bool
is_queued CommandState.queued = true
is_queued _ = false

-- What was handed to the sandbox and is not known to have ended.
abbrev pub is_dispatched : CommandState → Bool
is_dispatched CommandState.pending = true
is_dispatched CommandState.running = true
is_dispatched CommandState.unknown = true
is_dispatched _ = false

-- `isTerminalCommand`
abbrev pub is_terminal_command : CommandState → Bool
is_terminal_command CommandState.completed = true
is_terminal_command CommandState.failed = true
is_terminal_command _ = false

abbrev pub is_unknown : CommandState → Bool
is_unknown CommandState.unknown = true
is_unknown _ = false

abbrev pub is_exclusive : Access → Bool
is_exclusive Access.exclusive = true
is_exclusive Access.read = false

abbrev pub is_pending_delivery : DeliveryState → Bool
is_pending_delivery DeliveryState.pending = true
is_pending_delivery _ = false

abbrev pub is_pending_question : QuestionState → Bool
is_pending_question QuestionState.pending = true
is_pending_question _ = false

-- `inArray(approval, ["pending", "approved"])`
abbrev pub is_open_approval : Approval → Bool
is_open_approval Approval.pending = true
is_open_approval Approval.approved = true
is_open_approval _ = false

abbrev pub is_not_started : Execution → Bool
is_not_started Execution.not_started = true
is_not_started _ = false

-- `inArray(execution, ["executing", "unknown"])`
abbrev pub is_settling : Execution → Bool
is_settling Execution.executing = true
is_settling Execution.unknown = true
is_settling _ = false

abbrev state_number : WorkspaceState → ℕ
state_number WorkspaceState.provisioning = 0
state_number WorkspaceState.running = 1
state_number WorkspaceState.paused = 2
state_number WorkspaceState.deleted = 3
state_number WorkspaceState.failed = 4
state_number WorkspaceState.quarantined = 5
state_number WorkspaceState.recovery = 6

-- `===` on workspace states
abbrev pub same_state : WorkspaceState → WorkspaceState → Bool
same_state s t = state_number s == state_number t

abbrev command_number : CommandState → ℕ
command_number CommandState.queued = 0
command_number CommandState.pending = 1
command_number CommandState.running = 2
command_number CommandState.completed = 3
command_number CommandState.failed = 4
command_number CommandState.unknown = 5

-- `===` on command states
abbrev pub same_command_state : CommandState → CommandState → Bool
same_command_state s t = command_number s == command_number t

abbrev outbox_number : OutboxType → ℕ
outbox_number run_requested = 0
outbox_number run_cancel = 1
outbox_number git_decision = 2
outbox_number questions_answer = 3
outbox_number workspace_wake = 4
outbox_number thread_delete = 5

abbrev pub same_outbox_type : OutboxType → OutboxType → Bool
same_outbox_type s t = outbox_number s == outbox_number t

abbrev pub same_owner : BrowserOwner → BrowserOwner → Bool
same_owner BrowserOwner.agent BrowserOwner.agent = true
same_owner BrowserOwner.user BrowserOwner.user = true
same_owner _ _ = false

pub same_state_eq : (s t : WorkspaceState) → same_state s t ≡ true → s ≡ t
same_state_eq s t h = ground arith

pub same_command_state_eq : (s t : CommandState) → same_command_state s t ≡ true → s ≡ t
same_command_state_eq s t h = ground arith
