-- ===== src/Store/Schema/Events.antt =====
-- The event log's rows: `thread_event` of packages/db/src/schema/threads.ts. A type, a payload or a
-- dedupe key that the code builds from a template is a constructor with the template's arguments;
-- what a caller passes in whole is `custom`.
use Prim.Native.String.{String}
use cloud_swe.Base.{ℕ, Bool, Option, ℕ_discrete}
use cloud_swe.Store.Schema.Enums.{WorkspaceState, BrowserOwner, Approval, Execution, DeliveryMode}

-- The last word of `run.…`
pub data RunMoment : Type 0 where
  queued started cancel_requested completed failed cancelled : RunMoment

pub data QuestionMoment : Type 0 where
  requested answered cancelled : QuestionMoment

pub data EventType : Type 0 where
  run_event : RunMoment → EventType
  workspace_entered : WorkspaceState → EventType
  workspace_reset diff_updated : EventType
  message_pending message_pending_updated message_steered context_compacted : EventType
  git_approval_requested git_approval_decided git_operation_updated : EventType
  questions_event : QuestionMoment → EventType
  browser_owner_changed : EventType
  browser_activity : Bool → EventType
  custom : ℕ → EventType

pub data DedupeKey : Type 0 where
  run_key : ℕ → RunMoment → DedupeKey
  transition_key : ℕ → ℕ → DedupeKey
  reset_transition_key reset_generation_key : ℕ → ℕ → DedupeKey
  diff_key owner_key activity_key : ℕ → DedupeKey
  message_pending_key message_steered_key : ℕ → DedupeKey
  message_update_key : ℕ → ℕ → DedupeKey
  question_key : ℕ → QuestionMoment → DedupeKey
  git_key : ℕ → EventType → ℕ → DedupeKey
  custom : ℕ → DedupeKey

unfoldable pub DedupeKey-discrete : Discrete DedupeKey
DedupeKey-discrete = hlevel ℕ_discrete

pub record DiffStat : Type 0 where
  pub files : ℕ
  pub additions : ℕ
  pub deletions : ℕ

-- A caller's JSON object: the fields that the store reads back, where they have the right type.
pub record Json : Type 0 where
  pub old_generation : Option ℕ
  pub new_generation : Option ℕ
  pub diff_stat : Option DiffStat
  pub rest : ℕ

pub record ResetPayload : Type 0 where
  pub thread_id : ℕ
  pub workspace_id : ℕ
  pub old_generation : ℕ
  pub new_generation : ℕ
  pub reason : ℕ
  pub reset_transition_id : Option ℕ
  pub unsettled_older_operations : ℕ
  pub confirmed_missing : Bool

pub record WorkspacePayload : Type 0 where
  pub thread_id : ℕ
  pub state : WorkspaceState
  pub generation : ℕ
  pub transition_id : ℕ
  pub confirmed_missing : Option Bool

pub data Payload : Type 0 where
  of_run : ℕ → Payload
  of_failure : ℕ → Option String → String → Payload
  of_queued : ℕ → ℕ → Payload
  of_workspace : WorkspacePayload → Payload
  of_reset : ResetPayload → Payload
  of_diff : DiffStat → Payload
  of_approval : ℕ → ℕ → Approval → Payload
  of_execution : ℕ → ℕ → Execution → Option ℕ → Payload
  of_question : ℕ → ℕ → Payload
  of_owner : BrowserOwner → Payload
  of_message : ℕ → Payload
  of_pending : ℕ → ℕ → DeliveryMode → Payload
  empty : Payload
  custom : Json → Payload

pub record ThreadEvent : Type 0 where
  pub id : ℕ
  pub thread_id : ℕ
  pub sequence : ℕ
  pub kind : EventType
  pub payload : Payload
  pub dedupe_key : DedupeKey
  pub created_at : ℕ
