-- ===== src/Store/Schema.antt =====
-- packages/db/src/schema/{threads,git,questions}.ts: the rows of the tables that the thread store
-- reads and writes. A uuid, a text that is only passed on and an instant are numbers; what a user or
-- an agent wrote is a `Text`. A nullable column is an `Option`.
mod Enums
mod Events
pub use Enums.*
unfoldable pub use Events.*
use Prim.Native.String.{String}
use cloud_swe.Base.{ℕ, Bool, true, false, Option, List, [], ◌∷◌}

-- A string as its UTF-16 code units.
abbrev pub Text : Type 0
Text = List ℕ

-- `!text`
abbrev pub is_blank : Text → Bool
is_blank [] = true
is_blank (c ∷ cs) = false

-- `user` and `model_credential` of packages/db/src/schema/{auth,model-credentials}.ts
pub record User : Type 0 where
  pub id : ℕ
  pub onboarding_completed : Bool

pub record ModelCredential : Type 0 where
  pub user_id : ℕ
  pub provider : ℕ

pub record Thread : Type 0 where
  pub id : ℕ
  pub user_id : ℕ
  pub repository_url : Option ℕ
  pub repository_branch : Option ℕ
  pub event_sequence : ℕ
  pub preview_slug : ℕ
  pub browser_owner : BrowserOwner
  pub deleted_at : Option ℕ
  pub updated_at : ℕ

pub record Message : Type 0 where
  pub id : ℕ
  pub thread_id : ℕ
  pub run_id : Option ℕ
  pub user_id : ℕ
  pub role : Role
  pub content : Text
  pub client_message_id : Option ℕ
  pub request_kind : RequestKind

pub record MessageDelivery : Type 0 where
  pub message_id : ℕ
  pub target_run_id : ℕ
  pub mode : DeliveryMode
  pub state : DeliveryState
  pub accepted_as_pending : Bool
  pub consumed_entry_id : Option ℕ
  pub original_prompt : Text
  pub original_attachment_ids : List ℕ
  pub model_selection : ℕ
  pub sequence : ℕ
  pub max_active_runs : ℕ

pub record Attachment : Type 0 where
  pub id : ℕ
  pub user_id : ℕ
  pub message_id : Option ℕ
  pub ordinal : Option ℕ
  pub classification : Classification
  pub state : AttachmentState
  pub original_sha256 : Option ℕ
  pub original_size : Option ℕ
  pub updated_at : ℕ

pub record Run : Type 0 where
  pub id : ℕ
  pub thread_id : ℕ
  pub user_id : ℕ
  pub status : RunStatus
  pub prompt : Text
  pub model_selection : Option ℕ
  pub agent_started_at : Option ℕ
  pub approval_wait_started_at : Option ℕ
  pub approval_wait_ms : ℕ
  pub question_wait_started_at : Option ℕ
  pub question_wait_ms : ℕ
  pub cancel_requested_at : Option ℕ
  pub started_at : Option ℕ
  pub completed_at : Option ℕ
  pub execution_owner_attempt_id : Option ℕ
  pub execution_owner_token : Option ℕ
  pub execution_owner_generation : Option ℕ
  pub error : Option String
  pub updated_at : ℕ

pub record RunExecutionOwner : Type 0 where
  pub run_id : ℕ
  pub attempt_id : ℕ
  pub token : ℕ
  pub generation : ℕ

-- A name that a caller gives, or `cloud-swe-${threadId}`.
pub data WorkspaceName : Type 0 where
  named default_for : ℕ → WorkspaceName

pub record Workspace : Type 0 where
  pub id : ℕ
  pub thread_id : ℕ
  pub name : WorkspaceName
  pub provider : Provider
  pub state : WorkspaceState
  pub provider_id : Option ℕ
  pub generation : ℕ
  pub lifecycle_transition_id : Option ℕ
  pub lifecycle_transition_state : Option WorkspaceState
  pub reviewed_at : Option ℕ
  pub updated_at : ℕ

pub record CommandOperation : Type 0 where
  pub command_id : ℕ
  pub workspace_id : ℕ
  pub generation : ℕ
  pub run_id : ℕ
  pub attempt_id : ℕ
  pub access : Access
  pub read_slot : Option ℕ
  pub ownership_token : Option ℕ
  pub queue_order : ℕ
  pub state : CommandState
  pub cancellation_requested : Bool
  pub metadata : ℕ
  pub result : Option CommandResult
  pub created_at : ℕ
  pub updated_at : ℕ
  pub started_at : Option ℕ
  pub completed_at : Option ℕ

pub record Outbox : Type 0 where
  pub id : ℕ
  pub kind : OutboxType
  pub thread_id : ℕ
  pub run_id : Option ℕ
  pub attempts : ℕ
  pub available_at : ℕ
  pub delivered_at : Option ℕ
  pub last_error : Option String
  pub created_at : ℕ

pub record GitOperation : Type 0 where
  pub id : ℕ
  pub run_id : ℕ
  pub thread_id : ℕ
  pub user_id : ℕ
  pub generation : ℕ
  pub repository_id : ℕ
  pub digest : ℕ
  pub approval : Approval
  pub execution : Execution
  pub expires_at : ℕ
  pub decided_at : Option ℕ
  pub result : Option GitResult

pub record QuestionRequest : Type 0 where
  pub id : ℕ
  pub run_id : ℕ
  pub thread_id : ℕ
  pub user_id : ℕ
  pub tool_call_id : ℕ
  pub browser_handoff : Bool
  pub state : QuestionState
  pub cancelled_at : Option ℕ

-- The whole database, with the clock that `new Date()` and `now()` read and the source of fresh
-- uuids and queue numbers.
pub record Db : Type 0 where
  pub threads : List Thread
  pub messages : List Message
  pub deliveries : List MessageDelivery
  pub attachments : List Attachment
  pub runs : List Run
  pub owners : List RunExecutionOwner
  pub workspaces : List Workspace
  pub commands : List CommandOperation
  pub events : List ThreadEvent
  pub outbox : List Outbox
  pub git_operations : List GitOperation
  pub questions : List QuestionRequest
  pub users : List User
  pub credentials : List ModelCredential
  pub clock : ℕ
  pub next_id : ℕ
