-- ===== src/Projection/Data.antt =====
-- The types of apps/web/src/lib/chat-types.ts: what a client shows of a thread.
use cloud_swe.Base.{ℕ, Bool, Option, List, Result, ok, err}
use cloud_swe.Store.Schema.{Text, RunStatus, WorkspaceState, BrowserOwner, DiffStat}

-- What applying an event throws: the gap that makes the client connect again, a protocol error, or
-- the refusal of a payload by its schema.
pub data StreamError : Type 0 where
  event_gap protocol_error refused_payload : StreamError

abbrev pub Applied : Type 0 → Type 0
Applied A = Result StreamError A

infixl 5 ◌>>=◌
abbrev pub ◌>>=◌ : {A B : Type 0} → Applied A → (A → Applied B) → Applied B
ok a >>= f = f a
err e >>= f = err e

-- The keys that the code builds with `JSON.stringify` and templates.
pub data Key : Type 0 where
  text_key : ℕ → ℕ → ℕ → ℕ → Key
  tool_key : ℕ → ℕ → Text → Key
  message_key compaction_key git_key question_key reset_key : ℕ → Key

pub data TextState : Type 0 where
  streaming final partial : TextState

pub data StopReason : Type 0 where
  error aborted : StopReason
  because_of : ℕ → StopReason

pub record TextPart : Type 0 where
  pub key : Key
  pub attempt_id : ℕ
  pub assistant_attempt : ℕ
  pub message_index : ℕ
  pub legacy : Bool
  pub text : Text
  pub reasoning : Option Text
  pub state : TextState
  pub truncated : Bool
  pub stop_reason : Option StopReason

pub data OutcomeKind : Type 0 where
  completed nonzero transport_timeout cancelled unknown output_limit : OutcomeKind

pub record LegacyResult : Type 0 where
  pub kind : OutcomeKind
  pub stdout : Text
  pub stderr : Text
  pub output : Text
  pub diagnostic : Option Text
  pub status_code : Option ℕ
  pub output_truncated : Bool

pub data ToolState : Type 0 where
  running completed failed : ToolState

pub record Live : Type 0 where
  pub stdout : Text
  pub stderr : Text
  pub truncated : Bool

pub record Offsets : Type 0 where
  pub stdout : ℕ
  pub stderr : ℕ

pub data Diagnostic : Type 0 where
  live_gap : Diagnostic
  told : Text → Diagnostic

-- Arguments and structured results, which the projection only passes on, are numbers.
pub record ToolPart : Type 0 where
  pub key : Key
  pub tool_call_id : Text
  pub attempt_id : ℕ
  pub name : Text
  pub state : ToolState
  pub args : Option ℕ
  pub structured : Option ℕ
  pub legacy : Option LegacyResult
  pub live : Live
  pub next_offset : Offsets
  pub final_output : Option Text
  pub diagnostic : Option Diagnostic

pub data MarkerText : Type 0 where
  context_compacted git_waiting git_updated : MarkerText
  question_waiting question_accepted question_cancelled : MarkerText
  reset_notice : Text → MarkerText

pub data Tone : Type 0 where
  info warning : Tone

pub record MarkerPart : Type 0 where
  pub question_request_id : Option ℕ
  pub key : Key
  pub text : MarkerText
  pub tone : Tone

pub record UserPart : Type 0 where
  pub key : Key
  pub message_id : ℕ
  pub text : Text
  pub attachments : List ℕ
  pub run_id : ℕ
  pub client_message_id : Option ℕ

pub data Part : Type 0 where
  text : TextPart → Part
  tool : ToolPart → Part
  marker : MarkerPart → Part
  user : UserPart → Part

-- The status is absent where the code has "unknown".
pub record ProjectedRun : Type 0 where
  pub run_id : ℕ
  pub status : Option RunStatus
  pub status_sequence : ℕ
  pub error : Option ℕ
  pub attempt_id : Option ℕ
  pub parts : List Part

pub record Usage : Type 0 where
  pub input : ℕ
  pub output : ℕ
  pub cache_read : ℕ
  pub cache_write : ℕ

pub record ThreadUsage : Type 0 where
  pub totals : Usage
  pub context_tokens : ℕ

pub record ProjectedWorkspace : Type 0 where
  pub state : WorkspaceState
  pub generation : Option ℕ

pub record Browser : Type 0 where
  pub active : Bool
  pub owner : BrowserOwner

pub record Projection : Type 0 where
  pub thread_id : Option ℕ
  pub cursor : ℕ
  pub title : Option ℕ
  pub title_version : ℕ
  pub runs : List ProjectedRun
  pub workspace : Option ProjectedWorkspace
  pub workspace_sequence : ℕ
  pub diff_stat : Option DiffStat
  pub browser : Browser
  pub edit_sequence : ℕ
  pub usage : Option ThreadUsage
  pub notices : List MarkerPart
  pub unsupported : List Text
