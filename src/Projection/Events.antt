-- ===== src/Projection/Events.antt =====
-- The payloads of packages/db/src/pi-events.ts and packages/db/src/tool-events.ts, and the check of
-- packages/api/src/events.ts. A payload is what its schema makes of it, absent where it is refused.
use cloud_swe.Base.{ℕ, Bool, false, Option, List, is_some, not, ◌||◌}
use cloud_swe.Store.Schema.{Text, BrowserOwner, DiffStat, WorkspaceState}
use cloud_swe.Projection.Data.{Usage, OutcomeKind, StopReason}

pub record RunPayload : Type 0 where
  pub run_id : ℕ
  pub error : Option ℕ

pub record Steered : Type 0 where
  pub message_id : ℕ
  pub run_id : ℕ
  pub content : Text
  pub client_message_id : Option ℕ
  pub attachments : List ℕ

pub record Compacted : Type 0 where
  pub run_id : ℕ
  pub entry_id : ℕ
  pub context_tokens : ℕ
  pub usage : Option Usage

-- Which message of the assistant a payload is about.
pub record Utterance : Type 0 where
  pub run_id : ℕ
  pub attempt_id : ℕ
  pub assistant_attempt : ℕ
  pub message_index : Option ℕ

pub record Delta : Type 0 where
  pub of : Utterance
  pub delta : Option Text
  pub content : Option Text

pub record ReasoningDelta : Type 0 where
  pub of : Utterance
  pub delta : Text

pub record Spoken : Type 0 where
  pub of : Utterance
  pub content : Text
  pub content_truncated : Bool
  pub reasoning : Option Text
  pub reasoning_truncated : Bool
  pub stop_reason : Option StopReason
  pub usage : Option Usage

pub record ToolStarted : Type 0 where
  pub run_id : ℕ
  pub attempt_id : ℕ
  pub tool_call_id : Text
  pub name : Text
  pub args : Option ℕ

pub data Stream : Type 0 where
  stdout stderr : Stream

pub record Chunk : Type 0 where
  pub tool_call_id : Text
  pub stream : Stream
  pub offset : ℕ
  pub next_offset : Option ℕ
  pub text : Text

pub record FinalOutput : Type 0 where
  pub tool_call_id : Text
  pub output : Option Text
  pub text : Option Text
  pub diagnostic : Option Text
  pub output_truncated : Bool
  pub partial : Bool

-- What each of the schemas that read a `tool.output` makes of it.
pub record ToolOutput : Type 0 where
  pub identity : Option (ℕ × ℕ)
  pub chunk : Option Chunk
  pub says_incremental : Bool
  pub final : Option FinalOutput

-- `decoded` is what `decodeStructuredToolResult` makes of the result, for the name of a tool.
pub record ToolCompleted : Type 0 where
  pub run_id : ℕ
  pub attempt_id : ℕ
  pub tool_call_id : Text
  pub name : Option Text
  pub is_error : Bool
  pub kind : Option OutcomeKind
  pub stdout : Option Text
  pub stderr : Option Text
  pub output : Option Text
  pub diagnostic : Option Text
  pub status_code : Option ℕ
  pub output_truncated : Bool
  pub decoded : Text → Option ℕ

pub record ResetNotice : Type 0 where
  pub new_generation : ℕ
  pub message : Text

pub record QuestionRef : Type 0 where
  pub run_id : ℕ
  pub request_id : ℕ

pub record WorkspaceChange : Type 0 where
  pub generation : Option ℕ

pub data RunEvent : Type 0 where
  queued started completed failed cancelled cancel_requested : RunEvent

pub data GitEvent : Type 0 where
  requested decided updated : GitEvent

-- An event's type with its payload. A request for answers is checked by one schema and read by
-- another.
pub data Body : Type 0 where
  run_event : RunEvent → Option RunPayload → Body
  assistant_started : Option Utterance → Body
  assistant_delta : Option Delta → Body
  reasoning_delta : Option ReasoningDelta → Body
  assistant_message : Option Spoken → Body
  context_compacted : Option Compacted → Body
  message_pending : Bool → Body
  message_steered : Option Steered → Body
  tool_started : Option ToolStarted → Body
  tool_output : ToolOutput → Body
  tool_completed : Option ToolCompleted → Body
  questions_requested : Bool → Option QuestionRef → Body
  questions_answered : Option QuestionRef → Body
  questions_cancelled : Option QuestionRef → Body
  git_event : GitEvent → Option RunPayload → Body
  workspace_state : WorkspaceState → Option WorkspaceChange → Body
  workspace_reset : Option ResetNotice → Body
  title_updated : Option ℕ → Body
  diff_updated : Option DiffStat → Body
  skills_discovered : Bool → Body
  browser_activity : Bool → Bool → Body
  browser_owner_changed : Option BrowserOwner → Body
  other : Text → Body

pub record Event : Type 0 where
  pub sequence : ℕ
  pub body : Body

-- `validateKnownThreadEvent`
abbrev pub is_malformed : Body → Bool
is_malformed (run_event kind payload) = not (is_some payload)
is_malformed (assistant_started payload) = not (is_some payload)
is_malformed (assistant_delta payload) = not (is_some payload)
is_malformed (reasoning_delta payload) = not (is_some payload)
is_malformed (assistant_message payload) = not (is_some payload)
is_malformed (context_compacted payload) = not (is_some payload)
is_malformed (message_pending accepted) = not accepted
is_malformed (message_steered payload) = not (is_some payload)
is_malformed (tool_started payload) = not (is_some payload)
is_malformed (tool_output payload) = not (is_some payload.chunk || is_some payload.final)
is_malformed (tool_completed payload) = not (is_some payload)
is_malformed (questions_requested accepted payload) = not accepted
is_malformed (questions_answered payload) = not (is_some payload)
is_malformed (questions_cancelled payload) = not (is_some payload)
is_malformed (git_event kind payload) = false
is_malformed (workspace_state state payload) = not (is_some payload)
is_malformed (workspace_reset payload) = not (is_some payload)
is_malformed (title_updated payload) = not (is_some payload)
is_malformed (diff_updated payload) = not (is_some payload)
is_malformed (skills_discovered accepted) = not accepted
is_malformed (browser_activity active accepted) = not accepted
is_malformed (browser_owner_changed payload) = not (is_some payload)
is_malformed (other kind) = false
