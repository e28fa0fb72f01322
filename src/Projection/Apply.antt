-- ===== src/Projection/Apply.antt =====
-- `applyThreadEvent` and `applyThreadEvents` of apps/web/src/lib/thread-projection.ts.
use cloud_swe.Base.{
  ℕ, Bool, true, false, Option, none, some, List, [], ◌∷◌, ◌++◌, map, ok, ◌==◌, ◌&&◌, ◌||◌,
  if◌then◌else◌, any, select, or_else, not,
}
use cloud_swe.Store.Schema.{Text, BrowserOwner}
use cloud_swe.Projection.Data.{
  Applied, ◌>>=◌, Key, TextState, StopReason, TextPart, ToolState, Diagnostic, ToolPart, MarkerText,
  Tone, Part, ProjectedRun, Usage, ThreadUsage, Projection, message_key, told,
}
use cloud_swe.Projection.Events.{Steered, Utterance, Spoken, ToolStarted, Chunk, FinalOutput}
use cloud_swe.Projection.Texts.{starts_with}
use cloud_swe.Projection.Parts.{
  update_run, add_usage, upsert_text_part, upsert_tool_part, append_live,
}

abbrev pub empty_projection : Option ℕ → Projection
empty_projection thread_id = record {
  thread_id = thread_id;
  cursor = 0;
  title = none;
  title_version = 0;
  runs = [];
  workspace = none;
  workspace_sequence = 0;
  diff_stat = none;
  browser = record { active = false; owner = BrowserOwner.agent };
  edit_sequence = 0;
  usage = none;
  notices = [];
  unsupported = [];
}

-- The next projection with one run changed.
unfoldable pub with_run :
    Projection → ℕ → (ProjectedRun → Applied ProjectedRun) → Applied Projection
with_run p id f = update_run p id f >>= λ rs. ok (record p { runs = rs })

abbrev pub with_parts : ProjectedRun → List Part → ProjectedRun
with_parts r parts = record r { parts = parts }

abbrev pub with_attempt : ℕ → ProjectedRun → List Part → ProjectedRun
with_attempt attempt r parts = record r { attempt_id = some attempt; parts = parts }

unfoldable pub add_part : Part → ProjectedRun → Applied ProjectedRun
add_part part r = ok (with_parts r (r.parts ++ part ∷ []))

abbrev pub marker_of : Option ℕ → Key → MarkerText → Part
marker_of request key content =
    Part.marker
      (record { question_request_id = request; key = key; text = content; tone = Tone.info })

abbrev pub user_of : Steered → Part
user_of s = Part.user (record {
  key = message_key s.message_id;
  message_id = s.message_id;
  text = s.content;
  attachments = s.attachments;
  run_id = s.run_id;
  client_message_id = s.client_message_id;
})

abbrev pub usage_after : Option ThreadUsage → Option Usage → Option ThreadUsage
usage_after before none = before
usage_after before (some call) = some (add_usage before call)

abbrev pub totals_of : Option ThreadUsage → Usage
totals_of none = record { input = 0; output = 0; cache_read = 0; cache_write = 0 }
totals_of (some u) = u.totals

-- Whether a part is a text of an earlier attempt that has not ended.
abbrev pub is_open : TextState → Bool
is_open TextState.final = false
is_open _ = true

abbrev pub is_superseded : ℕ → Part → Bool
is_superseded attempt (Part.text t) = is_open t.state && not (t.assistant_attempt == attempt)
is_superseded attempt _ = false

abbrev pub is_running_tool : ToolState → Bool
is_running_tool ToolState.running = true
is_running_tool _ = false

abbrev pub is_settled_part : Part → Bool
is_settled_part (Part.text t) = not (is_open t.state)
is_settled_part (Part.tool t) = not (is_running_tool t.state)
is_settled_part _ = true

-- `run.attemptId && run.attemptId !== attemptId`: 0 is the empty text.
abbrev pub is_replaced : Option ℕ → ℕ → Bool
is_replaced none attempt = false
is_replaced (some before) attempt = not (before == 0) && not (before == attempt)

unfoldable pub kept_parts : Utterance → ProjectedRun → List Part
kept_parts u r =
    if is_replaced r.attempt_id u.attempt_id || any (is_superseded u.assistant_attempt) r.parts
    then select is_settled_part r.parts
    else r.parts

unfoldable pub start_assistant : Utterance → ProjectedRun → Applied ProjectedRun
unfolding kept_parts
start_assistant u r =
    upsert_text_part r.run_id (kept_parts u r) u (λ t. record t { state = TextState.streaming })
    >>= λ parts. ok (with_attempt u.attempt_id r parts)

unfoldable pub speak : Utterance → (TextPart → TextPart) → ProjectedRun → Applied ProjectedRun
speak u f r =
    upsert_text_part r.run_id r.parts u f >>= λ parts. ok (with_attempt u.attempt_id r parts)

abbrev pub with_delta : Text → TextPart → TextPart
with_delta delta t = record t { text = t.text ++ delta; state = TextState.streaming }

abbrev pub with_reasoning : Text → TextPart → TextPart
with_reasoning delta t = record t { reasoning = some (or_else t.reasoning [] ++ delta) }

abbrev pub first_text : Option Text → Option Text → Option Text
first_text none b = b
first_text (some a) b = some a

abbrev pub continues : Option Text → Option Text → Bool
continues none prefix = false
continues (some t) prefix = starts_with t (or_else prefix [])

abbrev pub state_after : Option StopReason → TextState
state_after (some StopReason.error) = TextState.partial
state_after (some StopReason.aborted) = TextState.partial
state_after _ = TextState.final

abbrev pub spoken : Spoken → TextPart → TextPart
spoken s t = record t {
  text = if s.content_truncated && starts_with t.text s.content then t.text else s.content;
  reasoning =
      if s.reasoning_truncated && continues t.reasoning s.reasoning
      then t.reasoning
      else first_text s.reasoning t.reasoning;
  state = state_after s.stop_reason;
  truncated = s.content_truncated;
  stop_reason = s.stop_reason;
}

abbrev pub is_streaming : TextState → Bool
is_streaming TextState.streaming = true
is_streaming _ = false

abbrev pub finalised : Part → Part
finalised (Part.text t) =
    Part.text (if t.legacy && is_streaming t.state then record t { state = TextState.final } else t)
finalised (Part.tool t) = Part.tool t
finalised (Part.marker t) = Part.marker t
finalised (Part.user t) = Part.user t

abbrev pub interrupted : Part → Part
interrupted (Part.text t) =
    Part.text (if is_streaming t.state then record t { state = TextState.partial } else t)
interrupted (Part.tool t) = Part.tool t
interrupted (Part.marker t) = Part.marker t
interrupted (Part.user t) = Part.user t

unfoldable pub start_tool : ToolStarted → ProjectedRun → Applied ProjectedRun
start_tool s r =
    upsert_tool_part r.run_id (map finalised r.parts) s.tool_call_id s.attempt_id s.name
      (λ t. ok (record t { args = s.args }))
    >>= λ parts. ok (with_attempt s.attempt_id r parts)

unfoldable pub extend_tool : ℕ → Chunk → ProjectedRun → Applied ProjectedRun
extend_tool attempt c r =
    upsert_tool_part r.run_id r.parts c.tool_call_id attempt c.tool_call_id (λ t. append_live t c)
    >>= λ parts. ok (with_parts r parts)

abbrev pub told_of : Option Text → Option Diagnostic
told_of none = none
told_of (some t) = some (told t)

abbrev pub finally : FinalOutput → ToolPart → ToolPart
finally o t = record t {
  final_output =
      if o.partial then t.final_output else first_text o.output (first_text o.text t.final_output);
  diagnostic = told_of o.diagnostic;
  live = record t.live { truncated = t.live.truncated || o.output_truncated };
}

unfoldable pub finish_output : ℕ → FinalOutput → ProjectedRun → Applied ProjectedRun
finish_output attempt o r =
    upsert_tool_part r.run_id r.parts o.tool_call_id attempt o.tool_call_id (λ t. ok (finally o t))
    >>= λ parts. ok (with_parts r parts)
