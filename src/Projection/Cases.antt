-- ===== src/Projection/Cases.antt =====
-- What each type of event does, of `applyThreadEvent` of apps/web/src/lib/thread-projection.ts.
use cloud_swe.Base.{
  ℕ, suc, Bool, true, false, Option, none, some, List, [], ◌∷◌, ◌++◌, map, ok, err, ◌==◌, ◌||◌, leb,
  if◌then◌else◌, length, or_else, not, same_numbers,
}
use cloud_swe.Store.Schema.{Text, RunStatus, WorkspaceState}
use cloud_swe.Projection.Data.{
  Applied, ◌>>=◌, StreamError, OutcomeKind, LegacyResult, ToolState, Diagnostic, ToolPart,
  MarkerText, Tone, Part, ProjectedRun, ProjectedWorkspace, Projection, compaction_key, git_key,
  question_key, reset_key, told, git_waiting, git_updated, question_waiting, question_accepted,
  reset_notice,
}
use cloud_swe.Projection.Events.{
  Chunk, FinalOutput, is_malformed, Utterance, ToolOutput, ToolCompleted, QuestionRef, RunEvent,
  GitEvent, Body, Event, run_event, assistant_started, assistant_delta, reasoning_delta,
  assistant_message, context_compacted, message_pending, message_steered, tool_started, tool_output,
  tool_completed, questions_requested, questions_answered, questions_cancelled, git_event,
  workspace_state, workspace_reset, title_updated, diff_updated, skills_discovered,
  browser_activity, browser_owner_changed, other,
}
use cloud_swe.Projection.Parts.{max_unsupported, upsert_tool_part}
use cloud_swe.Projection.Apply.{
  with_run, with_attempt, add_part, marker_of, user_of, usage_after, totals_of, start_assistant,
  speak, with_delta, with_reasoning, first_text, spoken, interrupted, start_tool, extend_tool,
  finish_output,
}

-- "bash", "edit" and "write"
abbrev pub mutates : Option Text → Bool
mutates none = false
mutates (some name) =
    same_numbers name (98 ∷ 97 ∷ 115 ∷ 104 ∷ [])
    || (same_numbers name (101 ∷ 100 ∷ 105 ∷ 116 ∷ [])
        || same_numbers name (119 ∷ 114 ∷ 105 ∷ 116 ∷ 101 ∷ []))

abbrev pub legacy_with : ToolCompleted → Option OutcomeKind → Option LegacyResult
legacy_with c none = none
legacy_with c (some kind) = some (record {
  kind = kind;
  stdout = or_else c.stdout [];
  stderr = or_else c.stderr [];
  output = or_else c.output [];
  diagnostic = c.diagnostic;
  status_code = c.status_code;
  output_truncated = c.output_truncated;
})

abbrev pub first_result : Option LegacyResult → Option LegacyResult → Option LegacyResult
first_result none b = b
first_result (some a) b = some a

abbrev pub first_told : Option Text → Option Diagnostic → Option Diagnostic
first_told none b = b
first_told (some t) b = some (told t)

abbrev pub is_unlike_completed : Option OutcomeKind → Bool
is_unlike_completed none = false
is_unlike_completed (some OutcomeKind.completed) = false
is_unlike_completed (some _) = true

abbrev pub is_nonzero : Option ℕ → Bool
is_nonzero none = false
is_nonzero (some code) = not (code == 0)

abbrev pub tool_state_of : ToolCompleted → ToolState
tool_state_of c =
    if c.is_error || (is_unlike_completed c.kind || is_nonzero c.status_code)
    then ToolState.failed
    else ToolState.completed

abbrev pub completed_with : ToolCompleted → ToolPart → ToolPart
completed_with c t = record t {
  name = or_else c.name t.name;
  state = tool_state_of c;
  structured = c.decoded (or_else c.name t.name);
  legacy = first_result (legacy_with c c.kind) t.legacy;
  final_output = first_text c.output t.final_output;
  diagnostic = first_told c.diagnostic t.diagnostic;
  live = record { stdout = []; stderr = []; truncated = c.output_truncated };
}

unfoldable pub complete_tool : ToolCompleted → ProjectedRun → Applied ProjectedRun
complete_tool c r =
    upsert_tool_part r.run_id r.parts c.tool_call_id c.attempt_id (or_else c.name c.tool_call_id)
      (λ t. ok (completed_with c t))
    >>= λ parts. ok (with_attempt c.attempt_id r parts)

-- `statusFromRunEventType`
abbrev pub status_from : RunEvent → Option RunStatus
status_from RunEvent.queued = some RunStatus.queued
status_from RunEvent.started = some RunStatus.running
status_from RunEvent.completed = some RunStatus.completed
status_from RunEvent.failed = some RunStatus.failed
status_from RunEvent.cancelled = some RunStatus.cancelled
status_from RunEvent.cancel_requested = none

abbrev pub parts_after : Option RunStatus → List Part → List Part
parts_after (some RunStatus.failed) parts = map interrupted parts
parts_after (some RunStatus.cancelled) parts = map interrupted parts
parts_after _ parts = parts

abbrev pub first_number : Option ℕ → Option ℕ → Option ℕ
first_number none b = b
first_number (some a) b = some a

abbrev pub moved : ℕ → Option RunStatus → Option ℕ → ProjectedRun → ProjectedRun
moved sequence none reason r = record r { error = first_number reason r.error }
moved sequence (some status) reason r = record r {
  status = some status;
  status_sequence = sequence;
  parts = parts_after (some status) r.parts;
  error = first_number reason r.error;
}

abbrev pub git_text : GitEvent → MarkerText
git_text GitEvent.requested = git_waiting
git_text GitEvent.decided = git_updated
git_text GitEvent.updated = git_updated

abbrev pub final_applied : Projection → ℕ → ℕ → Option FinalOutput → Applied Projection
final_applied p run_id attempt none = ok p
final_applied p run_id attempt (some final) = with_run p run_id (finish_output attempt final)

abbrev pub output_applied : Projection → ℕ → ℕ → ToolOutput → Option Chunk → Applied Projection
output_applied p run_id attempt o (some c) = with_run p run_id (extend_tool attempt c)
output_applied p run_id attempt o none =
    if o.says_incremental
    then err StreamError.protocol_error
    else final_applied p run_id attempt o.final

abbrev pub tool_output_applied : Projection → ToolOutput → Option (ℕ × ℕ) → Applied Projection
tool_output_applied p o none = err StreamError.refused_payload
tool_output_applied p o (some (run_id, attempt)) = output_applied p run_id attempt o o.chunk

abbrev pub delta_applied : Projection → Utterance → Option Text → Applied Projection
delta_applied p u none = err StreamError.protocol_error
delta_applied p u (some delta) = with_run p u.run_id (speak u (with_delta delta))

abbrev pub workspace_generation : Option ProjectedWorkspace → Option ℕ
workspace_generation none = none
workspace_generation (some w) = w.generation

abbrev pub settled_marker : Projection → ℕ → MarkerText → Option QuestionRef → Applied Projection
settled_marker p sequence content none = err StreamError.refused_payload
settled_marker p sequence content (some q) =
    with_run p q.run_id (add_part (marker_of none (question_key sequence) content))

-- `next` has the event's number for its cursor.
unfoldable pub apply_body : Projection → ℕ → Body → Applied Projection
apply_body next sequence (skills_discovered accepted) = ok next
apply_body next sequence (browser_activity active accepted) =
    ok (record next { browser = record next.browser { active = active } })
apply_body next sequence (browser_owner_changed none) = err StreamError.refused_payload
apply_body next sequence (browser_owner_changed (some owner)) =
    ok (record next { browser = record next.browser { owner = owner } })
apply_body next sequence (diff_updated none) = ok next
apply_body next sequence (diff_updated (some stat)) = ok (record next { diff_stat = some stat })
apply_body next sequence (title_updated none) = ok next
apply_body next sequence (title_updated (some title)) =
    ok (record next { title = some title; title_version = sequence })
apply_body next sequence (message_pending accepted) = ok next
apply_body next sequence (message_steered none) = err StreamError.refused_payload
apply_body next sequence (message_steered (some s)) = with_run next s.run_id (add_part (user_of s))
apply_body next sequence (context_compacted none) = err StreamError.refused_payload
apply_body next sequence (context_compacted (some c)) =
    with_run
      (record next {
        usage = some (record {
          totals = totals_of (usage_after next.usage c.usage);
          context_tokens = c.context_tokens;
        });
      })
      c.run_id (add_part (marker_of none (compaction_key c.entry_id) MarkerText.context_compacted))
apply_body next sequence (assistant_started none) = ok next
apply_body next sequence (assistant_started (some u)) = with_run next u.run_id (start_assistant u)
apply_body next sequence (assistant_delta none) = ok next
apply_body next sequence (assistant_delta (some d)) =
    delta_applied next d.of (first_text d.delta d.content)
apply_body next sequence (reasoning_delta none) = ok next
apply_body next sequence (reasoning_delta (some d)) =
    with_run next d.of.run_id (speak d.of (with_reasoning d.delta))
apply_body next sequence (assistant_message none) = ok next
apply_body next sequence (assistant_message (some s)) =
    with_run (record next { usage = usage_after next.usage s.usage }) s.of.run_id
      (speak s.of (spoken s))
apply_body next sequence (tool_started none) = ok next
apply_body next sequence (tool_started (some s)) = with_run next s.run_id (start_tool s)
apply_body next sequence (tool_output o) = tool_output_applied next o o.identity
apply_body next sequence (tool_completed none) = err StreamError.refused_payload
apply_body next sequence (tool_completed (some c)) =
    with_run
      (record next { edit_sequence = if mutates c.name then sequence else next.edit_sequence })
      c.run_id (complete_tool c)
apply_body next sequence (run_event kind none) = ok next
apply_body next sequence (run_event kind (some e)) =
    with_run next e.run_id (λ r. ok (moved sequence (status_from kind) e.error r))
apply_body next sequence (git_event kind none) = err StreamError.refused_payload
apply_body next sequence (git_event kind (some e)) =
    with_run next e.run_id (add_part (marker_of none (git_key sequence) (git_text kind)))
apply_body next sequence (workspace_reset none) = ok next
apply_body next sequence (workspace_reset (some reset)) = ok (record next {
  workspace =
      some (record { state = WorkspaceState.recovery; generation = some reset.new_generation });
  workspace_sequence = sequence;
  diff_stat = none;
  browser = record next.browser { active = false };
  notices =
      next.notices
      ++ record {
        question_request_id = none;
        key = reset_key sequence;
        text = reset_notice reset.message;
        tone = Tone.warning;
      }
        ∷ [];
})
apply_body next sequence (questions_requested accepted none) = err StreamError.refused_payload
apply_body next sequence (questions_requested accepted (some q)) =
    with_run next q.run_id
      (add_part (marker_of (some q.request_id) (question_key sequence) question_waiting))
apply_body next sequence (questions_answered q) = settled_marker next sequence question_accepted q
apply_body next sequence (questions_cancelled q) =
    settled_marker next sequence MarkerText.question_cancelled q
apply_body next sequence (workspace_state state none) = ok next
apply_body next sequence (workspace_state state (some w)) = ok (record next {
  workspace_sequence = sequence;
  workspace = some (record {
    state = state;
    generation = first_number w.generation (workspace_generation next.workspace);
  });
})
apply_body next sequence (other kind) =
    if leb max_unsupported (length next.unsupported)
    then ok next
    else ok (record next { unsupported = next.unsupported ++ kind ∷ [] })

unfoldable pub apply_event : Projection → Event → Applied Projection
unfolding apply_body
apply_event p e =
    if leb e.sequence p.cursor
    then ok p
    else (if not (e.sequence == suc p.cursor)
        then err StreamError.event_gap
        else (if is_malformed e.body
            then err StreamError.protocol_error
            else apply_body (record p { cursor = e.sequence }) e.sequence e.body))

unfoldable pub apply_events : Projection → List Event → Applied Projection
apply_events p [] = ok p
apply_events p (e ∷ es) = apply_event p e >>= λ next. apply_events next es
