-- ===== src/Projection/Tests.antt =====
-- The projection of apps/web/src/lib/thread-projection.ts run on a small log.
use cloud_swe.Base.{
  ℕ, zero, suc, true, false, none, some, List, [], ◌∷◌, ok, err, ◌≡◌, refl, map, find, any, select,
  arith, if◌then◌else◌,
}
use cloud_swe.Store.Schema.{RunStatus}
use cloud_swe.Projection.Data.{Projection, ProjectedRun, Applied, ToolPart}
use cloud_swe.Projection.Events.{
  Body, Event, RunEvent, RunPayload, Utterance, Stream, Chunk, run_event, assistant_started,
  assistant_delta, tool_started, tool_output, other,
}
use cloud_swe.Projection.Texts.{starts_with, drop, last_units, byte_length}
use cloud_swe.Projection.Parts.{
  upsert, upsert_last, update_run, upsert_text_part, upsert_tool_part, append_live, new_tool,
  is_run,
}
use cloud_swe.Projection.Apply.{
  empty_projection, with_run, kept_parts, start_assistant, speak, start_tool, extend_tool,
}
use cloud_swe.Projection.Cases.{apply_body, apply_event, apply_events}
use cloud_swe.Projection.Snapshot.{Snapshot, reconcile_thread_snapshot}
use cloud_swe.Projection.Sound.{IsSound}
use cloud_swe.Projection.Replay.{replay, apply_events-replay, apply_events-IsSound}
use cloud_swe.Projection.Current.{reconcile_thread_snapshot-current}
use cloud_swe.Projection.LiveOutput.{
  chunks_of, after_chunks, grown, append_live-again, append_live-chunks,
}
use cloud_swe.Projection.Endings.{is_interruption, is_streaming_part, apply_event-status}

abbrev speech : Utterance
speech = record { run_id = 5; attempt_id = 7; assistant_attempt = 1; message_index = some 1 }

abbrev chunk : Chunk
chunk = record {
  tool_call_id = 99 ∷ [];
  stream = Stream.stdout;
  offset = 0;
  next_offset = none;
  text = 111 ∷ 107 ∷ [];
}

abbrev of_run : RunPayload
of_run = record { run_id = 5; error = none }

abbrev bodies : List Body
bodies =
    run_event RunEvent.queued (some of_run)
    ∷ run_event RunEvent.started (some of_run)
    ∷ assistant_started (some speech)
    ∷ assistant_delta (some (record { of = speech; delta = some (104 ∷ []); content = none }))
    ∷ tool_started (
        some (record {
          run_id = 5;
          attempt_id = 7;
          tool_call_id = 99 ∷ [];
          name = 98 ∷ 97 ∷ 115 ∷ 104 ∷ [];
          args = none;
        }))
    ∷ tool_output (record {
      identity = some (5, 7);
      chunk = some chunk;
      says_incremental = true;
      final = none;
    })
    ∷ []

-- The log's events count from 1.
abbrev body_at : List Body → ℕ → Body
body_at [] n = other []
body_at (b ∷ bs) zero = b
body_at (b ∷ bs) (suc n) = body_at bs n

abbrev log : ℕ → Body
log zero = other []
log (suc n) = body_at bodies n

abbrev event : ℕ → Event
event n = record { sequence = n; body = log n }

-- A client that connects again twice, each time from before the last event.
abbrev events : List Event
events = map event (1 ∷ 2 ∷ 3 ∷ 2 ∷ 3 ∷ 4 ∷ 5 ∷ 1 ∷ 5 ∷ 6 ∷ [])

abbrev value_of : Applied Projection → Projection
value_of (ok p) = p
value_of (err e) = empty_projection none

abbrev seen : Projection
unfolding apply_events apply_event apply_body with_run update_run upsert upsert_last
    upsert_text_part upsert_tool_part append_live start_assistant kept_parts speak start_tool
    extend_tool any select byte_length last_units drop starts_with
seen = value_of (apply_events (empty_projection (some 1)) events)

reaches : apply_events (empty_projection (some 1)) events ≡ ok seen
unfolding apply_events apply_event apply_body with_run update_run upsert upsert_last
    upsert_text_part upsert_tool_part append_live start_assistant kept_parts speak start_tool
    extend_tool any select byte_length last_units drop starts_with
reaches = refl

seen_all : seen.cursor ≡ 6
unfolding seen
seen_all = refl

apply_events-replay_example : replay log (some 1) seen.cursor ≡ ok seen
apply_events-replay_example =
    apply_events-replay log (some 1) events seen
      (refl, (refl, (refl, (refl, (refl, (refl, (refl, (refl, (refl, (refl, tt)))))))))) reaches

apply_events-IsSound_example : IsSound seen
apply_events-IsSound_example = apply_events-IsSound (some 1) events seen reaches

abbrev snapshot : Snapshot
snapshot = record {
  id = 1;
  title = none;
  runs = record { id = 5; status = RunStatus.completed; error = none } ∷ [];
  workspace = none;
  latest_event_id = some 9;
  rest = 0;
}

reconcile_thread_snapshot-current_example : reconcile_thread_snapshot snapshot seen ≡ snapshot
unfolding seen
reconcile_thread_snapshot-current_example =
    reconcile_thread_snapshot-current snapshot (some 1) events seen reaches (omega arith)

abbrev tool : ToolPart
tool = new_tool 5 (99 ∷ []) 7 (98 ∷ [])

abbrev tool_after : ToolPart
tool_after = grown tool Stream.stdout (111 ∷ 107 ∷ []) 2

chunk_applied : append_live tool chunk ≡ ok tool_after
unfolding append_live byte_length
chunk_applied = refl

append_live-again_example : append_live tool_after chunk ≡ ok tool_after
unfolding byte_length
append_live-again_example = append_live-again tool chunk tool_after (omega arith) chunk_applied

append_live-chunks_example :
    after_chunks tool (chunks_of [] Stream.stdout 0 ((111 ∷ []) ∷ (107 ∷ []) ∷ [])) ≡ ok tool_after
unfolding byte_length
append_live-chunks_example =
    append_live-chunks tool [] Stream.stdout ((111 ∷ []) ∷ (107 ∷ []) ∷ []) (omega arith)

apply_event-status_example :
    (q : Projection) × ((apply_event seen
          (record { sequence = 7; body = run_event RunEvent.failed (some of_run) })
        ≡ ok q)
      × ((r : ProjectedRun) × ((find (is_run 5) q.runs ≡ some r)
            × ((r.status ≡ some RunStatus.failed)
                × ((r.status_sequence ≡ 7)
                    × ((if is_interruption RunStatus.failed
                          then any is_streaming_part r.parts
                          else false)
                        ≡ false))))))
unfolding apply_event seen with_run
apply_event-status_example = apply_event-status seen RunEvent.failed of_run RunStatus.failed refl
