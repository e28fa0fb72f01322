-- ===== src/Store/Tests/Histories.antt =====
-- Whole histories, and the log.
use cloud_swe.Base.{
  ℕ_discrete, for_each, any, select, update, ◌≡◌, refl, some, [], ◌∷◌, ok, arith, find, count, List,
  ◌>>=◌,
}
use cloud_swe.Store.Schema.{
  DedupeKey-discrete, Db, Run, RunStatus, run_event, RunMoment, of_run, run_key, ThreadEvent,
  EventType, DedupeKey,
}
use cloud_swe.Store.Shared.{
  lock_run_context, assert_execution_ownership, owns, run_is, append_event, append_found, add_event,
  insert_event, fresh,
}
use cloud_swe.Store.Queue.{insert_outbox}
use cloud_swe.Store.Approvals.{invalidate_git_approvals, cancel_pending_questions}
use cloud_swe.Store.Runs.{begin_agent_execution, request_cancel, complete_run, first_start}
use cloud_swe.Store.Log.Dedupe.{append_event-twice}
use cloud_swe.Store.Log.Sequence.{IsGapless, sequences, first}
use cloud_swe.Store.Lifecycle.{Evolves, RunsOk}
use cloud_swe.Store.History.{Call, begins_agent, requests_cancel, completes, history, perform}
use cloud_swe.Store.History.Gapless.{history-IsGapless}
use cloud_swe.Store.History.Lifecycle.{history-RunsOk, history-Evolves}
use cloud_swe.Store.Tests.Data.{start, first_run, outcome}

abbrev pub calls : List Call
calls = begins_agent 11 41 ∷ requests_cancel 7 1 11 ∷ completes 11 (5 ∷ []) 41 ∷ []

pub start-IsGapless : IsGapless start
unfolding find sequences first
start-IsGapless = record {
  at = λ i t h. ground arith;
  unused = λ i h. refl;
  unknown = λ i h. ground arith;
}

history-IsGapless_example : IsGapless (history start calls)
history-IsGapless_example = history-IsGapless start calls start-IsGapless

start-RunsOk : RunsOk start
unfolding count
start-RunsOk = record {
  unique = λ i. ground arith;
  given = λ i h. ground arith;
  one_active = λ t. ground arith;
}

history-RunsOk_example : RunsOk (history start calls)
history-RunsOk_example = history-RunsOk start calls start-RunsOk

-- What the three calls make of the run.
abbrev cancelled_run : Run
cancelled_run = record first_run {
  status = RunStatus.cancelled;
  agent_started_at = some 1000;
  cancel_requested_at = some 1000;
  completed_at = some 1000;
  updated_at = 1000;
}

calls-run : find (run_is 11) (history start calls).runs ≡ some cancelled_run
unfolding history perform begin_agent_execution request_cancel complete_run lock_run_context
    assert_execution_ownership owns first_start invalidate_git_approvals cancel_pending_questions
    for_each insert_outbox append_event append_found add_event insert_event fresh find any select
    update DedupeKey-discrete ℕ_discrete ◌>>=◌
calls-run = refl

history-Evolves_example : Evolves first_run cancelled_run
unfolding find
history-Evolves_example =
    history-Evolves start calls 11 first_run cancelled_run start-RunsOk refl calls-run

abbrev append_once : ThreadEvent × Db
append_once =
    outcome
      (record {
        id = 0;
        thread_id = 0;
        sequence = 0;
        kind = EventType.custom 0;
        payload = of_run 0;
        dedupe_key = DedupeKey.custom 0;
        created_at = 0;
      })
      (append_event 1 (run_event RunMoment.queued) (of_run 11) (run_key 11 RunMoment.queued) start)

appended :
    append_event 1 (run_event RunMoment.queued) (of_run 11) (run_key 11 RunMoment.queued) start
    ≡ ok (append_once.0, append_once.1)
unfolding append_event append_found add_event insert_event fresh find any select update ◌>>=◌
appended = refl

append_event-twice_example :
    append_event 1
      (run_event RunMoment.started)
      (of_run 12)
      (run_key 11 RunMoment.queued)
      append_once.1
    ≡ ok (append_once.0, append_once.1)
append_event-twice_example =
    append_event-twice 1 (run_event RunMoment.queued) (run_event RunMoment.started) (of_run 11)
      (of_run 12) (run_key 11 RunMoment.queued) start append_once.0 append_once.1 appended
