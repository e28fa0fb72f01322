-- ===== src/Store/Tests/Pages.antt =====
-- A page of the events of a run that is started and cancelled, and a client that reads it.
use cloud_swe.Base.{
  ℕ_discrete, for_each, any, select, update, ◌≡◌, refl, none, some, [], ◌∷◌, ok, find, false, ◌>>=◌,
}
use cloud_swe.Store.Schema.{DedupeKey-discrete, Thread, ThreadEvent}
use cloud_swe.Store.Shared.{
  lock_run_context, assert_execution_ownership, owns, thread_is, append_event, append_found,
  add_event, insert_event, fresh,
}
use cloud_swe.Store.Queue.{insert_outbox}
use cloud_swe.Store.Approvals.{invalidate_git_approvals, cancel_pending_questions}
use cloud_swe.Store.Runs.{begin_agent_execution, request_cancel, complete_run, first_start}
use cloud_swe.Store.Queries.{list_events}
use cloud_swe.Store.History.{history, perform}
use cloud_swe.Store.Tests.Data.{start, thread}
use cloud_swe.Store.Tests.Histories.{calls, start-IsGapless}
use cloud_swe.Projection.{
  Projection, Body, empty_projection, apply_events, apply_event, apply_body, other,
}
use cloud_swe.Projection.Holds.{is_gap}
use cloud_swe.Projection.Follow.{sent, list_events-follows}

abbrev a_thread : Thread
a_thread = record (thread 1 none) { event_sequence = 2; updated_at = 1000 }

there : find (thread_is 1) (history start calls).threads ≡ some a_thread
unfolding history perform begin_agent_execution request_cancel complete_run lock_run_context
    assert_execution_ownership owns first_start invalidate_git_approvals cancel_pending_questions
    for_each insert_outbox append_event append_found add_event insert_event fresh find any select
    update DedupeKey-discrete ℕ_discrete ◌>>=◌
there = refl

abbrev shown : ThreadEvent → Body
shown e = other []

-- A client that starts, and one that has applied the first event.
abbrev one_applied : Projection
one_applied = record (empty_projection (some 1)) { cursor = 1; unsupported = [] ∷ [] }

applies_one :
    apply_events (empty_projection (some 1)) (record { sequence = 1; body = other [] } ∷ [])
    ≡ ok one_applied
unfolding apply_events apply_event apply_body
applies_one = refl

list_events-follows_example :
    is_gap
      (apply_events one_applied (sent shown (list_events 1 (some 1) none (history start calls))))
    ≡ false
list_events-follows_example =
    list_events-follows shown start calls 1 a_thread none
      (record { sequence = 1; body = other [] } ∷ []) one_applied start-IsGapless there applies_one
