-- ===== src/Store/Tests/Runs.antt =====
-- The claims and the ends of runs.
use cloud_swe.Base.{
  for_each, ◌≡◌, ◌≢◌, refl, [], ◌∷◌, none, arith, ok, err, find, any, select, update, count, ◌>>=◌,
}
use cloud_swe.Store.Schema.{Db, EventType, DedupeKey, RunStatus, of_run}
use cloud_swe.Store.Queue.{
  start_next_queued_message, next_pending, deliveries_of, earliest, start_if_admitted,
}
use cloud_swe.Store.Approvals.{invalidate_git_approvals, cancel_pending_questions}
use cloud_swe.Store.Shared.{
  append_event, append_found, add_event, insert_event, assert_execution_ownership, owns, thrown,
  checkpoint_ownership_lost, fresh, lock_run_context,
}
use cloud_swe.Store.Runs.{
  insert_answer, start_after, Ownership, claim_execution_ownership, claim_with, take_ownership,
  begin_agent_execution, append_run_event, complete_run, finish, fails,
}
use cloud_swe.Store.Lifecycle.Endings.{HasStatus, complete_run-completion, finish-status}
use cloud_swe.Store.Fencing.{claim-fences, claim_execution_ownership-again}
use cloud_swe.Store.Tests.Data.{start, first_run, outcome}

abbrev claim : Ownership × Db
claim =
    outcome (record { attempt_id = 0; token = 0; generation = 0 })
      (claim_execution_ownership 11 6 1 start)

claims : claim_execution_ownership 11 6 1 start ≡ ok (claim.0, claim.1)
unfolding claim_execution_ownership claim_with take_ownership fresh lock_run_context find any select
    update ◌>>=◌
claims = refl

claim_execution_ownership-again_example :
    claim_execution_ownership 11 6 1 claim.1 ≡ ok (claim.0, claim.1)
claim_execution_ownership-again_example =
    claim_execution_ownership-again 11 6 1 start claim.0 claim.1 claims

new_token : 41 ≢ claim.0.token
unfolding claim_execution_ownership claim_with take_ownership fresh lock_run_context find any select
    update ◌>>=◌
new_token = ground arith

claim-fences_example :
    (begin_agent_execution 11 41 claim.1 ≡ err (thrown checkpoint_ownership_lost 409))
    × (append_run_event 11 41 (EventType.custom 1) (of_run 11) (DedupeKey.custom 1) claim.1
        ≡ err (thrown checkpoint_ownership_lost 409))
    × (complete_run 11 (5 ∷ []) 41 claim.1 ≡ err (thrown checkpoint_ownership_lost 409))
claim-fences_example =
    claim-fences 11 6 1 start claim.0 claim.1 41 (5 ∷ []) (EventType.custom 1) (of_run 11)
      (DedupeKey.custom 1) claims new_token

abbrev completed : Unit {0} × Db
completed = outcome tt (complete_run 11 (5 ∷ []) 41 start)

completes : complete_run 11 (5 ∷ []) 41 start ≡ ok (completed.0, completed.1)
unfolding complete_run insert_answer append_event append_found add_event insert_event fresh
    start_next_queued_message next_pending deliveries_of earliest start_if_admitted lock_run_context
    assert_execution_ownership owns find any select update count ◌>>=◌
completes = refl

complete_run-completion_example : HasStatus 11 RunStatus.completed completed.1
unfolding find
complete_run-completion_example =
    complete_run-completion 11 (5 ∷ []) 41 first_run start completed.1 completed.0 refl refl
      completes

abbrev failed : Unit {0} × Db
failed = outcome tt (finish 11 fails none none start)

fails_now : finish 11 fails none none start ≡ ok (failed.0, failed.1)
unfolding finish invalidate_git_approvals cancel_pending_questions for_each start_after append_event
    append_found add_event insert_event fresh start_next_queued_message next_pending deliveries_of
    earliest start_if_admitted lock_run_context find any select update count ◌>>=◌
fails_now = refl

finish-status_example : HasStatus 11 RunStatus.failed failed.1
unfolding find
finish-status_example =
    finish-status 11 fails none none first_run start failed.1 failed.0 refl refl fails_now
