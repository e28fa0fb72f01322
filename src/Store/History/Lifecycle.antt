-- ===== src/Store/History/Lifecycle.antt =====
-- The life of a run over whole histories.
use cloud_swe.Base.{ℕ, List, ◌≡◌, some, inl, inr, find, count-none, arith}
use cloud_swe.Base.Keeps.{Keeps}
use cloud_swe.Store.Schema.{Db, Run}
use cloud_swe.Store.Shared.{run_is}
use cloud_swe.Store.Lifecycle.{Evolves, RunsOk, Lives, Lives-preorder}
use cloud_swe.Store.Lifecycle.Steps.Parts.{life_part_rules}
use cloud_swe.Store.Lifecycle.Steps.Submit.{submit-Lives, update_pending_message-Lives}
use cloud_swe.Store.Lifecycle.Steps.Git.{
  git_decide-Lives, git_expire-Lives, git_claim-Lives, git_finish-Lives,
}
use cloud_swe.Store.Lifecycle.Steps.Runs.{
  start_queued_message-Lives, begin_agent_execution-Lives, start_run-Lives, request_cancel-Lives,
  claim_execution_ownership-Lives, append_run_event-Lives, complete_run-Lives, finish-Lives,
}
use cloud_swe.Store.Lifecycle.Steps.Commands.{
  begin_command-Lives, admit_command-Lives, update_command-Lives, delete_thread-Lives,
  purge_thread-Lives,
}
use cloud_swe.Store.Lifecycle.Steps.Workspaces.{
  update_workspace-Lives, persist_recovered_provider_id-Lives, begin_lifecycle_transition-Lives,
  cancel_lifecycle_transition-Lives, reset_workspace-Lives, cleanup_transition-Lives,
  request_workspace_wake-Lives, record_diff_stat-Lives,
}
use cloud_swe.Store.Runs.{fail_run, cancel_run}
use cloud_swe.Store.Workspaces.{touch_workspace_review}
use cloud_swe.Store.Delivery.{mark_delivered, record_failure}
use cloud_swe.Store.History.{Call, begins_agent, perform, advance, history, history_related}

ruleset life_operation_rules = (
  submit-Lives, update_pending_message-Lives, git_decide-Lives, git_expire-Lives, git_claim-Lives,
  git_finish-Lives, start_queued_message-Lives, life_part_rules, begin_agent_execution-Lives,
  start_run-Lives, request_cancel-Lives, claim_execution_ownership-Lives, append_run_event-Lives,
  complete_run-Lives, finish-Lives, begin_command-Lives, admit_command-Lives, update_command-Lives,
  delete_thread-Lives, purge_thread-Lives, update_workspace-Lives,
  persist_recovered_provider_id-Lives, begin_lifecycle_transition-Lives,
  cancel_lifecycle_transition-Lives, reset_workspace-Lives, cleanup_transition-Lives,
  request_workspace_wake-Lives, record_diff_stat-Lives,
)

perform-Lives : (c : Call) → Keeps Lives (perform c)
unfolding perform fail_run cancel_run touch_workspace_review mark_delivered record_failure advance
perform-Lives (begins_agent i j) = search life_operation_rules depth 20
perform-Lives _ = search life_operation_rules depth 20

-- From a table of runs with unique ids, all of them given, and one active run per thread at most, any
-- history of calls leads to such a table.
pub history-RunsOk : (d : Db) (cs : List Call) → RunsOk d → RunsOk (history d cs)
history-RunsOk d cs v = (history_related Lives-preorder perform-Lives d cs v).0

-- Over any history from a table that is `RunsOk`, a run that is there before and after evolved: an ended run is
-- the same, no run goes back from running to queued, its thread and its user are the same, a request to cancel stays, and a
-- run with one is not completed.
pub history-Evolves :
    (d : Db) (cs : List Call) (i : ℕ) (r r' : Run)
    → RunsOk d
    → find (run_is i) d.runs ≡ some r
    → find (run_is i) (history d cs).runs ≡ some r'
    → Evolves r r'
history-Evolves d cs i r r' v before later =
    elim ((history_related Lives-preorder perform-Lives d cs v).1.row i r' later) [
      | inl new ↦ absurd (ground (arith, count-none (run_is i) d.runs (v.given i new)))
      | inr (old, there, e) ↦ (let same : old ≡ r = ground arith in rw (← same) e)
    ]
