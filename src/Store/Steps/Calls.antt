-- ===== src/Store/Steps/Calls.antt =====
-- Every call of the store is made of the writes of the interface.
use cloud_swe.Base.{List}
use cloud_swe.Base.Keeps.{Keeps}
use cloud_swe.Store.Schema.{Db}
use cloud_swe.Store.Steps.Writes.{Writes}
use cloud_swe.Store.Steps.Parts.{part_rules}
use cloud_swe.Store.Steps.Submit.{submit-Keeps, update_pending_message-Keeps}
use cloud_swe.Store.Steps.Git.{
  git_decide-Keeps, git_expire-Keeps, git_claim-Keeps, git_finish-Keeps,
}
use cloud_swe.Store.Steps.Runs.{
  start_queued_message-Keeps, begin_agent_execution-Keeps, start_run-Keeps, request_cancel-Keeps,
  claim_execution_ownership-Keeps, append_run_event-Keeps, complete_run-Keeps, finish-Keeps,
}
use cloud_swe.Store.Steps.Commands.{
  begin_command-Keeps, admit_command-Keeps, update_command-Keeps, delete_thread-Keeps,
  purge_thread-Keeps,
}
use cloud_swe.Store.Steps.Workspaces.{
  update_workspace-Keeps, persist_recovered_provider_id-Keeps, begin_lifecycle_transition-Keeps,
  cancel_lifecycle_transition-Keeps, reset_workspace-Keeps, cleanup_transition-Keeps,
  request_workspace_wake-Keeps, record_diff_stat-Keeps,
}
use cloud_swe.Store.Runs.{fail_run, cancel_run}
use cloud_swe.Store.Workspaces.{touch_workspace_review}
use cloud_swe.Store.Delivery.{mark_delivered, record_failure}
use cloud_swe.Store.History.{Call, begins_agent, perform, advance, history, history_related}

ruleset operation_rules = (
  part_rules, submit-Keeps, update_pending_message-Keeps, git_decide-Keeps, git_expire-Keeps,
  git_claim-Keeps, git_finish-Keeps, start_queued_message-Keeps, begin_agent_execution-Keeps,
  start_run-Keeps, request_cancel-Keeps, claim_execution_ownership-Keeps, append_run_event-Keeps,
  complete_run-Keeps, finish-Keeps, begin_command-Keeps, admit_command-Keeps, update_command-Keeps,
  delete_thread-Keeps, purge_thread-Keeps, update_workspace-Keeps,
  persist_recovered_provider_id-Keeps, begin_lifecycle_transition-Keeps,
  cancel_lifecycle_transition-Keeps, reset_workspace-Keeps, cleanup_transition-Keeps,
  request_workspace_wake-Keeps, record_diff_stat-Keeps,
)

module _ {R : Db → Db → Type 0} (writes : Writes R) where
  perform-Keeps : (c : Call) → Keeps R (perform c)
  unfolding perform fail_run cancel_run touch_workspace_review mark_delivered record_failure advance
  perform-Keeps (begins_agent i j) = search operation_rules depth 20
  perform-Keeps _ = search operation_rules depth 20

  -- A relation that the writes keep is kept by whole histories.
  pub history-Keeps : (d : Db) (cs : List Call) → R d (history d cs)
  history-Keeps d cs = history_related writes.preorder perform-Keeps d cs
