-- ===== src/Store/Steps/Parts.antt =====
-- The shared parts of the operations are made of the writes of an interface.
use cloud_swe.Base.{ℕ, Option, Bool, none, some}
use cloud_swe.Base.Keeps.{Keeps}
use cloud_swe.Store.Schema.{Db, BrowserOwner, Message, MessageDelivery, OutboxType, Run}
use cloud_swe.Store.Shared.{
  assert_execution_ownership, lock_run_context, lock_thread_and_workspace, lock_workspace_context,
  set_browser_owner,
}
use cloud_swe.Store.Queue.{
  insert_outbox, start_if_admitted, start_message, start_next_queued_message,
}
use cloud_swe.Store.Approvals.{
  cancel_pending_questions, invalidate_git_approvals, invalidate_thread_approvals,
}
use cloud_swe.Store.Steps.Writes.{Writes, write_rules, owner-Keeps, started-Keeps}

module _ {R : Db → Db → Type 0} (writes : Writes R) where
  pub lock_thread_and_workspace-Keeps : (i : ℕ) → Keeps R (lock_thread_and_workspace i)
  unfolding lock_thread_and_workspace
  lock_thread_and_workspace-Keeps i = search write_rules depth 20

  pub lock_workspace_context-Keeps : (i : ℕ) → Keeps R (lock_workspace_context i)
  unfolding lock_workspace_context
  lock_workspace_context-Keeps i = search write_rules depth 20

  pub lock_run_context-Keeps : (i : ℕ) (b : Bool) → Keeps R (lock_run_context i b)
  unfolding lock_run_context
  lock_run_context-Keeps i b = search write_rules depth 20

  pub assert_execution_ownership-Keeps :
      (r : Run) (i j k : ℕ) → Keeps R (assert_execution_ownership r i j k)
  unfolding assert_execution_ownership
  assert_execution_ownership-Keeps r i j k = search write_rules depth 20

  pub set_browser_owner-Keeps : (i : ℕ) (o : BrowserOwner) → Keeps R (set_browser_owner i o)
  unfolding set_browser_owner
  set_browser_owner-Keeps i o = search (write_rules, owner-Keeps writes) depth 20

  pub insert_outbox-Keeps : (k : OutboxType) (i : ℕ) (r : Option ℕ) → Keeps R (insert_outbox k i r)
  unfolding insert_outbox
  insert_outbox-Keeps k i r = search write_rules depth 20

  pub start_message-Keeps :
      (i j : ℕ) (x : Message × MessageDelivery) → Keeps R (start_message i j x)
  unfolding start_message
  start_message-Keeps i j x =
      search (write_rules, started-Keeps writes, insert_outbox-Keeps) depth 20

  pub start_if_admitted-Keeps :
      (i j k : ℕ) (o : Option (Message × MessageDelivery)) → Keeps R (start_if_admitted i j k o)
  unfolding start_if_admitted
  start_if_admitted-Keeps i j k none = search write_rules depth 20
  start_if_admitted-Keeps i j k (some x) = search (write_rules, start_message-Keeps) depth 20

  pub start_next_queued_message-Keeps : (i j : ℕ) → Keeps R (start_next_queued_message i j)
  unfolding start_next_queued_message
  start_next_queued_message-Keeps i j = search (write_rules, start_if_admitted-Keeps) depth 20

  pub invalidate_git_approvals-Keeps : (r : Run) → Keeps R (invalidate_git_approvals r)
  unfolding invalidate_git_approvals
  invalidate_git_approvals-Keeps r = search write_rules depth 20

  pub invalidate_thread_approvals-Keeps : (i : ℕ) → Keeps R (invalidate_thread_approvals i)
  unfolding invalidate_thread_approvals
  invalidate_thread_approvals-Keeps i = search (write_rules, insert_outbox-Keeps) depth 20

  pub cancel_pending_questions-Keeps : (r : Run) → Keeps R (cancel_pending_questions r)
  unfolding cancel_pending_questions
  cancel_pending_questions-Keeps r = search (write_rules, set_browser_owner-Keeps) depth 20

pub ruleset part_rules = (
  write_rules, lock_thread_and_workspace-Keeps, lock_workspace_context-Keeps,
  lock_run_context-Keeps, assert_execution_ownership-Keeps, set_browser_owner-Keeps,
  insert_outbox-Keeps, start_message-Keeps, start_if_admitted-Keeps,
  start_next_queued_message-Keeps, invalidate_git_approvals-Keeps,
  invalidate_thread_approvals-Keeps, cancel_pending_questions-Keeps,
)
