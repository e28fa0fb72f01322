-- ===== src/Store/Lifecycle/Steps/Parts.antt =====
-- The shared parts of the operations keep the life of the runs.
use cloud_swe.Base.{ℕ, Option, Bool, none, some}
use cloud_swe.Base.Keeps.{Keeps}
use cloud_swe.Store.Schema.{BrowserOwner, Message, MessageDelivery, OutboxType, Run}
use cloud_swe.Store.Shared.{
  assert_execution_ownership, lock_run_context, lock_thread_and_workspace, lock_workspace_context,
  set_browser_owner,
}
use cloud_swe.Store.Queue.{
  insert_outbox, start_if_admitted, start_message, start_next_queued_message,
}
use cloud_swe.Store.Approvals.{
  cancel_pending_questions, invalidate_git_approvals, invalidate_thread_approvals,
}
use cloud_swe.Store.Lifecycle.{Lives, life_rules}

pub lock_thread_and_workspace-Lives : (i : ℕ) → Keeps Lives (lock_thread_and_workspace i)
unfolding lock_thread_and_workspace
lock_thread_and_workspace-Lives i = search life_rules depth 20

pub lock_workspace_context-Lives : (i : ℕ) → Keeps Lives (lock_workspace_context i)
unfolding lock_workspace_context
lock_workspace_context-Lives i = search life_rules depth 20

pub lock_run_context-Lives : (i : ℕ) (b : Bool) → Keeps Lives (lock_run_context i b)
unfolding lock_run_context
lock_run_context-Lives i b = search life_rules depth 20

pub assert_execution_ownership-Lives :
    (r : Run) (i j k : ℕ) → Keeps Lives (assert_execution_ownership r i j k)
unfolding assert_execution_ownership
assert_execution_ownership-Lives r i j k = search life_rules depth 20

pub set_browser_owner-Lives : (i : ℕ) (o : BrowserOwner) → Keeps Lives (set_browser_owner i o)
unfolding set_browser_owner
set_browser_owner-Lives i o = search life_rules depth 20

pub insert_outbox-Lives :
    (k : OutboxType) (i : ℕ) (r : Option ℕ) → Keeps Lives (insert_outbox k i r)
unfolding insert_outbox
insert_outbox-Lives k i r = search life_rules depth 20

pub start_message-Lives :
    (i j : ℕ) (x : Message × MessageDelivery) → Keeps Lives (start_message i j x)
unfolding start_message
start_message-Lives i j x = search (life_rules, insert_outbox-Lives) depth 20

pub start_if_admitted-Lives :
    (i j k : ℕ) (o : Option (Message × MessageDelivery)) → Keeps Lives (start_if_admitted i j k o)
unfolding start_if_admitted
start_if_admitted-Lives i j k none = search life_rules depth 20
start_if_admitted-Lives i j k (some x) = search (life_rules, start_message-Lives) depth 20

pub start_next_queued_message-Lives : (i j : ℕ) → Keeps Lives (start_next_queued_message i j)
unfolding start_next_queued_message
start_next_queued_message-Lives i j = search (life_rules, start_if_admitted-Lives) depth 20

pub invalidate_git_approvals-Lives : (r : Run) → Keeps Lives (invalidate_git_approvals r)
unfolding invalidate_git_approvals
invalidate_git_approvals-Lives r = search life_rules depth 20

pub invalidate_thread_approvals-Lives : (i : ℕ) → Keeps Lives (invalidate_thread_approvals i)
unfolding invalidate_thread_approvals
invalidate_thread_approvals-Lives i = search (life_rules, insert_outbox-Lives) depth 20

pub cancel_pending_questions-Lives : (r : Run) → Keeps Lives (cancel_pending_questions r)
unfolding cancel_pending_questions
cancel_pending_questions-Lives r = search (life_rules, set_browser_owner-Lives) depth 20

pub ruleset life_part_rules = (
  life_rules, lock_thread_and_workspace-Lives, lock_workspace_context-Lives, lock_run_context-Lives,
  assert_execution_ownership-Lives, set_browser_owner-Lives, insert_outbox-Lives,
  start_message-Lives, start_if_admitted-Lives, start_next_queued_message-Lives,
  invalidate_git_approvals-Lives, invalidate_thread_approvals-Lives, cancel_pending_questions-Lives,
)
