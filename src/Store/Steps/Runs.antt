-- ===== src/Store/Steps/Runs.antt =====
-- The operations on runs.
use Prim.Native.String.{String}
use cloud_swe.Base.{ℕ, Option, none, some}
use cloud_swe.Base.Keeps.{Keeps}
use cloud_swe.Store.Schema.{
  Db, Text, DedupeKey, EventType, Payload, Run, RunExecutionOwner, RunStatus,
}
use cloud_swe.Store.Submission.{start_accepted, start_queued_message}
use cloud_swe.Store.Runs.{
  Ending, append_run_event, begin_agent_execution, cancels, claim_execution_ownership, claim_with,
  complete_run, fails, finish, first_start, reclaim, request_cancel, start_after, start_from,
  start_run, take_ownership,
}
use cloud_swe.Store.Steps.Writes.{Writes}
use cloud_swe.Store.Steps.Parts.{part_rules}

module _ {R : Db → Db → Type 0} (writes : Writes R) where
  pub first_start-Keeps : (i : ℕ) (o : Option ℕ) → Keeps R (first_start i o)
  unfolding first_start
  first_start-Keeps i (some s) = search part_rules depth 20
  first_start-Keeps i none = search part_rules depth 20

  pub begin_agent_execution-Keeps : (i j : ℕ) → Keeps R (begin_agent_execution i j)
  unfolding begin_agent_execution
  begin_agent_execution-Keeps i j = search (part_rules, first_start-Keeps) depth 20

  pub start_from-Keeps : (s : RunStatus) (i j : ℕ) → Keeps R (start_from s i j)
  unfolding start_from
  start_from-Keeps RunStatus.queued i j = search part_rules depth 20
  start_from-Keeps _ i j = search part_rules depth 20

  pub start_run-Keeps : (i : ℕ) → Keeps R (start_run i)
  unfolding start_run
  start_run-Keeps i = search (part_rules, start_from-Keeps) depth 20

  pub request_cancel-Keeps : (i j k : ℕ) → Keeps R (request_cancel i j k)
  unfolding request_cancel
  request_cancel-Keeps i j k = search part_rules depth 20

  pub reclaim-Keeps : (r : Run) (o : RunExecutionOwner) (i : ℕ) → Keeps R (reclaim r o i)
  unfolding reclaim
  reclaim-Keeps r o i = search part_rules depth 20

  pub take_ownership-Keeps : (i j k : ℕ) → Keeps R (take_ownership i j k)
  unfolding take_ownership
  take_ownership-Keeps i j k = search part_rules depth 20

  pub claim_with-Keeps :
      (i j k : ℕ) (r : Run) (o : Option RunExecutionOwner) → Keeps R (claim_with i j k r o)
  unfolding claim_with
  claim_with-Keeps i j k r (some c) = search (part_rules, reclaim-Keeps) depth 20
  claim_with-Keeps i j k r none = search (part_rules, take_ownership-Keeps) depth 20

  pub claim_execution_ownership-Keeps : (i j k : ℕ) → Keeps R (claim_execution_ownership i j k)
  unfolding claim_execution_ownership
  claim_execution_ownership-Keeps i j k = search (part_rules, claim_with-Keeps) depth 20

  pub append_run_event-Keeps :
      (i j : ℕ) (k : EventType) (p : Payload) (key : DedupeKey)
      → Keeps R (append_run_event i j k p key)
  unfolding append_run_event
  append_run_event-Keeps i j k p key = search part_rules depth 20

  pub complete_run-Keeps : (i : ℕ) (j : Text) (k : ℕ) → Keeps R (complete_run i j k)
  unfolding complete_run
  complete_run-Keeps i j k = search part_rules depth 20

  pub start_after-Keeps : (e : Ending) (r : Run) → Keeps R (start_after e r)
  unfolding start_after
  start_after-Keeps fails r = search part_rules depth 20
  start_after-Keeps cancels r = search part_rules depth 20

  pub finish-Keeps : (i : ℕ) (e : Ending) (m c : Option String) → Keeps R (finish i e m c)
  unfolding finish
  finish-Keeps i e m c = search (part_rules, start_after-Keeps) depth 20

  start_accepted-Keeps : (i j k : ℕ) (o : Option ℕ) → Keeps R (start_accepted i j k o)
  unfolding start_accepted
  start_accepted-Keeps i j k none = search part_rules depth 20
  start_accepted-Keeps i j k (some r) = search part_rules depth 20

  pub start_queued_message-Keeps : (i j k : ℕ) → Keeps R (start_queued_message i j k)
  unfolding start_queued_message
  start_queued_message-Keeps i j k = search (part_rules, start_accepted-Keeps) depth 20
