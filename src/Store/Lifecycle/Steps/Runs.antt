-- ===== src/Store/Lifecycle/Steps/Runs.antt =====
-- The operations on runs keep the life of the runs.
use Prim.Native.String.{String}
use cloud_swe.Base.{
  Option-cases, find-stronger, ◌||◌, inl, inr, ℕ, Bool, true, false, not, Option, none, some, ◌≡◌,
  ◌≢◌, refl, find, arith, is_some, gets, require, ◌>>=◌,
}
use cloud_swe.Base.Keeps.{Keeps, Keeps-bind}
use cloud_swe.Base.Triples.{Under, Under-Keeps, Under-fail_if, Under-if, Under-write}
use cloud_swe.Store.Schema.{
  Text, DedupeKey, EventType, Payload, Run, RunExecutionOwner, RunStatus, is_terminal_run,
  is_active_run,
}
use cloud_swe.Store.Shared.{StoreError, Action, run_is}
use cloud_swe.Store.Submission.{start_accepted, start_queued_message}
use cloud_swe.Store.Runs.{
  status_of, terminal_status, end_run, Ending, append_run_event, begin_agent_execution, cancels,
  claim_execution_ownership, claim_with, complete_run, fails, finish, first_start, insert_answer,
  reclaim, request_cancel, start_after, start_from, start_run, take_ownership,
}
use cloud_swe.Store.Lifecycle.{
  still_rules, Holds, locked, after_quiet, write_run, assert_execution_ownership-Still,
  invalidate_git_approvals-Still, cancel_pending_questions-Still, insert_answer-Still, Lives,
  Lives-preorder, Evolves,
}
use cloud_swe.Store.Lifecycle.Steps.Parts.{life_part_rules}

ruleset quiet_rules = (
  still_rules, assert_execution_ownership-Still, invalidate_git_approvals-Still,
  cancel_pending_questions-Still, insert_answer-Still,
)

-- The run ends.
ended :
    (s : RunStatus) (n : ℕ) (c : Run) (reason : Option String)
    → is_terminal_run c.status ≡ false
    → (is_some c.cancel_requested_at ≡ true → s ≢ RunStatus.completed)
    → is_terminal_run s ≡ true
    → Evolves c (record (end_run s n c) { error = reason })
ended s n c reason live kept ends = record {
  frozen = λ h. absurd cc;
  forward = ground arith;
  same_thread = refl;
  same_user = refl;
  stays_cancelled = λ h. refl;
  not_completed = λ h k. absurd (kept h k);
}

ended_as :
    (e : Ending) (n : ℕ) (c : Run) (reason : Option String)
    → is_terminal_run c.status ≡ false
    → Evolves c (record (end_run (status_of e) n c) { error = reason })
ended_as fails n c reason live = ended RunStatus.failed n c reason live (λ _ k. cc) refl
ended_as cancels n c reason live = ended RunStatus.cancelled n c reason live (λ _ k. cc) refl

first_start-Lives :
    (i : ℕ) (c : Run)
    → is_terminal_run c.status ≡ false
    → is_some c.cancel_requested_at ≡ false
    → (o : Option ℕ) → Under (Holds i c) Lives (first_start i o)
unfolding first_start
first_start-Lives i c live free (some s) = Under-Keeps (search life_part_rules depth 20)
first_start-Lives i c live free none =
    after_quiet i c _ _ (search quiet_rules depth 8) (search life_part_rules depth 20) λ now.
      Under-write Lives-preorder _ _
        (write_run i c (λ now r. record r { agent_started_at = some now }) (λ n r. refl)
          (λ n. record {
            frozen = λ h. absurd cc;
            forward = omega arith;
            same_thread = refl;
            same_user = refl;
            stays_cancelled = λ h. refl;
            not_completed = λ h k. k;
          }))
        λ _. search life_part_rules depth 20

pub begin_agent_execution-Lives : (i j : ℕ) → Keeps Lives (begin_agent_execution i j)
unfolding begin_agent_execution
begin_agent_execution-Lives i j = locked i true _ λ c w.
    after_quiet i c _ _ (search quiet_rules depth 3) (search life_part_rules depth 20) λ _.
      Under-fail_if _ _ _
        λ live. Under-fail_if _ _ _ λ free. first_start-Lives i c live free c.agent_started_at

start_from-Lives :
    (i t : ℕ) (c : Run) (s : RunStatus) → c.status ≡ s → Under (Holds i c) Lives (start_from s i t)
unfolding start_from
start_from-Lives i t c RunStatus.queued waits =
    Under-write Lives-preorder _ _
      (write_run i c
        (λ now r. record r { status = RunStatus.running; started_at = some now; updated_at = now })
        (λ n r. refl)
        (λ n. record {
          frozen = λ h. absurd (ground (arith, waits));
          forward = ground (arith, waits);
          same_thread = refl;
          same_user = refl;
          stays_cancelled = λ h. refl;
          not_completed = λ h k. absurd cc;
        }))
      λ _. search life_part_rules depth 20
start_from-Lives i t c _ waits = Under-Keeps (search life_part_rules depth 20)

pub start_run-Lives : (i : ℕ) → Keeps Lives (start_run i)
unfolding start_run
start_run-Lives i = locked i false _ λ c w. start_from-Lives i c.thread_id c c.status refl

reclaim-Lives : (r : Run) (o : RunExecutionOwner) (i : ℕ) → Keeps Lives (reclaim r o i)
unfolding reclaim
reclaim-Lives r o i = search life_part_rules depth 20

take_ownership-Lives :
    (i j k : ℕ) (c : Run)
    → is_terminal_run c.status ≡ false
    → Under (Holds i c) Lives (take_ownership i j k)
unfolding take_ownership
take_ownership-Lives i j k c live =
    after_quiet i c _ _ (search quiet_rules depth 8) (search life_part_rules depth 20) λ _.
      after_quiet i c _ _ (search quiet_rules depth 8) (search life_part_rules depth 20) λ _.
        after_quiet i c _ _ (search quiet_rules depth 8) (search life_part_rules depth 20) λ _.
          after_quiet i c _ _ (search quiet_rules depth 8) (search life_part_rules depth 20)
            λ token.
              after_quiet i c _ _ (search quiet_rules depth 8) (search life_part_rules depth 20)
                λ _.
                  Under-write Lives-preorder _ _
                    (write_run i c _ (λ n r. refl)
                      (λ n. record {
                        frozen = λ h. absurd cc;
                        forward = omega arith;
                        same_thread = refl;
                        same_user = refl;
                        stays_cancelled = λ h. refl;
                        not_completed = λ h k. k;
                      }))
                    λ _. search life_part_rules depth 20

claim_with-Lives :
    (i j k : ℕ) (c : Run) (o : Option RunExecutionOwner)
    → is_terminal_run c.status ≡ false
    → Under (Holds i c) Lives (claim_with i j k c o)
unfolding claim_with
claim_with-Lives i j k c (some o) live = Under-Keeps (reclaim-Lives c o k)
claim_with-Lives i j k c none live = take_ownership-Lives i j k c live

not_active : (s : RunStatus) → not (is_active_run s) ≡ false → is_terminal_run s ≡ false
not_active RunStatus.queued h = refl
not_active RunStatus.running h = refl
not_active RunStatus.completed h = cc
not_active RunStatus.failed h = cc
not_active RunStatus.cancelled h = cc

pub claim_execution_ownership-Lives : (i j k : ℕ) → Keeps Lives (claim_execution_ownership i j k)
unfolding claim_execution_ownership
claim_execution_ownership-Lives i j k =
    Keeps-bind Lives-preorder _ _ (search life_part_rules depth 20) λ _. locked i true _ λ c w.
      Under-fail_if _ _ _ λ active.
        after_quiet i c _ _ (search quiet_rules depth 8) (search life_part_rules depth 20) λ _.
          after_quiet i c _ _ (search quiet_rules depth 8) (search life_part_rules depth 20)
            λ prior. claim_with-Lives i j _ c prior (not_active c.status active)

pub append_run_event-Lives :
    (i j : ℕ) (k : EventType) (p : Payload) (key : DedupeKey)
    → Keeps Lives (append_run_event i j k p key)
unfolding append_run_event
append_run_event-Lives i j k p key = search life_part_rules depth 20

-- The row that the cancellation reads is the run's.
picked :
    (q : Run → Bool) (i : ℕ) {A : Type 0} (e : StoreError) (f : Run → Action A)
    → ((r : Run) → q r ≡ true → run_is i r ≡ true)
    → ((c : Run) → Under (Holds i c) Lives (f c))
    → Keeps Lives (gets (λ d. find q d.runs) >>= λ rows. require rows e >>= f)
unfolding ◌>>=◌
picked q i e f only kf = record {
  at = λ s r s' h v. elim (Option-cases (find q s.runs)) [
    | inl gone ↦ absurd (ground arith)
    | inr (c, found) ↦
        (kf c).at s r s' (find-stronger (run_is i) q s.runs only (v.unique i) found) (ground arith)
          v
  ];
}

asked :
    (n : ℕ) (c : Run)
    → (is_terminal_run c.status || is_some c.cancel_requested_at) ≡ false
    → Evolves c (record c { cancel_requested_at = some n; updated_at = n })
asked n c live = record {
  frozen = λ h. absurd (ground arith);
  forward = omega arith;
  same_thread = refl;
  same_user = refl;
  stays_cancelled = λ h. absurd (ground arith);
  not_completed = λ h k. k;
}

pub request_cancel-Lives : (i j k : ℕ) → Keeps Lives (request_cancel i j k)
unfolding request_cancel
request_cancel-Lives i j k = Keeps-bind Lives-preorder _ _ (search life_part_rules depth 20) λ _.
    Keeps-bind Lives-preorder _ _ (search life_part_rules depth 20) λ _.
      picked _ k _ _ (λ r h. ground arith)
        λ c.
          Under-if _ _ _ (λ _. Under-Keeps (search life_part_rules depth 20))
            λ live.
              Under-write Lives-preorder _ _ (write_run k c _ (λ n r. refl) (λ n. asked n c live))
                λ _. search life_part_rules depth 20

insert_answer-Lives : (r : Run) (i : Text) → Keeps Lives (insert_answer r i)
unfolding insert_answer
insert_answer-Lives r i = search life_part_rules depth 20

pub complete_run-Lives : (i : ℕ) (j : Text) (k : ℕ) → Keeps Lives (complete_run i j k)
unfolding complete_run
complete_run-Lives i j k = locked i true _ λ c w.
    after_quiet i c _ _ (search quiet_rules depth 3) (search life_part_rules depth 20) λ _.
      Under-if _ _ _ (λ _. Under-Keeps (search life_part_rules depth 20))
        λ live.
          Under-if _ _ _
            (λ cancel.
              Under-write Lives-preorder _ _
                (write_run i c _ (λ n r. refl) (λ n. ended_as cancels n c c.error live))
                (λ _. search life_part_rules depth 20))
            (λ (kept : is_some c.cancel_requested_at ≡ false).
              after_quiet i c _ _ (search quiet_rules depth 3)
                (search (life_part_rules, insert_answer-Lives) depth 20)
                λ _.
                  Under-write Lives-preorder _ _
                    (write_run i c _ (λ n r. refl)
                      (λ n. ended RunStatus.completed n c c.error live (λ h k. cc) refl))
                    (λ _. search life_part_rules depth 20))

start_after-Lives : (e : Ending) (r : Run) → Keeps Lives (start_after e r)
unfolding start_after
start_after-Lives fails r = search life_part_rules depth 20
start_after-Lives cancels r = search life_part_rules depth 20

pub finish-Lives : (i : ℕ) (e : Ending) (m k : Option String) → Keeps Lives (finish i e m k)
unfolding finish
finish-Lives i e m k = locked i false _ λ c w.
    Under-if _ _ _ (λ _. Under-Keeps (search life_part_rules depth 20))
      λ live.
        after_quiet i c _ _ (search quiet_rules depth 3) (search life_part_rules depth 20) λ _.
          after_quiet i c _ _ (search quiet_rules depth 3) (search life_part_rules depth 20) λ _.
            after_quiet i c _ _ (search quiet_rules depth 8) (search life_part_rules depth 20) λ _.
              Under-write Lives-preorder _ _
                (write_run i c _ (λ n r. refl) (λ n. ended_as (terminal_status c e) n c _ live))
                (λ _. search (life_part_rules, start_after-Lives) depth 20)

start_accepted-Lives : (i j k : ℕ) (o : Option ℕ) → Keeps Lives (start_accepted i j k o)
unfolding start_accepted
start_accepted-Lives i j k none = search life_part_rules depth 20
start_accepted-Lives i j k (some r) = search life_part_rules depth 20

pub start_queued_message-Lives : (i j k : ℕ) → Keeps Lives (start_queued_message i j k)
unfolding start_queued_message
start_queued_message-Lives i j k = search (life_part_rules, start_accepted-Lives) depth 20
