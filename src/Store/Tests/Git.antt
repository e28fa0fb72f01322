-- ===== src/Store/Tests/Git.antt =====
-- Two approved writes of one run, to two repositories.
use cloud_swe.Base.{
  ℕ, ◌≡◌, refl, Bool, true, false, none, some, [], ◌∷◌, ok, ℕ_discrete, find, any, update, ◌>>=◌,
}
use cloud_swe.Store.Schema.{Db, DedupeKey-discrete, GitOperation, Approval, Execution}
use cloud_swe.Store.Shared.{append_git_event, insert_event, fresh}
use cloud_swe.Store.GitStore.{
  git_claim, git_dispatch, lock_git_run, Decision, git_decide, decide_locked, settle_approval,
  read_operation, WriteOutcome, git_finish, finish_locked,
}
use cloud_swe.Store.Queue.{insert_outbox}
use cloud_swe.Store.Proposals.{Dispatched, git_claim-Dispatched, git_claim-once}
use cloud_swe.Store.Decisions.{Decides, git_decide-Decides, Reported, git_finish-Reported}
use cloud_swe.Store.Tests.Data.{start, outcome}

abbrev operation : ℕ → ℕ → GitOperation
operation id repository_id = record {
  id = id;
  run_id = 11;
  thread_id = 1;
  user_id = 7;
  generation = 1;
  repository_id = repository_id;
  digest = 3;
  approval = Approval.approved;
  execution = Execution.not_started;
  expires_at = 1100;
  decided_at = some 990;
  result = none;
}

abbrev proposed : Db
proposed = record start { git_operations = operation 81 501 ∷ operation 82 502 ∷ [] }

abbrev first_claim : (GitOperation × Bool) × Db
first_claim = outcome (operation 0 0, false) (git_claim 81 11 41 1 proposed)

abbrev second_claim : (GitOperation × Bool) × Db
second_claim = outcome (operation 0 0, false) (git_claim 82 11 41 1 first_claim.1)

claims_first : git_claim 81 11 41 1 proposed ≡ ok ((operation 81 501, true), first_claim.1)
unfolding git_claim git_dispatch lock_git_run append_git_event insert_event fresh find any update
    ◌>>=◌
claims_first = refl

claims_second : git_claim 82 11 41 1 first_claim.1 ≡ ok ((operation 82 502, true), second_claim.1)
unfolding git_claim git_dispatch lock_git_run append_git_event insert_event fresh find any update
    ◌>>=◌ DedupeKey-discrete ℕ_discrete
claims_second = refl

git_claim-Dispatched_example : Dispatched 81 11 41 1 proposed (operation 81 501) first_claim.1
git_claim-Dispatched_example =
    git_claim-Dispatched 81 11 41 1 proposed (operation 81 501) first_claim.1 claims_first

git_claim-once_example : ¬ ((operation 82 502).repository_id ≡ (operation 81 501).repository_id)
git_claim-once_example =
    git_claim-once 81 11 41 1 82 11 41 1 proposed (operation 81 501) first_claim.1
      (operation 82 502) second_claim.1 claims_first claims_second

-- The first proposal before its decision.
abbrev undecided : Db
undecided = record start {
  git_operations =
      record (operation 81 501) { approval = Approval.pending; decided_at = none }
      ∷ operation 82 502
      ∷ [];
}

abbrev decision_made : GitOperation × Db
decision_made = outcome (operation 0 0) (git_decide 7 1 81 Decision.approve 3 undecided)

decides : git_decide 7 1 81 Decision.approve 3 undecided ≡ ok (decision_made.0, decision_made.1)
unfolding git_decide decide_locked settle_approval insert_outbox read_operation lock_git_run
    append_git_event insert_event fresh find any update ◌>>=◌
decides = refl

git_decide-Decides_example :
    Decides 7 1 81 Decision.approve 3 undecided decision_made.0 decision_made.1
git_decide-Decides_example =
    git_decide-Decides 7 1 81 Decision.approve 3 undecided decision_made.0 decision_made.1 decides

abbrev reported : GitOperation × Db
reported = outcome (operation 0 0) (git_finish 81 WriteOutcome.succeeded 4 false proposed)

reports : git_finish 81 WriteOutcome.succeeded 4 false proposed ≡ ok (reported.0, reported.1)
unfolding git_finish finish_locked read_operation lock_git_run append_git_event insert_event fresh
    find any update ◌>>=◌
reports = refl

git_finish-Reported_example :
    Reported 81 WriteOutcome.succeeded 4 false proposed reported.0 reported.1
git_finish-Reported_example =
    git_finish-Reported 81 WriteOutcome.succeeded 4 false proposed reported.0 reported.1 reports
