-- ===== src/Store/Decisions.antt =====
-- The user's decision on a proposal to write to a repository, and the report of the write's result:
-- packages/db/src/git-store.ts.
use cloud_swe.Base.{
  ℕ, ◌<◌, ◌≡◌, ◌≢◌, refl, any, inl, inr, Bool, true, ◌&&◌, not, some, arith, ok, ◌>>=◌, ◌⊎◌, ◌||◌,
  find-update_self, sym, subst, find, find-p, update, Option-cases, Bool-cases,
}
use cloud_swe.Store.Schema.{Db, GitOperation, Approval, Execution, GitResult, is_not_started}
use cloud_swe.Store.Shared.{fresh, append_git_event, insert_event}
use cloud_swe.Store.WriteStates.{
  Reports, execution_of-Reports, IsLate, IsAlone, settled-IsLate, open_if, free_if,
}
use cloud_swe.Store.GitStore.{
  is_held, operation_is, lock_git_run, Decision, approval_of, is_decided_as, decided,
  is_pending_approval, decide_locked, settle_approval, read_operation, git_decide, WriteOutcome,
  with_outcome, execution_of, is_finished, finish_locked, git_finish,
}
use cloud_swe.Store.Queue.{insert_outbox}

-- The proposal as the user decided it.
pub record Decides (user_id thread_id id : ℕ) (decision : Decision) (digest : ℕ) (d : Db)
    (op : GitOperation) (d' : Db) : Type 0 where
  pub proposal : GitOperation
  pub there : find (operation_is id) d.git_operations ≡ some proposal
  pub by_user : proposal.user_id ≡ user_id
  pub in_thread : proposal.thread_id ≡ thread_id
  pub as_seen : proposal.digest ≡ digest
  pub verdict : op.approval ≡ approval_of decision
  pub row_after : find (operation_is id) d'.git_operations ≡ some op
  pub cause :
      ((proposal.approval ≡ approval_of decision) × (d' ≡ d))
      ⊎ ((proposal.approval ≡ Approval.pending) × (d.clock < proposal.expires_at))

decided_as :
    (decision : Decision) (a : Approval)
    → is_decided_as decision a ≡ true
    → a ≡ approval_of decision
decided_as Decision.approve Approval.approved h = refl
decided_as Decision.approve Approval.rejected h = cc
decided_as Decision.approve Approval.pending h = cc
decided_as Decision.approve Approval.expired h = cc
decided_as Decision.approve Approval.invalidated h = cc
decided_as Decision.reject Approval.rejected h = refl
decided_as Decision.reject Approval.approved h = cc
decided_as Decision.reject Approval.pending h = cc
decided_as Decision.reject Approval.expired h = cc
decided_as Decision.reject Approval.invalidated h = cc

is_pending→pending : (a : Approval) → is_pending_approval a ≡ true → a ≡ Approval.pending
is_pending→pending Approval.pending h = refl
is_pending→pending Approval.approved h = cc
is_pending→pending Approval.rejected h = cc
is_pending→pending Approval.expired h = cc
is_pending→pending Approval.invalidated h = cc

-- A decision is taken only by the user whose proposal it is and only on the text that the user saw; it leaves the proposal with
-- that decision, and the proposal was pending and had not expired, or had that decision already, and then
-- nothing changes.
pub git_decide-Decides :
    (user_id thread_id id : ℕ) (decision : Decision) (digest : ℕ) (d : Db) (op : GitOperation)
    (d' : Db)
    → git_decide user_id thread_id id decision digest d ≡ ok (op, d')
    → Decides user_id thread_id id decision digest d op d'
unfolding git_decide decide_locked settle_approval insert_outbox read_operation lock_git_run
    append_git_event insert_event fresh ◌>>=◌
git_decide-Decides user_id thread_id id decision digest d op d' h =
    elim (Option-cases (find (operation_is id) d.git_operations)) [
      | inl gone ↦ absurd (ground arith)
      | inr (o, found) ↦ elim (Bool-cases (is_decided_as decision o.approval)) [
        | inl done ↦
            (let same : op ≡ o = ground arith in
              let still : d' ≡ d = ground arith in
              record {
                proposal = o;
                there = found;
                by_user = ground arith;
                in_thread = ground arith;
                as_seen = ground arith;
                verdict = rw same (decided_as decision o.approval done);
                row_after = rw same (rw still found);
                cause = inl (decided_as decision o.approval done, still);
              })
        | inr differs ↦
            (let f = decided (approval_of decision) d.clock in
              let named : o.id ≡ id =
                ground (arith, find-p (operation_is id) d.git_operations {a = o} found) in
              let self : find (operation_is id) (update (operation_is o.id) f d.git_operations)
                  ≡ some (f o) =
                subst
                  (λ k.
                    find (operation_is id) (update (operation_is k) f d.git_operations)
                    ≡ some (f o))
                  (sym named)
                  (find-update_self (operation_is id) f d.git_operations (λ x. refl) found) in
              record {
                proposal = o;
                there = found;
                by_user = ground arith;
                in_thread = ground arith;
                as_seen = ground arith;
                verdict = ground arith;
                row_after = ground arith;
                cause = inr (is_pending→pending o.approval (ground arith), ground arith);
              })
      ]
    ]

-- The report is written: the write has its state and the reported result, and is else as it was.
pub record Recorded (outcome : WriteOutcome) (result : ℕ) (expected : Bool) (d : Db)
    (earlier op : GitOperation) : Type 0 where
  pub open_before : ¬ IsLate expected earlier.execution
  pub free : (outcome ≢ WriteOutcome.unknown) ⊎ IsAlone earlier d
  pub execution : Execution
  pub state : Reports outcome execution
  pub row : op ≡ record earlier { execution = execution; result = some (GitResult.reported result) }

-- What a report of a write's result leaves: everything as it was, where it is late, or the write with its result.
pub record Reported (id : ℕ) (outcome : WriteOutcome) (result : ℕ) (expected : Bool) (d : Db)
    (op : GitOperation) (d' : Db) : Type 0 where
  pub earlier : GitOperation
  pub there : find (operation_is id) d.git_operations ≡ some earlier
  pub row_after : find (operation_is id) d'.git_operations ≡ some op
  pub change :
      (IsLate expected earlier.execution × ((op ≡ earlier) × (d' ≡ d)))
      ⊎ Recorded outcome result expected d earlier op

-- A report of a write's result is recorded, the write's state with it, unless the write has succeeded
-- or failed before, or the report is for a write that has not started and this one has; then nothing
-- changes. An unknown result is recorded only where no other write to the repository is unsettled.
pub git_finish-Reported :
    (id : ℕ) (outcome : WriteOutcome) (result : ℕ) (expected : Bool) (d : Db) (op : GitOperation)
    (d' : Db)
    → git_finish id outcome result expected d ≡ ok (op, d')
    → Reported id outcome result expected d op d'
unfolding git_finish finish_locked read_operation lock_git_run append_git_event insert_event fresh
    ◌>>=◌
git_finish-Reported id outcome result expected d op d' h =
    elim (Option-cases (find (operation_is id) d.git_operations)) [
      | inl gone ↦ absurd (ground arith)
      | inr (o, found) ↦
          elim (Bool-cases
            (is_finished o.execution || (expected && not (is_not_started o.execution)))) [
              | inl settled ↦
                  (let same : op ≡ o = ground arith in
                    let still : d' ≡ d = ground arith in
                    record {
                      earlier = o;
                      there = found;
                      row_after = rw same (rw still found);
                      change = inl (settled-IsLate expected o.execution settled, (same, still));
                    })
              | inr unsettled ↦
                  (let f = with_outcome outcome result in
                    let named : o.id ≡ id =
                      ground (arith, find-p (operation_is id) d.git_operations {a = o} found) in
                    let self : find (operation_is id)
                          (update (operation_is o.id) f d.git_operations)
                        ≡ some (f o) =
                      subst
                        (λ k.
                          find (operation_is id) (update (operation_is k) f d.git_operations)
                          ≡ some (f o))
                        (sym named)
                        (find-update_self (operation_is id) f d.git_operations (λ x. refl) found) in
                    record {
                      earlier = o;
                      there = found;
                      row_after = ground arith;
                      change = inr (record {
                        open_before = open_if expected o.execution unsettled;
                        free = free_if outcome (any (is_held o) d.git_operations) (ground arith);
                        execution = execution_of outcome;
                        state = execution_of-Reports outcome;
                        row = ground arith;
                      });
                    })
            ]
    ]
