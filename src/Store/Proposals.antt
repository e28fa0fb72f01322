-- ===== src/Store/Proposals.antt =====
-- The dispatch of writes to repositories: the claims of packages/db/src/git-store.ts.
use cloud_swe.Base.{
  ℕ, ◌<◌, ◌≡◌, ◌≢◌, inl, inr, true, false, is_some, holds, some, arith, ok, ◌>>=◌, ap, subst, ◌∙◌,
  find, find-p, any, update, any-update_in, Option-cases,
}
use cloud_swe.Store.Schema.{Db, Run, Workspace, GitOperation, Execution, is_active_run}
use cloud_swe.Store.Shared.{fresh, append_git_event, insert_event, run_is, workspace_of}
use cloud_swe.Store.WriteStates.{not_started_eq}
use cloud_swe.Store.GitStore.{
  operation_is, lock_git_run, is_approved, set_execution, unsettled_on, git_dispatch, git_claim,
}

-- A write that may go to the repository: it has not started, its proposal is approved and has not
-- expired, it belongs to the run, the run is active, not cancelled and owned by who asks, the
-- proposal's generation is the workspace's and the one that is asked for, and no write to the repository is unsettled.
pub record Dispatched (id run_id token generation : ℕ) (d : Db) (op : GitOperation) (d' : Db)
    : Type 0 where
  pub run : Run
  pub its_run : find (run_is run_id) d.runs ≡ some run
  pub owner : holds run.execution_owner_token token ≡ true
  pub active : is_active_run run.status ≡ true
  pub wanted : is_some run.cancel_requested_at ≡ false
  pub there : find (operation_is id) d.git_operations ≡ some op
  pub own : op.run_id ≡ run_id
  pub not_started : op.execution ≡ Execution.not_started
  pub approved : is_approved op.approval ≡ true
  pub fresh_proposal : d.clock < op.expires_at
  pub sandbox : Workspace
  pub its_sandbox : find (workspace_of run.thread_id) d.workspaces ≡ some sandbox
  pub current : (op.generation ≡ sandbox.generation) × (generation ≡ sandbox.generation)
  pub alone : any (unsettled_on op.repository_id) d.git_operations ≡ false
  pub written :
      d'.git_operations
      ≡ update (operation_is op.id) (set_execution Execution.executing) d.git_operations

-- A claim dispatches a write only where the write has not started, is approved and has not expired,
-- belongs to the run, which is active, not cancelled and owned by who asks, is for the generation that
-- the run's workspace has and that is asked for, and no write to the repository is unsettled; and it
-- marks the write as executing.
pub git_claim-Dispatched :
    (id run_id token generation : ℕ) (d : Db) (op : GitOperation) (d' : Db)
    → git_claim id run_id token generation d ≡ ok ((op, true), d')
    → Dispatched id run_id token generation d op d'
unfolding git_claim git_dispatch lock_git_run append_git_event insert_event fresh ◌>>=◌
git_claim-Dispatched id run_id token generation d op d' h =
    elim (Option-cases (find (run_is run_id) d.runs)) [
      | inl gone ↦ absurd (ground arith)
      | inr (r, run) ↦ elim (Option-cases (find (operation_is id) d.git_operations)) [
        | inl gone ↦ absurd (ground arith)
        | inr (o, found) ↦ elim (Option-cases (find (workspace_of r.thread_id) d.workspaces)) [
          | inl gone ↦ absurd (ground arith)
          | inr (w, there) ↦
              (let same : op ≡ o = ground arith in
                let named : r.id ≡ run_id =
                  ground (arith, find-p (run_is run_id) d.runs {a = r} run) in
                rw same (record {
                  run = r;
                  its_run = run;
                  owner = ground arith;
                  active = ground arith;
                  wanted = ground arith;
                  there = found;
                  own = ground arith;
                  not_started = not_started_eq o.execution (ground arith);
                  approved = ground arith;
                  fresh_proposal = ground arith;
                  sandbox = w;
                  its_sandbox = there;
                  current = (ground arith, ground arith);
                  alone = ground arith;
                  written = ground arith;
                }))
        ]
      ]
    ]

-- After a dispatch, and with nothing between, no claim dispatches another write to the repository, nor
-- the same one again.
pub git_claim-once :
    (id run_id token generation id' run_id' token' generation' : ℕ) (d : Db) (op : GitOperation)
    (d' : Db) (op' : GitOperation) (d'' : Db)
    → git_claim id run_id token generation d ≡ ok ((op, true), d')
    → git_claim id' run_id' token' generation' d' ≡ ok ((op', true), d'')
    → op'.repository_id ≢ op.repository_id
git_claim-once id run_id token generation id' run_id' token' generation' d op d' op' d'' first
      second same =
    let a = git_claim-Dispatched id run_id token generation d op d' first in
    let b = git_claim-Dispatched id' run_id' token' generation' d' op' d'' second in
    let named : op.id ≡ id =
      ground (arith, find-p (operation_is id) d.git_operations {a = op} a.there) in
    let rest =
      any-update_in (unsettled_on op.repository_id) (operation_is id)
        (set_execution Execution.executing) d.git_operations a.there (ground arith) in
    let rows : d'.git_operations
        ≡ update (operation_is id) (set_execution Execution.executing) d.git_operations =
      a.written
      ∙ ap (λ k. update (operation_is k) (set_execution Execution.executing) d.git_operations)
          named in
    let busy : any (unsettled_on op.repository_id) d'.git_operations ≡ true =
      ap (any (unsettled_on op.repository_id)) rows ∙ rest in
    let free : any (unsettled_on op.repository_id) d'.git_operations ≡ false =
      subst (λ r. any (unsettled_on r) d'.git_operations ≡ false) same b.alone in
    cc
