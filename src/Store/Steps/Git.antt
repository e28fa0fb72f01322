-- ===== src/Store/Steps/Git.antt =====
-- The operations on Git proposals.
use cloud_swe.Base.{ℕ, Bool}
use cloud_swe.Base.Keeps.{Keeps}
use cloud_swe.Store.Schema.{Db, Run, Workspace, GitOperation, Approval}
use cloud_swe.Store.GitStore.{
  Decision, WriteOutcome, lock_git_run, settle_approval, decide_locked, read_operation, git_decide,
  expire_one, git_expire, git_dispatch, git_claim, finish_locked, git_finish,
}
use cloud_swe.Store.Steps.Writes.{Writes}
use cloud_swe.Store.Steps.Parts.{part_rules}

module _ {R : Db → Db → Type 0} (writes : Writes R) where
  lock_git_run-Keeps : (i : ℕ) → Keeps R (lock_git_run i)
  unfolding lock_git_run
  lock_git_run-Keeps i = search part_rules depth 20

  read_operation-Keeps : (i : ℕ) → Keeps R (read_operation i)
  unfolding read_operation
  read_operation-Keeps i = search part_rules depth 20

  settle_approval-Keeps :
      (r : Run) (op : GitOperation) (a : Approval) → Keeps R (settle_approval r op a)
  unfolding settle_approval
  settle_approval-Keeps r op a = search part_rules depth 20

  decide_locked-Keeps :
      (x : Decision) (r : Run) (w : Workspace) (op : GitOperation)
      → Keeps R (decide_locked x r w op)
  unfolding decide_locked
  decide_locked-Keeps x r w op = search (part_rules, settle_approval-Keeps) depth 20

  pub git_decide-Keeps : (u t i : ℕ) (x : Decision) (g : ℕ) → Keeps R (git_decide u t i x g)
  unfolding git_decide
  git_decide-Keeps u t i x g =
      search (part_rules, lock_git_run-Keeps, read_operation-Keeps, decide_locked-Keeps) depth 20

  expire_one-Keeps :
      (r : Run) (w : Workspace) (n : ℕ) (op : GitOperation) → Keeps R (expire_one r w n op)
  unfolding expire_one
  expire_one-Keeps r w n op = search (part_rules, settle_approval-Keeps) depth 20

  pub git_expire-Keeps : (i : ℕ) → Keeps R (git_expire i)
  unfolding git_expire
  git_expire-Keeps i = search (part_rules, lock_git_run-Keeps, expire_one-Keeps) depth 20

  git_dispatch-Keeps : (r : Run) (w : Workspace) (op : GitOperation) → Keeps R (git_dispatch r w op)
  unfolding git_dispatch
  git_dispatch-Keeps r w op = search part_rules depth 20

  pub git_claim-Keeps : (i j k l : ℕ) → Keeps R (git_claim i j k l)
  unfolding git_claim
  git_claim-Keeps i j k l = search (part_rules, lock_git_run-Keeps, git_dispatch-Keeps) depth 20

  finish_locked-Keeps :
      (r : Run) (op : GitOperation) (o : WriteOutcome) (n : ℕ) (b : Bool)
      → Keeps R (finish_locked r op o n b)
  unfolding finish_locked
  finish_locked-Keeps r op o n b = search part_rules depth 20

  pub git_finish-Keeps :
      (i : ℕ) (o : WriteOutcome) (n : ℕ) (b : Bool) → Keeps R (git_finish i o n b)
  unfolding git_finish
  git_finish-Keeps i o n b =
      search (part_rules, lock_git_run-Keeps, read_operation-Keeps, finish_locked-Keeps) depth 20
