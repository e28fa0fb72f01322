-- ===== src/Store/Lifecycle/Steps/Git.antt =====
-- The operations on Git proposals keep the life of the runs.
use cloud_swe.Base.{ℕ, Bool}
use cloud_swe.Base.Keeps.{Keeps}
use cloud_swe.Store.Schema.{Run, Workspace, GitOperation, Approval}
use cloud_swe.Store.GitStore.{
  Decision, WriteOutcome, lock_git_run, settle_approval, decide_locked, read_operation, git_decide,
  expire_one, git_expire, git_dispatch, git_claim, finish_locked, git_finish,
}
use cloud_swe.Store.Lifecycle.{Lives}
use cloud_swe.Store.Lifecycle.Steps.Parts.{life_part_rules}

lock_git_run-Lives : (i : ℕ) → Keeps Lives (lock_git_run i)
unfolding lock_git_run
lock_git_run-Lives i = search life_part_rules depth 20

read_operation-Lives : (i : ℕ) → Keeps Lives (read_operation i)
unfolding read_operation
read_operation-Lives i = search life_part_rules depth 20

settle_approval-Lives :
    (r : Run) (op : GitOperation) (a : Approval) → Keeps Lives (settle_approval r op a)
unfolding settle_approval
settle_approval-Lives r op a = search life_part_rules depth 20

ruleset git_parts =
    (life_part_rules, lock_git_run-Lives, read_operation-Lives, settle_approval-Lives)

decide_locked-Lives :
    (x : Decision) (r : Run) (w : Workspace) (op : GitOperation)
    → Keeps Lives (decide_locked x r w op)
unfolding decide_locked
decide_locked-Lives x r w op = search git_parts depth 20

pub git_decide-Lives : (u t i : ℕ) (x : Decision) (g : ℕ) → Keeps Lives (git_decide u t i x g)
unfolding git_decide
git_decide-Lives u t i x g = search (git_parts, decide_locked-Lives) depth 20

expire_one-Lives :
    (r : Run) (w : Workspace) (n : ℕ) (op : GitOperation) → Keeps Lives (expire_one r w n op)
unfolding expire_one
expire_one-Lives r w n op = search git_parts depth 20

pub git_expire-Lives : (i : ℕ) → Keeps Lives (git_expire i)
unfolding git_expire
git_expire-Lives i = search (git_parts, expire_one-Lives) depth 20

git_dispatch-Lives :
    (r : Run) (w : Workspace) (op : GitOperation) → Keeps Lives (git_dispatch r w op)
unfolding git_dispatch
git_dispatch-Lives r w op = search git_parts depth 20

pub git_claim-Lives : (i j k l : ℕ) → Keeps Lives (git_claim i j k l)
unfolding git_claim
git_claim-Lives i j k l = search (git_parts, git_dispatch-Lives) depth 20

finish_locked-Lives :
    (r : Run) (op : GitOperation) (o : WriteOutcome) (n : ℕ) (b : Bool)
    → Keeps Lives (finish_locked r op o n b)
unfolding finish_locked
finish_locked-Lives r op o n b = search git_parts depth 20

pub git_finish-Lives :
    (i : ℕ) (o : WriteOutcome) (n : ℕ) (b : Bool) → Keeps Lives (git_finish i o n b)
unfolding git_finish
git_finish-Lives i o n b = search (git_parts, finish_locked-Lives) depth 20
