-- ===== src/Store/Lifecycle/Steps/Workspaces.antt =====
-- The operations on workspaces keep the life of the runs.
use cloud_swe.Base.{ℕ, Option, Bool, none, some, true, false}
use cloud_swe.Base.Keeps.{Keeps}
use cloud_swe.Store.Schema.{DiffStat, Workspace, WorkspaceState}
use cloud_swe.Store.Workspaces.{
  CleanupInput, ProviderResult, ResetInput, WorkspaceUpdate, announce, apply_reset, begin_from,
  begin_lifecycle_transition, cancel_lifecycle_transition, change_workspace, cleanup_transition,
  create_or_change, create_workspace, entered, optional_id, persist_recovered_provider_id,
  record_cleanup, record_diff_stat, replay_reset, request_workspace_wake, reset_workspace, returned,
  set_transition, settle_elsewhere, settle_pending, settle_unblocked, settle_with, transition_for,
  update_workspace,
}
use cloud_swe.Store.Shared.{BlockReason}
use cloud_swe.Store.Lifecycle.{Lives}
use cloud_swe.Store.Lifecycle.Steps.Parts.{life_part_rules}

pub returned-Lives : (i : ℕ) → Keeps Lives (returned i)
unfolding returned
returned-Lives i = search life_part_rules depth 20

pub entered-Lives :
    (i : ℕ) (s : WorkspaceState) (j k : ℕ) (m : Option Bool) → Keeps Lives (entered i s j k m)
unfolding entered
entered-Lives i s j k m = search life_part_rules depth 20

pub optional_id-Lives : (o : Option ℕ) → Keeps Lives (optional_id o)
unfolding optional_id
optional_id-Lives none = search life_part_rules depth 20
optional_id-Lives (some i) = search life_part_rules depth 20

pub transition_for-Lives : (o p : Option ℕ) (b : Bool) → Keeps Lives (transition_for o p b)
unfolding transition_for
transition_for-Lives (some i) p b = search life_part_rules depth 20
transition_for-Lives none (some i) b = search life_part_rules depth 20
transition_for-Lives none none true = search life_part_rules depth 20
transition_for-Lives none none false = search life_part_rules depth 20

pub create_workspace-Lives : (x : WorkspaceUpdate) → Keeps Lives (create_workspace x)
unfolding create_workspace
create_workspace-Lives x = search (life_part_rules, entered-Lives, optional_id-Lives) depth 20

pub announce-Lives :
    (x : WorkspaceUpdate) (b : Bool) (w : Workspace) (o : Option ℕ) → Keeps Lives (announce x b w o)
unfolding announce
announce-Lives x false w o = search life_part_rules depth 20
announce-Lives x true w none = search life_part_rules depth 20
announce-Lives x true w (some i) = search (life_part_rules, entered-Lives) depth 20

pub change_workspace-Lives :
    (x : WorkspaceUpdate) (w : Workspace) → Keeps Lives (change_workspace x w)
unfolding change_workspace
change_workspace-Lives x w =
    search (life_part_rules, returned-Lives, transition_for-Lives, announce-Lives) depth 20

pub create_or_change-Lives :
    (x : WorkspaceUpdate) (o : Option Workspace) → Keeps Lives (create_or_change x o)
unfolding create_or_change
create_or_change-Lives x none = search (life_part_rules, create_workspace-Lives) depth 20
create_or_change-Lives x (some w) = search (life_part_rules, change_workspace-Lives) depth 20

pub update_workspace-Lives : (x : WorkspaceUpdate) → Keeps Lives (update_workspace x)
unfolding update_workspace
update_workspace-Lives x = search (life_part_rules, create_or_change-Lives) depth 20

pub persist_recovered_provider_id-Lives :
    (i j : ℕ) → Keeps Lives (persist_recovered_provider_id i j)
unfolding persist_recovered_provider_id
persist_recovered_provider_id-Lives i j = search (life_part_rules, returned-Lives) depth 20

pub set_transition-Lives :
    (i : ℕ) (o : Option ℕ) (s : WorkspaceState) → Keeps Lives (set_transition i o s)
unfolding set_transition
set_transition-Lives i o s = search (life_part_rules, returned-Lives, optional_id-Lives) depth 20

pub begin_from-Lives :
    (w : Workspace) (o : Option ℕ) (s : WorkspaceState) (p : Option ℕ)
    → Keeps Lives (begin_from w o s p)
unfolding begin_from
begin_from-Lives w o s (some i) = search life_part_rules depth 20
begin_from-Lives w o s none = search (life_part_rules, set_transition-Lives) depth 20

pub begin_lifecycle_transition-Lives :
    (i : ℕ) (o : Option ℕ) (s : WorkspaceState) → Keeps Lives (begin_lifecycle_transition i o s)
unfolding begin_lifecycle_transition
begin_lifecycle_transition-Lives i o s = search (life_part_rules, begin_from-Lives) depth 20

pub cancel_lifecycle_transition-Lives : (i j : ℕ) → Keeps Lives (cancel_lifecycle_transition i j)
unfolding cancel_lifecycle_transition
cancel_lifecycle_transition-Lives i j = search (life_part_rules, returned-Lives) depth 20

pub replay_reset-Lives : (x : ResetInput) (w : Workspace) → Keeps Lives (replay_reset x w)
unfolding replay_reset
replay_reset-Lives x w = search life_part_rules depth 20

pub apply_reset-Lives : (x : ResetInput) (w : Workspace) → Keeps Lives (apply_reset x w)
unfolding apply_reset
apply_reset-Lives x w = search (life_part_rules, returned-Lives) depth 20

pub reset_workspace-Lives : (x : ResetInput) → Keeps Lives (reset_workspace x)
unfolding reset_workspace
reset_workspace-Lives x = search (life_part_rules, replay_reset-Lives, apply_reset-Lives) depth 20

pub record_cleanup-Lives :
    (i j : ℕ) (s : WorkspaceState) (p : Option (Option ℕ)) (b : Bool) (w : Workspace)
    → Keeps Lives (record_cleanup i j s p b w)
unfolding record_cleanup
record_cleanup-Lives i j s p b w = search (life_part_rules, returned-Lives, entered-Lives) depth 20

pub settle_with-Lives :
    (i j : ℕ) (s : WorkspaceState) (w : Workspace) (r : ProviderResult)
    → Keeps Lives (settle_with i j s w r)
unfolding settle_with
settle_with-Lives i j s w ProviderResult.unknown = search life_part_rules depth 20
settle_with-Lives i j s w ProviderResult.missing =
    search (life_part_rules, record_cleanup-Lives) depth 20
settle_with-Lives i j s w (ProviderResult.completed r) =
    search (life_part_rules, record_cleanup-Lives) depth 20

pub settle_unblocked-Lives :
    (x : CleanupInput) (i : ℕ) (w : Workspace) (o : Option BlockReason)
    → Keeps Lives (settle_unblocked x i w o)
unfolding settle_unblocked
settle_unblocked-Lives x i w (some r) = search life_part_rules depth 20
settle_unblocked-Lives x i w none = search (life_part_rules, settle_with-Lives) depth 20

pub settle_elsewhere-Lives :
    (x : CleanupInput) (i : ℕ) (w : Workspace) → Keeps Lives (settle_elsewhere x i w)
unfolding settle_elsewhere
settle_elsewhere-Lives x i w = search life_part_rules depth 20

pub settle_pending-Lives :
    (x : CleanupInput) (i : ℕ) (w : Workspace) → Keeps Lives (settle_pending x i w)
unfolding settle_pending
settle_pending-Lives x i w = search (life_part_rules, settle_unblocked-Lives) depth 20

pub cleanup_transition-Lives : (x : CleanupInput) (i : ℕ) → Keeps Lives (cleanup_transition x i)
unfolding cleanup_transition
cleanup_transition-Lives x i =
    search (life_part_rules, settle_elsewhere-Lives, settle_pending-Lives) depth 20

pub request_workspace_wake-Lives : (i : ℕ) → Keeps Lives (request_workspace_wake i)
unfolding request_workspace_wake
request_workspace_wake-Lives i = search life_part_rules depth 20

pub record_diff_stat-Lives : (i j : ℕ) (s : DiffStat) → Keeps Lives (record_diff_stat i j s)
unfolding record_diff_stat
record_diff_stat-Lives i j s = search life_part_rules depth 20
