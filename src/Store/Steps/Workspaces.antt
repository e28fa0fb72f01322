-- ===== src/Store/Steps/Workspaces.antt =====
-- The operations on workspaces.
use cloud_swe.Base.{ℕ, Option, Bool, none, some, true, false}
use cloud_swe.Base.Keeps.{Keeps}
use cloud_swe.Store.Schema.{Db, DiffStat, Workspace, WorkspaceState}
use cloud_swe.Store.Workspaces.{
  CleanupInput, ProviderResult, ResetInput, WorkspaceUpdate, announce, apply_reset, begin_from,
  begin_lifecycle_transition, cancel_lifecycle_transition, change_workspace, cleanup_transition,
  create_or_change, create_workspace, entered, optional_id, persist_recovered_provider_id,
  record_cleanup, record_diff_stat, replay_reset, request_workspace_wake, reset_workspace, returned,
  set_transition, settle_elsewhere, settle_pending, settle_unblocked, settle_with, transition_for,
  update_workspace,
}
use cloud_swe.Store.Shared.{BlockReason}
use cloud_swe.Store.Steps.Writes.{Writes}
use cloud_swe.Store.Steps.Parts.{part_rules}

module _ {R : Db → Db → Type 0} (writes : Writes R) where
  pub returned-Keeps : (i : ℕ) → Keeps R (returned i)
  unfolding returned
  returned-Keeps i = search part_rules depth 20

  pub entered-Keeps :
      (i : ℕ) (s : WorkspaceState) (j k : ℕ) (m : Option Bool) → Keeps R (entered i s j k m)
  unfolding entered
  entered-Keeps i s j k m = search part_rules depth 20

  pub optional_id-Keeps : (o : Option ℕ) → Keeps R (optional_id o)
  unfolding optional_id
  optional_id-Keeps none = search part_rules depth 20
  optional_id-Keeps (some i) = search part_rules depth 20

  pub transition_for-Keeps : (o p : Option ℕ) (b : Bool) → Keeps R (transition_for o p b)
  unfolding transition_for
  transition_for-Keeps (some i) p b = search part_rules depth 20
  transition_for-Keeps none (some i) b = search part_rules depth 20
  transition_for-Keeps none none true = search part_rules depth 20
  transition_for-Keeps none none false = search part_rules depth 20

  pub create_workspace-Keeps : (x : WorkspaceUpdate) → Keeps R (create_workspace x)
  unfolding create_workspace
  create_workspace-Keeps x = search (part_rules, entered-Keeps, optional_id-Keeps) depth 20

  pub announce-Keeps :
      (x : WorkspaceUpdate) (b : Bool) (w : Workspace) (o : Option ℕ) → Keeps R (announce x b w o)
  unfolding announce
  announce-Keeps x false w o = search part_rules depth 20
  announce-Keeps x true w none = search part_rules depth 20
  announce-Keeps x true w (some i) = search (part_rules, entered-Keeps) depth 20

  pub change_workspace-Keeps :
      (x : WorkspaceUpdate) (w : Workspace) → Keeps R (change_workspace x w)
  unfolding change_workspace
  change_workspace-Keeps x w =
      search (part_rules, returned-Keeps, transition_for-Keeps, announce-Keeps) depth 20

  pub create_or_change-Keeps :
      (x : WorkspaceUpdate) (o : Option Workspace) → Keeps R (create_or_change x o)
  unfolding create_or_change
  create_or_change-Keeps x none = search (part_rules, create_workspace-Keeps) depth 20
  create_or_change-Keeps x (some w) = search (part_rules, change_workspace-Keeps) depth 20

  pub update_workspace-Keeps : (x : WorkspaceUpdate) → Keeps R (update_workspace x)
  unfolding update_workspace
  update_workspace-Keeps x = search (part_rules, create_or_change-Keeps) depth 20

  pub persist_recovered_provider_id-Keeps : (i j : ℕ) → Keeps R (persist_recovered_provider_id i j)
  unfolding persist_recovered_provider_id
  persist_recovered_provider_id-Keeps i j = search (part_rules, returned-Keeps) depth 20

  pub set_transition-Keeps :
      (i : ℕ) (o : Option ℕ) (s : WorkspaceState) → Keeps R (set_transition i o s)
  unfolding set_transition
  set_transition-Keeps i o s = search (part_rules, returned-Keeps, optional_id-Keeps) depth 20

  pub begin_from-Keeps :
      (w : Workspace) (o : Option ℕ) (s : WorkspaceState) (p : Option ℕ)
      → Keeps R (begin_from w o s p)
  unfolding begin_from
  begin_from-Keeps w o s (some i) = search part_rules depth 20
  begin_from-Keeps w o s none = search (part_rules, set_transition-Keeps) depth 20

  pub begin_lifecycle_transition-Keeps :
      (i : ℕ) (o : Option ℕ) (s : WorkspaceState) → Keeps R (begin_lifecycle_transition i o s)
  unfolding begin_lifecycle_transition
  begin_lifecycle_transition-Keeps i o s = search (part_rules, begin_from-Keeps) depth 20

  pub cancel_lifecycle_transition-Keeps : (i j : ℕ) → Keeps R (cancel_lifecycle_transition i j)
  unfolding cancel_lifecycle_transition
  cancel_lifecycle_transition-Keeps i j = search (part_rules, returned-Keeps) depth 20

  pub replay_reset-Keeps : (x : ResetInput) (w : Workspace) → Keeps R (replay_reset x w)
  unfolding replay_reset
  replay_reset-Keeps x w = search part_rules depth 20

  pub apply_reset-Keeps : (x : ResetInput) (w : Workspace) → Keeps R (apply_reset x w)
  unfolding apply_reset
  apply_reset-Keeps x w = search (part_rules, returned-Keeps) depth 20

  pub reset_workspace-Keeps : (x : ResetInput) → Keeps R (reset_workspace x)
  unfolding reset_workspace
  reset_workspace-Keeps x = search (part_rules, replay_reset-Keeps, apply_reset-Keeps) depth 20

  pub record_cleanup-Keeps :
      (i j : ℕ) (s : WorkspaceState) (p : Option (Option ℕ)) (b : Bool) (w : Workspace)
      → Keeps R (record_cleanup i j s p b w)
  unfolding record_cleanup
  record_cleanup-Keeps i j s p b w = search (part_rules, returned-Keeps, entered-Keeps) depth 20

  pub settle_with-Keeps :
      (i j : ℕ) (s : WorkspaceState) (w : Workspace) (r : ProviderResult)
      → Keeps R (settle_with i j s w r)
  unfolding settle_with
  settle_with-Keeps i j s w ProviderResult.unknown = search part_rules depth 20
  settle_with-Keeps i j s w ProviderResult.missing =
      search (part_rules, record_cleanup-Keeps) depth 20
  settle_with-Keeps i j s w (ProviderResult.completed r) =
      search (part_rules, record_cleanup-Keeps) depth 20

  pub settle_unblocked-Keeps :
      (x : CleanupInput) (i : ℕ) (w : Workspace) (o : Option BlockReason)
      → Keeps R (settle_unblocked x i w o)
  unfolding settle_unblocked
  settle_unblocked-Keeps x i w (some r) = search part_rules depth 20
  settle_unblocked-Keeps x i w none = search (part_rules, settle_with-Keeps) depth 20

  pub settle_elsewhere-Keeps :
      (x : CleanupInput) (i : ℕ) (w : Workspace) → Keeps R (settle_elsewhere x i w)
  unfolding settle_elsewhere
  settle_elsewhere-Keeps x i w = search part_rules depth 20

  pub settle_pending-Keeps :
      (x : CleanupInput) (i : ℕ) (w : Workspace) → Keeps R (settle_pending x i w)
  unfolding settle_pending
  settle_pending-Keeps x i w = search (part_rules, settle_unblocked-Keeps) depth 20

  pub cleanup_transition-Keeps : (x : CleanupInput) (i : ℕ) → Keeps R (cleanup_transition x i)
  unfolding cleanup_transition
  cleanup_transition-Keeps x i =
      search (part_rules, settle_elsewhere-Keeps, settle_pending-Keeps) depth 20

  pub request_workspace_wake-Keeps : (i : ℕ) → Keeps R (request_workspace_wake i)
  unfolding request_workspace_wake
  request_workspace_wake-Keeps i = search part_rules depth 20

  pub record_diff_stat-Keeps : (i j : ℕ) (s : DiffStat) → Keeps R (record_diff_stat i j s)
  unfolding record_diff_stat
  record_diff_stat-Keeps i j s = search part_rules depth 20
