-- ===== src/Store/Workspaces/Lifecycle.antt =====
-- `updateWorkspace`, `persistRecoveredProviderId`, `beginLifecycleTransition` and
-- `cancelLifecycleTransition` of packages/db/src/threads/workspaces.ts.
use cloud_swe.Base.{
  ℕ, Bool, true, false, Option, none, some, [], ◌∷◌, ◌++◌, ◌==◌, ◌&&◌, not, if◌then◌else◌, find,
  any, update, pure, fail, fail_if, gets, modify, require, ◌>>=◌, ◌>>◌, is_some, holds, or_else,
}
use cloud_swe.Store.Schema.{
  Db, Workspace, WorkspaceName, WorkspaceState, Provider, named, default_for, workspace_entered,
  transition_key, of_workspace, same_state,
}
use cloud_swe.Store.Shared.{
  Action, thrown, workspace_not_found, workspace_provider_required, workspace_generation_mismatch,
  lifecycle_transition_conflict, lifecycle_transition_required, unique_index, failed_check, fresh,
  append_event, lock_thread_and_workspace, lock_workspace_context, workspace_is,
}

abbrev pub set_workspace : ℕ → (ℕ → Workspace → Workspace) → Db → Db
set_workspace id f d = record d { workspaces = update (workspace_is id) (f d.clock) d.workspaces }

abbrev pub clear_transition : ℕ → Workspace → Workspace
clear_transition now w = record w {
  lifecycle_transition_id = none;
  lifecycle_transition_state = none;
  updated_at = now;
}

-- The row that an update returned, or the error for a workspace that is gone.
unfoldable pub returned : ℕ → Action Workspace
returned id = do
  row ← gets (λ d. find (workspace_is id) d.workspaces)
  require row (thrown workspace_not_found 404)

pub record WorkspaceUpdate : Type 0 where
  pub thread_id : ℕ
  pub state : WorkspaceState
  pub provider : Option Provider
  pub provider_id : Option (Option ℕ)
  pub name : Option ℕ
  pub generation : Option ℕ
  pub lifecycle_transition_id : Option ℕ

abbrev pub named_or_default : Option ℕ → ℕ → WorkspaceName
named_or_default none thread_id = default_for thread_id
named_or_default (some name) thread_id = named name

abbrev pub same_name : WorkspaceName → WorkspaceName → Bool
same_name (named m) (named n) = m == n
same_name (default_for m) (default_for n) = m == n
same_name _ _ = false

abbrev pub new_workspace : WorkspaceUpdate → Provider → ℕ → ℕ → Workspace
new_workspace input provider id now = record {
  id = id;
  thread_id = input.thread_id;
  name = named_or_default input.name input.thread_id;
  provider = provider;
  state = input.state;
  provider_id = or_else input.provider_id none;
  generation = or_else input.generation 1;
  lifecycle_transition_id = none;
  lifecycle_transition_state = none;
  reviewed_at = none;
  updated_at = now;
}

unfoldable pub optional_id : Option ℕ → Action ℕ
optional_id none = fresh
optional_id (some id) = pure id

unfoldable pub entered : ℕ → WorkspaceState → ℕ → ℕ → Option Bool → Action Unit
entered thread_id state generation transition_id missing = do
  append_event thread_id (workspace_entered state)
      (of_workspace (record {
        thread_id = thread_id;
        state = state;
        generation = generation;
        transition_id = transition_id;
        confirmed_missing = missing;
      }))
      (transition_key thread_id transition_id)
  pure tt

unfoldable pub create_workspace : WorkspaceUpdate → Action Workspace
create_workspace input = do
  provider ← require input.provider (thrown workspace_provider_required 400)
  transition_id ← optional_id input.lifecycle_transition_id
  id ← fresh
  now ← gets (λ d. d.clock)
  let created = new_workspace input provider id now
  fail_if (created.generation == 0) failed_check
  fail_if (← gets (λ d. any (λ w. same_name w.name created.name) d.workspaces)) unique_index
  modify (λ d. record d { workspaces = d.workspaces ++ created ∷ [] })
  entered input.thread_id input.state created.generation transition_id none
  pure created

-- The pending transition belongs to another attempt, or has another target.
abbrev pub conflicts : Option ℕ → WorkspaceState → Workspace → Bool
conflicts asked state w = elim w.lifecycle_transition_id [
  | none ↦ false
  | some pending ↦
      if (is_some asked && not (holds asked pending))
      then true
      else elim w.lifecycle_transition_state [ none ↦ false | some s ↦ not (same_state s state) ]
]

abbrev pub is_other : Option ℕ → ℕ → Bool
is_other none n = false
is_other (some m) n = not (m == n)

-- `lifecycleTransitionId ?? current.lifecycleTransitionId ?? (changedState ? randomUUID() : undefined)`
unfoldable pub transition_for : Option ℕ → Option ℕ → Bool → Action (Option ℕ)
transition_for (some id) pending changed = pure (some id)
transition_for none (some id) changed = pure (some id)
transition_for none none true = do id ← fresh; pure (some id)
transition_for none none false = pure none

abbrev pub apply_workspace : WorkspaceUpdate → ℕ → Workspace → Workspace
apply_workspace input now w = record (clear_transition now w) {
  state = input.state;
  provider = or_else input.provider w.provider;
  provider_id = or_else input.provider_id w.provider_id;
  name = elim input.name [ none ↦ w.name | some n ↦ named n ];
  generation = or_else input.generation w.generation;
}

-- Another workspace has the name.
abbrev pub is_named_else : Workspace → Workspace → Bool
is_named_else next w = not (w.id == next.id) && same_name w.name next.name

-- A state that changes is announced under its transition.
unfoldable pub announce : WorkspaceUpdate → Bool → Workspace → Option ℕ → Action Unit
announce input false current transition_id = pure tt
announce input true current none = fail (thrown lifecycle_transition_required 409)
announce input true current (some id) =
    entered input.thread_id input.state current.generation id none

unfoldable pub change_workspace : WorkspaceUpdate → Workspace → Action Workspace
change_workspace input current = do
  fail_if (is_other input.generation current.generation) (thrown workspace_generation_mismatch 409)
  fail_if (conflicts input.lifecycle_transition_id input.state current)
      (thrown lifecycle_transition_conflict 409)
  let changed = not (same_state current.state input.state)
  transition_id ←
      transition_for input.lifecycle_transition_id current.lifecycle_transition_id changed
  let next = apply_workspace input 0 current
  fail_if (next.generation == 0) failed_check
  fail_if (← gets (λ d. any (is_named_else next) d.workspaces)) unique_index
  modify (set_workspace current.id (apply_workspace input))
  announce input changed current transition_id
  returned current.id

unfoldable pub create_or_change : WorkspaceUpdate → Option Workspace → Action Workspace
create_or_change input none = create_workspace input
create_or_change input (some current) = change_workspace input current

unfoldable pub update_workspace : WorkspaceUpdate → Action Workspace
update_workspace input = do
  workspace ← lock_thread_and_workspace input.thread_id
  create_or_change input workspace

unfoldable pub persist_recovered_provider_id : ℕ → ℕ → Action Workspace
persist_recovered_provider_id workspace_id provider_id = do
  lock_workspace_context workspace_id
  modify (
      set_workspace workspace_id
        (λ now w. record w { provider_id = some provider_id; updated_at = now }))
  returned workspace_id

pub record Transition : Type 0 where
  pub transition_id : ℕ
  pub workspace : Workspace

unfoldable pub set_transition : ℕ → Option ℕ → WorkspaceState → Action Transition
set_transition workspace_id asked state = do
  id ← optional_id asked
  modify (
      set_workspace workspace_id (λ now w. record w {
        lifecycle_transition_id = some id;
        lifecycle_transition_state = some state;
        updated_at = now;
      }))
  next ← returned workspace_id
  pure (record { transition_id = id; workspace = next })

unfoldable pub begin_from : Workspace → Option ℕ → WorkspaceState → Option ℕ → Action Transition
begin_from current asked state (some id) = pure (record { transition_id = id; workspace = current })
begin_from current asked state none = set_transition current.id asked state

unfoldable pub begin_lifecycle_transition : ℕ → Option ℕ → WorkspaceState → Action Transition
begin_lifecycle_transition thread_id asked state = do
  workspace ← lock_thread_and_workspace thread_id
  current ← require workspace (thrown workspace_not_found 404)
  fail_if (conflicts asked state current) (thrown lifecycle_transition_conflict 409)
  begin_from current asked state current.lifecycle_transition_id

unfoldable pub cancel_lifecycle_transition : ℕ → ℕ → Action Workspace
cancel_lifecycle_transition thread_id transition_id = do
  workspace ← lock_thread_and_workspace thread_id
  current ← require workspace (thrown workspace_not_found 404)
  fail_if (not (holds current.lifecycle_transition_id transition_id))
      (thrown lifecycle_transition_conflict 409)
  modify (set_workspace current.id clear_transition)
  returned current.id
