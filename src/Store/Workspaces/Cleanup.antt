-- ===== src/Store/Workspaces/Cleanup.antt =====
-- `cleanupWorkspace` of packages/db/src/threads/workspaces.ts. The provider's call is a function from
-- the workspace to its outcome, with nothing where it throws.
use cloud_swe.Base.{
  ℕ, Bool, true, false, Option, none, some, ◌||◌, not, if◌then◌else◌, Result, ok, err, pure,
  fail_if, gets, modify, require, ◌>>=◌, ◌>>◌, is_some, holds, or_else,
}
use cloud_swe.Store.Schema.{Db, Workspace, WorkspaceState, same_state}
use cloud_swe.Store.Shared.{
  Action, StoreError, BlockReason, thrown, workspace_not_found, lifecycle_transition_conflict,
  lock_thread_and_workspace, cleanup_block_reason,
}
use cloud_swe.Store.Workspaces.Lifecycle.{
  Transition, set_workspace, clear_transition, returned, entered, begin_lifecycle_transition,
}

-- `CleanupProviderResult`; the provider id is `undefined`, or null, or a text.
pub data ProviderResult : Type 0 where
  completed : Option (Option ℕ) → ProviderResult
  missing : ProviderResult
  unknown : ProviderResult

pub data CleanupResult : Type 0 where
  deferred : BlockReason → ℕ → Workspace → CleanupResult
  unknown : ℕ → Workspace → CleanupResult
  completed missing : ℕ → Workspace → CleanupResult

pub record CleanupInput : Type 0 where
  pub thread_id : ℕ
  pub transition_id : Option ℕ
  pub target_state : WorkspaceState
  pub mutate : Workspace → Option ProviderResult
  pub waiting_run_id : Option ℕ

abbrev pub is_paused : WorkspaceState → Bool
is_paused WorkspaceState.paused = true
is_paused _ = false

abbrev pub is_deleted : WorkspaceState → Bool
is_deleted WorkspaceState.deleted = true
is_deleted _ = false

-- `catch { providerResult = { outcome: "unknown" } }`
abbrev pub outcome_of : Option ProviderResult → ProviderResult
outcome_of none = ProviderResult.unknown
outcome_of (some r) = r

abbrev pub next_provider_id : WorkspaceState → Option (Option ℕ) → Option ℕ → Option ℕ
next_provider_id state reported current =
    if is_deleted state then none else or_else reported current

-- The provider's outcome is known: the row and the event.
unfoldable pub record_cleanup :
    ℕ → ℕ → WorkspaceState → Option (Option ℕ) → Bool → Workspace → Action Workspace
record_cleanup thread_id transition_id state reported is_missing current = do
  modify (
      set_workspace current.id (λ now w. record (clear_transition now w) {
        state = state;
        provider_id = next_provider_id state reported current.provider_id;
      }))
  entered thread_id state current.generation transition_id (some is_missing)
  returned current.id

unfoldable pub settle_with :
    ℕ → ℕ → WorkspaceState → Workspace → ProviderResult → Action CleanupResult
settle_with thread_id transition_id target current ProviderResult.unknown =
    pure (CleanupResult.unknown transition_id current)
settle_with thread_id transition_id target current ProviderResult.missing = do
  updated ← record_cleanup thread_id transition_id WorkspaceState.deleted none true current
  pure (CleanupResult.missing transition_id updated)
settle_with thread_id transition_id target current (ProviderResult.completed reported) = do
  updated ← record_cleanup thread_id transition_id target reported false current
  pure (CleanupResult.completed transition_id updated)

-- The provider is called only where nothing blocks the cleanup.
unfoldable pub settle_unblocked :
    CleanupInput → ℕ → Workspace → Option BlockReason → Action CleanupResult
settle_unblocked input transition_id current (some reason) =
    pure (deferred reason transition_id current)
settle_unblocked input transition_id current none =
    settle_with input.thread_id transition_id input.target_state current
      (outcome_of (input.mutate current))

abbrev pub waiting_run : CleanupInput → Option ℕ
waiting_run input = if is_paused input.target_state then input.waiting_run_id else none

-- The transition is not pending: done already, or a conflict.
unfoldable pub settle_elsewhere : CleanupInput → ℕ → Workspace → Action CleanupResult
settle_elsewhere input transition_id current = do
  fail_if
      (is_some current.lifecycle_transition_id || not (same_state current.state input.target_state))
      (thrown lifecycle_transition_conflict 409)
  pure (CleanupResult.completed transition_id current)

unfoldable pub settle_pending : CleanupInput → ℕ → Workspace → Action CleanupResult
settle_pending input transition_id current = do
  blocked ←
      gets (cleanup_block_reason current.id input.thread_id current.generation (waiting_run input))
  settle_unblocked input transition_id current blocked

-- The transaction, for a transition that was begun.
unfoldable pub cleanup_transition : CleanupInput → ℕ → Action CleanupResult
cleanup_transition input transition_id = do
  workspace ← lock_thread_and_workspace input.thread_id
  current ← require workspace (thrown workspace_not_found 404)
  if holds current.lifecycle_transition_id transition_id
      then settle_pending input transition_id current
      else settle_elsewhere input transition_id current

-- `db.transaction`, run on its own: an error leaves the database as it was.
abbrev pub committed : {A : Type 0} → Db → Result StoreError (A × Db) → Result StoreError A × Db
committed d (ok (a, d')) = (ok a, d')
committed d (err e) = (err e, d)

abbrev pub cleanup_begun :
    CleanupInput → Result StoreError Transition × Db → Result StoreError CleanupResult × Db
cleanup_begun input (ok begun, d) = committed d (cleanup_transition input begun.transition_id d)
cleanup_begun input (err e, d) = (err e, d)

-- The transition begins in a transaction of its own, which stays when the second one throws.
unfoldable pub cleanup_workspace : CleanupInput → Db → Result StoreError CleanupResult × Db
cleanup_workspace input d = elim input.transition_id [
  | some id ↦ committed d (cleanup_transition input id d)
  | none ↦
      cleanup_begun input
        (committed d (begin_lifecycle_transition input.thread_id none input.target_state d))
]
