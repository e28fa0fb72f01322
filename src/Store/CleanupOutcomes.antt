-- ===== src/Store/CleanupOutcomes.antt =====
-- What `cleanupWorkspace` of packages/db/src/threads/workspaces.ts leaves for each outcome.
use cloud_swe.Base.{
  ℕ, ◌≡◌, refl, inl, inr, Bool, true, false, Option, none, some, arith, ok, ◌>>=◌, holds, find,
  update, find-update, find-p, rewritten, map_option, Option-cases, Bool-cases,
}
use cloud_swe.Base.Keeps.{Keeps}
use cloud_swe.Base.Triples.{Gives, Gives-bind, Gives-pure, Gives-modify, Gives-gets}
use cloud_swe.Store.Schema.{Db, Workspace, WorkspaceState, same_state_eq}
use cloud_swe.Store.Shared.{
  workspace_is, workspace_of, lock_thread_and_workspace, cleanup_block_reason, BlockReason,
}
use cloud_swe.Store.Workspaces.{
  set_workspace, clear_transition, returned, entered, ProviderResult, CleanupResult, CleanupInput,
  deferred, outcome_of, next_provider_id, record_cleanup, settle_with, settle_unblocked,
  settle_elsewhere, settle_pending, cleanup_transition, waiting_run,
}
use cloud_swe.Store.ThreadRows.{
  SameWork, work_rules, ThreadRow, set_workspace-ThreadRow, SameWork-ThreadRow,
}

-- The row of a workspace, if it is there, meets `Q`.
abbrev RowHas : ℕ → (Workspace → Type 0) → Db → Type 0
RowHas w Q d = (r : Workspace) → find (workspace_is w) d.workspaces ≡ some r → Q r

set_workspace-RowHas :
    (w : ℕ) (f : ℕ → Workspace → Workspace) (Q : Workspace → Type 0) (d : Db)
    → ((r : Workspace) → (f d.clock r).id ≡ r.id)
    → ((r : Workspace) → Q (f d.clock r))
    → RowHas w Q (set_workspace w f d)
set_workspace-RowHas w f Q d id meets r there =
    elim (Option-cases (find (workspace_is w) d.workspaces)) [
      | inl gone ↦ absurd (ground (arith, same))
      | inr (old, found) ↦
          (let is : r ≡ f d.clock old =
              ground (arith, same, find-p (workspace_is w) d.workspaces {a = old} found) in
            rw is (meets old))
    ]
  where
    same :
        find (workspace_is w) (update (workspace_is w) (f d.clock) d.workspaces)
        ≡ map_option (rewritten (workspace_is w) (f d.clock)) (find (workspace_is w) d.workspaces)
    same = find-update _ _ (f d.clock) d.workspaces (λ r. ground (arith, id r))

entered-SameWork :
    (i : ℕ) (state : WorkspaceState) (g t : ℕ) (m : Option Bool)
    → Keeps SameWork (entered i state g t m)
unfolding entered
entered-SameWork i state g t m = search work_rules depth 20

-- The row that a cleanup writes.
abbrev cleaned : WorkspaceState → Option (Option ℕ) → Workspace → ℕ → Workspace → Workspace
cleaned state reported current now w = record (clear_transition now w) {
  state = state;
  provider_id = next_provider_id state reported current.provider_id;
}

-- The transition is over.
pub record Over (state : WorkspaceState) (w : Workspace) : Type 0 where
  pub no_transition : w.lifecycle_transition_id ≡ none
  pub reached : w.state ≡ state

-- The row that the update returned, and the thread's workspace in the database, have reached the state.
abbrev pub Settled : ℕ → WorkspaceState → Workspace → Db → Type 0
Settled i state w d = Over state w × ThreadRow i (Over state) d

returned-Settled :
    (i w : ℕ) (state : WorkspaceState)
    → Gives
        (λ d. RowHas w (Over state) d × ThreadRow i (Over state) d)
        (Settled i state)
        (returned w)
unfolding returned ◌>>=◌
returned-Settled i w state = record {
  at = λ d r d' (has, row) h.
      let still : d' ≡ d = ground arith in (has r (ground arith), rw still row);
}

record_cleanup-Settled :
    (i t : ℕ) (state : WorkspaceState) (reported : Option (Option ℕ)) (missing : Bool)
    (w : Workspace)
    → Gives
        (λ d. find (workspace_of i) d.workspaces ≡ some w)
        (Settled i state)
        (record_cleanup i t state reported missing w)
unfolding record_cleanup
record_cleanup-Settled i t state reported missing w =
    Gives-bind (λ _ d. RowHas w.id (Over state) d × ThreadRow i (Over state) d) _ _
      (Gives-modify _ λ d found. (
        set_workspace-RowHas w.id (cleaned state reported w) (Over state) d (λ r. refl)
            (λ r. record { no_transition = refl; reached = refl }),
        set_workspace-ThreadRow i w (cleaned state reported w) (Over state) d (λ r. refl)
            (λ r. refl) found (record { no_transition = refl; reached = refl }),
      ))
      λ _.
        Gives-bind (λ _ d. RowHas w.id (Over state) d × ThreadRow i (Over state) d) _ _
          (record {
            at = λ d a d' (has, row) h.
                let same = (entered-SameWork i state w.generation t (some missing)).at d a d' h in
                (λ r there. has r (rw same.1 at there), SameWork-ThreadRow i _ d d' same row);
          })
          λ _. returned-Settled i w.id state

-- What each result means: a cleanup that waits, for the reason that blocks it, or that does not know what the provider did changed nothing;
-- one that is done left the thread's workspace in its target state, and one that found it missing as
-- deleted, both with no transition, in the answer and in the database. The transition is named in each.
abbrev pub Leaves : CleanupInput → ℕ → Db → CleanupResult → Db → Type 0
Leaves x t d (deferred reason t' w) d' =
    (t' ≡ t)
    × ((d' ≡ d)
        × (cleanup_block_reason w.id x.thread_id w.generation (waiting_run x) d ≡ some reason))
Leaves x t d (CleanupResult.unknown t' w) d' = (t' ≡ t) × (d' ≡ d)
Leaves x t d (CleanupResult.completed t' w) d' = (t' ≡ t) × Settled x.thread_id x.target_state w d'
Leaves x t d (CleanupResult.missing t' w) d' =
    (t' ≡ t) × Settled x.thread_id WorkspaceState.deleted w d'

module _ (x : CleanupInput) (t : ℕ) (w : Workspace) (d : Db)
    (there : find (workspace_of x.thread_id) d.workspaces ≡ some w) where
  recorded :
      (state : WorkspaceState) (reported : Option (Option ℕ)) (missing : Bool)
      → Gives
          (λ e. e ≡ d)
          (Settled x.thread_id state)
          (record_cleanup x.thread_id t state reported missing w)
  recorded state reported missing = record {
    at = λ e r e' is h.
        (record_cleanup-Settled x.thread_id t state reported missing w).at e r e' (rw is there) h;
  }

  settle_with-Leaves :
      (p : ProviderResult)
      → Gives (λ e. e ≡ d) (Leaves x t d) (settle_with x.thread_id t x.target_state w p)
  unfolding settle_with
  settle_with-Leaves ProviderResult.unknown = Gives-pure _ λ e is. (refl, is)
  settle_with-Leaves ProviderResult.missing =
      Gives-bind (Settled x.thread_id WorkspaceState.deleted) _ _
        (recorded WorkspaceState.deleted none true) λ r. Gives-pure _ λ e done. (refl, done)
  settle_with-Leaves (ProviderResult.completed reported) =
      Gives-bind (Settled x.thread_id x.target_state) _ _ (recorded x.target_state reported false)
        λ r. Gives-pure _ λ e done. (refl, done)

  settle_unblocked-Leaves :
      (o : Option BlockReason)
      → Gives
          (λ e.
            (e ≡ d) × (cleanup_block_reason w.id x.thread_id w.generation (waiting_run x) d ≡ o))
          (Leaves x t d)
          (settle_unblocked x t w o)
  unfolding settle_unblocked
  settle_unblocked-Leaves (some reason) = Gives-pure _ λ e k. (refl, k)
  settle_unblocked-Leaves none = record {
    at = λ s a s' (is, _) h. (settle_with-Leaves (outcome_of (x.mutate w))).at s a s' is h;
  }

  settle_pending-Leaves : Gives (λ e. e ≡ d) (Leaves x t d) (settle_pending x t w)
  unfolding settle_pending
  settle_pending-Leaves =
      Gives-bind
        (λ o e.
          (e ≡ d) × (cleanup_block_reason w.id x.thread_id w.generation (waiting_run x) d ≡ o))
        _ _ (Gives-gets _ λ e is. (is, rw is)) settle_unblocked-Leaves

  settle_elsewhere-Leaves :
      {r : CleanupResult} {d' : Db} → settle_elsewhere x t w d ≡ ok (r, d') → Leaves x t d r d'
  unfolding settle_elsewhere ◌>>=◌
  settle_elsewhere-Leaves {r} {d'} h =
      let is : r ≡ CleanupResult.completed t w = ground arith in
      let still : d' ≡ d = ground arith in
      let over : Over x.target_state w = record {
        no_transition = ground arith;
        reached = ground (arith, same_state_eq w.state x.target_state);
      } in
      rw is (rw still (refl, (over, (w, there, over))))

-- A cleanup that returns leaves what its result says, whatever the provider's call does: where it is
-- deferred, a reason blocks it and nothing is changed; where the outcome is unknown, nothing is
-- changed; where it is completed, the thread's workspace is in the target state, and where it is
-- missing, deleted, in the database as in the answer, each time with no transition.
pub cleanup_transition-Leaves :
    (x : CleanupInput) (t : ℕ) (d : Db) (r : CleanupResult) (d' : Db)
    → cleanup_transition x t d ≡ ok (r, d')
    → Leaves x t d r d'
unfolding cleanup_transition lock_thread_and_workspace ◌>>=◌
cleanup_transition-Leaves x t d r d' h =
    elim (Option-cases (find (workspace_of x.thread_id) d.workspaces)) [
      | inl gone ↦ absurd (ground arith)
      | inr (w, there) ↦ elim (Bool-cases (holds w.lifecycle_transition_id t)) [
        | inl pending ↦ (settle_pending-Leaves x t w d there).at d r d' refl (ground arith)
        | inr other ↦ settle_elsewhere-Leaves x t w d there (ground arith)
      ]
    ]
