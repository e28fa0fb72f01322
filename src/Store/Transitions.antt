-- ===== src/Store/Transitions.antt =====
-- The lifecycle transitions and the cleanup of packages/db/src/threads/workspaces.ts.
use cloud_swe.Base.{
  ℕ, ◌≤◌, ◌≡◌, refl, ap, ◌∙◌, suc, List, ==-refl, inl, inr, true, Option, none, some, arith, ok,
  ◌>>=◌, is_some, find, count, update, find-update_self, find-only, find-update, Option-cases,
}
use cloud_swe.Store.Schema.{Db, Workspace, WorkspaceState}
use cloud_swe.Store.Shared.{fresh, lock_thread_and_workspace, workspace_is, workspace_of, thread_is}
use cloud_swe.Store.Workspaces.{
  Transition, begin_from, set_transition, optional_id, returned, begin_lifecycle_transition,
  cancel_lifecycle_transition, clear_transition, set_workspace,
}

-- The workspace of the thread, which was `before`, has the pending transition.
record Pending (i : ℕ) (before : Workspace) (tr : Transition) (d : Db) : Type 0 where
  thread : is_some (find (thread_is i) d.threads) ≡ true
  row : find (workspace_of i) d.workspaces ≡ some tr.workspace
  own : find (workspace_is tr.workspace.id) d.workspaces ≡ some tr.workspace
  transition : tr.workspace.lifecycle_transition_id ≡ some tr.transition_id
  rest : (now : ℕ) → clear_transition now tr.workspace ≡ clear_transition now before

abbrev pending_row : ℕ → WorkspaceState → ℕ → Workspace → Workspace
pending_row id s now w = record w {
  lifecycle_transition_id = some id;
  lifecycle_transition_state = some s;
  updated_at = now;
}

-- A write to the workspace that was read by its thread, found again by its id and by its thread.
module _ (i : ℕ) (w : Workspace) (f : Workspace → Workspace) (ws : List Workspace)
    (same_id : (x : Workspace) → (f x).id ≡ x.id)
    (same_thread : (x : Workspace) → (f x).thread_id ≡ x.thread_id)
    (there : find (workspace_of i) ws ≡ some w) where
  by_id :
      count (workspace_is w.id) ws ≤ 1
      → find (workspace_is w.id) (update (workspace_is w.id) f ws) ≡ some (f w)
  by_id one =
      find-update_self (workspace_is w.id) f ws (λ x. ground (arith, same_id x))
        (find-only (workspace_of i) (workspace_is w.id) ws one there (==-refl w.id))

  pub by_thread : find (workspace_of i) (update (workspace_is w.id) f ws) ≡ some (f w)
  by_thread =
      find-update (workspace_of i) (workspace_is w.id) f ws (λ x. ground (arith, same_thread x))
      ∙ (rw there (ground (arith, ==-refl w.id)))

module _ (i : ℕ) (s : WorkspaceState) (d : Db) (w : Workspace)
    (there : find (workspace_of i) d.workspaces ≡ some w)
    (one : count (workspace_is w.id) d.workspaces ≤ 1) {tr : Transition} {d' : Db} where
  set_transition-Pending :
      (asked : Option ℕ)
      → is_some (find (thread_is i) d.threads) ≡ true
      → set_transition w.id asked s d ≡ ok (tr, d')
      → Pending i w tr d'
  unfolding set_transition optional_id returned fresh ◌>>=◌
  set_transition-Pending none thread h =
      let a =
        by_id i w (pending_row (suc d.next_id) s d.clock) d.workspaces (λ x. refl) (λ x. refl) there
          one in
      let b =
        by_thread i w (pending_row (suc d.next_id) s d.clock) d.workspaces (λ x. refl) (λ x. refl)
          there in
      record {
        thread = ground arith;
        row = ground (arith, a, b);
        own = ground (arith, a, b);
        transition = ground (arith, a, b);
        rest = λ now.
            let same : tr.workspace ≡ pending_row (suc d.next_id) s d.clock w =
              ground (arith, a, b) in
            ap (clear_transition now) same;
      }
  set_transition-Pending (some id) thread h =
      let a = by_id i w (pending_row id s d.clock) d.workspaces (λ x. refl) (λ x. refl) there one in
      let b = by_thread i w (pending_row id s d.clock) d.workspaces (λ x. refl) (λ x. refl) there in
      record {
        thread = ground arith;
        row = ground (arith, a, b);
        own = ground (arith, a, b);
        transition = ground (arith, a, b);
        rest = λ now.
            let same : tr.workspace ≡ pending_row id s d.clock w = ground (arith, a, b) in
            ap (clear_transition now) same;
      }

module _ (i : ℕ) (asked : Option ℕ) (s : WorkspaceState) (d : Db) (before : Workspace)
    {tr : Transition} {d' : Db} (ids : (j : ℕ) → count (workspace_is j) d.workspaces ≤ 1)
    (there : find (workspace_of i) d.workspaces ≡ some before) where
  begin_lifecycle_transition-Pending :
      begin_lifecycle_transition i asked s d ≡ ok (tr, d') → Pending i before tr d'
  unfolding begin_lifecycle_transition lock_thread_and_workspace begin_from ◌>>=◌
  begin_lifecycle_transition-Pending h = elim (Option-cases before.lifecycle_transition_id) [
    | inr (pending, is) ↦
        (let own : find (workspace_is before.id) d.workspaces ≡ some before =
            find-only (workspace_of i) (workspace_is before.id) d.workspaces (ids before.id) there
              (==-refl before.id) in
          let same : tr.workspace ≡ before = ground arith in
          record {
            thread = ground arith;
            row = ground arith;
            own = ground arith;
            transition = ground arith;
            rest = λ now. ap (clear_transition now) same;
          })
    | inl idle ↦
        set_transition-Pending i s d before there (ids before.id) asked (ground arith)
          (ground arith)
  ]

-- Where no two workspaces have one id, a transition that began can be cancelled by its id, and the
-- thread's workspace in the database is then as it was before the beginning, with no transition and
-- the time of the cancellation.
pub begin_lifecycle_transition-cancel :
    (i : ℕ) (asked : Option ℕ) (s : WorkspaceState) (d : Db) (before : Workspace) (tr : Transition)
    (d' : Db)
    → ((j : ℕ) → count (workspace_is j) d.workspaces ≤ 1)
    → find (workspace_of i) d.workspaces ≡ some before
    → begin_lifecycle_transition i asked s d ≡ ok (tr, d')
    → (w : Workspace) × (d'' : Db) × (cancel_lifecycle_transition i tr.transition_id d'
        ≡ ok (w, d''))
      × (find (workspace_of i) d''.workspaces ≡ some w)
      × (w ≡ record before {
        lifecycle_transition_id = none;
        lifecycle_transition_state = none;
        updated_at = d'.clock;
      })
unfolding cancel_lifecycle_transition lock_thread_and_workspace returned ◌>>=◌
begin_lifecycle_transition-cancel i asked s d before tr d' ids there h =
    let p = begin_lifecycle_transition-Pending i asked s d before ids there h in
    let w = tr.workspace in
    let a : find (workspace_is w.id)
          (update (workspace_is w.id) (clear_transition d'.clock) d'.workspaces)
        ≡ some (clear_transition d'.clock w) =
      find-update_self (workspace_is w.id) (clear_transition d'.clock) d'.workspaces (λ x. refl)
        p.own in
    (
      clear_transition d'.clock w,
      set_workspace w.id clear_transition d',
      ground (arith, a, p.thread, p.row, p.transition, ==-refl tr.transition_id),
      by_thread i w (clear_transition d'.clock) d'.workspaces (λ x. refl) (λ x. refl) p.row,
      p.rest d'.clock,
    )
