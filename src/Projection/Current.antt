-- ===== src/Projection/Current.antt =====
-- Snapshots and projections of apps/web/src/lib/thread-projection.ts put together.
use cloud_swe.Base.{
  ℕ, ◌≤◌, Option, none, some, List, [], ◌∷◌, map, ok, ◌≡◌, refl, All, arith, ltb, if◌then◌else◌,
  or_else,
}
use cloud_swe.Store.Schema.{RunStatus}
use cloud_swe.Projection.Data.{Projection, ProjectedRun, ProjectedWorkspace}
use cloud_swe.Projection.Events.{Event}
use cloud_swe.Projection.Apply.{empty_projection}
use cloud_swe.Projection.Cases.{apply_events}
use cloud_swe.Projection.Snapshot.{
  Snapshot, SnapshotRun, SnapshotWorkspace, run_with, newer_run, newer_workspace, projected_run,
  reconcile, reconcile_thread_snapshot,
}
use cloud_swe.Projection.Sound.{RunSound, IsSound}
use cloud_swe.Projection.Replay.{apply_events-IsSound}

map-same : {A : Type 0} (f : A → A) (xs : List A) → ((x : A) → f x ≡ x) → map f xs ≡ xs
map-same f [] h = refl
map-same f (x ∷ xs) h = rw (h x, map-same f xs h)

projected_run-Sound :
    (c id : ℕ) (rs : List ProjectedRun) (r : ProjectedRun)
    → All (RunSound c) rs
    → projected_run id rs ≡ some r
    → r.status_sequence ≤ c
unfolding projected_run
projected_run-Sound c id [] r h e = absurd (ground arith)
projected_run-Sound c id (x ∷ rs) r h e = ground (arith, projected_run-Sound c id rs r h.1, h.0.0)

older_run :
    (w c : ℕ) (r : SnapshotRun) (o : Option ProjectedRun)
    → ((x : ProjectedRun) → o ≡ some x → x.status_sequence ≤ c)
    → c ≤ w
    → newer_run w r o ≡ r
older_run w c r none h le = refl
older_run w c r (some x) h le = go x.status
  where
    go : (s : Option RunStatus) → run_with w r x s ≡ r
    go none = refl
    go (some s) = let below = h x refl in ground arith

older_workspace :
    (w n : ℕ) (s : Option SnapshotWorkspace) (o : Option ProjectedWorkspace)
    → n ≤ w
    → newer_workspace w n s o ≡ s
older_workspace w n none o le = refl
older_workspace w n (some s) o le = ground arith

reconcile-older :
    (s : Snapshot) (p : Projection) (w : ℕ) → IsSound p → p.cursor ≤ w → reconcile s p w ≡ s
unfolding reconcile
reconcile-older s p w k le =
    let t : (if ltb w p.title_version then p.title else s.title) ≡ s.title =
      (let a = k.titled in ground arith) in
    let rs : map (λ (r : SnapshotRun). newer_run w r (projected_run r.id p.runs)) s.runs ≡ s.runs =
      map-same (λ (r : SnapshotRun). newer_run w r (projected_run r.id p.runs)) s.runs
        (λ r.
          older_run w p.cursor r (projected_run r.id p.runs)
            (λ x e. projected_run-Sound p.cursor r.id p.runs x k.ran e) le) in
    let ws : newer_workspace w p.workspace_sequence s.workspace p.workspace ≡ s.workspace =
      (let a = k.placed in
        older_workspace w p.workspace_sequence s.workspace p.workspace (omega arith)) in
    rw (t, rs, ws)

-- A snapshot that covers all events that the client has applied is shown as it is.
pub reconcile_thread_snapshot-current :
    (s : Snapshot) (thread_id : Option ℕ) (es : List Event) (p : Projection)
    → apply_events (empty_projection thread_id) es ≡ ok p
    → p.cursor ≤ or_else s.latest_event_id 0
    → reconcile_thread_snapshot s p ≡ s
unfolding reconcile_thread_snapshot
reconcile_thread_snapshot-current s thread_id es p h le =
    let same =
      reconcile-older s p (or_else s.latest_event_id 0) (apply_events-IsSound thread_id es p h)
        le in
    ground arith
