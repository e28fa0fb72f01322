-- ===== src/Store/Tests/Workspaces.antt =====
-- Resets, transitions and deletions.
use cloud_swe.Base.{
  for_each, ℕ, ◌≡◌, ◌≢◌, ◌≤◌, refl, true, none, some, arith, ok, err, find, any, select, update,
  count, ◌>>=◌,
}
use cloud_swe.Store.Schema.{Db, Workspace, WorkspaceState, EventType, DedupeKey, of_run}
use cloud_swe.Store.Shared.{
  thrown, thread_not_found, append_event, append_found, add_event, insert_event, fresh,
  lock_thread_and_workspace, workspace_is, workspace_of,
}
use cloud_swe.Store.Queue.{insert_outbox}
use cloud_swe.Store.Approvals.{invalidate_thread_approvals}
use cloud_swe.Store.Runs.{request_cancel}
use cloud_swe.Store.Deletion.{delete_thread, purge_thread, purge_deleted, assert_settled}
use cloud_swe.Store.Workspaces.{
  ResetInput, ResetResult, reset_workspace, apply_reset, returned, Transition,
  begin_lifecycle_transition, begin_from, set_transition, optional_id, cancel_lifecycle_transition,
}
use cloud_swe.Store.Generations.{Renewed, reset_workspace-Renewed}
use cloud_swe.Store.Transitions.{begin_lifecycle_transition-cancel}
use cloud_swe.Store.Erasure.{
  Erased, SameRows, delete_thread-hides, purge_thread-Erased, purge_thread-SameRows,
}
use cloud_swe.Store.Tests.Data.{start, thread, workspace, outcome}

abbrev reset : ResetInput
reset = record {
  thread_id = 1;
  expected_generation = 1;
  confirmed_missing = true;
  reason = 1;
  transition_id = none;
  provider_id = none;
  state = none;
}

abbrev renewed : ResetResult × Db
renewed =
    outcome
      (record {
        workspace = workspace 0 0;
        old_generation = 0;
        new_generation = 0;
        already_applied = true;
        event = record {
          id = 0;
          thread_id = 0;
          sequence = 0;
          kind = EventType.custom 0;
          payload = of_run 0;
          dedupe_key = DedupeKey.custom 0;
          created_at = 0;
        };
      })
      (reset_workspace reset start)

resets : reset_workspace reset start ≡ ok (renewed.0, renewed.1)
unfolding reset_workspace apply_reset returned invalidate_thread_approvals for_each append_event
    append_found add_event insert_event fresh lock_thread_and_workspace find any select update ◌>>=◌
resets = refl

reset_workspace-Renewed_example : (true ≡ true) × Renewed 1 1 renewed.0 renewed.1
reset_workspace-Renewed_example = reset_workspace-Renewed reset start renewed.0 renewed.1 resets

abbrev pausing : Transition × Db
pausing =
    outcome (record { transition_id = 0; workspace = workspace 0 0 })
      (begin_lifecycle_transition 1 none WorkspaceState.paused start)

pauses : begin_lifecycle_transition 1 none WorkspaceState.paused start ≡ ok (pausing.0, pausing.1)
unfolding begin_lifecycle_transition begin_from set_transition optional_id returned fresh
    lock_thread_and_workspace find any select update ◌>>=◌
pauses = refl

start-ids : (j : ℕ) → count (workspace_is j) start.workspaces ≤ 1
unfolding count
start-ids j = ground arith

begin_lifecycle_transition-cancel_example :
    (w : Workspace) × (d : Db) × (cancel_lifecycle_transition 1 pausing.0.transition_id pausing.1
      ≡ ok (w, d))
    × (find (workspace_of 1) d.workspaces ≡ some w)
    × (w ≡ record (workspace 21 1) {
      lifecycle_transition_id = none;
      lifecycle_transition_state = none;
      updated_at = pausing.1.clock;
    })
unfolding find
begin_lifecycle_transition-cancel_example =
    begin_lifecycle_transition-cancel 1 none WorkspaceState.paused start (workspace 21 1) pausing.0
      pausing.1 start-ids refl pauses

abbrev deleted : Unit {0} × Db
deleted = outcome tt (delete_thread 7 3 start)

deletes : delete_thread 7 3 start ≡ ok (deleted.0, deleted.1)
unfolding delete_thread assert_settled insert_outbox fresh find any select update ◌>>=◌
deletes = refl

delete_thread-hides_example :
    (delete_thread 7 3 deleted.1 ≡ err (thrown thread_not_found 404))
    × (request_cancel 7 3 11 deleted.1 ≡ err (thrown thread_not_found 404))
delete_thread-hides_example = delete_thread-hides 7 7 3 11 start deleted.0 deleted.1 deletes

abbrev purged : Unit {0} × Db
purged = outcome tt (purge_thread 2 start)

purges : purge_thread 2 start ≡ ok (purged.0, purged.1)
unfolding purge_thread purge_deleted assert_settled find any select update ◌>>=◌
purges = refl

purge_thread-Erased_example : Erased 2 purged.1
unfolding find
purge_thread-Erased_example =
    purge_thread-Erased 2 (thread 2 (some 800)) start purged.0 purged.1 refl purges

others : ◌≢◌ {A = ℕ} 1 2
others = ground arith

purge_thread-SameRows_example : SameRows 1 start purged.1
purge_thread-SameRows_example = purge_thread-SameRows 2 1 start purged.0 purged.1 others purges
