-- ===== src/Store/Wakes.antt =====
-- The wakes of `requestWorkspaceWake` of packages/db/src/threads/workspaces.ts.
use cloud_swe.Base.{
  suc, ℕ, ◌≡◌, inl, inr, none, [], ◌∷◌, arith, ok, ◌>>=◌, any, any-append, Bool-cases,
}
use cloud_swe.Store.Schema.{Db, Outbox, workspace_wake}
use cloud_swe.Store.Shared.{lock_thread_and_workspace, fresh}
use cloud_swe.Store.Queue.{insert_outbox}
use cloud_swe.Store.Workspaces.{WakeResult, request_workspace_wake, is_wake}

abbrev wake_row : ℕ → Db → Outbox
wake_row i d = record {
  id = suc d.next_id;
  kind = workspace_wake;
  thread_id = i;
  run_id = none;
  attempts = 0;
  available_at = d.clock;
  delivered_at = none;
  last_error = none;
  created_at = d.clock;
}

-- A request that queued a wake, made again before the wake is delivered and with nothing else between,
-- answers the same and adds nothing to the outbox.
pub request_workspace_wake-once :
    (i : ℕ) (d d' : Db)
    → request_workspace_wake i d ≡ ok (WakeResult.queued, d')
    → request_workspace_wake i d' ≡ ok (WakeResult.queued, d')
unfolding request_workspace_wake lock_thread_and_workspace insert_outbox fresh any ◌>>=◌
request_workspace_wake-once i d d' h = elim (Bool-cases (any (is_wake i) d.outbox)) [
  | inl waiting ↦ ground arith
  | inr new ↦ ground (arith, any-append (is_wake i) d.outbox (wake_row i d ∷ []))
]
